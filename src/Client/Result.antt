-- ===== src/Client/Result.antt =====
-- Go's pair of a value and an error, for the callers that look at the error first.
use kubecon.Prelude.{◌≡◌, refl, ◌⊎◌, inl, inr, Option, none, some}

-- A call's value, or the error that it returns in its place.
pub data Result (E A : Type 0) : Type 0 where
  ok : A → Result E A
  err : E → Result E A

abbrev pub error_of : {E A : Type 0} → Result E A → Option E
error_of (ok a) = none
error_of (err e) = some e

-- What a call returns that panics with its error in place of returning it.
pub data OrPanic (E A : Type 0) : Type 0 where
  value : A → OrPanic E A
  panics : E → OrPanic E A

abbrev pub or_panic : {E A : Type 0} → Result E A → OrPanic E A
or_panic (ok a) = value a
or_panic (err e) = panics e

pub Result-cases :
    {E A : Type 0} (r : Result E A) → ((a : A) × (r ≡ ok a)) ⊎ ((e : E) × (r ≡ err e))
Result-cases (ok a) = inl (a, refl)
Result-cases (err e) = inr (e, refl)

-- ===== src/Provisioner/Finalizers/Laws.antt =====
-- Lemmas on provisioner.go's lists of finalizers, beside those of the library.
use mathlib.Core.Bool.{Bool-discrete}
use mathlib.Core.List.{filter}
use kubecon.Prelude.{String, ◌≡◌, refl, false, List, [], ◌∷◌, ◌==◌, eq_iff, if◌then◌else◌, arith}
use kubecon.Prelude.Strings.{has}
use kubecon.Provisioner.Finalizers.{without}

-- The loop of `finalize` keeps, in order, the finalizers other than its own.
pub without-eq-filter :
    (key : String) (l : List String)
    → without key l ≡ filter (λ f. Bool-discrete (f == key) false) l
unfolding without
without-eq-filter key [] = refl
without-eq-filter key (f ∷ l) = ground (arith, without-eq-filter key l)

pub has-without :
    (key k : String) (l : List String)
    → has (without key l) k ≡ (if key == k then false else has l k)
unfolding without
has-without key k [] = ground arith
has-without key k (f ∷ l) =
    ground (arith, has-without key k l, eq_iff f key, eq_iff f k, eq_iff key k)

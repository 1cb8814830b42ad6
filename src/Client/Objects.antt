-- ===== src/Client/Objects.antt =====
-- What the controllers ask of a typed client, whichever it is: the interface that the clients of
-- pkg/client fill, and the law by which an API server keeps objects.
use text.Mathlib.TextPositions.{eq_refl}
use kubecon.Prelude.{String, ◌≡◌, sym, ◌∙◌, Option, none, some, ◌==◌, if◌then◌else◌}
use kubecon.Prelude.Exec.{Exec}
use kubecon.Client.Result.{Result, ok}

-- The calls of a typed client, `kubernetes` style: the object that a write returns is dropped by
-- every caller, and `get` returns an object or an error.
pub record ResourceClient (E O A : Type 0) : Type 0 where
  pub get : String → Exec O (Result E A)
  pub create : A → Exec O (Option E)
  pub update : A → Exec O (Option E)

-- The server keeps objects by name: an accepted update stores what `kept` says of the object that
-- was sent, under its name, and a refused one changes nothing; what `get` finds is, as far as `seen`
-- tells, what is stored under the name, and it changes nothing.
pub record KeepsObjects {E O A : Type 0} (R : ResourceClient E O A) (name : A → String)
    (kept : A → Option A) (seen : A → A) (view : O → String → Option A) : Type 0 where
  pub update_accepted :
      (a : A) (o : O)
      → (R.update a o).0 ≡ none
      → (n : String) → view (R.update a o).1 n ≡ (if name a == n then kept a else view o n)
  pub update_refused :
      (a : A) (o : O) (e : E)
      → (R.update a o).0 ≡ some e
      → (n : String) → view (R.update a o).1 n ≡ view o n
  pub get_found : (n : String) (o : O) (a : A) → (R.get n o).0 ≡ ok a → view o n ≡ some (seen a)
  pub get_keeps : (n : String) (o : O) (m : String) → view (R.get n o).1 m ≡ view o m

module _ {E O A : Type 0} (R : ResourceClient E O A) {name : A → String} {kept : A → Option A}
    {seen : A → A} {view : O → String → Option A} (K : KeepsObjects R name kept seen view) where
  -- After an accepted update, a `get` of the object's name that finds something finds what the server
  -- keeps of the object, as far as `seen` tells, and the server then holds this under the name and all else as before.
  pub found-update :
      (a found : A) (o : O)
      → (R.update a o).0 ≡ none
      → (R.get (name a) (R.update a o).1).0 ≡ ok found
      → (kept a ≡ some (seen found))
        × ((m : String)
            → view (R.get (name a) (R.update a o).1).1 m
              ≡ (if name a == m then kept a else view o m))
  found-update a found o accepted answered =
      let stored = K.update_accepted a o accepted in
      (
        sym (rw eq_refl at (stored (name a)))
            ∙ K.get_found (name a) (R.update a o).1 found answered,
        λ m. K.get_keeps (name a) (R.update a o).1 m ∙ stored m,
      )

-- ===== src/Client/Informers/Requests.antt =====
-- Calls of the factory of factory.go and generic.go, and how often it creates and runs an informer.
use kubecon.Prelude.{ℕ, suc, ◌+◌, ◌≡◌, Bool, true, false, List, [], ◌∷◌, ◌++◌, arith, same_address}
use kubecon.Client.Informers.{
  Kind, same_kind, Informer, Event, create, add_handler, go_run, go_worker, Factory, informer_for,
  start, GroupVersionResource,
}
use kubecon.Client.Informers.Resources.{for_resource}

-- A call of the factory.
pub data Request : Type 0 where
  inform : Kind → Request
  resource : GroupVersionResource → Request
  start_informers : Request

abbrev pub perform : Request → Factory → Factory
perform (inform k) f = (informer_for k f).1
perform (resource r) f = (for_resource r f).1
perform start_informers f = start f

abbrev pub perform_all : List Request → Factory → Factory
perform_all [] f = f
perform_all (r ∷ l) f = perform_all l (perform r f)

abbrev add_if : Bool → ℕ → ℕ
add_if true n = suc n
add_if false n = n

-- How often a type's informer has been created, and an informer been run.
abbrev pub creations : Kind → List Event → ℕ
creations k [] = 0
creations k (create j _ _ ∷ l) = add_if (same_kind j k) (creations k l)
creations k (_ ∷ l) = creations k l

abbrev pub runs : Informer → List Event → ℕ
runs i [] = 0
runs i (go_run j ∷ l) = add_if (same_address j i) (runs i l)
runs i (_ ∷ l) = runs i l

pub creations-append :
    (k : Kind) (l m : List Event) → creations k (l ++ m) ≡ creations k l + creations k m
creations-append k [] m = omega arith
creations-append k (create j p i ∷ l) m = ground (arith, creations-append k l m)
creations-append k (add_handler i s ∷ l) m = creations-append k l m
creations-append k (go_run i ∷ l) m = creations-append k l m
creations-append k (go_worker s ∷ l) m = creations-append k l m

pub runs-append : (i : Informer) (l m : List Event) → runs i (l ++ m) ≡ runs i l + runs i m
runs-append i [] m = omega arith
runs-append i (create j p n ∷ l) m = runs-append i l m
runs-append i (add_handler j s ∷ l) m = runs-append i l m
runs-append i (go_run j ∷ l) m = ground (arith, runs-append i l m)
runs-append i (go_worker s ∷ l) m = runs-append i l m

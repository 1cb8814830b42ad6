-- ===== src/Client/Informers/Once.antt =====
-- Any sequence of calls of the factory of factory.go and generic.go.
use mathlib.Core.Path.{subst}
use kubecon.Prelude.{
  ℕ, ◌≡◌, refl, sym, ◌∙◌, some, List, [], ◌∷◌, arith, Bool-cases, Option-cases, inl, inr,
}
use kubecon.Client.Informers.{
  Kind, cluster, kubeconfig, Informer, Factory, new_factory, find, is_started, informer_for,
  start_one, start_all, start, GroupVersionResource, with_resource,
}
use kubecon.Client.Informers.Resources.{same_resource, for_resource}
use kubecon.Client.Informers.Requests.{
  Request, inform, resource, start_informers, perform, perform_all, creations, runs,
}
use kubecon.Client.Informers.Orderly.{
  once_if, Entries, Orderly, Orderly-new, Orderly-added, Orderly-running,
}

Orderly-start_one :
    (k : Kind) (i : Informer) (f : Factory)
    → Orderly f
    → find k f.informers ≡ some i
    → Orderly (start_one k i f)
unfolding start_one
Orderly-start_one k i f O h = elim (Bool-cases (is_started k f.started)) [
  | inl e ↦ rw e O
  | inr e ↦ rw e (Orderly-running k i f O h e)
]

informers-start_one :
    (k : Kind) (i : Informer) (f : Factory) → (start_one k i f).informers ≡ f.informers
unfolding start_one
informers-start_one k i f = ground arith

Orderly-start_all :
    (l : List (Kind × Informer)) (f : Factory)
    → Orderly f
    → Entries l f.informers
    → Orderly (start_all l f)
unfolding start_all
Orderly-start_all [] f O e = O
Orderly-start_all ((k, i) ∷ l) f O (h, e) =
    Orderly-start_all l (start_one k i f) (Orderly-start_one k i f O h)
      (subst (Entries l) (sym (informers-start_one k i f)) e)

Orderly-informer_for : (k : Kind) (f : Factory) → Orderly f → Orderly (informer_for k f).1
unfolding informer_for
Orderly-informer_for k f O = elim (Option-cases (find k f.informers)) [
  | inl h ↦ rw (h, informer_for) (Orderly-added k f O h)
  | inr (i, h) ↦ rw (h, informer_for) O
]

Orderly-for_resource :
    (r : GroupVersionResource) (f : Factory) → Orderly f → Orderly (for_resource r f).1
unfolding for_resource
Orderly-for_resource r f O = elim (Bool-cases (same_resource r (with_resource "clusters"))) [
  | inl c ↦ rw (c, for_resource) (Orderly-informer_for cluster f O)
  | inr c ↦ elim (Bool-cases (same_resource r (with_resource "kubeconfigs"))) [
    | inl k ↦ rw (c, for_resource) (rw k (Orderly-informer_for kubeconfig f O))
    | inr k ↦ rw (c, for_resource) (rw k O)
  ]
]

Orderly-perform : (r : Request) (f : Factory) → Orderly f → Orderly (perform r f)
unfolding start
Orderly-perform (inform k) f O = Orderly-informer_for k f O
Orderly-perform (resource r) f O = Orderly-for_resource r f O
Orderly-perform start_informers f O = Orderly-start_all f.informers f O O.entries

Orderly-perform_all : (l : List Request) (f : Factory) → Orderly f → Orderly (perform_all l f)
Orderly-perform_all [] f O = O
Orderly-perform_all (r ∷ l) f O = Orderly-perform_all l (perform r f) (Orderly-perform r f O)

-- Whatever calls of InformerFor, ForResource and Start a new factory has had, in whatever order: an
-- informer that it holds for a type is the only one of that type to have been created, belongs to
-- no other type, and has been run once if its type counts as started and never otherwise.
pub created_and_run_once :
    (resync : ℕ) (requests : List Request) (k : Kind) (i : Informer)
    → let f = perform_all requests (new_factory resync) in
      find k f.informers ≡ some i
      → (creations k f.events ≡ 1)
        × (runs i f.events ≡ once_if (is_started k f.started))
        × ((j : Kind) → find j f.informers ≡ some i → j ≡ k)
created_and_run_once resync requests k i h =
    let f = perform_all requests (new_factory resync) in
    let O = Orderly-perform_all requests (new_factory resync) (Orderly-new resync) in
    (O.created k ∙ rw h refl, O.ran k i h, λ j g. O.apart j k i g h)

-- ===== src/Client/Informers/Laws.antt =====
-- Theorems on factory.go: InformerFor and Start.
use mathlib.Core.Path.{subst}
use mathlib.Core.Option.{some-ne-none}
use kubecon.Prelude.{
  ◌≡◌, ◌≢◌, refl, ap, ◌∙◌, true, none, List, [], ◌∷◌, arith, Bool-cases, inl, inr,
}
use kubecon.Client.Informers.{
  Kind, cluster, kubeconfig, same_kind, Informer, Factory, find, is_started, informer_for,
  start_one, start_all, start,
}

-- A second request for a type gives the informer of the first, and creates and changes nothing.
informer_for_again :
    (k : Kind) (f : Factory) → let (i, f') = informer_for k f in informer_for k f' ≡ (i, f')
unfolding informer_for find
informer_for_again cluster f = ground arith
informer_for_again kubeconfig f = ground arith

pub same_kind-eq : (j k : Kind) → same_kind j k ≡ true → j ≡ k
same_kind-eq cluster cluster h = refl
same_kind-eq kubeconfig kubeconfig h = refl
same_kind-eq cluster kubeconfig h = cc
same_kind-eq kubeconfig cluster h = cc

pub same_kind_self : (k : Kind) → same_kind k k ≡ true
same_kind_self cluster = refl
same_kind_self kubeconfig = refl

module _ (j : Kind) (i : Informer) (f : Factory) where
  start_one-keeps :
      (k : Kind) → is_started k f.started ≡ true → is_started k (start_one j i f).started ≡ true
  unfolding start_one is_started
  start_one-keeps k h = ground arith

  start_one_self : is_started j (start_one j i f).started ≡ true
  unfolding start_one is_started
  start_one_self = ground (arith, same_kind_self j)

  start_one-idle : is_started j f.started ≡ true → start_one j i f ≡ f
  unfolding start_one
  start_one-idle h = ground arith

  start_one-informers : (start_one j i f).informers ≡ f.informers
  unfolding start_one
  start_one-informers = ground arith

is_started-start_all :
    (k : Kind) (l : List (Kind × Informer)) (f : Factory)
    → is_started k f.started ≡ true
    → is_started k (start_all l f).started ≡ true
unfolding start_all
is_started-start_all k [] f h = h
is_started-start_all k ((j, i) ∷ l) f h =
    is_started-start_all k l (start_one j i f) (start_one-keeps j i f k h)

informers-start_all :
    (l : List (Kind × Informer)) (f : Factory) → (start_all l f).informers ≡ f.informers
unfolding start_all
informers-start_all [] f = refl
informers-start_all ((j, i) ∷ l) f =
    informers-start_all l (start_one j i f) ∙ start_one-informers j i f

-- Every informer that the factory had is started.
start_all_starts :
    (k : Kind) (l : List (Kind × Informer)) (f : Factory)
    → find k l ≢ none
    → is_started k (start_all l f).started ≡ true
unfolding start_all find
start_all_starts k [] f h = absurd (h refl)
start_all_starts k ((j, i) ∷ l) f h = elim (Bool-cases (same_kind j k)) [
  | inl e ↦ is_started-start_all k l (start_one j i f) (
      subst (λ m. is_started m (start_one j i f).started ≡ true) (same_kind-eq j k e)
        (start_one_self j i f))
  | inr d ↦ start_all_starts k l (start_one j i f) (λ e. h (rw d e))
]

-- What is started already is not started again.
start_all_idle :
    (l : List (Kind × Informer)) (f : Factory)
    → ((k : Kind) → find k l ≢ none → is_started k f.started ≡ true)
    → start_all l f ≡ f
unfolding start_all find
start_all_idle [] f h = refl
start_all_idle ((j, i) ∷ l) f h =
    ap (start_all l) (start_one-idle j i f (h j (λ e. some-ne-none i (rw (same_kind_self j) at e))))
    ∙ start_all_idle l f (λ k found. h k (λ e. found (later k e)))
  where
    later : (k : Kind) → find k ((j, i) ∷ l) ≡ none → find k l ≡ none
    later k e = ground arith

-- `Start` starts every informer that has been requested.
start_starts :
    (k : Kind) (f : Factory) → find k f.informers ≢ none → is_started k (start f).started ≡ true
unfolding start
start_starts k f h = start_all_starts k f.informers f h

-- A second `Start` starts nothing and changes nothing.
start_twice : (f : Factory) → start (start f) ≡ start f
unfolding start
start_twice f =
    ap (λ l. start_all l (start_all f.informers f)) (informers-start_all f.informers f)
    ∙ start_all_idle f.informers (start_all f.informers f)
        (λ k h. start_all_starts k f.informers f h)

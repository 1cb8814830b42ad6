-- ===== src/World/Conflicts.antt =====
-- The loop of updates where the object that it sends is not the one that the API server holds: it
-- sends the same object each time.
use mathlib.Core.Option.{some-ne-none}
use kubecon.Prelude.{
  ℕ, zero, suc, String, ◌≡◌, ◌≢◌, refl, ◌∙◌, Option, none, some, Option-cases, inl, inr,
}
use kubecon.Api.{Cluster}
use kubecon.Platform.{Platform}
use kubecon.Platform.Versions.{RefusesStale}
use kubecon.World.Retry.{retry}

module _ (E : Platform) {held : E.Outside → String → Option Cluster} (R : RefusesStale E held)
    (c x : Cluster) (old : x.metadata.resource_version ≢ c.metadata.resource_version) where
  -- The loop has failed, and left what the server holds.
  abbrev Fruitless : E.Outside → Option E.Error × E.Outside → Type 0
  Fruitless o r = (r.0 ≢ none) × ((n : String) → held r.1 n ≡ held o n)

  module _ (k : ℕ)
      (again : (e : E.Error) (o : E.Outside)
        → held o c.metadata.name ≡ some x
        → Fruitless o (retry k (E.clusters.update c) (some e) o)) where
    Fruitless-next :
        (last : Option E.Error) (o : E.Outside)
        → held o c.metadata.name ≡ some x
        → Fruitless o (retry (suc k) (E.clusters.update c) last o)
    unfolding retry
    Fruitless-next last o h = elim (Option-cases (E.clusters.update c o).0) [
      | inl a ↦ absurd (R.stale_refused c x o h old a)
      | inr (e, a) ↦
          let keeps = R.refused_keeps c o e a in
          let (failed, kept) = again e (E.clusters.update c o).1 (keeps c.metadata.name ∙ h) in
          rw (a, retry) (failed, λ n. kept n ∙ keeps n)
    ]

  Fruitless-loop :
      (k : ℕ) (e : E.Error) (o : E.Outside)
      → held o c.metadata.name ≡ some x
      → Fruitless o (retry k (E.clusters.update c) (some e) o)
  unfolding retry
  Fruitless-loop zero e o h = (some-ne-none e, λ n. refl)
  Fruitless-loop (suc k) e o h = Fruitless-next k (Fruitless-loop k) (some e) o h

  -- Where the server holds the object under another version than the one that is sent, no repetition
  -- helps: the loop of updates returns an error, and the server holds what it held.
  pub retry-stale :
      (k : ℕ) (o : E.Outside)
      → held o c.metadata.name ≡ some x
      → let (e, o') = retry (suc k) (E.clusters.update c) none o in
        (e ≢ none) × ((n : String) → held o' n ≡ held o n)
  retry-stale k o h = Fruitless-next k (Fruitless-loop k) none o h

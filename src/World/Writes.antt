-- ===== src/World/Writes.antt =====
-- The loop of updates against an API server that keeps clusters by name. What it holds is told but
-- for the versions of the objects.
use kubecon.Prelude.{
  ℕ, zero, suc, String, ◌≡◌, refl, ◌∙◌, Option, none, some, ◌==◌, if◌then◌else◌, Option-cases, inl,
  inr, ◌⊎◌, ap,
}
use kubecon.Api.{Cluster}
use kubecon.Platform.{Platform}
use kubecon.Platform.Laws.{KeepsClusters, stored}
use kubecon.World.Retry.{retry}

module _ (E : Platform) {view : E.Outside → String → Option Cluster} (K : KeepsClusters E view)
    (c : Cluster) where
  -- What the server holds under `n` once it has accepted the object.
  abbrev pub written : E.Outside → String → Option Cluster
  written o n = if c.metadata.name == n then stored c else view o n

  -- How the loop left the server, by the error that it returned.
  abbrev pub left : Option E.Error → E.Outside → String → Option Cluster
  left none o n = written o n
  left (some e) o n = view o n

  abbrev loop : ℕ → Option E.Error → E.Outside → Option E.Error × E.Outside
  loop = λ k last o. retry k (E.clusters.update c) last o

  written-refused :
      (o : E.Outside) (e : E.Error)
      → (E.clusters.update c o).0 ≡ some e
      → (r : Option E.Error) (n : String) → left r (E.clusters.update c o).1 n ≡ left r o n
  written-refused o e h none n = rw (K.objects.update_refused c o e h n)
  written-refused o e h (some x) n = K.objects.update_refused c o e h n

  view-loop :
      (k : ℕ) (e : E.Error) (o : E.Outside) (n : String)
      → view (loop k (some e) o).1 n ≡ left (loop k (some e) o).0 o n
  unfolding retry
  view-loop zero e o n = refl
  view-loop (suc k) e o n = elim (Option-cases (E.clusters.update c o).0) [
    | inl h ↦ rw (h, retry) (K.objects.update_accepted c o h n)
    | inr (x, h) ↦
        rw (h, retry)
          (view-loop k x (E.clusters.update c o).1 n
            ∙ written-refused o x h (loop k (some x) (E.clusters.update c o).1).0 n)
  ]

  -- The loop writes the object if it returns no error, and changes nothing if it returns one.
  pub view-retry :
      (k : ℕ) (o : E.Outside) (n : String)
      → view (retry (suc k) (E.clusters.update c) none o).1 n
        ≡ left (retry (suc k) (E.clusters.update c) none o).0 o n
  unfolding retry
  view-retry k o n = elim (Option-cases (E.clusters.update c o).0) [
    | inl h ↦ rw (h, retry) (K.objects.update_accepted c o h n)
    | inr (x, h) ↦
        rw (h, retry)
          (view-loop k x (E.clusters.update c o).1 n
            ∙ written-refused o x h (loop k (some x) (E.clusters.update c o).1).0 n)
  ]

  -- Either nothing has changed at the server, or the object is there.
  pub retry_writes_or_not :
      (k : ℕ) (o : E.Outside)
      → let o' = (retry (suc k) (E.clusters.update c) none o).1 in
        ((n : String) → view o' n ≡ view o n) ⊎ ((n : String) → view o' n ≡ written o n)
  retry_writes_or_not k o = elim (Option-cases (retry (suc k) (E.clusters.update c) none o).0) [
    | inl h ↦ inr (λ n. view-retry k o n ∙ ap (λ e. left e o n) h)
    | inr (x, h) ↦ inl (λ n. view-retry k o n ∙ ap (λ e. left e o n) h)
  ]

-- ===== src/Controllers/Faithful.antt =====
-- What the handlers do to the clusters that the API server holds, where the objects of the informer's
-- store are in whatever version that the server has held.
use mathlib.Core.Path.{ap₂}
use mathlib.Core.Option.{some-injective}
use kubecon.Prelude.{String, ◌≡◌, refl, ap, sym, ◌∙◌, Option, some, inl, inr}
use kubecon.Api.{Cluster}
use kubecon.Platform.{Platform, ok}
use kubecon.Platform.Laws.{IsConditionLibrary}
use kubecon.Platform.Versions.{LogsVersions, Replaced}
use kubecon.World.{World, Address}
use kubecon.Controllers.Backed.{Backed}
use kubecon.Healthchecker
use kubecon.Annotator
use kubecon.ConfigGenerator
use kubecon.Provisioner.Steps.{AccessorWorks}
use kubecon.Provisioner.{handle}
use kubecon.Controllers.Sends.{
  Sent, core, same_name, OthersPreserve, outside-health, outside-annotator,
}
use kubecon.Controllers.Outside.{outside-handle, outside-config}

module _ (E : Platform) {held : E.Outside → String → Option Cluster}
    {logged : E.Outside → String → String → Option Cluster} (V : LogsVersions E held logged) where
  -- What the server held in the first state it has in its log in the second; what it holds in the second
  -- it held in the first, with the same core.
  pub record Followed (o o' : E.Outside) : Type 0 where
    pub log_kept : (n v : String) (x : Cluster) → logged o n v ≡ some x → logged o' n v ≡ some x
    pub cores_kept :
        (n : String) (y : Cluster)
        → held o' n ≡ some y
        → (x : Cluster) × (held o n ≡ some x) × (core y ≡ core x)

  pub Followed-same : (o : E.Outside) → Followed o o
  Followed-same o = record { log_kept = λ n v x h. h; cores_kept = λ n y h. (y, h, refl) }

  Followed-unchanged :
      {o a b : E.Outside}
      → ((n v : String) → (held b n ≡ held a n) × (logged b n v ≡ logged a n v))
      → Followed o a
      → Followed o b
  Followed-unchanged same f = record {
    log_kept = λ n v x h. (same n v).1 ∙ f.log_kept n v x h;
    cores_kept = λ n y h. f.cores_kept n y (sym (same n "").0 ∙ h);
  }

  Followed-others : (o : E.Outside) → OthersPreserve E (Followed o)
  Followed-others o = record {
    runs = λ name args a.
        Followed-unchanged
          (λ n v. (V.others.exec_keeps name args a n, (V.others_log v).exec_keeps name args a n));
    asks = λ name a. Followed-unchanged (λ n v.
        (V.others.get_kubeconfig_keeps name a n, (V.others_log v).get_kubeconfig_keeps name a n));
    calls = λ r a.
        Followed-unchanged (λ n v.
          (V.others.server_version_keeps r a n, (V.others_log v).server_version_keeps r a n));
  }

  -- An update in place of a backed object replaces a cluster of the same core.
  Followed-update :
      {o a : E.Outside} (d c : Cluster)
      → Backed E logged o d
      → Sent d c
      → Followed o a
      → Followed o (E.clusters.update c a).1
  Followed-update {o} {a} d c b s f = record {
    log_kept = λ n v x h. V.update_logs c a n v x (f.log_kept n v x h);
    cores_kept = λ n y h. elim (V.update_replaces c a n y h) [
      | inl same ↦ f.cores_kept n y same
      | inr r ↦
          let (x, before, cores) = f.cores_kept n r.before r.was_held in
          (x, before, ap core r.new_lem ∙ replaced n y r ∙ cores)
    ];
  }
    where
      replaced : (n : String) (y : Cluster) (r : Replaced E held c a n y) → core c ≡ core r.before
      replaced n y r =
          let log = (V.held_logged a n r.before r.was_held).1 in
          let name = sym (same_name s) ∙ r.named in
          let version = r.same_version ∙ s.same_version in
          let old = f.log_kept _ _ b.original b.was_held in
          let one =
            some-injective _ _ (sym old ∙ ap₂ (λ m v. logged a m v) name (sym version) ∙ log) in
          s.same_core ∙ sym b.same_core ∙ ap core one

  Backed-found :
      (o : E.Outside) (n : String) (x : Cluster)
      → (E.clusters.get n o).0 ≡ ok x
      → Backed E logged o x
  Backed-found o n x r =
      let (name, log) = V.held_logged o n x (V.get_found n o x r) in
      record {
        original = x;
        was_held = ap (λ m. logged o m x.metadata.resource_version) name ∙ log;
        same_core = refl;
      }

  module _ (works : AccessorWorks E) (L : IsConditionLibrary E) (p : Address) (w : World E)
      (b : Backed E logged w.outside (w.heap.cell p)) where
    abbrev pub KeepsCores : World E → Type 0
    KeepsCores v = Followed w.outside v.outside

    sent :
        (c : Cluster) (a : E.Outside)
        → Sent (w.heap.cell p) c
        → Followed w.outside a
        → Followed w.outside (E.clusters.update c a).1
    sent c a = Followed-update (w.heap.cell p) c b

    pub Followed-handle : KeepsCores (handle E p w).1
    Followed-handle =
        outside-handle E works L (Followed w.outside) (Followed-others w.outside)
          (λ n a. Followed-unchanged (V.get_keeps n a)) p w sent
          (λ x r c a. Followed-update x c (Backed-found w.outside _ x r)) (Followed-same w.outside)

    pub Followed-health : KeepsCores (Healthchecker.sync E p w).1
    Followed-health =
        outside-health E L (Followed w.outside) p w sent (Followed-others w.outside)
          (Followed-same w.outside)

    pub Followed-annotator : KeepsCores (Annotator.sync E p w).1
    Followed-annotator =
        outside-annotator E L (Followed w.outside) p w sent (Followed-others w.outside)
          (Followed-same w.outside)

  pub Followed-config :
      (p : Address) (w : World E) → Followed w.outside (ConfigGenerator.sync E p w).1.outside
  Followed-config p w =
      outside-config E (Followed w.outside) (Followed-others w.outside)
        (λ k a. Followed-unchanged (V.create_kubeconfig_keeps k a))
        (λ k a. Followed-unchanged (V.update_kubeconfig_keeps k a)) p w (Followed-same w.outside)

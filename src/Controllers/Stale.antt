-- ===== src/Controllers/Stale.antt =====
-- The handlers of the provisioner, the health checker and the annotator for an object of the
-- informer's store that the API server no longer holds in that version.
use kubecon.Prelude.{String, ◌≡◌, ◌≢◌, refl, ap, ◌∙◌, Option, some, Option-cases, inl, inr}
use kubecon.Api.{Cluster}
use kubecon.Platform.{Platform}
use kubecon.Platform.Laws.{IsConditionLibrary}
use kubecon.Platform.Versions.{VersionsClusters}
use kubecon.World.{World, Address}
use kubecon.Healthchecker
use kubecon.Annotator
use kubecon.Provisioner.Steps.{AccessorWorks}
use kubecon.Provisioner.{handle_cluster_add}
use kubecon.Controllers.Sends.{
  Sent, same_name, OthersPreserve, outside-add, outside-health, outside-annotator,
}

module _ (E : Platform) (L : IsConditionLibrary E) {held : E.Outside → String → Option Cluster}
    (V : VersionsClusters E held) (p : Address) (w : World E) (x : Cluster)
    (there : held w.outside (w.heap.cell p).metadata.name ≡ some x)
    (old : x.metadata.resource_version ≢ (w.heap.cell p).metadata.resource_version) where
  -- The server holds what it held.
  abbrev Same : E.Outside → Type 0
  Same o = (n : String) → held o n ≡ held w.outside n

  Same-update :
      (c : Cluster) (o : E.Outside)
      → Sent (w.heap.cell p) c
      → Same o
      → Same (E.clusters.update c o).1
  Same-update c o s h n = elim (Option-cases (E.clusters.update c o).0) [
    | inr (e, r) ↦ V.refuses.refused_keeps c o e r n ∙ h n
    | inl a ↦ absurd (
        V.refuses.stale_refused c x o
          (h c.metadata.name ∙ ap (held w.outside) (same_name s) ∙ there)
          (λ e. old (e ∙ s.same_version)) a)
  ]

  Same-others : OthersPreserve E Same
  Same-others = record {
    runs = λ name args o h m. V.others.exec_keeps name args o m ∙ h m;
    asks = λ name o h m. V.others.get_kubeconfig_keeps name o m ∙ h m;
    calls = λ r o h m. V.others.server_version_keeps r o m ∙ h m;
  }

  -- Where the server tells stale updates by their versions, and holds a cluster under another version
  -- than the object of the informer's store: none of the handlers of the provisioner, for a cluster
  -- that is not deleted, of the health checker and of the annotator overwrites it, or any other
  -- cluster, by what it makes of that object.
  pub stale_handlers_overwrite_nothing :
      AccessorWorks E
      → (n : String)
      → (held (handle_cluster_add E p w).1.outside n ≡ held w.outside n)
        × (held (Healthchecker.sync E p w).1.outside n ≡ held w.outside n)
        × (held (Annotator.sync E p w).1.outside n ≡ held w.outside n)
  stale_handlers_overwrite_nothing works n = (
    outside-add E L Same p w Same-update Same-others works (λ m. refl) n,
    outside-health E L Same p w Same-update Same-others (λ m. refl) n,
    outside-annotator E L Same p w Same-update Same-others (λ m. refl) n,
  )

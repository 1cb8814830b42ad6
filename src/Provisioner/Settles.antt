-- ===== src/Provisioner/Settles.antt =====
-- handleClusterAdd in provisioner.go, for an object that bears the finalizer and for what the informer
-- then delivers of it.
use mathlib.Core.Bool.{false≢true}
use mathlib.Core.Path.{subst}
use mathlib.Core.Option.{some-injective}
use kubecon.Prelude.{String, ◌≡◌, ap, sym, ◌∙◌, true, false, Option, none, some, ◌==◌, eq_iff}
use kubecon.Api.{Cluster}
use kubecon.Platform.{Platform, ok}
use kubecon.Platform.Laws.{IsConditionLibrary, HasStableFiles}
use kubecon.Platform.Versions.{VersionsClusters, with_version}
use kubecon.World.{World, Address}
use kubecon.Provisioner.Finalizers.{contains_string}
use kubecon.Provisioner.Steps.{AccessorWorks}
use kubecon.Provisioner.Provision.{ran_up}
use kubecon.Provisioner.Converge.{
  provision-IsApplied, IsApplied, handle_cluster_add-changed, handle_cluster_add-unchanged,
}
use kubecon.Provisioner.Unrecorded.{to_record}
use kubecon.Provisioner.Recorded.{provision-recorded}
use kubecon.Provisioner.Twice.{file_kept}
use kubecon.Provisioner.{controller_name, provision, handle_cluster_add, get_config_str}

module _ (E : Platform) (works : AccessorWorks E) (L : IsConditionLibrary E)
    {held : E.Outside → String → Option Cluster} (V : VersionsClusters E held)
    (F : HasStableFiles E) (p : Address) (w : World E)
    (same : held w.outside (w.heap.cell p).metadata.name ≡ some (w.heap.cell p))
    (alive : (w.heap.cell p).metadata.deletion_timestamp ≡ none)
    (bears : contains_string (w.heap.cell p).metadata.finalizers controller_name ≡ true)
    (config : String) (r : get_config_str E (w.heap.cell p) w ≡ ok config)
    (d : (config == (w.heap.cell p).status.applied_config) ≡ false)
    (done : (handle_cluster_add E p w).0 ≡ none)
    (accepted : (E.clusters.update
        (to_record E works L p w config)
        (ran_up E works p config w).outside).0
      ≡ none) where
  abbrev cluster_of : Cluster
  cluster_of = w.heap.cell p

  abbrev ended : World E
  ended = (handle_cluster_add E p w).1

  changed : handle_cluster_add E p w ≡ provision E p config w
  changed = handle_cluster_add-changed E works L p config w r d

  provisioned_ok : (provision E p config w).0 ≡ none
  provisioned_ok = sym (ap (λ v. v.0) changed) ∙ done

  bears_config : IsApplied E config cluster_of (ended.heap.cell p)
  bears_config =
      subst (λ v. IsApplied E config cluster_of (v.1.heap.cell p)) (sym changed)
        (provision-IsApplied E works L p config w provisioned_ok)

  recorded :
      (v : String) × (held ended.outside cluster_of.metadata.name
        ≡ some (with_version v (ended.heap.cell p)))
  recorded =
      subst
        (λ (r : Option E.Error × World E).
          (v : String) × (held r.1.outside cluster_of.metadata.name
            ≡ some (with_version v (r.1.heap.cell p))))
        (sym changed)
        (provision-recorded E works L V p w same alive bears config
          (λ e. false≢true (sym d ∙ (eq_iff _ _).1 e)) provisioned_ok accepted)

  -- Where the server tells stale updates by their versions, and holds the very object of the informer's
  -- store, with the finalizer and not being deleted: after a run that returns no error, and whose
  -- update is accepted, the handler finds nothing to do for the object that the informer then delivers.
  pub delivered_finds_nothing :
      (q : Address) (u : World E)
      → held ended.outside cluster_of.metadata.name ≡ some (u.heap.cell q)
      → u.outside ≡ ended.outside
      → handle_cluster_add E q u ≡ (none, u)
  unfolding get_config_str
  delivered_finds_nothing q u delivered o =
      let (v, now) = recorded in
      let e = some-injective _ _ (sym delivered ∙ now) in
      let path =
        ap (λ (c : Cluster). c.spec.config_path) e
        ∙ ap (λ s. s.config_path) bears_config.spec_kept in
      handle_cluster_add-unchanged E works L q config u
        (ap (λ x. E.read_file x u.outside) path
          ∙ ap (E.read_file cluster_of.spec.config_path) o
          ∙ file_kept E works L p w config r d F)
        (sym (ap (λ (c : Cluster). c.status.applied_config) e ∙ bears_config.applied))

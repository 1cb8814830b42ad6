-- ===== src/Provisioner/Twice.antt =====
-- handleClusterAdd in provisioner.go, for a new object and for what the informer then delivers of it.
use mathlib.Core.Option.{some-injective}
use kubecon.Prelude.{
  String, ◌≡◌, ◌≢◌, ap, sym, ◌∙◌, true, false, Option, none, some, ◌++◌, ◌==◌, eq_iff,
}
use mathlib.Core.Bool.{false≢true}
use kubecon.Api.{Cluster}
use kubecon.Platform.{Platform, ok}
use kubecon.Platform.Laws.{IsConditionLibrary, HasStableFiles}
use kubecon.Platform.Versions.{VersionsClusters, with_version}
use kubecon.World.{World, Address}
use kubecon.Provisioner.Finalizers.{contains_string}
use kubecon.Provisioner.Steps.{AccessorWorks}
use kubecon.Provisioner.Provision.{ran_up}
use kubecon.Provisioner.Converge.{provision-IsApplied, handle_cluster_add-changed}
use kubecon.Provisioner.Add.{outside-provision}
use kubecon.Provisioner.Runs.{up_run, up_args, handle_cluster_add-runs}
use kubecon.Provisioner.Unrecorded.{
  to_record, held_back, first_run_unrecorded, contains_string-append,
}
use kubecon.Provisioner.Recorded.{provision-recorded}
use kubecon.Provisioner.{controller_name, provision, handle_cluster_add, get_config_str}

module _ (E : Platform) (works : AccessorWorks E) (L : IsConditionLibrary E) (p : Address)
    (w : World E) (config : String) (r : get_config_str E (w.heap.cell p) w ≡ ok config)
    (d : (config == (w.heap.cell p).status.applied_config) ≡ false) where
  abbrev path_of : String
  path_of = (w.heap.cell p).spec.config_path

  runs_changed :
      (handle_cluster_add E p w).1.commands ≡ w.commands ++ up_run E works L p w (up_args path_of)
  runs_changed = handle_cluster_add-runs E works L p w config r ∙ rw d

  -- The file reads the same after the run.
  pub file_kept :
      HasStableFiles E → E.read_file path_of (handle_cluster_add E p w).1.outside ≡ ok config
  unfolding get_config_str
  file_kept F =
      ap (λ v. E.read_file path_of v.1.outside)
        (handle_cluster_add-changed E works L p config w r d)
      ∙ outside-provision E works L p w (λ o. E.read_file path_of o ≡ ok config)
          (λ c o q. F.after_update c o path_of ∙ q)
          (λ n args o q. F.after_exec n args o path_of ∙ q) config r

module _ (E : Platform) (works : AccessorWorks E) (L : IsConditionLibrary E)
    {held : E.Outside → String → Option Cluster} (V : VersionsClusters E held)
    (F : HasStableFiles E) (p : Address) (w : World E)
    (same : held w.outside (w.heap.cell p).metadata.name ≡ some (w.heap.cell p))
    (alive : (w.heap.cell p).metadata.deletion_timestamp ≡ none)
    (without : contains_string (w.heap.cell p).metadata.finalizers controller_name ≡ false)
    (accepted : (E.clusters.update (held_back E works L p w V) w.outside).0 ≡ none)
    (config : String) (r : get_config_str E (w.heap.cell p) w ≡ ok config)
    (d : (config == (w.heap.cell p).status.applied_config) ≡ false)
    (done : (handle_cluster_add E p w).0 ≡ none) where
  abbrev cluster_of : Cluster
  cluster_of = w.heap.cell p

  abbrev first : World E
  first = (handle_cluster_add E p w).1

  -- What the first run leaves at the server still differs from the file, and bears the finalizer.
  module _ (q : Address) (u : World E)
      (delivered : held first.outside cluster_of.metadata.name ≡ some (u.heap.cell q)) where
    server_version : String
    server_version =
        (first_run_unrecorded E works L p w V same alive without accepted config r d done).1.0

    delivered_lem : u.heap.cell q ≡ with_version server_version (held_back E works L p w V)
    unfolding server_version
    delivered_lem =
        let (_, (_, _, now)) =
          first_run_unrecorded E works L p w V same alive without accepted config r d done in
        some-injective _ _ (sym delivered ∙ now)

    still_due : (config == (u.heap.cell q).status.applied_config) ≡ false
    still_due = rw delivered_lem d

    reread : u.outside ≡ first.outside → get_config_str E (u.heap.cell q) u ≡ ok config
    unfolding get_config_str
    reread o = rw (delivered_lem, o) (file_kept E works L p w config r d F)

    bears : contains_string (u.heap.cell q).metadata.finalizers controller_name ≡ true
    bears = rw delivered_lem (contains_string-append cluster_of.metadata.finalizers controller_name)

    -- Where the informer then delivers what the server holds after such a run, the next run brings the
    -- cluster up a second time, for the same configuration; if it returns no error, and its update is
    -- accepted, the server has the configuration as applied.
    pub brought_up_twice :
        u.outside ≡ first.outside
        → u.commands ≡ first.commands
        → (handle_cluster_add E q u).0 ≡ none
        → (E.clusters.update (to_record E works L q u config) (ran_up E works q config u).outside).0
          ≡ none
        → let v = (handle_cluster_add E q u).1 in
          let args = up_args cluster_of.spec.config_path in
          (v.commands ≡ (w.commands ++ up_run E works L p w args) ++ up_run E works L q u args)
          × ((v.heap.cell q).status.applied_config ≡ config)
          × ((n : String) × (held v.outside cluster_of.metadata.name
                ≡ some (with_version n (v.heap.cell q))))
    brought_up_twice o c done2 accepted2 =
        let read = reread o in
        let e = handle_cluster_add-changed E works L q config u read still_due in
        let done3 : (provision E q config u).0 ≡ none = sym (ap (λ v. v.0) e) ∙ done2 in
        let differ : config ≢ (u.heap.cell q).status.applied_config =
          λ x. false≢true (sym still_due ∙ (eq_iff _ _).1 x) in
        let name = ap (λ (x : Cluster). x.metadata.name) delivered_lem in
        let alive2 = ap (λ (x : Cluster). x.metadata.deletion_timestamp) delivered_lem ∙ alive in
        let path = ap (λ (x : Cluster). up_args x.spec.config_path) delivered_lem in
        let (n, now) =
          provision-recorded E works L V q u
            (ap (held u.outside) name ∙ ap (λ x. held x cluster_of.metadata.name) o ∙ delivered)
            alive2 bears config differ done3 accepted2 in
        (
          runs_changed E works L q u config read still_due
              ∙ ap (λ a. u.commands ++ up_run E works L q u a) path
              ∙ ap (λ l. l ++ up_run E works L q u (up_args cluster_of.spec.config_path))
                  (c ∙ runs_changed E works L p w config r d),
          ap (λ v. (v.1.heap.cell q).status.applied_config) e
              ∙ (provision-IsApplied E works L q config u done3).applied,
          (
            n,
            ap (λ v. held v.1.outside cluster_of.metadata.name) e
                ∙ ap (held (provision E q config u).1.outside) (sym name)
                ∙ now
                ∙ ap (λ v. some (with_version n (v.1.heap.cell q))) (sym e),
          ),
        )

-- ===== src/Provisioner/Add.antt =====
-- Theorems on handleClusterAdd in provisioner.go: one run after another.
use kubecon.Prelude.{
  String, ◌≡◌, ap, sym, ◌∙◌, none, some, List, arith, Option-cases, Bool-cases, inl, inr, ◌==◌,
  eq_iff,
}
use kubecon.Api.{ClusterSpec, Cluster}
use kubecon.Platform.{Platform, ok, err, Result-cases}
use kubecon.Platform.Laws.{IsConditionLibrary, HasStableFiles}
use kubecon.World.{World, Address}
use kubecon.Provisioner.Command.{provision_cluster}
use kubecon.Provisioner.Command.Laws.{outside-execute_command}
use kubecon.Provisioner.Steps.{AccessorWorks, outside-initialize, outside-update_applied_config}
use kubecon.Provisioner.Provision.{provision-done, provision-failed, ran_up, inside, rke_up}
use kubecon.Provisioner.Converge.{
  provision-IsApplied, handle_cluster_add-changed, handle_cluster_add-unchanged,
}
use kubecon.Provisioner.{controller_name, provision, handle_cluster_add, get_config_str}

module _ (E : Platform) (works : AccessorWorks E) (L : IsConditionLibrary E) (p : Address)
    (w : World E) where
  abbrev pub path_of : String
  path_of = (w.heap.cell p).spec.config_path

  pub outside-rke_up :
      (P : E.Outside → Type 0)
      → ((n : String) (a : List String) (o : E.Outside) → P o → P (E.exec n a o).1)
      → (v : World E) → P v.outside
      → P (rke_up E p v).1.outside
  unfolding provision_cluster
  outside-rke_up P keep v h = rw outside-execute_command (keep _ _ v.outside h)

  -- What updates and commands keep of the world outside, provisioning keeps.
  pub outside-provision :
      (P : E.Outside → Type 0)
      → ((c : Cluster) (o : E.Outside) → P o → P (E.clusters.update c o).1)
      → ((n : String) (a : List String) (o : E.Outside) → P o → P (E.exec n a o).1)
      → (config : String) → P w.outside
      → P (provision E p config w).1.outside
  outside-provision P keep_u keep_e config h =
      let i = outside-initialize E works p controller_name w P keep_u h in
      let r = outside-rke_up P keep_e (inside E works p config w) i in
      elim (Option-cases (rke_up E p (inside E works p config w)).0) [
        | inl e ↦
            rw (provision-done E works p config w e)
              (outside-update_applied_config E p config (ran_up E works p config w) P keep_u r)
        | inr (x, e) ↦ rw (provision-failed E works p config w x e) r
      ]

  pub handle_cluster_add-unreadable :
      (e : E.Error)
      → get_config_str E (w.heap.cell p) w ≡ err e
      → handle_cluster_add E p w ≡ (some e, w)
  unfolding handle_cluster_add
  handle_cluster_add-unreadable e r = ground arith

  reread :
      HasStableFiles E
      → (config : String) → get_config_str E (w.heap.cell p) w ≡ ok config
      → (provision E p config w).0 ≡ none
      → let w' = (provision E p config w).1 in get_config_str E (w'.heap.cell p) w' ≡ ok config
  unfolding get_config_str
  reread F config r h =
      let a = provision-IsApplied E works L p config w h in
      ap (λ (s : ClusterSpec). E.read_file s.config_path (provision E p config w).1.outside)
        a.spec_kept
      ∙ outside-provision (λ o. E.read_file path_of o ≡ ok config)
          (λ c o q. F.after_update c o path_of ∙ q)
          (λ n args o q. F.after_exec n args o path_of ∙ q) config r

  -- After a run that returns no error, a second run on the same object finds nothing to do: it
  -- returns no error and leaves the whole world as it is.
  pub handle_cluster_add_twice :
      HasStableFiles E
      → (handle_cluster_add E p w).0 ≡ none
      → let w' = (handle_cluster_add E p w).1 in handle_cluster_add E p w' ≡ (none, w')
  handle_cluster_add_twice F h = elim (Result-cases (get_config_str E (w.heap.cell p) w)) [
    | inr (e, r) ↦ cc (h, handle_cluster_add-unreadable e r)
    | inl (config, r) ↦ elim (Bool-cases (config == (w.heap.cell p).status.applied_config)) [
      | inl s ↦
          let u = handle_cluster_add-unchanged E works L p config w r ((eq_iff _ _).0 s) in rw u u
      | inr d ↦
          let q = handle_cluster_add-changed E works L p config w r d in
          let done : (provision E p config w).0 ≡ none = sym (ap (λ v. v.0) q) ∙ h in
          let a = provision-IsApplied E works L p config w done in
          rw q (
            handle_cluster_add-unchanged E works L p config (provision E p config w).1
              (reread F config r done) (sym a.applied))
    ]
  ]

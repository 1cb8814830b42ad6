-- ===== src/Provisioner/Recorded.antt =====
-- handleClusterAdd in provisioner.go against an API server that tells an update of an older object by
-- its version, for an object that bears the finalizer: `initialize` then writes nothing.
use kubecon.Prelude.{String, ◌≡◌, ◌≢◌, refl, ap, sym, ◌∙◌, true, Option, none, some, arith}
use kubecon.Api.{Cluster, ObjectMeta}
use kubecon.Platform.{Platform}
use kubecon.Platform.Laws.{IsConditionLibrary}
use kubecon.Platform.Versions.{VersionsClusters, with_version}
use kubecon.World.{World, Address}
use kubecon.World.Retry.{retry-first}
use kubecon.Provisioner.Finalizers.{contains_string, initialize}
use kubecon.Provisioner.Steps.{AccessorWorks, with_finalizer, cell-update_applied_config}
use kubecon.Provisioner.Provision.{provision-done, provision_error, ran_up}
use kubecon.Provisioner.Unrecorded.{to_record, held_ran_up, metadata_ran_up, outside_done}
use kubecon.Provisioner.{controller_name, provision}

module _ (key : String) (c : Cluster)
    (bears : contains_string c.metadata.finalizers key ≡ true) where
  with_finalizer_old : with_finalizer key c ≡ c
  with_finalizer_old = ground arith

  pub outside_initialize_old :
      (E : Platform) (works : AccessorWorks E) (p : Address) (w : World E)
      → w.heap.cell p ≡ c
      → (initialize E p key w).1.outside ≡ w.outside
  unfolding initialize
  outside_initialize_old E works p w e = ground (arith, works c)

module _ (E : Platform) (works : AccessorWorks E) (L : IsConditionLibrary E)
    {held : E.Outside → String → Option Cluster} (V : VersionsClusters E held) (p : Address)
    (w : World E) where
  abbrev cluster_of : Cluster
  cluster_of = w.heap.cell p

  abbrev name_of : String
  name_of = cluster_of.metadata.name

  cell_done :
      (config : String)
      → (provision E p config w).0 ≡ none
      → (provision E p config w).1.heap.cell p ≡ to_record E works L p w config
  cell_done config h =
      ap (λ v. v.1.heap.cell p)
        (provision-done E works p config w (provision_error E works p config w h))
      ∙ cell-update_applied_config E p config (ran_up E works p config w)

  module _ (same : held w.outside name_of ≡ some cluster_of)
      (alive : cluster_of.metadata.deletion_timestamp ≡ none)
      (bears : contains_string cluster_of.metadata.finalizers controller_name ≡ true)
      (config : String) where
    metadata_kept : (to_record E works L p w config).metadata ≡ cluster_of.metadata
    metadata_kept =
        metadata_ran_up E works L p w config
        ∙ ap (λ (c : Cluster). c.metadata) (with_finalizer_old controller_name cluster_of bears)

    held_before : (n : String) → held (ran_up E works p config w).outside n ≡ held w.outside n
    held_before n =
        held_ran_up E works L p w V config n
        ∙ ap (λ o. held o n)
            (outside_initialize_old controller_name cluster_of bears E works p w refl)

    pub provision-recorded :
        config ≢ cluster_of.status.applied_config
        → (provision E p config w).0 ≡ none
        → (E.clusters.update (to_record E works L p w config) (ran_up E works p config w).outside).0
          ≡ none
        → let w' = (provision E p config w).1 in
          (v : String) × (held w'.outside name_of ≡ some (with_version v (w'.heap.cell p)))
    provision-recorded d h accepted =
        let sent = to_record E works L p w config in
        let ran = (ran_up E works p config w).outside in
        let name = ap (λ (x : ObjectMeta). x.name) metadata_kept in
        let (v, _, now) =
          V.accepted_bumps sent cluster_of ran (ap (held ran) name ∙ held_before name_of ∙ same)
            (λ e. d (ap (λ (c : Cluster). c.status.applied_config) e))
            (ap (λ (x : ObjectMeta). x.deletion_timestamp) metadata_kept ∙ alive) accepted in
        (
          v,
          ap (λ o. held o name_of)
                (outside_done E works L p w config h
                  ∙ ap (λ r. r.1) (retry-first (E.clusters.update sent) 2 none ran accepted))
              ∙ ap (held (E.clusters.update sent ran).1) (sym name)
              ∙ now
              ∙ ap (λ c. some (with_version v c)) (sym (cell_done config h)),
        )

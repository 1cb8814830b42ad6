-- ===== src/Provisioner/Unrecorded.antt =====
-- handleClusterAdd in provisioner.go against an API server that tells an update of an older object by
-- its version: what `initialize` writes is not read back, so that the object's second update in the
-- same run bears the version from before the first.
use mathlib.Core.Bool.{true≢false}
use kubecon.Prelude.{
  String, ◌≡◌, ◌≢◌, refl, ap, sym, ◌∙◌, true, false, Option, none, some, List, [], ◌∷◌, ◌++◌, arith,
  ◌==◌, eq_iff,
}
use kubecon.Api.{Cluster, ObjectMeta}
use kubecon.Platform.{Platform, ok}
use kubecon.Platform.Laws.{IsConditionLibrary}
use kubecon.Platform.Versions.{VersionsClusters, with_version}
use kubecon.World.{World, Address}
use kubecon.World.Laws.{same_address_self}
use kubecon.World.Retry.{retry, retry-first}
use kubecon.World.Conflicts.{retry-stale}
use kubecon.Provisioner.Finalizers.{contains_string, set_finalizers, initialize}
use kubecon.Provisioner.Steps.{AccessorWorks, with_finalizer, with_applied}
use kubecon.Provisioner.Provision.{
  provision-done, provision_error, ran_up, inside, initialized, cell-ran_up,
}
use kubecon.Provisioner.Add.{outside-rke_up}
use kubecon.Provisioner.Converge.{
  provision-IsApplied, handle_cluster_add-changed, do_result_metadata, do_result_spec,
}
use kubecon.Provisioner.{
  controller_name, provision, handle_cluster_add, get_config_str, update_applied_config,
}

pub contains_string-append :
    (l : List String) (key : String) → contains_string (l ++ (key ∷ [])) key ≡ true
unfolding contains_string
contains_string-append [] key = ground (arith, eq_iff key key)
contains_string-append (f ∷ l) key = ground (arith, contains_string-append l key)

module _ (key : String) (c : Cluster)
    (without : contains_string c.metadata.finalizers key ≡ false) where
  with_finalizer_new : with_finalizer key c ≡ set_finalizers (c.metadata.finalizers ++ (key ∷ [])) c
  with_finalizer_new = ground arith

  with_finalizer_changes : with_finalizer key c ≢ c
  with_finalizer_changes e = true≢false (
      sym (contains_string-append c.metadata.finalizers key)
      ∙ ap (λ (x : Cluster). contains_string x.metadata.finalizers key) (sym with_finalizer_new ∙ e)
      ∙ without)

module _ (E : Platform) (works : AccessorWorks E) (p : Address) (key : String) (w : World E) where
  pub outside_initialize_new :
      contains_string (w.heap.cell p).metadata.finalizers key ≡ false
      → (initialize E p key w).1.outside
        ≡ (retry 3 (E.clusters.update (with_finalizer key (w.heap.cell p))) none w.outside).1
  unfolding initialize
  outside_initialize_new h =
      ground (
        arith,
        works (w.heap.cell p),
        same_address_self p,
        with_finalizer_new key (w.heap.cell p) h,
      )

module _ (E : Platform) (p : Address) (config : String) (w : World E) where
  outside_update_applied :
      (update_applied_config E p config w).1.outside
      ≡ (retry 3 (E.clusters.update (with_applied config (w.heap.cell p))) none w.outside).1
  unfolding update_applied_config
  outside_update_applied = rw (same_address_self p) refl

module _ (E : Platform) (works : AccessorWorks E) (L : IsConditionLibrary E) (p : Address)
    (w : World E) where
  abbrev cluster_of : Cluster
  cluster_of = w.heap.cell p

  -- the object as `updateAppliedConfig` sends it
  abbrev pub to_record : String → Cluster
  to_record config = with_applied config ((ran_up E works p config w).heap.cell p)

  pub metadata_ran_up :
      (config : String)
      → ((ran_up E works p config w).heap.cell p).metadata
        ≡ (with_finalizer controller_name cluster_of).metadata
  metadata_ran_up config =
      ap (λ (c : Cluster). c.metadata) (cell-ran_up E works p config w)
      ∙ do_result_metadata E works L _ _

  pub spec_ran_up :
      (config : String)
      → ((ran_up E works p config w).heap.cell p).spec
        ≡ (with_finalizer controller_name cluster_of).spec
  spec_ran_up config =
      ap (λ (c : Cluster). c.spec) (cell-ran_up E works p config w) ∙ do_result_spec E works L _ _

  -- where the run ends without an error, it is the writes of the applied configuration that end it
  pub outside_done :
      (config : String)
      → (provision E p config w).0 ≡ none
      → (provision E p config w).1.outside
        ≡ (retry 3
            (E.clusters.update (to_record config))
            none
            (ran_up E works p config w).outside).1
  outside_done config h =
      ap (λ v. v.1.outside)
        (provision-done E works p config w (provision_error E works p config w h))
      ∙ outside_update_applied E p config (ran_up E works p config w)

  module _ {held : E.Outside → String → Option Cluster} (V : VersionsClusters E held) where
    abbrev name_of : String
    name_of = cluster_of.metadata.name

    -- what `initialize` sends for an object without the finalizer
    abbrev pub held_back : Cluster
    held_back = set_finalizers (cluster_of.metadata.finalizers ++ (controller_name ∷ [])) cluster_of

    pub held_ran_up :
        (config n : String)
        → held (ran_up E works p config w).outside n
          ≡ held (initialized E works p config w).outside n
    held_ran_up config n =
        outside-rke_up E works L p w
          (λ o. held o n ≡ held (initialized E works p config w).outside n)
          (λ name args o q. V.others.exec_keeps name args o n ∙ q) (inside E works p config w) refl

    module _ (same : held w.outside name_of ≡ some cluster_of)
        (alive : cluster_of.metadata.deletion_timestamp ≡ none)
        (without : contains_string cluster_of.metadata.finalizers controller_name ≡ false)
        (accepted : (E.clusters.update held_back w.outside).0 ≡ none) where
      -- the outcome of the first update
      abbrev Bumped : E.Outside → Type 0
      Bumped o =
          (v : String) × (v ≢ cluster_of.metadata.resource_version)
          × (held o name_of ≡ some (with_version v held_back))

      Bumped-initialized : (config : String) → Bumped (initialized E works p config w).outside
      Bumped-initialized config =
          let new = with_finalizer_new controller_name cluster_of without in
          let (v, differs, now) =
            V.accepted_bumps held_back cluster_of w.outside same
              (λ e. with_finalizer_changes controller_name cluster_of without (new ∙ e)) alive
              accepted in
          (
            v,
            differs,
            ap (λ o. held o name_of)
                  (outside_initialize_new E works p controller_name w without
                    ∙ rw new (
                        ap (λ r. r.1)
                          (retry-first (E.clusters.update held_back) 2 none w.outside accepted)))
                ∙ now,
          )

      Bumped-done :
          (config : String)
          → (provision E p config w).0 ≡ none
          → Bumped (provision E p config w).1.outside
      Bumped-done config h =
          let (v, differs, now) = Bumped-initialized config in
          let m =
            metadata_ran_up config
            ∙ ap (λ (c : Cluster). c.metadata)
                (with_finalizer_new controller_name cluster_of without) in
          let ran = ran_up E works p config w in
          let name = ap (λ (x : ObjectMeta). x.name) m in
          let (_, kept) =
            retry-stale E V.refuses (to_record config) (with_version v held_back)
              (λ e. differs (e ∙ ap (λ (x : ObjectMeta). x.resource_version) m)) 2 ran.outside
              (ap (held ran.outside) name ∙ held_ran_up config name_of ∙ now) in
          (
            v,
            differs,
            ap (λ o. held o name_of) (outside_done config h)
                ∙ kept name_of
                ∙ held_ran_up config name_of
                ∙ now,
          )

      -- Where the server tells stale updates by their versions, and holds the very object of the informer's
      -- store, without the finalizer and not being deleted: a run that returns no error, and whose first
      -- update is accepted, leaves the new configuration as applied in the store's object, while the
      -- server's has only got the finalizer and another version.
      pub first_run_unrecorded :
          (config : String)
          → get_config_str E cluster_of w ≡ ok config
          → (config == cluster_of.status.applied_config) ≡ false
          → (handle_cluster_add E p w).0 ≡ none
          → let w' = (handle_cluster_add E p w).1 in
            ((w'.heap.cell p).status.applied_config ≡ config)
            × ((v : String) × (v ≢ cluster_of.metadata.resource_version)
                × (held w'.outside name_of ≡ some (with_version v held_back)))
      first_run_unrecorded config r d h =
          let q = handle_cluster_add-changed E works L p config w r d in
          let done : (provision E p config w).0 ≡ none = sym (ap (λ v. v.0) q) ∙ h in
          rw q ((provision-IsApplied E works L p config w done).applied, Bumped-done config done)

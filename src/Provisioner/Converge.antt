-- ===== src/Provisioner/Converge.antt =====
-- Theorems on handleClusterAdd in provisioner.go: what it makes of the object.
use kubecon.Prelude.{
  String, ◌≡◌, refl, ap, ◌∙◌, true, false, Option, none, some, arith, Option-cases, inl, inr, ◌==◌,
  eq_iff,
}
use kubecon.Api.{Cluster, provisioned}
use kubecon.Platform.{Platform, ok}
use kubecon.Platform.Laws.{IsConditionLibrary}
use kubecon.World.{World, Address}
use kubecon.Provisioner.Steps.{
  AccessorWorks, with_applied, with_finalizer, cell-update_applied_config,
}
use kubecon.Provisioner.Provision.{
  provision-done, provision-failed, provision_error, cell-ran_up, ran_up, inside, rke_up,
}
use kubecon.Provisioner.{controller_name, provision, handle_cluster_add, get_config_str}

-- The object after a successful run.
pub record IsApplied (E : Platform) (config : String) (old new : Cluster) : Type 0 where
  pub applied : new.status.applied_config ≡ config
  pub spec_kept : new.spec ≡ old.spec
  pub metadata_kept : new.metadata ≡ (with_finalizer controller_name old).metadata
  pub now_provisioned : E.is_true provisioned new ≡ true

-- The object after `rke up` has failed.
pub record IsRejected (E : Platform) (old new : Cluster) : Type 0 where
  pub applied_kept : new.status.applied_config ≡ old.status.applied_config
  pub spec_kept : new.spec ≡ old.spec
  pub metadata_kept : new.metadata ≡ (with_finalizer controller_name old).metadata
  pub not_provisioned : E.is_true provisioned new ≡ false

-- The object after a run, by the error that it returned.
abbrev pub IsOutcome : (E : Platform) → String → Cluster → Cluster → Option E.Error → Type 0
IsOutcome E config old new none = IsApplied E config old new
IsOutcome E config old new (some e) = IsRejected E old new

pub with_finalizer_spec : (key : String) (c : Cluster) → (with_finalizer key c).spec ≡ c.spec
with_finalizer_spec key c = ground arith

with_finalizer_status : (key : String) (c : Cluster) → (with_finalizer key c).status ≡ c.status
with_finalizer_status key c = ground arith

module _ (E : Platform) (works : AccessorWorks E) (L : IsConditionLibrary E) where
  abbrev do_result : Cluster → Option E.Error → Cluster
  do_result x e = E.finished provisioned x (E.starting provisioned x) e

  do_result_applied :
      (x : Cluster) (e : Option E.Error)
      → (do_result x e).status.applied_config ≡ x.status.applied_config
  do_result_applied x e =
      L.finished_applied provisioned x (E.starting provisioned x) e
      ∙ L.starting_applied provisioned x

  pub do_result_spec : (x : Cluster) (e : Option E.Error) → (do_result x e).spec ≡ x.spec
  do_result_spec x e =
      L.finished_spec provisioned x (E.starting provisioned x) e ∙ L.starting_spec provisioned x

  pub do_result_metadata :
      (x : Cluster) (e : Option E.Error) → (do_result x e).metadata ≡ x.metadata
  do_result_metadata x e =
      L.finished_metadata provisioned x (E.starting provisioned x) e
      ∙ L.starting_metadata provisioned x

  IsApplied-with_applied :
      (config : String) (c : Cluster)
      → IsApplied E config c
          (with_applied config (do_result (with_finalizer controller_name c) none))
  IsApplied-with_applied config c =
      let x = with_finalizer controller_name c in
      record {
        applied = refl;
        spec_kept = do_result_spec x none ∙ with_finalizer_spec controller_name c;
        metadata_kept = do_result_metadata x none;
        now_provisioned =
            L.reads_conditions provisioned _ (do_result x none) refl ∙ L.true_after provisioned x;
      }

  IsRejected-do_result :
      (e : E.Error) (c : Cluster)
      → IsRejected E c (do_result (with_finalizer controller_name c) (some e))
  IsRejected-do_result e c =
      let x = with_finalizer controller_name c in
      record {
        applied_kept =
            do_result_applied x (some e)
            ∙ ap (λ s. s.applied_config) (with_finalizer_status controller_name c);
        spec_kept = do_result_spec x (some e) ∙ with_finalizer_spec controller_name c;
        metadata_kept = do_result_metadata x (some e);
        not_provisioned = L.false_after provisioned x e;
      }

  module _ (p : Address) (config : String) (w : World E) where
    abbrev x : Cluster
    x = with_finalizer controller_name (w.heap.cell p)

    cell_after_done :
        (rke_up E p (inside E works p config w)).0 ≡ none
        → (provision E p config w).1.heap.cell p ≡ with_applied config (do_result x none)
    cell_after_done r =
        ap (λ v. v.1.heap.cell p) (provision-done E works p config w r)
        ∙ cell-update_applied_config E p config (ran_up E works p config w)
        ∙ ap (with_applied config) (cell-ran_up E works p config w ∙ ap (do_result x) r)

    cell_after_failure :
        (e : E.Error)
        → (rke_up E p (inside E works p config w)).0 ≡ some e
        → (provision E p config w).1.heap.cell p ≡ do_result x (some e)
    cell_after_failure e r =
        ap (λ v. v.1.heap.cell p) (provision-failed E works p config w e r)
        ∙ cell-ran_up E works p config w
        ∙ ap (do_result x) r

    pub provision-IsApplied :
        (provision E p config w).0 ≡ none
        → IsApplied E config (w.heap.cell p) ((provision E p config w).1.heap.cell p)
    provision-IsApplied h =
        rw (cell_after_done (provision_error E works p config w h))
          (IsApplied-with_applied config (w.heap.cell p))

    pub provision-IsRejected :
        (e : E.Error)
        → (provision E p config w).0 ≡ some e
        → IsRejected E (w.heap.cell p) ((provision E p config w).1.heap.cell p)
    provision-IsRejected e h = elim (Option-cases (rke_up E p (inside E works p config w)).0) [
      | inl r ↦ cc (h, provision-done E works p config w r)
      | inr (y, r) ↦ rw (cell_after_failure y r) (IsRejected-do_result y (w.heap.cell p))
    ]

    -- Where provisioning returns no error, the object bears the configuration as applied, and it is
    -- provisioned; where it returns one, the applied configuration is unchanged, and it is not
    -- provisioned. Either way its spec is unchanged, and its metadata but for the finalizer, which it
    -- bears.
    pub provision-IsOutcome :
        IsOutcome E config
          (w.heap.cell p)
          ((provision E p config w).1.heap.cell p)
          (provision E p config w).0
    provision-IsOutcome = elim (Option-cases (provision E p config w).0) [
      | inl h ↦ rw h (provision-IsApplied h)
      | inr (e, h) ↦ rw h (provision-IsRejected e h)
    ]

    pub handle_cluster_add-changed :
        get_config_str E (w.heap.cell p) w ≡ ok config
        → (config == (w.heap.cell p).status.applied_config) ≡ false
        → handle_cluster_add E p w ≡ provision E p config w
    unfolding handle_cluster_add
    handle_cluster_add-changed r d = ground arith

    pub handle_cluster_add-unchanged :
        get_config_str E (w.heap.cell p) w ≡ ok config
        → config ≡ (w.heap.cell p).status.applied_config
        → handle_cluster_add E p w ≡ (none, w)
    unfolding handle_cluster_add
    handle_cluster_add-unchanged r d =
        ground (arith, eq_iff config (w.heap.cell p).status.applied_config)

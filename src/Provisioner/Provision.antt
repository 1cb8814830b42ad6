-- ===== src/Provisioner/Provision.antt =====
-- Lemmas on handleClusterAdd in provisioner.go, for a configuration that is not the applied one.
use kubecon.Prelude.{
  String, ◌<>◌, ◌≡◌, refl, ◌∙◌, Option, none, some, Option-cases, inl, inr, arith,
}
use kubecon.Api.{provisioned}
use kubecon.Platform.{Platform}
use kubecon.World.{World, M, Address, do_condition}
use kubecon.World.Laws.{cell-do_condition, before_call}
use kubecon.Provisioner.Command.{rke, provision_cluster}
use kubecon.Provisioner.Command.Laws.{heap-execute_command}
use kubecon.Provisioner.Finalizers.{initialize}
use kubecon.Provisioner.Steps.{AccessorWorks, initialize_succeeds, with_finalizer, cell-initialize}
use kubecon.Provisioner.{controller_name, provision, record_config, update_applied_config}

-- The function that `handleClusterAdd` gives to `Do`.
abbrev pub rke_up : (E : Platform) → Address → M E (Option E.Error)
rke_up E p v = provision_cluster E (v.heap.cell p) v

pub heap-rke_up : (E : Platform) (p : Address) (w : World E) → (rke_up E p w).1.heap ≡ w.heap
unfolding provision_cluster
heap-rke_up E p w = heap-execute_command E rke _ w

-- The writes of the applied configuration report no error, so neither does what follows them.
record_config_lem :
    (E : Platform) (p : Address) (config : String) (w : World E)
    → record_config E p config w ≡ (none, (update_applied_config E p config w).1)
unfolding record_config update_applied_config
record_config_lem E p config w = refl

module _ (E : Platform) (works : AccessorWorks E) (p : Address) (config : String)
    (w : World E) where
  -- after `initialize`, inside `Do` before its function is called, and after `Do`
  abbrev pub initialized : World E
  initialized = (initialize E p controller_name w).1

  abbrev pub inside : World E
  inside = before_call E provisioned p (rke_up E p) initialized

  abbrev pub ran_up : World E
  ran_up = (do_condition E provisioned p (rke_up E p) initialized).1

  pub provision-done :
      (rke_up E p inside).0 ≡ none
      → provision E p config w ≡ (none, (update_applied_config E p config ran_up).1)
  unfolding provision
  provision-done h =
      ground (
        arith,
        initialize_succeeds E works p controller_name w,
        record_config_lem E p config ran_up,
      )

  pub provision-failed :
      (e : E.Error)
      → (rke_up E p inside).0 ≡ some e
      → provision E p config w ≡ (
        some (
            E.errorf (
              "error provisioning cluster "
              <> (ran_up.heap.cell p).metadata.name
              <> " "
              <> E.message e)),
        ran_up,
      )
  unfolding provision
  provision-failed e h = ground (arith, initialize_succeeds E works p controller_name w)

  pub provision_error : (provision E p config w).0 ≡ none → (rke_up E p inside).0 ≡ none
  provision_error h = elim (Option-cases (rke_up E p inside).0) [
    | inl e ↦ e
    | inr (x, e) ↦ cc (h, provision-failed x e)
  ]

  -- the object after `Do`, in terms of the one before
  pub cell-ran_up : ran_up.heap.cell p ≡ (
      let x = with_finalizer controller_name (w.heap.cell p) in
      E.finished provisioned x (E.starting provisioned x) (rke_up E p inside).0)
  cell-ran_up =
      cell-do_condition E provisioned p (rke_up E p) initialized (heap-rke_up E p inside)
      ∙ rw (← cell-initialize E works p controller_name w)

-- ===== src/Provisioner.antt =====
-- controllers/provisioner/provisioner.go: the controller that runs `rke` for a cluster. `Command`
-- runs a process, `Finalizers` holds `initialize` and `finalize`; here are the handlers.
pub mod Command
pub mod Finalizers
pub mod Steps
pub mod Provision
pub mod Converge
pub mod Add
pub mod Frame
pub mod Requeue
pub mod Shutdown
pub mod Rerun
pub mod Retries
pub mod Gone
pub mod Applied
pub mod Elsewhere
pub mod Remove
pub mod Interrupted
pub mod Finalized
pub mod Free
pub mod Runs
pub mod Decides
pub mod Unrecorded
pub mod Recorded
pub mod Twice
pub mod Settles
use kubecon.Prelude.{ℕ, String, ◌<>◌, Option, none, some, ◌==◌, if◌then◌else◌}
use kubecon.Prelude.Exec.{◌>>=◌, pure}
use kubecon.Api.{Cluster, provisioned}
use kubecon.Platform.{Platform, Result, ok, err}
use kubecon.World.{World, M, Address, load, store, outside, do_condition}
use kubecon.World.Retry.{retry}
use kubecon.Client.Lister
use kubecon.TaskQueue.{requeue}
use Command.{provision_cluster}
use Finalizers.{initialize, finalize}

-- getName
abbrev pub controller_name : String
controller_name = "provisioner"

module _ (E : Platform) where
  -- getConfigStr
  unfoldable pub get_config_str : Cluster → World E → Result E.Error String
  get_config_str c w = E.read_file c.spec.config_path w.outside

  -- updateAppliedConfig: the outcome of the writes is dropped.
  unfoldable pub update_applied_config : Address → String → M E (Option E.Error)
  update_applied_config p config w =
      let c = w.heap.cell p in
      let (_, w1) =
        store E p (record c { status = record (c.status) { applied_config = config } }) w in
      let (_, w2) = outside E (retry 3 (E.clusters.update (w1.heap.cell p)) none) w1 in (none, w2)

  abbrev pub error_about : String → Address → World E → E.Error → E.Error
  error_about what p w e = E.errorf (what <> (w.heap.cell p).metadata.name <> " " <> E.message e)

  -- handleClusterAdd, from the write of the applied configuration on
  unfoldable pub record_config : Address → String → M E (Option E.Error)
  record_config p config w =
      let (e, w1) = update_applied_config p config w in
      elim e [
        | some x ↦ (some (error_about "error updating cluster " p w1 x), w1)
        | none ↦ (none, w1)
      ]

  -- handleClusterAdd, from the call of `initialize` on
  unfoldable pub provision : Address → String → M E (Option E.Error)
  provision p config w =
      let (e, w1) = initialize E p controller_name w in
      elim e [
        | some x ↦ (some (error_about "error initializing cluster " p w1 x), w1)
        | none ↦
            let (e2, w2) =
              do_condition E provisioned p (λ v. provision_cluster E (v.heap.cell p) v) w1 in
            elim e2 [
              | some x ↦ (some (error_about "error provisioning cluster " p w2 x), w2)
              | none ↦ record_config p config w2
            ]
      ]

  unfoldable pub handle_cluster_add : Address → M E (Option E.Error)
  handle_cluster_add p w =
      let c = w.heap.cell p in
      elim (get_config_str c w) [
        | err e ↦ (some e, w)
        | ok config ↦ if config == c.status.applied_config then (none, w) else provision p config w
      ]

  unfoldable pub handle_cluster_remove : Address → M E (Option E.Error)
  handle_cluster_remove p w =
      let (e, w1) = finalize E p controller_name w in
      elim e [
        | some x ↦ (some (error_about "error removing cluster " p w1 x), w1)
        | none ↦ (none, w1)
      ]

  -- sync, once the lister has found the cluster
  unfoldable pub handle : Address → M E (Option E.Error)
  handle p w = elim (w.heap.cell p).metadata.deletion_timestamp [
    | some _ ↦ handle_cluster_remove p w
    | none ↦ handle_cluster_add p w
  ]

  unfoldable pub sync : String → M E (Unit {0})
  sync key w = elim (Lister.get E w.indexer key) [
    | err e ↦ requeue E key e w
    | ok p ↦ let (e, w1) = handle p w in elim e [ some x ↦ requeue E key x w1 | none ↦ (tt, w1) ]
  ]

-- ===== src/Concurrent/Provisioning.antt =====
-- provisioner.go: the handler by its steps.
use kubecon.Prelude.{
  ℕ, zero, suc, String, Bool, true, false, ◌++◌, [], ◌∷◌, Option, none, some, ◌==◌, if◌then◌else◌,
}
use kubecon.Api.{Cluster, provisioned}
use kubecon.Platform.{Platform, Result, ok, err}
use kubecon.World.{M, Address, store, outside}
use kubecon.Client.Lister
use kubecon.TaskQueue.{requeue}
use kubecon.Provisioner.Command.{provision_cluster, remove_cluster}
use kubecon.Provisioner.Finalizers.{contains_string, without, set_finalizers}
use kubecon.Provisioner.{controller_name, get_config_str, error_about}
use kubecon.Concurrent.{Task, ended, step, bind, update_loop, do_condition_task}

module _ (E : Platform) where
  -- The loop of updates that sends one object of its own.
  unfoldable pub send_loop : ℕ → Cluster → Option E.Error → Task E (Option E.Error)
  send_loop zero c last = ended last
  send_loop (suc i) c last =
      step (outside E (E.clusters.update c))
        (λ e. elim e [ none ↦ ended none | some x ↦ send_loop i c (some x) ])

  -- What `initialize` finds: an error, the finalizer, or neither, and then it has added it.
  pub data Found : Type 0 where
    broken : E.Error → Found
    present added : Found

  unfoldable pub add_finalizer : Address → String → M E Found
  add_finalizer p key w =
      let c = w.heap.cell p in
      elim (E.accessor_error c) [
        | some e ↦ (broken e, w)
        | none ↦
            if contains_string c.metadata.finalizers key
            then (present, w)
            else let (_, w1) =
                store E p (set_finalizers (c.metadata.finalizers ++ (key ∷ [])) c) w in
              (added, w1)
      ]

  unfoldable pub initialized_task : Address → Found → Task E (Option E.Error)
  initialized_task p (broken e) = ended (some e)
  initialized_task p present = ended none
  initialized_task p added = bind (update_loop E 3 p none) (λ _. ended none)

  abbrev pub initialize_task : Address → String → Task E (Option E.Error)
  initialize_task p key = step (add_finalizer p key) (λ f. initialized_task p f)

  -- `fmt.Errorf` with the cluster's name
  abbrev pub fail_task : String → Address → E.Error → Task E (Option E.Error)
  fail_task what p e = step (λ w. (error_about E what p w e, w)) (λ x. ended (some x))

  -- the command and the record of handleClusterAdd
  abbrev pub up_task : Address → Task E (Option E.Error)
  up_task p = step (λ w. provision_cluster E (w.heap.cell p) w) (λ r. ended r)

  unfoldable pub record_task : Address → String → Option E.Error → Task E (Option E.Error)
  record_task p config (some x) = fail_task "error provisioning cluster " p x
  record_task p config none =
      step
        (λ w.
          let c = w.heap.cell p in
          store E p (record c { status = record (c.status) { applied_config = config } }) w)
        (λ _. bind (update_loop E 3 p none) (λ _. ended none))

  unfoldable pub bring_up_task : Address → String → Option E.Error → Task E (Option E.Error)
  bring_up_task p config (some x) = fail_task "error initializing cluster " p x
  bring_up_task p config none =
      bind (do_condition_task E provisioned p (up_task p)) (λ r. record_task p config r)

  unfoldable pub provision_task : Address → String → Bool → Task E (Option E.Error)
  provision_task p config true = ended none
  provision_task p config false =
      bind (initialize_task p controller_name) (λ e. bring_up_task p config e)

  -- handleClusterAdd, by the configuration that is read
  unfoldable pub configure_task : Address → Result E.Error String → Task E (Option E.Error)
  configure_task p (err e) = ended (some e)
  configure_task p (ok config) =
      step (λ w. (config == (w.heap.cell p).status.applied_config, w))
        (λ same. provision_task p config same)

  abbrev pub add_task : Address → Task E (Option E.Error)
  add_task p = step (λ w. (get_config_str E (w.heap.cell p) w, w)) (λ r. configure_task p r)

  -- finalize: the guards on the server's object, and what follows them
  unfoldable pub send_cleaned_task : Cluster → String → Option E.Error → Task E (Option E.Error)
  send_cleaned_task x key (some e) = ended (some e)
  send_cleaned_task x key none =
      send_loop 3 (set_finalizers (without key x.metadata.finalizers) x) none

  abbrev pub awaits_clean_up : String → Cluster → Bool
  awaits_clean_up key x = elim x.metadata.deletion_timestamp [
    | none ↦ false
    | some _ ↦ contains_string x.metadata.finalizers key
  ]

  unfoldable pub clean_up_task : Address → String → Cluster → Bool → Task E (Option E.Error)
  clean_up_task p key x false = ended none
  clean_up_task p key x true =
      step (λ w. remove_cluster E (w.heap.cell p) w) (λ e. send_cleaned_task x key e)

  unfoldable pub inspect_task :
      Address → String → Cluster → Option E.Error → Task E (Option E.Error)
  inspect_task p key x (some e) = ended (some e)
  inspect_task p key x none = clean_up_task p key x (awaits_clean_up key x)

  unfoldable pub finalize_found :
      Address → String → Result E.Error Cluster → Task E (Option E.Error)
  finalize_found p key (err e) = ended (if E.is_not_found e then none else some e)
  finalize_found p key (ok x) = inspect_task p key x (E.accessor_error x)

  abbrev pub finalize_task : Address → String → Task E (Option E.Error)
  finalize_task p key =
      step (λ w. outside E (E.clusters.get (w.heap.cell p).metadata.name) w)
        (λ r. finalize_found p key r)

  -- sync, once the lister has found the cluster
  unfoldable pub removed_task : Address → Option E.Error → Task E (Option E.Error)
  removed_task p (some x) = fail_task "error removing cluster " p x
  removed_task p none = ended none

  unfoldable pub dispatch_task : Address → Option String → Task E (Option E.Error)
  dispatch_task p (some _) = bind (finalize_task p controller_name) (λ e. removed_task p e)
  dispatch_task p none = add_task p

  abbrev pub handle_task : Address → Task E (Option E.Error)
  handle_task p =
      step (λ w. ((w.heap.cell p).metadata.deletion_timestamp, w)) (λ t. dispatch_task p t)

  unfoldable pub requeue_task : String → Option E.Error → Task E (Unit {0})
  requeue_task key (some e) = step (requeue E key e) (λ _. ended tt)
  requeue_task key none = ended tt

  unfoldable pub look_up_task : String → Result E.Error Address → Task E (Unit {0})
  look_up_task key (err e) = requeue_task key (some e)
  look_up_task key (ok p) = bind (handle_task p) (λ e. requeue_task key e)

  unfoldable pub sync_task : String → Task E (Unit {0})
  sync_task key = step (λ w. (Lister.get E w.indexer key, w)) (λ r. look_up_task key r)

-- ===== src/Tests/Provisioning.antt =====
-- The provisioner on the machine of the tests: each theorem at one cluster.
use mathlib.Core.Path.{subst}
use mathlib.Core.Option.{none-ne-some}
use kubecon.Prelude.Strings.{has}
use kubecon.Client.Lister
use kubecon.Prelude.{
  arith, String, ◌≡◌, sym, ◌↔◌, ◌⊎◌, refl, true, false, none, [], ◌∷◌, Bool, List,
}
use kubecon.Api.{Cluster}
use kubecon.World.{World, missing}
use kubecon.World.Retry.{retry, retry-Settled, Settled}
use kubecon.TaskQueue.{turn, worker, busy, shut_down, enqueue, object}
use kubecon.Provisioner.Command.{print_logs, execute_command, provision_cluster, remove_cluster}
use kubecon.Provisioner.Finalizers.{contains_string, without, initialize, clean_up, finalize}
use kubecon.Provisioner.Converge.{provision-IsOutcome, IsOutcome}
use kubecon.Provisioner.Decides.{sync-decides}
use kubecon.Provisioner.Gone.{gone_key_spins, Spinning}
use kubecon.Controllers.Delivered.{enqueue-Served, Served, IsWell}
use kubecon.Controllers.Handled.{InStore}
use kubecon.World.Keeps.{Kept-same}
use kubecon.Provisioner.Add.{handle_cluster_add_twice}
use kubecon.Provisioner.Runs.{up_exit, handle_cluster_add_succeeds_iff}
use kubecon.Provisioner.Finalized.{finalize-Finalized, Finalized}
use kubecon.Provisioner.Remove.{finalize_safe, remove_exit}
use kubecon.Provisioner.Requeue.{turn_requeues}
use kubecon.TaskQueue.Run.{
  Ended, returned, panicked, unended, WaitLibrary, CallsUntilStopped, run_queue, shutdown,
}
use kubecon.Provisioner.Rerun.{run_queue-shut_down, shutdown-returned}
use kubecon.Provisioner.Retries.{Failed, start, OnlyKey, Fares, worker-Fares}
use kubecon.Provisioner.{
  handle, handle_cluster_add, provision, sync, update_applied_config, record_config, get_config_str,
}
use kubecon.Tests.Machine.{machine, Items, cluster_at}
use kubecon.Tests.Machine.Laws.{
  machine-IsConditionLibrary, machine-KeepsClusters, machine-HasStableFiles, machine-IsWorkQueue,
}
use kubecon.Tests.Scenes.{site, process, fresh, doomed, cluster_file}

abbrev initial : World machine
initial = process true fresh (site fresh)

-- the same with an `rke` that fails
abbrev start_broken : World machine
start_broken = process true fresh (record (site fresh) { rke_works = false })

abbrev ending : World machine
ending = process true doomed (site doomed)

abbrev ending_broken : World machine
ending_broken = process true doomed (record (site doomed) { rke_works = false })

-- the cluster bears no finalizer but the provisioner's
abbrev doomed_last : Cluster
doomed_last = record doomed {
  metadata = record (doomed.metadata) { finalizers = "provisioner" ∷ [] };
}

abbrev ending_last : World machine
ending_last = process true doomed_last (site doomed_last)

-- the queue of these processes once its item is taken
abbrev emptied : Items
emptied = record { waiting_items = []; taken_items = "east" ∷ []; closing = false }

handle_cluster_add_twice_example :
    let w' = (handle_cluster_add machine 0 initial).1 in
    handle_cluster_add machine 0 w' ≡ (none, w')
unfolding handle_cluster_add get_config_str provision initialize contains_string provision_cluster
    execute_command record_config update_applied_config retry print_logs
handle_cluster_add_twice_example =
    handle_cluster_add_twice machine (λ c. refl) (machine-IsConditionLibrary true) 0 initial
      (machine-HasStableFiles true) refl

finalize_safe_example :
    (contains_string doomed.metadata.finalizers "provisioner" ≡ true)
    × (remove_exit machine 0 "provisioner" ending_last ≡ none)
unfolding contains_string finalize clean_up without remove_cluster execute_command retry print_logs
finalize_safe_example =
    finalize_safe machine 0 "provisioner" ending_last (machine-KeepsClusters true) (λ c. refl)
      "east" (none-ne-some doomed_last)

finalize-Finalized_example :
    Finalized machine 0 "provisioner" ending cluster_at
      (finalize machine 0 "provisioner" ending).0
      (finalize machine 0 "provisioner" ending).1.outside
finalize-Finalized_example =
    finalize-Finalized machine 0 "provisioner" ending cluster_at (machine-KeepsClusters true)
      (λ c. refl)

turn_requeues_example :
    has (turn machine (sync machine) "east" emptied start_broken).queue.waiting_items "east" ≡ true
unfolding sync handle handle_cluster_add get_config_str provision initialize contains_string
    provision_cluster execute_command record_config update_applied_config retry print_logs
    Lister.get
turn_requeues_example =
    turn_requeues machine (machine-IsWorkQueue true) "east" emptied start_broken refl "east"

shutdown-returned_example :
    (v : World machine) × (shutdown machine (sync machine) 2 (false, start_broken)
      ≡ returned (true, v))
    × ((j : String) → has v.queue.waiting_items j ≡ false)
    × (shutdown machine (sync machine) 5 (true, v) ≡ returned (true, (shut_down machine v).1))
shutdown-returned_example =
    shutdown-returned machine (machine-IsWorkQueue true) 1 ("east" ∷ []) start_broken (omega arith)
      (λ j h. h) (λ j. refl) 5

-- a stop channel that is never found closed, after the shutdown
abbrev until : {S : Type 0} → (S → Ended S) → List Bool → S → Ended S
until f [] s = unended s
until f (true ∷ l) s = returned s
until f (false ∷ l) s =
    let rest = until f l in
    elim (f s) [ returned t ↦ rest t | panicked t ↦ panicked t | unended t ↦ unended t ]

abbrev waits : WaitLibrary
waits = record { until = until }

waits-CallsUntilStopped : CallsUntilStopped waits
waits-CallsUntilStopped = record {
  looked = λ f s. refl;
  stopped = λ f l s. refl;
  called = λ f l s. refl;
}

run_queue-shut_down_example :
    let v = (worker machine (sync machine) 2 (shut_down machine start_broken).1).1 in
    (run_queue machine waits
        (sync machine)
        2
        (false ∷ false ∷ [])
        (false, (shut_down machine start_broken).1)
      ≡ panicked (true, v))
    × ((j : String) → has v.queue.waiting_items j ≡ false)
run_queue-shut_down_example =
    run_queue-shut_down machine (machine-IsWorkQueue true) waits-CallsUntilStopped 1 ("east" ∷ [])
      start_broken (omega arith) (λ j h. h) (λ j. refl) false []

-- the queue with the key in it alone
only_east : OnlyKey machine "east" (machine-IsWorkQueue true) start_broken.queue
only_east = record { open_queue = refl; idle = λ j. refl; only = λ j. ground arith }

worker-Fares_example : Fares machine "east" (machine-IsWorkQueue true) 3 start_broken
worker-Fares_example =
    worker-Fares machine "east" (machine-IsWorkQueue true) 3 start_broken only_east

-- a process with the queue still empty, whose `rke` works
abbrev resting : World machine
resting = record initial {
  queue = record { waiting_items = []; taken_items = []; closing = false };
}

in_store : InStore machine "east" 0 fresh resting
unfolding Lister.get
in_store = record {
  in_store = refl;
  allocated = omega arith;
  kept = Kept-same fresh fresh refl refl;
}

abbrev enqueued : World machine
unfolding enqueue
enqueued = (enqueue machine (object fresh) resting).1

unfailed : {w v : World machine} → Failed machine "east" 0 w v → v ≡ w
unfailed start = refl

well_enqueued :
    (v : World machine) (q : Items)
    → Failed machine "east" 0 enqueued v
    → IsWell machine (λ c. refl) (machine-IsConditionLibrary true) 0 (record v { queue = q })
unfolding enqueued enqueue get_config_str initialize contains_string retry
well_enqueued v q f =
    subst
      (λ (u : World machine).
        IsWell machine (λ c. refl) (machine-IsConditionLibrary true) 0 (record u { queue = q }))
      (sym (unfailed f)) (record { config = "nodes: 3"; readable = refl; comes_up = refl })

enqueue-Served_example :
    Served machine
      (λ c. refl)
      (machine-IsConditionLibrary true)
      "east"
      0
      fresh
      refl
      (machine-IsWorkQueue true)
      0
      (enqueue machine (object fresh) resting).1
unfolding enqueued enqueue
enqueue-Served_example =
    enqueue-Served machine (λ c. refl) (machine-IsConditionLibrary true) "east" 0 fresh refl
      (machine-IsWorkQueue true) 0 fresh resting refl refl (λ j. refl) (λ j. refl) in_store
      well_enqueued

handle_cluster_add_succeeds_iff_example : ((handle_cluster_add machine 0 start_broken).0 ≡ none) ↔ (
    (◌≡◌ {A = String} "nodes: 3" "")
    ⊎ (up_exit machine (λ c. refl) (machine-IsConditionLibrary true) 0 start_broken ≡ none))
unfolding get_config_str
handle_cluster_add_succeeds_iff_example =
    handle_cluster_add_succeeds_iff machine (λ c. refl) (machine-IsConditionLibrary true) 0
      start_broken "nodes: 3" refl

provision-IsOutcome_example :
    IsOutcome machine "nodes: 3" fresh
      ((provision machine 0 "nodes: 3" start_broken).1.heap.cell 0)
      (provision machine 0 "nodes: 3" start_broken).0
provision-IsOutcome_example =
    provision-IsOutcome machine (λ c. refl) (machine-IsConditionLibrary true) 0 "nodes: 3"
      start_broken

sync-decides_example :
    (sync machine "east" ending).1.commands
    ≡ record {
      name = "/Users/alena/go/src/github.com/rancher/rke/rke";
      args = "remove" ∷ "--force" ∷ "--config" ∷ cluster_file ∷ [];
    }
      ∷ []
unfolding contains_string Lister.get get_config_str
sync-decides_example =
    sync-decides machine 0 ending (λ c. refl) (machine-IsConditionLibrary true) "east" refl

-- the object has left the store
abbrev gone : World machine
gone = record start_broken { indexer = λ n. missing }

gone_key_spins_example :
    ((worker machine (sync machine) 3 gone).0 ≡ busy)
    × Spinning machine "east"
        (machine-IsWorkQueue true)
        gone
        (worker machine (sync machine) 3 gone).1
gone_key_spins_example =
    gone_key_spins machine "east" (machine-IsWorkQueue true) 3 gone only_east refl

retry-Settled_example :
    Settled
      (machine.clusters.update doomed)
      2
      (site doomed)
      (retry 3 (machine.clusters.update doomed) none (site doomed))
retry-Settled_example = retry-Settled (machine.clusters.update doomed) 2 none (site doomed)

-- ===== src/Tests/Leaving.antt =====
-- A cluster that is being deleted, from the event of the informer on.
use mathlib.Core.Path.{subst}
use kubecon.Prelude.{◌≡◌, sym, refl, true, false, [], arith}
use kubecon.World.{World}
use kubecon.World.Keeps.{Kept-same}
use kubecon.Client.Lister
use kubecon.TaskQueue.{enqueue, object}
use kubecon.Provisioner.Retries.{Failed, start}
use kubecon.Provisioner.Command.{remove_cluster, execute_command, print_logs}
use kubecon.Provisioner.Finalizers.{without}
use kubecon.Provisioner.Free.{CanGo}
use kubecon.Controllers.Handled.{InStore}
use kubecon.Controllers.Released.{LetGo, enqueue-LetGo}
use kubecon.Tests.Machine.{machine, Items}
use kubecon.Tests.Machine.Laws.{
  machine-IsWorkQueue, machine-IsConditionLibrary, machine-KeepsClusters, machine-FindsClusters,
}
use kubecon.Tests.Scenes.{doomed, site, process}

-- the cluster in the store and at the server, with the queue still empty
abbrev resting : World machine
resting = record (process true doomed (site doomed)) {
  queue = record { waiting_items = []; taken_items = []; closing = false };
}

abbrev enqueued : World machine
unfolding enqueue
enqueued = (enqueue machine (object doomed) resting).1

in_store : InStore machine "east" 0 doomed resting
unfolding Lister.get
in_store = record {
  in_store = refl;
  allocated = omega arith;
  kept = Kept-same doomed doomed refl refl;
}

unfailed : {w v : World machine} → Failed machine "east" 0 w v → v ≡ w
unfailed start = refl

can_go :
    (v : World machine) (q : Items)
    → Failed machine "east" 0 enqueued v
    → CanGo machine 0 (record v { queue = q })
unfolding enqueued enqueue remove_cluster execute_command print_logs without
can_go v q f =
    subst (λ (u : World machine). CanGo machine 0 (record u { queue = q })) (sym (unfailed f))
      (record { answers = λ e h. ground arith; cleans = refl; accepts = λ x h. refl })

enqueue-LetGo_example :
    LetGo machine
      (λ c. refl)
      (machine-IsConditionLibrary true)
      "east"
      0
      doomed
      "2018-12-10T12:00:00Z"
      refl
      (machine-KeepsClusters true)
      (machine-FindsClusters true)
      (machine-IsWorkQueue true)
      0
      (enqueue machine (object doomed) resting).1
unfolding enqueued enqueue
enqueue-LetGo_example =
    enqueue-LetGo machine (λ c. refl) (machine-IsConditionLibrary true) "east" 0 doomed
      "2018-12-10T12:00:00Z" refl (machine-KeepsClusters true) (machine-FindsClusters true)
      (machine-IsWorkQueue true) 0 doomed resting refl refl (λ j. refl) (λ j. refl) in_store can_go

-- ===== src/Tests/Together.antt =====
-- The provisioner and the health checker at work together on one object.
use mathlib.Core.List.{Memᴰ}
use kubecon.Prelude.{
  ℕ, zero, suc, ◌≡◌, refl, none, some, false, List, [], ◌∷◌, ◌++◌, ◌==◌, if◌then◌else◌,
}
use kubecon.Platform.Versions.{with_version}
use kubecon.World.{World, missing}
use kubecon.Client.Lister
use kubecon.Provisioner.Finalizers.{contains_string, set_finalizers}
use kubecon.Provisioner.{get_config_str}
use kubecon.Controllers.Backed.{AllBacked}
use kubecon.Concurrent.{Task, ended, step, bind, update_loop}
use kubecon.Concurrent.Handlers.{health_task}
use kubecon.Concurrent.Provisioning.{
  sync_task, look_up_task, dispatch_task, configure_task, provision_task, add_finalizer,
  initialized_task,
}
use kubecon.Concurrent.Safe.{Later}
use kubecon.Concurrent.Interleaved.{
  Interleaved, start, from_here, observe, provision_key, check_health, advance, delivered,
}
use kubecon.Concurrent.Cores.{interleaved_keep_cores}
use kubecon.Tests.Meddled.{
  meddled, meddled-SharesServer, meddled-IsConditionLibrary, entry_of, writes_of,
}
use kubecon.Tests.Scenes.{cluster_file}
use kubecon.Tests.Versioned.{created, next_version}

-- a server that holds what the informer has delivered, and that another client uses too
abbrev shared : World meddled
shared = record {
  heap = record { next = 0; cell = λ q. created };
  indexer = λ n. missing;
  queue = record { waiting_items = []; taken_items = []; closing = false };
  commands = [];
  stdout = [];
  outside = record {
    registry = record {
      current = λ n. if n == "east" then some "1" else none;
      log = λ n v. if v == "1" then some created else none;
      files = λ n. if n == cluster_file then some "nodes: 3" else none;
    };
    writes = [];
  };
}

abbrev shared_delivered : World meddled
shared_delivered = delivered "east" created shared

-- the next steps of a handler, with nothing in between
abbrev steps : ℕ → Task meddled (Unit {0}) → World meddled → Task meddled (Unit {0}) × World meddled
steps zero t w = (t, w)
steps (suc n) (ended b) w = (ended b, w)
steps (suc n) (step m k) w = steps n (k (m w).0) (m w).1

abbrev Course : World meddled → List (Task meddled (Unit {0})) → Type 1
Course w ts = Interleaved meddled entry_of writes_of shared_delivered w (0 ∷ []) ts

Course-steps :
    (n : ℕ) (before : List (Task meddled (Unit {0}))) (t : Task meddled (Unit {0}))
    (after : List (Task meddled (Unit {0}))) (w : World meddled)
    → Course w (before ++ (t ∷ after))
    → Course (steps n t w).1 (before ++ ((steps n t w).0 ∷ after))
Course-steps zero before t after w r = r
Course-steps (suc n) before (ended b) after w r = r
Course-steps (suc n) before (step m k) after w r =
    Course-steps n before (k (m w).0) after (m w).1 (advance m k before after r)

-- The provisioner adds its finalizer; the health checker begins; the provisioner sends the object.
abbrev begun : Task meddled (Unit {0}) × World meddled
begun = steps 5 (sync_task meddled "east") shared_delivered

abbrev checked : Task meddled (Unit {0}) × World meddled
checked = steps 1 (health_task meddled 0) begun.1

abbrev sent : Task meddled (Unit {0}) × World meddled
sent = steps 1 begun.0 checked.1

interleaved_keep_cores_example :
    Later meddled meddled-SharesServer shared_delivered sent.1
    × AllBacked meddled entry_of sent.1 (0 ∷ [])
interleaved_keep_cores_example =
    interleaved_keep_cores meddled meddled-SharesServer meddled-IsConditionLibrary (
      Course-steps 1 (checked.0 ∷ []) begun.0 [] checked.1 (
        Course-steps 1 [] (health_task meddled 0) (begun.0 ∷ []) begun.1 (
          Course-steps 5 (health_task meddled 0 ∷ []) (sync_task meddled "east") [] shared_delivered
            (check_health 0
              (provision_key "east"
                (from_here (observe "east" created (start shared (λ key. refl)) refl)))
              (Memᴰ.head refl)))))

-- what the provisioner has then replaced
sent_writes :
    sent.1.outside.writes
    ≡ record {
      before = created;
      after = with_version (next_version "1") (set_finalizers ("provisioner" ∷ []) created);
    }
      ∷ []
unfolding sync_task look_up_task dispatch_task configure_task provision_task add_finalizer bind
    initialized_task update_loop Lister.get health_task contains_string get_config_str
sent_writes = refl

-- ===== src/Tests/Conflicts.antt =====
-- The controllers on a machine whose server tells stale updates.
use kubecon.Prelude.{String, ◌≡◌, ◌≢◌, refl, none, some, [], ◌∷◌, false, ◌==◌, arith, if◌then◌else◌}
use kubecon.Api.{Cluster}
use kubecon.Platform.Versions.{with_version}
use kubecon.World.{World, Address, alloc_cell, write_cell, Command, present, missing}
use kubecon.World.Retry.{retry}
use kubecon.Provisioner.Command.{
  print_logs, execute_command, provision_cluster, rke, remove_cluster,
}
use kubecon.Provisioner.Finalizers.{
  contains_string, initialize, set_finalizers, clean_up, finalize, without,
}
use kubecon.Provisioner.Unrecorded.{first_run_unrecorded}
use kubecon.Provisioner.Twice.{brought_up_twice}
use kubecon.Provisioner.Settles.{delivered_finds_nothing}
use kubecon.Provisioner.{
  handle_cluster_add, provision, update_applied_config, record_config, get_config_str,
}
use kubecon.Healthchecker
use kubecon.Annotator
use kubecon.Controllers.Stale.{stale_handlers_overwrite_nothing}
use kubecon.ConfigGenerator
use kubecon.Provisioner
use kubecon.Client.Lister
use kubecon.Platform.{ok}
use kubecon.Controllers.Course.{observe, start, handlers_keep_cores}
use kubecon.Controllers.Faithful.{Followed}
use kubecon.Tests.Registry.{
  Registry, registering, registering-LogsVersions, registering-IsConditionLibrary,
}
use mathlib.Core.List.{Memᴰ}
use kubecon.Tests.Machine.{Site}
use kubecon.Tests.Machine.Laws.{differ}
use kubecon.Tests.Scenes.{site, cluster_file, doomed}
use kubecon.Provisioner.Interrupted.{finalize_interrupted}
use kubecon.Provisioner.Remove.{args_of}
use kubecon.Tests.Versioned.{
  disturbed, disturbed-RefusesStale, versioned, versioned-VersionsClusters,
  versioned-HasStableFiles, versioned-IsConditionLibrary, created, started_with, next_version,
}

abbrev initial : World versioned
initial = started_with created (site created)

abbrev once : World versioned
once = (handle_cluster_add versioned 0 initial).1

-- what the server then holds
abbrev delivered : Cluster
delivered = with_version (next_version "1") (set_finalizers ("provisioner" ∷ []) created)

abbrev redelivered : World versioned
redelivered = record once { heap = (started_with delivered once.outside).heap }

first_run_unrecorded_example :
    ((once.heap.cell 0).status.applied_config ≡ "nodes: 3")
    × ((v : String) × (v ≢ "1")
        × (once.outside.clusters "east"
            ≡ some (with_version v (set_finalizers ("provisioner" ∷ []) created))))
unfolding handle_cluster_add get_config_str provision initialize contains_string provision_cluster
    execute_command record_config update_applied_config retry print_logs
first_run_unrecorded_example =
    first_run_unrecorded versioned (λ c. refl) versioned-IsConditionLibrary 0 initial
      versioned-VersionsClusters refl refl refl refl "nodes: 3" refl refl refl

-- the command that brings the cluster up
abbrev up : Command
up = record {
  name = "/Users/alena/go/src/github.com/rancher/rke/rke";
  args = "up" ∷ "--config" ∷ cluster_file ∷ [];
}

brought_up_twice_example :
    let v = (handle_cluster_add versioned 0 redelivered).1 in
    (v.commands ≡ up ∷ up ∷ [])
    × ((v.heap.cell 0).status.applied_config ≡ "nodes: 3")
    × ((n : String) × (v.outside.clusters "east" ≡ some (with_version n (v.heap.cell 0))))
unfolding handle_cluster_add get_config_str provision initialize contains_string provision_cluster
    execute_command record_config update_applied_config retry print_logs
brought_up_twice_example =
    brought_up_twice versioned (λ c. refl) versioned-IsConditionLibrary versioned-VersionsClusters
      versioned-HasStableFiles 0 initial refl refl refl refl "nodes: 3" refl refl refl 0 redelivered
      refl refl refl refl refl

-- the cluster with its finalizer, in the store as at the server
abbrev known : World versioned
known = started_with delivered (site delivered)

-- once it has been brought up, and delivered anew
abbrev upgraded : World versioned
upgraded = (handle_cluster_add versioned 0 known).1

abbrev renewed : World versioned
renewed = record upgraded {
  heap = write_cell 0 (with_version (next_version "1+") (upgraded.heap.cell 0)) upgraded.heap;
}

delivered_finds_nothing_example : handle_cluster_add versioned 0 renewed ≡ (none, renewed)
unfolding handle_cluster_add get_config_str provision initialize contains_string provision_cluster
    execute_command record_config update_applied_config retry print_logs
delivered_finds_nothing_example =
    delivered_finds_nothing versioned (λ c. refl) versioned-IsConditionLibrary
      versioned-VersionsClusters versioned-HasStableFiles 0 known refl refl refl "nodes: 3" refl
      refl refl refl 0 renewed refl refl

-- the informer's store behind the server by one version
abbrev behind : World versioned
behind = started_with created (site delivered)

stale_handlers_overwrite_nothing_example :
    ((handle_cluster_add versioned 0 behind).1.outside.clusters "east" ≡ some delivered)
    × ((Healthchecker.sync versioned 0 behind).1.outside.clusters "east" ≡ some delivered)
    × ((Annotator.sync versioned 0 behind).1.outside.clusters "east" ≡ some delivered)
stale_handlers_overwrite_nothing_example =
    stale_handlers_overwrite_nothing versioned versioned-IsConditionLibrary
      versioned-VersionsClusters 0 behind delivered refl (differ "1+" "1" refl) (λ c. refl) "east"

-- a cluster that is being deleted, with the server disturbed while `rke remove` runs
abbrev ending : World disturbed
ending = record {
  heap = record { next = 1; cell = λ q. doomed };
  indexer = λ n. if n == "east" then present 0 else missing;
  queue = record { waiting_items = []; taken_items = []; closing = false };
  commands = [];
  stdout = [];
  outside = site doomed;
}

-- what `rke remove` leaves outside
abbrev left_by_remove : Site
left_by_remove = (disturbed.exec rke (args_of disturbed 0 "provisioner" ending) ending.outside).1

finalize_interrupted_example :
    ((finalize disturbed 0 "provisioner" ending).0 ≢ none)
    × ((n : String)
        → (finalize disturbed 0 "provisioner" ending).1.outside.clusters n
          ≡ left_by_remove.clusters n)
unfolding contains_string finalize clean_up without remove_cluster execute_command retry print_logs
finalize_interrupted_example =
    finalize_interrupted disturbed disturbed-RefusesStale (λ c. refl) 0 "provisioner" ending doomed
      (with_version (next_version "") doomed) refl refl refl refl (differ "+" "" refl)

-- a server whose user has moved the cluster's file since the version that the informer delivers
abbrev moved_since : Registry
moved_since = record {
  current = λ n. if n == "east" then some "2" else none;
  log = λ n v.
      if v == "1"
      then some created
      else some
          (record (with_version "2" created) { spec = record { config_path = "/other.yml" } });
  files = λ n. if n == cluster_file then some "nodes: 3" else none;
}

abbrev waiting : World registering
waiting = record {
  heap = record { next = 0; cell = λ q. created };
  indexer = λ n. missing;
  queue = record { waiting_items = []; taken_items = []; closing = false };
  commands = [];
  stdout = [];
  outside = moved_since;
}

-- the informer's store with the old version
abbrev lagging : World registering
lagging = record waiting {
  heap = alloc_cell created waiting.heap;
  indexer = λ k. if "east" == k then present 0 else missing;
}

only_delivered :
    (p : Address) → Lister.get registering lagging.indexer "east" ≡ ok p → Memᴰ p (0 ∷ [])
unfolding Lister.get
only_delivered p r = Memᴰ.head (ground arith)

handlers_keep_cores_example :
    Followed registering registering-LogsVersions moved_since
      (Provisioner.sync registering "east" lagging).1.outside
    × Followed registering registering-LogsVersions moved_since
        (Healthchecker.sync registering 0 lagging).1.outside
    × Followed registering registering-LogsVersions moved_since
        (Annotator.sync registering 0 lagging).1.outside
    × Followed registering registering-LogsVersions moved_since
        (ConfigGenerator.sync registering 0 lagging).1.outside
handlers_keep_cores_example =
    handlers_keep_cores registering (λ c. refl) registering-IsConditionLibrary
      registering-LogsVersions (observe "east" created (start waiting) refl) "east" only_delivered 0
      (Memᴰ.head refl)

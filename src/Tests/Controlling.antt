-- ===== src/Tests/Controlling.antt =====
-- The other three controllers and the start of the program on the machine of the tests.
use kubecon.Prelude.{String, ◌≡◌, ◌↔◌, refl, true, false, some, List, [], ◌∷◌, ◌++◌, arith}
use kubecon.Prelude.Map.{index, assign}
use kubecon.Api.{ready}
use kubecon.World.{World, Command}
use kubecon.World.Retry.{retry}
use kubecon.Controllers.Earned.{Earned, reached-Earned}
use kubecon.Controllers.Reasons.{AllCaused, commands_have_reasons}
use kubecon.Client.Clientset.{new_for_config, typed_for_config, with_limiter}
use kubecon.Client.Informers.{Kind, Factory, informer_for, find, new_factory}
use kubecon.Healthchecker.{handle_cluster_update}
use kubecon.Healthchecker.Laws.{Passes, sync-ready_iff}
use kubecon.Annotator.{
  update_annotation, annotate, current_version, get_version, read_version, version_or_empty,
  kubernetes_version_annotation,
}
use kubecon.Annotator.Laws.{sync_annotates, failed_read_erases, annotation}
use kubecon.ConfigGenerator.{new_kubeconfig}
use kubecon.ConfigGenerator.FilePath.{kube_config_path}
use kubecon.ConfigGenerator.FilePath.Laws.{kube_config_path-file}
use kubecon.Controllers.{register, register_all}
use kubecon.Controllers.Laws.{register_all-events, registration}
use kubecon.Controllers.Runs.{Reached, start, next, provision_key, check_health}
use kubecon.Provisioner
use kubecon.Startup.{apply_file, apply_files, run, serving}
use kubecon.Startup.Serving.{run_serves_iff, IsStarted}
use kubecon.Startup.Laws.{Applied, apply_files-Applied}
use kubecon.Healthchecker
use kubecon.Annotator
use kubecon.ConfigGenerator
use kubecon.Tests.Machine.{machine, cluster_at}
use kubecon.Tests.Machine.Laws.{differ, machine-IsConditionLibrary, machine-KeepsClusters}
use kubecon.Tests.Scenes.{site, site_with, process, running, annotated, kubeconfig_at}

abbrev config_path : String
config_path = "/etc/rke//kube_config_cluster.yml"

-- a provisioned cluster whose Kubeconfig leads to its API server
abbrev healthy : World machine
healthy = process true running (site_with (kubeconfig_at config_path) running)

-- a ready cluster, with the version that its API server tells
abbrev current : World machine
current =
    process true (annotated "v1.8.3") (site_with (kubeconfig_at config_path) (annotated "v1.8.3"))

-- with an older one
abbrev stale : World machine
stale =
    process true (annotated "v1.7.0") (site_with (kubeconfig_at config_path) (annotated "v1.7.0"))

-- and with an API server that does not answer
abbrev silent : World machine
silent = record stale { outside = record (stale.outside) { answers = false } }

sync-ready_iff_example :
    (machine.is_true ready ((Healthchecker.sync machine 0 healthy).1.heap.cell 0) ≡ true)
    ↔ Passes machine "east" healthy.outside
sync-ready_iff_example = sync-ready_iff machine (machine-IsConditionLibrary true) 0 healthy refl

sync_annotates_example :
    cluster_at (Annotator.sync machine 0 stale).1.outside "east"
    ≡ some (annotate "v1.8.3" (annotated "v1.7.0"))
unfolding current_version index annotate assign get_version read_version version_or_empty
    new_for_config typed_for_config with_limiter retry
sync_annotates_example = sync_annotates machine 0 stale (machine-KeepsClusters true) refl "east"

failed_read_erases_example :
    (cluster_at (Annotator.sync machine 0 silent).1.outside "east"
      ≡ some (annotate "" (annotated "v1.7.0")))
    × (annotation kubernetes_version_annotation (annotate "" (annotated "v1.7.0")) ≡ "")
unfolding annotate assign current_version index get_version read_version version_or_empty
    new_for_config typed_for_config with_limiter
failed_read_erases_example =
    failed_read_erases machine 0 silent (machine-KeepsClusters true) refl "down" refl
      (differ "v1.7.0" "" refl) refl

-- a provisioned cluster without a Kubeconfig
abbrev bare : World machine
bare = process true running (site running)

-- The provisioner, the health checker and the annotator, one after another.
abbrev after_provisioner : World machine
after_provisioner = (Provisioner.sync machine "east" bare).1

abbrev after_health : World machine
after_health = (handle_cluster_update machine 0 0 after_provisioner).1

abbrev two_runs : Reached machine bare after_health
two_runs = next (next start (provision_key "east" bare)) (check_health 0 0 after_provisioner)

commands_have_reasons_example :
    (added : List Command) × (after_health.commands ≡ bare.commands ++ added)
    × AllCaused machine after_health two_runs added
commands_have_reasons_example =
    commands_have_reasons machine (λ c. refl) (machine-IsConditionLibrary true) two_runs

reached-Earned_example :
    Earned machine
      (λ c. refl)
      (machine-IsConditionLibrary true)
      0
      ""
      after_health
      two_runs
      (after_health.heap.cell 0).status.applied_config
reached-Earned_example =
    reached-Earned machine (λ c. refl) (machine-IsConditionLibrary true) two_runs 0 (omega arith)

-- one whose Kubeconfig is for another path
abbrev misplaced : World machine
misplaced = process true running (site_with (kubeconfig_at "/tmp/kubeconfig") running)

-- once the config generator has made its Kubeconfig
abbrev configured : World machine
configured = (ConfigGenerator.sync machine 0 bare).1

kube_config_path-file_example :
    (kube_config_path "/etc/rke/cluster.yml" ≡ "/etc/rke//kube_config_cluster.yml")
    × (kube_config_path "cluster.yml" ≡ "/kube_config_cluster.yml")
kube_config_path-file_example = kube_config_path-file "/etc/rke" "cluster.yml" refl

register_all-events_example :
    (register_all (new_factory 30)).events
    ≡ (informer_for Kind.cluster (new_factory 30)).1.events ++ registration 0
unfolding informer_for find new_factory
register_all-events_example = register_all-events (new_factory 30)

abbrev crds : List String
crds = "cluster_crd.yml" ∷ "kubeconfig_crd.yml" ∷ []

apply_files-Applied_example :
    (done : List String) × Applied machine crds done
      (apply_files machine crds healthy).0
      healthy
      (apply_files machine crds healthy).1
apply_files-Applied_example = apply_files-Applied machine crds healthy

-- what `run` leaves registered
abbrev registered : Factory
registered = register_all (new_factory 30)

run_serves_iff_example :
    ((run machine "/root/.kube/config" healthy).0 ≡ serving registered)
    ↔ IsStarted machine "/root/.kube/config" healthy registered
run_serves_iff_example = run_serves_iff machine "/root/.kube/config" healthy registered

-- and it does serve there
started : IsStarted machine "/root/.kube/config" healthy registered
unfolding apply_files apply_file register new_for_config typed_for_config with_limiter new_factory
started = record {
  config = _;
  files = crds;
  configured = refl;
  listed = refl;
  all_created = refl;
  registered = refl;
}

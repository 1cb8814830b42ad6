-- ===== src/Tests/Clients.antt =====
-- The generated client code on concrete factories and configurations.
use kubecon.Prelude.{
  ◌≡◌, ◌⊎◌, refl, true, none, some, [], ◌∷◌, String, if◌then◌else◌, arith, ℕ, List, same_address,
}
use kubecon.Platform.Laws.{KeepsClusters, KeepsKubeconfigs}
use kubecon.Platform.Served.Kubeconfigs.{configs_served, KeepsKubeconfigs-configs_served}
use kubecon.Tests.ConfigServer.{
  config_server, config_server-ServesObjects, config_server-CreatesObjects, named_at, config_at,
  configs_part,
}
use kubecon.Platform.Served.{served, KeepsClusters-served}
use kubecon.Client.Informers.{
  cluster, Factory, new_factory, informer_for, find, is_started, start, Kind, with_resource,
  start_all, start_one,
}
use kubecon.Client.Fake.{fake_clusters, fake_resource, update, returned}
use kubecon.Client.Fake.Laws.{KeepsObjects-fake_resource}
use kubecon.Client.Objects.{KeepsObjects}
use kubecon.Api.{Cluster}
use kubecon.DeepCopy.{Memory, cluster_list_into, cluster_into, status_into}
use kubecon.DeepCopy.Pointers.{cluster_copy_object, pointer_copy, object_copy}
use kubecon.DeepCopy.Pointers.Laws.{ClusterMemory, read_pointer, cluster_copy_object-apart}
use mathlib.Core.List.Memᴰ.{head, tail}
use kubecon.Client.Result.{panics}
use kubecon.Client.Fake.Simple.{new_simple_clientset}
use kubecon.Client.Fake.Simple.Laws.{new_simple_clientset-panics}
use kubecon.Client.Informers.Resources.{for_resource}
use kubecon.Client.Informers.Once.{created_and_run_once}
use kubecon.Client.Informers.Requests.{
  Request, inform, resource, start_informers, perform_all, creations, runs,
}
use kubecon.DeepCopy.View.{read_items}
use kubecon.DeepCopy.Laws.{cluster_list_into-apart}
use kubecon.Tests.Server.{
  content_at, server, server-ServesObjects, clusters_part, server-OthersKeep, store,
  store-TracksObjects, memory, one_cluster, cleared, stored_cluster, bare_cluster,
}
use kubecon.Tests.Types.{types, types-IsScheme, testing, testing-ChecksTypes, objects, a_kubeconfig}
use kubecon.Tests.Machine.{machine}

-- a factory that has created the informer of clusters, and not started it
abbrev requested : Factory
requested = record (new_factory 30) { informers = (cluster, 0) ∷ []; next = 1 }

KeepsClusters-served_example :
    KeepsClusters (served machine server clusters_part true) (λ s. content_at s.clusters)
KeepsClusters-served_example =
    KeepsClusters-served machine server clusters_part true server-ServesObjects server-OthersKeep

KeepsObjects-fake_resource_example :
    KeepsObjects
      (fake_resource store fake_clusters)
      (λ c. c.metadata.name)
      (λ c. some c)
      (λ c. c)
      (λ o. o)
    × ((c : Cluster) (o : store.Fake)
        → ((update store fake_clusters c o).0 ≡ returned (some c) none)
          ⊎ ((e : String) × ((update store fake_clusters c o).0 ≡ returned none (some e))))
KeepsObjects-fake_resource_example =
    KeepsObjects-fake_resource store fake_clusters store-TracksObjects

KeepsKubeconfigs-configs_served_example :
    KeepsKubeconfigs
      (configs_served machine config_server configs_part true)
      (λ s. config_at s.kubeconfigs)
KeepsKubeconfigs-configs_served_example =
    KeepsKubeconfigs-configs_served machine config_server configs_part true
      config_server-ServesObjects config_server-CreatesObjects named_at

-- the list's slices cleared once it has been copied
abbrev cleared_list : Memory
cleared_list =
    let m = (cluster_list_into one_cluster memory).1 in
    record m { conditions = cleared 0 m.conditions; clusters = cleared 0 m.clusters }

-- the copy's slices cleared
abbrev cleared_copy : Memory
cleared_copy =
    let m = (cluster_list_into one_cluster memory).1 in
    record m { conditions = cleared 1 m.conditions; clusters = cleared 1 m.clusters }

cluster_list_into-apart_example :
    (read_items cleared_list (cluster_list_into one_cluster memory).0
      ≡ read_items memory one_cluster)
    × (read_items cleared_copy one_cluster ≡ read_items memory one_cluster)
unfolding cluster_list_into
cluster_list_into-apart_example =
    cluster_list_into-apart one_cluster memory cleared_list cleared_copy
      (omega arith, (omega arith, tt)) (λ a le. ground arith) (λ a le. ground arith)
      (λ a lt. ground arith) (λ a lt. ground arith)

-- a pointer to the list's cluster, its values and slices cleared once it has been copied, and those
-- of the copy
abbrev pointed : ClusterMemory
pointed = (record { next = 1; values = λ a. stored_cluster }, memory.conditions)

abbrev copied_pointer : ClusterMemory
copied_pointer = (cluster_copy_object (some 0) pointed).1

abbrev spoilt : ℕ → ClusterMemory
spoilt a = (
  record (copied_pointer.0) {
    values = λ b. if same_address a b then bare_cluster else copied_pointer.0.values b;
  },
  cleared a copied_pointer.1,
)

cluster_copy_object-apart_example :
    (read_pointer (spoilt 0) (some 1) ≡ read_pointer pointed (some 0))
    × (read_pointer (spoilt 1) (some 0) ≡ read_pointer pointed (some 0))
unfolding pointer_copy object_copy cluster_into status_into
cluster_copy_object-apart_example =
    cluster_copy_object-apart (some 0) pointed (spoilt 0) (spoilt 1) (omega arith, omega arith)
      (λ a le. ground arith, λ a le. ground arith) (λ a lt. ground arith, λ a lt. ground arith)

-- requests that the factory gets, the informer of clusters among them in two ways
abbrev requests : List Request
requests =
    inform cluster
    ∷ start_informers
    ∷ resource (with_resource "clusters")
    ∷ resource (with_resource "kubeconfigs")
    ∷ start_informers
    ∷ []

created_and_run_once_example :
    let f = perform_all requests (new_factory 30) in
    (creations cluster f.events ≡ 1)
    × (runs 0 f.events ≡ 1)
    × ((j : Kind) → find j f.informers ≡ some 0 → j ≡ cluster)
unfolding informer_for find is_started start start_all start_one for_resource new_factory
created_and_run_once_example = created_and_run_once 30 requests cluster 0 refl

new_simple_clientset-panics_example :
    (e : String) × (new_simple_clientset types testing objects ≡ panics e)
new_simple_clientset-panics_example =
    new_simple_clientset-panics types testing types-IsScheme testing-ChecksTypes objects
      a_kubeconfig (tail (head refl)) refl

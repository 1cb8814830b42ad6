-- ===== src/Platform/Laws.antt =====
-- What the theorems assume of the platform, each law the documented behaviour of one library.
use kubecon.Prelude.{String, ◌≡◌, true, false, Option, none, some, List, [], ◌==◌, if◌then◌else◌}
use kubecon.Client.Objects.{KeepsObjects}
use kubecon.Api.{ObjectMeta, Cluster, Kubeconfig, Cond}
use kubecon.Platform.{Platform, ok, err}

-- `Do` leaves its condition true exactly where its function returned no error, and touches only
-- conditions.
pub record IsConditionLibrary (E : Platform) : Type 0 where
  pub true_after :
      (c : Cond) (x : Cluster) → E.is_true c (E.finished c x (E.starting c x) none) ≡ true
  pub false_after :
      (c : Cond) (x : Cluster) (e : E.Error)
      → E.is_true c (E.finished c x (E.starting c x) (some e)) ≡ false
  pub reads_conditions :
      (c : Cond) (x y : Cluster)
      → x.status.conditions ≡ y.status.conditions
      → E.is_true c x ≡ E.is_true c y
  pub starting_metadata : (c : Cond) (x : Cluster) → (E.starting c x).metadata ≡ x.metadata
  pub starting_spec : (c : Cond) (x : Cluster) → (E.starting c x).spec ≡ x.spec
  pub starting_applied :
      (c : Cond) (x : Cluster) → (E.starting c x).status.applied_config ≡ x.status.applied_config
  pub finished_metadata :
      (c : Cond) (x y : Cluster) (e : Option E.Error) → (E.finished c x y e).metadata ≡ y.metadata
  pub finished_spec :
      (c : Cond) (x y : Cluster) (e : Option E.Error) → (E.finished c x y e).spec ≡ y.spec
  pub finished_applied :
      (c : Cond) (x y : Cluster) (e : Option E.Error)
      → (E.finished c x y e).status.applied_config ≡ y.status.applied_config

-- An object but for its version, which the API server sets itself at each write.
abbrev unversioned : ObjectMeta → ObjectMeta
unversioned m = record m { resource_version = "" }

abbrev pub cluster_content : Cluster → Cluster
cluster_content c = record c { metadata = unversioned c.metadata }

abbrev pub kubeconfig_content : Kubeconfig → Kubeconfig
kubeconfig_content k = record k { metadata = unversioned k.metadata }

-- What the API server stores for an object that is sent to it, but for its version: an object that
-- is being deleted goes away with its last finalizer.
abbrev pub stored : Cluster → Option Cluster
stored c = elim c.metadata.deletion_timestamp [
  | none ↦ some (cluster_content c)
  | some _ ↦ elim c.metadata.finalizers [ [] ↦ none | _ ↦ some (cluster_content c) ]
]

-- A command on the machine, a call for a Kubeconfig or a call of another server changes none of the
-- clusters that the API server keeps.
pub record OthersKeep (E : Platform) (view : E.Outside → String → Option Cluster) : Type 0 where
  pub exec_keeps :
      (name : String) (args : List String) (o : E.Outside) (n : String)
      → view (E.exec name args o).1 n ≡ view o n
  pub get_kubeconfig_keeps :
      (name : String) (o : E.Outside) (n : String) → view (E.kubeconfigs.get name o).1 n ≡ view o n
  pub server_version_keeps :
      (r : E.rest.Discovery) (o : E.Outside) (n : String)
      → view (E.server_version r o).1 n ≡ view o n

-- The clusters that the API server keeps, by name and but for their versions.
pub record KeepsClusters (E : Platform) (view : E.Outside → String → Option Cluster) : Type 0 where
  pub objects : KeepsObjects E.clusters (λ c. c.metadata.name) stored cluster_content view
  pub others : OthersKeep E view

-- Reading a file gives the same whatever the program asks of the API server and of `rke`.
pub record HasStableFiles (E : Platform) : Type 0 where
  pub after_update :
      (c : Cluster) (o : E.Outside) (path : String)
      → E.read_file path (E.clusters.update c o).1 ≡ E.read_file path o
  pub after_exec :
      (name : String) (args : List String) (o : E.Outside) (path : String)
      → E.read_file path (E.exec name args o).1 ≡ E.read_file path o

-- The Kubeconfigs that the API server keeps, by name and but for their versions: an accepted create stores what was sent, and
-- what is found under a name bears it.
pub record KeepsKubeconfigs (E : Platform) (view : E.Outside → String → Option Kubeconfig)
    : Type 0 where
  pub objects :
      KeepsObjects E.kubeconfigs
        (λ k. k.metadata.name)
        (λ k. some (kubeconfig_content k))
        kubeconfig_content
        view
  pub found_name :
      (name : String) (o : E.Outside) (k : Kubeconfig)
      → (E.kubeconfigs.get name o).0 ≡ ok k
      → k.metadata.name ≡ name
  pub create_accepted :
      (k : Kubeconfig) (o : E.Outside)
      → (E.kubeconfigs.create k o).0 ≡ none
      → (n : String)
      → view (E.kubeconfigs.create k o).1 n
        ≡ (if k.metadata.name == n then some (kubeconfig_content k) else view o n)

-- The API server is there to answer: `Get` finds a Kubeconfig that is held, and fails only by NotFound.
pub record AnswersGets (E : Platform) (view : E.Outside → String → Option Kubeconfig) : Type 0 where
  pub finds :
      (n : String) (o : E.Outside) (k : Kubeconfig)
      → view o n ≡ some k
      → (x : Kubeconfig) × ((E.kubeconfigs.get n o).0 ≡ ok x)
  pub only_misses :
      (n : String) (o : E.Outside) (e : E.Error)
      → (E.kubeconfigs.get n o).0 ≡ err e
      → E.is_not_found e ≡ true

-- The API server finds a cluster that it holds, and holds each under the name that it bears.
pub record FindsClusters (E : Platform) (view : E.Outside → String → Option Cluster) : Type 0 where
  pub named : (o : E.Outside) (n : String) (c : Cluster) → view o n ≡ some c → c.metadata.name ≡ n
  pub finds :
      (o : E.Outside) (n : String) (c : Cluster)
      → view o n ≡ some c
      → (x : Cluster) × ((E.clusters.get n o).0 ≡ ok x)

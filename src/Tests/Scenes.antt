-- ===== src/Tests/Scenes.antt =====
-- Clusters, servers and states of the process on which the theorems are tried.
use kubecon.Prelude.{String, Bool, true, false, none, some, [], ◌∷◌, ◌==◌, if◌then◌else◌}
use kubecon.Api.{Cluster, ready, provisioned, no_metadata, Kubeconfig}
use kubecon.World.{World, present, missing}
use kubecon.Tests.Machine.{machine_of, Site, set_condition}

abbrev pub cluster_file : String
cluster_file = "/etc/rke/cluster.yml"

-- a cluster that nothing was done for yet
abbrev pub fresh : Cluster
fresh = record {
  type_meta = record { kind = "Cluster"; api_version = "v1alpha1" };
  metadata = record no_metadata { name = "east"; uid = "7" };
  spec = record { config_path = cluster_file };
  status = record { applied_config = ""; conditions = [] };
}

-- one that is being deleted, and that the provisioner has still to clean up
abbrev pub doomed : Cluster
doomed = record fresh {
  metadata = record (fresh.metadata) {
    deletion_timestamp = some "2018-12-10T12:00:00Z";
    finalizers = "provisioner" ∷ "backup" ∷ [];
  };
}

-- one that is provisioned
abbrev pub running : Cluster
running = set_condition provisioned "True" fresh

-- one that is provisioned, ready, and annotated with a version
abbrev pub annotated : String → Cluster
annotated version =
    let c = set_condition ready "True" running in
    record c {
      metadata = record (c.metadata) {
        annotations = some (("clusterprovisioner.rke.io/kubernetes-version", version) ∷ []);
      };
    }

abbrev pub kubeconfig_at : String → Kubeconfig
kubeconfig_at path = record {
  type_meta = record { kind = "Kubeconfig"; api_version = "v1alpha1" };
  metadata = record no_metadata { name = "east" };
  spec = record { config_path = path };
}

-- A server that holds one cluster, and the cluster file.
abbrev pub site : Cluster → Site
site c = record {
  clusters = λ n. if n == "east" then some c else none;
  kubeconfigs = λ n. none;
  files = λ n. if n == cluster_file then some "nodes: 3" else none;
  rke_works = true;
  answers = true;
}

-- One that holds a Kubeconfig as well.
abbrev pub site_with : Kubeconfig → Cluster → Site
site_with k c = record (site c) { kubeconfigs = λ n. if n == "east" then some k else none }

-- A process whose informer has the cluster in its store, with its key in the queue.
abbrev pub process : (accepts : Bool) → Cluster → Site → World (machine_of accepts)
process accepts c s = record {
  heap = record { next = 1; cell = λ q. c };
  indexer = λ n. if n == "east" then present 0 else missing;
  queue = record { waiting_items = "east" ∷ []; taken_items = []; closing = false };
  commands = [];
  stdout = [];
  outside = s;
}

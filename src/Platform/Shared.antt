-- ===== src/Platform/Shared.antt =====
-- The API server among other clients, which may write there after each call of the program, before its
-- next one.
use kubecon.Prelude.{String, ◌≡◌, ◌⊎◌, Option, some, List, ◌∷◌, ◌∙◌}
use kubecon.Api.{Cluster, Kubeconfig}
use kubecon.Platform.{Platform, ok}
use kubecon.Platform.Versions.{with_version, LogsVersions}

-- The second log has what the first has, under each name and version.
abbrev pub LogKept : {O : Type 0} → (O → String → String → Option Cluster) → O → O → Type 0
LogKept logged o o' = (n v : String) (x : Cluster) → logged o n v ≡ some x → logged o' n v ≡ some x

-- The server forgets no version of a cluster, whatever is called.
pub record GrowsLog (E : Platform) (logged : E.Outside → String → String → Option Cluster)
    : Type 0 where
  pub update_grows : (c : Cluster) (o : E.Outside) → LogKept logged o (E.clusters.update c o).1
  pub get_grows : (n : String) (o : E.Outside) → LogKept logged o (E.clusters.get n o).1
  pub exec_grows :
      (name : String) (args : List String) (o : E.Outside) → LogKept logged o (E.exec name args o).1
  pub get_kubeconfig_grows :
      (n : String) (o : E.Outside) → LogKept logged o (E.kubeconfigs.get n o).1
  pub create_kubeconfig_grows :
      (k : Kubeconfig) (o : E.Outside) → LogKept logged o (E.kubeconfigs.create k o).1
  pub update_kubeconfig_grows :
      (k : Kubeconfig) (o : E.Outside) → LogKept logged o (E.kubeconfigs.update k o).1
  pub server_version_grows :
      (r : E.rest.Discovery) (o : E.Outside) → LogKept logged o (E.server_version r o).1

pub GrowsLog-LogsVersions :
    (E : Platform) {held : E.Outside → String → Option Cluster}
    {logged : E.Outside → String → String → Option Cluster}
    → LogsVersions E held logged
    → GrowsLog E logged
GrowsLog-LogsVersions E V = record {
  update_grows = λ c o n v x h. V.update_logs c o n v x h;
  get_grows = λ m o n v x h. (V.get_keeps m o n v).1 ∙ h;
  exec_grows = λ name args o n v x h. (V.others_log v).exec_keeps name args o n ∙ h;
  get_kubeconfig_grows = λ m o n v x h. (V.others_log v).get_kubeconfig_keeps m o n ∙ h;
  create_kubeconfig_grows = λ k o n v x h. (V.create_kubeconfig_keeps k o n v).1 ∙ h;
  update_kubeconfig_grows = λ k o n v x h. (V.update_kubeconfig_keeps k o n v).1 ∙ h;
  server_version_grows = λ r o n v x h. (V.others_log v).server_version_keeps r o n ∙ h;
}

-- A cluster that the program's update has replaced, and what it has left in its place.
pub record Replacement : Type 0 where
  pub before : Cluster
  pub after : Cluster

-- One update of the program: what it replaced had the name and the version of what was sent, and what
-- it left is what was sent, in another version.
pub record ReplacesBy (E : Platform) (logged : E.Outside → String → String → Option Cluster)
    (c : Cluster) (o : E.Outside) (r : Replacement) : Type 0 where
  pub version : String
  pub was_held : logged o c.metadata.name c.metadata.resource_version ≡ some r.before
  pub after_lem : r.after ≡ with_version version c

-- `logged o n v` is what the server has held under the name in that version, by whomever it was written;
-- `writes` lists what the program's own updates have replaced. An update is refused or replaces what
-- bears its version; the other calls replace nothing.
pub record SharesServer (E : Platform) (logged : E.Outside → String → String → Option Cluster)
    (writes : E.Outside → List Replacement) : Type 0 where
  pub grows : GrowsLog E logged
  pub get_found :
      (n : String) (o : E.Outside) (x : Cluster)
      → (E.clusters.get n o).0 ≡ ok x
      → logged o x.metadata.name x.metadata.resource_version ≡ some x
  pub update_writes :
      (c : Cluster) (o : E.Outside)
      → (writes (E.clusters.update c o).1 ≡ writes o)
        ⊎ ((r : Replacement) × (writes (E.clusters.update c o).1 ≡ r ∷ writes o)
            × ReplacesBy E logged c o r)
  pub get_writes : (n : String) (o : E.Outside) → writes (E.clusters.get n o).1 ≡ writes o
  pub exec_writes :
      (name : String) (args : List String) (o : E.Outside)
      → writes (E.exec name args o).1 ≡ writes o
  pub get_kubeconfig_writes :
      (n : String) (o : E.Outside) → writes (E.kubeconfigs.get n o).1 ≡ writes o
  pub create_kubeconfig_writes :
      (k : Kubeconfig) (o : E.Outside) → writes (E.kubeconfigs.create k o).1 ≡ writes o
  pub update_kubeconfig_writes :
      (k : Kubeconfig) (o : E.Outside) → writes (E.kubeconfigs.update k o).1 ≡ writes o
  pub server_version_writes :
      (r : E.rest.Discovery) (o : E.Outside) → writes (E.server_version r o).1 ≡ writes o

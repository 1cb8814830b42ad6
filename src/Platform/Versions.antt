-- ===== src/Platform/Versions.antt =====
-- The versions of the objects at the API server, by which it tells an update that was prepared from
-- an older object.
use kubecon.Prelude.{String, ◌≡◌, ◌≢◌, ◌⊎◌, Option, none, some}
use kubecon.Api.{Cluster, Kubeconfig}
use kubecon.Platform.{Platform, ok}
use kubecon.Platform.Laws.{OthersKeep}

abbrev pub with_version : String → Cluster → Cluster
with_version v c = record c { metadata = record (c.metadata) { resource_version = v } }

-- The clusters that the API server holds, by name, their versions included. An update whose version
-- is not that of the object held is refused, and a refused one changes nothing.
pub record RefusesStale (E : Platform) (held : E.Outside → String → Option Cluster) : Type 0 where
  pub stale_refused :
      (c x : Cluster) (o : E.Outside)
      → held o c.metadata.name ≡ some x
      → x.metadata.resource_version ≢ c.metadata.resource_version
      → (E.clusters.update c o).0 ≢ none
  pub refused_keeps :
      (c : Cluster) (o : E.Outside) (e : E.Error)
      → (E.clusters.update c o).0 ≡ some e
      → (n : String) → held (E.clusters.update c o).1 n ≡ held o n

-- Besides, an accepted update that changes an object that is not being deleted leaves what was sent,
-- under a new version; and nothing but the program's updates changes what is held.
pub record VersionsClusters (E : Platform) (held : E.Outside → String → Option Cluster)
    : Type 0 where
  pub refuses : RefusesStale E held
  pub accepted_bumps :
      (c x : Cluster) (o : E.Outside)
      → held o c.metadata.name ≡ some x
      → c ≢ x
      → c.metadata.deletion_timestamp ≡ none
      → (E.clusters.update c o).0 ≡ none
      → (v : String) × (v ≢ c.metadata.resource_version)
        × (held (E.clusters.update c o).1 c.metadata.name ≡ some (with_version v c))
  pub others : OthersKeep E held

-- An update has replaced a cluster by what was sent, which bore the cluster's version.
pub record Replaced (E : Platform) (held : E.Outside → String → Option Cluster) (c : Cluster)
    (o : E.Outside) (n : String) (new : Cluster) : Type 0 where
  pub before : Cluster
  pub version : String
  pub was_held : held o n ≡ some before
  pub named : c.metadata.name ≡ n
  pub same_version : before.metadata.resource_version ≡ c.metadata.resource_version
  pub new_lem : new ≡ with_version version c

-- `logged o n v` is what the server has held under the name in that version, now or earlier. An update
-- can replace a cluster only by what was sent, under another version, and only where what was sent
-- bears the cluster's version; no other call of the program changes a cluster.
pub record LogsVersions (E : Platform) (held : E.Outside → String → Option Cluster)
    (logged : E.Outside → String → String → Option Cluster) : Type 0 where
  pub held_logged :
      (o : E.Outside) (n : String) (x : Cluster)
      → held o n ≡ some x
      → (x.metadata.name ≡ n) × (logged o n x.metadata.resource_version ≡ some x)
  pub update_replaces :
      (c : Cluster) (o : E.Outside) (n : String) (new : Cluster)
      → held (E.clusters.update c o).1 n ≡ some new
      → (held o n ≡ some new) ⊎ Replaced E held c o n new
  pub update_logs :
      (c : Cluster) (o : E.Outside) (n v : String) (x : Cluster)
      → logged o n v ≡ some x
      → logged (E.clusters.update c o).1 n v ≡ some x
  pub get_found :
      (n : String) (o : E.Outside) (x : Cluster) → (E.clusters.get n o).0 ≡ ok x → held o n ≡ some x
  pub get_keeps :
      (m : String) (o : E.Outside) (n v : String)
      → (held (E.clusters.get m o).1 n ≡ held o n)
        × (logged (E.clusters.get m o).1 n v ≡ logged o n v)
  pub others : OthersKeep E held
  pub others_log : (v : String) → OthersKeep E (λ o n. logged o n v)
  pub create_kubeconfig_keeps :
      (k : Kubeconfig) (o : E.Outside) (n v : String)
      → (held (E.kubeconfigs.create k o).1 n ≡ held o n)
        × (logged (E.kubeconfigs.create k o).1 n v ≡ logged o n v)
  pub update_kubeconfig_keeps :
      (k : Kubeconfig) (o : E.Outside) (n v : String)
      → (held (E.kubeconfigs.update k o).1 n ≡ held o n)
        × (logged (E.kubeconfigs.update k o).1 n v ≡ logged o n v)

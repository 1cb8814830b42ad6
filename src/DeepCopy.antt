-- ===== src/DeepCopy.antt =====
-- pkg/apis/clusterprovisioner/v1alpha1/zz_generated.deepcopy.go: copies of the API objects, on a
-- memory of slices, since assignment copies a struct and shares its slices. The copy of an
-- ObjectMeta, which the API machinery makes, is its value.
pub mod View
pub mod Laws
pub mod Pointers
use kubecon.Prelude.{ℕ, suc, String, Option, none, some, List, [], ◌∷◌, same_address, if◌then◌else◌}
use kubecon.Prelude.Exec.{Exec}
use kubecon.Api.{TypeMeta, ObjectMeta, KubeconfigSpec, ClusterSpec, ClusterCondition, Kubeconfig}
use kubecon.World.{Address}

-- The slices of one element type; `next` is the address of the next one that `make` allocates.
pub record Slices (A : Type 0) : Type 0 where
  pub next : ℕ
  pub contents : Address → List A

-- `make` of a slice and the assignment of its elements
abbrev make_slice : {A : Type 0} → List A → Exec (Slices A) Address
make_slice l s = (
  s.next,
  record { next = suc s.next; contents = λ a. if same_address s.next a then l else s.contents a },
)

-- ClusterStatus and Cluster as they stand in memory, the slice of conditions nil or by its address
pub record StatusValue : Type 0 where
  pub applied_config : String
  pub conditions : Option Address

pub record ClusterValue : Type 0 where
  pub type_meta : TypeMeta
  pub metadata : ObjectMeta
  pub spec : ClusterSpec
  pub status : StatusValue

-- ClusterList and KubeconfigList, with the resource version of their ListMeta
pub record ListValue : Type 0 where
  pub type_meta : TypeMeta
  pub resource_version : String
  pub items : Option Address

pub record Memory : Type 0 where
  pub conditions : Slices ClusterCondition
  pub clusters : Slices ClusterValue
  pub kubeconfigs : Slices Kubeconfig

-- DeepCopyInto of a ClusterStatus
unfoldable pub status_into : StatusValue → Exec (Slices ClusterCondition) StatusValue
status_into v s = elim v.conditions [
  | none ↦ (v, s)
  | some a ↦ let (b, s') = make_slice (s.contents a) s in (record v { conditions = some b }, s')
]

-- DeepCopyInto of a Cluster
unfoldable pub cluster_into : ClusterValue → Exec (Slices ClusterCondition) ClusterValue
unfolding status_into
cluster_into v s = let (status, s') = status_into v.status s in (record v { status = status }, s')

-- the loop of DeepCopyInto of a ClusterList over the items
pub items_into : List ClusterValue → Exec (Slices ClusterCondition) (List ClusterValue)
items_into [] s = ([], s)
items_into (v ∷ l) s =
    let (v', s1) = cluster_into v s in let (l', s2) = items_into l s1 in (v' ∷ l', s2)

-- DeepCopyInto of a ClusterList
unfoldable pub cluster_list_into : ListValue → Exec Memory ListValue
cluster_list_into v m = elim v.items [
  | none ↦ (v, m)
  | some a ↦
      let (l, conditions) = items_into (m.clusters.contents a) m.conditions in
      let (b, clusters) = make_slice l m.clusters in
      (record v { items = some b }, record m { conditions = conditions; clusters = clusters })
]

-- DeepCopyInto of a Kubeconfig, which has no slice of its own
unfoldable pub kubeconfig_into : Kubeconfig → Kubeconfig
kubeconfig_into v = record {
  type_meta = v.type_meta;
  metadata = v.metadata;
  spec = record { config_path = v.spec.config_path };
}

unfoldable pub kubeconfigs_into : List Kubeconfig → List Kubeconfig
kubeconfigs_into [] = []
kubeconfigs_into (v ∷ l) = kubeconfig_into v ∷ kubeconfigs_into l

-- DeepCopyInto of a KubeconfigList
unfoldable pub kubeconfig_list_into : ListValue → Exec Memory ListValue
kubeconfig_list_into v m = elim v.items [
  | none ↦ (v, m)
  | some a ↦
      let (b, kubeconfigs) =
        make_slice (kubeconfigs_into (m.kubeconfigs.contents a)) m.kubeconfigs in
      (record v { items = some b }, record m { kubeconfigs = kubeconfigs })
]

-- ===== src/DeepCopy/View.antt =====
-- What a reader of an object finds in a memory of slices, and which slices an object needs.
use kubecon.Prelude.{String, ◌≡◌, ◌≤◌, ◌<◌, Option, none, some, List, [], ◌∷◌}
use kubecon.Api.{TypeMeta, ObjectMeta, ClusterSpec, ClusterCondition}
use kubecon.World.{Address}
use kubecon.DeepCopy.{Slices, ClusterValue, ListValue, Memory}

-- What a reader of an object finds, its slices read out.
pub record ClusterView : Type 0 where
  pub type_meta : TypeMeta
  pub metadata : ObjectMeta
  pub spec : ClusterSpec
  pub applied_config : String
  pub conditions : Option (List ClusterCondition)

abbrev pub contents_at : {A : Type 0} → Slices A → Option Address → Option (List A)
contents_at s none = none
contents_at s (some a) = some (s.contents a)

abbrev pub read_cluster : Slices ClusterCondition → ClusterValue → ClusterView
read_cluster s v = record {
  type_meta = v.type_meta;
  metadata = v.metadata;
  spec = v.spec;
  applied_config = v.status.applied_config;
  conditions = contents_at s v.status.conditions;
}

abbrev pub read_clusters : Slices ClusterCondition → List ClusterValue → List ClusterView
read_clusters s [] = []
read_clusters s (v ∷ l) = read_cluster s v ∷ read_clusters s l

abbrev pub read_items : Memory → ListValue → Option (List ClusterView)
read_items m v = elim v.items [
  | none ↦ none
  | some a ↦ some (read_clusters m.conditions (m.clusters.contents a))
]

-- A slice variable leads to memory that is allocated.
abbrev pub Allocated : {A : Type 0} → Slices A → Option Address → Type 0
Allocated s none = Unit
Allocated s (some a) = a < s.next

abbrev pub AllAllocated : Slices ClusterCondition → List ClusterValue → Type 0
AllAllocated s [] = Unit
AllAllocated s (v ∷ l) = Allocated s v.status.conditions × AllAllocated s l

-- Two memories agree on the slices that `old` has not allocated.
abbrev pub AgreeAbove : {A : Type 0} → (old s t : Slices A) → Type 0
AgreeAbove old s t = (a : Address) → old.next ≤ a → s.contents a ≡ t.contents a

-- They agree on those that it has.
abbrev pub AgreeBelow : {A : Type 0} → (old s t : Slices A) → Type 0
AgreeBelow old s t = (a : Address) → a < old.next → s.contents a ≡ t.contents a

-- The slices of a list of clusters, its items' own included, are allocated.
abbrev pub ListAllocated : Memory → ListValue → Type 0
ListAllocated m v = elim v.items [
  | none ↦ Unit
  | some a ↦ (a < m.clusters.next) × AllAllocated m.conditions (m.clusters.contents a)
]

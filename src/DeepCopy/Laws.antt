-- ===== src/DeepCopy/Laws.antt =====
-- Theorems on zz_generated.deepcopy.go: what a reader of an object or its copy finds.
use mathlib.Core.Path.{ap₂}
use kubecon.World.Laws.{same_address_self}
use kubecon.Prelude.{String, ◌≡◌, ◌≤◌, ◌<◌, refl, ap, ◌∙◌, Option, none, some, List, [], ◌∷◌, arith}
use kubecon.Api.{ClusterCondition}
use kubecon.World.{Address}
use kubecon.DeepCopy.{
  Slices, StatusValue, ClusterValue, ListValue, Memory, status_into, cluster_into, items_into,
  cluster_list_into,
}
use kubecon.DeepCopy.View.{
  ClusterView, contents_at, read_cluster, read_clusters, read_items, Allocated, AllAllocated,
  AgreeAbove, AgreeBelow, ListAllocated,
}

cluster_into_grows :
    (v : ClusterValue) (s : Slices ClusterCondition) → s.next ≤ (cluster_into v s).1.next
unfolding cluster_into status_into
cluster_into_grows v s = ground arith

pub cluster_into_keeps :
    (v : ClusterValue) (s : Slices ClusterCondition) → AgreeBelow s (cluster_into v s).1 s
unfolding cluster_into status_into
cluster_into_keeps v s a h = ground arith

items_into_grows :
    (l : List ClusterValue) (s : Slices ClusterCondition) → s.next ≤ (items_into l s).1.next
unfolding items_into
items_into_grows [] s = omega arith
items_into_grows (v ∷ l) s =
    ground (arith, cluster_into_grows v s, items_into_grows l (cluster_into v s).1)

items_into_keeps :
    (l : List ClusterValue) (s : Slices ClusterCondition) → AgreeBelow s (items_into l s).1 s
unfolding items_into
items_into_keeps [] s a h = refl
items_into_keeps (v ∷ l) s a h =
    items_into_keeps l (cluster_into v s).1 a (let g = cluster_into_grows v s in omega arith)
    ∙ cluster_into_keeps v s a h

pub contents_below :
    {A : Type 0} (old s t : Slices A) (o : Option Address)
    → Allocated old o
    → AgreeBelow old s t
    → contents_at s o ≡ contents_at t o
contents_below old s t none h agree = refl
contents_below old s t (some a) h agree = ap some (agree a h)

-- Reading objects needs only the memory where their slices are.
read_clusters_below :
    (old s t : Slices ClusterCondition) (l : List ClusterValue)
    → AllAllocated old l
    → AgreeBelow old s t
    → read_clusters s l ≡ read_clusters t l
read_clusters_below old s t [] h agree = refl
read_clusters_below old s t (v ∷ l) (h, hs) agree =
    rw (contents_below old s t v.status.conditions h agree)
      (ap (λ k. read_cluster t v ∷ k) (read_clusters_below old s t l hs agree))

status_into_read :
    (applied : String) (o : Option Address) (s t : Slices ClusterCondition)
    → let v : StatusValue = record { applied_config = applied; conditions = o } in
      ((a : Address)
        → s.next ≤ a
        → a < (status_into v s).1.next
        → t.contents a ≡ (status_into v s).1.contents a)
      → contents_at t (status_into v s).0.conditions ≡ contents_at s o
unfolding status_into
status_into_read applied none s t agree = refl
status_into_read applied (some a) s t agree =
    ap some (agree s.next (omega arith) (omega arith) ∙ rw (same_address_self s.next) refl)

status_into_applied :
    (v : StatusValue) (s : Slices ClusterCondition)
    → (status_into v s).0.applied_config ≡ v.applied_config
unfolding status_into
status_into_applied v s = ground arith

pub cluster_into_read :
    (v : ClusterValue) (s t : Slices ClusterCondition)
    → ((a : Address)
        → s.next ≤ a
        → a < (cluster_into v s).1.next
        → t.contents a ≡ (cluster_into v s).1.contents a)
    → read_cluster t (cluster_into v s).0 ≡ read_cluster s v
unfolding cluster_into
cluster_into_read v s t agree =
    rw (status_into_applied v.status s)
      (rw (status_into_read v.status.applied_config v.status.conditions s t agree) refl)

AllAllocated-grows :
    (l : List ClusterValue) (s t : Slices ClusterCondition)
    → s.next ≤ t.next
    → AllAllocated s l
    → AllAllocated t l
AllAllocated-grows [] s t le h = tt
AllAllocated-grows (v ∷ l) s t le (h, hs) =
    (one v.status.conditions h, AllAllocated-grows l s t le hs)
  where
    one : (o : Option Address) → Allocated s o → Allocated t o
    one none h = tt
    one (some a) h = omega arith

items_into_read :
    (l : List ClusterValue) (s t : Slices ClusterCondition)
    → AllAllocated s l
    → AgreeAbove s t (items_into l s).1
    → read_clusters t (items_into l s).0 ≡ read_clusters s l
unfolding items_into
items_into_read [] s t h agree = refl
items_into_read (v ∷ l) s t (h, hs) agree =
    let s1 = (cluster_into v s).1 in
    let grows = cluster_into_grows v s in
    let head = cluster_into_read v s t (λ a ge lt. agree a ge ∙ items_into_keeps l s1 a lt) in
    let rest =
      items_into_read l s1 t (AllAllocated-grows l s s1 grows hs) (λ a ge. agree a (omega arith))
      ∙ read_clusters_below s s1 s l hs (cluster_into_keeps v s) in
    ap₂ (λ (x : ClusterView) (k : List ClusterView). x ∷ k) head rest

module _ (m after : Memory) where
  abbrev with_items : ListValue → Option Address → ListValue
  with_items v o = record v { items = o }

  copy_reads :
      (v : ListValue) (o : Option Address)
      → ListAllocated m (with_items v o)
      → AgreeAbove m.conditions after.conditions (cluster_list_into (with_items v o) m).1.conditions
      → AgreeAbove m.clusters after.clusters (cluster_list_into (with_items v o) m).1.clusters
      → read_items after (cluster_list_into (with_items v o) m).0 ≡ read_items m (with_items v o)
  unfolding cluster_list_into
  copy_reads v none allocated conditions clusters = refl
  copy_reads v (some a) (lt, allocated) conditions clusters =
      let items : after.clusters.contents m.clusters.next
          ≡ (items_into (m.clusters.contents a) m.conditions).0 =
        clusters m.clusters.next (omega arith) ∙ rw (same_address_self m.clusters.next) refl in
      ap (λ l. some (read_clusters after.conditions l)) items
      ∙ ap some (
          items_into_read (m.clusters.contents a) m.conditions after.conditions allocated
            conditions)

  list_kept :
      (v : ListValue) (o : Option Address)
      → ListAllocated m (with_items v o)
      → AgreeBelow m.conditions after.conditions (cluster_list_into (with_items v o) m).1.conditions
      → AgreeBelow m.clusters after.clusters (cluster_list_into (with_items v o) m).1.clusters
      → read_items after (with_items v o) ≡ read_items m (with_items v o)
  unfolding cluster_list_into
  list_kept v none allocated conditions clusters = refl
  list_kept v (some a) (lt, allocated) conditions clusters =
      let l = m.clusters.contents a in
      let items : after.clusters.contents a ≡ l = clusters a lt ∙ ground arith in
      ap (λ k. some (read_clusters after.conditions k)) items
      ∙ ap some (
          read_clusters_below m.conditions after.conditions m.conditions l allocated
            (λ b h. conditions b h ∙ items_into_keeps l m.conditions b h))

-- The copy of a list reads as the list did, whatever is written afterwards to the slices that
-- existed before, and the list itself reads as it did, whatever is written afterwards to the
-- slices of the copy.
pub cluster_list_into-apart :
    (v : ListValue) (m old_written copy_written : Memory)
    → ListAllocated m v
    → let copied = (cluster_list_into v m).1 in
      AgreeAbove m.conditions old_written.conditions copied.conditions
      → AgreeAbove m.clusters old_written.clusters copied.clusters
      → AgreeBelow m.conditions copy_written.conditions copied.conditions
      → AgreeBelow m.clusters copy_written.clusters copied.clusters
      → (read_items old_written (cluster_list_into v m).0 ≡ read_items m v)
        × (read_items copy_written v ≡ read_items m v)
cluster_list_into-apart v m old_written copy_written allocated c1 l1 c2 l2 = (
  copy_reads m old_written v v.items allocated c1 l1,
  list_kept m copy_written v v.items allocated c2 l2,
)

-- ===== src/DeepCopy/Pointers/Laws.antt =====
-- Theorems on DeepCopyObject of zz_generated.deepcopy.go.
use mathlib.Core.Option
use kubecon.World.Laws.{same_address_self}
use kubecon.Prelude.{◌≡◌, ◌≤◌, ◌<◌, refl, ap, ◌∙◌, Option, none, some, arith}
use kubecon.Api.{ClusterCondition}
use kubecon.World.{Address}
use kubecon.DeepCopy.{Slices, ClusterValue, cluster_into}
use kubecon.DeepCopy.View.{ClusterView, read_cluster, Allocated, AgreeAbove, AgreeBelow}
use kubecon.DeepCopy.Laws.{cluster_into_read, cluster_into_keeps, contents_below}
use kubecon.DeepCopy.Pointers.{
  Cells, pointer_copy, Object, cluster_object, cluster_list_object, kubeconfig_object,
  kubeconfig_list_object, object_copy, cluster_copy_object,
}

abbrev pub ClusterMemory : Type 0
ClusterMemory = Cells ClusterValue × Slices ClusterCondition

abbrev pub address_of : Object → Address
address_of (cluster_object a) = a
address_of (cluster_list_object a) = a
address_of (kubeconfig_object a) = a
address_of (kubeconfig_list_object a) = a

-- What a reader of a cluster finds through a pointer.
abbrev pub read_pointer : ClusterMemory → Option Address → Option ClusterView
read_pointer m none = none
read_pointer m (some a) = some (read_cluster m.1 (m.0.values a))

-- The cluster and its slice are allocated.
abbrev pub PointerAllocated : ClusterMemory → Option Address → Type 0
PointerAllocated m none = Unit
PointerAllocated m (some a) = (a < m.0.next) × Allocated m.1 (m.0.values a).status.conditions

-- Two memories agree on what `old` has not allocated, and on what it has.
abbrev pub SameAbove : (old s t : ClusterMemory) → Type 0
SameAbove old s t =
    ((a : Address) → old.0.next ≤ a → s.0.values a ≡ t.0.values a) × AgreeAbove old.1 s.1 t.1

abbrev pub SameBelow : (old s t : ClusterMemory) → Type 0
SameBelow old s t =
    ((a : Address) → a < old.0.next → s.0.values a ≡ t.0.values a) × AgreeBelow old.1 s.1 t.1

copy_reads :
    (p : Option Address) (m after : ClusterMemory)
    → PointerAllocated m p
    → SameAbove m after (cluster_copy_object p m).1
    → read_pointer after (Option.map address_of (cluster_copy_object p m).0) ≡ read_pointer m p
unfolding pointer_copy object_copy
copy_reads none m after allocated same = refl
copy_reads (some a) m after (lt, allocated) same =
    let written : after.0.values m.0.next ≡ (cluster_into (m.0.values a) m.1).0 =
      same.0 m.0.next (omega arith) ∙ rw (same_address_self m.0.next) refl in
    ap (λ v. some (read_cluster after.1 v)) written
    ∙ ap some (cluster_into_read (m.0.values a) m.1 after.1 (λ b ge h. same.1 b ge))

pointer_kept :
    (p : Option Address) (m after : ClusterMemory)
    → PointerAllocated m p
    → SameBelow m after (cluster_copy_object p m).1
    → read_pointer after p ≡ read_pointer m p
unfolding pointer_copy object_copy
pointer_kept none m after allocated same = refl
pointer_kept (some a) m after (lt, allocated) same =
    let kept : after.0.values a ≡ m.0.values a = same.0 a lt ∙ ground arith in
    ap (λ v. some (read_cluster after.1 v)) kept
    ∙ rw
        (contents_below m.1 after.1 m.1 (m.0.values a).status.conditions allocated
          (λ b h. same.1 b h ∙ cluster_into_keeps (m.0.values a) m.1 b h))
        refl

-- DeepCopyObject of a pointer to a cluster, which is nil for nil, reads as the pointer did whatever
-- is written afterwards to the memory that existed before; the pointer itself reads as it did
-- whatever is written afterwards to the memory of the copy.
pub cluster_copy_object-apart :
    (p : Option Address) (m old_written copy_written : ClusterMemory)
    → PointerAllocated m p
    → SameAbove m old_written (cluster_copy_object p m).1
    → SameBelow m copy_written (cluster_copy_object p m).1
    → (read_pointer old_written (Option.map address_of (cluster_copy_object p m).0)
        ≡ read_pointer m p)
      × (read_pointer copy_written p ≡ read_pointer m p)
cluster_copy_object-apart p m old_written copy_written allocated above below =
    (copy_reads p m old_written allocated above, pointer_kept p m copy_written allocated below)

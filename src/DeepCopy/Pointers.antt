-- ===== src/DeepCopy/Pointers.antt =====
-- DeepCopy and DeepCopyObject of zz_generated.deepcopy.go, on a memory of the values that pointers
-- lead to. A nil pointer and a nil interface are `none`.
pub mod Laws
use kubecon.Prelude.{ℕ, suc, Option, none, some, same_address, if◌then◌else◌}
use kubecon.Prelude.Exec.{Exec}
use kubecon.Api.{ClusterCondition, ClusterSpec, Kubeconfig, KubeconfigSpec}
use kubecon.World.{Address}
use kubecon.DeepCopy.{
  Slices, StatusValue, ClusterValue, ListValue, Memory, status_into, cluster_into,
  cluster_list_into, kubeconfig_into, kubeconfig_list_into,
}

-- The values of one type; `next` is the address of the next one that `new` allocates.
pub record Cells (A : Type 0) : Type 0 where
  pub next : ℕ
  pub values : Address → A

-- `out := new(T)`, once it has been written to
abbrev pub new_cell : {A : Type 0} → A → Exec (Cells A) Address
new_cell v c = (
  c.next,
  record { next = suc c.next; values = λ a. if same_address c.next a then v else c.values a },
)

-- DeepCopy of a pointer, by the DeepCopyInto of what it leads to
unfoldable pub pointer_copy :
    {A S : Type 0} → (A → Exec S A) → Option Address → Exec (Cells A × S) (Option Address)
pointer_copy copy_into none m = (none, m)
pointer_copy copy_into (some p) m =
    let (v, s) = copy_into (m.0.values p) m.1 in
    let (out, cells) = new_cell v m.0 in (some out, (cells, s))

-- A `runtime.Object` that is not nil: a pointer with its type.
pub data Object : Type 0 where
  cluster_object cluster_list_object kubeconfig_object kubeconfig_list_object : Address → Object

-- `if c := in.DeepCopy(); c != nil { return c } else { return nil }`
unfoldable pub object_copy :
    {M : Type 0}
    → (Address → Object)
    → (Option Address → Exec M (Option Address))
    → Option Address
    → Exec M (Option Object)
object_copy as_object copy p m =
    let (c, m') = copy p m in elim c [ none ↦ (none, m') | some a ↦ (some (as_object a), m') ]

-- A struct without slices or pointers is copied by `*out = *in`.
abbrev assign : {A : Type 0} → A → Exec Unit A
assign v s = (v, s)

abbrev condition_copy : Option Address → Exec (Cells ClusterCondition × Unit) (Option Address)
condition_copy = pointer_copy assign

abbrev cluster_spec_copy : Option Address → Exec (Cells ClusterSpec × Unit) (Option Address)
cluster_spec_copy = pointer_copy assign

abbrev kubeconfig_spec_copy : Option Address → Exec (Cells KubeconfigSpec × Unit) (Option Address)
kubeconfig_spec_copy = pointer_copy assign

abbrev status_copy :
    Option Address → Exec (Cells StatusValue × Slices ClusterCondition) (Option Address)
status_copy = pointer_copy status_into

abbrev pub cluster_copy :
    Option Address → Exec (Cells ClusterValue × Slices ClusterCondition) (Option Address)
cluster_copy = pointer_copy cluster_into

abbrev pub cluster_copy_object :
    Option Address → Exec (Cells ClusterValue × Slices ClusterCondition) (Option Object)
cluster_copy_object = object_copy cluster_object cluster_copy

abbrev cluster_list_copy : Option Address → Exec (Cells ListValue × Memory) (Option Address)
cluster_list_copy = pointer_copy cluster_list_into

abbrev cluster_list_copy_object : Option Address → Exec (Cells ListValue × Memory) (Option Object)
cluster_list_copy_object = object_copy cluster_list_object cluster_list_copy

abbrev kubeconfig_copy : Option Address → Exec (Cells Kubeconfig × Unit) (Option Address)
kubeconfig_copy = pointer_copy (λ v s. (kubeconfig_into v, s))

abbrev kubeconfig_copy_object : Option Address → Exec (Cells Kubeconfig × Unit) (Option Object)
kubeconfig_copy_object = object_copy kubeconfig_object kubeconfig_copy

abbrev kubeconfig_list_copy : Option Address → Exec (Cells ListValue × Memory) (Option Address)
kubeconfig_list_copy = pointer_copy kubeconfig_list_into

abbrev kubeconfig_list_copy_object :
    Option Address → Exec (Cells ListValue × Memory) (Option Object)
kubeconfig_list_copy_object = object_copy kubeconfig_list_object kubeconfig_list_copy

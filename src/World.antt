-- ===== src/World.antt =====
-- The state of the process: the objects that its pointers lead to, the informer's store, which
-- shares them, the provisioner's queue, the commands that it has run and what it has printed, and
-- the state outside. A method is an action on it.
pub mod Retry
pub mod Laws
pub mod Writes
pub mod Keeps
pub mod Elsewhere
pub mod Conflicts
use kubecon.Prelude.{
  ℕ, suc, String, Option, none, some, List, [], ◌∷◌, ◌++◌, same_address, if◌then◌else◌,
}
use kubecon.Prelude.Exec.{Exec, ◌>>=◌, ◌>>◌, pure}
use kubecon.Api.{Cluster, Cond}
use kubecon.Platform.{Platform, Result, ok, err}

abbrev pub Address : Type 0
Address = ℕ

-- The `*Cluster` objects by address; `next` is the address of the next one to be allocated.
pub record Heap : Type 0 where
  pub next : ℕ
  pub cell : Address → Cluster

abbrev pub write_cell : Address → Cluster → Heap → Heap
write_cell p c h = record h { cell = λ q. if same_address p q then c else h.cell q }

abbrev pub alloc_cell : Cluster → Heap → Heap
alloc_cell c h = record {
  next = suc h.next;
  cell = λ q. if same_address h.next q then c else h.cell q;
}

pub record Command : Type 0 where
  pub name : String
  pub args : List String

-- `GetByKey` of a `cache.Indexer`: an error, no object under the key, or an object.
pub data Indexed (E : Type 0) : Type 0 where
  failed : E → Indexed E
  missing : Indexed E
  present : Address → Indexed E

pub record World (E : Platform) : Type 0 where
  pub heap : Heap
  pub indexer : String → Indexed E.Error
  pub queue : E.Queue
  pub commands : List Command
  pub stdout : List String
  pub outside : E.Outside

module _ (E : Platform) where
  -- What the methods of a handler do not touch.
  abbrev pub frame : World E → E.Queue × (String → Indexed E.Error)
  frame w = (w.queue, w.indexer)

  abbrev pub M : Type 0 → Type 0
  M A = Exec (World E) A

  -- `*p`
  abbrev pub load : Address → M Cluster
  load p w = (w.heap.cell p, w)

  -- `*p = c`
  abbrev pub store : Address → Cluster → M (Unit {0})
  store p c w = (tt, record w { heap = write_cell p c w.heap })

  -- `p.DeepCopy()` for a non-nil `p`: a new object, equal to the old one.
  abbrev pub deep_copy : Address → M Address
  deep_copy p w = (w.heap.next, record w { heap = alloc_cell (w.heap.cell p) w.heap })

  -- A call that reaches outside the process.
  abbrev pub outside : {A : Type 0} → Exec E.Outside A → M A
  outside m w = let (a, o) = m w.outside in (a, record w { outside = o })

  -- `cond.Do(*p, func() { return *p, f() })` of the condition library.
  abbrev pub do_condition : Cond → Address → M (Option E.Error) → M (Option E.Error)
  do_condition c p f = do
    before ← load p
    store p (E.starting c before)
    e ← f
    now ← load p
    store p (E.finished c before now e)
    pure e

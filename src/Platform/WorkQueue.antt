-- ===== src/Platform/WorkQueue.antt =====
-- k8s.io/client-go/util/workqueue as util/util.go relies on it.
use kubecon.Prelude.{String, ◌≡◌, ◌||◌, Bool, true, false, ◌==◌, if◌then◌else◌}
use kubecon.Platform.{Platform, waiting, quit, item}

-- What a queue holds: `dirty` are the items to be handled, those added again while one works on them
-- included; `busy` those that one works on; `closing` says that it has been shut down.
pub record QueueView (E : Platform) : Type 0 where
  pub dirty : E.Queue → String → Bool
  pub busy : E.Queue → String → Bool
  pub closing : E.Queue → Bool

-- No item is being worked on.
abbrev pub Idle : {E : Platform} → QueueView E → E.Queue → Type 0
Idle V q = (j : String) → V.busy q j ≡ false

-- Adding an item to a queue that shuts down does nothing. Taking an item leaves it busy and no
-- longer dirty, and `Done` ends the work on it. A worker waits only while the queue is open. Where
-- no item is being worked on, it waits or is told to quit only once nothing is to be handled.
pub record IsWorkQueue (E : Platform) (V : QueueView E) : Type 0 where
  pub dirty_add :
      (k : String) (q : E.Queue) (j : String)
      → V.dirty (E.add k q) j ≡ (if V.closing q then V.dirty q j else ((k == j) || V.dirty q j))
  pub busy_add : (k : String) (q : E.Queue) (j : String) → V.busy (E.add k q) j ≡ V.busy q j
  pub closing_add : (k : String) (q : E.Queue) → V.closing (E.add k q) ≡ V.closing q
  pub dirty_taken : (k : String) (q r : E.Queue) → E.get q ≡ item k r → V.dirty q k ≡ true
  pub dirty_take :
      (k : String) (q r : E.Queue) (j : String)
      → E.get q ≡ item k r
      → V.dirty r j ≡ (if k == j then false else V.dirty q j)
  pub busy_take :
      (k : String) (q r : E.Queue) (j : String)
      → E.get q ≡ item k r
      → V.busy r j ≡ ((k == j) || V.busy q j)
  pub closing_take : (k : String) (q r : E.Queue) → E.get q ≡ item k r → V.closing r ≡ V.closing q
  pub dirty_done : (k : String) (q : E.Queue) (j : String) → V.dirty (E.done k q) j ≡ V.dirty q j
  pub busy_done :
      (k : String) (q : E.Queue) (j : String)
      → V.busy (E.done k q) j ≡ (if k == j then false else V.busy q j)
  pub closing_done : (k : String) (q : E.Queue) → V.closing (E.done k q) ≡ V.closing q
  pub quit_closing : (q : E.Queue) → E.get q ≡ quit → V.closing q ≡ true
  pub quit_drained : (q : E.Queue) → E.get q ≡ quit → Idle V q → (j : String) → V.dirty q j ≡ false
  pub waiting_open : (q : E.Queue) → E.get q ≡ waiting → V.closing q ≡ false
  pub waiting_drained :
      (q : E.Queue) → E.get q ≡ waiting → Idle V q → (j : String) → V.dirty q j ≡ false
  pub dirty_shut_down : (q : E.Queue) (j : String) → V.dirty (E.shut_down q) j ≡ V.dirty q j
  pub busy_shut_down : (q : E.Queue) (j : String) → V.busy (E.shut_down q) j ≡ V.busy q j
  pub closing_shut_down : (q : E.Queue) → V.closing (E.shut_down q) ≡ true

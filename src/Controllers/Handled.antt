-- ===== src/Controllers/Handled.antt =====
-- A key that an event of the informer has enqueued, until its handling succeeds: Enqueue and worker of
-- util.go with sync of provisioner.go.
use mathlib.Core.Path.{subst}
use mathlib.Core.Option.{none-ne-some}
use kubecon.Prelude.{ℕ, zero, suc, String, ◌≡◌, ◌<◌, ◌≤◌, ap, sym, ◌∙◌, none, some, false, arith}
use kubecon.Api.{Cluster}
use kubecon.Platform.{Platform, ok, item}
use kubecon.Platform.Laws.{IsConditionLibrary}
use kubecon.Platform.WorkQueue.{QueueView, Idle, IsWorkQueue}
use kubecon.World.{World, Address}
use kubecon.World.Keeps.{Kept, Kept-trans}
use kubecon.Client.Lister
use kubecon.TaskQueue.{blocked, turn, worker, enqueue, Enqueued}
use kubecon.Provisioner.Requeue.{failure}
use kubecon.Provisioner.Frame.{indexer-turn}
use kubecon.Provisioner.Retries.{
  Failed, start, again, Succeeded, OnlyKey, settled, retrying, worker-Fares,
}
use kubecon.Provisioner.{sync}
use kubecon.Controllers.Keeps.{Keeps-sync}

-- The informer's store has the object under the key, and it is what has become of `old`.
pub record InStore (E : Platform) (key : String) (p : Address) (old : Cluster) (w : World E)
    : Type 0 where
  pub in_store : Lister.get E w.indexer key ≡ ok p
  pub allocated : p < w.heap.next
  pub kept : Kept old (w.heap.cell p)

InStore-queue :
    {E : Platform} {key : String} {p : Address} {old : Cluster} {w : World E} (q : E.Queue)
    → InStore E key p old w
    → InStore E key p old (record w { queue = q })
InStore-queue q s = record { in_store = s.in_store; allocated = s.allocated; kept = s.kept }

module _ (E : Platform) (L : IsConditionLibrary E) (key : String) (p : Address)
    (old : Cluster) where
  InStore-turn :
      (q : E.Queue) (w : World E)
      → InStore E key p old w
      → InStore E key p old (turn E (sync E) key q w)
  unfolding turn
  InStore-turn q w s =
      let k = Keeps-sync E L key (record w { queue = q }) in
      let g = k.grows in
      let lt = s.allocated in
      record {
        in_store = ap (λ i. Lister.get E i key) (indexer-turn E key q w) ∙ s.in_store;
        allocated = omega arith;
        kept = Kept-trans s.kept (k.cells p s.allocated);
      }

  InStore-Failed :
      {k : ℕ} {w v : World E} → Failed E key k w v → InStore E key p old w → InStore E key p old v
  InStore-Failed start s = s
  InStore-Failed (again {w} q e taken f rest) s = InStore-Failed rest (InStore-turn q w s)

  -- the last of some failed handlings
  record LastFailed (n : ℕ) (w : World E) : Type 0 where
    before : World E
    queue : E.Queue
    error : E.Error
    failed : Failed E key n w before
    taken : E.get before.queue ≡ item key queue
    fails : failure E key (record before { queue = queue }) ≡ some error

  last_of : (n : ℕ) {w v : World E} → Failed E key (suc n) w v → LastFailed n w
  last_of zero (again {w} q e taken f rest) = record {
    before = w;
    queue = q;
    error = e;
    failed = start;
    taken = taken;
    fails = f;
  }
  last_of (suc n) (again q e taken f rest) =
      let l = last_of n rest in
      record {
        before = l.before;
        queue = l.queue;
        error = l.error;
        failed = again q e taken f l.failed;
        taken = l.taken;
        fails = l.fails;
      }

  module _ {V : QueueView E} (W : IsWorkQueue E V) where
    -- The worker has handled the key, after at most `n` failures, and waits; the object was in the store
    -- when it was handled last.
    pub record Handled (n : ℕ) (w : World E) : Type 0 where
      pub after : World E
      pub failures : ℕ
      pub at_most : failures ≤ n
      pub succeeded : Succeeded E key failures w after
      pub waits : worker E (sync E) (suc (suc n)) w ≡ (blocked, after)
      pub there : InStore E key p old (record (succeeded.last) { queue = succeeded.queue_left })

    Handled-OnlyKey :
        (n : ℕ) (w : World E)
        → OnlyKey E key W w.queue
        → InStore E key p old w
        → ((v : World E) (q : E.Queue)
            → Failed E key n w v
            → InStore E key p old (record v { queue = q })
            → failure E key (record v { queue = q }) ≡ none)
        → Handled n w
    Handled-OnlyKey n w o s well = elim (worker-Fares E key W (suc n) w o) [
      | settled k v lt h r e ↦ record {
        after = v;
        failures = k;
        at_most = omega arith;
        succeeded = h;
        waits = r;
        there = InStore-queue h.queue_left (InStore-Failed h.failed s);
      }
      | retrying v f r q ↦
          let l = last_of n f in
          let t = InStore-queue l.queue (InStore-Failed l.failed s) in
          absurd (none-ne-some l.error (sym (well l.before l.queue l.failed t) ∙ l.fails))
    ]

    OnlyKey-enqueue :
        (c : Cluster) (w : World E)
        → E.key_of c ≡ ok key
        → V.closing w.queue ≡ false
        → Idle V w.queue
        → ((j : String) → V.dirty w.queue j ≡ false)
        → (enqueue E (Enqueued.object c) w).1 ≡ record w { queue = E.add key w.queue }
          × OnlyKey E key W (E.add key w.queue)
    unfolding enqueue
    OnlyKey-enqueue c w k open_queue idle none_waits = (
      ground arith,
      record {
        open_queue = W.closing_add key w.queue ∙ open_queue;
        idle = λ j. W.busy_add key w.queue j ∙ idle j;
        only = λ j. W.dirty_add key w.queue j ∙ rw open_queue (rw (none_waits j) (ground arith));
      },
    )

    -- Where the key of an object is enqueued in an open and empty queue, and its handling succeeds at the
    -- latest after `n` failures.
    pub Handled-enqueue :
        (n : ℕ) (c : Cluster) (w : World E)
        → E.key_of c ≡ ok key
        → V.closing w.queue ≡ false
        → Idle V w.queue
        → ((j : String) → V.dirty w.queue j ≡ false)
        → InStore E key p old w
        → ((v : World E) (q : E.Queue)
            → Failed E key n (enqueue E (Enqueued.object c) w).1 v
            → InStore E key p old (record v { queue = q })
            → failure E key (record v { queue = q }) ≡ none)
        → Handled n (enqueue E (Enqueued.object c) w).1
    Handled-enqueue n c w k open_queue idle none_waits s well =
        let (e, o) = OnlyKey-enqueue c w k open_queue idle none_waits in
        Handled-OnlyKey n (enqueue E (Enqueued.object c) w).1
          (subst (λ (v : World E). OnlyKey E key W v.queue) (sym e) o)
          (subst (InStore E key p old) (sym e) (InStore-queue (E.add key w.queue) s)) well

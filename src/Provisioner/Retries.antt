-- ===== src/Provisioner/Retries.antt =====
-- Theorems on worker of util.go with sync of provisioner.go: a key until its handling succeeds.
use mathlib.Core.Bool.{true≢false}
use kubecon.Prelude.{
  ℕ, zero, suc, String, ◌≡◌, ◌<◌, refl, ap, sym, ◌∙◌, false, none, some, arith, inl, inr,
  Option-cases, ◌==◌, eq_iff,
}
use kubecon.Platform.{Platform, item}
use kubecon.Platform.WorkQueue.{QueueView, Idle, IsWorkQueue}
use kubecon.World.{World}
use kubecon.TaskQueue.{busy, blocked, turn, worker}
use kubecon.TaskQueue.Laws.{Taken-cases, worker-waiting, worker-turn}
use kubecon.Provisioner.Requeue.{failure, turn_requeues, closing-turn, Idle-turn}
use kubecon.Provisioner.{sync}

module _ (E : Platform) (key : String) where
  -- A run in which the key is handled `k` times, and fails each time.
  pub data Failed : ℕ → World E → World E → Type 0 where
    start : {w : World E} → Failed 0 w w
    again :
        {k : ℕ} {w v : World E} (q : E.Queue) (e : E.Error)
        → E.get w.queue ≡ item key q
        → failure E key (record w { queue = q }) ≡ some e
        → Failed k (turn E (sync E) key q w) v
        → Failed (suc k) w v

  -- One in which it is handled once more, and succeeds.
  pub record Succeeded (k : ℕ) (w v : World E) : Type 0 where
    pub last : World E
    pub queue_left : E.Queue
    pub failed : Failed k w last
    pub taken : E.get last.queue ≡ item key queue_left
    pub succeeded : failure E key (record last { queue = queue_left }) ≡ none
    pub after : v ≡ turn E (sync E) key queue_left last

  module _ {V : QueueView E} (W : IsWorkQueue E V) where
    -- The queue is open, nothing is being worked on, and the key alone is to be handled.
    pub record OnlyKey (q : E.Queue) : Type 0 where
      pub open_queue : V.closing q ≡ false
      pub idle : Idle V q
      pub only : (j : String) → V.dirty q j ≡ (key == j)

    -- How the worker fares: it has handled the key until that succeeded, and waits for another, or
    -- its handling has failed each of the first `n` times, and the key is to be handled again.
    pub data Fares (n : ℕ) (w : World E) : Type 0 where
      settled :
          (k : ℕ) (v : World E)
          → k < n
          → Succeeded k w v
          → worker E (sync E) (suc n) w ≡ (blocked, v)
          → ((j : String) → V.dirty v.queue j ≡ false)
          → Fares n w
      retrying :
          (v : World E)
          → Failed n w v
          → worker E (sync E) n w ≡ (busy, v)
          → OnlyKey v.queue
          → Fares n w

    pub key_taken : (w : World E) → OnlyKey w.queue → (q : E.Queue) × (E.get w.queue ≡ item key q)
    key_taken w o = elim (Taken-cases (E.get w.queue)) [
      | inl h ↦ absurd (
          true≢false
            (sym (o.only key ∙ (eq_iff key key).1 refl) ∙ W.waiting_drained w.queue h o.idle key))
      | inr (inl h) ↦ absurd (true≢false (sym (W.quit_closing w.queue h) ∙ o.open_queue))
      | inr (inr (k, q, h)) ↦
          let same = (eq_iff key k).0 (sym (o.only k) ∙ W.dirty_taken k w.queue q h) in
          (q, h ∙ ap (λ i. item i q) (sym same))
    ]

    module _ (w : World E) (o : OnlyKey w.queue) (q : E.Queue)
        (h : E.get w.queue ≡ item key q) where
      pub OnlyKey-turn :
          (e : E.Error)
          → failure E key (record w { queue = q }) ≡ some e
          → OnlyKey (turn E (sync E) key q w).queue
      OnlyKey-turn e f = record {
        open_queue = closing-turn E W key q w h ∙ o.open_queue;
        idle = Idle-turn E W key q w h o.idle;
        only =
            λ j. turn_requeues E W key q w h j ∙ rw o.open_queue (rw f (rw o.only (ground arith)));
      }

      drained :
          failure E key (record w { queue = q }) ≡ none
          → (j : String) → V.dirty (turn E (sync E) key q w).queue j ≡ false
      drained f j =
          turn_requeues E W key q w h j ∙ rw o.open_queue (rw f (rw o.only (ground arith)))

      settles :
          failure E key (record w { queue = q }) ≡ none
          → (n : ℕ) → worker E (sync E) (suc (suc n)) w ≡ (blocked, turn E (sync E) key q w)
      settles f n =
          let v = turn E (sync E) key q w in
          worker-turn E (sync E) (suc n) w key q h ∙ elim (Taken-cases (E.get v.queue)) [
            | inl g ↦ worker-waiting E (sync E) n v g
            | inr (inl g) ↦ absurd (
                true≢false
                  (sym (W.quit_closing v.queue g) ∙ closing-turn E W key q w h ∙ o.open_queue))
            | inr (inr (k, r, g)) ↦
                absurd (true≢false (sym (W.dirty_taken k v.queue r g) ∙ drained f k))
          ]

    Fares-again :
        (n : ℕ) (w : World E) (q : E.Queue) (e : E.Error)
        → E.get w.queue ≡ item key q
        → failure E key (record w { queue = q }) ≡ some e
        → Fares n (turn E (sync E) key q w)
        → Fares (suc n) w
    Fares-again n w q e h f (settled k v lt s r d) =
        settled (suc k) v (omega arith)
          (record {
            last = s.last;
            queue_left = s.queue_left;
            failed = again q e h f s.failed;
            taken = s.taken;
            succeeded = s.succeeded;
            after = s.after;
          })
          (worker-turn E (sync E) (suc n) w key q h ∙ r) d
    Fares-again n w q e h f (retrying v s r o) =
        retrying v (again q e h f s) (worker-turn E (sync E) n w key q h ∙ r) o

    -- A key that alone waits in an open queue is handled until that succeeds, after which the worker
    -- waits and no key does; it is never given up: as long as each handling has failed, the key is to
    -- be handled again.
    pub worker-Fares : (n : ℕ) (w : World E) → OnlyKey w.queue → Fares n w
    unfolding worker
    worker-Fares zero w o = retrying w start refl o
    worker-Fares (suc n) w o =
        let (q, h) = key_taken w o in
        elim (Option-cases (failure E key (record w { queue = q }))) [
          | inr (e, f) ↦
              Fares-again n w q e h f
                (worker-Fares n (turn E (sync E) key q w) (OnlyKey-turn w o q h e f))
          | inl f ↦
              settled 0 (turn E (sync E) key q w) (omega arith)
                (record {
                  last = w;
                  queue_left = q;
                  failed = start;
                  taken = h;
                  succeeded = f;
                  after = refl;
                })
                (settles w o q h f n) (drained w o q h f)
        ]

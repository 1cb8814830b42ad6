-- ===== src/Provisioner/Shutdown.antt =====
-- The provisioner's worker once its queue is shut down.
use mathlib.Core.Bool.{true≢false}
use kubecon.Prelude.{
  ℕ, zero, suc, length, String, ◌≡◌, ◌≤◌, ◌<◌, refl, sym, ◌∙◌, true, false, List, [], ◌∷◌, arith,
  inl, inr, if◌then◌else◌, ◌==◌,
}
use kubecon.Prelude.Strings.{has}
use kubecon.Platform.{Platform, quit, item}
use kubecon.Platform.WorkQueue.{QueueView, Idle, IsWorkQueue}
use kubecon.World.{World}
use kubecon.TaskQueue.{Stage, closed, turn, worker, shut_down}
use kubecon.Provisioner.Finalizers.{without}
use kubecon.Provisioner.Finalizers.Laws.{has-without}
use kubecon.Provisioner.Requeue.{closing-turn, Idle-turn, turn_requeues}
use kubecon.TaskQueue.Laws.{Taken-cases, worker-quit, worker-turn}
use kubecon.Provisioner.{sync}

length-without : (k : String) (l : List String) → length (without k l) ≤ length l
unfolding without
length-without k [] = omega arith
length-without k (j ∷ l) = ground (arith, length-without k l)

-- Taking out a string that is there shortens the list.
length-without_lt :
    (k : String) (l : List String) → has l k ≡ true → length (without k l) < length l
unfolding without
length-without_lt k [] h = ground arith
length-without_lt k (j ∷ l) h = ground (arith, length-without k l, length-without_lt k l)

length-has : (k : String) (l : List String) → has l k ≡ true → 1 ≤ length l
length-has k [] h = ground arith
length-has k (j ∷ l) h = omega arith

module _ (E : Platform) {V : QueueView E} (W : IsWorkQueue E V) where
  dirty-turn_closing :
      (key j : String) (q : E.Queue) (w : World E)
      → E.get w.queue ≡ item key q
      → V.closing w.queue ≡ true
      → V.dirty (turn E (sync E) key q w).queue j ≡ (if key == j then false else V.dirty w.queue j)
  dirty-turn_closing key j q w taken shut = turn_requeues E W key q w taken j ∙ rw shut refl

  within :
      (key : String) (q : E.Queue) (w : World E)
      → E.get w.queue ≡ item key q
      → V.closing w.queue ≡ true
      → (keys : List String) → ((j : String) → V.dirty w.queue j ≡ true → has keys j ≡ true)
      → (j : String) → V.dirty (turn E (sync E) key q w).queue j ≡ true
      → has (without key keys) j ≡ true
  within key q w taken shut keys all j d =
      ground (arith, dirty-turn_closing key j q w taken shut, has-without key j keys, all j)

  -- The worker has returned, and no key waits.
  abbrev pub Drained : Stage × World E → Type 0
  Drained r = (r.0 ≡ closed) × ((j : String) → V.dirty r.1.queue j ≡ false)

  -- It has, because the queue told it to quit, and would do so again.
  abbrev pub Quit : Stage × World E → Type 0
  Quit r = Drained r × (E.get r.1.queue ≡ quit)

  Quit-quit :
      (n : ℕ) (w : World E)
      → E.get w.queue ≡ quit
      → Idle V w.queue
      → Quit (worker E (sync E) (suc n) w)
  Quit-quit n w h idle =
      rw (worker-quit E (sync E) n w h) ((refl, W.quit_drained w.queue h idle), h)

  Quit-worker :
      (n : ℕ) (keys : List String) (w : World E)
      → length keys ≤ n
      → V.closing w.queue ≡ true
      → ((j : String) → V.dirty w.queue j ≡ true → has keys j ≡ true)
      → Idle V w.queue
      → Quit (worker E (sync E) (suc n) w)
  Quit-worker zero keys w bound shut all idle = elim (Taken-cases (E.get w.queue)) [
    | inl h ↦ absurd (true≢false (sym shut ∙ W.waiting_open w.queue h))
    | inr (inl h) ↦ Quit-quit 0 w h idle
    | inr (inr (key, q, h)) ↦
        let some_key = length-has key keys (all key (W.dirty_taken key w.queue q h)) in
        absurd (omega arith)
  ]
  Quit-worker (suc n) keys w bound shut all idle = elim (Taken-cases (E.get w.queue)) [
    | inl h ↦ absurd (true≢false (sym shut ∙ W.waiting_open w.queue h))
    | inr (inl h) ↦ Quit-quit (suc n) w h idle
    | inr (inr (key, q, h)) ↦
        let shorter = length-without_lt key keys (all key (W.dirty_taken key w.queue q h)) in
        rw (worker-turn E (sync E) (suc n) w key q h) (
          Quit-worker n (without key keys) (turn E (sync E) key q w) (omega arith)
            (closing-turn E W key q w h ∙ shut) (within key q w h shut keys all)
            (Idle-turn E W key q w h idle))
  ]

  pub Quit-shut_down :
      (n : ℕ) (keys : List String) (w : World E)
      → length keys ≤ n
      → ((j : String) → V.dirty w.queue j ≡ true → has keys j ≡ true)
      → Idle V w.queue
      → Quit (worker E (sync E) (suc n) (shut_down E w).1)
  unfolding shut_down
  Quit-shut_down n keys w bound all idle =
      Quit-worker n keys (shut_down E w).1 bound (W.closing_shut_down w.queue)
        (λ j d. all j (sym (W.dirty_shut_down w.queue j) ∙ d))
        (λ j. W.busy_shut_down w.queue j ∙ idle j)

  -- Once the queue is shut down, a worker that is not at work returns, at the latest when it has handled
  -- as many items as keys waited at the shutdown, whether their handlers fail or not; and then none
  -- waits.
  worker-shut_down :
      (n : ℕ) (keys : List String) (w : World E)
      → length keys ≤ n
      → ((j : String) → V.dirty w.queue j ≡ true → has keys j ≡ true)
      → Idle V w.queue
      → Drained (worker E (sync E) (suc n) (shut_down E w).1)
  worker-shut_down n keys w bound all idle = (Quit-shut_down n keys w bound all idle).0

-- ===== src/Provisioner/Rerun.antt =====
-- Run of util.go for the provisioner's queue, once it is shut down.
use kubecon.Prelude.{
  ℕ, suc, length, String, ◌≡◌, ◌≤◌, refl, ◌∙◌, Bool, true, false, List, ◌∷◌, if◌then◌else◌, arith,
}
use kubecon.Prelude.Strings.{has}
use kubecon.Platform.{Platform, quit}
use kubecon.Platform.WorkQueue.{QueueView, Idle, IsWorkQueue}
use kubecon.World.{World}
use kubecon.TaskQueue.{closed, worker, shut_down}
use kubecon.TaskQueue.Laws.{worker-quit}
use kubecon.TaskQueue.Run.{
  Ended, returned, panicked, WaitLibrary, CallsUntilStopped, Process, work, run_queue, shutdown,
}
use kubecon.Provisioner.Shutdown.{Quit-shut_down}
use kubecon.Provisioner.{sync}

module _ (E : Platform) {V : QueueView E} (W : IsWorkQueue E V) where
  work-first :
      (n : ℕ) (w : World E)
      → (worker E (sync E) n w).0 ≡ closed
      → work E (sync E) n (false, w) ≡ returned (true, (worker E (sync E) n w).1)
  unfolding work
  work-first n w h = rw (h, work) refl

  work-again :
      (n : ℕ) (w : World E)
      → E.get w.queue ≡ quit
      → work E (sync E) (suc n) (true, w) ≡ panicked (true, w)
  unfolding work
  work-again n w h = ground (arith, worker-quit E (sync E) n w h)

  -- Where no item is being worked on, Shutdown returns, at the latest when the worker has handled as
  -- many items as keys waited, whether their handlers fail or not, and then no key waits; and called
  -- again, it returns without waiting for the worker.
  pub shutdown-returned :
      (n : ℕ) (keys : List String) (w : World E)
      → length keys ≤ n
      → ((j : String) → V.dirty w.queue j ≡ true → has keys j ≡ true)
      → Idle V w.queue
      → (m : ℕ)
      → (v : World E) × (shutdown E (sync E) (suc n) (false, w) ≡ returned (true, v))
        × ((j : String) → V.dirty v.queue j ≡ false)
        × (shutdown E (sync E) m (true, v) ≡ returned (true, (shut_down E v).1))
  unfolding shutdown
  shutdown-returned n keys w bound all idle m =
      let ((ended, drained), quits) = Quit-shut_down E W n keys w bound all idle in
      let u = (shut_down E w).1 in
      ((worker E (sync E) (suc n) u).1, work-first (suc n) u ended, drained, refl)

  -- Once the queue is shut down, and no item is being worked on, Run has its worker handle what waits
  -- and return; then it returns if it finds its stop channel closed, and panics if it does not, as
  -- the worker closes workerDone once more.
  pub run_queue-shut_down :
      {U : WaitLibrary}
      → CallsUntilStopped U
      → (n : ℕ) (keys : List String) (w : World E) → length keys ≤ n
      → ((j : String) → V.dirty w.queue j ≡ true → has keys j ≡ true)
      → Idle V w.queue
      → (stop : Bool) (later : List Bool)
      → let v = (worker E (sync E) (suc n) (shut_down E w).1).1 in
        (run_queue E U (sync E) (suc n) (false ∷ stop ∷ later) (false, (shut_down E w).1)
          ≡ (if stop then returned (true, v) else panicked (true, v)))
        × ((j : String) → V.dirty v.queue j ≡ false)
  unfolding run_queue
  run_queue-shut_down {U} C n keys w bound all idle stop later =
      let u = (shut_down E w).1 in
      let v = (worker E (sync E) (suc n) u).1 in
      let ((ended, drained), quits) = Quit-shut_down E W n keys w bound all idle in
      let f = work E (sync E) (suc n) in
      (
        C.called f (stop ∷ later) (false, u)
            ∙ rw (work-first (suc n) u ended) (second f v stop later (work-again n v quits)),
        drained,
      )
    where
      second :
          (f : Process E → Ended (Process E)) (v : World E) (stop : Bool) (later : List Bool)
          → f (true, v) ≡ panicked (true, v)
          → U.until f (stop ∷ later) (true, v)
            ≡ (if stop then returned (true, v) else panicked (true, v))
      second f v true later h = C.stopped f later (true, v)
      second f v false later h = C.called f later (true, v) ∙ rw h refl

-- ===== src/TaskQueue/Run.antt =====
-- util/util.go: Run, which has `wait.Until` call the worker, and the channel workerDone, which the
-- worker closes when it returns.
use kubecon.Prelude.{ℕ, String, ◌≡◌, Bool, true, false, List, [], ◌∷◌, if◌then◌else◌}
use kubecon.Platform.{Platform}
use kubecon.World.{World, M}
use kubecon.TaskQueue.{busy, blocked, closed, worker, shut_down}

-- How a call ends: it returns, it panics, or it has not ended.
pub data Ended (S : Type 0) : Type 0 where
  returned panicked unended : S → Ended S

-- `wait.Until`, over what it finds of its stop channel each time that it looks: whether it is closed.
pub record WaitLibrary : Type 1 where
  pub until : {S : Type 0} → (S → Ended S) → List Bool → S → Ended S

-- It returns when it finds the channel closed, and calls its function when it does not; a panic of
-- the function goes through it.
pub record CallsUntilStopped (U : WaitLibrary) : Type 1 where
  pub looked : {S : Type 0} (f : S → Ended S) (s : S) → U.until f [] s ≡ unended s
  pub stopped :
      {S : Type 0} (f : S → Ended S) (l : List Bool) (s : S) → U.until f (true ∷ l) s ≡ returned s
  pub called :
      {S : Type 0} (f : S → Ended S) (l : List Bool) (s : S)
      → U.until f (false ∷ l) s ≡ elim (f s) [
        | returned t ↦ U.until f l t
        | panicked t ↦ panicked t
        | unended t ↦ unended t
      ]

module _ (E : Platform) where
  -- The queue's channel workerDone, by whether it is closed, and the process.
  abbrev pub Process : Type 0
  Process = Bool × World E

  -- `NewTaskQueue`: the queue that the library makes, and an open channel; the handler is an argument of
  -- the methods.
  abbrev new_task_queue : E.Queue → World E → Process
  new_task_queue queue w = (false, record w { queue = queue })

  -- `worker`, through its next `n` items, with its `close(t.workerDone)`: a second one panics
  unfoldable pub work : (String → M E (Unit {0})) → ℕ → Process → Ended Process
  work sync n (done, w) =
      let (stage, w') = worker E sync n w in
      elim stage [
        | busy ↦ unended (done, w')
        | blocked ↦ unended (done, w')
        | closed ↦ if done then panicked (done, w') else returned (true, w')
      ]

  -- `Run`
  unfoldable pub run_queue :
      WaitLibrary → (String → M E (Unit {0})) → ℕ → List Bool → Process → Ended Process
  run_queue U sync n = U.until (work sync n)

  -- `Shutdown`, beside a worker that goes through its next `n` items: it receives from workerDone, which
  -- it can do once the channel is closed.
  unfoldable pub shutdown : (String → M E (Unit {0})) → ℕ → Process → Ended Process
  shutdown sync n (done, w) =
      let (_, w') = shut_down E w in if done then returned (done, w') else work sync n (done, w')

-- ===== src/TaskQueue.antt =====
-- util/util.go: a work queue and the worker that takes its items.
pub mod Laws
pub mod Run
use kubecon.Prelude.{ℕ, zero, suc, String}
use kubecon.Api.{Cluster}
use kubecon.Platform.{Platform, ok, err, waiting, quit, item}
use kubecon.World.{World, M}

-- What `Enqueue` is given: a key, or an API object.
pub data Enqueued : Type 0 where
  key : String → Enqueued
  object : Cluster → Enqueued

-- How a run of the worker stands: it has handled all the items that it was to handle, it blocks
-- in `Get`, or it has closed `workerDone` and returned.
pub data Stage : Type 0 where
  busy blocked closed : Stage

module _ (E : Platform) where
  abbrev add_key : String → M E (Unit {0})
  add_key k w = (tt, record w { queue = E.add k w.queue })

  -- `Enqueue`: an object with no key is logged and dropped.
  unfoldable pub enqueue : Enqueued → M E (Unit {0})
  enqueue (key k) w = add_key k w
  enqueue (object c) w = elim (E.key_of c) [ err e ↦ (tt, w) | ok k ↦ add_key k w ]

  -- `Requeue`; the error is only logged.
  unfoldable pub requeue : String → E.Error → M E (Unit {0})
  requeue k e = add_key k

  -- one turn of `worker`, for the item `k` that `Get` took and the queue that it left
  unfoldable pub turn : (String → M E (Unit {0})) → String → E.Queue → World E → World E
  turn sync k q w =
      let (_, w') = sync k (record w { queue = q }) in record w' { queue = E.done k w'.queue }

  -- `worker`, through its next `n` items.
  unfoldable pub worker : (String → M E (Unit {0})) → ℕ → M E Stage
  worker sync zero w = (busy, w)
  worker sync (suc n) w =
      let rest = worker sync n in
      elim (E.get w.queue) [
        | waiting ↦ (blocked, w)
        | quit ↦ (closed, w)
        | item k q ↦ rest (turn sync k q w)
      ]

  -- `Shutdown`, before it waits for the worker
  unfoldable pub shut_down : M E (Unit {0})
  shut_down w = (tt, record w { queue = E.shut_down w.queue })

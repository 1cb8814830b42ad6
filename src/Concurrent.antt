-- ===== src/Concurrent.antt =====
-- The controllers' handlers as sequences of steps: between two of them the other handlers of the process
-- and other clients can act. A step is one call, or the reads and writes of an object of the heap
-- that the code makes with no call in between.
pub mod Handlers
pub mod Alone
pub mod AloneOthers
pub mod AloneProvisioner
pub mod Safe
pub mod SafeHandlers
pub mod SafeFinalizer
pub mod SafeProvisioner
pub mod Undisturbed
pub mod Interleaved
pub mod Cores
pub mod Provisioning
use kubecon.Prelude.{ℕ, zero, suc, ◌≡◌, refl, ◌∙◌, Option, none, some, Option-cases, inl, inr, ap}
use kubecon.Api.{Cond}
use kubecon.Platform.{Platform}
use kubecon.World.{World, M, Address, load, store, outside}

-- A handler with its result: it has ended, or takes a step and goes on by what the step returns.
pub data Task (E : Platform) (B : Type 0) : Type 1 where
  ended : B → Task E B
  step : {A : Type 0} → M E A → (A → Task E B) → Task E B

module _ {E : Platform} where
  unfoldable pub bind : {A B : Type 0} → Task E A → (A → Task E B) → Task E B
  bind (ended a) f = f a
  bind (step m k) f = step m (λ x. bind (k x) f)

  -- The task with no other at work.
  unfoldable pub alone : {B : Type 0} → Task E B → M E B
  alone (ended b) w = (b, w)
  alone (step m k) w = let (a, w') = m w in alone (k a) w'

  pub alone-bind :
      {A B : Type 0} (t : Task E A) (f : A → Task E B) (w : World E)
      → alone (bind t f) w ≡ alone (f (alone t w).0) (alone t w).1
  unfolding bind alone
  alone-bind (ended a) f w = refl
  alone-bind (step m k) f w = alone-bind (k (m w).0) f (m w).1

module _ (E : Platform) where
  -- The loop of updates, each of which sends the object as it then is.
  unfoldable pub update_loop : ℕ → Address → Option E.Error → Task E (Option E.Error)
  update_loop zero p last = ended last
  update_loop (suc i) p last =
      step (λ w. outside E (E.clusters.update (w.heap.cell p)) w)
        (λ e. elim e [ none ↦ ended none | some x ↦ update_loop i p (some x) ])

  -- `cond.Do(*p, f)`, whose function is a task.
  unfoldable pub do_condition_task :
      Cond → Address → Task E (Option E.Error) → Task E (Option E.Error)
  do_condition_task c p f =
      step
        (λ w.
          let before = w.heap.cell p in
          let (_, w') = store E p (E.starting c before) w in (before, w'))
        (λ before.
          bind f
            (λ e. step (λ w. store E p (E.finished c before (w.heap.cell p) e) w) (λ _. ended e)))

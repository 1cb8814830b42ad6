-- ===== src/Provisioner/Requeue.antt =====
-- Theorems on sync of provisioner.go and worker of util.go: which keys wait after a turn.
use kubecon.Prelude.{
  String, ◌≡◌, refl, ap, ◌∙◌, false, not, Bool, Option, none, some, is_none, arith, ◌&&◌,
  if◌then◌else◌, ◌==◌, ◌||◌,
}
use kubecon.Platform.{Platform, ok, err, item}
use kubecon.Platform.WorkQueue.{QueueView, Idle, IsWorkQueue}
use kubecon.World.{World, Address}
use kubecon.Client.Lister
use kubecon.TaskQueue.{requeue, turn}
use kubecon.Provisioner.Frame.{frame-handle}
use kubecon.Provisioner.{handle, sync}

merge : (a b c : Bool) → ((a && b) || (if b then false else c)) ≡ (if b then a else c)
merge a b c = ground arith

module _ (E : Platform) where
  queue-handle : (p : Address) (w : World E) → (handle E p w).1.queue ≡ w.queue
  queue-handle p w = ap (λ f. f.0) (frame-handle E p w)

  -- The error for which `sync` puts its key back: that of the lister or that of the handler.
  abbrev pub failure : String → World E → Option E.Error
  failure key w = elim (Lister.get E w.indexer key) [ err e ↦ some e | ok p ↦ (handle E p w).0 ]

  -- The queue after `sync`, by its error.
  abbrev pub queue_after : Option E.Error → String → E.Queue → E.Queue
  queue_after none key q = q
  queue_after (some e) key q = E.add key q

  pub queue-sync :
      (key : String) (w : World E)
      → (sync E key w).1.queue ≡ queue_after (failure key w) key w.queue
  unfolding sync requeue
  queue-sync key w = grind (arith, queue-handle)

  module _ {V : QueueView E} (W : IsWorkQueue E V) where
    dirty-queue_after :
        (f : Option E.Error) (key j : String) (q : E.Queue)
        → V.dirty (queue_after f key q) j
          ≡ (((not (V.closing q) && not (is_none f)) && (key == j)) || V.dirty q j)
    dirty-queue_after none key j q = ground arith
    dirty-queue_after (some e) key j q = rw W.dirty_add (ground arith)

    closing-queue_after :
        (f : Option E.Error) (key : String) (q : E.Queue)
        → V.closing (queue_after f key q) ≡ V.closing q
    closing-queue_after none key q = refl
    closing-queue_after (some e) key q = W.closing_add key q

    busy-queue_after :
        (f : Option E.Error) (key j : String) (q : E.Queue)
        → V.busy (queue_after f key q) j ≡ V.busy q j
    busy-queue_after none key j q = refl
    busy-queue_after (some e) key j q = W.busy_add key q j

    module _ (key : String) (q : E.Queue) (w : World E) (taken : E.get w.queue ≡ item key q) where
      -- whether `sync` fails on the key that was taken
      abbrev pub failed : Bool
      failed = not (is_none (failure key (record w { queue = q })))

      -- After one turn of the worker a key is to be handled exactly where it was the one handled,
      -- `sync` failed on it and the queue is open, or it was to be handled before and was not the
      -- one.
      pub turn_requeues :
          (j : String)
          → V.dirty (turn E (sync E) key q w).queue j
            ≡ (if key == j then (not (V.closing w.queue) && failed) else V.dirty w.queue j)
      unfolding turn
      turn_requeues j =
          let v = record w { queue = q } in
          W.dirty_done key (sync E key v).1.queue j
          ∙ ap (λ r. V.dirty r j) (queue-sync key v)
          ∙ dirty-queue_after (failure key v) key j q
          ∙ ap (λ c. ((not c && failed) && (key == j)) || V.dirty q j)
              (W.closing_take key w.queue q taken)
          ∙ ap (λ d. ((not (V.closing w.queue) && failed) && (key == j)) || d)
              (W.dirty_take key w.queue q j taken)
          ∙ merge (not (V.closing w.queue) && failed) (key == j) (V.dirty w.queue j)

      pub closing-turn : V.closing (turn E (sync E) key q w).queue ≡ V.closing w.queue
      unfolding turn
      closing-turn =
          let v = record w { queue = q } in
          W.closing_done key _
          ∙ ap V.closing (queue-sync key v)
          ∙ closing-queue_after (failure key v) key q
          ∙ W.closing_take key w.queue q taken

      -- A worker that was not at work is not at work after a turn.
      pub Idle-turn : Idle V w.queue → Idle V (turn E (sync E) key q w).queue
      unfolding turn
      Idle-turn idle j =
          let v = record w { queue = q } in
          W.busy_done key _ j
          ∙ ap (λ r. if key == j then false else V.busy r j) (queue-sync key v)
          ∙ ap (λ b. if key == j then false else b)
              (busy-queue_after (failure key v) key j q ∙ W.busy_take key w.queue q j taken)
          ∙ ground (arith, idle j)

-- ===== src/Controllers/Released.antt =====
-- From an event of the informer for a cluster that is being deleted to the server's object without the
-- finalizer: Enqueue and worker of util.go with sync of provisioner.go.
use kubecon.Prelude.{ℕ, String, ◌≡◌, ap, sym, ◌∙◌, false, Option, some}
use kubecon.Api.{Cluster}
use kubecon.Platform.{Platform, ok}
use kubecon.Platform.Laws.{IsConditionLibrary, KeepsClusters, FindsClusters}
use kubecon.Platform.WorkQueue.{QueueView, Idle, IsWorkQueue}
use kubecon.World.{World, Address}
use kubecon.TaskQueue.{enqueue, Enqueued, turn}
use kubecon.Provisioner.Steps.{AccessorWorks}
use kubecon.Provisioner.Retries.{Failed}
use kubecon.Provisioner.Applied.{failure-handle}
use kubecon.Provisioner.Remove.{awaits}
use kubecon.Provisioner.Free.{CanGo, handle-CanGo, sync-IsFree}
use kubecon.Provisioner.{controller_name, sync}
use kubecon.Controllers.Handled.{InStore, Handled, Handled-enqueue}

module _ (E : Platform) (works : AccessorWorks E) (L : IsConditionLibrary E) (key : String)
    (p : Address) (old : Cluster) (t : String) (leaving : old.metadata.deletion_timestamp ≡ some t)
    {view : E.Outside → String → Option Cluster} (K : KeepsClusters E view)
    (A : FindsClusters E view) {V : QueueView E} (W : IsWorkQueue E V) where
  -- The worker has handled the key, after at most `n` failures, and waits; the server holds no object
  -- under the cluster's name that awaits the finalizer.
  pub record LetGo (n : ℕ) (w : World E) : Type 0 where
    pub handled : Handled E L key p old W n w
    pub free :
        (c : Cluster)
        → view handled.after.outside old.metadata.name ≡ some c
        → awaits controller_name c ≡ false

  free_after :
      (n : ℕ) (w : World E) (h : Handled E L key p old W n w) (c : Cluster)
      → view h.after.outside old.metadata.name ≡ some c
      → awaits controller_name c ≡ false
  unfolding turn
  free_after n w h c seen =
      let s = h.succeeded in
      let u : World E = record (s.last) { queue = s.queue_left } in
      let outside = ap (λ (v : World E). v.outside) s.after in
      sync-IsFree E p u works K A t (h.there.kept.deletion_kept ∙ leaving) key h.there.in_store
        s.succeeded c
        (ap (view (sync E key u).1.outside) h.there.kept.name_kept
          ∙ ap (λ o. view o old.metadata.name) (sym outside)
          ∙ seen)

  -- Where an event of the informer enqueues an object while the queue is open and empty, and its store
  -- has an object under the same key that is being deleted: if, after `n` handlings that have failed,
  -- the server answers, `rke remove` ends without an error and the server accepts the object without
  -- the finalizer, then the worker has handled the key after at most `n` failures, and waits; and the
  -- server holds no object under the cluster's name that awaits the controller's finalizer.
  pub enqueue-LetGo :
      (n : ℕ) (c : Cluster) (w : World E)
      → E.key_of c ≡ ok key
      → V.closing w.queue ≡ false
      → Idle V w.queue
      → ((j : String) → V.dirty w.queue j ≡ false)
      → InStore E key p old w
      → ((v : World E) (q : E.Queue)
          → Failed E key n (enqueue E (Enqueued.object c) w).1 v
          → CanGo E p (record v { queue = q }))
      → LetGo n (enqueue E (Enqueued.object c) w).1
  enqueue-LetGo n c w k open_queue idle none_waits s well =
      let h = Handled-enqueue E L key p old W n c w k open_queue idle none_waits s (λ v q f i.
        let u : World E = record v { queue = q } in
        failure-handle E works L p u key i.in_store
        ∙ handle-CanGo E p u works t (i.kept.deletion_kept ∙ leaving) (well v q f)) in
      record { handled = h; free = free_after n (enqueue E (Enqueued.object c) w).1 h }

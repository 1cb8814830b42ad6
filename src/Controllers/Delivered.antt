-- ===== src/Controllers/Delivered.antt =====
-- From an event of the informer to the object that bears its file: Enqueue and worker of util.go with
-- sync of provisioner.go.
use kubecon.Prelude.{ℕ, String, ◌≡◌, ap, ◌∙◌, none, false, inr}
use kubecon.Api.{Cluster}
use kubecon.Platform.{Platform, ok}
use kubecon.Platform.Laws.{IsConditionLibrary}
use kubecon.Platform.WorkQueue.{QueueView, Idle, IsWorkQueue}
use kubecon.World.{World, Address}
use kubecon.TaskQueue.{enqueue, Enqueued}
use kubecon.Provisioner.Steps.{AccessorWorks}
use kubecon.Provisioner.Requeue.{failure}
use kubecon.Provisioner.Runs.{up_exit, handle_cluster_add_succeeds_iff}
use kubecon.Provisioner.Retries.{Failed}
use kubecon.Provisioner.Applied.{BearsFile, Succeeded-BearsFile, failure-handle, handle-add}
use kubecon.Provisioner.{get_config_str}
use kubecon.Controllers.Handled.{InStore, Handled, Handled-enqueue}

module _ (E : Platform) (works : AccessorWorks E) (L : IsConditionLibrary E) (p : Address)
    (w : World E) where
  -- The object's file can be read, and `rke up` ends without an error where it is called.
  pub record IsWell : Type 0 where
    pub config : String
    pub readable : get_config_str E (w.heap.cell p) w ≡ ok config
    pub comes_up : up_exit E works L p w ≡ none

module _ (E : Platform) (works : AccessorWorks E) (L : IsConditionLibrary E) (key : String)
    (p : Address) (old : Cluster) (alive : old.metadata.deletion_timestamp ≡ none) where
  -- Handling the object succeeds where it is well.
  failure-IsWell :
      (w : World E) → InStore E key p old w → IsWell E works L p w → failure E key w ≡ none
  failure-IsWell w s g =
      failure-handle E works L p w key s.in_store
      ∙ ap (λ r. r.0) (handle-add E works L p w (s.kept.deletion_kept ∙ alive))
      ∙ (handle_cluster_add_succeeds_iff E works L p w g.config g.readable).1 (inr g.comes_up)

  module _ {V : QueueView E} (W : IsWorkQueue E V) where
    -- The worker has handled the key, after at most `n` failures, and waits; the object bears the
    -- content of its file as it was when it was handled last.
    pub record Served (n : ℕ) (w : World E) : Type 0 where
      pub handled : Handled E L key p old W n w
      pub bears :
          BearsFile E works L p
            (record (handled.succeeded.last) { queue = handled.succeeded.queue_left })
            handled.after

    -- Where an event of the informer enqueues an object while the queue is open and empty, and its store
    -- has an object under the same key that is not being deleted: if, after `n` handlings that have
    -- failed, that object's file can be read and `rke up` ends without an error, then the worker has
    -- handled the key after at most `n` failures, and waits; and the object bears the content of its
    -- file as it was when it was handled last, as its applied configuration.
    pub enqueue-Served :
        (n : ℕ) (c : Cluster) (w : World E)
        → E.key_of c ≡ ok key
        → V.closing w.queue ≡ false
        → Idle V w.queue
        → ((j : String) → V.dirty w.queue j ≡ false)
        → InStore E key p old w
        → ((v : World E) (q : E.Queue)
            → Failed E key n (enqueue E (Enqueued.object c) w).1 v
            → IsWell E works L p (record v { queue = q }))
        → Served n (enqueue E (Enqueued.object c) w).1
    enqueue-Served n c w k open_queue idle none_waits s well =
        let h =
          Handled-enqueue E L key p old W n c w k open_queue idle none_waits s
            (λ v q f t. failure-IsWell (record v { queue = q }) t (well v q f)) in
        record {
          handled = h;
          bears =
              Succeeded-BearsFile E works L h.succeeded p h.there.in_store
                (h.there.kept.deletion_kept ∙ alive);
        }

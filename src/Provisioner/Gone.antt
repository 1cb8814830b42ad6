-- ===== src/Provisioner/Gone.antt =====
-- sync of provisioner.go and worker of util.go, for a key whose object has left the informer's store.
use mathlib.Core.Path.{subst}
use kubecon.Prelude.{ℕ, zero, suc, String, ◌≡◌, refl, ap, sym, ◌∙◌, some}
use kubecon.Platform.{Platform, err}
use kubecon.Platform.WorkQueue.{QueueView, IsWorkQueue}
use kubecon.World.{World, missing}
use kubecon.Client.Lister
use kubecon.TaskQueue.{busy, turn, worker, requeue}
use kubecon.TaskQueue.Laws.{worker-turn}
use kubecon.Provisioner.Requeue.{failure}
use kubecon.Provisioner.Retries.{OnlyKey, key_taken, OnlyKey-turn}
use kubecon.Provisioner.{sync}

module _ (E : Platform) (key : String) where
  get-missing :
      (w : World E)
      → w.indexer key ≡ missing
      → Lister.get E w.indexer key ≡ err (E.new_not_found "cluster" key)
  unfolding Lister.get
  get-missing w h = rw (h, Lister.get) refl

  -- a turn for the key moves it through the queue, and does no more
  turn-gone :
      (q : E.Queue) (w : World E)
      → w.indexer key ≡ missing
      → turn E (sync E) key q w ≡ record w { queue = E.done key (E.add key q) }
  unfolding turn sync requeue
  turn-gone q w h = rw (get-missing w h, sync) refl

  fails-gone :
      (w : World E)
      → w.indexer key ≡ missing
      → failure E key w ≡ some (E.new_not_found "cluster" key)
  fails-gone w h = rw (get-missing w h, failure) refl

  module _ {V : QueueView E} (W : IsWorkQueue E V) where
    -- The key alone waits, and but for the queue nothing has changed.
    pub record Spinning (w v : World E) : Type 0 where
      pub waits : OnlyKey E key W v.queue
      pub unchanged : v ≡ record w { queue = v.queue }

    -- A key that alone waits in an open queue, and whose object the informer's store no longer has, keeps
    -- the worker busy for good: however many items it handles, it has not come to wait, the key is
    -- to be handled again, and but for the queue nothing has changed.
    pub gone_key_spins :
        (n : ℕ) (w : World E)
        → OnlyKey E key W w.queue
        → w.indexer key ≡ missing
        → (worker E (sync E) n w).0 ≡ busy × Spinning w (worker E (sync E) n w).1
    unfolding worker
    gone_key_spins zero w o h = (refl, record { waits = o; unchanged = refl })
    gone_key_spins (suc n) w o h =
        let (q, taken) = key_taken E key W w o in
        let next = turn-gone q w h in
        let (s, g) =
          gone_key_spins n (turn E (sync E) key q w)
            (OnlyKey-turn E key W w o q taken _ (fails-gone (record w { queue = q }) h))
            (ap (λ (v : World E). v.indexer key) next ∙ h) in
        subst (λ x. (x.0 ≡ busy) × Spinning w x.1) (sym (worker-turn E (sync E) n w key q taken))
          (
            s,
            record {
              waits = g.waits;
              unchanged =
                  g.unchanged
                  ∙ ap
                      (λ (u : World E). record u {
                        queue = (worker E (sync E) n (turn E (sync E) key q w)).1.queue;
                      })
                      next;
            },
          )

-- ===== src/Provisioner/Frame.antt =====
-- provisioner.go: the handlers leave the queue and the informer's store as they are; sync puts a key into the
-- queue at most.
use kubecon.Prelude.{String, ◌≡◌, arith}
use kubecon.Api.{Cluster}
use kubecon.Platform.{Platform}
use kubecon.World.{World, Address, frame}
use kubecon.TaskQueue.{requeue, turn}
use kubecon.Provisioner.Command.{provision_cluster, remove_cluster}
use kubecon.Provisioner.Command.Laws.{frame-execute_command}
use kubecon.Provisioner.Finalizers.{initialize, clean_up, finalize}
use kubecon.Provisioner.{
  provision, record_config, update_applied_config, handle_cluster_add, handle_cluster_remove,
  handle, sync,
}

module _ (E : Platform) where
  frame-initialize :
      (p : Address) (key : String) (w : World E) → frame E (initialize E p key w).1 ≡ frame E w
  unfolding initialize
  frame-initialize p key w = ground arith

  frame-provision_cluster :
      (c : Cluster) (w : World E) → frame E (provision_cluster E c w).1 ≡ frame E w
  unfolding provision_cluster
  frame-provision_cluster c w = frame-execute_command E _ _ w

  frame-remove_cluster : (c : Cluster) (w : World E) → frame E (remove_cluster E c w).1 ≡ frame E w
  unfolding remove_cluster
  frame-remove_cluster c w = frame-execute_command E _ _ w

  frame-clean_up :
      (p : Address) (x : Cluster) (key : String) (w : World E)
      → frame E (clean_up E p x key w).1 ≡ frame E w
  unfolding clean_up
  frame-clean_up p x key w = ground (arith, frame-remove_cluster (w.heap.cell p) w)

  frame-finalize :
      (p : Address) (key : String) (w : World E) → frame E (finalize E p key w).1 ≡ frame E w
  unfolding finalize
  frame-finalize p key w = grind (arith, frame-clean_up)

  frame-provision :
      (p : Address) (config : String) (w : World E) → frame E (provision E p config w).1 ≡ frame E w
  unfolding provision record_config update_applied_config
  frame-provision p config w = grind (arith, frame-initialize, frame-provision_cluster)

  pub frame-handle : (p : Address) (w : World E) → frame E (handle E p w).1 ≡ frame E w
  unfolding handle handle_cluster_add handle_cluster_remove
  frame-handle p w = grind (arith, frame-finalize, frame-provision)

  indexer-sync : (key : String) (w : World E) → (sync E key w).1.indexer ≡ w.indexer
  unfolding sync requeue
  indexer-sync key w = grind (arith, frame-handle)

  pub indexer-turn :
      (key : String) (q : E.Queue) (w : World E) → (turn E (sync E) key q w).indexer ≡ w.indexer
  unfolding turn
  indexer-turn key q w = indexer-sync key (record w { queue = q })

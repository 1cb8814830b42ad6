-- ===== src/Controllers/Runs.antt =====
-- The four controllers side by side: any sequence of their handlers' runs, with what else happens
-- between them.
use kubecon.Prelude.{String, refl, ◌==◌, if◌then◌else◌}
use kubecon.Api.{Cluster}
use kubecon.Platform.{Platform}
use kubecon.Platform.Laws.{IsConditionLibrary}
use kubecon.World.{World, Address, present, missing, alloc_cell}
use kubecon.World.Keeps.{Keeps, Keeps-same, Keeps-trans, Keeps-alloc}
use kubecon.TaskQueue.{Enqueued, enqueue}
use kubecon.Provisioner.{
  controller_name, provision, record_config, update_applied_config, handle_cluster_add,
  handle_cluster_remove, handle, get_config_str,
}
use kubecon.Provisioner
use kubecon.Healthchecker.{handle_cluster_update}
use kubecon.Annotator.{update_annotation}
use kubecon.ConfigGenerator.{update_config}
use kubecon.Controllers.Keeps.{heap-config, Keeps-annotator, Keeps-health, Keeps-sync, heap-enqueue}

-- The informer takes what is under a key out of its store; the object stays in the heap.
abbrev pub forgotten : {E : Platform} → String → World E → World E
forgotten key w = record w { indexer = λ k. if key == k then missing else w.indexer k }

-- A step: one run of a controller's handler, a key or an object that comes to the queue, an object
-- that the informer puts into its store or takes out of it, or a change of the world outside.
pub data Step (E : Platform) : World E → World E → Type 0 where
  provision_key : (key : String) (w : World E) → Step E w (Provisioner.sync E key w).1
  check_health :
      (obj updated : Address) (w : World E) → Step E w (handle_cluster_update E obj updated w).1
  annotate_cluster :
      (obj updated : Address) (w : World E) → Step E w (update_annotation E obj updated w).1
  generate_config :
      (obj updated : Address) (w : World E) → Step E w (update_config E obj updated w).1
  enqueue_item : (x : Enqueued) (w : World E) → Step E w (enqueue E x w).1
  observe :
      (key : String) (c : Cluster) (w : World E)
      → Step E w (record w {
        heap = alloc_cell c w.heap;
        indexer = λ k. if key == k then present w.heap.next else w.indexer k;
      })
  forget : (key : String) (w : World E) → Step E w (forgotten key w)
  elsewhere : (o : E.Outside) (w : World E) → Step E w (record w { outside = o })

pub data Reached (E : Platform) (w : World E) : World E → Type 0 where
  start : Reached E w w
  next : {v u : World E} → Reached E w v → Step E v u → Reached E w u

module _ (E : Platform) (L : IsConditionLibrary E) where
  Keeps-Step : {w v : World E} → Step E w v → Keeps w.heap v.heap
  unfolding handle_cluster_update update_annotation update_config
  Keeps-Step (provision_key k w) = Keeps-sync E L k w
  Keeps-Step (check_health obj updated w) = Keeps-health E L updated w
  Keeps-Step (annotate_cluster obj updated w) = Keeps-annotator E obj w
  Keeps-Step (generate_config obj updated w) = Keeps-same (heap-config E obj w)
  Keeps-Step (enqueue_item x w) = Keeps-same (heap-enqueue E L x w)
  Keeps-Step (observe k c w) = Keeps-alloc c w.heap
  Keeps-Step (forget k w) = Keeps-same refl
  Keeps-Step (elsewhere o w) = Keeps-same refl

  pub Keeps-reached : {w v : World E} → Reached E w v → Keeps w.heap v.heap
  Keeps-reached start = Keeps-same refl
  Keeps-reached (next before step) = Keeps-trans (Keeps-reached before) (Keeps-Step step)

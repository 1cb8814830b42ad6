-- ===== src/Concurrent/SafeProvisioner.antt =====
-- The steps of the provisioner.
use mathlib.Core.Path.{subst}
use kubecon.Prelude.{
  List, String, Bool, true, false, ◌≡◌, refl, sym, Option, none, some, Option-cases, Bool-cases,
  inl, inr, arith, ◌∷◌, [],
}
use kubecon.Api.{Cluster, provisioned}
use kubecon.Platform.{Platform, Result, ok, err}
use kubecon.Platform.Laws.{IsConditionLibrary}
use kubecon.Platform.Shared.{Replacement, SharesServer}
use kubecon.World.{World, Address}
use kubecon.World.Keeps.{Kept-same, Keeps, Keeps-same, Keeps-by, Keeps-write}
use kubecon.TaskQueue.{requeue}
use kubecon.Provisioner.{controller_name}
use kubecon.Provisioner.Command.{rke, provision_cluster}
use kubecon.Provisioner.Finalizers.{contains_string}
use kubecon.Controllers.Keeps.{Kept-finalizer}
use kubecon.Controllers.Meanwhile.{Faithful, Faithful-same}
use kubecon.Concurrent.{Task, ended, bind, update_loop, do_condition_task}
use kubecon.Concurrent.Provisioning.{
  Found, broken, present, added, add_finalizer, initialized_task, initialize_task, up_task,
  record_task, bring_up_task, provision_task, configure_task, add_task, finalize_task,
  dispatch_task, handle_task, requeue_task, look_up_task, sync_task,
}
use kubecon.Concurrent.Safe.{
  Later-trans, Later-store, Own, Own-Later, Safe, Safe-bind, StepSafe, StepSafe-by,
  Safe-update_loop, Safe-do_condition,
}
use kubecon.Concurrent.SafeHandlers.{StepSafe-read}
use kubecon.Concurrent.SafeFinalizer.{StepSafe-command, Safe-fail, Safe-finalize, Safe-removed}

module _ (E : Platform) {logged : E.Outside → String → String → Option Cluster}
    {writes : E.Outside → List Replacement} (V : SharesServer E logged writes) where
  StepSafe-up :
      (p : Address) (v : World E) → StepSafe E V (λ w. provision_cluster E (w.heap.cell p) w) v
  unfolding provision_cluster
  StepSafe-up p v =
      let s =
        StepSafe-command E V rke ("up" ∷ "--config" ∷ (v.heap.cell p).spec.config_path ∷ []) v in
      record { later = s.later; indexer_kept = s.indexer_kept }

  -- the task that sends an object
  abbrev sending : Address → Task E (Option E.Error)
  sending p = bind (update_loop E 3 p none) (λ _. ended none)

  Safe-sending : (p : Address) (w : World E) → Own E V p w → Safe E V (sending p) w
  Safe-sending p w o =
      Safe-bind E V (update_loop E 3 p none) (λ _. ended none) w (Safe-update_loop E V 3 p none w o)
        (λ a v l. tt)

  module _ (p : Address) (key : String) (v : World E) where
    outside-add_finalizer : (add_finalizer E p key v).1.outside ≡ v.outside
    unfolding add_finalizer
    outside-add_finalizer = ground arith

    indexer-add_finalizer : (add_finalizer E p key v).1.indexer ≡ v.indexer
    unfolding add_finalizer
    indexer-add_finalizer = ground arith

    Keeps-add_finalizer : Keeps v.heap (add_finalizer E p key v).1.heap
    unfolding add_finalizer
    Keeps-add_finalizer = elim (Option-cases (E.accessor_error (v.heap.cell p))) [
      | inr (e, h) ↦ Keeps-same (ground arith)
      | inl h ↦ elim (Bool-cases (contains_string (v.heap.cell p).metadata.finalizers key)) [
        | inl b ↦ Keeps-same (ground arith)
        | inr b ↦
            Keeps-by (ground arith) (Keeps-write p _ v.heap (Kept-finalizer key (v.heap.cell p)))
      ]
    ]

    StepSafe-add_finalizer : StepSafe E V (add_finalizer E p key) v
    StepSafe-add_finalizer = record {
      later = record {
        heap_kept = Keeps-add_finalizer;
        faithful =
            subst (λ o. Faithful E V v.outside o) (sym outside-add_finalizer)
              (Faithful-same E V v.outside);
      };
      indexer_kept = indexer-add_finalizer;
    }

  Safe-initialized :
      (p : Address) (f : Found E) (w : World E) → Own E V p w → Safe E V (initialized_task E p f) w
  unfolding initialized_task
  Safe-initialized p (broken e) w o = tt
  Safe-initialized p present w o = tt
  Safe-initialized p added w o = Safe-sending p w o

  Safe-initialize :
      (p : Address) (key : String) (w : World E)
      → Own E V p w
      → Safe E V (initialize_task E p key) w
  Safe-initialize p key w o = λ v l owned.
      let s = StepSafe-add_finalizer p key v in
      (s, Safe-initialized p _ _ (Own-Later E V (Own-Later E V o l) s.later))

  Safe-record :
      (p : Address) (config : String) (e : Option E.Error) (w : World E)
      → Own E V p w
      → Safe E V (record_task E p config e) w
  unfolding record_task
  Safe-record p config (some x) w o = Safe-fail E V _ p x w
  Safe-record p config none w o = λ v l owned.
      let wrote = Later-store E V p _ v (Kept-same _ _ refl refl) in
      (
        record { later = wrote; indexer_kept = refl },
        Safe-sending p _ (Own-Later E V o (Later-trans E V l wrote)),
      )

  module _ (L : IsConditionLibrary E) where
    Safe-bring_up :
        (p : Address) (config : String) (e : Option E.Error) (w : World E)
        → Own E V p w
        → Safe E V (bring_up_task E p config e) w
    unfolding bring_up_task
    Safe-bring_up p config (some x) w o = Safe-fail E V _ p x w
    Safe-bring_up p config none w o =
        Safe-bind E V (do_condition_task E provisioned p (up_task E p)) _ w
          (Safe-do_condition E V L provisioned p (up_task E p) w
            (λ v l u g owned. (StepSafe-up p u, tt)))
          (λ e v l. Safe-record p config e v (Own-Later E V o l))

    Safe-provision :
        (p : Address) (config : String) (same : Bool) (w : World E)
        → Own E V p w
        → Safe E V (provision_task E p config same) w
    unfolding provision_task
    Safe-provision p config true w o = tt
    Safe-provision p config false w o =
        Safe-bind E V (initialize_task E p controller_name) _ w
          (Safe-initialize p controller_name w o)
          (λ e v l. Safe-bring_up p config e v (Own-Later E V o l))

    Safe-configure :
        (p : Address) (r : Result E.Error String) (w : World E)
        → Own E V p w
        → Safe E V (configure_task E p r) w
    unfolding configure_task
    Safe-configure p (err e) w o = tt
    Safe-configure p (ok config) w o =
        λ v l owned. (StepSafe-read E V _ v, Safe-provision p config _ v (Own-Later E V o l))

    Safe-add : (p : Address) (w : World E) → Own E V p w → Safe E V (add_task E p) w
    Safe-add p w o = λ v l owned. (StepSafe-read E V _ v, Safe-configure p _ v (Own-Later E V o l))

  Safe-requeue :
      (key : String) (e : Option E.Error) (w : World E) → Safe E V (requeue_task E key e) w
  unfolding requeue_task requeue
  Safe-requeue key (some e) w =
      λ v l owned. (StepSafe-by E V refl (Faithful-same E V v.outside) refl, tt)
  Safe-requeue key none w = tt

  module _ (L : IsConditionLibrary E) where
    Safe-dispatch :
        (p : Address) (t : Option String) (w : World E)
        → Own E V p w
        → Safe E V (dispatch_task E p t) w
    unfolding dispatch_task
    Safe-dispatch p (some t) w o =
        Safe-bind E V (finalize_task E p controller_name) _ w
          (Safe-finalize E V p controller_name w) (λ e v l. Safe-removed E V p e v)
    Safe-dispatch p none w o = Safe-add L p w o

    Safe-handle : (p : Address) (w : World E) → Own E V p w → Safe E V (handle_task E p) w
    Safe-handle p w o =
        λ v l owned. (StepSafe-read E V _ v, Safe-dispatch p _ v (Own-Later E V o l))

    Safe-look_up :
        (key : String) (r : Result E.Error Address) (w : World E)
        → ((p : Address) → r ≡ ok p → Own E V p w)
        → Safe E V (look_up_task E key r) w
    unfolding look_up_task
    Safe-look_up key (err e) w o = Safe-requeue key (some e) w
    Safe-look_up key (ok p) w o =
        Safe-bind E V (handle_task E p) _ w (Safe-handle p w (o p refl))
          (λ e v l. Safe-requeue key e v)

    pub Safe-sync : (key : String) (w : World E) → Safe E V (sync_task E key) w
    unfolding sync_task
    Safe-sync key w = λ v l owned. (StepSafe-read E V _ v, Safe-look_up key _ v (owned key))

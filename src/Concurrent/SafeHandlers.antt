-- ===== src/Concurrent/SafeHandlers.antt =====
-- The steps of the health checker, the annotator and the config generator.
use mathlib.Core.Path.{subst}
use kubecon.Prelude.{List, String, Bool, true, false, ◌≡◌, refl, ap, sym, ◌∙◌, Option, none, arith}
use kubecon.Api.{Cluster, Kubeconfig, ready}
use kubecon.Platform.{Platform, Result, ok, err, error_of}
use kubecon.Platform.Laws.{IsConditionLibrary}
use kubecon.Platform.Shared.{Replacement, SharesServer}
use kubecon.Client.Clientset.{new_for_config, ConfigOf, Clientset}
use kubecon.World.{World, Address, Heap, outside, alloc_cell, write_cell}
use kubecon.World.Laws.{same_address_self, cell-write_cell}
use kubecon.World.Keeps.{Keeps-scratch}
use kubecon.Annotator.{annotate, version_or_empty}
use kubecon.Controllers.Backed.{Backed}
use kubecon.Controllers.Meanwhile.{Faithful-same, Faithful-quiet}
use kubecon.Concurrent.{ended, bind, update_loop, do_condition_task}
use kubecon.Concurrent.Handlers.{
  read_version_task, configured, dialled, validate_task, validated, check_task, health_task,
  get_version_task, asked_version, put_version_task, write_version_task, compare_task, refresh_task,
  annotator_task, create_task, move_task, write_config_task, reconcile_task, config_task,
}
use kubecon.Concurrent.Safe.{
  Own, Own-Later, Safe, Safe-bind, StepSafe, StepSafe-by, Safe-update_loop, Safe-do_condition,
}

module _ (E : Platform) {logged : E.Outside → String → String → Option Cluster}
    {writes : E.Outside → List Replacement} (V : SharesServer E logged writes) where
  -- a step that only reads
  pub StepSafe-read : {A : Type 0} (f : World E → A) (v : World E) → StepSafe E V (λ w. (f w, w)) v
  StepSafe-read f v = StepSafe-by E V refl (Faithful-same E V v.outside) refl

  StepSafe-ask :
      (p : Address) (v : World E)
      → StepSafe E V (λ w. outside E (E.kubeconfigs.get (w.heap.cell p).metadata.name) w) v
  StepSafe-ask p v =
      let n = (v.heap.cell p).metadata.name in
      StepSafe-by E V refl
        (Faithful-quiet E V (V.grows.get_kubeconfig_grows n v.outside)
          (V.get_kubeconfig_writes n v.outside) (Faithful-same E V v.outside))
        refl

  Safe-dialled : (r : Result E.Error (Clientset E.rest)) (w : World E) → Safe E V (dialled E r) w
  unfolding dialled
  Safe-dialled (err e) w = tt
  Safe-dialled (ok client) w = λ v l owned. (
    StepSafe-by E V refl
        (Faithful-quiet E V (V.grows.server_version_grows client.discovery v.outside)
          (V.server_version_writes client.discovery v.outside) (Faithful-same E V v.outside))
        refl,
    tt,
  )

  Safe-configured :
      (r : Result E.Error (ConfigOf E.rest)) (w : World E) → Safe E V (configured E r) w
  unfolding configured
  Safe-configured (err e) w = tt
  Safe-configured (ok c) w = Safe-dialled (new_for_config E.rest c) w

  Safe-read_version : (path : String) (w : World E) → Safe E V (read_version_task E path) w
  unfolding read_version_task
  Safe-read_version path w = λ v l owned. (StepSafe-read _ v, Safe-configured _ v)

  Safe-validated : (r : Result E.Error Kubeconfig) (w : World E) → Safe E V (validated E r) w
  unfolding validated
  Safe-validated (err e) w = tt
  Safe-validated (ok k) w =
      Safe-bind E V (read_version_task E k.spec.config_path) (λ v. ended (error_of v)) w
        (Safe-read_version k.spec.config_path w) (λ a v l. tt)

  Safe-validate : (p : Address) (w : World E) → Safe E V (validate_task E p) w
  unfolding validate_task
  Safe-validate p w = λ v l owned. (StepSafe-ask p v, Safe-validated _ _)

  -- the end of a handler that writes an object of its own
  Safe-ending :
      (p : Address) (w : World E)
      → Own E V p w
      → Safe E V (bind (update_loop E 3 p none) (λ _. ended tt)) w
  Safe-ending p w o =
      Safe-bind E V (update_loop E 3 p none) (λ _. ended tt) w (Safe-update_loop E V 3 p none w o)
        (λ a v l. tt)

  Safe-check :
      IsConditionLibrary E
      → (p : Address) (on : Bool) (w : World E) → Own E V p w
      → Safe E V (check_task E p on) w
  unfolding check_task
  Safe-check L p false w o = tt
  Safe-check L p true w o =
      Safe-bind E V (do_condition_task E ready p (validate_task E p)) _ w
        (Safe-do_condition E V L ready p (validate_task E p) w (λ v l. Safe-validate p v))
        (λ a v l. Safe-ending p v (Own-Later E V o l))

  pub Safe-health :
      IsConditionLibrary E
      → (p : Address) (w : World E) → Own E V p w
      → Safe E V (health_task E p) w
  unfolding health_task
  Safe-health L p w o = λ v l owned. (StepSafe-read _ v, Safe-check L p _ v (Own-Later E V o l))

  Safe-asked_version :
      (r : Result E.Error Kubeconfig) (w : World E) → Safe E V (asked_version E r) w
  unfolding asked_version
  Safe-asked_version (err e) w = tt
  Safe-asked_version (ok k) w = Safe-read_version k.spec.config_path w

  Safe-get_version : (p : Address) (w : World E) → Safe E V (get_version_task E p) w
  unfolding get_version_task
  Safe-get_version p w = λ v l owned. (StepSafe-ask p v, Safe-asked_version _ _)

  -- the copy that the annotator makes is of an object that the server has held
  module _ (p : Address) (version : String) (v : World E) where
    abbrev copied_heap : Heap
    copied_heap =
        write_cell v.heap.next
          (annotate version ((alloc_cell (v.heap.cell p) v.heap).cell v.heap.next))
          (alloc_cell (v.heap.cell p) v.heap)

    copied_cell : copied_heap.cell v.heap.next ≡ annotate version (v.heap.cell p)
    copied_cell =
        cell-write_cell v.heap.next _ (alloc_cell (v.heap.cell p) v.heap)
        ∙ ap (annotate version) (rw (same_address_self v.heap.next) refl)

    Own-copy : Own E V p v → Own E V v.heap.next (record v { heap = copied_heap })
    unfolding annotate
    Own-copy o =
        let b = o.backed in
        let copied : Backed E logged v.outside (annotate version (v.heap.cell p)) = record {
          original = b.original;
          was_held = b.was_held;
          same_core = b.same_core;
        } in
        record {
          allocated = omega arith;
          backed = subst (λ c. Backed E logged v.outside c) (sym copied_cell) copied;
        }

  Safe-put_version :
      (p : Address) (version : String) (w : World E)
      → Own E V p w
      → Safe E V (put_version_task E p version) w
  unfolding put_version_task
  Safe-put_version p version w o = λ v l owned. (
    record {
      later = record {
        heap_kept = Keeps-scratch _ _ v.heap;
        faithful = Faithful-same E V v.outside;
      };
      indexer_kept = refl;
    },
    Safe-ending v.heap.next _ (Own-copy p version v (Own-Later E V o l)),
  )

  Safe-write_version :
      (p : Address) (version : String) (same : Bool) (w : World E)
      → Own E V p w
      → Safe E V (write_version_task E p version same) w
  unfolding write_version_task
  Safe-write_version p version true w o = tt
  Safe-write_version p version false w o = Safe-put_version p version w o

  Safe-compare :
      (p : Address) (r : Result E.Error String) (w : World E)
      → Own E V p w
      → Safe E V (compare_task E p r) w
  unfolding compare_task
  Safe-compare p r w o = λ v l owned.
      (StepSafe-read _ v, Safe-write_version p (version_or_empty E r) _ v (Own-Later E V o l))

  Safe-refresh :
      (p : Address) (due : Bool) (w : World E) → Own E V p w → Safe E V (refresh_task E p due) w
  unfolding refresh_task
  Safe-refresh p false w o = tt
  Safe-refresh p true w o =
      Safe-bind E V (get_version_task E p) (λ r. compare_task E p r) w (Safe-get_version p w)
        (λ r v l. Safe-compare p r v (Own-Later E V o l))

  pub Safe-annotator : (p : Address) (w : World E) → Own E V p w → Safe E V (annotator_task E p) w
  unfolding annotator_task
  Safe-annotator p w o = λ v l owned. (StepSafe-read _ v, Safe-refresh p _ v (Own-Later E V o l))

  Safe-create : (c : Cluster) (on : Bool) (w : World E) → Safe E V (create_task E c on) w
  unfolding create_task
  Safe-create c false w = tt
  Safe-create c true w = λ v l owned. (
    StepSafe-by E V refl
        (Faithful-quiet E V (V.grows.create_kubeconfig_grows _ v.outside)
          (V.create_kubeconfig_writes _ v.outside) (Faithful-same E V v.outside))
        refl,
    tt,
  )

  Safe-move :
      (k : Kubeconfig) (path : String) (same : Bool) (w : World E)
      → Safe E V (move_task E k path same) w
  unfolding move_task
  Safe-move k path true w = tt
  Safe-move k path false w = λ v l owned. (
    StepSafe-by E V refl
        (Faithful-quiet E V (V.grows.update_kubeconfig_grows _ v.outside)
          (V.update_kubeconfig_writes _ v.outside) (Faithful-same E V v.outside))
        refl,
    tt,
  )

  Safe-write_config :
      (r : Result E.Error Kubeconfig) (c : Cluster) (w : World E)
      → Safe E V (write_config_task E r c) w
  unfolding write_config_task
  Safe-write_config (err e) c w = Safe-create c _ w
  Safe-write_config (ok k) c w = Safe-move k _ _ w

  Safe-reconcile : (p : Address) (due : Bool) (w : World E) → Safe E V (reconcile_task E p due) w
  unfolding reconcile_task
  Safe-reconcile p false w = tt
  Safe-reconcile p true w =
      λ v l owned. (StepSafe-ask p v, λ u g owned_u. (StepSafe-read _ u, Safe-write_config _ _ u))

  pub Safe-config : (p : Address) (w : World E) → Safe E V (config_task E p) w
  unfolding config_task
  Safe-config p w = λ v l owned. (StepSafe-read _ v, Safe-reconcile p _ v)

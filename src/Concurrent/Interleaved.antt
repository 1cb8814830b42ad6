-- ===== src/Concurrent/Interleaved.antt =====
-- The handlers of all four controllers at work at the same time, each by its steps, on the objects of the
-- informer's store.
use mathlib.Core.List.{Memᴰ}
use kubecon.Prelude.{String, ◌≡◌, some, List, [], ◌∷◌, ◌++◌, ◌==◌, if◌then◌else◌, Option}
use kubecon.Api.{Cluster}
use kubecon.Platform.{Platform}
use kubecon.Platform.Shared.{LogKept, Replacement}
use kubecon.World.{World, M, Address, alloc_cell, missing, present}
use kubecon.Controllers.Runs.{forgotten}
use kubecon.Concurrent.{Task, step}
use kubecon.Concurrent.Handlers.{health_task, annotator_task, config_task}
use kubecon.Concurrent.Provisioning.{sync_task}

-- the informer puts an object into its store under a key
abbrev pub delivered : {E : Platform} → String → Cluster → World E → World E
delivered key c w = record w {
  heap = alloc_cell c w.heap;
  indexer = λ k. if key == k then present w.heap.next else w.indexer k;
}

module _ (E : Platform) (logged : E.Outside → String → String → Option Cluster)
    (writes : E.Outside → List Replacement) where
  -- A course of the process, seen from one of its states on, with the objects that the informer has delivered
  -- and the handlers that are at work. A handler starts on a key or on what has been delivered; any of those
  -- at work takes its next step; the informer takes an object out of its store; the queue changes, and other clients write to the server.
  pub data Interleaved : World E → World E → List Address → List (Task E (Unit {0})) → Type 1 where
    start : (w0 : World E) → ((key : String) → w0.indexer key ≡ missing) → Interleaved w0 w0 [] []
    from_here :
        {w0 w : World E} {l : List Address} {ts : List (Task E (Unit {0}))}
        → Interleaved w0 w l ts
        → Interleaved w w l ts
    observe :
        {w0 w : World E} {l : List Address} {ts : List (Task E (Unit {0}))} (key : String)
        (c : Cluster)
        → Interleaved w0 w l ts
        → logged w.outside c.metadata.name c.metadata.resource_version ≡ some c
        → Interleaved w0 (delivered key c w) (w.heap.next ∷ l) ts
    forget :
        {w0 w : World E} {l : List Address} {ts : List (Task E (Unit {0}))} (key : String)
        → Interleaved w0 w l ts
        → Interleaved w0 (forgotten key w) l ts
    provision_key :
        {w0 w : World E} {l : List Address} {ts : List (Task E (Unit {0}))} (key : String)
        → Interleaved w0 w l ts
        → Interleaved w0 w l (sync_task E key ∷ ts)
    check_health :
        {w0 w : World E} {l : List Address} {ts : List (Task E (Unit {0}))} (updated : Address)
        → Interleaved w0 w l ts
        → Memᴰ updated l
        → Interleaved w0 w l (health_task E updated ∷ ts)
    annotate_cluster :
        {w0 w : World E} {l : List Address} {ts : List (Task E (Unit {0}))} (obj : Address)
        → Interleaved w0 w l ts
        → Memᴰ obj l
        → Interleaved w0 w l (annotator_task E obj ∷ ts)
    generate_config :
        {w0 w : World E} {l : List Address} {ts : List (Task E (Unit {0}))} (obj : Address)
        → Interleaved w0 w l ts
        → Memᴰ obj l
        → Interleaved w0 w l (config_task E obj ∷ ts)
    advance :
        {w0 w : World E} {l : List Address} {A : Type 0} (m : M E A) (k : A → Task E (Unit {0}))
        (before after : List (Task E (Unit {0})))
        → Interleaved w0 w l (before ++ (step m k ∷ after))
        → Interleaved w0 (m w).1 l (before ++ (k (m w).0 ∷ after))
    queue_moves :
        {w0 w : World E} {l : List Address} {ts : List (Task E (Unit {0}))} (q : E.Queue)
        → Interleaved w0 w l ts
        → Interleaved w0 (record w { queue = q }) l ts
    elsewhere :
        {w0 w : World E} {l : List Address} {ts : List (Task E (Unit {0}))} (o : E.Outside)
        → Interleaved w0 w l ts
        → LogKept logged w.outside o
        → writes o ≡ writes w.outside
        → Interleaved w0 (record w { outside = o }) l ts

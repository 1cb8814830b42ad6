-- ===== src/World/Laws.antt =====
-- Reads after writes of the heap, and the effect of `Do` on its object.
use kubecon.Prelude.{◌≡◌, true, Option, arith, same_address}
use kubecon.Api.{Cluster, Cond}
use kubecon.Platform.{Platform}
use kubecon.World.{World, M, Address, Heap, write_cell, do_condition}

pub same_address_self : (p : Address) → same_address p p ≡ true
same_address_self p = ground arith

pub cell-write_cell : (p : Address) (c : Cluster) (h : Heap) → (write_cell p c h).cell p ≡ c
cell-write_cell p c h = rw same_address_self

module _ (E : Platform) (c : Cond) (p : Address) (f : M E (Option E.Error)) (w : World E) where
  -- The world in which the function of `Do` starts.
  abbrev pub before_call : World E
  before_call = record w { heap = write_cell p (E.starting c (w.heap.cell p)) w.heap }

  -- Where the function leaves the heap alone, the object is that which `Do` makes of it.
  pub cell-do_condition :
      (f before_call).1.heap ≡ before_call.heap
      → (do_condition E c p f w).1.heap.cell p
        ≡ E.finished c (w.heap.cell p) (E.starting c (w.heap.cell p)) (f before_call).0
  cell-do_condition h = rw (same_address_self p) (rw h (rw (same_address_self p)))

-- ===== src/Controllers/Backed.antt =====
-- The objects that the informer delivers, by what the API server has held: each keeps the core of the
-- version that it bears, as the log of versions grows.
use mathlib.Core.List.Memᴰ
use mathlib.Core.List.{Memᴰ}
use mathlib.Core.Path.{ap₂, subst}
use kubecon.Prelude.{
  String, ◌≡◌, ◌<◌, ◌⊎◌, inl, inr, refl, sym, ◌∙◌, Option, some, List, ◌∷◌, ◌==◌, if◌then◌else◌,
  arith,
}
use kubecon.Api.{Cluster}
use kubecon.Platform.{Platform}
use kubecon.Platform.Shared.{LogKept}
use kubecon.World.{World, Address, Heap, alloc_cell, present}
use kubecon.World.Laws.{same_address_self}
use kubecon.World.Keeps.{Kept, Keeps, Keeps-alloc}
use kubecon.Controllers.Sends.{core}

core-Kept : {c c' : Cluster} → Kept c c' → core c' ≡ core c
core-Kept k =
    rw (k.spec_kept, k.name_kept, k.uid_kept, k.deletion_kept, k.labels_kept, k.owners_kept) refl

module _ (E : Platform) (logged : E.Outside → String → String → Option Cluster) where
  -- The server has held the object in this version, with the same core.
  pub record Backed (o : E.Outside) (c : Cluster) : Type 0 where
    pub original : Cluster
    pub was_held : logged o c.metadata.name c.metadata.resource_version ≡ some original
    pub same_core : core original ≡ core c

  -- What has become of a backed object is backed by a longer log.
  pub Backed-Kept :
      {o o' : E.Outside} {c c' : Cluster}
      → Backed o c
      → LogKept logged o o'
      → Kept c c'
      → Backed o' c'
  Backed-Kept {o'} {c} b grown k = record {
    original = b.original;
    was_held =
        ap₂ (λ n v. logged o' n v) k.name_kept k.version_kept
        ∙ grown c.metadata.name c.metadata.resource_version b.original b.was_held;
    same_core = b.same_core ∙ sym (core-Kept k);
  }

  -- The delivered objects are in the heap, and the server has held each in its version.
  pub record AllBacked (w : World E) (l : List Address) : Type 0 where
    pub backed : (q : Address) → Memᴰ q l → (q < w.heap.next) × Backed w.outside (w.heap.cell q)

  pub AllBacked-later :
      {w v : World E} {l : List Address}
      → Keeps w.heap v.heap
      → LogKept logged w.outside v.outside
      → AllBacked w l
      → AllBacked v l
  AllBacked-later k grown all = record {
    backed = λ q m.
        let (lt, b) = all.backed q m in
        let g = k.grows in (omega arith, Backed-Kept b grown (k.cells q lt));
  }

  pub AllBacked-observe :
      {w : World E} {l : List Address} (key : String) (c : Cluster)
      → logged w.outside c.metadata.name c.metadata.resource_version ≡ some c
      → AllBacked w l
      → AllBacked
          (record w {
            heap = alloc_cell c w.heap;
            indexer = λ k. if key == k then present w.heap.next else w.indexer k;
          })
          (w.heap.next ∷ l)
  AllBacked-observe {w} {l} key c h all = record { backed = λ q m. delivered q (Memᴰ.cases_cons m) }
    where
      heap : Heap
      heap = alloc_cell c w.heap

      top : heap.cell w.heap.next ≡ c
      top = rw (same_address_self w.heap.next) refl

      newest : Backed w.outside (heap.cell w.heap.next)
      newest =
          subst (λ x. Backed w.outside x) (sym top)
            (record { original = c; was_held = h; same_core = refl })

      delivered :
          (q : Address)
          → (q ≡ w.heap.next) ⊎ Memᴰ q l
          → (q < heap.next) × Backed w.outside (heap.cell q)
      delivered q (inl e) =
          subst (λ a. (a < heap.next) × Backed w.outside (heap.cell a)) (sym e)
            (omega arith, newest)
      delivered q (inr m) =
          (AllBacked-later {v = record w { heap = heap }} (Keeps-alloc c w.heap) (λ n v x k. k)
              all).backed
            q m

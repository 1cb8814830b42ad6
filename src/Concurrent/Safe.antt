-- ===== src/Concurrent/Safe.antt =====
-- What each step of a handler leaves as it is, whatever the other handlers of the process and other
-- clients have done before it.
use kubecon.Prelude.{
  ℕ, zero, suc, String, ◌≡◌, ◌<◌, refl, inl, inr, Option, none, some, arith, List,
}
use kubecon.Api.{Cluster, Cond}
use kubecon.Platform.{Platform, ok}
use kubecon.Platform.Laws.{IsConditionLibrary}
use kubecon.Platform.Shared.{Replacement, SharesServer}
use kubecon.World.{World, M, Address, store}
use kubecon.World.Keeps.{Kept, Kept-same, Keeps, Keeps-same, Keeps-trans, Keeps-write}
use kubecon.Client.Lister
use kubecon.Controllers.Sends.{Sent}
use kubecon.Controllers.Backed.{Backed, Backed-Kept}
use kubecon.Controllers.Meanwhile.{Faithful, Faithful-same, Faithful-update}
use kubecon.Concurrent.{Task, ended, step, bind, update_loop, do_condition_task}

module _ (E : Platform) {logged : E.Outside → String → String → Option Cluster}
    {writes : E.Outside → List Replacement} (V : SharesServer E logged writes) where
  -- From one state to another each object of the heap is kept, and the program has replaced clusters at
  -- the server by such of the same core only.
  pub record Later (w v : World E) : Type 0 where
    pub heap_kept : Keeps w.heap v.heap
    pub faithful : Faithful E V w.outside v.outside

  Faithful-trans : {a b c : E.Outside} → Faithful E V a b → Faithful E V b c → Faithful E V a c
  Faithful-trans f g = record {
    log_kept = λ n v x h. g.log_kept n v x (f.log_kept n v x h);
    cores_kept =
        λ r m. elim (g.cores_kept r m) [ inl before ↦ f.cores_kept r before | inr same ↦ inr same ];
  }

  pub Later-trans : {a b c : World E} → Later a b → Later b c → Later a c
  Later-trans f g = record {
    heap_kept = Keeps-trans f.heap_kept g.heap_kept;
    faithful = Faithful-trans f.faithful g.faithful;
  }

  pub Later-by : {w v : World E} → v.heap ≡ w.heap → Faithful E V w.outside v.outside → Later w v
  Later-by e f = record { heap_kept = Keeps-same e; faithful = f }

  pub Later-same : (w : World E) → Later w w
  Later-same w = Later-by refl (Faithful-same E V w.outside)

  pub Later-store :
      (p : Address) (c : Cluster) (w : World E) → Kept (w.heap.cell p) c → Later w (store E p c w).1
  Later-store p c w k = record {
    heap_kept = Keeps-write p c w.heap k;
    faithful = Faithful-same E V w.outside;
  }

  -- The object is there, and the server has held it in its version, with the same core.
  pub record Own (p : Address) (w : World E) : Type 0 where
    pub allocated : p < w.heap.next
    pub backed : Backed E logged w.outside (w.heap.cell p)

  pub Own-Later : {p : Address} {w v : World E} → Own p w → Later w v → Own p v
  Own-Later {p} o l =
      let h = l.heap_kept in
      let g = h.grows in
      let a = o.allocated in
      let f = l.faithful in
      record {
        allocated = omega arith;
        backed = Backed-Kept E logged o.backed f.log_kept (h.cells p o.allocated);
      }

  -- The objects of the informer's store are such.
  abbrev pub StoreOwned : World E → Type 0
  StoreOwned w = (key : String) (p : Address) → Lister.get E w.indexer key ≡ ok p → Own p w

  -- One step, from whatever state: it leaves the informer's store alone, and what it leaves else.
  pub record StepSafe {A : Type 0} (m : M E A) (v : World E) : Type 0 where
    pub later : Later v (m v).1
    pub indexer_kept : (m v).1.indexer ≡ v.indexer

  -- Each step that the task takes from the state on, whatever has come between, is so.
  abbrev pub Safe : {B : Type 0} → Task E B → World E → Type 0
  Safe (ended b) w = Unit
  Safe (step m k) w =
      (v : World E) → Later w v → StoreOwned v → StepSafe m v × Safe (k (m v).0) (m v).1

  pub Safe-Later : {B : Type 0} (t : Task E B) {w v : World E} → Safe t w → Later w v → Safe t v
  Safe-Later (ended b) s l = tt
  Safe-Later (step m k) s l = λ u g owned. s u (Later-trans l g) owned

  pub Safe-bind :
      {A B : Type 0} (t : Task E A) (f : A → Task E B) (w : World E)
      → Safe t w
      → ((a : A) (v : World E) → Later w v → Safe (f a) v)
      → Safe (bind t f) w
  unfolding bind
  Safe-bind (ended a) f w s h = h a w (Later-same w)
  Safe-bind (step m k) f w s h = λ v l owned.
      let (one, rest) = s v l owned in
      (
        one,
        Safe-bind (k (m v).0) f (m v).1 rest
            (λ a u g. h a u (Later-trans l (Later-trans one.later g))),
      )

  -- A step that leaves the heap, and outside what the program's replacements have kept.
  pub StepSafe-by :
      {A : Type 0} {m : M E A} {v : World E}
      → (m v).1.heap ≡ v.heap
      → Faithful E V v.outside (m v).1.outside
      → (m v).1.indexer ≡ v.indexer
      → StepSafe m v
  StepSafe-by h f i = record { later = Later-by h f; indexer_kept = i }

  -- An update sends what was made of an object that the server has held.
  module _ (d c : Cluster) (s : Sent d c) where
    pub Faithful-send :
        (o : E.Outside) → Backed E logged o d → Faithful E V o (E.clusters.update c o).1
    Faithful-send o b = Faithful-update E V d c b s (Faithful-same E V o)

  pub Safe-update_loop :
      (n : ℕ) (p : Address) (last : Option E.Error) (w : World E)
      → Own p w
      → Safe (update_loop E n p last) w
  unfolding update_loop
  Safe-update_loop zero p last w o = tt
  Safe-update_loop (suc n) p last w o = λ v l owned.
      let b = (Own-Later o l).backed in
      let c = v.heap.cell p in
      let f = Faithful-send c c (record { same_core = refl; same_version = refl }) v.outside b in
      let u : World E = record v { outside = (E.clusters.update c v.outside).1 } in
      (
        StepSafe-by refl f refl,
        next (Safe-update_loop n p) u (Own-Later (Own-Later o l) (Later-by refl f))
            (E.clusters.update c v.outside).0,
      )
    where
      next :
          ((x : Option E.Error) (u : World E) → Own p u → Safe (update_loop E n p x) u)
          → (u : World E) → Own p u
          → (e : Option E.Error)
          → Safe
              (elim e as (λ _. Task E (Option E.Error)) [
                | none ↦ ended none
                | some x ↦ update_loop E n p (some x)
              ])
              u
      next again u own none = tt
      next again u own (some x) = again (some x) u own

  module _ (L : IsConditionLibrary E) (c : Cond) (p : Address) where
    pub Safe-do_condition :
        (f : Task E (Option E.Error)) (w : World E)
        → ((v : World E) → Later w v → Safe f v)
        → Safe (do_condition_task E c p f) w
    unfolding do_condition_task
    Safe-do_condition f w h = λ v l owned.
        let begun =
          Later-store p _ v (Kept-same _ _ (L.starting_metadata c _) (L.starting_spec c _)) in
        let u = (store E p (E.starting c (v.heap.cell p)) v).1 in
        (
          record { later = begun; indexer_kept = refl },
          Safe-bind f _ u (h u (Later-trans l begun)) (λ e x g y i owned_y. (
            record {
              later =
                  Later-store p _ y
                    (Kept-same _ _ (L.finished_metadata c _ _ _) (L.finished_spec c _ _ _));
              indexer_kept = refl;
            },
            tt,
          )),
        )

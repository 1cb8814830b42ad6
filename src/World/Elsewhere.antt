-- ===== src/World/Elsewhere.antt =====
-- One heap after another that differs from it at one address.
use mathlib.Core.Path.{subst}
use kubecon.Prelude.{
  same_address-eq, String, ◌≡◌, refl, ap, ◌∙◌, false, Option, same_address, Bool-cases, inl, inr,
}
use kubecon.Platform.Laws.{IsConditionLibrary}
use kubecon.Api.{Cluster, Cond}
use kubecon.Platform.{Platform}
use kubecon.World.{World, M, Address, Heap, write_cell, do_condition}
use kubecon.World.Laws.{before_call, cell-do_condition}

-- Every object but the one at `p` is the same.
pub record Elsewhere (p : Address) (h h' : Heap) : Type 0 where
  pub others : (q : Address) → same_address p q ≡ false → h'.cell q ≡ h.cell q

pub Elsewhere-same : {p : Address} {h h' : Heap} → h' ≡ h → Elsewhere p h h'
Elsewhere-same e = record { others = λ q d. ap (λ (x : Heap). x.cell q) e }

pub Elsewhere-by : {p : Address} {h i j : Heap} → j ≡ i → Elsewhere p h i → Elsewhere p h j
Elsewhere-by e f = record { others = λ q d. ap (λ (x : Heap). x.cell q) e ∙ f.others q d }

pub Elsewhere-trans :
    {p : Address} {h i j : Heap} → Elsewhere p h i → Elsewhere p i j → Elsewhere p h j
Elsewhere-trans f g = record { others = λ q d. g.others q d ∙ f.others q d }

pub Elsewhere-write : (p : Address) (c : Cluster) (h : Heap) → Elsewhere p h (write_cell p c h)
Elsewhere-write p c h = record { others = λ q d. rw d refl }

-- `Do` writes to its object alone, where its function leaves the heap as it is.
pub Elsewhere-do_condition :
    (E : Platform) (c : Cond) (p : Address) (f : M E (Option E.Error)) (w : World E)
    → (f (before_call E c p f w)).1.heap ≡ (before_call E c p f w).heap
    → Elsewhere p w.heap (do_condition E c p f w).1.heap
Elsewhere-do_condition E c p f w h =
    Elsewhere-trans (Elsewhere-write p _ w.heap)
      (Elsewhere-trans (Elsewhere-same h) (Elsewhere-write p _ (f (before_call E c p f w)).1.heap))

abbrev pub applied_at : Heap → Address → String
applied_at h q = (h.cell q).status.applied_config

module _ (E : Platform) (L : IsConditionLibrary E) where
  -- `Do` leaves every applied configuration, where its function leaves the heap.
  pub applied-do_condition :
      (c : Cond) (p q : Address) (f : M E (Option E.Error)) (u : World E)
      → (f (before_call E c p f u)).1.heap ≡ (before_call E c p f u).heap
      → applied_at (do_condition E c p f u).1.heap q ≡ applied_at u.heap q
  applied-do_condition c p q f u h = elim (Bool-cases (same_address p q)) [
    | inl e ↦
        subst (λ x. applied_at (do_condition E c p f u).1.heap x ≡ applied_at u.heap x)
          (same_address-eq p q e)
          (ap (λ (x : Cluster). x.status.applied_config) (cell-do_condition E c p f u h)
            ∙ L.finished_applied c _ _ _
            ∙ L.starting_applied c _)
    | inr d ↦
        ap (λ (x : Cluster). x.status.applied_config)
          ((Elsewhere-do_condition E c p f u h).others q d)
  ]

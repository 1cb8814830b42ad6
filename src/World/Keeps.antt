-- ===== src/World/Keeps.antt =====
-- One heap after another, by what an object of the first has become in the second.
use kubecon.Prelude.{
  same_address-eq, String, ◌≡◌, ◌≤◌, ◌<◌, refl, ap, ◌∙◌, sym, true, Option, arith, Bool-cases, inl,
  inr, same_address,
}
use kubecon.Prelude.Strings.{has}
use kubecon.Api.{Cluster, Cond, ObjectMeta}
use kubecon.Platform.{Platform}
use kubecon.Platform.Laws.{IsConditionLibrary}
use kubecon.World.{World, M, Address, Heap, write_cell, alloc_cell, do_condition}
use kubecon.World.Laws.{before_call}
use mathlib.Core.Path.{subst}

pub record Kept (old new : Cluster) : Type 0 where
  pub spec_kept : new.spec ≡ old.spec
  pub name_kept : new.metadata.name ≡ old.metadata.name
  pub version_kept : new.metadata.resource_version ≡ old.metadata.resource_version
  pub uid_kept : new.metadata.uid ≡ old.metadata.uid
  pub deletion_kept : new.metadata.deletion_timestamp ≡ old.metadata.deletion_timestamp
  pub labels_kept : new.metadata.labels ≡ old.metadata.labels
  pub annotations_kept : new.metadata.annotations ≡ old.metadata.annotations
  pub owners_kept : new.metadata.owner_references ≡ old.metadata.owner_references
  pub finalizers_grow :
      (k : String) → has old.metadata.finalizers k ≡ true → has new.metadata.finalizers k ≡ true

pub Kept-same : (a b : Cluster) → b.metadata ≡ a.metadata → b.spec ≡ a.spec → Kept a b
Kept-same a b m s = record {
  spec_kept = s;
  name_kept = ap (λ (x : ObjectMeta). x.name) m;
  version_kept = ap (λ (x : ObjectMeta). x.resource_version) m;
  uid_kept = ap (λ (x : ObjectMeta). x.uid) m;
  deletion_kept = ap (λ (x : ObjectMeta). x.deletion_timestamp) m;
  labels_kept = ap (λ (x : ObjectMeta). x.labels) m;
  annotations_kept = ap (λ (x : ObjectMeta). x.annotations) m;
  owners_kept = ap (λ (x : ObjectMeta). x.owner_references) m;
  finalizers_grow = λ k h. ap (λ (x : ObjectMeta). has x.finalizers k) m ∙ h;
}

pub Kept-trans : {a b c : Cluster} → Kept a b → Kept b c → Kept a c
Kept-trans f g = record {
  spec_kept = g.spec_kept ∙ f.spec_kept;
  name_kept = g.name_kept ∙ f.name_kept;
  version_kept = g.version_kept ∙ f.version_kept;
  uid_kept = g.uid_kept ∙ f.uid_kept;
  deletion_kept = g.deletion_kept ∙ f.deletion_kept;
  labels_kept = g.labels_kept ∙ f.labels_kept;
  annotations_kept = g.annotations_kept ∙ f.annotations_kept;
  owners_kept = g.owners_kept ∙ f.owners_kept;
  finalizers_grow = λ k h. g.finalizers_grow k (f.finalizers_grow k h);
}

-- From one heap to another no object is lost, and each is kept.
pub record Keeps (h h' : Heap) : Type 0 where
  pub grows : h.next ≤ h'.next
  pub cells : (q : Address) → q < h.next → Kept (h.cell q) (h'.cell q)

pub Keeps-same : {h h' : Heap} → h' ≡ h → Keeps h h'
Keeps-same {h} e =
    subst (λ x. Keeps h x) (sym e)
      (record { grows = omega arith; cells = λ q lt. Kept-same (h.cell q) (h.cell q) refl refl })

pub Keeps-trans : {h i j : Heap} → Keeps h i → Keeps i j → Keeps h j
Keeps-trans f g = record {
  grows = (let a = f.grows in let b = g.grows in omega arith);
  cells = λ q lt. Kept-trans (f.cells q lt) (g.cells q (let a = f.grows in omega arith));
}

pub Keeps-by : {h i j : Heap} → j ≡ i → Keeps h i → Keeps h j
Keeps-by {h} e k = subst (λ x. Keeps h x) (sym e) k

pub Keeps-write :
    (p : Address) (c : Cluster) (h : Heap) → Kept (h.cell p) c → Keeps h (write_cell p c h)
Keeps-write p c h k = record {
  grows = omega arith;
  cells = λ q lt. elim (Bool-cases (same_address p q)) [
    | inl e ↦ rw e (subst (λ x. Kept (h.cell x) c) (same_address-eq p q e) k)
    | inr e ↦ rw e (Kept-same (h.cell q) (h.cell q) refl refl)
  ];
}

pub Keeps-alloc : (c : Cluster) (h : Heap) → Keeps h (alloc_cell c h)
Keeps-alloc c h = record {
  grows = omega arith;
  cells = λ q lt.
      Kept-same (h.cell q) _ (ap (λ (x : Cluster). x.metadata) (older q lt))
        (ap (λ (x : Cluster). x.spec) (older q lt));
}
  where
    older : (q : Address) → q < h.next → (alloc_cell c h).cell q ≡ h.cell q
    older q lt = ground arith

-- A new object can be written to.
pub Keeps-scratch : (c d : Cluster) (h : Heap) → Keeps h (write_cell h.next c (alloc_cell d h))
Keeps-scratch c d h = record {
  grows = omega arith;
  cells = λ q lt.
      Kept-same (h.cell q) _ (ap (λ (x : Cluster). x.metadata) (older q lt))
        (ap (λ (x : Cluster). x.spec) (older q lt));
}
  where
    older : (q : Address) → q < h.next → (write_cell h.next c (alloc_cell d h)).cell q ≡ h.cell q
    older q lt = ground arith

-- `Do` keeps what its function keeps.
pub Keeps-do_condition :
    (E : Platform) (L : IsConditionLibrary E) (c : Cond) (p : Address) (f : M E (Option E.Error))
    (w : World E)
    → ((v : World E) → Keeps v.heap (f v).1.heap)
    → Keeps w.heap (do_condition E c p f w).1.heap
Keeps-do_condition E L c p f w keep =
    let v = (f (before_call E c p f w)).1 in
    Keeps-trans
      (Keeps-write p _ w.heap (Kept-same _ _ (L.starting_metadata c _) (L.starting_spec c _)))
      (Keeps-trans (keep (before_call E c p f w)) (
        Keeps-write p _ v.heap
          (Kept-same _ _ (L.finished_metadata c _ _ _) (L.finished_spec c _ _ _))))

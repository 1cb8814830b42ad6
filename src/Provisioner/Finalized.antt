-- ===== src/Provisioner/Finalized.antt =====
-- Theorems on finalize in provisioner.go: how it ends, branch by branch.
use kubecon.Prelude.{
  String, ◌≡◌, ap, sym, ◌∙◌, true, false, Option, none, some, arith, Option-cases, Bool-cases, inl,
  inr, if◌then◌else◌, ◌==◌,
}
use kubecon.Api.{Cluster}
use kubecon.Platform.{Platform, ok, err, Result-cases}
use kubecon.Platform.Laws.{KeepsClusters, stored}
use kubecon.World.{World, Address}
use kubecon.World.Writes.{left, view-retry}
use kubecon.Provisioner.Finalizers.{finalize}
use kubecon.Provisioner.Steps.{AccessorWorks}
use kubecon.Provisioner.Remove.{
  answer, awaits, get_awaits, released, cleaned, remove_exit, finalize-idle, finalize-clean_up,
  error-clean_up, outside-clean_up, finalize_holds, finalize_releases, view_asked, view_cleaned,
}

module _ (E : Platform) (p : Address) (key : String) (w : World E)
    (view : E.Outside → String → Option Cluster) where
  abbrev Unchanged : E.Outside → Type 0
  Unchanged o = (n : String) → view o n ≡ view w.outside n

  -- How `finalize` ends, with its error and the state outside: the server has not answered with the
  -- object; its object does not await the finalizer; `rke remove` has failed; the server has refused
  -- the object without the finalizer; or it has accepted it.
  pub data Finalized (r : Option E.Error) (o : E.Outside) : Type 0 where
    unanswered :
        (e : E.Error)
        → answer E p key w ≡ err e
        → r ≡ (if E.is_not_found e then none else some e)
        → Unchanged o
        → Finalized r o
    not_awaiting :
        (x : Cluster)
        → answer E p key w ≡ ok x
        → awaits key x ≡ false
        → r ≡ none
        → Unchanged o
        → Finalized r o
    not_removed :
        (x : Cluster) (e : E.Error)
        → answer E p key w ≡ ok x
        → awaits key x ≡ true
        → remove_exit E p key w ≡ some e
        → r ≡ some e
        → Unchanged o
        → Finalized r o
    refused :
        (x : Cluster) (e : E.Error)
        → answer E p key w ≡ ok x
        → awaits key x ≡ true
        → remove_exit E p key w ≡ none
        → r ≡ some e
        → Unchanged o
        → Finalized r o
    let_go :
        (x : Cluster)
        → answer E p key w ≡ ok x
        → awaits key x ≡ true
        → remove_exit E p key w ≡ none
        → r ≡ none
        → ((n : String)
            → view o n
              ≡ (if x.metadata.name == n then stored (released E p key w x) else view w.outside n))
        → Finalized r o

  module _ (K : KeepsClusters E view) (works : AccessorWorks E) where
    Unchanged-idle :
        get_awaits key (answer E p key w) ≡ false → Unchanged (finalize E p key w).1.outside
    Unchanged-idle a n =
        ap (λ (v : World E). view v.outside n) (finalize-idle E p key w works a)
        ∙ view_asked E p key w K works n

    error-unanswered :
        (e : E.Error)
        → answer E p key w ≡ err e
        → (finalize E p key w).0 ≡ (if E.is_not_found e then none else some e)
    unfolding finalize
    error-unanswered e r = ground (arith, r)

    error-not_awaiting :
        (x : Cluster)
        → answer E p key w ≡ ok x
        → awaits key x ≡ false
        → (finalize E p key w).0 ≡ none
    unfolding finalize
    error-not_awaiting x r a = ground (arith, r, works x)

    Unchanged-refused :
        (x : Cluster) (e : E.Error)
        → answer E p key w ≡ ok x
        → awaits key x ≡ true
        → remove_exit E p key w ≡ none
        → (finalize E p key w).0 ≡ some e
        → Unchanged (finalize E p key w).1.outside
    Unchanged-refused x e r a clean f n =
        let q = finalize-clean_up E p key w works x r a in
        let o = cleaned E p key w in
        let given_up = sym (error-clean_up E p key w x clean) ∙ sym (ap (λ v. v.0) q) ∙ f in
        ap (λ v. view v.1.outside n) q
        ∙ ap (λ o'. view o' n) (outside-clean_up E p key w x clean)
        ∙ view-retry E K (released E p key w x) 2 o n
        ∙ ap (λ e'. left E K (released E p key w x) e' o n) given_up
        ∙ view_cleaned E p key w K works n

    Finalized-removed :
        (x : Cluster)
        → answer E p key w ≡ ok x
        → awaits key x ≡ true
        → remove_exit E p key w ≡ none
        → Finalized (finalize E p key w).0 (finalize E p key w).1.outside
    Finalized-removed x r a clean = elim (Option-cases (finalize E p key w).0) [
      | inl done ↦ let_go x r a clean done (finalize_releases E p key w K works x r a clean done)
      | inr (e, f) ↦ refused x e r a clean f (Unchanged-refused x e r a clean f)
    ]

    -- Whatever the branch, `finalize` ends in one of these ways: it returns an error of the server or of
    -- `rke remove`, and the server's objects are as they were; or it finds nothing to do, and they are
    -- as they were; or `rke remove` has ended without an error, and the server has the object without
    -- the finalizer, but for its version, or no longer holds it, and all else as before.
    pub finalize-Finalized : Finalized (finalize E p key w).0 (finalize E p key w).1.outside
    finalize-Finalized = elim (Result-cases (answer E p key w)) [
      | inr (e, r) ↦ unanswered e r (error-unanswered e r) (Unchanged-idle (ap (get_awaits key) r))
      | inl (x, r) ↦ elim (Bool-cases (awaits key x)) [
        | inr a ↦
            not_awaiting x r a (error-not_awaiting x r a)
              (Unchanged-idle (ap (get_awaits key) r ∙ a))
        | inl a ↦ elim (Option-cases (remove_exit E p key w)) [
          | inl clean ↦ Finalized-removed x r a clean
          | inr (e, f) ↦
              let (error, same) = finalize_holds E p key w K works x e r a f in
              not_removed x e r a f error same
        ]
      ]
    ]

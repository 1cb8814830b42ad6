-- ===== src/Provisioner/Free.antt =====
-- Theorems on sync in provisioner.go: a cluster that is being deleted, where its handling succeeds.
use mathlib.Core.Path.{subst}
use mathlib.Core.Option.{some-injective, some-ne-none}
use kubecon.Prelude.{
  String, ◌≡◌, refl, ap, sym, ◌∙◌, true, false, Option, none, some, List, [], ◌∷◌, arith, inl, inr,
  Bool-cases, Option-cases, eq_iff,
}
use kubecon.Api.{Cluster}
use kubecon.Platform.{Platform, ok, err, Result-cases}
use kubecon.Platform.Laws.{KeepsClusters, FindsClusters, stored}
use kubecon.World.{World, Address}
use kubecon.World.Retry.{retry-first}
use kubecon.Client.Lister
use kubecon.TaskQueue.{requeue}
use kubecon.Provisioner.Steps.{AccessorWorks}
use kubecon.Provisioner.Requeue.{failure}
use kubecon.Provisioner.Finalizers.{contains_string, without, finalize}
use kubecon.Provisioner.Remove.{
  answer, awaits, get_awaits, released, cleaned, remove_exit, finalize-idle, finalize-clean_up,
  error-clean_up, finalize_releases, finalize_holds,
}
use kubecon.Provisioner.{controller_name, handle, handle_cluster_remove, sync}

contains_string-without :
    (key : String) (l : List String) → contains_string (without key l) key ≡ false
unfolding contains_string without
contains_string-without key [] = refl
contains_string-without key (f ∷ l) = ground (arith, contains_string-without key l)

-- What the server stores of an object without a finalizer does not await it.
awaits-stored :
    (key : String) (x c : Cluster)
    → contains_string x.metadata.finalizers key ≡ false
    → stored x ≡ some c
    → awaits key c ≡ false
awaits-stored key x c free h = ground arith

module _ (E : Platform) (p : Address) (w : World E) where
  -- The server answers, `rke remove` ends without an error where it is called, and the server accepts the
  -- object without the finalizer.
  pub record CanGo : Type 0 where
    pub answers : (e : E.Error) → answer E p controller_name w ≡ err e → E.is_not_found e ≡ true
    pub cleans : remove_exit E p controller_name w ≡ none
    pub accepts :
        (x : Cluster)
        → answer E p controller_name w ≡ ok x
        → (E.clusters.update (released E p controller_name w x) (cleaned E p controller_name w)).0
          ≡ none

  module _ (works : AccessorWorks E) where
    finalize-CanGo : CanGo → (finalize E p controller_name w).0 ≡ none
    unfolding finalize
    finalize-CanGo g = elim (Result-cases (answer E p controller_name w)) [
      | inr (e, r) ↦ ground (arith, r, g.answers e r)
      | inl (x, r) ↦ elim (Bool-cases (awaits controller_name x)) [
        | inl a ↦
            ap (λ v. v.0) (finalize-clean_up E p controller_name w works x r a)
            ∙ error-clean_up E p controller_name w x g.cleans
            ∙ ap (λ v. v.0)
                (retry-first (E.clusters.update (released E p controller_name w x)) 2 none
                  (cleaned E p controller_name w) (g.accepts x r))
            ∙ g.accepts x r
        | inr a ↦ ground (arith, r, works x)
      ]
    ]

    pub handle-CanGo :
        (t : String)
        → (w.heap.cell p).metadata.deletion_timestamp ≡ some t
        → CanGo
        → (handle E p w).0 ≡ none
    unfolding handle handle_cluster_remove
    handle-CanGo t d g = ground (arith, d, finalize-CanGo g)

    module _ {view : E.Outside → String → Option Cluster} (K : KeepsClusters E view)
        (A : FindsClusters E view) where
      abbrev name_of : String
      name_of = (w.heap.cell p).metadata.name

      -- The server holds no object under the cluster's name that awaits the finalizer.
      abbrev pub IsFree : E.Outside → Type 0
      IsFree o = (c : Cluster) → view o name_of ≡ some c → awaits controller_name c ≡ false

      IsFree-idle :
          get_awaits controller_name (answer E p controller_name w) ≡ false
          → IsFree (finalize E p controller_name w).1.outside
      IsFree-idle a c h =
          let before =
            sym (K.objects.get_keeps name_of w.outside name_of)
            ∙ sym (
                ap (λ (v : World E). view v.outside name_of)
                  (finalize-idle E p controller_name w works a))
            ∙ h in
          let (x, r) = A.finds w.outside name_of c before in
          let seen = sym (K.objects.get_found name_of w.outside x r) ∙ before in
          ap (awaits controller_name) (sym (some-injective _ _ seen))
          ∙ sym (ap (get_awaits controller_name) r)
          ∙ a

      IsFree-released :
          (x : Cluster)
          → answer E p controller_name w ≡ ok x
          → awaits controller_name x ≡ true
          → (finalize E p controller_name w).0 ≡ none
          → IsFree (finalize E p controller_name w).1.outside
      IsFree-released x r a done c h = elim (Option-cases (remove_exit E p controller_name w)) [
        | inr (e, f) ↦
            absurd (
              some-ne-none e
                (sym (finalize_holds E p controller_name w K works x e r a f).0 ∙ done))
        | inl clean ↦
            let name = A.named w.outside name_of _ (K.objects.get_found name_of w.outside x r) in
            let there = finalize_releases E p controller_name w K works x r a clean done name_of in
            awaits-stored controller_name (released E p controller_name w x) c
              (contains_string-without controller_name x.metadata.finalizers)
              (sym (there ∙ rw ((eq_iff x.metadata.name name_of).1 name) refl) ∙ h)
      ]

      finalize-IsFree :
          (finalize E p controller_name w).0 ≡ none
          → IsFree (finalize E p controller_name w).1.outside
      finalize-IsFree done = elim (Result-cases (answer E p controller_name w)) [
        | inr (e, r) ↦ IsFree-idle (ap (get_awaits controller_name) r)
        | inl (x, r) ↦ elim (Bool-cases (awaits controller_name x)) [
          | inl a ↦ IsFree-released x r a done
          | inr a ↦ IsFree-idle (ap (get_awaits controller_name) r ∙ a)
        ]
      ]

      module _ (t : String) (d : (w.heap.cell p).metadata.deletion_timestamp ≡ some t) where
        error_of_handle : (handle E p w).0 ≡ none → (finalize E p controller_name w).0 ≡ none
        unfolding handle handle_cluster_remove
        error_of_handle h = elim (Option-cases (finalize E p controller_name w).0) [
          | inl e ↦ e
          | inr (x, e) ↦ ground (arith, d)
        ]

        outside_of_handle : (handle E p w).1.outside ≡ (finalize E p controller_name w).1.outside
        unfolding handle handle_cluster_remove
        outside_of_handle = ground (arith, d)

        pub sync-IsFree :
            (key : String)
            → Lister.get E w.indexer key ≡ ok p
            → failure E key w ≡ none
            → IsFree (sync E key w).1.outside
        unfolding sync requeue
        sync-IsFree key in_store done =
            let same : (sync E key w).1.outside ≡ (handle E p w).1.outside =
              ground (arith, in_store) in
            let end : (handle E p w).0 ≡ none = ground (arith, in_store) in
            subst IsFree (sym (same ∙ outside_of_handle)) (finalize-IsFree (error_of_handle end))

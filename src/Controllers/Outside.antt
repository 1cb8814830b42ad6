-- ===== src/Controllers/Outside.antt =====
-- The provisioner's `sync` as a whole, and the config generator's: what they do outside the process
-- keeps what their calls keep.
use mathlib.Core.Path.{subst}
use kubecon.Prelude.{
  String, ◌≡◌, refl, ap, sym, ◌∙◌, true, none, arith, Bool-cases, Option-cases, inl, inr,
}
use kubecon.Api.{Cluster, Kubeconfig}
use kubecon.Platform.{Platform, ok, Result-cases}
use kubecon.Platform.Laws.{IsConditionLibrary}
use kubecon.World.{World, Address}
use kubecon.World.Retry.{retry-keeps}
use kubecon.TaskQueue.{requeue}
use kubecon.Client.Lister
use kubecon.Provisioner.Command.{rke}
use kubecon.Provisioner.Finalizers.{finalize}
use kubecon.Provisioner.Steps.{AccessorWorks}
use kubecon.Provisioner.Remove.{
  answer, asked, awaits, get_awaits, args_of, remove_exit, released, cleaned, finalize-idle,
  finalize-clean_up, clean_up-failed, outside-clean_up, outside-remove_cluster,
}
use kubecon.Provisioner.{controller_name, handle_cluster_remove, handle}
use kubecon.Provisioner
use kubecon.ConfigGenerator.{reconcile, create_kubeconfig, update_kubeconfig}
use kubecon.ConfigGenerator
use kubecon.Controllers.Sends.{Sent, OthersPreserve, outside-add}

module _ (E : Platform) (works : AccessorWorks E) (P : E.Outside → Type 0) (K : OthersPreserve E P)
    (gets : (name : String) (o : E.Outside) → P o → P (E.clusters.get name o).1) (p : Address)
    (key : String) (w : World E)
    (found : (x : Cluster)
      → answer E p key w ≡ ok x
      → (c : Cluster) (o : E.Outside) → Sent x c
      → P o
      → P (E.clusters.update c o).1)
    (h : P w.outside) where
  outside_asked : P (asked E p key w).outside
  outside_asked = gets (w.heap.cell p).metadata.name w.outside h

  outside_cleaned : P (cleaned E p key w)
  outside_cleaned =
      subst P (sym (outside-remove_cluster E p key w))
        (K.runs rke (args_of E p key w) (asked E p key w).outside outside_asked)

  outside_released :
      (x : Cluster)
      → answer E p key w ≡ ok x
      → awaits key x ≡ true
      → P (finalize E p key w).1.outside
  outside_released x r a =
      subst (λ v. P v.1.outside) (sym (finalize-clean_up E p key w works x r a))
        (elim (Option-cases (remove_exit E p key w)) [
          | inr (e, f) ↦
              subst (λ v. P v.1.outside) (sym (clean_up-failed E p key w x e f)) outside_cleaned
          | inl c ↦ subst P (sym (outside-clean_up E p key w x c)) (
              retry-keeps (E.clusters.update (released E p key w x)) P
                (λ o.
                  found x r (released E p key w x) o
                    (record { same_core = refl; same_version = refl }))
                3 none (cleaned E p key w) outside_cleaned)
        ])

  outside-finalize : P (finalize E p key w).1.outside
  outside-finalize = elim (Result-cases (answer E p key w)) [
    | inr (e, r) ↦
        subst (λ v. P v.outside) (sym (finalize-idle E p key w works (ap (get_awaits key) r)))
          outside_asked
    | inl (x, r) ↦ elim (Bool-cases (awaits key x)) [
      | inl a ↦ outside_released x r a
      | inr a ↦
          subst (λ v. P v.outside) (sym (finalize-idle E p key w works (ap (get_awaits key) r ∙ a)))
            outside_asked
    ]
  ]

module _ (E : Platform) (P : E.Outside → Type 0) (K : OthersPreserve E P)
    (creates : (k : Kubeconfig) (o : E.Outside) → P o → P (E.kubeconfigs.create k o).1)
    (updates : (k : Kubeconfig) (o : E.Outside) → P o → P (E.kubeconfigs.update k o).1) where
  pub outside-config :
      (p : Address) (w : World E) → P w.outside → P (ConfigGenerator.sync E p w).1.outside
  unfolding ConfigGenerator.sync reconcile create_kubeconfig update_kubeconfig
  outside-config p w h = grind (arith, K.asks, creates, updates)

module _ (E : Platform) (works : AccessorWorks E) (L : IsConditionLibrary E)
    (P : E.Outside → Type 0) (K : OthersPreserve E P)
    (gets : (name : String) (o : E.Outside) → P o → P (E.clusters.get name o).1) (p : Address)
    (w : World E)
    (sends : (c : Cluster) (o : E.Outside)
      → Sent (w.heap.cell p) c
      → P o
      → P (E.clusters.update c o).1)
    (found : (x : Cluster)
      → answer E p controller_name w ≡ ok x
      → (c : Cluster) (o : E.Outside) → Sent x c
      → P o
      → P (E.clusters.update c o).1) where
  pub outside-handle : P w.outside → P (handle E p w).1.outside
  unfolding handle handle_cluster_remove
  outside-handle h = elim (Option-cases (w.heap.cell p).metadata.deletion_timestamp) [
    | inl d ↦ rw (d, handle) (outside-add E L P p w sends K works h)
    | inr (t, d) ↦
        rw (d, handle)
          (elim (Option-cases (finalize E p controller_name w).0) [
            | inl e ↦
                rw (e, handle_cluster_remove)
                  (outside-finalize E works P K gets p controller_name w found h)
            | inr (x, e) ↦
                rw (e, handle_cluster_remove)
                  (outside-finalize E works P K gets p controller_name w found h)
          ])
  ]

module _ (E : Platform) (P : E.Outside → Type 0) (key : String) (w : World E) where
  pub outside-sync :
      ((p : Address) → Lister.get E w.indexer key ≡ ok p → P (handle E p w).1.outside)
      → P w.outside
      → P (Provisioner.sync E key w).1.outside
  unfolding Provisioner.sync requeue
  outside-sync found h = elim (Result-cases (Lister.get E w.indexer key)) [
    | inr (e, r) ↦ rw (r, Provisioner.sync, requeue) h
    | inl (p, r) ↦ elim (Option-cases (handle E p w).0) [
      | inl e ↦ rw (r, Provisioner.sync) (rw e (found p r))
      | inr (x, e) ↦ rw (r, Provisioner.sync) (rw (e, requeue) (found p r))
    ]
  ]

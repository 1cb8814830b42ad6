-- ===== src/Controllers/Earned.antt =====
-- Any sequence of the four controllers' handlers, by what becomes of an object's applied
-- configuration.
use mathlib.Core.Bool.{false≢true}
use mathlib.Core.Path.{subst}
use kubecon.Prelude.{
  same_address-eq, String, ◌≡◌, ◌≢◌, ◌⊎◌, ◌<◌, refl, ap, sym, ◌∙◌, true, false, Option, none, some,
  arith, Bool-cases, Option-cases, inl, inr, ◌==◌, eq_iff, same_address,
}
use kubecon.Api.{Cluster, provisioned, ready}
use kubecon.Platform.{Platform, ok, err, Result-cases}
use kubecon.Platform.Laws.{IsConditionLibrary}
use kubecon.World.{World, M, Address, Heap, alloc_cell, do_condition}
use kubecon.World.Elsewhere.{applied_at, applied-do_condition}
use kubecon.Provisioner.Elsewhere.{Elsewhere-provision}
use kubecon.Client.Lister
use kubecon.TaskQueue.{requeue}
use kubecon.Provisioner.Steps.{AccessorWorks}
use kubecon.Provisioner.Provision.{rke_up, inside, provision_error}
use kubecon.Provisioner.Converge.{
  provision-IsApplied, provision-IsRejected, handle_cluster_add-changed,
  handle_cluster_add-unchanged,
}
use kubecon.Provisioner.Add.{handle_cluster_add-unreadable}
use kubecon.Provisioner.Applied.{heap-sync, handle-add}
use kubecon.Provisioner.{
  controller_name, provision, update_applied_config, handle_cluster_add, handle_cluster_remove,
  handle, get_config_str,
}
use kubecon.Provisioner
use kubecon.Healthchecker.{handle_cluster_update, check, validate_healthcheck}
use kubecon.Healthchecker
use kubecon.Annotator.{update_annotation}
use kubecon.Annotator.Laws.{objects_kept}
use kubecon.ConfigGenerator.{update_config}
use kubecon.Controllers.Keeps.{heap-finalize, heap-validate, heap-config, heap-enqueue}
use kubecon.Controllers.Runs.{
  Step, provision_key, check_health, annotate_cluster, generate_config, enqueue_item, observe,
  forget, elsewhere, Reached, start, next, Keeps-reached,
}

applied-observe :
    (c : Cluster) (q : Address) (h : Heap)
    → q < h.next
    → applied_at (alloc_cell c h) q ≡ applied_at h q
applied-observe c q h lt = ground arith

module _ (E : Platform) (works : AccessorWorks E) (L : IsConditionLibrary E) where
  -- What a run of the provisioner under a key makes of an object's applied configuration: it keeps it, or
  -- the store has the object under the key, it is not being deleted, its file has other content than the
  -- applied configuration, `rke up` reports no error in this run, and this content is applied.
  pub record Applies (u : World E) (key : String) (q : Address) (config : String) : Type 0 where
    pub in_store : Lister.get E u.indexer key ≡ ok q
    pub alive : (u.heap.cell q).metadata.deletion_timestamp ≡ none
    pub read : get_config_str E (u.heap.cell q) u ≡ ok config
    pub differs : config ≢ (u.heap.cell q).status.applied_config
    pub brought_up : (rke_up E q (inside E works q config u)).0 ≡ none

  -- How an object came by its applied configuration in a sequence of steps: it had it at the start, it
  -- kept it in the last step, or the last step is the run of the provisioner that applied it.
  pub data Earned {w : World E} (q : Address) (old : String)
      : (v : World E) → Reached E w v → String → Type 0 where
    unchanged : Earned q old w start old
    kept :
        {u v : World E} {before : Reached E w u} {config : String} (step : Step E u v)
        → applied_at v.heap q ≡ applied_at u.heap q
        → Earned q old u before config
        → Earned q old v (next before step) config
    earned :
        {u : World E} {before : Reached E w u} {config : String} (key : String)
        → Applies u key q config
        → Earned q old (Provisioner.sync E key u).1 (next before (provision_key key u)) config

  abbrev health : Address → M E (Option E.Error)
  health p v = validate_healthcheck E (v.heap.cell p) v

  heap-health :
      (p : Address) (u : World E)
      → E.is_true provisioned (u.heap.cell p) ≡ true
      → (Healthchecker.sync E p u).1.heap ≡ (do_condition E ready p (health p) u).1.heap
  unfolding Healthchecker.sync check
  heap-health p u b = rw b refl

  heap-unprovisioned :
      (p : Address) (u : World E)
      → E.is_true provisioned (u.heap.cell p) ≡ false
      → (Healthchecker.sync E p u).1.heap ≡ u.heap
  unfolding Healthchecker.sync
  heap-unprovisioned p u b = rw b refl

  applied-health :
      (p q : Address) (u : World E)
      → applied_at (Healthchecker.sync E p u).1.heap q ≡ applied_at u.heap q
  applied-health p q u = elim (Bool-cases (E.is_true provisioned (u.heap.cell p))) [
    | inr b ↦ ap (λ h. applied_at h q) (heap-unprovisioned p u b)
    | inl b ↦
        ap (λ h. applied_at h q) (heap-health p u b)
        ∙ applied-do_condition E L ready p q (health p) u (heap-validate E _ _)
  ]

  -- what a run of the provisioner makes of the applied configuration of the object
  abbrev Becomes : World E → String → Address → String → Type 0
  Becomes u key q config = (config ≡ applied_at u.heap q) ⊎ Applies u key q config

  module _ (u : World E) (key : String) (q : Address) where
    module _ (in_store : Lister.get E u.indexer key ≡ ok q)
        (alive : (u.heap.cell q).metadata.deletion_timestamp ≡ none) where
      Becomes-provision :
          (config : String)
          → get_config_str E (u.heap.cell q) u ≡ ok config
          → config ≢ applied_at u.heap q
          → Becomes u key q (applied_at (provision E q config u).1.heap q)
      Becomes-provision config r d = elim (Option-cases (provision E q config u).0) [
        | inl h ↦
            subst (Becomes u key q) (sym (provision-IsApplied E works L q config u h).applied) (
              inr (record {
                in_store = in_store;
                alive = alive;
                read = r;
                differs = d;
                brought_up = provision_error E works q config u h;
              }))
        | inr (e, h) ↦ inl (provision-IsRejected E works L q config u e h).applied_kept
      ]

      Becomes-own : Becomes u key q (applied_at (handle_cluster_add E q u).1.heap q)
      Becomes-own = elim (Result-cases (get_config_str E (u.heap.cell q) u)) [
        | inr (e, r) ↦
            inl (ap (λ x. applied_at x.1.heap q) (handle_cluster_add-unreadable E works L q u e r))
        | inl (config, r) ↦ elim (Bool-cases (config == applied_at u.heap q)) [
          | inl s ↦ inl (
              ap (λ x. applied_at x.1.heap q)
                (handle_cluster_add-unchanged E works L q config u r ((eq_iff _ _).0 s)))
          | inr d ↦
              subst (λ x. Becomes u key q (applied_at x.1.heap q))
                (sym (handle_cluster_add-changed E works L q config u r d))
                (Becomes-provision config r (λ e. false≢true (sym d ∙ (eq_iff _ _).1 e)))
        ]
      ]

    -- what another object's provisioning leaves
    applied-other :
        (p : Address)
        → same_address p q ≡ false
        → applied_at (handle_cluster_add E p u).1.heap q ≡ applied_at u.heap q
    applied-other p d = elim (Result-cases (get_config_str E (u.heap.cell p) u)) [
      | inr (e, r) ↦
          ap (λ x. applied_at x.1.heap q) (handle_cluster_add-unreadable E works L p u e r)
      | inl (config, r) ↦ elim (Bool-cases (config == applied_at u.heap p)) [
        | inl s ↦
            ap (λ x. applied_at x.1.heap q)
              (handle_cluster_add-unchanged E works L p config u r ((eq_iff _ _).0 s))
        | inr n ↦
            ap (λ x. applied_at x.1.heap q) (handle_cluster_add-changed E works L p config u r n)
            ∙ ap (λ (c : Cluster). c.status.applied_config)
                ((Elsewhere-provision E works p config u).others q d)
      ]
    ]

    heap-remove :
        (p : Address) (t : String)
        → (u.heap.cell p).metadata.deletion_timestamp ≡ some t
        → (handle E p u).1.heap ≡ u.heap
    unfolding handle handle_cluster_remove
    heap-remove p t h = ground (arith, heap-finalize E p controller_name u)

    module _ (p : Address) (in_store : Lister.get E u.indexer key ≡ ok p) where
      Becomes-add :
          (u.heap.cell p).metadata.deletion_timestamp ≡ none
          → Becomes u key q (applied_at (handle_cluster_add E p u).1.heap q)
      Becomes-add alive = elim (Bool-cases (same_address p q)) [
        | inr d ↦ inl (applied-other p d)
        | inl e ↦
            let same = same_address-eq p q e in
            subst (λ x. Becomes u key q (applied_at (handle_cluster_add E x u).1.heap q)) (sym same)
              (Becomes-own (in_store ∙ ap ok same)
                (ap (λ a. (u.heap.cell a).metadata.deletion_timestamp) (sym same) ∙ alive))
      ]

      Becomes-handle : Becomes u key q (applied_at (handle E p u).1.heap q)
      Becomes-handle = elim (Option-cases (u.heap.cell p).metadata.deletion_timestamp) [
        | inl h ↦
            subst (λ r. Becomes u key q (applied_at r.1.heap q)) (sym (handle-add E works L p u h))
              (Becomes-add h)
        | inr (t, h) ↦ inl (ap (λ x. applied_at x q) (heap-remove p t h))
      ]

    unfound :
        (e : E.Error)
        → Lister.get E u.indexer key ≡ err e
        → (Provisioner.sync E key u).1.heap ≡ u.heap
    unfolding Provisioner.sync requeue
    unfound e h = ground arith

    Becomes-sync : Becomes u key q (applied_at (Provisioner.sync E key u).1.heap q)
    Becomes-sync = elim (Result-cases (Lister.get E u.indexer key)) [
      | inr (e, h) ↦ inl (ap (λ x. applied_at x q) (unfound e h))
      | inl (p, h) ↦
          subst (λ x. Becomes u key q (applied_at x q)) (sym (heap-sync E works L p u key h))
            (Becomes-handle p h)
    ]

  module _ {w : World E} (q : Address) {old : String} where
    Earned-same :
        {u v : World E} (before : Reached E w u) (step : Step E u v)
        → applied_at v.heap q ≡ applied_at u.heap q
        → Earned q old u before (applied_at u.heap q)
        → Earned q old v (next before step) (applied_at v.heap q)
    Earned-same {v} before step e so_far =
        subst (Earned q old v (next before step)) (sym e) (kept step e so_far)

    Earned-run :
        {u : World E} (before : Reached E w u) (key : String)
        → Earned q old u before (applied_at u.heap q)
        → Becomes u key q (applied_at (Provisioner.sync E key u).1.heap q)
        → Earned q old
            (Provisioner.sync E key u).1
            (next before (provision_key key u))
            (applied_at (Provisioner.sync E key u).1.heap q)
    Earned-run {u} before key so_far (inl e) = Earned-same before (provision_key key u) e so_far
    Earned-run before key so_far (inr a) = earned key a

    Earned-Step :
        {u v : World E} (before : Reached E w u) (step : Step E u v)
        → q < u.heap.next
        → Earned q old u before (applied_at u.heap q)
        → Earned q old v (next before step) (applied_at v.heap q)
    unfolding handle_cluster_update update_annotation update_config
    Earned-Step r (provision_key k u) lt so_far = Earned-run r k so_far (Becomes-sync u k q)
    Earned-Step r (check_health o p u) lt so_far =
        Earned-same r (check_health o p u) (applied-health p q u) so_far
    Earned-Step r (annotate_cluster o p u) lt so_far =
        Earned-same r (annotate_cluster o p u)
          (ap (λ (c : Cluster). c.status.applied_config) (objects_kept E o u q lt)) so_far
    Earned-Step r (generate_config o p u) lt so_far =
        Earned-same r (generate_config o p u) (ap (λ h. applied_at h q) (heap-config E o u)) so_far
    Earned-Step r (enqueue_item x u) lt so_far =
        Earned-same r (enqueue_item x u) (ap (λ h. applied_at h q) (heap-enqueue E L x u)) so_far
    Earned-Step r (observe k c u) lt so_far =
        Earned-same r (observe k c u) (applied-observe c q u.heap lt) so_far
    Earned-Step r (forget k u) lt so_far = Earned-same r (forget k u) refl so_far
    Earned-Step r (elsewhere o u) lt so_far = Earned-same r (elsewhere o u) refl so_far

  -- Whatever the handlers of the four controllers do, in whatever order, with the informer, the
  -- queue and the world outside changing in between: an object that was there has the applied
  -- configuration that it had at the start, or the one that the last run of the provisioner to change it
  -- gave it, after which each step kept it. In the state in which that run starts, the informer's store
  -- has the object under the run's key, the object is not being deleted, and its file has this
  -- content, which was not the applied one; and the `rke up` of that run reports no error.
  pub reached-Earned :
      {w v : World E} (run : Reached E w v) (q : Address)
      → q < w.heap.next
      → Earned q (w.heap.cell q).status.applied_config v run (v.heap.cell q).status.applied_config
  reached-Earned start q lt = unchanged
  reached-Earned (next before step) q lt =
      let grows = (Keeps-reached E L before).grows in
      Earned-Step q before step (omega arith) (reached-Earned before q lt)

-- ===== src/Provisioner/Applied.antt =====
-- Theorems on sync of provisioner.go and worker of util.go: what a handling that succeeds leaves of
-- the object under the key.
use mathlib.Core.Path.{subst}
use mathlib.Core.Option.{some-ne-none}
use kubecon.Prelude.{
  ℕ, String, ◌≡◌, refl, ap, sym, ◌∙◌, none, arith, Bool-cases, inl, inr, ◌==◌, eq_iff,
}
use kubecon.Platform.{Platform, ok, Result-cases}
use kubecon.Platform.Laws.{IsConditionLibrary}
use kubecon.World.{World, Address, Heap}
use kubecon.Client.Lister
use kubecon.TaskQueue.{turn, requeue}
use kubecon.Provisioner.Steps.{AccessorWorks}
use kubecon.Provisioner.Converge.{
  provision-IsApplied, handle_cluster_add-changed, handle_cluster_add-unchanged,
}
use kubecon.Provisioner.Add.{handle_cluster_add-unreadable}
use kubecon.Provisioner.Requeue.{failure}
use kubecon.Provisioner.Retries.{Succeeded}
use kubecon.Provisioner.{handle, handle_cluster_add, get_config_str, sync}

module _ (E : Platform) (works : AccessorWorks E) (L : IsConditionLibrary E) (p : Address)
    (w : World E) where
  -- In the world `v` the object bears what its file held in `w` as its applied configuration.
  pub record BearsFile (v : World E) : Type 0 where
    pub config : String
    pub read : get_config_str E (w.heap.cell p) w ≡ ok config
    pub applied : (v.heap.cell p).status.applied_config ≡ config

  add-BearsFile : (handle_cluster_add E p w).0 ≡ none → BearsFile (handle_cluster_add E p w).1
  add-BearsFile h = elim (Result-cases (get_config_str E (w.heap.cell p) w)) [
    | inr (e, r) ↦
        absurd (
          some-ne-none e
            (sym (ap (λ x. x.0) (handle_cluster_add-unreadable E works L p w e r)) ∙ h))
    | inl (config, r) ↦ elim (Bool-cases (config == (w.heap.cell p).status.applied_config)) [
      | inl s ↦
          let same = (eq_iff _ _).0 s in
          record {
            config = config;
            read = r;
            applied =
                ap (λ x. (x.1.heap.cell p).status.applied_config)
                  (handle_cluster_add-unchanged E works L p config w r same)
                ∙ sym same;
          }
      | inr d ↦
          let q = handle_cluster_add-changed E works L p config w r d in
          record {
            config = config;
            read = r;
            applied =
                ap (λ x. (x.1.heap.cell p).status.applied_config) q
                ∙ (provision-IsApplied E works L p config w (sym (ap (λ x. x.0) q) ∙ h)).applied;
          }
    ]
  ]

  pub handle-add :
      (w.heap.cell p).metadata.deletion_timestamp ≡ none → handle E p w ≡ handle_cluster_add E p w
  unfolding handle
  handle-add h = ground arith

  handle-BearsFile :
      (w.heap.cell p).metadata.deletion_timestamp ≡ none
      → (handle E p w).0 ≡ none
      → BearsFile (handle E p w).1
  handle-BearsFile alive h =
      let same = handle-add alive in
      subst (λ r. BearsFile r.1) (sym same) (add-BearsFile (sym (ap (λ x. x.0) same) ∙ h))

  module _ (key : String) (in_store : Lister.get E w.indexer key ≡ ok p) where
    pub failure-handle : failure E key w ≡ (handle E p w).0
    failure-handle = ground (arith, in_store)

    pub heap-sync : (sync E key w).1.heap ≡ (handle E p w).1.heap
    unfolding sync requeue
    heap-sync = ground (arith, in_store)

module _ (E : Platform) (works : AccessorWorks E) (L : IsConditionLibrary E) where
  heap-turn :
      (key : String) (q : E.Queue) (w : World E)
      → (turn E (sync E) key q w).heap ≡ (sync E key (record w { queue = q })).1.heap
  unfolding turn
  heap-turn key q w = refl

  -- Once the worker has handled a key until that succeeded, an object that the informer's store held
  -- under it, and that was not being deleted, bears the content of its file as it was when it was
  -- handled last, as its applied configuration.
  pub Succeeded-BearsFile :
      {key : String} {k : ℕ} {w v : World E} (s : Succeeded E key k w v) (p : Address)
      → Lister.get E s.last.indexer key ≡ ok p
      → (s.last.heap.cell p).metadata.deletion_timestamp ≡ none
      → BearsFile E works L p (record (s.last) { queue = s.queue_left }) v
  Succeeded-BearsFile {key} s p in_store alive =
      let u : World E = record (s.last) { queue = s.queue_left } in
      let b =
        handle-BearsFile E works L p u alive
          (sym (failure-handle E works L p u key in_store) ∙ s.succeeded) in
      record {
        config = b.config;
        read = b.read;
        applied =
            ap (λ (x : World E). (x.heap.cell p).status.applied_config) s.after
            ∙ ap (λ (x : Heap). (x.cell p).status.applied_config)
                (heap-turn key s.queue_left s.last ∙ heap-sync E works L p u key in_store)
            ∙ b.applied;
      }

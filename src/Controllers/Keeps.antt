-- ===== src/Controllers/Keeps.antt =====
-- What each handler leaves of the objects in the informer's store.
use kubecon.Prelude.{
  String, ◌≡◌, refl, true, inl, inr, [], List, ◌∷◌, ◌++◌, arith, Bool-cases, Option-cases, ◌==◌,
  ◌&&◌,
}
use kubecon.Prelude.Strings.{has, has-append}
use kubecon.Api.{Cluster, provisioned, ready}
use kubecon.Platform.{Platform, Result-cases}
use kubecon.Platform.Laws.{IsConditionLibrary}
use kubecon.World.{World, Address, do_condition}
use kubecon.World.Keeps.{
  Kept, Kept-same, Keeps, Keeps-same, Keeps-trans, Keeps-write, Keeps-do_condition, Keeps-by,
  Keeps-scratch,
}
use kubecon.TaskQueue.{Enqueued, enqueue, requeue}
use kubecon.Client.Lister
use kubecon.Provisioner.Command.{remove_cluster}
use kubecon.Provisioner.Command.Laws.{heap-execute_command}
use kubecon.Provisioner.Finalizers.{contains_string, set_finalizers, initialize, clean_up, finalize}
use kubecon.Provisioner.Provision.{rke_up, heap-rke_up}
use kubecon.Provisioner.{
  controller_name, provision, record_config, update_applied_config, handle_cluster_add,
  handle_cluster_remove, handle, get_config_str,
}
use kubecon.Provisioner
use kubecon.Healthchecker.{handle_cluster_update, check, validate_healthcheck, contact}
use kubecon.Healthchecker
use kubecon.Annotator.{
  update_annotation, refresh, put_version, get_version, read_version, version_or_empty,
  current_version,
}
use kubecon.Annotator
use kubecon.ConfigGenerator.{update_config, reconcile, create_kubeconfig, update_kubeconfig}
use kubecon.ConfigGenerator

grown : (l : List String) (key k : String) → has l k ≡ true → has (l ++ (key ∷ [])) k ≡ true
grown l key k h = ground (arith, has-append l (key ∷ []) k)

pub Kept-finalizer :
    (key : String) (c : Cluster) → Kept c (set_finalizers (c.metadata.finalizers ++ (key ∷ [])) c)
Kept-finalizer key c = record {
  spec_kept = refl;
  name_kept = refl;
  version_kept = refl;
  uid_kept = refl;
  deletion_kept = refl;
  labels_kept = refl;
  annotations_kept = refl;
  owners_kept = refl;
  finalizers_grow = λ k h. grown c.metadata.finalizers key k h;
}

module _ (E : Platform) where
  Keeps-initialize :
      (p : Address) (key : String) (w : World E) → Keeps w.heap (initialize E p key w).1.heap
  unfolding initialize
  Keeps-initialize p key w = elim (Option-cases (E.accessor_error (w.heap.cell p))) [
    | inr (e, h) ↦ Keeps-same (ground arith)
    | inl h ↦ elim (Bool-cases (contains_string (w.heap.cell p).metadata.finalizers key)) [
      | inl b ↦ Keeps-same (ground arith)
      | inr b ↦
          Keeps-by (ground arith) (Keeps-write p _ w.heap (Kept-finalizer key (w.heap.cell p)))
    ]
  ]

  Keeps-update_applied_config :
      (p : Address) (config : String) (w : World E)
      → Keeps w.heap (update_applied_config E p config w).1.heap
  unfolding update_applied_config
  Keeps-update_applied_config p config w = Keeps-write p _ w.heap (Kept-same _ _ refl refl)

  heap-remove_cluster : (c : Cluster) (w : World E) → (remove_cluster E c w).1.heap ≡ w.heap
  unfolding remove_cluster
  heap-remove_cluster c w = heap-execute_command E _ _ w

  pub heap-finalize :
      (p : Address) (key : String) (w : World E) → (finalize E p key w).1.heap ≡ w.heap
  unfolding finalize clean_up
  heap-finalize p key w = grind (arith, heap-remove_cluster)

  pub heap-validate : (c : Cluster) (w : World E) → (validate_healthcheck E c w).1.heap ≡ w.heap
  unfolding validate_healthcheck contact
  heap-validate c w = ground arith

  heap-version : (c : Cluster) (w : World E) → (get_version E c w).1.heap ≡ w.heap
  unfolding get_version read_version
  heap-version c w = ground arith

  pub heap-config : (p : Address) (w : World E) → (ConfigGenerator.sync E p w).1.heap ≡ w.heap
  unfolding ConfigGenerator.sync reconcile create_kubeconfig update_kubeconfig
  heap-config p w = ground arith

  Keeps-put_version :
      (p : Address) (version : String) (w : World E)
      → Keeps w.heap (put_version E p version w).1.heap
  unfolding put_version
  Keeps-put_version p version w = Keeps-scratch _ _ w.heap

  Keeps-refresh : (p : Address) (w : World E) → Keeps w.heap (refresh E p w).1.heap
  unfolding refresh
  Keeps-refresh p w =
      let (r, w1) = get_version E (w.heap.cell p) w in
      let same = heap-version (w.heap.cell p) w in
      elim (Bool-cases (current_version (w1.heap.cell p) == version_or_empty E r)) [
        | inl h ↦ Keeps-same (ground (arith, h, same))
        | inr h ↦
            Keeps-by (ground (arith, h))
              (Keeps-trans (Keeps-same same) (Keeps-put_version p (version_or_empty E r) w1))
      ]

  pub Keeps-annotator : (p : Address) (w : World E) → Keeps w.heap (Annotator.sync E p w).1.heap
  unfolding Annotator.sync
  Keeps-annotator p w =
      let c = w.heap.cell p in
      elim (Option-cases c.metadata.deletion_timestamp) [
        | inr (t, h) ↦ Keeps-same (ground arith)
        | inl h ↦ elim (Bool-cases (E.is_true provisioned c && E.is_true ready c)) [
          | inl b ↦ Keeps-by (ground arith) (Keeps-refresh p w)
          | inr b ↦ Keeps-same (ground arith)
        ]
      ]

  module _ (L : IsConditionLibrary E) where
    Keeps-provision :
        (p : Address) (config : String) (w : World E) → Keeps w.heap (provision E p config w).1.heap
    unfolding provision record_config
    Keeps-provision p config w =
        let w1 = (initialize E p controller_name w).1 in
        let (e, w2) = do_condition E provisioned p (rke_up E p) w1 in
        let begun = Keeps-initialize p controller_name w in
        let ran = Keeps-trans begun (
          Keeps-do_condition E L provisioned p (rke_up E p) w1
            (λ v. Keeps-same (heap-rke_up E p v))) in
        elim (Option-cases (initialize E p controller_name w).0) [
          | inr (x, h) ↦ Keeps-by (ground arith) begun
          | inl h ↦ elim (Option-cases e) [
            | inr (x, g) ↦ Keeps-by (ground arith) ran
            | inl g ↦ elim (Option-cases (update_applied_config E p config w2).0) [
              | inr (x, u) ↦
                  Keeps-by (ground arith)
                    (Keeps-trans ran (Keeps-update_applied_config p config w2))
              | inl u ↦
                  Keeps-by (ground arith)
                    (Keeps-trans ran (Keeps-update_applied_config p config w2))
            ]
          ]
        ]

    pub Keeps-health : (p : Address) (w : World E) → Keeps w.heap (Healthchecker.sync E p w).1.heap
    unfolding Healthchecker.sync check
    Keeps-health p w = elim (Bool-cases (E.is_true provisioned (w.heap.cell p))) [
      | inr b ↦ Keeps-same (ground arith)
      | inl b ↦ Keeps-by (rw b refl) (
          Keeps-do_condition E L ready p (λ v. validate_healthcheck E (v.heap.cell p) v) w
            (λ v. Keeps-same (heap-validate (v.heap.cell p) v)))
    ]

    Keeps-add : (p : Address) (w : World E) → Keeps w.heap (handle_cluster_add E p w).1.heap
    unfolding handle_cluster_add
    Keeps-add p w = elim (Result-cases (get_config_str E (w.heap.cell p) w)) [
      | inr (e, h) ↦ Keeps-same (ground arith)
      | inl (config, h) ↦ elim (Bool-cases (config == (w.heap.cell p).status.applied_config)) [
        | inl b ↦ Keeps-same (ground arith)
        | inr b ↦ Keeps-by (ground arith) (Keeps-provision p config w)
      ]
    ]

    Keeps-handle : (p : Address) (w : World E) → Keeps w.heap (handle E p w).1.heap
    unfolding handle handle_cluster_remove
    Keeps-handle p w = elim (Option-cases (w.heap.cell p).metadata.deletion_timestamp) [
      | inr (t, h) ↦ Keeps-same (ground (arith, heap-finalize p controller_name w))
      | inl h ↦ Keeps-by (ground arith) (Keeps-add p w)
    ]

    pub Keeps-sync : (key : String) (w : World E) → Keeps w.heap (Provisioner.sync E key w).1.heap
    unfolding Provisioner.sync requeue
    Keeps-sync key w = elim (Result-cases (Lister.get E w.indexer key)) [
      | inr (e, h) ↦ Keeps-same (ground arith)
      | inl (p, h) ↦ elim (Option-cases (handle E p w).0) [
        | inr (x, g) ↦ Keeps-by (ground arith) (Keeps-handle p w)
        | inl g ↦ Keeps-by (ground arith) (Keeps-handle p w)
      ]
    ]

    pub heap-enqueue : (x : Enqueued) (w : World E) → (enqueue E x w).1.heap ≡ w.heap
    unfolding enqueue
    heap-enqueue (Enqueued.key k) w = refl
    heap-enqueue (Enqueued.object c) w = ground arith

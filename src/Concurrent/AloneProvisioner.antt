-- ===== src/Concurrent/AloneProvisioner.antt =====
-- Lemmas: the steps of the provisioner, with no other handler at work.
use kubecon.Prelude.{
  ℕ, zero, suc, String, ◌≡◌, refl, ap, ◌∙◌, Option, none, some, Option-cases, Bool-cases, inl, inr,
  ◌++◌, [], ◌∷◌, arith, true, false, ◌==◌, if◌then◌else◌,
}
use kubecon.Api.{Cluster, provisioned}
use kubecon.Platform.{Platform, Result-cases, ok}
use kubecon.World.{World, Address, outside, do_condition, store}
use kubecon.World.Retry.{retry}
use kubecon.Client.Lister
use kubecon.TaskQueue.{requeue}
use kubecon.Provisioner.Command.{provision_cluster, remove_cluster}
use kubecon.Provisioner.Finalizers.{
  contains_string, set_finalizers, without, initialize, clean_up, finalize,
}
use kubecon.Provisioner.{
  controller_name, provision, record_config, update_applied_config, handle_cluster_add,
  handle_cluster_remove, handle, get_config_str, error_about, sync,
}
use kubecon.Concurrent.{Task, ended, bind, alone, alone-bind, update_loop, do_condition_task}
use kubecon.Concurrent.Alone.{alone-update_loop, alone-do_condition}
use kubecon.Concurrent.Provisioning.{
  send_loop, add_finalizer, initialized_task, initialize_task, up_task, record_task, bring_up_task,
  provision_task, configure_task, add_task, send_cleaned_task, clean_up_task, inspect_task,
  finalize_found, finalize_task, removed_task, dispatch_task, handle_task, requeue_task,
  look_up_task, sync_task,
}

module _ (E : Platform) where
  alone-send_loop :
      (n : ℕ) (c : Cluster) (last : Option E.Error) (w : World E)
      → alone (send_loop E n c last) w ≡ outside E (retry n (E.clusters.update c) last) w
  unfolding alone send_loop retry
  alone-send_loop zero c last w = refl
  alone-send_loop (suc n) c last w =
      let o = (E.clusters.update c w.outside).1 in
      elim (Option-cases (E.clusters.update c w.outside).0) [
        | inl h ↦ ground (arith, h)
        | inr (x, h) ↦ ground (arith, h, alone-send_loop n c (some x) (record w { outside = o }))
      ]

  -- a loop of updates whose error is dropped
  abbrev dropping : Address → Task E (Option E.Error)
  dropping p = bind (update_loop E 3 p none) (λ _. ended none)

  alone-dropping :
      (p : Address) (w : World E)
      → alone (dropping p) w
        ≡ (none, (outside E (retry 3 (E.clusters.update (w.heap.cell p)) none) w).1)
  unfolding alone
  alone-dropping p w =
      alone-bind (update_loop E 3 p none) (λ _. ended none) w
      ∙ ap (λ (r : Option E.Error × World E). (none, r.1)) (alone-update_loop E 3 p none w)

  alone-initialize :
      (p : Address) (key : String) (w : World E)
      → alone (initialize_task E p key) w ≡ initialize E p key w
  unfolding alone initialized_task add_finalizer initialize
  alone-initialize p key w = elim (Option-cases (E.accessor_error (w.heap.cell p))) [
    | inr (e, h) ↦ ground (arith, h)
    | inl h ↦ elim (Bool-cases (contains_string (w.heap.cell p).metadata.finalizers key)) [
      | inl b ↦ ground (arith, h, b)
      | inr b ↦
          let c = w.heap.cell p in
          let v = (store E p (set_finalizers (c.metadata.finalizers ++ (key ∷ [])) c) w).1 in
          ground (arith, h, b, alone-dropping p v)
    ]
  ]

  alone-up :
      (p : Address) (w : World E)
      → alone (do_condition_task E provisioned p (up_task E p)) w
        ≡ do_condition E provisioned p (λ v. provision_cluster E (v.heap.cell p) v) w
  unfolding alone
  alone-up p w = alone-do_condition E provisioned p (up_task E p) w

  -- the rest of handleClusterAdd once `initialize` has returned no error
  abbrev brought_up : Address → String → World E → Option E.Error × World E
  brought_up p config w =
      let (e, v) = do_condition E provisioned p (λ u. provision_cluster E (u.heap.cell p) u) w in
      elim e [
        | some x ↦ (some (error_about E "error provisioning cluster " p v x), v)
        | none ↦ record_config E p config v
      ]

  alone-record :
      (p : Address) (config : String) (e : Option E.Error) (w : World E)
      → alone (record_task E p config e) w ≡ elim e [
        | some x ↦ (some (error_about E "error provisioning cluster " p w x), w)
        | none ↦ record_config E p config w
      ]
  unfolding alone record_task record_config update_applied_config
  alone-record p config (some x) w = refl
  alone-record p config none w = alone-dropping p _

  alone-bring_up :
      (p : Address) (config : String) (w : World E)
      → alone (bring_up_task E p config none) w ≡ brought_up p config w
  unfolding bring_up_task
  alone-bring_up p config w =
      alone-bind (do_condition_task E provisioned p (up_task E p)) (λ e. record_task E p config e) w
      ∙ ap (λ (x : Option E.Error × World E). alone (record_task E p config x.0) x.1) (alone-up p w)
      ∙ alone-record p config _ _

  alone-provision :
      (p : Address) (config : String) (w : World E)
      → alone (provision_task E p config false) w ≡ provision E p config w
  unfolding alone provision_task provision bring_up_task record_config update_applied_config
  alone-provision p config w =
      let w1 = (initialize E p controller_name w).1 in
      alone-bind (initialize_task E p controller_name) (λ e. bring_up_task E p config e) w
      ∙ ap (λ (x : Option E.Error × World E). alone (bring_up_task E p config x.0) x.1)
          (alone-initialize p controller_name w)
      ∙ elim (Option-cases (initialize E p controller_name w).0) [
        | inr (x, h) ↦ ground (arith, h)
        | inl h ↦ ground (arith, h, alone-bring_up p config w1)
      ]

  alone-add : (p : Address) (w : World E) → alone (add_task E p) w ≡ handle_cluster_add E p w
  unfolding alone configure_task provision_task handle_cluster_add
  alone-add p w = elim (Result-cases (get_config_str E (w.heap.cell p) w)) [
    | inr (e, h) ↦ ground (arith, h)
    | inl (config, h) ↦ elim (Bool-cases (config == (w.heap.cell p).status.applied_config)) [
      | inl s ↦ ground (arith, h, s)
      | inr d ↦ ground (arith, h, d, alone-provision p config w)
    ]
  ]

  alone-clean_up :
      (p : Address) (x : Cluster) (key : String) (w : World E)
      → alone (clean_up_task E p key x true) w ≡ clean_up E p x key w
  unfolding alone clean_up_task send_cleaned_task clean_up
  alone-clean_up p x key w =
      let (e, v) = remove_cluster E (w.heap.cell p) w in
      let sent = set_finalizers (without key x.metadata.finalizers) x in
      elim (Option-cases (remove_cluster E (w.heap.cell p) w).0) [
        | inr (y, h) ↦ ground (arith, h)
        | inl h ↦ ground (arith, h, alone-send_loop 3 sent none v)
      ]

  alone-found :
      (p : Address) (key : String) (x : Cluster) (w : World E)
      → alone (finalize_found E p key (ok x)) w ≡ elim (E.accessor_error x) [
        | some e ↦ (some e, w)
        | none ↦ elim x.metadata.deletion_timestamp [
          | none ↦ (none, w)
          | some _ ↦
              if contains_string x.metadata.finalizers key then clean_up E p x key w else (none, w)
        ]
      ]
  unfolding alone finalize_found inspect_task clean_up_task
  alone-found p key x w = ground (arith, alone-clean_up p x key w)

  alone-finalize :
      (p : Address) (key : String) (w : World E)
      → alone (finalize_task E p key) w ≡ finalize E p key w
  unfolding alone finalize_found finalize
  alone-finalize p key w =
      let (r, v) = outside E (E.clusters.get (w.heap.cell p).metadata.name) w in
      elim (Result-cases (E.clusters.get (w.heap.cell p).metadata.name w.outside).0) [
        | inr (e, h) ↦ ground (arith, h)
        | inl (x, h) ↦ ground (arith, h, alone-found p key x v)
      ]

  alone-remove :
      (p : Address) (w : World E)
      → alone (bind (finalize_task E p controller_name) (λ e. removed_task E p e)) w
        ≡ handle_cluster_remove E p w
  unfolding alone removed_task handle_cluster_remove
  alone-remove p w =
      alone-bind (finalize_task E p controller_name) (λ e. removed_task E p e) w
      ∙ ap (λ (x : Option E.Error × World E). alone (removed_task E p x.0) x.1)
          (alone-finalize p controller_name w)
      ∙ ground arith

  alone-handle : (p : Address) (w : World E) → alone (handle_task E p) w ≡ handle E p w
  unfolding alone dispatch_task handle
  alone-handle p w = elim (Option-cases (w.heap.cell p).metadata.deletion_timestamp) [
    | inl d ↦ ground (arith, d, alone-add p w)
    | inr (t, d) ↦ ground (arith, d, alone-remove p w)
  ]

  alone-found_key :
      (key : String) (p : Address) (w : World E)
      → alone (bind (handle_task E p) (λ e. requeue_task E key e)) w
        ≡ (let (e, v) = handle E p w in elim e [ some x ↦ requeue E key x v | none ↦ (tt, v) ])
  unfolding alone requeue_task requeue
  alone-found_key key p w =
      alone-bind (handle_task E p) (λ e. requeue_task E key e) w
      ∙ ap (λ (x : Option E.Error × World E). alone (requeue_task E key x.0) x.1) (alone-handle p w)
      ∙ ground arith

  pub alone-sync : (key : String) (w : World E) → alone (sync_task E key) w ≡ sync E key w
  unfolding alone sync_task look_up_task sync requeue_task requeue
  alone-sync key w = elim (Result-cases (Lister.get E w.indexer key)) [
    | inr (e, h) ↦ ground (arith, h)
    | inl (p, h) ↦ ground (arith, h, alone-found_key key p w)
  ]

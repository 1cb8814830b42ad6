-- ===== src/Healthchecker/Laws.antt =====
-- When the health check passes, and what the controller makes of its result.
use kubecon.Prelude.{
  String, ◌≡◌, ◌↔◌, refl, ap, sym, ◌∙◌, true, Option, none, some, is_none, arith, ◌⊎◌, ◌==◌, inl,
  inr, if◌then◌else◌,
}
use mathlib.Core.Path.{subst}
use kubecon.Api.{Cluster, ObjectMeta, Kubeconfig, ready, provisioned}
use kubecon.Platform.{Platform, ok, err, Result-cases}
use kubecon.Platform.Laws.{IsConditionLibrary, KeepsClusters, OthersKeep, stored}
use kubecon.Client.Clientset.{new_for_config, ConfigOf, Clientset}
use kubecon.World.{World, M, Address, do_condition}
use kubecon.World.Laws.{before_call, cell-do_condition, cell-write_cell}
use kubecon.World.Writes.{retry_writes_or_not}
use kubecon.Healthchecker.{contact, validate_healthcheck, check, sync}

is_none_iff : {A : Type 0} (o : Option A) → (is_none o ≡ true) ↔ (o ≡ none)
is_none_iff none = (λ _. refl, λ _. refl)
is_none_iff (some a) = (λ h. cc, λ h. cc)

module _ (E : Platform) where
  -- The ways in which a cluster passes: it has no Kubeconfig yet, or its API server, reached by its
  -- kubeconfig, tells its version.
  pub data Passes (name : String) (o : E.Outside) : Type 0 where
    no_kubeconfig :
        (e : E.Error)
        → (E.kubeconfigs.get name o).0 ≡ err e
        → E.is_not_found e ≡ true
        → Passes name o
    answered :
        (k : Kubeconfig) (r : ConfigOf E.rest) (client : Clientset E.rest) (version : String)
        → (E.kubeconfigs.get name o).0 ≡ ok k
        → E.build_config k.spec.config_path (E.kubeconfigs.get name o).1 ≡ ok r
        → new_for_config E.rest r ≡ ok client
        → (E.server_version client.discovery (E.kubeconfigs.get name o).1).0 ≡ ok version
        → Passes name o

  module _ (c : Cluster) (w : World E) where
    passes : Passes c.metadata.name w.outside → (validate_healthcheck E c w).0 ≡ none
    unfolding validate_healthcheck contact
    passes (no_kubeconfig e g f) = ground arith
    passes (answered k r client v g b n s) = ground arith

    pub passed : (validate_healthcheck E c w).0 ≡ none → Passes c.metadata.name w.outside
    unfolding validate_healthcheck contact
    passed h = elim (Result-cases (E.kubeconfigs.get c.metadata.name w.outside).0) [
      | inr (e, g) ↦ no_kubeconfig e g (ground arith)
      | inl (k, g) ↦
          elim (Result-cases
            (E.build_config k.spec.config_path (E.kubeconfigs.get c.metadata.name w.outside).1)) [
              | inr (e, b) ↦ ground arith
              | inl (r, b) ↦ elim (Result-cases (new_for_config E.rest r)) [
                | inr (e, n) ↦ ground arith
                | inl (client, n) ↦
                    elim (Result-cases
                      (E.server_version client.discovery
                        (E.kubeconfigs.get c.metadata.name w.outside).1).0) [
                          | inr (e, s) ↦ ground arith
                          | inl (v, s) ↦ answered k r client v g b n s
                        ]
              ]
            ]
    ]

    -- The health check returns no error exactly where the cluster has no Kubeconfig yet, or its API
    -- server, reached by its kubeconfig, tells its version.
    validate_healthcheck_iff :
        ((validate_healthcheck E c w).0 ≡ none) ↔ Passes c.metadata.name w.outside
    validate_healthcheck_iff = (passed, passes)

    pub heap-validate_healthcheck : (validate_healthcheck E c w).1.heap ≡ w.heap
    unfolding validate_healthcheck contact
    heap-validate_healthcheck = ground arith

    view-validate_healthcheck :
        {view : E.Outside → String → Option Cluster}
        → OthersKeep E view
        → (n : String) → view (validate_healthcheck E c w).1.outside n ≡ view w.outside n
    unfolding validate_healthcheck contact
    view-validate_healthcheck K n = grind (arith, K.get_kubeconfig_keeps, K.server_version_keeps)

  -- The function that `sync` gives to `Do`.
  abbrev pub health : Address → M E (Option E.Error)
  health p v = validate_healthcheck E (v.heap.cell p) v

  module _ (L : IsConditionLibrary E) (p : Address) (w : World E)
      (on : E.is_true provisioned (w.heap.cell p) ≡ true) where
    abbrev pub began : World E
    began = before_call E ready p (health p) w

    abbrev pub judged : World E
    judged = (do_condition E ready p (health p) w).1

    pub sync-check : sync E p w ≡ check E p w
    unfolding sync
    sync-check = rw on

    cell-sync :
        (sync E p w).1.heap.cell p
        ≡ E.finished ready (w.heap.cell p) (E.starting ready (w.heap.cell p)) (health p began).0
    unfolding check
    cell-sync =
        ap (λ v. v.1.heap.cell p) sync-check
        ∙ cell-do_condition E ready p (health p) w (heap-validate_healthcheck _ began)

    metadata_began : (began.heap.cell p).metadata ≡ (w.heap.cell p).metadata
    metadata_began =
        ap (λ (c : Cluster). c.metadata) (cell-write_cell p _ w.heap) ∙ L.starting_metadata ready _

    ready-sync : E.is_true ready ((sync E p w).1.heap.cell p) ≡ is_none (health p began).0
    ready-sync = rw cell-sync (by_error (health p began).0)
      where
        by_error :
            (e : Option E.Error)
            → E.is_true ready
                (E.finished ready (w.heap.cell p) (E.starting ready (w.heap.cell p)) e)
              ≡ is_none e
        by_error none = L.true_after ready _
        by_error (some e) = L.false_after ready _ e

    -- The health checker marks a provisioned cluster ready exactly where it has no Kubeconfig yet, or
    -- its API server, reached by its kubeconfig, tells its version.
    pub sync-ready_iff :
        (E.is_true ready ((sync E p w).1.heap.cell p) ≡ true)
        ↔ Passes (w.heap.cell p).metadata.name w.outside
    sync-ready_iff =
        let name = ap (λ (m : ObjectMeta). m.name) metadata_began in
        let iff = validate_healthcheck_iff (began.heap.cell p) began in
        (
          λ h.
              subst (λ n. Passes n w.outside) name
                (iff.0 ((is_none_iff (health p began).0).0 (sym ready-sync ∙ h))),
          λ q.
              ready-sync
              ∙ (is_none_iff (health p began).0).1
                  (iff.1 (subst (λ n. Passes n w.outside) (sym name) q)),
        )

    -- The server holds what it held, or the object with its new conditions besides.
    sync_writes :
        {view : E.Outside → String → Option Cluster}
        → KeepsClusters E view
        → let o' = (sync E p w).1.outside in
          let c' = (sync E p w).1.heap.cell p in
          ((n : String) → view o' n ≡ view w.outside n)
          ⊎ ((n : String)
              → view o' n ≡ (if c'.metadata.name == n then stored c' else view w.outside n))
    unfolding check
    sync_writes {view} K =
        let same : (n : String) → view judged.outside n ≡ view w.outside n =
          λ n. view-validate_healthcheck (began.heap.cell p) began K.others n in
        rw sync-check (elim (retry_writes_or_not E K (judged.heap.cell p) 2 judged.outside) [
          | inl h ↦ inl (λ n. h n ∙ same n)
          | inr h ↦ inr (λ n.
              h n
              ∙ ap
                  (λ v.
                    if (judged.heap.cell p).metadata.name == n
                    then stored (judged.heap.cell p)
                    else v)
                  (same n))
        ])

-- ===== src/Controllers/Sends.antt =====
-- What the handlers of the four controllers send to the API server, and that all they do outside the
-- process keeps what their calls keep.
use mathlib.Core.Bool.{false≢true}
use mathlib.Core.Path.{ap₂, subst}
use kubecon.Prelude.{
  String, ◌≡◌, refl, ap, sym, ◌∙◌, true, none, arith, Bool-cases, Option-cases, inl, inr, ◌==◌,
  eq_iff, List, [],
}
use kubecon.Api.{Cluster, ObjectMeta, ClusterSpec, provisioned, ready}
use kubecon.Platform.{Platform, Result-cases}
use kubecon.Platform.Laws.{IsConditionLibrary}
use kubecon.World.{World, Address}
use kubecon.World.Laws.{cell-do_condition}
use kubecon.World.Retry.{retry, retry-keeps}
use kubecon.Healthchecker.Laws.{health, began, judged, sync-check, heap-validate_healthcheck}
use kubecon.Healthchecker.{check, validate_healthcheck, contact}
use kubecon.Healthchecker
use kubecon.Annotator.Laws.{
  is_due, sync-refresh, sync-idle, refresh-current, refresh-stale, asked, version_found,
}
use kubecon.Annotator.{annotate, refresh, current_version, get_version, read_version}
use kubecon.Annotator
use kubecon.Provisioner.Finalizers.{contains_string}
use kubecon.Provisioner.Steps.{AccessorWorks, with_finalizer}
use kubecon.Provisioner.Provision.{
  provision-done, provision-failed, ran_up, inside, initialized, rke_up,
}
use kubecon.Provisioner.Converge.{handle_cluster_add-changed, handle_cluster_add-unchanged}
use kubecon.Provisioner.Add.{handle_cluster_add-unreadable, outside-rke_up}
use kubecon.Provisioner.Unrecorded.{
  outside_initialize_new, metadata_ran_up, spec_ran_up, outside_done, to_record,
}
use kubecon.Provisioner.Recorded.{outside_initialize_old}
use kubecon.Provisioner.{controller_name, provision, handle_cluster_add, get_config_str}

-- What no controller is to change of a cluster: its metadata but for the annotations, the finalizers and
-- the version, and its spec.
abbrev bare : ObjectMeta → ObjectMeta
bare m = record m { annotations = none; finalizers = []; resource_version = "" }

abbrev pub core : Cluster → ObjectMeta × ClusterSpec
core c = (bare c.metadata, c.spec)

-- An object that is sent in place of another: of the same core, and in the same version.
pub record Sent (old new : Cluster) : Type 0 where
  pub same_core : core new ≡ core old
  pub same_version : new.metadata.resource_version ≡ old.metadata.resource_version

pub same_name : {old new : Cluster} → Sent old new → new.metadata.name ≡ old.metadata.name
same_name s = ap (λ (x : ObjectMeta × ClusterSpec). x.0.name) s.same_core

-- What the calls that do not send a cluster keep.
pub record OthersPreserve (E : Platform) (P : E.Outside → Type 0) : Type 0 where
  pub runs : (name : String) (args : List String) (o : E.Outside) → P o → P (E.exec name args o).1
  pub asks : (name : String) (o : E.Outside) → P o → P (E.kubeconfigs.get name o).1
  pub calls : (r : E.rest.Discovery) (o : E.Outside) → P o → P (E.server_version r o).1

Sent-metadata : (a b : Cluster) → b.metadata ≡ a.metadata → b.spec ≡ a.spec → Sent a b
Sent-metadata a b m s = record {
  same_core = ap₂ (λ x y. (bare x, y)) m s;
  same_version = ap (λ (x : ObjectMeta). x.resource_version) m;
}

Sent-trans : {a b c : Cluster} → Sent a b → Sent b c → Sent a c
Sent-trans f g = record {
  same_core = g.same_core ∙ f.same_core;
  same_version = g.same_version ∙ f.same_version;
}

Sent-with_finalizer : (key : String) (c : Cluster) → Sent c (with_finalizer key c)
Sent-with_finalizer key c = elim (Bool-cases (contains_string c.metadata.finalizers key)) [
  | inl b ↦ rw b (record { same_core = refl; same_version = refl })
  | inr b ↦ rw b (record { same_core = refl; same_version = refl })
]

module _ (E : Platform) (L : IsConditionLibrary E) (P : E.Outside → Type 0) (p : Address)
    (w : World E) where
  abbrev cluster_of : Cluster
  cluster_of = w.heap.cell p

  module _
      (sends : (c : Cluster) (o : E.Outside)
        → Sent cluster_of c
        → P o
        → P (E.clusters.update c o).1)
      (K : OthersPreserve E P) where
    loop :
        (c : Cluster) (o : E.Outside)
        → Sent cluster_of c
        → P o
        → P (retry 3 (E.clusters.update c) none o).1
    loop c o s = retry-keeps (E.clusters.update c) P (λ x. sends c x s) 3 none o

    validated : (c : Cluster) (v : World E) → P v.outside → P (validate_healthcheck E c v).1.outside
    unfolding validate_healthcheck contact
    validated c v h = grind (arith, K.asks, K.calls)

    version_asked : (c : Cluster) (v : World E) → P v.outside → P (get_version E c v).1.outside
    unfolding get_version read_version
    version_asked c v h = grind (arith, K.asks, K.calls)

    module _ (on : E.is_true provisioned cluster_of ≡ true) where
      cell_judged :
          (judged E L p w on).heap.cell p
          ≡ E.finished ready cluster_of
              (E.starting ready cluster_of)
              (health E p (began E L p w on)).0
      cell_judged =
          cell-do_condition E ready p (health E p) w
            (heap-validate_healthcheck E _ (began E L p w on))

      Sent-judged : Sent cluster_of ((judged E L p w on).heap.cell p)
      Sent-judged =
          Sent-metadata cluster_of _
            (ap (λ (c : Cluster). c.metadata) cell_judged
              ∙ L.finished_metadata ready _ _ _
              ∙ L.starting_metadata ready _)
            (ap (λ (c : Cluster). c.spec) cell_judged
              ∙ L.finished_spec ready _ _ _
              ∙ L.starting_spec ready _)

      outside_checked : P w.outside → P (check E p w).1.outside
      unfolding check
      outside_checked h =
          loop ((judged E L p w on).heap.cell p) (judged E L p w on).outside Sent-judged
            (validated ((began E L p w on).heap.cell p) (began E L p w on) h)

    pub outside-health : P w.outside → P (Healthchecker.sync E p w).1.outside
    unfolding Healthchecker.sync
    outside-health h = elim (Bool-cases (E.is_true provisioned cluster_of)) [
      | inl on ↦ subst (λ v. P v.1.outside) (sym (sync-check E L p w on)) (outside_checked on h)
      | inr off ↦ rw off h
    ]

    -- the copy that the annotator sends
    Sent-annotate : (version : String) → Sent cluster_of (annotate version cluster_of)
    unfolding annotate
    Sent-annotate version = record { same_core = refl; same_version = refl }

    outside-refresh : P w.outside → P (refresh E p w).1.outside
    outside-refresh h =
        let k = version_asked cluster_of w h in
        elim (Bool-cases (current_version cluster_of == version_found E p w)) [
          | inl s ↦ subst P (sym (refresh-current E p w ((eq_iff _ _).0 s))) k
          | inr d ↦
              subst P (sym (refresh-stale E p w (λ e. false≢true (sym d ∙ (eq_iff _ _).1 e)))) (
                loop (annotate (version_found E p w) cluster_of) (asked E p w).outside
                  (Sent-annotate (version_found E p w)) k)
        ]

    pub outside-annotator : P w.outside → P (Annotator.sync E p w).1.outside
    outside-annotator h = elim (Bool-cases (is_due E p w)) [
      | inl due ↦ subst (λ v. P v.1.outside) (sym (sync-refresh E p w due)) (outside-refresh h)
      | inr idle ↦ subst (λ v. P v.1.outside) (sym (sync-idle E p w idle)) h
    ]

    module _ (works : AccessorWorks E) (config : String) where
      outside_initialized : P w.outside → P (initialized E works p config w).outside
      outside_initialized h =
          elim (Bool-cases (contains_string cluster_of.metadata.finalizers controller_name)) [
            | inl b ↦
                subst P (sym (outside_initialize_old controller_name cluster_of b E works p w refl))
                  h
            | inr b ↦ subst P (sym (outside_initialize_new E works p controller_name w b)) (
                loop (with_finalizer controller_name cluster_of) w.outside
                  (Sent-with_finalizer controller_name cluster_of) h)
          ]

      outside_ran : P w.outside → P (ran_up E works p config w).outside
      outside_ran h =
          outside-rke_up E works L p w P K.runs (inside E works p config w) (outside_initialized h)

      Sent-to_record : Sent cluster_of (to_record E works L p w config)
      Sent-to_record = Sent-trans (Sent-with_finalizer controller_name cluster_of) (
          Sent-metadata _ _ (metadata_ran_up E works L p w config)
            (spec_ran_up E works L p w config))

      outside_provisioned : P w.outside → P (provision E p config w).1.outside
      outside_provisioned h = elim (Option-cases (rke_up E p (inside E works p config w)).0) [
        | inl e ↦
            subst P
              (sym (
                outside_done E works L p w config
                  (ap (λ v. v.0) (provision-done E works p config w e))))
              (loop (to_record E works L p w config) (ran_up E works p config w).outside
                Sent-to_record (outside_ran h))
        | inr (y, e) ↦
            subst (λ v. P v.1.outside) (sym (provision-failed E works p config w y e))
              (outside_ran h)
      ]

    pub outside-add : AccessorWorks E → P w.outside → P (handle_cluster_add E p w).1.outside
    outside-add works h = elim (Result-cases (get_config_str E cluster_of w)) [
      | inr (e, r) ↦
          subst (λ v. P v.1.outside) (sym (handle_cluster_add-unreadable E works L p w e r)) h
      | inl (config, r) ↦ elim (Bool-cases (config == cluster_of.status.applied_config)) [
        | inl s ↦
            subst (λ v. P v.1.outside)
              (sym (handle_cluster_add-unchanged E works L p config w r ((eq_iff _ _).0 s))) h
        | inr d ↦
            subst (λ v. P v.1.outside) (sym (handle_cluster_add-changed E works L p config w r d))
              (outside_provisioned works config h)
      ]
    ]

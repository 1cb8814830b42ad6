-- ===== src/Annotator/Laws.antt =====
-- Theorems on annotator.go: what sync writes, and where.
use mathlib.Core.Path.{subst}
use text.Mathlib.TextPositions.{eq_refl}
use kubecon.Prelude.{
  String, ◌≡◌, ◌≢◌, ◌<◌, refl, ap, sym, ◌∙◌, true, false, Bool, Option, none, some, [], arith,
  is_none, Bool-cases, inl, inr, if◌then◌else◌, ◌==◌, eq_iff, ◌&&◌,
}
use mathlib.Core.Bool.{false≢true}
use kubecon.Prelude.Map.{index, index-assign}
use kubecon.Api.{Cluster, ready, provisioned}
use kubecon.Platform.{Platform, Result, err}
use kubecon.Platform.Laws.{KeepsClusters, OthersKeep, stored, cluster_content}
use kubecon.World.{World, Address, Heap}
use kubecon.World.Retry.{retry, retry-first}
use kubecon.World.Laws.{same_address_self}
use kubecon.World.Writes.{left, view-retry}
use kubecon.Annotator.{
  kubernetes_version_annotation, current_version, annotate, read_version, get_version,
  version_or_empty, put_version, refresh, sync,
}

-- An annotation as a reader of the object finds it: the empty string where there is none.
abbrev pub annotation : String → Cluster → String
annotation key c = elim c.metadata.annotations [ none ↦ "" | some m ↦ index m key ]

index-nil : (key : String) → index [] key ≡ ""
unfolding index
index-nil key = refl

-- The write sets this one annotation, and leaves the others and the rest of the object alone.
annotation-annotate :
    (version key : String) (c : Cluster)
    → annotation key (annotate version c)
      ≡ (if kubernetes_version_annotation == key then version else annotation key c)
unfolding annotate
annotation-annotate version key c = ground (
  arith,
  index-nil key,
  index-assign (elim c.metadata.annotations [ none ↦ [] | some m ↦ m ])
      kubernetes_version_annotation version key,
)

module _ (E : Platform) (p : Address) (w : World E) where
  heap-get_version : (c : Cluster) (v : World E) → (get_version E c v).1.heap ≡ v.heap
  unfolding get_version read_version
  heap-get_version c v = ground arith

  cell-put_version :
      (version : String) (v : World E) (q : Address)
      → q < v.heap.next
      → (put_version E p version v).1.heap.cell q ≡ v.heap.cell q
  unfolding put_version
  cell-put_version version v q h = ground arith

  abbrev version_read : Result E.Error String
  version_read = (get_version E (w.heap.cell p) w).0

  -- the world after the version was asked for
  abbrev pub asked : World E
  asked = (get_version E (w.heap.cell p) w).1

  cell-refresh : (q : Address) → q < w.heap.next → (refresh E p w).1.heap.cell q ≡ w.heap.cell q
  unfolding refresh
  cell-refresh q h =
      let e = heap-get_version (w.heap.cell p) w in
      ground (
        arith,
        e,
        cell-put_version (version_or_empty E version_read) asked q
            (subst (λ (x : Heap). q < x.next) (sym e) h),
        ap (λ (x : Heap). x.cell q) e,
      )

  -- The annotator's `sync` leaves the objects that existed before, those of the informer's store
  -- among them, as they are.
  pub objects_kept : (q : Address) → q < w.heap.next → (sync E p w).1.heap.cell q ≡ w.heap.cell q
  unfolding sync
  objects_kept q h = ground (arith, cell-refresh q h)

  -- The guards of `sync`.
  abbrev pub is_due : Bool
  is_due = elim (w.heap.cell p).metadata.deletion_timestamp [
    | some _ ↦ false
    | none ↦ E.is_true provisioned (w.heap.cell p) && E.is_true ready (w.heap.cell p)
  ]

  view-get_version :
      {view : E.Outside → String → Option Cluster}
      → OthersKeep E view
      → (c : Cluster) (n : String) → view (get_version E c w).1.outside n ≡ view w.outside n
  unfolding get_version read_version
  view-get_version K c n = grind (arith, K.get_kubeconfig_keeps, K.server_version_keeps)

  abbrev pub cluster_of : Cluster
  cluster_of = w.heap.cell p

  abbrev pub version_found : String
  version_found = version_or_empty E version_read

  outside-put_version :
      (version : String) (v : World E)
      → (put_version E p version v).1.outside
        ≡ (retry 3 (E.clusters.update (annotate version (v.heap.cell p))) none v.outside).1
  unfolding put_version
  outside-put_version version v = rw (same_address_self v.heap.next)

  -- how the write of the annotated cluster goes
  abbrev attempt : Option E.Error × E.Outside
  attempt = retry 3 (E.clusters.update (annotate version_found cluster_of)) none asked.outside

  pub sync-refresh : is_due ≡ true → sync E p w ≡ refresh E p w
  unfolding sync
  sync-refresh due = ground arith

  pub sync-idle : is_due ≡ false → sync E p w ≡ (tt, w)
  unfolding sync
  sync-idle idle = ground arith

  pub refresh-current :
      current_version cluster_of ≡ version_found → (refresh E p w).1.outside ≡ asked.outside
  unfolding refresh
  refresh-current c =
      let e = ap (λ (x : Heap). x.cell p) (heap-get_version cluster_of w) in
      rw e (ground (arith, eq_iff (current_version cluster_of) version_found))

  pub refresh-stale :
      current_version cluster_of ≢ version_found → (refresh E p w).1.outside ≡ attempt.1
  unfolding refresh
  refresh-stale c =
      let e = ap (λ (x : Heap). x.cell p) (heap-get_version cluster_of w) in
      ground (
        arith,
        e,
        eq_iff (current_version cluster_of) version_found,
        outside-put_version version_found asked,
      )

  module _ {view : E.Outside → String → Option Cluster} (K : KeepsClusters E view)
      (due : is_due ≡ true) where
    abbrev after : E.Outside
    after = (sync E p w).1.outside

    -- A cluster whose annotation names the version that was found is not written.
    sync_current :
        current_version cluster_of ≡ version_found → (n : String) → view after n ≡ view w.outside n
    sync_current c n =
        ap (λ v. view v.1.outside n) (sync-refresh due)
        ∙ ap (λ o. view o n) (refresh-current c)
        ∙ view-get_version K.others cluster_of n

    outside-stale : current_version cluster_of ≢ version_found → after ≡ attempt.1
    outside-stale d = ap (λ v. v.1.outside) (sync-refresh due) ∙ refresh-stale d

    -- what the server holds under `n` after the loop of writes, by the error that it returned
    abbrev after_loop : Option E.Error → String → Option Cluster
    after_loop e n =
        if is_none e && (cluster_of.metadata.name == n)
        then stored (annotate version_found cluster_of)
        else view w.outside n

    sync_stale :
        current_version cluster_of ≢ version_found
        → (n : String) → view after n ≡ after_loop attempt.0 n
    unfolding annotate
    sync_stale d n =
        ap (λ o. view o n) (outside-stale d)
        ∙ view-retry E K (annotate version_found cluster_of) 2 asked.outside n
        ∙ left_by attempt.0
      where
        left_by :
            (e : Option E.Error)
            → left E K (annotate version_found cluster_of) e asked.outside n ≡ after_loop e n
        left_by none = rw (view-get_version K.others cluster_of n) refl
        left_by (some e) = view-get_version K.others cluster_of n

    -- For a cluster that is provisioned, ready and not being deleted, the server holds the cluster with
    -- the Kubernetes version that was found, but for its resource version, and all else as
    -- before, where the annotation names another version and the loop of writes returns no error;
    -- otherwise it holds what it held.
    pub sync_annotates :
        (n : String)
        → view after n ≡ (
            if current_version cluster_of == version_found
            then view w.outside n
            else after_loop attempt.0 n)
    sync_annotates n = elim (Bool-cases (current_version cluster_of == version_found)) [
      | inl s ↦ rw s (sync_current ((eq_iff _ _).0 s) n)
      | inr d ↦ rw d (sync_stale (λ e. false≢true (sym d ∙ (eq_iff _ _).1 e)) n)
    ]

    stored_due :
        (version : String)
        → stored (annotate version cluster_of)
          ≡ some (cluster_content (annotate version cluster_of))
    unfolding annotate
    stored_due version = ground (arith, due)

    found_nothing : (e : E.Error) → version_read ≡ err e → version_found ≡ ""
    unfolding version_or_empty
    found_nothing e failed = ap (version_or_empty E) failed

    accepted_stale :
        current_version cluster_of ≢ version_found
        → (E.clusters.update (annotate version_found cluster_of) asked.outside).0 ≡ none
        → view after cluster_of.metadata.name
          ≡ some (cluster_content (annotate version_found cluster_of))
    unfolding annotate
    accepted_stale d accepts =
        let c = annotate version_found cluster_of in
        ap (λ o. view o cluster_of.metadata.name) (outside-stale d)
        ∙ ap (λ r. view r.1 cluster_of.metadata.name)
            (retry-first (E.clusters.update c) 2 none asked.outside accepts)
        ∙ K.objects.update_accepted c asked.outside accepts cluster_of.metadata.name
        ∙ rw eq_refl (stored_due version_found)

    -- For a cluster that is provisioned, ready, annotated with a version and not being deleted, an error
    -- while the version is read does not stop `sync`: where the server accepts the update that it then sends,
    -- the server then holds the informer's object, but for the resource version, with the empty version in
    -- place of the one that the annotation named.
    pub failed_read_erases :
        (e : E.Error)
        → version_read ≡ err e
        → current_version cluster_of ≢ ""
        → (E.clusters.update (annotate "" cluster_of) asked.outside).0 ≡ none
        → (view after cluster_of.metadata.name ≡ some (cluster_content (annotate "" cluster_of)))
          × (annotation kubernetes_version_annotation (annotate "" cluster_of) ≡ "")
    failed_read_erases e failed some_version accepts =
        let gone = found_nothing e failed in
        (
          accepted_stale (λ q. some_version (q ∙ gone))
                (ap (λ v. (E.clusters.update (annotate v cluster_of) asked.outside).0) gone
                  ∙ accepts)
              ∙ ap (λ v. some (cluster_content (annotate v cluster_of))) gone,
          annotation-annotate "" kubernetes_version_annotation cluster_of,
        )

-- ===== src/Controllers/Course.antt =====
-- Runs of the four controllers' handlers in any order, with an informer that lags behind the API server
-- and other clients that write there.
use mathlib.Core.List.Memᴰ
use mathlib.Core.List.{Memᴰ}
use mathlib.Core.Path.{subst}
use kubecon.Prelude.{
  String, ◌≡◌, refl, sym, Option, some, List, [], ◌∷◌, ◌==◌, if◌then◌else◌, arith,
}
use kubecon.Api.{Cluster}
use kubecon.Platform.{Platform, ok}
use kubecon.Platform.Laws.{IsConditionLibrary}
use kubecon.Platform.Versions.{LogsVersions}
use kubecon.World.{World, Address, alloc_cell, present}
use kubecon.World.Keeps.{Keeps-same}
use kubecon.TaskQueue.{Enqueued, enqueue}
use kubecon.Client.Lister
use kubecon.Healthchecker.{handle_cluster_update}
use kubecon.Healthchecker
use kubecon.Annotator.{update_annotation}
use kubecon.Annotator
use kubecon.ConfigGenerator.{update_config}
use kubecon.ConfigGenerator
use kubecon.Provisioner.Steps.{AccessorWorks}
use kubecon.Provisioner
use kubecon.Controllers.Keeps.{heap-config, Keeps-annotator, Keeps-health, Keeps-sync, heap-enqueue}
use kubecon.Controllers.Runs.{forgotten}
use kubecon.Controllers.Outside.{outside-sync}
use kubecon.Platform.Shared.{LogKept, GrowsLog, GrowsLog-LogsVersions}
use kubecon.Controllers.Backed.{AllBacked, AllBacked-later, AllBacked-observe}
use kubecon.Controllers.Logs.{LogKept-sync, LogKept-health, LogKept-annotator, LogKept-config}
use kubecon.Controllers.Faithful.{
  Followed, Followed-handle, Followed-health, Followed-annotator, Followed-config, Followed-same,
}

-- A course of the program, with the addresses of the objects that the informer has delivered. The
-- informer delivers what the server holds or has held, and takes objects out of its store; the handlers work on what it has delivered;
-- another client changes the server at will, which forgets no version.
pub data Course (E : Platform) (logged : E.Outside → String → String → Option Cluster)
    : World E → List Address → Type 0 where
  start : (w : World E) → Course E logged w []
  observe :
      {w : World E} {l : List Address} (key : String) (c : Cluster)
      → Course E logged w l
      → logged w.outside c.metadata.name c.metadata.resource_version ≡ some c
      → Course E logged
          (record w {
            heap = alloc_cell c w.heap;
            indexer = λ k. if key == k then present w.heap.next else w.indexer k;
          })
          (w.heap.next ∷ l)
  provision_key :
      {w : World E} {l : List Address} (key : String)
      → Course E logged w l
      → ((p : Address) → Lister.get E w.indexer key ≡ ok p → Memᴰ p l)
      → Course E logged (Provisioner.sync E key w).1 l
  check_health :
      {w : World E} {l : List Address} (obj updated : Address)
      → Course E logged w l
      → Memᴰ updated l
      → Course E logged (handle_cluster_update E obj updated w).1 l
  annotate_cluster :
      {w : World E} {l : List Address} (obj updated : Address)
      → Course E logged w l
      → Memᴰ obj l
      → Course E logged (update_annotation E obj updated w).1 l
  generate_config :
      {w : World E} {l : List Address} (obj updated : Address)
      → Course E logged w l
      → Course E logged (update_config E obj updated w).1 l
  enqueue_item :
      {w : World E} {l : List Address} (x : Enqueued)
      → Course E logged w l
      → Course E logged (enqueue E x w).1 l
  forget :
      {w : World E} {l : List Address} (key : String)
      → Course E logged w l
      → Course E logged (forgotten key w) l
  elsewhere :
      {w : World E} {l : List Address} (o : E.Outside)
      → Course E logged w l
      → ((n v : String) (x : Cluster) → logged w.outside n v ≡ some x → logged o n v ≡ some x)
      → Course E logged (record w { outside = o }) l

module _ (E : Platform) (works : AccessorWorks E) (L : IsConditionLibrary E)
    {logged : E.Outside → String → String → Option Cluster} (G : GrowsLog E logged) where
  outside-enqueue : (x : Enqueued) (w : World E) → (enqueue E x w).1.outside ≡ w.outside
  unfolding enqueue
  outside-enqueue (Enqueued.key k) w = refl
  outside-enqueue (Enqueued.object c) w = ground arith

  Course-AllBacked : {w : World E} {l : List Address} → Course E logged w l → AllBacked E logged w l
  unfolding handle_cluster_update update_annotation update_config
  Course-AllBacked (start w) = record { backed = λ q m. absurd (Memᴰ.not-nil m) }
  Course-AllBacked (observe key c r h) = AllBacked-observe E logged key c h (Course-AllBacked r)
  Course-AllBacked (provision_key {w} key r m) =
      let all = Course-AllBacked r in
      AllBacked-later E logged (Keeps-sync E L key w) (LogKept-sync E G L w works key) all
  Course-AllBacked (check_health {w} obj updated r m) =
      let all = Course-AllBacked r in
      AllBacked-later E logged (Keeps-health E L updated w) (LogKept-health E G L w updated) all
  Course-AllBacked (annotate_cluster {w} obj updated r m) =
      let all = Course-AllBacked r in
      AllBacked-later E logged (Keeps-annotator E obj w) (LogKept-annotator E G L w obj) all
  Course-AllBacked (generate_config {w} obj updated r) =
      let all = Course-AllBacked r in
      AllBacked-later E logged (Keeps-same (heap-config E obj w)) (LogKept-config E G obj w) all
  Course-AllBacked (enqueue_item {w} x r) =
      AllBacked-later E logged (Keeps-same (heap-enqueue E L x w))
        (subst (λ o. LogKept logged w.outside o) (sym (outside-enqueue x w)) (λ n v y h. h))
        (Course-AllBacked r)
  Course-AllBacked (forget key r) =
      AllBacked-later E logged (Keeps-same refl) (λ n v y h. h) (Course-AllBacked r)
  Course-AllBacked (elsewhere o r grown) =
      AllBacked-later E logged (Keeps-same refl) grown (Course-AllBacked r)

module _ (E : Platform) (works : AccessorWorks E) (L : IsConditionLibrary E)
    {held : E.Outside → String → Option Cluster}
    {logged : E.Outside → String → String → Option Cluster} (V : LogsVersions E held logged) where
  Followed-sync :
      {w : World E} {l : List Address} (key : String)
      → AllBacked E logged w l
      → ((p : Address) → Lister.get E w.indexer key ≡ ok p → Memᴰ p l)
      → Followed E V w.outside (Provisioner.sync E key w).1.outside
  Followed-sync {w} key all m =
      outside-sync E (Followed E V w.outside) key w
        (λ p r. Followed-handle E V works L p w (all.backed p (m p r)).1)
        (Followed-same E V w.outside)

  -- Whatever the four controllers, the informer and other clients have done, in whatever order, and
  -- however old the objects are that the informer has delivered, where the server replaces a cluster
  -- only by what bears its version: a run of a handler on one of these objects creates no cluster at
  -- the server, and of the metadata and the spec of those that are there it changes at most the
  -- annotations, the finalizers and the version; and the server's log forgets none.
  pub handlers_keep_cores :
      {w : World E} {l : List Address}
      → Course E logged w l
      → (key : String) → ((p : Address) → Lister.get E w.indexer key ≡ ok p → Memᴰ p l)
      → (p : Address) → Memᴰ p l
      → Followed E V w.outside (Provisioner.sync E key w).1.outside
        × Followed E V w.outside (Healthchecker.sync E p w).1.outside
        × Followed E V w.outside (Annotator.sync E p w).1.outside
        × Followed E V w.outside (ConfigGenerator.sync E p w).1.outside
  handlers_keep_cores {w} run key found p m =
      let all = Course-AllBacked E works L (GrowsLog-LogsVersions E V) run in
      let b = (all.backed p m).1 in
      (
        Followed-sync key all found,
        Followed-health E V works L p w b,
        Followed-annotator E V works L p w b,
        Followed-config E V p w,
      )

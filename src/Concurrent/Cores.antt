-- ===== src/Concurrent/Cores.antt =====
-- What the handlers at work at the same time leave of the clusters.
use mathlib.Core.List.Memᴰ
use mathlib.Core.List.{Memᴰ}
use kubecon.Prelude.{
  String, ◌≡◌, ◌≢◌, refl, ap, sym, ◌∙◌, some, List, [], ◌∷◌, ◌++◌, ◌==◌, Option, arith, Bool-cases,
  inl, inr,
}
use kubecon.Api.{Cluster}
use kubecon.Platform.{Platform, ok}
use kubecon.Platform.Laws.{IsConditionLibrary}
use kubecon.Platform.Shared.{Replacement, SharesServer}
use kubecon.World.{World, Address, Indexed, missing}
use kubecon.World.Keeps.{Keeps-same, Keeps-alloc}
use kubecon.Client.Lister
use kubecon.Controllers.Backed.{AllBacked, AllBacked-later, AllBacked-observe}
use kubecon.Controllers.Meanwhile.{Faithful-same, Faithful-quiet}
use kubecon.Controllers.Runs.{forgotten}
use kubecon.Concurrent.{Task, step}
use kubecon.Concurrent.Safe.{Later, Later-trans, Later-by, Later-same, Own, Safe, Safe-Later}
use kubecon.Concurrent.SafeHandlers.{Safe-health, Safe-annotator, Safe-config}
use kubecon.Concurrent.SafeProvisioner.{Safe-sync}
use kubecon.Concurrent.Interleaved.{
  delivered, Interleaved, start, from_here, observe, forget, provision_key, check_health,
  annotate_cluster, generate_config, advance, queue_moves, elsewhere,
}

module _ (E : Platform) {logged : E.Outside → String → String → Option Cluster}
    {writes : E.Outside → List Replacement} (V : SharesServer E logged writes) where
  abbrev AllSafe : List (Task E (Unit {0})) → World E → Type 0
  AllSafe [] w = Unit
  AllSafe (t ∷ ts) w = Safe E V t w × AllSafe ts w

  AllSafe-Later :
      (ts : List (Task E (Unit {0}))) {w v : World E} → AllSafe ts w → Later E V w v → AllSafe ts v
  AllSafe-Later [] s l = tt
  AllSafe-Later (t ∷ ts) (s, rest) l = (Safe-Later E V t s l, AllSafe-Later ts rest l)

  -- one of the tasks is replaced by what it has become
  AllSafe-middle :
      (before after : List (Task E (Unit {0}))) (t : Task E (Unit {0})) {w : World E}
      → AllSafe (before ++ (t ∷ after)) w
      → Safe E V t w
        × ((u : Task E (Unit {0})) (v : World E)
            → Later E V w v
            → Safe E V u v
            → AllSafe (before ++ (u ∷ after)) v)
  AllSafe-middle [] after t (s, rest) = (s, λ u v l su. (su, AllSafe-Later after rest l))
  AllSafe-middle (b ∷ before) after t (s, rest) =
      let (one, others) = AllSafe-middle before after t rest in
      (one, λ u v l su. (Safe-Later E V b s l, others u v l su))

  -- What holds all along.
  record Sound (w0 w : World E) (l : List Address) (ts : List (Task E (Unit {0}))) : Type 0 where
    later : Later E V w0 w
    all_backed : AllBacked E logged w l
    from_informer : (key : String) (p : Address) → Lister.get E w.indexer key ≡ ok p → Memᴰ p l
    all_safe : AllSafe ts w

  owned :
      {w0 w : World E} {l : List Address} {ts : List (Task E (Unit {0}))}
      → Sound w0 w l ts
      → (p : Address) → Memᴰ p l
      → Own E V p w
  owned s p m =
      let a = s.all_backed in let (lt, b) = a.backed p m in record { allocated = lt; backed = b }

  -- from one state to a later one with the same store
  Sound-Later :
      {w0 w v : World E} {l : List Address} {ts : List (Task E (Unit {0}))}
      → Sound w0 w l ts
      → Later E V w v
      → v.indexer ≡ w.indexer
      → (us : List (Task E (Unit {0}))) → AllSafe us v
      → Sound w0 v l us
  Sound-Later s l same us safe =
      let f = l.faithful in
      record {
        later = Later-trans E V s.later l;
        all_backed = AllBacked-later E logged l.heap_kept f.log_kept s.all_backed;
        from_informer =
            λ key p r. s.from_informer key p (ap (λ i. Lister.get E i key) (sym same) ∙ r);
        all_safe = safe;
      }

  Sound-spawn :
      {w0 w : World E} {l : List Address} {ts : List (Task E (Unit {0}))} (t : Task E (Unit {0}))
      → Sound w0 w l ts
      → Safe E V t w
      → Sound w0 w l (t ∷ ts)
  Sound-spawn t s safe = record {
    later = s.later;
    all_backed = s.all_backed;
    from_informer = s.from_informer;
    all_safe = (safe, s.all_safe);
  }

  no_object :
      (i : String → Indexed E.Error) (key : String) (p : Address)
      → i key ≡ missing
      → Lister.get E i key ≢ ok p
  unfolding Lister.get
  no_object i key p empty r = ground (arith, empty, r)

  found_before :
      (key : String) (c : Cluster) (w : World E) (l : List Address) (k : String) (p : Address)
      → ((p : Address) → Lister.get E w.indexer k ≡ ok p → Memᴰ p l)
      → Lister.get E (delivered key c w).indexer k ≡ ok p
      → Memᴰ p (w.heap.next ∷ l)
  unfolding Lister.get
  found_before key c w l k p from r = elim (Bool-cases (key == k)) [
    | inl h ↦ Memᴰ.head (ground (arith, h, r))
    | inr h ↦ Memᴰ.tail (from p (ground (arith, h, r)))
  ]

  found_still :
      (key : String) (w : World E) (k : String) (p : Address)
      → Lister.get E (forgotten key w).indexer k ≡ ok p
      → Lister.get E w.indexer k ≡ ok p
  unfolding Lister.get
  found_still key w k p r = elim (Bool-cases (key == k)) [
    | inl h ↦ absurd (ground (arith, h, r))
    | inr h ↦ ground (arith, h, r)
  ]

  Sound-forget :
      {w0 w : World E} {l : List Address} {ts : List (Task E (Unit {0}))} (key : String)
      → Sound w0 w l ts
      → Sound w0 (forgotten key w) l ts
  Sound-forget {w} {ts} key s =
      let left : Later E V w (forgotten key w) = Later-by E V refl (Faithful-same E V w.outside) in
      record {
        later = Later-trans E V s.later left;
        all_backed = AllBacked-later E logged (Keeps-same refl) (λ n v x h. h) s.all_backed;
        from_informer = λ k p r. s.from_informer k p (found_still key w k p r);
        all_safe = AllSafe-Later ts s.all_safe left;
      }

  Sound-observe :
      {w0 w : World E} {l : List Address} {ts : List (Task E (Unit {0}))} (key : String)
      (c : Cluster)
      → Sound w0 w l ts
      → logged w.outside c.metadata.name c.metadata.resource_version ≡ some c
      → Sound w0 (delivered key c w) (w.heap.next ∷ l) ts
  Sound-observe {w} {l} {ts} key c s h =
      let arrived : Later E V w (delivered key c w) = record {
        heap_kept = Keeps-alloc c w.heap;
        faithful = Faithful-same E V w.outside;
      } in
      record {
        later = Later-trans E V s.later arrived;
        all_backed = AllBacked-observe E logged key c h s.all_backed;
        from_informer = λ k p r. found_before key c w l k p (s.from_informer k) r;
        all_safe = AllSafe-Later ts s.all_safe arrived;
      }

  module _ (L : IsConditionLibrary E) where
    Interleaved-Sound :
        {w0 w : World E} {l : List Address} {ts : List (Task E (Unit {0}))}
        → Interleaved E logged writes w0 w l ts
        → Sound w0 w l ts
    Interleaved-Sound (start w0 empty) = record {
      later = Later-same E V w0;
      all_backed = record { backed = λ q m. absurd (Memᴰ.not-nil m) };
      from_informer = λ key p r. absurd (no_object w0.indexer key p (empty key) r);
      all_safe = tt;
    }
    Interleaved-Sound (from_here {w} r) =
        let s = Interleaved-Sound r in
        record {
          later = Later-same E V w;
          all_backed = s.all_backed;
          from_informer = s.from_informer;
          all_safe = s.all_safe;
        }
    Interleaved-Sound (observe key c r h) = Sound-observe key c (Interleaved-Sound r) h
    Interleaved-Sound (forget key r) = Sound-forget key (Interleaved-Sound r)
    Interleaved-Sound (provision_key {w} key r) =
        Sound-spawn _ (Interleaved-Sound r) (Safe-sync E V L key w)
    Interleaved-Sound (check_health {w} p r m) =
        let s = Interleaved-Sound r in Sound-spawn _ s (Safe-health E V L p w (owned s p m))
    Interleaved-Sound (annotate_cluster {w} p r m) =
        let s = Interleaved-Sound r in Sound-spawn _ s (Safe-annotator E V p w (owned s p m))
    Interleaved-Sound (generate_config {w} p r m) =
        Sound-spawn _ (Interleaved-Sound r) (Safe-config E V p w)
    Interleaved-Sound (advance {w} m k before after r) =
        let s = Interleaved-Sound r in
        let (one, others) = AllSafe-middle before after (step m k) s.all_safe in
        let (taken, rest) =
          one w (Later-same E V w) (λ key p x. owned s p (s.from_informer key p x)) in
        Sound-Later s taken.later taken.indexer_kept _ (others (k (m w).0) (m w).1 taken.later rest)
    Interleaved-Sound (queue_moves {w} {ts} q r) =
        let s = Interleaved-Sound r in
        let l : Later E V w (record w { queue = q }) =
          Later-by E V refl (Faithful-same E V w.outside) in
        Sound-Later s l refl ts (AllSafe-Later ts s.all_safe l)
    Interleaved-Sound (elsewhere {w} {ts} o r grown same) =
        let s = Interleaved-Sound r in
        let l : Later E V w (record w { outside = o }) =
          Later-by E V refl (Faithful-quiet E V grown same (Faithful-same E V w.outside)) in
        Sound-Later s l refl ts (AllSafe-Later ts s.all_safe l)

    -- Whatever the informer, the handlers of the four controllers and other clients do from a start with an
    -- empty store on, where any number of handlers are at work at the same time, on the same objects too, and
    -- take their steps in whatever order, and where the server's updates are refused or replace what bears
    -- their version: from each moment to each later one, a cluster that the program replaces at the server
    -- keeps its spec, and its metadata but for the annotations, the finalizers and the version, and an object of
    -- the heap keeps its spec, its metadata but for the finalizers, and every finalizer; and each object that
    -- the informer has delivered has, but for the annotations and the finalizers, the metadata and the spec of a
    -- cluster that the server has held under its name in its version.
    pub interleaved_keep_cores :
        {w0 w : World E} {l : List Address} {ts : List (Task E (Unit {0}))}
        → Interleaved E logged writes w0 w l ts
        → Later E V w0 w × AllBacked E logged w l
    interleaved_keep_cores r = let s = Interleaved-Sound r in (s.later, s.all_backed)

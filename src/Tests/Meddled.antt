-- ===== src/Tests/Meddled.antt =====
-- The server that keeps every version, with another client that moves a cluster's file after each call
-- of the program.
use mathlib.Core.Path.{subst}
use mathlib.Core.Option.{some-ne-none}
use kubecon.Prelude.{
  String, ◌≡◌, ◌⊎◌, refl, ap, sym, ◌∙◌, Bool, Option, none, some, is_none, List, [], ◌∷◌, ◌==◌,
  if◌then◌else◌, inl, inr, Option-cases, Bool-cases, eq_iff,
}
use kubecon.Prelude.Exec.{Exec}
use kubecon.Api.{Cluster}
use kubecon.Platform.{finished, Platform, ok, err, started, stop}
use kubecon.Platform.Laws.{IsConditionLibrary}
use kubecon.Platform.Versions.{with_version}
use kubecon.Platform.Shared.{LogKept, GrowsLog, Replacement, ReplacesBy, SharesServer}
use kubecon.Tests.Machine.{found}
use kubecon.Tests.Registry.{
  Registry, registering, registering-LogsVersions, registering-IsConditionLibrary, held_at, entry,
  update_cluster, update_entry,
}
use kubecon.Tests.Versioned.{next_version}

-- The registry, and what the program's updates have replaced.
pub record Ledger : Type 0 where
  pub registry : Registry
  pub writes : List Replacement

-- What the other client sends for a cluster that it finds.
abbrev moved : Cluster → Cluster
moved x = record x { spec = record { config_path = "/elsewhere.yml" } }

abbrev meddle_with : Option Cluster → Registry → Registry
meddle_with none o = o
meddle_with (some x) o = (update_cluster (moved x) o).1

abbrev meddle : Ledger → Ledger
meddle s = record s { registry = meddle_with (held_at (s.registry) "east") (s.registry) }

abbrev replaced : Cluster → Option Cluster → List Replacement → List Replacement
replaced c none l = l
replaced c (some x) l =
    record { before = x; after = with_version (next_version c.metadata.resource_version) c } ∷ l

abbrev noted : Cluster → Bool → Ledger → List Replacement
noted c accepted s =
    if accepted then replaced c (held_at (s.registry) c.metadata.name) s.writes else s.writes

abbrev update_noted : Cluster → Exec Ledger (Option String)
update_noted c s =
    let (e, o) = update_cluster c (s.registry) in
    (e, meddle (record { registry = o; writes = noted c (is_none e) s }))

abbrev pub meddled : Platform
meddled = record registering {
  Outside = Ledger;
  read_file = λ path s. found ((s.registry).files path);
  read_dir = λ path s. ok [];
  run = λ name args s. (finished none "", meddle s);
  exec = λ name args s. (started (stop "" "EOF") none, meddle s);
  clusters = record {
    get = λ n s. (found (held_at (s.registry) n), meddle s);
    create = λ c s. (some "Forbidden", meddle s);
    update = update_noted;
  };
  kubeconfigs = record {
    get = λ n s. (err "NotFound", meddle s);
    create = λ k s. (some "Forbidden", meddle s);
    update = λ k s. (some "Forbidden", meddle s);
  };
  build_config = λ path s. err "no file";
  server_version = λ d s. (ok "v1.8.3", meddle s);
}

abbrev pub entry_of : Ledger → String → String → Option Cluster
entry_of s = entry s.registry

abbrev pub writes_of : Ledger → List Replacement
writes_of s = s.writes

meddle_with-grows : (x : Option Cluster) (o : Registry) → LogKept entry o (meddle_with x o)
meddle_with-grows none o n v y h = h
meddle_with-grows (some x) o n v y h = registering-LogsVersions.update_logs (moved x) o n v y h

meddle-grows : (s : Ledger) → LogKept entry_of s (meddle s)
meddle-grows s = meddle_with-grows (held_at (s.registry) "east") s.registry

update_noted-grows : (c : Cluster) (s : Ledger) → LogKept entry_of s (update_noted c s).1
update_noted-grows c s n v y h =
    let o = (update_cluster c (s.registry)).1 in
    meddle_with-grows (held_at o "east") o n v y
      (registering-LogsVersions.update_logs c (s.registry) n v y h)

meddled-GrowsLog : GrowsLog meddled entry_of
meddled-GrowsLog = record {
  update_grows = update_noted-grows;
  get_grows = λ n s. meddle-grows s;
  exec_grows = λ name args s. meddle-grows s;
  get_kubeconfig_grows = λ n s. meddle-grows s;
  create_kubeconfig_grows = λ k s. meddle-grows s;
  update_kubeconfig_grows = λ k s. meddle-grows s;
  server_version_grows = λ r s. meddle-grows s;
}

-- an update that is accepted bears the version of the cluster that is there
accepted_version :
    (c x : Cluster) (o : Registry)
    → held_at o c.metadata.name ≡ some x
    → (update_cluster c o).0 ≡ none
    → x.metadata.resource_version ≡ c.metadata.resource_version
accepted_version c x o h a =
    elim (Bool-cases (x.metadata.resource_version == c.metadata.resource_version)) [
      | inl s ↦ (eq_iff _ _).0 s
      | inr d ↦
          let refused : (update_cluster c o).0 ≡ some "Conflict" =
            ap (λ y. (update_entry c y o).0) h ∙ rw d refl in
          absurd (some-ne-none "Conflict" (sym refused ∙ a))
    ]

-- How an update ends: nothing is noted, or the replacement of the cluster of its version.
abbrev Noted : Cluster → Ledger → List Replacement → Type 0
Noted c s l =
    (l ≡ s.writes) ⊎ ((r : Replacement) × (l ≡ r ∷ s.writes) × ReplacesBy meddled entry_of c s r)

Noted-accepted :
    (c : Cluster) (s : Ledger)
    → (update_cluster c (s.registry)).0 ≡ none
    → Noted c s (replaced c (held_at (s.registry) c.metadata.name) s.writes)
Noted-accepted c s a = elim (Option-cases (held_at (s.registry) c.metadata.name)) [
  | inl h ↦ inl (ap (λ x. replaced c x s.writes) h)
  | inr (x, h) ↦
      let same = accepted_version c x (s.registry) h a in
      inr (
        record { before = x; after = with_version (next_version c.metadata.resource_version) c },
        ap (λ y. replaced c y s.writes) h,
        record {
          version = next_version c.metadata.resource_version;
          was_held =
              ap (λ v. entry (s.registry) c.metadata.name v) (sym same)
              ∙ (registering-LogsVersions.held_logged (s.registry) c.metadata.name x h).1;
          after_lem = refl;
        },
      )
]

update_noted-Noted :
    (c : Cluster) (s : Ledger) → Noted c s (noted c (is_none (update_cluster c (s.registry)).0) s)
update_noted-Noted c s = elim (Option-cases (update_cluster c (s.registry)).0) [
  | inl a ↦ subst (λ e. Noted c s (noted c (is_none e) s)) (sym a) (Noted-accepted c s a)
  | inr (e, a) ↦ subst (λ x. Noted c s (noted c (is_none x) s)) (sym a) (inl refl)
]

pub meddled-SharesServer : SharesServer meddled entry_of writes_of
meddled-SharesServer = record {
  grows = meddled-GrowsLog;
  get_found = λ n s x h.
      let there = registering-LogsVersions.get_found n (s.registry) x h in
      let (name, log) = registering-LogsVersions.held_logged (s.registry) n x there in
      ap (λ m. entry (s.registry) m x.metadata.resource_version) name ∙ log;
  update_writes = update_noted-Noted;
  get_writes = λ n s. refl;
  exec_writes = λ name args s. refl;
  get_kubeconfig_writes = λ n s. refl;
  create_kubeconfig_writes = λ k s. refl;
  update_kubeconfig_writes = λ k s. refl;
  server_version_writes = λ r s. refl;
}

pub meddled-IsConditionLibrary : IsConditionLibrary meddled
meddled-IsConditionLibrary =
    let L = registering-IsConditionLibrary in
    record {
      true_after = L.true_after;
      false_after = L.false_after;
      reads_conditions = L.reads_conditions;
      starting_metadata = L.starting_metadata;
      starting_spec = L.starting_spec;
      starting_applied = L.starting_applied;
      finished_metadata = L.finished_metadata;
      finished_spec = L.finished_spec;
      finished_applied = L.finished_applied;
    }

-- ===== src/Tests/Registry.antt =====
-- A machine whose API server keeps every version of every cluster.
use mathlib.Core.Path.{ap₂}
use mathlib.Core.Option.{none-ne-some}
use kubecon.Prelude.{
  String, ◌≡◌, ◌⊎◌, refl, ap, sym, ◌∙◌, true, Option, none, some, [], ◌==◌, ◌&&◌, eq_iff,
  if◌then◌else◌, arith, inl, inr, Option-cases, Bool-cases,
}
use kubecon.Prelude.Exec.{Exec}
use kubecon.Api.{Cluster}
use kubecon.Platform.{finished, Platform, ok, err, started, stop}
use kubecon.Platform.Laws.{IsConditionLibrary}
use kubecon.Platform.Versions.{LogsVersions, with_version}
use kubecon.Tests.Machine.{machine, put, left_of, found}
use kubecon.Tests.Machine.Laws.{machine-IsConditionLibrary}
use kubecon.Tests.Versioned.{next_version}

-- The version of each cluster that is there, every version that was, and the files.
pub record Registry : Type 0 where
  pub current : String → Option String
  pub log : String → String → Option Cluster
  pub files : String → Option String

-- An entry of the log counts where it bears its key.
abbrev pub entry : Registry → String → String → Option Cluster
entry o n v = elim (o.log n v) [
  | none ↦ none
  | some x ↦ if (x.metadata.name == n) && (x.metadata.resource_version == v) then some x else none
]

abbrev pub held_at : Registry → String → Option Cluster
held_at o n = elim (o.current n) [ none ↦ none | some v ↦ entry o n v ]

-- A cluster goes away where nothing of it is left.
abbrev version_left : Cluster → String → Option String
version_left c v = elim (left_of c) [ none ↦ none | some _ ↦ some v ]

abbrev write : Cluster → String → Registry → Registry
write c v o = record o {
  current = put o.current c.metadata.name (version_left c v);
  log = λ n u. if (c.metadata.name == n) && (v == u) then some (with_version v c) else o.log n u;
}

abbrev try_end : Cluster → Registry → Option Cluster → Option String × Registry
try_end c o (some _) = (some "Conflict", o)
try_end c o none = (none, write c (next_version c.metadata.resource_version) o)

abbrev try_write : Cluster → Exec Registry (Option String)
try_write c o = try_end c o (entry o c.metadata.name (next_version c.metadata.resource_version))

abbrev pub update_entry : Cluster → Option Cluster → Exec Registry (Option String)
update_entry c none o = (some "NotFound", o)
update_entry c (some x) o =
    if x.metadata.resource_version == c.metadata.resource_version
    then try_write c o
    else (some "Conflict", o)

abbrev pub update_cluster : Cluster → Exec Registry (Option String)
update_cluster c o = update_entry c (held_at o c.metadata.name) o

entry-write :
    (c : Cluster) (v : String) (o : Registry) (n u : String)
    → entry (write c v o) n u
      ≡ (if (c.metadata.name == n) && (v == u) then some (with_version v c) else entry o n u)
entry-write c v o n u = ground (arith, eq_iff c.metadata.name n, eq_iff v u)

entry-key :
    (o : Registry) (n v : String) (x : Cluster)
    → entry o n v ≡ some x
    → (x.metadata.name ≡ n) × (x.metadata.resource_version ≡ v)
entry-key o n v x h = ground (arith, eq_iff x.metadata.name n, eq_iff x.metadata.resource_version v)

abbrev pub registering : Platform
registering = record machine {
  Outside = Registry;
  read_file = λ path s. found (s.files path);
  read_dir = λ path s. ok [];
  run = λ name args s. (finished none "", s);
  exec = λ name args s. (started (stop "" "EOF") none, s);
  clusters = record {
    get = λ n s. (found (held_at s n), s);
    create = λ c s. (some "Forbidden", s);
    update = update_cluster;
  };
  kubeconfigs = record {
    get = λ n s. (err "NotFound", s);
    create = λ k s. (some "Forbidden", s);
    update = λ k s. (some "Forbidden", s);
  };
  build_config = λ path s. err "no file";
  server_version = λ d s. (ok "v1.8.3", s);
}

held-logged :
    (o : Registry) (n : String) (x : Cluster)
    → held_at o n ≡ some x
    → (x.metadata.name ≡ n) × (entry o n x.metadata.resource_version ≡ some x)
held-logged o n x h = elim (Option-cases (o.current n)) [
  | inl e ↦ ground arith
  | inr (v, e) ↦
      let g : entry o n v ≡ some x =
        sym (ap (λ c. elim c [ none ↦ none | some u ↦ entry o n u ]) e) ∙ h in
      let (name, version) = entry-key o n v x g in (name, ap (λ u. entry o n u) version ∙ g)
]

-- How an update ends: it changes nothing, or it writes over the cluster of its version.
data Updated (c : Cluster) (o : Registry) : Type 0 where
  left_alone : (update_cluster c o).1 ≡ o → Updated c o
  written :
      (x : Cluster)
      → held_at o c.metadata.name ≡ some x
      → x.metadata.resource_version ≡ c.metadata.resource_version
      → entry o c.metadata.name (next_version c.metadata.resource_version) ≡ none
      → (update_cluster c o).1 ≡ write c (next_version c.metadata.resource_version) o
      → Updated c o

updated : (c : Cluster) (o : Registry) → Updated c o
updated c o = elim (Option-cases (held_at o c.metadata.name)) [
  | inl h ↦ left_alone (ap (λ x. (update_entry c x o).1) h)
  | inr (x, h) ↦ elim (Bool-cases (x.metadata.resource_version == c.metadata.resource_version)) [
    | inr d ↦ left_alone (ap (λ y. (update_entry c y o).1) h ∙ rw d refl)
    | inl s ↦
        elim (Option-cases (entry o c.metadata.name (next_version c.metadata.resource_version))) [
          | inr (y, e) ↦
              left_alone (ap (λ z. (update_entry c z o).1) h ∙ rw s (ap (λ z. (try_end c o z).1) e))
          | inl e ↦
              written x h ((eq_iff _ _).0 s) e
                (ap (λ z. (update_entry c z o).1) h ∙ rw s (ap (λ z. (try_end c o z).1) e))
        ]
  ]
]

module _ (c : Cluster) (o : Registry) where
  abbrev new_version : String
  new_version = next_version c.metadata.resource_version

  write-logs :
      entry o c.metadata.name new_version ≡ none
      → (n v : String) (x : Cluster) → entry o n v ≡ some x
      → entry (write c new_version o) n v ≡ some x
  write-logs free n v x h = entry-write c new_version o n v ∙ kept
    where
      kept :
          (if (c.metadata.name == n) && (new_version == v)
            then some (with_version new_version c)
            else entry o n v)
          ≡ some x
      kept = elim (Bool-cases ((c.metadata.name == n) && (new_version == v))) [
        | inr d ↦ rw d h
        | inl d ↦ absurd (none-ne-some x (sym free ∙ same d ∙ h))
      ]
        where
          same :
              ((c.metadata.name == n) && (new_version == v)) ≡ true
              → entry o c.metadata.name new_version ≡ entry o n v
          same d =
              ap₂ (λ m u. entry o m u) (ground (arith, eq_iff c.metadata.name n))
                (ground (arith, eq_iff new_version v))

  write-held :
      (n : String) (new : Cluster)
      → held_at (write c new_version o) n ≡ some new
      → (held_at o n ≡ some new) ⊎ ((c.metadata.name ≡ n) × (new ≡ with_version new_version c))
  write-held n new h = elim (Bool-cases (c.metadata.name == n)) [
    | inr d ↦ inl (ground arith)
    | inl d ↦ inr (
      (eq_iff _ _).0 d,
      ground (arith, entry-write c new_version o n new_version, eq_iff new_version new_version),
    )
  ]

pub registering-LogsVersions : LogsVersions registering held_at entry
registering-LogsVersions = record {
  held_logged = held-logged;
  update_replaces = λ c o n new h. elim (updated c o) [
    | left_alone e ↦ inl (ap (λ r. held_at r n) (sym e) ∙ h)
    | written x a s free e ↦ elim (write-held c o n new (ap (λ r. held_at r n) (sym e) ∙ h)) [
      | inl same ↦ inl same
      | inr (name, q) ↦ inr (record {
        before = x;
        version = next_version c.metadata.resource_version;
        was_held = ap (held_at o) (sym name) ∙ a;
        named = name;
        same_version = s;
        new_lem = q;
      })
    ]
  ];
  update_logs = λ c o n v x h. elim (updated c o) [
    | left_alone e ↦ ap (λ r. entry r n v) e ∙ h
    | written y a s free e ↦ ap (λ r. entry r n v) e ∙ write-logs c o free n v x h
  ];
  get_found = λ n o x h. ground arith;
  get_keeps = λ m o n v. (refl, refl);
  others = record {
    exec_keeps = λ name args o n. refl;
    get_kubeconfig_keeps = λ name o n. refl;
    server_version_keeps = λ r o n. refl;
  };
  others_log = λ v. record {
    exec_keeps = λ name args o n. refl;
    get_kubeconfig_keeps = λ name o n. refl;
    server_version_keeps = λ r o n. refl;
  };
  create_kubeconfig_keeps = λ k o n v. (refl, refl);
  update_kubeconfig_keeps = λ k o n v. (refl, refl);
}

pub registering-IsConditionLibrary : IsConditionLibrary registering
registering-IsConditionLibrary =
    let L = machine-IsConditionLibrary true in
    record {
      true_after = L.true_after;
      false_after = L.false_after;
      reads_conditions = L.reads_conditions;
      starting_metadata = L.starting_metadata;
      starting_spec = L.starting_spec;
      starting_applied = L.starting_applied;
      finished_metadata = L.finished_metadata;
      finished_spec = L.finished_spec;
      finished_applied = L.finished_applied;
    }

-- ===== src/Tests/Versioned.antt =====
-- The machine with an API server that gives an object a new version at each accepted update, and
-- accepts an update only of the version that it holds.
use mathlib.Core.Option
use text.Mathlib.TextLemmas.{append_cancel_left, append-nil}
use kubecon.Prelude.{
  String, ◌<>◌, ◌≢◌, refl, sym, ◌∙◌, Option, none, some, [], ◌==◌, eq_iff, if◌then◌else◌, arith,
  true, false,
}
use kubecon.Prelude.Exec.{Exec}
use kubecon.Api.{Cluster}
use kubecon.Platform.{Platform, started, stop}
use kubecon.Platform.Laws.{IsConditionLibrary, HasStableFiles}
use kubecon.Platform.Versions.{RefusesStale, VersionsClusters, with_version}
use kubecon.World.{World, present, missing}
use kubecon.Tests.Machine.{machine, Site, put, left_of}
use kubecon.Tests.Machine.Laws.{machine-IsConditionLibrary, differ}
use kubecon.Tests.Scenes.{fresh}

abbrev pub next_version : String → String
next_version v = v <> "+"

abbrev update_held : Cluster → Option Cluster → Exec Site (Option String)
update_held c none s = (some "NotFound", s)
update_held c (some x) s =
    if x.metadata.resource_version == c.metadata.resource_version
    then (
      none,
      record s {
        clusters =
            put s.clusters c.metadata.name
              (Option.map (with_version (next_version c.metadata.resource_version)) (left_of c));
      },
    )
    else (some "Conflict", s)

abbrev update_versioned : Cluster → Exec Site (Option String)
update_versioned c s = update_held c (s.clusters c.metadata.name) s

abbrev pub versioned : Platform
versioned = record machine { clusters = record (machine.clusters) { update = update_versioned } }

next_version-new : (v : String) → next_version v ≢ v
next_version-new v e = differ "+" "" refl (append_cancel_left v "+" "" (e ∙ sym (append-nil v)))

pub versioned-RefusesStale : RefusesStale versioned (λ s. s.clusters)
versioned-RefusesStale = record {
  stale_refused =
      λ c x o h d. ground (arith, eq_iff x.metadata.resource_version c.metadata.resource_version);
  refused_keeps = λ c o e h n. ground arith;
}

pub versioned-VersionsClusters : VersionsClusters versioned (λ s. s.clusters)
versioned-VersionsClusters = record {
  refuses = versioned-RefusesStale;
  accepted_bumps = λ c x o h d alive a. (
    next_version c.metadata.resource_version,
    next_version-new _,
    ground (arith, eq_iff c.metadata.name c.metadata.name),
  );
  others = record {
    exec_keeps = λ name args o n. refl;
    get_kubeconfig_keeps = λ name o n. refl;
    server_version_keeps = λ r o n. refl;
  };
}

pub versioned-HasStableFiles : HasStableFiles versioned
versioned-HasStableFiles = record {
  after_update = λ c o path. ground arith;
  after_exec = λ name args o path. refl;
}

pub versioned-IsConditionLibrary : IsConditionLibrary versioned
versioned-IsConditionLibrary =
    let L = machine-IsConditionLibrary true in
    record {
      true_after = L.true_after;
      false_after = L.false_after;
      reads_conditions = L.reads_conditions;
      starting_metadata = L.starting_metadata;
      starting_spec = L.starting_spec;
      starting_applied = L.starting_applied;
      finished_metadata = L.finished_metadata;
      finished_spec = L.finished_spec;
      finished_applied = L.finished_applied;
    }

-- the new cluster, as the server and the informer's store have it
abbrev pub created : Cluster
created = with_version "1" fresh

-- A process whose informer has the cluster in its store.
abbrev pub started_with : Cluster → Site → World versioned
started_with c s = record {
  heap = record { next = 1; cell = λ q. c };
  indexer = λ n. if n == "east" then present 0 else missing;
  queue = record { waiting_items = []; taken_items = []; closing = false };
  commands = [];
  stdout = [];
  outside = s;
}

-- One where the cluster gets another version at the server, for whatever reason, while a command runs.
abbrev touched : Site → Site
touched s = record s {
  clusters = put s.clusters "east" (
      Option.map (λ (c : Cluster). with_version (next_version c.metadata.resource_version) c)
        (s.clusters "east"));
}

abbrev pub disturbed : Platform
disturbed = record versioned { exec = λ name args s. (started (stop "" "EOF") none, touched s) }

pub disturbed-RefusesStale : RefusesStale disturbed (λ s. s.clusters)
disturbed-RefusesStale = record {
  stale_refused = versioned-RefusesStale.stale_refused;
  refused_keeps = versioned-RefusesStale.refused_keeps;
}

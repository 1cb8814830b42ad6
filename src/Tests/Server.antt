-- ===== src/Tests/Server.antt =====
-- A server of Cluster objects that answers REST requests, a tracker of objects for the fake clients,
-- and a memory of slices.
use kubecon.Platform.Laws.{OthersKeep, stored, cluster_content}
use mathlib.Core.Option
use kubecon.Prelude.{
  Option-cases, inl, ℕ, String, Bool, true, Option, none, some, List, [], ◌∷◌, ◌==◌, if◌then◌else◌,
  same_address, arith, refl, inr,
}
use kubecon.Prelude.Exec.{Exec}
use kubecon.Api.{Cluster, ClusterCondition, provisioned}
use kubecon.Client.Typed.{Rest, Verb, get_verb, put_verb, Call, Params, Body, object}
use kubecon.Client.Typed.Laws.{resource_of, name_of, body_of, ServesObjects}
use kubecon.Client.Fake.{
  FakeLibrary, Action, get_action, update_action, Object, single, label, unset, fake_clusters,
}
use kubecon.Client.Fake.Laws.{TracksObjects}
use kubecon.DeepCopy.{Slices, ClusterValue, ListValue, Memory}
use kubecon.Tests.Scenes.{fresh}
use kubecon.Tests.Machine.{machine, Site, left_of}
use kubecon.Platform.Served.{Part}

abbrev Stored : Type 0
Stored = String → Option Cluster

abbrev failed : Cluster → Exec Stored (Cluster × Option String)
failed z o = ((z, some "refused"), o)

abbrev serve_put :
    String
    → Option String
    → Option (Body Cluster String)
    → Cluster
    → Exec Stored (Cluster × Option String)
serve_put r (some n) (some (object a)) z o =
    if r == "clusters" then ((a, none), λ m. if n == m then left_of a else o m) else failed z o
serve_put r _ _ z o = failed z o

abbrev serve_get : String → Option String → Cluster → Exec Stored (Cluster × Option String)
serve_get r none z o = failed z o
serve_get r (some n) z o = elim (o n) [
  | none ↦ failed z o
  | some a ↦ if r == "clusters" then ((a, none), o) else failed z o
]

abbrev Request : Type 0
Request = List (Call (Params Bool Bool) (Body Cluster String))

abbrev serve : Verb → Request → Cluster → Exec Stored (Cluster × Option String)
serve put_verb q z o = serve_put (resource_of "" q) (name_of none q) (body_of none q) z o
serve get_verb q z o = serve_get (resource_of "" q) (name_of none q) z o
serve _ q z o = failed z o

abbrev pub server : Rest String Cluster
server = record {
  Outside = Stored;
  GetOptions = Bool;
  ListOptions = Bool;
  DeleteOptions = String;
  ListOf = List Cluster;
  Watch = ℕ;
  with_watch = λ o. true;
  do_into = serve;
  do_into_list = λ v q o. (([], none), o);
  do_error = λ v q o. (none, o);
  do_watch = λ v q o. ((none, none), o);
}

-- what is kept under a name, but for its version
abbrev pub content_at : Stored → String → Option Cluster
content_at o n = Option.map cluster_content (o n)

pub server-ServesObjects : ServesObjects server "clusters" stored cluster_content content_at
server-ServesObjects = record {
  put_accepted = λ q n a z o r name b h m. rw name (rw b (ground arith));
  put_refused = λ q z o e h m. ground arith;
  get_answered = λ q n z o r name h. ground arith;
  get_keeps = λ q z o m. ground arith;
}

-- A tracker that stores clusters by name, and what its answer to an action is.
abbrev react : Action Bool Cluster → Exec Stored (Option (Object Cluster) × Option String)
react (update_action r c) o = elim (o c.metadata.name) [
  | none ↦ ((none, some "not found"), o)
  | some _ ↦ ((some (single c), none), λ n. if c.metadata.name == n then some c else o n)
]
react (get_action r n) o = elim (o n) [
  | none ↦ ((none, some "not found"), o)
  | some c ↦ ((some (single c), none), o)
]
react _ o = ((none, some "no reaction"), o)

abbrev pub store : FakeLibrary String Cluster
store = record {
  Fake = Stored;
  Options = Bool;
  Selector = Bool;
  Watch = ℕ;
  invokes = λ action z o. react action o;
  invokes_watch = λ action o. ((none, none), o);
  label_of = λ o. if o then unset else label o;
  everything = true;
  matches = λ s m. s;
}

pub store-TracksObjects : TracksObjects store fake_clusters (λ c. c.metadata.name) (λ o. o)
store-TracksObjects = record {
  update_stored = λ a o h n. ground arith;
  update_failed = λ a o e h n. ground arith;
  update_returns = λ a o. elim (Option-cases (o a.metadata.name)) [
    | inl h ↦ inr ("not found", ground arith)
    | inr (c, h) ↦ inl (ground arith)
  ];
  get_stored = λ n o a h. ground arith;
  get_leaves = λ n o m. ground arith;
}

abbrev condition : ClusterCondition
condition = record {
  type = provisioned;
  status = "True";
  last_update_time = "";
  last_transition_time = "";
  reason = "";
  message = "";
}

abbrev pub stored_cluster : ClusterValue
stored_cluster = record {
  type_meta = fresh.type_meta;
  metadata = fresh.metadata;
  spec = fresh.spec;
  status = record { applied_config = "nodes: 3"; conditions = some 0 };
}

abbrev pub bare_cluster : ClusterValue
bare_cluster = record stored_cluster { status = record { applied_config = ""; conditions = none } }

-- A memory that holds a list of one cluster with one condition.
abbrev pub memory : Memory
memory = record {
  conditions = record { next = 1; contents = λ a. condition ∷ [] };
  clusters = record { next = 1; contents = λ a. stored_cluster ∷ [] };
  kubeconfigs = record { next = 0; contents = λ a. [] };
}

abbrev pub one_cluster : ListValue
one_cluster = record {
  type_meta = record { kind = "ClusterList"; api_version = "v1alpha1" };
  resource_version = "12";
  items = some 0;
}

-- a slice cleared
abbrev pub cleared : {A : Type 0} → ℕ → Slices A → Slices A
cleared a s = record s { contents = λ b. if same_address a b then [] else s.contents b }

-- the clusters of a site
abbrev pub clusters_part : Part Site Stored
clusters_part = record {
  part_of = λ s. s.clusters;
  with_part = λ c s. record s { clusters = c };
  read_written = λ c s. refl;
}

pub server-OthersKeep : OthersKeep machine (λ s. content_at s.clusters)
server-OthersKeep = record {
  exec_keeps = λ name args o n. ground arith;
  get_kubeconfig_keeps = λ name o n. ground arith;
  server_version_keeps = λ r o n. ground arith;
}

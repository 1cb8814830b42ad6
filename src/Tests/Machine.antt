-- ===== src/Tests/Machine.antt =====
-- Platforms on which the program runs: a server that keeps objects by name and accepts all writes or
-- none, an `rke` that can fail, conditions as the condition library keeps them, a queue without
-- duplicates.
pub mod Laws
use kubecon.Prelude.{
  ℕ, String, Bool, true, false, Option, none, some, is_none, List, [], ◌∷◌, ◌++◌, ◌==◌, ◌||◌,
  if◌then◌else◌,
}
use kubecon.Prelude.Exec.{Exec}
use kubecon.Prelude.Strings.{has}
use kubecon.Api.{Cluster, ClusterCondition, Kubeconfig, Cond, no_metadata}
use kubecon.Platform.{
  finished, Platform, Result, ok, err, stop, chunk, Execution, started, waiting, quit, item, Taken,
}
use mathlib.Core.Option
use kubecon.Platform.Laws.{cluster_content, kubeconfig_content}
use kubecon.Client.Clientset.{RestLibrary}
use kubecon.Client.Result.{value}

-- Everything outside the process.
pub record Site : Type 0 where
  pub clusters : String → Option Cluster
  pub kubeconfigs : String → Option Kubeconfig
  pub files : String → Option String
  pub rke_works : Bool
  pub answers : Bool

abbrev pub found : {A : Type 0} → Option A → Result String A
found none = err "NotFound"
found (some a) = ok a

-- The cluster that the server keeps under a name.
abbrev pub named_at : Site → String → Option Cluster
named_at s n = elim (s.clusters n) [
  | none ↦ none
  | some c ↦ if c.metadata.name == n then some c else none
]

-- The same, but for its version.
abbrev pub cluster_at : Site → String → Option Cluster
cluster_at s n = Option.map cluster_content (named_at s n)

-- The Kubeconfig that the server keeps under a name.
abbrev pub config_at : Site → String → Option Kubeconfig
config_at s name = elim (s.kubeconfigs name) [
  | none ↦ none
  | some k ↦ if k.metadata.name == name then some k else none
]

abbrev pub config_content_at : Site → String → Option Kubeconfig
config_content_at s n = Option.map kubeconfig_content (config_at s n)

-- What is left of a cluster that is sent.
abbrev pub left_of : Cluster → Option Cluster
left_of c = elim c.metadata.deletion_timestamp [
  | none ↦ some c
  | some _ ↦ elim c.metadata.finalizers [ [] ↦ none | _ ↦ some c ]
]

abbrev pub put : {A : Type 0} → (String → Option A) → String → Option A → String → Option A
put f k v n = if k == n then v else f n

abbrev update_cluster : Bool → Cluster → Exec Site (Option String)
update_cluster accepts c s =
    if accepts
    then (none, record s { clusters = put s.clusters c.metadata.name (left_of c) })
    else (some "refused", s)

abbrev update_config : Bool → Kubeconfig → Exec Site (Option String)
update_config accepts k s =
    if accepts
    then (none, record s { kubeconfigs = put s.kubeconfigs k.metadata.name (some k) })
    else (some "refused", s)

abbrev pub status_of : Cond → List ClusterCondition → String
status_of c [] = ""
status_of c (x ∷ l) = if x.type == c then x.status else status_of c l

abbrev pub with_status : Cond → String → List ClusterCondition → List ClusterCondition
with_status c s [] =
    record {
      type = c;
      status = s;
      last_update_time = "";
      last_transition_time = "";
      reason = "";
      message = "";
    }
    ∷ []
with_status c s (x ∷ l) = if x.type == c then record x { status = s } ∷ l else x ∷ with_status c s l

abbrev pub set_condition : Cond → String → Cluster → Cluster
set_condition c s x = record x {
  status = record (x.status) { conditions = with_status c s x.status.conditions };
}

abbrev outcome_status : Option String → String
outcome_status none = "True"
outcome_status (some e) = "False"

pub record Items : Type 0 where
  pub waiting_items : List String
  pub taken_items : List String
  pub closing : Bool

abbrev pub drop_item : String → List String → List String
drop_item k [] = []
drop_item k (j ∷ l) = let rest = drop_item k l in if j == k then rest else j ∷ rest

-- the first item that is not being worked on
abbrev pub next_item : List String → List String → Option String
next_item busy [] = none
next_item busy (k ∷ l) = let rest = next_item busy l in if has busy k then rest else some k

abbrev pub take_item : Items → Taken Items
take_item q = elim (next_item q.taken_items q.waiting_items) [
  | none ↦ if q.closing then quit else waiting
  | some k ↦ item k (record {
    waiting_items = drop_item k q.waiting_items;
    taken_items = k ∷ q.taken_items;
    closing = q.closing;
  })
]

abbrev add_item : String → Items → Items
add_item k q =
    if q.closing || has q.waiting_items k
    then q
    else record q { waiting_items = q.waiting_items ++ (k ∷ []) }

abbrev library : RestLibrary String
library = record {
  Limiter = ℕ;
  Rate = Bool;
  Serializer = String;
  Other = Unit;
  RestClient = String;
  Discovery = String;
  is_positive = λ r. r;
  new_limiter = λ r b. b;
  codecs = "codecs";
  default_user_agent = "agent";
  rest_client_for = λ c. ok c.user_agent;
  discovery_for = λ c. ok "discovery";
  discovery_or_die = λ c. value "discovery";
  discovery_over = λ c. "discovery";
}

abbrev pub machine_of : Bool → Platform
machine_of accepts = record {
  Error = String;
  errorf = λ s. s;
  message = λ e. e;
  is_not_found = λ e. e == "NotFound";
  is_already_exists = λ e. e == "AlreadyExists";
  new_not_found = λ r n. "NotFound";
  Outside = Site;
  read_file = λ path s. found (s.files path);
  read_dir = λ path s. ok ("cluster_crd.yml" ∷ "kubeconfig_crd.yml" ∷ []);
  run = λ name args s. (finished none "", s);
  exec = λ name args s. (
    started (chunk "ab" (chunk "" (stop "c" "EOF")))
        (if s.rke_works then none else some "exit status 1"),
    s,
  );
  cmd_text = λ name args. name;
  clusters = record {
    get = λ name s. (found (named_at s name), s);
    create = update_cluster accepts;
    update = update_cluster accepts;
  };
  kubeconfigs = record {
    get = λ name s. (found (config_at s name), s);
    create = update_config accepts;
    update = update_config accepts;
  };
  rest = library;
  build_config = λ path s. ok (record {
    group_version = none;
    api_path = "";
    user_agent = "";
    serializer = none;
    rate_limiter = none;
    qps = true;
    burst = 10;
    other = tt;
  });
  server_version = λ d s. (if s.answers then ok "v1.8.3" else err "down", s);
  accessor_error = λ c. none;
  is_true = λ c x. status_of c x.status.conditions == "True";
  starting =
      λ c x. if status_of c x.status.conditions == "False" then x else set_condition c "Unknown" x;
  finished = λ c before now e. set_condition c (outcome_status e) now;
  Queue = Items;
  add = add_item;
  get = take_item;
  done = λ k q. record q { taken_items = drop_item k q.taken_items };
  shut_down = λ q. record q { closing = true };
  key_of = λ c. ok c.metadata.name;
}

-- the one whose server accepts all writes
abbrev pub machine : Platform
machine = machine_of true

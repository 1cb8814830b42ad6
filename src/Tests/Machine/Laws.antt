-- ===== src/Tests/Machine/Laws.antt =====
-- The machine behaves as the theorems assume.
use mathlib.Core.Bool.{false≢true}
use kubecon.Prelude.{
  String, ◌≡◌, refl, ap, Bool, true, false, List, [], ◌∷◌, arith, ◌==◌, if◌then◌else◌, eq_iff, none,
  some, Option, ◌≢◌, sym, ◌∙◌, ◌⊎◌, inl, inr, Option-cases,
}
use kubecon.Prelude.Strings.{has, has-append}
use kubecon.Api.{Cluster, Kubeconfig, ClusterCondition, Cond}
use kubecon.Platform.{ok, err, item, quit, waiting}
use mathlib.Core.Option
use mathlib.Core.Option.{none-ne-some, some-injective}
use kubecon.Platform.Laws.{
  cluster_content, kubeconfig_content, IsConditionLibrary, KeepsClusters, HasStableFiles,
  KeepsKubeconfigs, AnswersGets, FindsClusters,
}
use kubecon.Platform.WorkQueue.{QueueView, IsWorkQueue}
use kubecon.Tests.Machine.{
  machine_of, Site, Items, status_of, with_status, drop_item, found, take_item, next_item,
  config_at, named_at, cluster_at, config_content_at,
}

pub differ : (a b : String) → (a == b) ≡ false → a ≢ b
differ a b d e = false≢true (sym d ∙ (eq_iff a b).1 e)

status_of-with_status :
    (c : Cond) (s : String) (l : List ClusterCondition) → status_of c (with_status c s l) ≡ s
status_of-with_status c s [] = ground (arith, eq_iff c c)
status_of-with_status c s (x ∷ l) = ground (arith, status_of-with_status c s l)

pub machine-IsConditionLibrary : (accepts : Bool) → IsConditionLibrary (machine_of accepts)
machine-IsConditionLibrary accepts = record {
  true_after = λ c x. rw status_of-with_status;
  false_after = λ c x e. rw status_of-with_status;
  reads_conditions = λ c x y h. ap (λ l. status_of c l == "True") h;
  starting_metadata = λ c x. ground arith;
  starting_spec = λ c x. ground arith;
  starting_applied = λ c x. ground arith;
  finished_metadata = λ c x y e. refl;
  finished_spec = λ c x y e. refl;
  finished_applied = λ c x y e. refl;
}

found-ok : {A : Type 0} → (x : Option A) (a : A) → found x ≡ ok a → x ≡ some a
found-ok x a h = ground arith

pub machine-KeepsClusters : (accepts : Bool) → KeepsClusters (machine_of accepts) cluster_at
machine-KeepsClusters accepts = record {
  objects = record {
    update_accepted = λ c o h n. ground (arith, eq_iff c.metadata.name n);
    update_refused = λ c o e h n. ground arith;
    get_found = λ n o c h. ap (Option.map cluster_content) (found-ok (named_at o n) c h);
    get_keeps = λ n o m. refl;
  };
  others = record {
    exec_keeps = λ name args o n. refl;
    get_kubeconfig_keeps = λ name o n. refl;
    server_version_keeps = λ r o n. refl;
  };
}

pub machine-HasStableFiles : (accepts : Bool) → HasStableFiles (machine_of accepts)
machine-HasStableFiles accepts = record {
  after_update = λ c o path. ground arith;
  after_exec = λ name args o path. refl;
}

has-drop_item :
    (k j : String) (l : List String) → has (drop_item k l) j ≡ (if k == j then false else has l j)
has-drop_item k j [] = ground arith
has-drop_item k j (i ∷ l) = ground (arith, has-drop_item k j l, eq_iff i k, eq_iff i j, eq_iff k j)

next_item-has : (busy l : List String) (k : String) → next_item busy l ≡ some k → has l k ≡ true
next_item-has busy [] k h = ground arith
next_item-has busy (i ∷ l) k h = ground (arith, next_item-has busy l k, eq_iff i k)

next_item-none :
    (busy l : List String) (j : String)
    → next_item busy l ≡ none
    → has busy j ≡ false
    → has l j ≡ false
next_item-none busy [] j h free = refl
next_item-none busy (i ∷ l) j h free = ground (arith, next_item-none busy l j, eq_iff i j)

-- the views of the machine's queue
abbrev pub items_view : (accepts : Bool) → QueueView (machine_of accepts)
items_view accepts = record {
  dirty = λ q. has q.waiting_items;
  busy = λ q. has q.taken_items;
  closing = λ q. q.closing;
}

module _ (q : Items) where
  taken_next :
      (k : String) (r : Items)
      → take_item q ≡ item k r
      → (has q.waiting_items k ≡ true)
        × (r ≡ record {
          waiting_items = drop_item k q.waiting_items;
          taken_items = k ∷ q.taken_items;
          closing = q.closing;
        })
  taken_next k r h = ground (arith, next_item-has q.taken_items q.waiting_items k)

  untaken :
      (j : String)
      → ((take_item q ≡ waiting) ⊎ (take_item q ≡ quit))
      → ((i : String) → has q.taken_items i ≡ false)
      → has q.waiting_items j ≡ false
  untaken j h idle = elim (Option-cases (next_item q.taken_items q.waiting_items)) [
    | inl n ↦ next_item-none q.taken_items q.waiting_items j n (idle j)
    | inr (k, n) ↦ ground arith
  ]

pub machine-IsWorkQueue : (accepts : Bool) → IsWorkQueue (machine_of accepts) (items_view accepts)
machine-IsWorkQueue accepts = record {
  dirty_add = λ k q j. ground (arith, has-append q.waiting_items (k ∷ []) j, eq_iff k j);
  busy_add = λ k q j. ground arith;
  closing_add = λ k q. ground arith;
  dirty_taken = λ k q r h. (taken_next q k r h).0;
  dirty_take = λ k q r j h. rw (taken_next q k r h).1 (has-drop_item k j q.waiting_items);
  busy_take = λ k q r j h. rw (taken_next q k r h).1 refl;
  closing_take = λ k q r h. rw (taken_next q k r h).1 refl;
  dirty_done = λ k q j. refl;
  busy_done = λ k q j. has-drop_item k j q.taken_items;
  closing_done = λ k q. refl;
  quit_closing = λ q h. ground arith;
  quit_drained = λ q h idle j. untaken q j (inr h) idle;
  waiting_open = λ q h. ground arith;
  waiting_drained = λ q h idle j. untaken q j (inl h) idle;
  dirty_shut_down = λ q j. refl;
  busy_shut_down = λ q j. refl;
  closing_shut_down = λ q. refl;
}

config_at-found :
    (s : Site) (name : String) (k : Kubeconfig)
    → found (config_at s name) ≡ ok k
    → (config_at s name ≡ some k) × (k.metadata.name ≡ name)
config_at-found s name k h = ground (arith, eq_iff k.metadata.name name)

pub machine-KeepsKubeconfigs :
    (accepts : Bool) → KeepsKubeconfigs (machine_of accepts) config_content_at
machine-KeepsKubeconfigs accepts = record {
  objects = record {
    update_accepted = λ k o h n. ground arith;
    update_refused = λ k o e h n. ground arith;
    get_found = λ n o k h. ap (Option.map kubeconfig_content) (config_at-found o n k h).0;
    get_keeps = λ n o m. refl;
  };
  found_name = λ name o k h. (config_at-found o name k h).1;
  create_accepted = λ k o h n. ground arith;
}

found-some :
    {A B : Type 0} (f : A → B) (x : Option A) (b : B)
    → Option.map f x ≡ some b
    → (a : A) × (found x ≡ ok a)
found-some f none b h = ground arith
found-some f (some a) b h = (a, refl)

found-err : {A : Type 0} (x : Option A) (e : String) → found x ≡ err e → e ≡ "NotFound"
found-err x e h = ground arith

pub machine-AnswersGets : (accepts : Bool) → AnswersGets (machine_of accepts) config_content_at
machine-AnswersGets accepts = record {
  finds = λ n o k h. found-some kubeconfig_content (config_at o n) k h;
  only_misses = λ n o e h. (eq_iff e "NotFound").1 (found-err (config_at o n) e h);
}

name-named_at : (s : Site) (n : String) (x : Cluster) → named_at s n ≡ some x → x.metadata.name ≡ n
name-named_at s n x h = ground (arith, eq_iff x.metadata.name n)

name-cluster_at :
    (s : Site) (n : String) (c : Cluster) → cluster_at s n ≡ some c → c.metadata.name ≡ n
name-cluster_at s n c h = elim (Option-cases (named_at s n)) [
  | inl e ↦ absurd (none-ne-some c (sym (ap (Option.map cluster_content) e) ∙ h))
  | inr (x, e) ↦
      let same = some-injective _ _ (sym h ∙ ap (Option.map cluster_content) e) in
      ap (λ (y : Cluster). y.metadata.name) same ∙ name-named_at s n x e
]

pub machine-FindsClusters : (accepts : Bool) → FindsClusters (machine_of accepts) cluster_at
machine-FindsClusters accepts = record {
  named = name-cluster_at;
  finds = λ o n c h. found-some cluster_content (named_at o n) c h;
}

-- ===== src/Client/Informers.antt =====
-- pkg/client/informers/externalversions: the factory that hands out one shared informer for each
-- type. An informer is what `cache.NewSharedIndexInformer` returned, by its number; what the
-- program asks of informers is listed as events, in order.
pub mod Laws
pub mod Resources
pub mod Sources
pub mod Requests
pub mod Orderly
pub mod Once
use kubecon.Prelude.{
  ℕ, suc, String, ◌<>◌, Bool, true, false, Option, none, some, List, [], ◌∷◌, ◌++◌, if◌then◌else◌,
}
use kubecon.Prelude.Exec.{Exec}
use kubecon.Api.{group_name, version_name}

-- The `reflect.Type` of an object.
pub data Kind : Type 0 where
  cluster kubeconfig : Kind

abbrev pub same_kind : Kind → Kind → Bool
same_kind cluster cluster = true
same_kind kubeconfig kubeconfig = true
same_kind _ _ = false

abbrev pub Informer : Type 0
Informer = ℕ

pub data Event : Type 0 where
  -- NewSharedIndexInformer, with its resync period in seconds
  create : Kind → ℕ → Informer → Event
  -- AddEventHandler, by the controller whose handlers they are
  add_handler : Informer → String → Event
  -- `go informer.Run(stop)`
  go_run : Informer → Event
  -- `go syncQueue.Run(period, stop)`
  go_worker : String → Event

-- sharedInformerFactory; `next` numbers the informer that is created next.
pub record Factory : Type 0 where
  pub default_resync : ℕ
  pub informers : List (Kind × Informer)
  pub started : List Kind
  pub next : Informer
  pub events : List Event

-- NewSharedInformerFactory
unfoldable pub new_factory : ℕ → Factory
new_factory resync = record {
  default_resync = resync;
  informers = [];
  started = [];
  next = 0;
  events = [];
}

abbrev pub emit : Event → Factory → Factory
emit e f = record f { events = f.events ++ (e ∷ []) }

-- `f.informers[kind]`
unfoldable pub find : Kind → List (Kind × Informer) → Option Informer
find k [] = none
find k ((j, i) ∷ l) = if same_kind j k then some i else find k l

unfoldable pub is_started : Kind → List Kind → Bool
is_started k [] = false
is_started k (j ∷ l) = if same_kind j k then true else is_started k l

-- `InformerFor`, with the function by which the type's informer is created
unfoldable pub informer_for : Kind → Exec Factory Informer
informer_for k f = elim (find k f.informers) [
  | some i ↦ (i, f)
  | none ↦ (
    f.next,
    record f {
      informers = (k, f.next) ∷ f.informers;
      next = suc f.next;
      events = f.events ++ (create k f.default_resync f.next ∷ []);
    },
  )
]

-- the body of the loop of `Start`
unfoldable pub start_one : Kind → Informer → Factory → Factory
start_one k i f =
    if is_started k f.started
    then f
    else record f { started = k ∷ f.started; events = f.events ++ (go_run i ∷ []) }

-- `Start`, through the informers that the map holds, in one of the orders that Go may take
unfoldable pub start_all : List (Kind × Informer) → Factory → Factory
start_all [] f = f
start_all ((k, i) ∷ l) f = start_all l (start_one k i f)

unfoldable pub start : Factory → Factory
unfolding start_all
start f = start_all f.informers f

-- `WaitForCacheSync`: of the started informers, whether each has synced
unfoldable pub wait_for_cache_sync :
    (Informer → Bool) → List Kind → List (Kind × Informer) → List (Kind × Bool)
wait_for_cache_sync synced started [] = []
wait_for_cache_sync synced started ((k, i) ∷ l) =
    let rest = wait_for_cache_sync synced started l in
    if is_started k started then (k, synced i) ∷ rest else rest

pub record GroupVersionResource : Type 0 where
  pub group : String
  pub version : String
  pub resource : String

abbrev pub with_resource : String → GroupVersionResource
with_resource r = record { group = group_name; version = version_name; resource = r }

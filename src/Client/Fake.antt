-- ===== src/Client/Fake.antt =====
-- pkg/client/clientset/versioned/typed/clusterprovisioner/v1alpha1/fake: clients for tests, over the
-- actions of k8s.io/client-go/testing. The clients of the two resources are the same code for
-- another type.
pub mod Laws
pub mod Simple
use kubecon.Prelude.{String, Bool, Option, none, some, List, [], ◌∷◌, if◌then◌else◌}
use kubecon.Prelude.Map.{Map}
use kubecon.Prelude.Exec.{Exec}
use kubecon.Client.Result.{Result, ok, err}
use kubecon.Client.Objects.{ResourceClient}
use kubecon.Api.{Cluster, Kubeconfig, group_name, version_name, no_metadata}
use kubecon.Client.Informers.{GroupVersionResource, with_resource}

pub record GroupVersionKind : Type 0 where
  pub group : String
  pub version : String
  pub kind : String

-- The actions, over the type of ListOptions and that of the resource's objects. A patch comes with
-- its data and subresources.
pub data Action (O A : Type 0) : Type 0 where
  get_action : GroupVersionResource → String → Action O A
  list_action : GroupVersionResource → GroupVersionKind → O → Action O A
  watch_action : GroupVersionResource → O → Action O A
  create_action : GroupVersionResource → A → Action O A
  update_action : GroupVersionResource → A → Action O A
  delete_action : GroupVersionResource → String → Action O A
  delete_collection_action : GroupVersionResource → O → Action O A
  patch_action : GroupVersionResource → String → String → List String → Action O A

-- A non-nil `runtime.Object`: of the resource's type, of its list's type by the items, or of
-- another.
pub data Object (A : Type 0) : Type 0 where
  single : A → Object A
  several : List A → Object A
  other : Object A

-- The label selector of ListOptions: extracting it panics, gives nil, or gives one.
pub data ListLabel (S : Type 0) : Type 0 where
  invalid : ListLabel S
  unset : ListLabel S
  label : S → ListLabel S

-- A Go function's two results, a nil pointer by `none`, or its panic.
pub data Returned (E A : Type 0) : Type 0 where
  returned : Option A → Option E → Returned E A
  panicked : Returned E A

-- What the fake clients call of the testing library and of the labels' library.
pub record FakeLibrary (E A : Type 0) : Type 1 where
  pub Fake : Type 0
  pub Options : Type 0
  pub Selector : Type 0
  pub Watch : Type 0
  pub invokes : Action Options A → Object A → Exec Fake (Option (Object A) × Option E)
  pub invokes_watch : Action Options A → Exec Fake (Option Watch × Option E)
  pub label_of : Options → ListLabel Selector
  pub everything : Selector
  pub matches : Selector → Option Map → Bool

-- What differs between the clients: the resource, its kind, the zero object, and the field Labels.
pub record FakeResource (A : Type 0) : Type 0 where
  pub resource : GroupVersionResource
  pub kind : GroupVersionKind
  pub zero : A
  pub labels : A → Option Map

-- `if obj == nil { return nil, err }; return obj.(*T), err`
unfoldable pub as_single : {E A : Type 0} → Option (Object A) × Option E → Returned E A
as_single (none, e) = returned none e
as_single (some (single a), e) = returned (some a) e
as_single (some (several l), e) = panicked
as_single (some other, e) = panicked

module _ {E A : Type 0} (F : FakeLibrary E A) (R : FakeResource A) where
  abbrev invoke : Action F.Options A → Exec F.Fake (Returned E A)
  invoke a f = let (r, f') = F.invokes a (single R.zero) f in (as_single r, f')

  unfoldable pub get : String → Exec F.Fake (Returned E A)
  get name = invoke (get_action R.resource name)

  unfoldable pub create : A → Exec F.Fake (Returned E A)
  create a = invoke (create_action R.resource a)

  unfoldable pub update : A → Exec F.Fake (Returned E A)
  update a = invoke (update_action R.resource a)

  pub patch : String → String → List String → Exec F.Fake (Returned E A)
  patch name bytes subresources = invoke (patch_action R.resource name bytes subresources)

  pub delete : String → Exec F.Fake (Option E)
  delete name f =
      let ((_, e), f') = F.invokes (delete_action R.resource name) (single R.zero) f in (e, f')

  pub delete_collection : F.Options → Exec F.Fake (Option E)
  delete_collection opts f =
      let ((_, e), f') = F.invokes (delete_collection_action R.resource opts) (several []) f in
      (e, f')

  pub watch : F.Options → Exec F.Fake (Option F.Watch × Option E)
  watch opts = F.invokes_watch (watch_action R.resource opts)

  -- the loop of `List` over the items
  pub selected : F.Selector → List A → List A
  selected s [] = []
  selected s (item ∷ items) =
      let rest = selected s items in if F.matches s (R.labels item) then item ∷ rest else rest

  -- `List`, behind its test of nil
  pub select_items : F.Options → Object A → Option E → Returned E (List A)
  select_items opts (several items) e = elim (F.label_of opts) [
    | invalid ↦ panicked
    | unset ↦ returned (some (selected F.everything items)) e
    | label s ↦ returned (some (selected s items)) e
  ]
  select_items opts (single a) e = panicked
  select_items opts other e = panicked

  pub list : F.Options → Exec F.Fake (Returned E (List A))
  list opts f =
      let ((obj, e), f') = F.invokes (list_action R.resource R.kind opts) (several []) f in
      elim obj [ none ↦ (returned none e, f') | some o ↦ (select_items opts o e, f') ]

-- FakeClusters
abbrev pub fake_clusters : FakeResource Cluster
fake_clusters = record {
  resource = with_resource "clusters";
  kind = record { group = group_name; version = version_name; kind = "Cluster" };
  zero = record {
    type_meta = record { kind = ""; api_version = "" };
    metadata = no_metadata;
    spec = record { config_path = "" };
    status = record { applied_config = ""; conditions = [] };
  };
  labels = λ c. c.metadata.labels;
}

-- FakeKubeconfigs
abbrev fake_kubeconfigs : FakeResource Kubeconfig
fake_kubeconfigs = record {
  resource = with_resource "kubeconfigs";
  kind = record { group = group_name; version = version_name; kind = "Kubeconfig" };
  zero = record {
    type_meta = record { kind = ""; api_version = "" };
    metadata = no_metadata;
    spec = record { config_path = "" };
  };
  labels = λ k. k.metadata.labels;
}

-- A fake client by its methods
pub record FakeClient {E A : Type 0} (F : FakeLibrary E A) : Type 0 where
  pub get_object : String → Exec F.Fake (Returned E A)
  pub list_objects : F.Options → Exec F.Fake (Returned E (List A))
  pub watch_objects : F.Options → Exec F.Fake (Option F.Watch × Option E)
  pub create_object : A → Exec F.Fake (Returned E A)
  pub update_object : A → Exec F.Fake (Returned E A)
  pub delete_object : String → Exec F.Fake (Option E)
  pub delete_objects : F.Options → Exec F.Fake (Option E)
  pub patch_object : String → String → List String → Exec F.Fake (Returned E A)

abbrev fake_client : {E A : Type 0} (F : FakeLibrary E A) → FakeResource A → FakeClient F
fake_client F R = record {
  get_object = get F R;
  list_objects = list F R;
  watch_objects = watch F R;
  create_object = create F R;
  update_object = update F R;
  delete_object = delete F R;
  delete_objects = delete_collection F R;
  patch_object = patch F R;
}

abbrev fake_cluster_client : {E : Type 0} (F : FakeLibrary E Cluster) → FakeClient F
fake_cluster_client F = fake_client F fake_clusters

abbrev fake_kubeconfig_client : {E : Type 0} (F : FakeLibrary E Kubeconfig) → FakeClient F
fake_kubeconfig_client F = fake_client F fake_kubeconfigs

-- FakeClusterprovisionerV1alpha1: the getters Clusters and Kubeconfigs
abbrev fake_clusters_of : {E : Type 0} (F : FakeLibrary E Cluster) → FakeClient F
fake_clusters_of F = fake_cluster_client F

abbrev fake_kubeconfigs_of : {E : Type 0} (F : FakeLibrary E Kubeconfig) → FakeClient F
fake_kubeconfigs_of F = fake_kubeconfig_client F

-- A `rest.Interface`: nil, or a pointer to a RESTClient, which is nil itself or leads to a client.
data RestInterface (R : Type 0) : Type 0 where
  nil_interface nil_pointer : RestInterface R
  pointer_to : R → RestInterface R

-- RESTClient of it: an interface that holds a nil pointer, and is not nil
abbrev fake_rest_client : {R : Type 0} → RestInterface R
fake_rest_client = nil_pointer

-- Why a call of a fake client gives its caller nothing: the tracker's error, a nil object without
-- one, or a panic.
pub data Failure (E : Type 0) : Type 0 where
  failed : E → Failure E
  nil_object : Failure E
  panic : Failure E

abbrev pub answer_of : {E A : Type 0} → Returned E A → Result (Failure E) A
answer_of (returned a (some e)) = err (failed e)
answer_of (returned none none) = err nil_object
answer_of (returned (some a) none) = ok a
answer_of panicked = err panic

abbrev pub failure_of : {E A : Type 0} → Returned E A → Option (Failure E)
failure_of (returned a none) = none
failure_of (returned a (some e)) = some (failed e)
failure_of panicked = some panic

-- The fake client as a caller like the controllers uses it.
abbrev pub fake_resource :
    {E A : Type 0} (F : FakeLibrary E A) → FakeResource A → ResourceClient (Failure E) F.Fake A
fake_resource F R = record {
  get = λ n f. let (r, f') = get F R n f in (answer_of r, f');
  create = λ a f. let (r, f') = create F R a f in (failure_of r, f');
  update = λ a f. let (r, f') = update F R a f in (failure_of r, f');
}

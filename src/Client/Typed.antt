-- ===== src/Client/Typed.antt =====
-- pkg/client/clientset/versioned/typed/clusterprovisioner/v1alpha1: cluster.go and kubeconfig.go,
-- the same code for two types: the request that each method builds, and what it returns of the
-- answer.
pub mod Laws
use kubecon.Prelude.{String, Option, none, some, List, [], ◌∷◌}
use kubecon.Prelude.Exec.{Exec}
use kubecon.Client.Result.{Result, ok, err}
use kubecon.Client.Objects.{ResourceClient}
use kubecon.Api.{Cluster, Kubeconfig, no_metadata}

-- The first call of a `rest.Interface`; a patch by its type.
pub data Verb : Type 0 where
  get_verb post_verb put_verb delete_verb : Verb
  patch_verb : String → Verb

pub data Params (G L : Type 0) : Type 0 where
  get_options : G → Params G L
  list_options : L → Params G L

pub data Body (A D : Type 0) : Type 0 where
  object : A → Body A D
  delete_options : D → Body A D
  bytes : String → Body A D

-- The calls that build a request, in order.
pub data Call (P B : Type 0) : Type 0 where
  resource : String → Call P B
  named : String → Call P B
  sub_resource : List String → Call P B
  versioned_params : P → Call P B
  body : B → Call P B

-- The REST client of k8s.io/client-go for objects of one type: what sends a request. `Do().Into`
-- fills the object that it is given, and tells an error.
pub record Rest (E A : Type 0) : Type 1 where
  pub Outside : Type 0
  pub GetOptions : Type 0
  pub ListOptions : Type 0
  pub DeleteOptions : Type 0
  pub ListOf : Type 0
  pub Watch : Type 0
  pub with_watch : ListOptions → ListOptions
  pub do_into :
      Verb
      → List (Call (Params GetOptions ListOptions) (Body A DeleteOptions))
      → A
      → Exec Outside (A × Option E)
  pub do_into_list :
      Verb
      → List (Call (Params GetOptions ListOptions) (Body A DeleteOptions))
      → Exec Outside (ListOf × Option E)
  pub do_error :
      Verb
      → List (Call (Params GetOptions ListOptions) (Body A DeleteOptions))
      → Exec Outside (Option E)
  pub do_watch :
      Verb
      → List (Call (Params GetOptions ListOptions) (Body A DeleteOptions))
      → Exec Outside (Option Watch × Option E)

-- What differs between the clients: the resource's name, the zero object, and the field Name.
pub record TypedResource (A : Type 0) : Type 0 where
  pub plural : String
  pub zero : A
  pub name : A → String

module _ {E A : Type 0} (T : Rest E A) (R : TypedResource A) where
  unfoldable pub get : String → T.GetOptions → Exec T.Outside (A × Option E)
  get name options =
      T.do_into get_verb
        (resource R.plural ∷ named name ∷ versioned_params (get_options options) ∷ []) R.zero

  unfoldable pub list : T.ListOptions → Exec T.Outside (T.ListOf × Option E)
  list opts =
      T.do_into_list get_verb (resource R.plural ∷ versioned_params (list_options opts) ∷ [])

  pub watch : T.ListOptions → Exec T.Outside (Option T.Watch × Option E)
  watch opts =
      T.do_watch get_verb
        (resource R.plural ∷ versioned_params (list_options (T.with_watch opts)) ∷ [])

  unfoldable pub create : A → Exec T.Outside (A × Option E)
  create a = T.do_into post_verb (resource R.plural ∷ body (object a) ∷ []) R.zero

  unfoldable pub update : A → Exec T.Outside (A × Option E)
  update a = T.do_into put_verb (resource R.plural ∷ named (R.name a) ∷ body (object a) ∷ []) R.zero

  pub delete : String → T.DeleteOptions → Exec T.Outside (Option E)
  delete name options =
      T.do_error delete_verb (resource R.plural ∷ named name ∷ body (delete_options options) ∷ [])

  pub delete_collection : T.DeleteOptions → T.ListOptions → Exec T.Outside (Option E)
  delete_collection options opts = T.do_error delete_verb (
      resource R.plural ∷ versioned_params (list_options opts) ∷ body (delete_options options) ∷ [])

  pub patch : String → String → String → List String → Exec T.Outside (A × Option E)
  patch name type content subresources =
      T.do_into (patch_verb type)
        (resource R.plural ∷ sub_resource subresources ∷ named name ∷ body (bytes content) ∷ [])
        R.zero

-- A client by its methods
pub record TypedClient {E A : Type 0} (T : Rest E A) : Type 0 where
  pub get_object : String → T.GetOptions → Exec T.Outside (A × Option E)
  pub list_objects : T.ListOptions → Exec T.Outside (T.ListOf × Option E)
  pub watch_objects : T.ListOptions → Exec T.Outside (Option T.Watch × Option E)
  pub create_object : A → Exec T.Outside (A × Option E)
  pub update_object : A → Exec T.Outside (A × Option E)
  pub delete_object : String → T.DeleteOptions → Exec T.Outside (Option E)
  pub delete_objects : T.DeleteOptions → T.ListOptions → Exec T.Outside (Option E)
  pub patch_object : String → String → String → List String → Exec T.Outside (A × Option E)

abbrev typed_client : {E A : Type 0} (T : Rest E A) → TypedResource A → TypedClient T
typed_client T R = record {
  get_object = get T R;
  list_objects = list T R;
  watch_objects = watch T R;
  create_object = create T R;
  update_object = update T R;
  delete_object = delete T R;
  delete_objects = delete_collection T R;
  patch_object = patch T R;
}

abbrev pub clusters : TypedResource Cluster
clusters = record {
  plural = "clusters";
  zero = record {
    type_meta = record { kind = ""; api_version = "" };
    metadata = no_metadata;
    spec = record { config_path = "" };
    status = record { applied_config = ""; conditions = [] };
  };
  name = λ c. c.metadata.name;
}

abbrev pub kubeconfigs : TypedResource Kubeconfig
kubeconfigs = record {
  plural = "kubeconfigs";
  zero = record {
    type_meta = record { kind = ""; api_version = "" };
    metadata = no_metadata;
    spec = record { config_path = "" };
  };
  name = λ k. k.metadata.name;
}

-- ClusterInterface and KubeconfigInterface
abbrev ClusterInterface : {E : Type 0} → Rest E Cluster → Type 0
ClusterInterface T = TypedClient T

abbrev KubeconfigInterface : {E : Type 0} → Rest E Kubeconfig → Type 0
KubeconfigInterface T = TypedClient T

-- newClusters
abbrev new_clusters : {E : Type 0} (T : Rest E Cluster) → ClusterInterface T
new_clusters T = typed_client T clusters

-- newKubeconfigs
abbrev new_kubeconfigs : {E : Type 0} (T : Rest E Kubeconfig) → KubeconfigInterface T
new_kubeconfigs T = typed_client T kubeconfigs

abbrev pub ok_or_error : {E A : Type 0} → A → Option E → Result E A
ok_or_error a none = ok a
ok_or_error a (some e) = err e

-- The typed client as the controllers use it: of what it returns beside an error, or after a write,
-- they look at nothing.
abbrev pub typed_resource :
    {E A : Type 0} (T : Rest E A) → TypedResource A → T.GetOptions → ResourceClient E T.Outside A
typed_resource T R options = record {
  get = λ n o. let ((a, e), o') = get T R n options o in (ok_or_error a e, o');
  create = λ a o. let ((_, e), o') = create T R a o in (e, o');
  update = λ a o. let ((_, e), o') = update T R a o in (e, o');
}

-- ClusterprovisionerV1alpha1Client: its REST client, as it serves the objects of either type.
pub record VersionClient (E : Type 0) : Type 1 where
  pub cluster_rest : Rest E Cluster
  pub kubeconfig_rest : Rest E Kubeconfig

-- Clusters and Kubeconfigs of the client
abbrev clusters_of : {E : Type 0} (c : VersionClient E) → ClusterInterface c.cluster_rest
clusters_of c = new_clusters c.cluster_rest

abbrev kubeconfigs_of : {E : Type 0} (c : VersionClient E) → KubeconfigInterface c.kubeconfig_rest
kubeconfigs_of c = new_kubeconfigs c.kubeconfig_rest

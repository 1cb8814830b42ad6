-- ===== src/Client/Clientset.antt =====
-- pkg/client/clientset/versioned/clientset.go and typed/…/clusterprovisioner_client.go: a clientset
-- for a configuration, from the REST and discovery clients of k8s.io/client-go.
pub mod Laws
pub mod OrDie
use kubecon.Prelude.{ℕ, String, Bool, true, false, Option, none, some, ◌==◌, ◌&&◌, if◌then◌else◌}
use kubecon.Api.{group_name, version_name}
use kubecon.Client.Result.{Result, ok, err, OrPanic, value, panics}

pub record GroupVersion : Type 0 where
  pub group : String
  pub version : String

-- SchemeGroupVersion
abbrev pub scheme_group_version : GroupVersion
scheme_group_version = record { group = group_name; version = version_name }

-- The fields of a `rest.Config` that the program's code reads or writes, over the library's types
-- for rate limiters, rates and serializers, and for its other fields.
pub record Config (L R S O : Type 0) : Type 0 where
  pub group_version : Option GroupVersion
  pub api_path : String
  pub user_agent : String
  pub serializer : Option S
  pub rate_limiter : Option L
  pub qps : R
  pub burst : ℕ
  pub other : O

-- What the clientset calls of k8s.io/client-go.
pub record RestLibrary (E : Type 0) : Type 1 where
  pub Limiter : Type 0
  pub Rate : Type 0
  pub Serializer : Type 0
  pub Other : Type 0
  pub RestClient : Type 0
  pub Discovery : Type 0
  pub is_positive : Rate → Bool
  pub new_limiter : Rate → ℕ → Limiter
  pub codecs : Serializer
  pub default_user_agent : String
  pub rest_client_for : Config Limiter Rate Serializer Other → Result E RestClient
  pub discovery_for : Config Limiter Rate Serializer Other → Result E Discovery
  pub discovery_or_die : Config Limiter Rate Serializer Other → OrPanic E Discovery
  pub discovery_over : RestClient → Discovery

abbrev pub ConfigOf : {E : Type 0} → RestLibrary E → Type 0
ConfigOf R = Config R.Limiter R.Rate R.Serializer R.Other

-- Clientset, with the REST client of its ClusterprovisionerV1alpha1Client
pub record Clientset {E : Type 0} (R : RestLibrary E) : Type 0 where
  pub discovery : R.Discovery
  pub rest_client : R.RestClient

module _ {E : Type 0} (R : RestLibrary E) where
  -- setConfigDefaults; it never fails
  unfoldable pub set_config_defaults : ConfigOf R → ConfigOf R
  set_config_defaults c = record c {
    group_version = some scheme_group_version;
    api_path = "/apis";
    serializer = some R.codecs;
    user_agent = if c.user_agent == "" then R.default_user_agent else c.user_agent;
  }

  -- NewForConfig of the typed client
  unfoldable pub typed_for_config : ConfigOf R → Result E R.RestClient
  typed_for_config c = R.rest_client_for (set_config_defaults c)

  -- the rate limiter that NewForConfig of the clientset gives to a copy of the configuration, so
  -- that both clients share it
  unfoldable pub with_limiter : ConfigOf R → ConfigOf R
  with_limiter c = elim c.rate_limiter [
    | some _ ↦ c
    | none ↦
        if R.is_positive c.qps
        then record c { rate_limiter = some (R.new_limiter c.qps c.burst) }
        else c
  ]

  -- NewForConfig of the clientset
  unfoldable pub new_for_config : ConfigOf R → Result E (Clientset R)
  new_for_config c =
      let shallow = with_limiter c in
      elim (typed_for_config shallow) [
        | err e ↦ err e
        | ok client ↦ elim (R.discovery_for shallow) [
          | err e ↦ err e
          | ok discovery ↦ ok (record { discovery = discovery; rest_client = client })
        ]
      ]

  -- NewForConfigOrDie of the typed client
  unfoldable pub typed_or_die : ConfigOf R → OrPanic E R.RestClient
  typed_or_die c = elim (typed_for_config c) [ err e ↦ panics e | ok client ↦ value client ]

  -- NewForConfigOrDie of the clientset
  unfoldable pub new_for_config_or_die : ConfigOf R → OrPanic E (Clientset R)
  new_for_config_or_die c = elim (typed_or_die c) [
    | panics e ↦ panics e
    | value client ↦ elim (R.discovery_or_die c) [
      | panics e ↦ panics e
      | value discovery ↦ value (record { discovery = discovery; rest_client = client })
    ]
  ]

  -- New of the typed client, which is the REST client itself
  abbrev typed_new : R.RestClient → R.RestClient
  typed_new c = c

  -- New of the clientset
  abbrev new : R.RestClient → Clientset R
  new c = record { discovery = R.discovery_over c; rest_client = typed_new c }

  -- the getters Discovery, of a clientset, and RESTClient, of a typed client, which may be nil
  abbrev discovery_of : Option (Clientset R) → Option R.Discovery
  discovery_of none = none
  discovery_of (some s) = some s.discovery

  abbrev rest_client_of : Option R.RestClient → Option R.RestClient
  rest_client_of none = none
  rest_client_of (some c) = some c

  -- the getters ClusterprovisionerV1alpha1 and Clusterprovisioner
  abbrev clusterprovisioner_v1alpha1 : Clientset R → R.RestClient
  clusterprovisioner_v1alpha1 s = s.rest_client

  abbrev clusterprovisioner : Clientset R → R.RestClient
  clusterprovisioner s = s.rest_client

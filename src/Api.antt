-- ===== src/Api.antt =====
-- pkg/apis/clusterprovisioner/v1alpha1/types.go and register.go: the objects that the API server
-- keeps. Of the API machinery's `TypeMeta` and `ObjectMeta`, which lie outside the program, the
-- fields that the program reads or writes, and the version, which the program sends back with each
-- update as it got it.
use kubecon.Prelude.{String, Bool, Option, none, List, []}
use kubecon.Prelude.Map.{Map}

pub record TypeMeta : Type 0 where
  pub kind : String
  pub api_version : String

pub record OwnerReference : Type 0 where
  pub api_version : String
  pub kind : String
  pub name : String
  pub uid : String
  pub controller : Option Bool

-- A nil map is `none`. A nil slice and an empty one are used alike.
pub record ObjectMeta : Type 0 where
  pub name : String
  pub uid : String
  pub resource_version : String
  pub deletion_timestamp : Option String
  pub labels : Option Map
  pub annotations : Option Map
  pub owner_references : List OwnerReference
  pub finalizers : List String

-- The zero value.
abbrev pub no_metadata : ObjectMeta
no_metadata = record {
  name = "";
  uid = "";
  resource_version = "";
  deletion_timestamp = none;
  labels = none;
  annotations = none;
  owner_references = [];
  finalizers = [];
}

pub record KubeconfigSpec : Type 0 where
  pub config_path : String

pub record ClusterSpec : Type 0 where
  pub config_path : String

pub record ClusterCondition : Type 0 where
  pub type : String
  pub status : String
  pub last_update_time : String
  pub last_transition_time : String
  pub reason : String
  pub message : String

pub record ClusterStatus : Type 0 where
  pub applied_config : String
  pub conditions : List ClusterCondition

pub record Cluster : Type 0 where
  pub type_meta : TypeMeta
  pub metadata : ObjectMeta
  pub spec : ClusterSpec
  pub status : ClusterStatus

pub record Kubeconfig : Type 0 where
  pub type_meta : TypeMeta
  pub metadata : ObjectMeta
  pub spec : KubeconfigSpec

-- `condition.Cond` is a string type.
abbrev pub Cond : Type 0
Cond = String

abbrev pub ready : Cond
ready = "Ready"

abbrev pub provisioned : Cond
provisioned = "Provisioned"

-- GroupName and SchemeGroupVersion
abbrev pub group_name : String
group_name = "clusterprovisioner.rke.io"

abbrev pub version_name : String
version_name = "v1alpha1"

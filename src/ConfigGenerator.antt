-- ===== src/ConfigGenerator.antt =====
-- controllers/configgenerator/config_generator.go: the controller that keeps a Kubeconfig object
-- for each provisioned cluster.
pub mod FilePath
pub mod Laws
pub mod Wanted
use kubecon.Prelude.{String, true, Option, none, some, List, [], ◌∷◌, not, ◌==◌, if◌then◌else◌}
use kubecon.Api.{Cluster, Kubeconfig, OwnerReference, no_metadata, provisioned}
use kubecon.Platform.{Platform, Result, ok, err}
use kubecon.World.{M, Address, outside}
use FilePath.{kube_config_path}

-- getKubeConfigPath
unfoldable pub get_kube_config_path : Cluster → String
unfolding kube_config_path
get_kube_config_path c = kube_config_path c.spec.config_path

unfoldable owner_ref : Cluster → OwnerReference
owner_ref c = record {
  api_version = "v1alpha1";
  kind = "Cluster";
  name = c.metadata.name;
  uid = c.metadata.uid;
  controller = some true;
}

-- the object that createKubeconfig sends
pub new_kubeconfig : Cluster → String → Kubeconfig
unfolding owner_ref
new_kubeconfig c path = record {
  type_meta = record { kind = "Kubeconfig"; api_version = "clusterprovisioner.rke.io/v1alpha1" };
  metadata = record no_metadata { name = c.metadata.name; owner_references = owner_ref c ∷ [] };
  spec = record { config_path = path };
}

-- getName
abbrev pub config_generator_name : String
config_generator_name = "configgenerator"

module _ (E : Platform) where
  -- createKubeconfig; an error is logged at most
  unfoldable pub create_kubeconfig : Cluster → String → M E (Unit {0})
  create_kubeconfig c path w =
      let (_, w1) = outside E (E.kubeconfigs.create (new_kubeconfig c path)) w in (tt, w1)

  -- updateKubeconfig; an error is logged
  unfoldable pub update_kubeconfig : Kubeconfig → String → M E (Unit {0})
  update_kubeconfig k path w =
      let sent = record k { spec = record { config_path = path } } in
      let (_, w1) = outside E (E.kubeconfigs.update sent) w in (tt, w1)

  -- sync, behind its two guards. `Get` of the typed client never returns nil, so the test
  -- `kubeconfig == nil` adds nothing to that of the error.
  unfoldable pub reconcile : Cluster → M E (Unit {0})
  reconcile c w =
      let (r, w1) = outside E (E.kubeconfigs.get c.metadata.name) w in
      let path = get_kube_config_path c in
      elim r [
        | err e ↦ if not (E.is_not_found e) then (tt, w1) else create_kubeconfig c path w1
        | ok k ↦ if not (k.spec.config_path == path) then update_kubeconfig k path w1 else (tt, w1)
      ]

  unfoldable pub sync : Address → M E (Unit {0})
  sync p w = elim (w.heap.cell p).metadata.deletion_timestamp [
    | some _ ↦ (tt, w)
    | none ↦
        if not (E.is_true provisioned (w.heap.cell p)) then (tt, w) else reconcile (w.heap.cell p) w
  ]

  -- addConfig
  abbrev add_config : Address → M E (Unit {0})
  add_config = sync

  -- updateConfig: the object before the update is the one that is looked at.
  unfoldable pub update_config : Address → Address → M E (Unit {0})
  update_config obj updated = sync obj

-- ===== src/Annotator.antt =====
-- controllers/annotator/annotator.go: the controller that notes a cluster's Kubernetes version.
pub mod Laws
use kubecon.Prelude.{String, none, some, [], not, ◌==◌, if◌then◌else◌}
use kubecon.Prelude.Map.{Map, index, assign}
use kubecon.Api.{Cluster, ready, provisioned}
use kubecon.Platform.{Platform, Result, ok, err}
use kubecon.Client.Clientset.{new_for_config}
use kubecon.World.{M, Address, store, deep_copy, outside}
use kubecon.World.Retry.{retry}

-- getName
abbrev pub annotator_name : String
annotator_name = "annotator"

abbrev pub kubernetes_version_annotation : String
kubernetes_version_annotation = "clusterprovisioner.rke.io/kubernetes-version"

-- `cluster.Annotations[…]`, where the map may be nil
unfoldable pub current_version : Cluster → String
current_version c = elim c.metadata.annotations [
  | none ↦ ""
  | some m ↦ index m kubernetes_version_annotation
]

-- the write of the annotation, into a new map where there is none
unfoldable pub annotate : String → Cluster → Cluster
annotate version c =
    let m : Map = elim c.metadata.annotations [ none ↦ [] | some m ↦ m ] in
    record c {
      metadata = record (c.metadata) {
        annotations = some (assign m kubernetes_version_annotation version);
      };
    }

module _ (E : Platform) where
  -- getVersion, with the kubeconfig's path at hand
  unfoldable pub read_version : String → M E (Result E.Error String)
  read_version config_path w = elim (E.build_config config_path w.outside) [
    | err e ↦ (err e, w)
    | ok rest_config ↦ elim (new_for_config E.rest rest_config) [
      | err e ↦ (err e, w)
      | ok client ↦ outside E (E.server_version client.discovery) w
    ]
  ]

  unfoldable pub get_version : Cluster → M E (Result E.Error String)
  get_version c w =
      let (r, w1) = outside E (E.kubeconfigs.get c.metadata.name) w in
      elim r [
        | err e ↦ (if E.is_not_found e then ok "" else err e, w1)
        | ok kubeconfig ↦ read_version kubeconfig.spec.config_path w1
      ]

  -- The version that `sync` goes on with: the empty string beside an error, which it logs.
  unfoldable pub version_or_empty : Result E.Error String → String
  version_or_empty (ok v) = v
  version_or_empty (err e) = ""

  -- sync, from the copy of the cluster on
  unfoldable pub put_version : Address → String → M E (Unit {0})
  put_version p version w =
      let (to_update, w1) = deep_copy E p w in
      let (_, w2) = store E to_update (annotate version (w1.heap.cell to_update)) w1 in
      let (_, w3) = outside E (retry 3 (E.clusters.update (w2.heap.cell to_update)) none) w2 in
      (tt, w3)

  -- sync, behind its three guards
  unfoldable pub refresh : Address → M E (Unit {0})
  refresh p w =
      let (r, w1) = get_version (w.heap.cell p) w in
      if current_version (w1.heap.cell p) == version_or_empty r
      then (tt, w1)
      else put_version p (version_or_empty r) w1

  unfoldable pub sync : Address → M E (Unit {0})
  sync p w = elim (w.heap.cell p).metadata.deletion_timestamp [
    | some _ ↦ (tt, w)
    | none ↦
        if not (E.is_true provisioned (w.heap.cell p))
        then (tt, w)
        else if not (E.is_true ready (w.heap.cell p))
        then (tt, w)
        else refresh p w
  ]

  -- addAnnotation
  abbrev add_annotation : Address → M E (Unit {0})
  add_annotation = sync

  -- updateAnnotation: the object before the update is the one that is looked at.
  unfoldable pub update_annotation : Address → Address → M E (Unit {0})
  update_annotation obj updated = sync obj

-- ===== src/Client/Informers/Resources.antt =====
-- pkg/client/informers/externalversions: generic.go, and the interface.go of the group and of the
-- version with the getters of cluster.go and kubeconfig.go, which wrap the factory.
use kubecon.Prelude.{Bool, Option, none, some, ◌==◌, ◌&&◌, if◌then◌else◌}
use kubecon.Prelude.Exec.{Exec}
use kubecon.Client.Scheme.{GroupResource}
use kubecon.Client.Informers.{
  Kind, cluster, kubeconfig, Informer, Factory, informer_for, GroupVersionResource, with_resource,
}

-- clusterInformer and kubeconfigInformer: of the factory, which is the state here, they ask for the
-- informer of their type.
pub record ResourceInformer : Type 0 where
  pub kind : Kind

-- Interface of the version and of the group
pub record VersionInterface : Type 0 where
  pub clusters : ResourceInformer
  pub kubeconfigs : ResourceInformer

pub record GroupInterface : Type 0 where
  pub v1alpha1 : VersionInterface

-- New of the version, with Clusters and Kubeconfigs
abbrev new_version : VersionInterface
new_version = record {
  clusters = record { kind = cluster };
  kubeconfigs = record { kind = kubeconfig };
}

-- New of the group, with V1alpha1
abbrev new_group : GroupInterface
new_group = record { v1alpha1 = new_version }

-- Clusterprovisioner of the factory
abbrev clusterprovisioner : GroupInterface
clusterprovisioner = new_group

-- Informer of clusterInformer and kubeconfigInformer
abbrev pub informer : ResourceInformer → Exec Factory Informer
informer i = informer_for i.kind

-- Lister: a lister reads the store of its informer, by which it stands here.
abbrev lister : ResourceInformer → Exec Factory Informer
lister i f = let (shared, f') = informer i f in (shared, f')

-- Informer and Lister of kubeconfigInformer
abbrev kubeconfig_informer : Exec Factory Informer
kubeconfig_informer = informer (record { kind = kubeconfig })

abbrev kubeconfig_lister : Exec Factory Informer
kubeconfig_lister = lister (record { kind = kubeconfig })

-- genericInformer
pub record GenericInformer : Type 0 where
  pub shared : Informer
  pub resource : GroupResource

-- what `cache.NewGenericLister` is given: the store of an informer, and the resource
record GenericLister : Type 0 where
  store : Informer
  resource : GroupResource

-- Informer and Lister of genericInformer
abbrev generic_informer : GenericInformer → Informer
generic_informer g = g.shared

abbrev generic_lister : GenericInformer → GenericLister
generic_lister g = record { store = generic_informer g; resource = g.resource }

abbrev pub same_resource : GroupVersionResource → GroupVersionResource → Bool
same_resource a b = (a.group == b.group) && ((a.version == b.version) && (a.resource == b.resource))

abbrev group_resource : GroupVersionResource → GroupResource
group_resource r = record { group = r.group; resource = r.resource }

-- `ForResource`; `none` is its error
unfoldable pub for_resource : GroupVersionResource → Exec Factory (Option GenericInformer)
for_resource r f =
    if same_resource r (with_resource "clusters")
    then (let (i, f') = informer clusterprovisioner.v1alpha1.clusters f in
        (some (record { shared = i; resource = group_resource r }), f'))
    else if same_resource r (with_resource "kubeconfigs")
    then (let (i, f') = informer clusterprovisioner.v1alpha1.kubeconfigs f in
        (some (record { shared = i; resource = group_resource r }), f'))
    else (none, f)

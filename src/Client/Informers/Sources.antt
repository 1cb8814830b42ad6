-- ===== src/Client/Informers/Sources.antt =====
-- pkg/client/informers/externalversions/clusterprovisioner/v1alpha1: cluster.go and kubeconfig.go, the
-- informers that the factory creates, over `cache.NewSharedIndexInformer`.
use kubecon.Prelude.{ℕ, Option}
use kubecon.Prelude.Exec.{Exec}
use kubecon.Api.{Cluster, Kubeconfig}
use kubecon.Client.Typed.{Rest, TypedResource, list, watch, clusters, kubeconfigs}

-- cache.ListWatch
pub record ListWatch {E A : Type 0} (T : Rest E A) : Type 0 where
  pub list_func : T.ListOptions → Exec T.Outside (T.ListOf × Option E)
  pub watch_func : T.ListOptions → Exec T.Outside (Option T.Watch × Option E)

-- What creating an informer calls of the cache library; periods are in seconds. The object tells
-- the informer's type.
pub record CacheLibrary {E A : Type 0} (T : Rest E A) : Type 1 where
  pub SharedInformer : Type 0
  pub Indexers : Type 0
  pub namespace_indexers : Indexers
  pub new_shared_index_informer : ListWatch T → A → ℕ → Indexers → SharedInformer

module _ {E A : Type 0} (T : Rest E A) (R : TypedResource A) (C : CacheLibrary T) where
  abbrev new_informer : ℕ → C.Indexers → C.SharedInformer
  new_informer period indexers =
      C.new_shared_index_informer (record { list_func = list T R; watch_func = watch T R }) R.zero
        period indexers

  abbrev default_informer : ℕ → C.SharedInformer
  default_informer period = new_informer period C.namespace_indexers

module _ {E : Type 0} (T : Rest E Cluster) (C : CacheLibrary T) where
  -- NewClusterInformer
  abbrev new_cluster_informer : ℕ → C.Indexers → C.SharedInformer
  new_cluster_informer = new_informer T clusters C

  -- defaultClusterInformer
  abbrev default_cluster_informer : ℕ → C.SharedInformer
  default_cluster_informer = default_informer T clusters C

module _ {E : Type 0} (T : Rest E Kubeconfig) (C : CacheLibrary T) where
  -- NewKubeconfigInformer
  abbrev new_kubeconfig_informer : ℕ → C.Indexers → C.SharedInformer
  new_kubeconfig_informer = new_informer T kubeconfigs C

  -- defaultKubeconfigInformer
  abbrev default_kubeconfig_informer : ℕ → C.SharedInformer
  default_kubeconfig_informer = default_informer T kubeconfigs C

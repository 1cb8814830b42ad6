-- ===== src/ConfigGenerator/Wanted.antt =====
-- Theorems on config_generator.go: what sync makes of the Kubeconfig that the server holds for a
-- cluster, whichever that is.
use kubecon.Prelude.{String, ◌≡◌, refl, Option, none, some, arith, if◌then◌else◌, ◌==◌, eq_iff}
use kubecon.Api.{Cluster, Kubeconfig}
use kubecon.Platform.{Platform}
use kubecon.Platform.Laws.{KeepsKubeconfigs, AnswersGets}
use kubecon.World.{World, Address}
use kubecon.ConfigGenerator.{get_kube_config_path, new_kubeconfig}

-- The Kubeconfig that a cluster is to have, by the one that the server holds under its name.
abbrev pub wanted : Cluster → Option Kubeconfig → Kubeconfig
wanted c none = new_kubeconfig c (get_kube_config_path c)
wanted c (some k) =
    if k.spec.config_path == get_kube_config_path c
    then k
    else record k { spec = record { config_path = get_kube_config_path c } }

pub path-wanted :
    (c : Cluster) (held : Option Kubeconfig)
    → (wanted c held).spec.config_path ≡ get_kube_config_path c
unfolding new_kubeconfig
path-wanted c none = refl
path-wanted c (some k) = ground (arith, eq_iff k.spec.config_path (get_kube_config_path c))

pub wanted-wanted :
    (c : Cluster) (held : Option Kubeconfig) → wanted c (some (wanted c held)) ≡ wanted c held
wanted-wanted c held =
    let path = get_kube_config_path c in
    rw (path-wanted c held, wanted) (rw ((eq_iff path path).1 refl) refl)

module _ (E : Platform) (view : E.Outside → String → Option Kubeconfig) where
  -- From one state to the other the server's Kubeconfig for the cluster has become the wanted one, and
  -- no other has changed.
  abbrev pub BecomesWanted : Cluster → E.Outside → E.Outside → Type 0
  BecomesWanted c o o' =
      (n : String)
      → view o' n
        ≡ (if c.metadata.name == n then some (wanted c (view o c.metadata.name)) else view o n)

module _ (E : Platform) {view : E.Outside → String → Option Kubeconfig}
    (K : KeepsKubeconfigs E view) (A : AnswersGets E view) (p : Address) (w : World E) where
  abbrev cluster_of : Cluster
  cluster_of = w.heap.cell p

  abbrev name_of : String
  name_of = cluster_of.metadata.name

  abbrev old_config : Option Kubeconfig
  old_config = view w.outside name_of

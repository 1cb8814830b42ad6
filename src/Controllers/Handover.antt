-- ===== src/Controllers/Handover.antt =====
-- The config generator, and the controllers that read the Kubeconfigs that it writes.
use kubecon.Prelude.{String, Option}
use kubecon.Api.{Cluster, Kubeconfig}
use kubecon.Platform.{Platform}
use kubecon.Platform.Laws.{KeepsKubeconfigs, AnswersGets}
use kubecon.World.{World, Address}
use kubecon.ConfigGenerator

module _ (E : Platform) {view : E.Outside → String → Option Kubeconfig}
    (K : KeepsKubeconfigs E view) (A : AnswersGets E view) (p : Address) (w : World E) where
  abbrev cluster_of : Cluster
  cluster_of = w.heap.cell p

  abbrev name_of : String
  name_of = cluster_of.metadata.name

  -- the world after a run of the config generator, and after a second one
  abbrev once : World E
  once = (ConfigGenerator.sync E p w).1

  abbrev twice : World E
  twice = (ConfigGenerator.sync E p once).1

  -- that world, once the Kubeconfig has been asked for
  abbrev asked : World E
  asked = record once { outside = (E.kubeconfigs.get name_of once.outside).1 }

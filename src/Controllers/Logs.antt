-- ===== src/Controllers/Logs.antt =====
-- The handlers of the four controllers at a server that forgets no version.
use kubecon.Prelude.{String, Option}
use kubecon.Api.{Cluster}
use kubecon.Platform.{Platform}
use kubecon.Platform.Laws.{IsConditionLibrary}
use kubecon.Platform.Shared.{LogKept, GrowsLog}
use kubecon.World.{World, Address}
use kubecon.Healthchecker
use kubecon.Annotator
use kubecon.ConfigGenerator
use kubecon.Provisioner.Steps.{AccessorWorks}
use kubecon.Provisioner.{handle}
use kubecon.Provisioner
use kubecon.Controllers.Sends.{OthersPreserve, outside-health, outside-annotator}
use kubecon.Controllers.Outside.{outside-handle, outside-config, outside-sync}

module _ (E : Platform) {logged : E.Outside → String → String → Option Cluster}
    (G : GrowsLog E logged) where
  LogKept-trans : {a b c : E.Outside} → LogKept logged a b → LogKept logged b c → LogKept logged a c
  LogKept-trans f g n v x h = g n v x (f n v x h)

  LogKept-others : (o : E.Outside) → OthersPreserve E (LogKept logged o)
  LogKept-others o = record {
    runs = λ name args a h. LogKept-trans h (G.exec_grows name args a);
    asks = λ name a h. LogKept-trans h (G.get_kubeconfig_grows name a);
    calls = λ r a h. LogKept-trans h (G.server_version_grows r a);
  }

  pub LogKept-config :
      (p : Address) (w : World E) → LogKept logged w.outside (ConfigGenerator.sync E p w).1.outside
  LogKept-config p w =
      outside-config E (LogKept logged w.outside) (LogKept-others w.outside)
        (λ k a h. LogKept-trans h (G.create_kubeconfig_grows k a))
        (λ k a h. LogKept-trans h (G.update_kubeconfig_grows k a)) p w (λ n v x h. h)

  module _ (L : IsConditionLibrary E) (w : World E) where
    pub LogKept-health :
        (p : Address) → LogKept logged w.outside (Healthchecker.sync E p w).1.outside
    LogKept-health p =
        outside-health E L (LogKept logged w.outside) p w
          (λ c a s h. LogKept-trans h (G.update_grows c a)) (LogKept-others w.outside)
          (λ n v x h. h)

    pub LogKept-annotator :
        (p : Address) → LogKept logged w.outside (Annotator.sync E p w).1.outside
    LogKept-annotator p =
        outside-annotator E L (LogKept logged w.outside) p w
          (λ c a s h. LogKept-trans h (G.update_grows c a)) (LogKept-others w.outside)
          (λ n v x h. h)

    LogKept-handle :
        AccessorWorks E → (p : Address) → LogKept logged w.outside (handle E p w).1.outside
    LogKept-handle works p =
        outside-handle E works L (LogKept logged w.outside) (LogKept-others w.outside)
          (λ n a h. LogKept-trans h (G.get_grows n a)) p w
          (λ c a s h. LogKept-trans h (G.update_grows c a))
          (λ x r c a s h. LogKept-trans h (G.update_grows c a)) (λ n v x h. h)

    pub LogKept-sync :
        AccessorWorks E
        → (key : String) → LogKept logged w.outside (Provisioner.sync E key w).1.outside
    LogKept-sync works key =
        outside-sync E (LogKept logged w.outside) key w (λ p r. LogKept-handle works p)
          (λ n v x h. h)

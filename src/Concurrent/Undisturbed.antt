-- ===== src/Concurrent/Undisturbed.antt =====
-- The handlers by their steps against the handlers as functions.
use kubecon.Prelude.{String, ◌≡◌}
use kubecon.Platform.{Platform}
use kubecon.World.{World, Address}
use kubecon.Provisioner
use kubecon.Healthchecker
use kubecon.Annotator
use kubecon.ConfigGenerator
use kubecon.Concurrent.{alone}
use kubecon.Concurrent.Handlers.{health_task, annotator_task, config_task}
use kubecon.Concurrent.Provisioning.{sync_task}
use kubecon.Concurrent.Alone.{alone-health}
use kubecon.Concurrent.AloneOthers.{alone-annotator, alone-config}
use kubecon.Concurrent.AloneProvisioner.{alone-sync}

-- The steps of each controller's handler, one after the other with nothing in between, have the result of the
-- handler and leave the state that it leaves.
undisturbed_handlers :
    (E : Platform) (key : String) (p : Address) (w : World E)
    → (alone (sync_task E key) w ≡ Provisioner.sync E key w)
      × (alone (health_task E p) w ≡ Healthchecker.sync E p w)
      × (alone (annotator_task E p) w ≡ Annotator.sync E p w)
      × (alone (config_task E p) w ≡ ConfigGenerator.sync E p w)
undisturbed_handlers E key p w =
    (alone-sync E key w, alone-health E p w, alone-annotator E p w, alone-config E p w)

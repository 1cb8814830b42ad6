-- ===== src/Controllers.antt =====
-- controllers/controller.go and the `Register` function of each controller: which informers they
-- request, what they attach to them, and what they set running.
pub mod Laws
pub mod Keeps
pub mod Runs
pub mod Sends
pub mod Stale
pub mod Outside
pub mod Backed
pub mod Logs
pub mod Faithful
pub mod Course
pub mod Meanwhile
pub mod Commands
pub mod Reasons
pub mod Earned
pub mod Handover
pub mod Handled
pub mod Delivered
pub mod Released
use kubecon.Client.Clientset.{ConfigOf, Clientset, new_for_config}
use kubecon.Client.Informers.{
  Factory, Informer, cluster, informer_for, emit, add_handler, go_run, go_worker, new_factory,
}
use kubecon.Platform.{Platform, Result, ok, err}
use kubecon.Provisioner.{controller_name}
use kubecon.Healthchecker.{healthchecker_name}
use kubecon.Annotator.{annotator_name}
use kubecon.ConfigGenerator.{config_generator_name}

-- provisioner.Register: the lister asks for the informer too; a worker of the queue is set running.
pub register_provisioner : Factory → Factory
register_provisioner f =
    let (_, f1) = informer_for cluster f in
    let (i, f2) = informer_for cluster f1 in
    emit (go_worker controller_name) (emit (add_handler i controller_name) f2)

-- configgenerator.Register
pub register_config_generator : Factory → Factory
register_config_generator f =
    let (i, f1) = informer_for cluster f in
    emit (go_run i) (emit (add_handler i config_generator_name) f1)

-- healthchecker.Register: the lister asks for the informer too.
pub register_healthchecker : Factory → Factory
register_healthchecker f =
    let (_, f1) = informer_for cluster f in
    let (i, f2) = informer_for cluster f1 in
    emit (go_run i) (emit (add_handler i healthchecker_name) f2)

-- annotator.Register
pub register_annotator : Factory → Factory
register_annotator f =
    let (i, f1) = informer_for cluster f in emit (go_run i) (emit (add_handler i annotator_name) f1)

pub register_all : Factory → Factory
register_all f =
    register_annotator (register_healthchecker (register_config_generator (register_provisioner f)))

-- Register, to the factory that it leaves
unfoldable pub register : (E : Platform) → ConfigOf E.rest → Result E.Error Factory
register E config = elim (new_for_config E.rest config) [
  | err e ↦ err e
  | ok client ↦ ok (register_all (new_factory 30))
]

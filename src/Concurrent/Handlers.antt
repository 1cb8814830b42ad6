-- ===== src/Concurrent/Handlers.antt =====
-- healthcheck.go, annotator.go and config_generator.go: the handlers by their steps.
use kubecon.Prelude.{String, Bool, true, false, Option, none, some, ◌&&◌, ◌==◌, if◌then◌else◌}
use kubecon.Api.{Cluster, Kubeconfig, ready, provisioned}
use kubecon.Platform.{Platform, Result, ok, err, error_of}
use kubecon.Client.Clientset.{new_for_config, ConfigOf, Clientset}
use kubecon.World.{Address, load, store, deep_copy, outside}
use kubecon.Annotator.{current_version, annotate, version_or_empty}
use kubecon.ConfigGenerator.{get_kube_config_path, new_kubeconfig}
use kubecon.Concurrent.{Task, ended, step, bind, update_loop, do_condition_task}

module _ (E : Platform) where
  -- The call of a cluster's API server, once its client has been made, and its configuration read; the
  -- health checker and the annotator write it out both.
  unfoldable pub dialled : Result E.Error (Clientset E.rest) → Task E (Result E.Error String)
  dialled (err e) = ended (err e)
  dialled (ok client) = step (outside E (E.server_version client.discovery)) (λ v. ended v)

  unfoldable pub configured : Result E.Error (ConfigOf E.rest) → Task E (Result E.Error String)
  configured (err e) = ended (err e)
  configured (ok rest_config) = dialled (new_for_config E.rest rest_config)

  unfoldable pub read_version_task : String → Task E (Result E.Error String)
  read_version_task config_path =
      step (λ w. (E.build_config config_path w.outside, w)) (λ r. configured r)

  -- validateHealthcheck of the health checker
  unfoldable pub validated : Result E.Error Kubeconfig → Task E (Option E.Error)
  validated (err e) = ended (if E.is_not_found e then none else some e)
  validated (ok kubeconfig) =
      bind (read_version_task kubeconfig.spec.config_path) (λ v. ended (error_of v))

  unfoldable pub validate_task : Address → Task E (Option E.Error)
  validate_task p =
      step (λ w. outside E (E.kubeconfigs.get (w.heap.cell p).metadata.name) w) (λ r. validated r)

  -- sync of the health checker, by whether the cluster is provisioned
  unfoldable pub check_task : Address → Bool → Task E (Unit {0})
  check_task p false = ended tt
  check_task p true =
      bind (do_condition_task E ready p (validate_task p))
        (λ _. bind (update_loop E 3 p none) (λ _. ended tt))

  unfoldable pub health_task : Address → Task E (Unit {0})
  health_task p = step (λ w. (E.is_true provisioned (w.heap.cell p), w)) (λ on. check_task p on)

  -- getVersion of the annotator
  unfoldable pub asked_version : Result E.Error Kubeconfig → Task E (Result E.Error String)
  asked_version (err e) = ended (if E.is_not_found e then ok "" else err e)
  asked_version (ok kubeconfig) = read_version_task kubeconfig.spec.config_path

  unfoldable pub get_version_task : Address → Task E (Result E.Error String)
  get_version_task p =
      step (λ w. outside E (E.kubeconfigs.get (w.heap.cell p).metadata.name) w)
        (λ r. asked_version r)

  -- The copy of the cluster is an object of this handler alone, so that it is made and annotated in one
  -- step.
  unfoldable pub put_version_task : Address → String → Task E (Unit {0})
  put_version_task p version =
      step
        (λ w.
          let (q, w1) = deep_copy E p w in
          let (_, w2) = store E q (annotate version (w1.heap.cell q)) w1 in (q, w2))
        (λ q. bind (update_loop E 3 q none) (λ _. ended tt))

  -- the write, by whether the version is the current one
  unfoldable pub write_version_task : Address → String → Bool → Task E (Unit {0})
  write_version_task p version true = ended tt
  write_version_task p version false = put_version_task p version

  unfoldable pub compare_task : Address → Result E.Error String → Task E (Unit {0})
  compare_task p r =
      step (λ w. (current_version (w.heap.cell p) == version_or_empty E r, w))
        (λ same. write_version_task p (version_or_empty E r) same)

  -- the guards of the annotator's sync, and what follows them
  abbrev pub awaits_version : Cluster → Bool
  awaits_version c = elim c.metadata.deletion_timestamp [
    | some _ ↦ false
    | none ↦ E.is_true provisioned c && E.is_true ready c
  ]

  unfoldable pub refresh_task : Address → Bool → Task E (Unit {0})
  refresh_task p false = ended tt
  refresh_task p true = bind (get_version_task p) (λ r. compare_task p r)

  unfoldable pub annotator_task : Address → Task E (Unit {0})
  annotator_task p = step (λ w. (awaits_version (w.heap.cell p), w)) (λ due. refresh_task p due)

  -- createKubeconfig, updateKubeconfig, or nothing, by what `Get` has answered
  unfoldable pub create_task : Cluster → Bool → Task E (Unit {0})
  create_task c false = ended tt
  create_task c true =
      step (outside E (E.kubeconfigs.create (new_kubeconfig c (get_kube_config_path c))))
        (λ _. ended tt)

  unfoldable pub move_task : Kubeconfig → String → Bool → Task E (Unit {0})
  move_task k path true = ended tt
  move_task k path false =
      step (outside E (E.kubeconfigs.update (record k { spec = record { config_path = path } })))
        (λ _. ended tt)

  unfoldable pub write_config_task : Result E.Error Kubeconfig → Cluster → Task E (Unit {0})
  write_config_task (err e) c = create_task c (E.is_not_found e)
  write_config_task (ok k) c =
      move_task k (get_kube_config_path c) (k.spec.config_path == get_kube_config_path c)

  -- the guards of the config generator's sync, and what follows them
  abbrev pub awaits_config : Cluster → Bool
  awaits_config c = elim c.metadata.deletion_timestamp [
    | some _ ↦ false
    | none ↦ E.is_true provisioned c
  ]

  unfoldable pub reconcile_task : Address → Bool → Task E (Unit {0})
  reconcile_task p false = ended tt
  reconcile_task p true =
      step (λ w. outside E (E.kubeconfigs.get (w.heap.cell p).metadata.name) w)
        (λ r. step (load E p) (λ c. write_config_task r c))

  unfoldable pub config_task : Address → Task E (Unit {0})
  config_task p = step (λ w. (awaits_config (w.heap.cell p), w)) (λ due. reconcile_task p due)

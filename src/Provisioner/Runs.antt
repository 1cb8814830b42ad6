-- ===== src/Provisioner/Runs.antt =====
-- Theorems on handleClusterAdd in provisioner.go: the commands that it runs, and its error.
use mathlib.Core.Bool.{false≢true}
use kubecon.Prelude.{
  String, ◌≡◌, ◌≢◌, ◌↔◌, refl, ap, sym, ◌∙◌, Option, none, List, [], ◌∷◌, ◌++◌, Option-cases,
  Bool-cases, inl, inr, ◌⊎◌, if◌then◌else◌, ◌==◌, eq_iff,
}
use kubecon.Api.{Cluster, ClusterSpec, provisioned}
use kubecon.Platform.{Platform, ok}
use kubecon.Platform.Laws.{IsConditionLibrary, KeepsClusters}
use kubecon.World.{World, Address, Command}
use kubecon.World.Laws.{cell-write_cell}
use kubecon.Provisioner.Command.{rke, provision_cluster}
use kubecon.Provisioner.Command.Laws.{ran, commands-execute_command, exit_of, exit-execute_command}
use kubecon.Provisioner.Steps.{AccessorWorks, cell-initialize, commands-initialize}
use kubecon.Provisioner.Provision.{
  provision-done, provision-failed, provision_error, inside, initialized, rke_up,
}
use kubecon.Provisioner.Converge.{
  provision-IsApplied, handle_cluster_add-changed, handle_cluster_add-unchanged,
  with_finalizer_spec,
}
use kubecon.Provisioner.Add.{outside-provision}
use kubecon.Provisioner.{
  controller_name, provision, handle_cluster_add, get_config_str, update_applied_config,
}

-- The arguments of `rke up` for a cluster file.
abbrev pub up_args : String → List String
up_args path = "up" ∷ "--config" ∷ path ∷ []

module _ (E : Platform) (works : AccessorWorks E) (L : IsConditionLibrary E) (p : Address)
    (w : World E) where
  abbrev path_of : String
  path_of = (w.heap.cell p).spec.config_path

  path_inside : ((inside E works p "" w).heap.cell p).spec.config_path ≡ path_of
  path_inside =
      ap (λ (c : Cluster). c.spec.config_path)
        (cell-write_cell p _ (initialized E works p "" w).heap)
      ∙ ap (λ (s : ClusterSpec). s.config_path)
          (L.starting_spec provisioned _
            ∙ ap (λ (c : Cluster). c.spec) (cell-initialize E works p controller_name w)
            ∙ with_finalizer_spec controller_name (w.heap.cell p))

  commands-rke_up :
      (v : World E)
      → (rke_up E p v).1.commands ≡ (
          let args = up_args (v.heap.cell p).spec.config_path in
          v.commands ++ ran E rke args (E.exec rke args v.outside).0)
  unfolding provision_cluster
  commands-rke_up v = commands-execute_command E rke _ v

  -- How `rke up` ends, where it is called.
  abbrev pub up_exit : Option E.Error
  up_exit =
      exit_of E rke (up_args path_of)
        (E.exec rke (up_args path_of) (initialized E works p "" w).outside).0

  error-rke_up : (config : String) → (rke_up E p (inside E works p config w)).0 ≡ up_exit
  unfolding provision_cluster
  error-rke_up config =
      exit-execute_command E rke _ (inside E works p config w)
      ∙ ap
          (λ path.
            exit_of E rke (up_args path)
              (E.exec rke (up_args path) (initialized E works p "" w).outside).0)
          path_inside

  commands-provision :
      (config : String)
      → (provision E p config w).1.commands ≡ (rke_up E p (inside E works p config w)).1.commands
  unfolding update_applied_config
  commands-provision config = elim (Option-cases (rke_up E p (inside E works p config w)).0) [
    | inl e ↦ ap (λ v. v.1.commands) (provision-done E works p config w e)
    | inr (x, e) ↦ ap (λ v. v.1.commands) (provision-failed E works p config w x e)
  ]

  -- the execution of `rke up`, after the writes of `initialize`
  abbrev pub up_run : List String → List Command
  up_run args = ran E rke args (E.exec rke args (initialized E works p "" w).outside).0

  -- `rke up` is run for the cluster's file, once, exactly where the configuration that was read is
  -- not the applied one.
  pub handle_cluster_add-runs :
      (config : String)
      → get_config_str E (w.heap.cell p) w ≡ ok config
      → (handle_cluster_add E p w).1.commands ≡ (
          if config == (w.heap.cell p).status.applied_config
          then w.commands
          else w.commands ++ up_run (up_args path_of))
  handle_cluster_add-runs config r =
      elim (Bool-cases (config == (w.heap.cell p).status.applied_config)) [
        | inl s ↦ rw (s, handle_cluster_add-unchanged E works L p config w r ((eq_iff _ _).0 s))
        | inr d ↦ rw d (
            ap (λ v. v.1.commands) (handle_cluster_add-changed E works L p config w r d)
            ∙ commands-provision config
            ∙ commands-rke_up (inside E works p config w)
            ∙ rw path_inside (
                ap (λ l. l ++ up_run (up_args path_of))
                  (commands-initialize E works p controller_name w)))
      ]

  error_of_provision : (config : String) → ((provision E p config w).0 ≡ none) ↔ (up_exit ≡ none)
  error_of_provision config = (
    λ h. sym (error-rke_up config) ∙ provision_error E works p config w h,
    λ e. ap (λ v. v.0) (provision-done E works p config w (error-rke_up config ∙ e)),
  )

  -- For a configuration that could be read, the handler reports no error exactly where it is the
  -- applied one or `rke up` returns none: a write that the API server refuses is never reported.
  pub handle_cluster_add_succeeds_iff :
      (config : String)
      → get_config_str E (w.heap.cell p) w ≡ ok config
      → ((handle_cluster_add E p w).0 ≡ none)
        ↔ ((config ≡ (w.heap.cell p).status.applied_config) ⊎ (up_exit ≡ none))
  handle_cluster_add_succeeds_iff config r =
      elim (Bool-cases (config == (w.heap.cell p).status.applied_config)) [
        | inl s ↦ (
          λ _. inl ((eq_iff _ _).0 s),
          λ _.
              ap (λ v. v.0)
                (handle_cluster_add-unchanged E works L p config w r ((eq_iff _ _).0 s)),
        )
        | inr d ↦
            let q = ap (λ v. v.0) (handle_cluster_add-changed E works L p config w r d) in
            let differ : config ≢ (w.heap.cell p).status.applied_config =
              λ e. false≢true (sym d ∙ (eq_iff _ _).1 e) in
            (
              λ h. inr ((error_of_provision config).0 (sym q ∙ h)),
              λ c.
                  q
                  ∙ (error_of_provision config).1
                      (elim c [ inl e ↦ absurd (differ e) | inr e ↦ e ]),
            )
      ]

  -- Where the API server refuses every write, a run can still report success: the object in the
  -- informer's store then bears the new configuration as applied, and the server's object is as it
  -- was.
  refused_writes_lost :
      (view : E.Outside → String → Option Cluster)
      → KeepsClusters E view
      → ((c : Cluster) (o : E.Outside) → (E.clusters.update c o).0 ≢ none)
      → (config : String) → get_config_str E (w.heap.cell p) w ≡ ok config
      → config ≢ (w.heap.cell p).status.applied_config
      → (handle_cluster_add E p w).0 ≡ none
      → ((handle_cluster_add E p w).1.heap.cell p).status.applied_config ≡ config
        × ((n : String) → view (handle_cluster_add E p w).1.outside n ≡ view w.outside n)
  refused_writes_lost view K refused config r differ h =
      elim (Bool-cases (config == (w.heap.cell p).status.applied_config)) [
        | inl s ↦ absurd (differ ((eq_iff _ _).0 s))
        | inr d ↦
            let q = handle_cluster_add-changed E works L p config w r d in
            rw q (
              (provision-IsApplied E works L p config w (sym (ap (λ v. v.0) q) ∙ h)).applied,
              outside-provision E works L p w (λ o. (n : String) → view o n ≡ view w.outside n)
                  (λ c o keep n. elim (Option-cases (E.clusters.update c o).0) [
                    | inl e ↦ absurd (refused c o e)
                    | inr (x, e) ↦ K.objects.update_refused c o x e n ∙ keep n
                  ])
                  (λ name args o keep n. K.others.exec_keeps name args o n ∙ keep n) config
                  (λ n. refl),
            )
      ]

-- ===== src/Controllers/Reasons.antt =====
-- Any sequence of the four controllers' handlers, by the commands that they run.
use mathlib.Core.Bool.{false≢true}
use mathlib.Core.List.{append-nil, append_assoc}
use mathlib.Core.Option.{some-ne-none}
use kubecon.Provisioner.Provision.{initialized}
use kubecon.Prelude.{
  String, ◌≡◌, ◌≢◌, refl, sym, ◌∙◌, none, ap, List, [], ◌∷◌, ◌++◌, Bool-cases, Option-cases, inl,
  inr, ◌==◌, eq_iff,
}
use kubecon.Platform.{Platform, ok, Result-cases}
use kubecon.Platform.Laws.{IsConditionLibrary}
use kubecon.World.{World, Address, Command}
use kubecon.Client.Lister
use kubecon.Provisioner.Command.{rke}
use kubecon.Provisioner.Steps.{AccessorWorks}
use kubecon.Provisioner.Remove.{remove_args, get_awaits, answer, asked, finalize_runs}
use kubecon.Provisioner.Decides.{
  commands-unfound, commands-unread, commands-handle_remove, commands-handle_add, commands-sync,
}
use kubecon.Provisioner.Runs.{up_args, handle_cluster_add-runs}
use kubecon.Provisioner.{
  controller_name, handle_cluster_add, handle_cluster_remove, handle, get_config_str,
}
use kubecon.Provisioner.Finalizers.{finalize}
use kubecon.Provisioner
use kubecon.Healthchecker.{handle_cluster_update}
use kubecon.Annotator.{update_annotation}
use kubecon.ConfigGenerator.{update_config}
use kubecon.Controllers.Runs.{
  Step, provision_key, check_health, annotate_cluster, generate_config, enqueue_item, observe,
  forget, elsewhere, Reached, start, next,
}
use kubecon.Controllers.Commands.{
  brought_up, removed, Caused, RunsCaused, RunsCaused-then, RunsCaused-ran, commands-health,
  commands-annotator, commands-config, commands-enqueue,
}

module _ (E : Platform) (works : AccessorWorks E) (L : IsConditionLibrary E) where
  module _ {u : World E} (key : String) (p : Address)
      (in_store : Lister.get E u.indexer key ≡ ok p) where
    RunsCaused-add :
        (u.heap.cell p).metadata.deletion_timestamp ≡ none
        → RunsCaused E u key (handle_cluster_add E p u).1.commands
    RunsCaused-add alive = elim (Result-cases (get_config_str E (u.heap.cell p) u)) [
      | inr (e, h) ↦ inl (commands-unread E p u e h)
      | inl (config, h) ↦
          let runs = handle_cluster_add-runs E works L p u config h in
          elim (Bool-cases (config == (u.heap.cell p).status.applied_config)) [
            | inl s ↦ inl (rw s at runs)
            | inr d ↦
                let args = up_args (u.heap.cell p).spec.config_path in
                RunsCaused-ran E args (E.exec rke args (initialized E works p "" u).outside).0
                  (rw d at runs)
                  (brought_up p (record {
                    config = config;
                    in_store = in_store;
                    alive = alive;
                    read = h;
                    differs = λ e. false≢true (sym d ∙ (eq_iff _ _).1 e);
                  }))
          ]
    ]

    RunsCaused-remove :
        (u.heap.cell p).metadata.deletion_timestamp ≢ none
        → RunsCaused E u key (finalize E p controller_name u).1.commands
    RunsCaused-remove leaving =
        let runs = finalize_runs E p controller_name u works in
        elim (Bool-cases (get_awaits controller_name (answer E p controller_name u))) [
          | inl h ↦
              let args = remove_args (u.heap.cell p).spec.config_path in
              RunsCaused-ran E args (E.exec rke args (asked E p controller_name u).outside).0
                (rw h at runs)
                (removed p (record { in_store = in_store; leaving = leaving; awaited = h }))
          | inr h ↦ inl (rw h at runs)
        ]

    RunsCaused-handle : RunsCaused E u key (handle E p u).1.commands
    RunsCaused-handle = elim (Option-cases (u.heap.cell p).metadata.deletion_timestamp) [
      | inl h ↦ RunsCaused-then E (RunsCaused-add h) (commands-handle_add E p u h)
      | inr (t, h) ↦
          RunsCaused-then E (RunsCaused-remove (λ e. some-ne-none t (sym h ∙ e)))
            (commands-handle_remove E p u t h)
    ]

  RunsCaused-sync :
      (key : String) (u : World E) → RunsCaused E u key (Provisioner.sync E key u).1.commands
  RunsCaused-sync key u = elim (Result-cases (Lister.get E u.indexer key)) [
    | inr (e, h) ↦ inl (commands-unfound E key u e h)
    | inl (p, h) ↦ RunsCaused-then E (RunsCaused-handle key p h) (commands-sync E p u key h)
  ]

-- The commands that a sequence of steps adds, each by the run of the provisioner that adds it.
module _ (E : Platform) where
  pub data AllCaused {w : World E} : (v : World E) → Reached E w v → List Command → Type 0 where
    nothing : AllCaused w start []
    idle :
        {u v : World E} {before : Reached E w u} {added : List Command} (step : Step E u v)
        → v.commands ≡ u.commands
        → AllCaused u before added
        → AllCaused v (next before step) added
    ran :
        {u : World E} {before : Reached E w u} {added : List Command} {c : Command} (key : String)
        → AllCaused u before added
        → Caused E u key c
        → (Provisioner.sync E key u).1.commands ≡ u.commands ++ (c ∷ [])
        → AllCaused
            (Provisioner.sync E key u).1
            (next before (provision_key key u))
            (added ++ (c ∷ []))

  -- the commands of a sequence of steps
  abbrev Explained : {w v : World E} → Reached E w v → Type 0
  Explained {w} {v} run =
      (added : List Command) × (v.commands ≡ w.commands ++ added) × AllCaused v run added

  Explained-idle :
      {w u v : World E} (before : Reached E w u) (step : Step E u v)
      → v.commands ≡ u.commands
      → Explained before
      → Explained (next before step)
  Explained-idle before step h (added, e, c) = (added, h ∙ e, idle step h c)

  Explained-run :
      {w u : World E} (before : Reached E w u) (key : String)
      → RunsCaused E u key (Provisioner.sync E key u).1.commands
      → Explained before
      → Explained (next before (provision_key key u))
  Explained-run {u} before key (inl h) x = Explained-idle before (provision_key key u) h x
  Explained-run {w} before key (inr (c, h, why)) (added, e, all) = (
    added ++ (c ∷ []),
    h ∙ ap (λ l. l ++ (c ∷ [])) e ∙ append_assoc w.commands added (c ∷ []),
    ran key all why h,
  )

  -- Whatever the handlers of the four controllers do, in whatever order, with the informer, the queue and
  -- the world outside changing in between: of the runs that it consists of only those of the provisioner
  -- run commands, each at most one, and for a reason in the state in which this run starts. It is `rke up`
  -- for the file of the object that the informer's store then has under the run's key, where the object
  -- is not being deleted and the content of the file differs from the applied configuration; or
  -- `rke remove`, where the object is being deleted, and so is the API server's object, which then
  -- has the controller's finalizer.
  pub commands_have_reasons :
      AccessorWorks E
      → IsConditionLibrary E
      → {w v : World E} (run : Reached E w v)
      → (added : List Command) × (v.commands ≡ w.commands ++ added) × AllCaused v run added
  unfolding handle_cluster_update update_annotation update_config
  commands_have_reasons works L {w} start = ([], sym (append-nil w.commands), nothing)
  commands_have_reasons works L (next before step) =
      let x = commands_have_reasons works L before in explained before step x
    where
      explained :
          {w u v : World E} (before : Reached E w u) (step : Step E u v)
          → Explained before
          → Explained (next before step)
      explained before (provision_key k u) x =
          Explained-run before k (RunsCaused-sync E works L k u) x
      explained before (check_health o p u) x =
          Explained-idle before (check_health o p u) (commands-health E p u) x
      explained before (annotate_cluster o p u) x =
          Explained-idle before (annotate_cluster o p u) (commands-annotator E o u) x
      explained before (generate_config o p u) x =
          Explained-idle before (generate_config o p u) (commands-config E o u) x
      explained before (enqueue_item y u) x =
          Explained-idle before (enqueue_item y u) (commands-enqueue E y u) x
      explained before (observe k c u) x = Explained-idle before (observe k c u) refl x
      explained before (forget k u) x = Explained-idle before (forget k u) refl x
      explained before (elsewhere o u) x = Explained-idle before (elsewhere o u) refl x

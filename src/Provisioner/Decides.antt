-- ===== src/Provisioner/Decides.antt =====
-- Theorems on sync in provisioner.go: the command that it runs, by what it finds.
use kubecon.Prelude.{
  String, ◌≡◌, sym, ◌∙◌, Bool, Option, none, some, List, [], ◌++◌, arith, Option-cases, Bool-cases,
  inl, inr, if◌then◌else◌, ◌==◌,
}
use mathlib.Core.List.{append-nil}
use kubecon.Api.{Cluster}
use kubecon.Platform.{Platform, Result, ok, err, Result-cases}
use kubecon.Platform.Laws.{IsConditionLibrary}
use kubecon.World.{World, Address, Command}
use kubecon.TaskQueue.{requeue}
use kubecon.Client.Lister
use kubecon.Provisioner.Command.{rke}
use kubecon.Provisioner.Command.Laws.{ran}
use kubecon.Provisioner.Provision.{initialized}
use kubecon.Provisioner.Steps.{AccessorWorks}
use kubecon.Provisioner.Finalizers.{finalize}
use kubecon.Provisioner.Remove.{remove_args, get_awaits, answer, asked, finalize_runs}
use kubecon.Provisioner.Runs.{up_args, handle_cluster_add-runs}
use kubecon.Provisioner.{
  controller_name, handle_cluster_add, handle_cluster_remove, handle, get_config_str, sync,
}

-- The arguments with which `rke` is to be run for a cluster, if it is: by its deletion timestamp,
-- what was read of its file, and whether the server's object awaits the finalizer.
abbrev pub decide : {E : Type 0} → Cluster → Result E String → Bool → Option (List String)
decide c file awaited = elim c.metadata.deletion_timestamp [
  | some _ ↦ if awaited then some (remove_args c.spec.config_path) else none
  | none ↦ elim file [
    | err _ ↦ none
    | ok config ↦
        if config == c.status.applied_config then none else some (up_args c.spec.config_path)
  ]
]

module _ (E : Platform) where
  -- The commands that are added where `rke` is called from a state outside.
  abbrev executed : Option (List String) → E.Outside → List Command
  executed none o = []
  executed (some args) o = ran E rke args (E.exec rke args o).0

  pub commands-unfound :
      (key : String) (w : World E) (e : E.Error)
      → Lister.get E w.indexer key ≡ err e
      → (sync E key w).1.commands ≡ w.commands
  unfolding sync requeue
  commands-unfound key w e h = ground arith

  module _ (p : Address) (w : World E) where
    abbrev cluster_of : Cluster
    cluster_of = w.heap.cell p

    pub commands-unread :
        (e : E.Error)
        → get_config_str E cluster_of w ≡ err e
        → (handle_cluster_add E p w).1.commands ≡ w.commands
    unfolding handle_cluster_add
    commands-unread e h = ground arith

    pub commands-handle_remove :
        (t : String)
        → cluster_of.metadata.deletion_timestamp ≡ some t
        → (handle E p w).1.commands ≡ (finalize E p controller_name w).1.commands
    unfolding handle handle_cluster_remove
    commands-handle_remove t h = ground arith

    pub commands-handle_add :
        cluster_of.metadata.deletion_timestamp ≡ none
        → (handle E p w).1.commands ≡ (handle_cluster_add E p w).1.commands
    unfolding handle
    commands-handle_add h = ground arith

    pub commands-sync :
        (key : String)
        → Lister.get E w.indexer key ≡ ok p
        → (sync E key w).1.commands ≡ (handle E p w).1.commands
    unfolding sync requeue
    commands-sync key in_store = ground (arith, in_store)

    abbrev decision : Option (List String)
    decision =
        decide cluster_of (get_config_str E cluster_of w)
          (get_awaits controller_name (answer E p controller_name w))

    module _ (works : AccessorWorks E) (L : IsConditionLibrary E) where
      -- The state outside when `rke` is called: after the object was asked for, or after `initialize`.
      abbrev at_rke : E.Outside
      at_rke = elim cluster_of.metadata.deletion_timestamp [
        | some _ ↦ (asked E p controller_name w).outside
        | none ↦ (initialized E works p "" w).outside
      ]

      executed-add :
          (handle_cluster_add E p w).1.commands
          ≡ w.commands
            ++ executed
                (elim (get_config_str E cluster_of w) [
                  | err _ ↦ none
                  | ok config ↦
                      if config == cluster_of.status.applied_config
                      then none
                      else some (up_args cluster_of.spec.config_path)
                ])
                (initialized E works p "" w).outside
      executed-add = elim (Result-cases (get_config_str E cluster_of w)) [
        | inr (e, h) ↦ rw h (commands-unread e h ∙ sym (append-nil w.commands))
        | inl (config, h) ↦
            let runs = handle_cluster_add-runs E works L p w config h in
            elim (Bool-cases (config == cluster_of.status.applied_config)) [
              | inl s ↦ rw h (rw s ((rw s at runs) ∙ sym (append-nil w.commands)))
              | inr d ↦ rw h (rw d (rw d at runs))
            ]
      ]

      executed-remove :
          (finalize E p controller_name w).1.commands
          ≡ w.commands
            ++ executed
                (if get_awaits controller_name (answer E p controller_name w)
                  then some (remove_args cluster_of.spec.config_path)
                  else none)
                (asked E p controller_name w).outside
      executed-remove =
          let runs = finalize_runs E p controller_name w works in
          elim (Bool-cases (get_awaits controller_name (answer E p controller_name w))) [
            | inl a ↦ rw a (rw a at runs)
            | inr a ↦ rw a ((rw a at runs) ∙ sym (append-nil w.commands))
          ]

      -- For a key under which the informer's store has an object, `sync` runs `rke` once if at all, and
      -- with the arguments that are decided: `remove` for one that is being deleted and awaited, `up`
      -- for another whose file could be read and differs from the applied configuration.
      pub sync-decides :
          (key : String)
          → Lister.get E w.indexer key ≡ ok p
          → (sync E key w).1.commands ≡ w.commands ++ executed decision at_rke
      sync-decides key in_store =
          commands-sync key in_store ∙ elim (Option-cases cluster_of.metadata.deletion_timestamp) [
            | inr (t, d) ↦
                rw (d, executed) (rw (d, at_rke) (commands-handle_remove t d ∙ executed-remove))
            | inl d ↦ rw (d, executed) (rw (d, at_rke) (commands-handle_add d ∙ executed-add))
          ]

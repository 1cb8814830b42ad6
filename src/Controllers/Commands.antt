-- ===== src/Controllers/Commands.antt =====
-- The commands that the controllers run, each by the state that is its reason; the handlers that
-- run none.
use mathlib.Core.List.{append-nil}
use kubecon.Prelude.{
  String, ◌≡◌, ◌≢◌, ◌⊎◌, refl, ◌∙◌, true, none, List, [], ◌∷◌, ◌++◌, arith, Bool-cases, inl, inr,
}
use kubecon.Api.{Cluster, provisioned}
use kubecon.Platform.{Platform, ok, Execution, no_pipe, no_start, started}
use kubecon.World.{World, Address, Command}
use kubecon.TaskQueue.{Enqueued, enqueue}
use kubecon.Client.Lister
use kubecon.Provisioner.Command.{rke}
use kubecon.Provisioner.Command.Laws.{ran}
use kubecon.Provisioner.Remove.{remove_args, get_awaits, answer}
use kubecon.Provisioner.Runs.{up_args}
use kubecon.Provisioner.{controller_name, get_config_str}
use kubecon.Healthchecker.{handle_cluster_update, check, validate_healthcheck, contact}
use kubecon.Healthchecker
use kubecon.Annotator.{update_annotation, refresh, put_version, get_version, read_version}
use kubecon.Annotator
use kubecon.ConfigGenerator.{update_config, reconcile, create_kubeconfig, update_kubeconfig}
use kubecon.ConfigGenerator

module _ (E : Platform) where
  -- The object that the store holds under the key has a configuration file that could be read and
  -- differs from the applied configuration, and is not being deleted.
  pub record IsDue (u : World E) (key : String) (p : Address) : Type 0 where
    pub config : String
    pub in_store : Lister.get E u.indexer key ≡ ok p
    pub alive : (u.heap.cell p).metadata.deletion_timestamp ≡ none
    pub read : get_config_str E (u.heap.cell p) u ≡ ok config
    pub differs : config ≢ (u.heap.cell p).status.applied_config

  -- The object that the store holds under the key is being deleted, and the API server answers that its
  -- own object is being deleted and waits for the controller's finalizer.
  pub record IsLeaving (u : World E) (key : String) (p : Address) : Type 0 where
    pub in_store : Lister.get E u.indexer key ≡ ok p
    pub leaving : (u.heap.cell p).metadata.deletion_timestamp ≢ none
    pub awaited : get_awaits controller_name (answer E p controller_name u) ≡ true

  -- The reason for a command of a run of the provisioner: the object under its key, in the state in which
  -- the run starts.
  pub data Caused (u : World E) (key : String) : Command → Type 0 where
    brought_up :
        (p : Address)
        → IsDue u key p
        → Caused u key (record { name = rke; args = up_args (u.heap.cell p).spec.config_path })
    removed :
        (p : Address)
        → IsLeaving u key p
        → Caused u key (record { name = rke; args = remove_args (u.heap.cell p).spec.config_path })

  -- The commands after a run of the provisioner: those before it, or one more that has its reason.
  abbrev pub RunsCaused : World E → String → List Command → Type 0
  RunsCaused u key after =
      (after ≡ u.commands) ⊎ ((c : Command) × (after ≡ u.commands ++ (c ∷ [])) × Caused u key c)

  pub RunsCaused-then :
      {u : World E} {key : String} {after final : List Command}
      → RunsCaused u key after
      → final ≡ after
      → RunsCaused u key final
  RunsCaused-then (inl h) e = inl (e ∙ h)
  RunsCaused-then (inr (c, h, why)) e = inr (c, e ∙ h, why)

  -- An execution adds its command, where it starts.
  pub RunsCaused-ran :
      {u : World E} {key : String} {after : List Command} (args : List String)
      (x : Execution E.Error)
      → after ≡ u.commands ++ ran E rke args x
      → Caused u key (record { name = rke; args = args })
      → RunsCaused u key after
  RunsCaused-ran {u} args (no_pipe e) h c = inl (h ∙ append-nil u.commands)
  RunsCaused-ran {u} args (no_start e) h c = inl (h ∙ append-nil u.commands)
  RunsCaused-ran args (started r e) h c = inr (_, h, c)

  commands-validate :
      (c : Cluster) (u : World E) → (validate_healthcheck E c u).1.commands ≡ u.commands
  unfolding validate_healthcheck contact
  commands-validate c u = ground arith

  pub commands-health :
      (p : Address) (u : World E) → (Healthchecker.sync E p u).1.commands ≡ u.commands
  unfolding Healthchecker.sync check
  commands-health p u = elim (Bool-cases (E.is_true provisioned (u.heap.cell p))) [
    | inr b ↦ rw b refl
    | inl b ↦ rw b (commands-validate _ _)
  ]

  commands-version : (c : Cluster) (u : World E) → (get_version E c u).1.commands ≡ u.commands
  unfolding get_version read_version
  commands-version c u = ground arith

  pub commands-annotator :
      (p : Address) (u : World E) → (Annotator.sync E p u).1.commands ≡ u.commands
  unfolding Annotator.sync refresh put_version
  commands-annotator p u = ground (arith, commands-version (u.heap.cell p) u)

  pub commands-config :
      (p : Address) (u : World E) → (ConfigGenerator.sync E p u).1.commands ≡ u.commands
  unfolding ConfigGenerator.sync reconcile create_kubeconfig update_kubeconfig
  commands-config p u = ground arith

  pub commands-enqueue : (x : Enqueued) (u : World E) → (enqueue E x u).1.commands ≡ u.commands
  unfolding enqueue
  commands-enqueue (Enqueued.key k) u = refl
  commands-enqueue (Enqueued.object c) u = ground arith

-- ===== src/Provisioner/Steps.antt =====
-- What `initialize`, the run of `rke up` and `updateAppliedConfig` do to the object, and what they
-- leave alone.
use kubecon.Prelude.{String, ◌≡◌, none, [], ◌∷◌, ◌++◌, Bool-cases, inl, inr, arith, if◌then◌else◌}
use kubecon.Api.{Cluster}
use kubecon.Platform.{Platform}
use kubecon.World.{World, Address}
use kubecon.World.Retry.{retry-keeps}
use kubecon.World.Laws.{cell-write_cell}
use kubecon.Provisioner.Finalizers.{contains_string, set_finalizers, initialize}
use kubecon.Provisioner.{update_applied_config}

-- meta.Accessor succeeds on every cluster object.
abbrev pub AccessorWorks : Platform → Type 0
AccessorWorks E = (c : Cluster) → E.accessor_error c ≡ none

-- The object with the finalizer on it.
abbrev pub with_finalizer : String → Cluster → Cluster
with_finalizer key c =
    if contains_string c.metadata.finalizers key
    then c
    else set_finalizers (c.metadata.finalizers ++ (key ∷ [])) c

abbrev pub with_applied : String → Cluster → Cluster
with_applied config c = record c { status = record (c.status) { applied_config = config } }

module _ (E : Platform) (works : AccessorWorks E) (p : Address) (key : String) (w : World E) where
  pub initialize_succeeds : (initialize E p key w).0 ≡ none
  unfolding initialize
  initialize_succeeds = ground (arith, works (w.heap.cell p))

  pub cell-initialize : (initialize E p key w).1.heap.cell p ≡ with_finalizer key (w.heap.cell p)
  unfolding initialize
  cell-initialize = ground (arith, works (w.heap.cell p))

  pub commands-initialize : (initialize E p key w).1.commands ≡ w.commands
  unfolding initialize
  commands-initialize = ground (arith, works (w.heap.cell p))

  pub queue-initialize : (initialize E p key w).1.queue ≡ w.queue
  unfolding initialize
  queue-initialize = ground (arith, works (w.heap.cell p))

  pub outside-initialize :
      (P : E.Outside → Type 0)
      → ((c : Cluster) (o : E.Outside) → P o → P (E.clusters.update c o).1)
      → P w.outside
      → P (initialize E p key w).1.outside
  unfolding initialize
  outside-initialize P keep h =
      rw (works (w.heap.cell p), initialize)
        (elim (Bool-cases (contains_string (w.heap.cell p).metadata.finalizers key)) [
          | inl e ↦ rw e h
          | inr e ↦ rw e (retry-keeps (E.clusters.update _) P (keep _) 3 none w.outside h)
        ])

module _ (E : Platform) (p : Address) (config : String) (w : World E) where
  pub cell-update_applied_config :
      (update_applied_config E p config w).1.heap.cell p ≡ with_applied config (w.heap.cell p)
  unfolding update_applied_config
  cell-update_applied_config = cell-write_cell p _ w.heap

  pub outside-update_applied_config :
      (P : E.Outside → Type 0)
      → ((c : Cluster) (o : E.Outside) → P o → P (E.clusters.update c o).1)
      → P w.outside
      → P (update_applied_config E p config w).1.outside
  unfolding update_applied_config
  outside-update_applied_config P keep h =
      retry-keeps (E.clusters.update _) P (keep _) 3 none w.outside h

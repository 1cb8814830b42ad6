-- ===== src/Provisioner/Elsewhere.antt =====
-- Lemmas on handleClusterAdd in provisioner.go: it writes to no other object.
use kubecon.Prelude.{String, ap, [], ◌∷◌, ◌++◌, arith, Bool-cases, Option-cases, inl, inr}
use kubecon.Api.{provisioned}
use kubecon.Platform.{Platform}
use kubecon.World.{World, Address}
use kubecon.World.Elsewhere.{
  Elsewhere, Elsewhere-same, Elsewhere-by, Elsewhere-trans, Elsewhere-write, Elsewhere-do_condition,
}
use kubecon.Provisioner.Finalizers.{contains_string, set_finalizers, initialize}
use kubecon.Provisioner.Steps.{AccessorWorks}
use kubecon.Provisioner.Provision.{
  rke_up, heap-rke_up, inside, initialized, ran_up, provision-done, provision-failed,
}
use kubecon.Provisioner.{controller_name, provision, update_applied_config}

module _ (E : Platform) (works : AccessorWorks E) where
  Elsewhere-initialize :
      (p : Address) (key : String) (u : World E) → Elsewhere p u.heap (initialize E p key u).1.heap
  unfolding initialize
  Elsewhere-initialize p key u =
      elim (Bool-cases (contains_string (u.heap.cell p).metadata.finalizers key)) [
        | inl b ↦ Elsewhere-same (ground (arith, works (u.heap.cell p)))
        | inr b ↦ Elsewhere-by (ground (arith, works (u.heap.cell p))) (
            Elsewhere-write p
              (set_finalizers ((u.heap.cell p).metadata.finalizers ++ (key ∷ [])) (u.heap.cell p))
              u.heap)
      ]

  Elsewhere-ran_up :
      (p : Address) (config : String) (u : World E)
      → Elsewhere p u.heap (ran_up E works p config u).heap
  Elsewhere-ran_up p config u = Elsewhere-trans (Elsewhere-initialize p controller_name u) (
      Elsewhere-do_condition E provisioned p (rke_up E p) (initialized E works p config u)
        (heap-rke_up E p (inside E works p config u)))

  Elsewhere-update_applied_config :
      (p : Address) (config : String) (u : World E)
      → Elsewhere p u.heap (update_applied_config E p config u).1.heap
  unfolding update_applied_config
  Elsewhere-update_applied_config p config u = Elsewhere-write p _ u.heap

  pub Elsewhere-provision :
      (p : Address) (config : String) (u : World E)
      → Elsewhere p u.heap (provision E p config u).1.heap
  Elsewhere-provision p config u =
      let before = Elsewhere-ran_up p config u in
      elim (Option-cases (rke_up E p (inside E works p config u)).0) [
        | inl e ↦ Elsewhere-trans before (
            Elsewhere-trans (Elsewhere-update_applied_config p config (ran_up E works p config u))
              (Elsewhere-same (ap (λ r. r.1.heap) (provision-done E works p config u e))))
        | inr (x, e) ↦
            Elsewhere-trans before
              (Elsewhere-same (ap (λ r. r.1.heap) (provision-failed E works p config u x e)))
      ]

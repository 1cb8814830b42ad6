-- ===== src/Provisioner/Interrupted.antt =====
-- finalize in provisioner.go, where the object changes at the API server while `rke remove` runs.
use kubecon.Prelude.{String, ◌≡◌, ◌≢◌, ap, sym, ◌∙◌, true, Option, none, some}
use kubecon.Api.{Cluster}
use kubecon.Platform.{Platform, ok}
use kubecon.Platform.Versions.{RefusesStale}
use kubecon.World.{World, Address}
use kubecon.World.Conflicts.{retry-stale}
use kubecon.Provisioner.Command.{rke}
use kubecon.Provisioner.Finalizers.{finalize}
use kubecon.Provisioner.Steps.{AccessorWorks}
use kubecon.Provisioner.Remove.{
  answer, asked, awaits, args_of, remove_exit, released, cleaned, finalize-clean_up, error-clean_up,
  outside-clean_up, outside-remove_cluster,
}

module _ (E : Platform) {held : E.Outside → String → Option Cluster} (R : RefusesStale E held)
    (works : AccessorWorks E) (p : Address) (key : String) (w : World E) where
  -- Where the server tells stale updates by their versions, and the object that `finalize` has read has
  -- got another version there by the time that `rke remove` is done: `finalize` returns an error,
  -- and the server goes on holding what it held when the command was done.
  pub finalize_interrupted :
      (x y : Cluster)
      → answer E p key w ≡ ok x
      → awaits key x ≡ true
      → remove_exit E p key w ≡ none
      → let o = (E.exec rke (args_of E p key w) (asked E p key w).outside).1 in
        held o x.metadata.name ≡ some y
        → y.metadata.resource_version ≢ x.metadata.resource_version
        → let (e, w') = finalize E p key w in
          (e ≢ none) × ((n : String) → held w'.outside n ≡ held o n)
  finalize_interrupted x y r a clean there changed =
      let o = outside-remove_cluster E p key w in
      let (failed, kept) =
        retry-stale E R (released E p key w x) y changed 2 (cleaned E p key w)
          (ap (λ s. held s x.metadata.name) o ∙ there) in
      rw (finalize-clean_up E p key w works x r a) (
        (λ h. failed (sym (error-clean_up E p key w x clean) ∙ h)),
        λ n.
            ap (λ s. held s n) (outside-clean_up E p key w x clean) ∙ kept n ∙ ap (λ s. held s n) o,
      )

-- ===== src/Concurrent/Alone.antt =====
-- Lemmas: a handler that takes its steps with no other at work does what the handler as a whole does.
use mathlib.Core.Path.{fun_ext}
use kubecon.Prelude.{
  ℕ, zero, suc, String, ◌≡◌, refl, ap, sym, ◌∙◌, Option, none, some, Option-cases, Bool-cases, inl,
  inr, arith,
}
use kubecon.Api.{Cond, ready, provisioned}
use kubecon.Platform.{Platform, Result, Result-cases, error_of}
use kubecon.World.{World, Address, do_condition, outside}
use kubecon.World.Retry.{retry}
use kubecon.Healthchecker.{validate_healthcheck, contact, check}
use kubecon.Healthchecker
use kubecon.Concurrent.{Task, ended, bind, alone, alone-bind, update_loop, do_condition_task}
use kubecon.Annotator.{read_version}
use kubecon.Concurrent.Handlers.{
  health_task, check_task, validate_task, validated, read_version_task, configured, dialled,
}

module _ (E : Platform) where
  pub alone-update_loop :
      (n : ℕ) (p : Address) (last : Option E.Error) (w : World E)
      → alone (update_loop E n p last) w
        ≡ outside E (retry n (E.clusters.update (w.heap.cell p)) last) w
  unfolding alone update_loop retry
  alone-update_loop zero p last w = refl
  alone-update_loop (suc n) p last w =
      let o = (E.clusters.update (w.heap.cell p) w.outside).1 in
      elim (Option-cases (E.clusters.update (w.heap.cell p) w.outside).0) [
        | inl h ↦ ground (arith, h)
        | inr (x, h) ↦ ground (arith, h, alone-update_loop n p (some x) (record w { outside = o }))
      ]

  pub alone-do_condition :
      (c : Cond) (p : Address) (f : Task E (Option E.Error)) (w : World E)
      → alone (do_condition_task E c p f) w ≡ do_condition E c p (alone f) w
  unfolding alone do_condition_task
  alone-do_condition c p f w = alone-bind f _ _

  pub alone-read_version :
      (path : String) (w : World E) → alone (read_version_task E path) w ≡ read_version E path w
  unfolding alone read_version_task configured dialled read_version
  alone-read_version path w = ground arith

  alone-contact :
      (path : String) (w : World E)
      → alone (bind (read_version_task E path) (λ v. ended (error_of v))) w ≡ contact E path w
  unfolding alone read_version contact
  alone-contact path w =
      alone-bind (read_version_task E path) (λ v. ended (error_of v)) w
      ∙ ap (λ (r : Result E.Error String × World E). (error_of r.0, r.1))
          (alone-read_version path w)
      ∙ ground arith

  alone-validate :
      (p : Address) (w : World E)
      → alone (validate_task E p) w ≡ validate_healthcheck E (w.heap.cell p) w
  unfolding alone validate_task validated validate_healthcheck
  alone-validate p w =
      let name = (w.heap.cell p).metadata.name in
      let v : World E = record w { outside = (E.kubeconfigs.get name w.outside).1 } in
      elim (Result-cases (E.kubeconfigs.get name w.outside).0) [
        | inr (e, h) ↦ ground (arith, h)
        | inl (k, h) ↦ ground (arith, h, alone-contact k.spec.config_path v)
      ]

  -- the end of a handler that writes the object and drops the error
  pub alone-ending :
      (p : Address) (w : World E)
      → alone (bind (update_loop E 3 p none) (λ _. ended tt)) w
        ≡ (tt, (outside E (retry 3 (E.clusters.update (w.heap.cell p)) none) w).1)
  unfolding alone
  alone-ending p w =
      alone-bind (update_loop E 3 p none) (λ _. ended tt) w
      ∙ ap (λ (r : Option E.Error × World E). (tt, r.1)) (alone-update_loop 3 p none w)

  pub alone-health :
      (p : Address) (w : World E) → alone (health_task E p) w ≡ Healthchecker.sync E p w
  unfolding alone health_task check_task Healthchecker.sync check
  alone-health p w = elim (Bool-cases (E.is_true provisioned (w.heap.cell p))) [
    | inr off ↦ ground (arith, off)
    | inl on ↦
        let v = (alone (do_condition_task E ready p (validate_task E p)) w).1 in
        let same =
          alone-do_condition ready p (validate_task E p) w
          ∙ ap (λ f. do_condition E ready p f w) (fun_ext (alone-validate p)) in
        let after : Task E (Unit {0}) = bind (update_loop E 3 p none) (λ _. ended tt) in
        let steps : alone (health_task E p) w
            ≡ alone (bind (do_condition_task E ready p (validate_task E p)) (λ _. after)) w =
          ground (arith, on) in
        let whole : Healthchecker.sync E p w ≡ check E p w = ground (arith, on) in
        steps
        ∙ alone-bind (do_condition_task E ready p (validate_task E p)) (λ _. after) w
        ∙ alone-ending p v
        ∙ ap
            (λ (r : Option E.Error × World E).
              (tt, (outside E (retry 3 (E.clusters.update (r.1.heap.cell p)) none) r.1).1))
            same
        ∙ sym whole
  ]

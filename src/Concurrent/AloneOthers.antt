-- ===== src/Concurrent/AloneOthers.antt =====
-- Lemmas: the steps of the annotator and of the config generator, with no other handler at work.
use kubecon.Prelude.{String, ◌≡◌, ap, sym, ◌∙◌, Bool-cases, inl, inr, arith, true}
use kubecon.Platform.{Platform, Result, Result-cases}
use kubecon.World.{World, Address}
use kubecon.Annotator.{
  read_version, get_version, put_version, refresh, annotate, current_version, version_or_empty,
}
use kubecon.Annotator
use kubecon.ConfigGenerator.{reconcile, create_kubeconfig, update_kubeconfig, get_kube_config_path}
use kubecon.ConfigGenerator
use kubecon.Concurrent.{alone, alone-bind}
use kubecon.Concurrent.Alone.{alone-ending, alone-read_version}
use kubecon.Concurrent.Handlers.{
  get_version_task, asked_version, put_version_task, compare_task, write_version_task, refresh_task,
  annotator_task, awaits_version, config_task, reconcile_task, write_config_task, create_task,
  move_task,
}

module _ (E : Platform) where
  alone-get_version :
      (p : Address) (w : World E) → alone (get_version_task E p) w ≡ get_version E (w.heap.cell p) w
  unfolding alone get_version_task asked_version get_version
  alone-get_version p w =
      let name = (w.heap.cell p).metadata.name in
      let v : World E = record w { outside = (E.kubeconfigs.get name w.outside).1 } in
      elim (Result-cases (E.kubeconfigs.get name w.outside).0) [
        | inr (e, h) ↦ ground (arith, h)
        | inl (k, h) ↦ ground (arith, h, alone-read_version E k.spec.config_path v)
      ]

  alone-put_version :
      (p : Address) (version : String) (w : World E)
      → alone (put_version_task E p version) w ≡ put_version E p version w
  unfolding alone put_version_task put_version
  alone-put_version p version w = alone-ending E w.heap.next _

  alone-refresh : (p : Address) (w : World E) → alone (refresh_task E p true) w ≡ refresh E p w
  unfolding alone refresh_task compare_task write_version_task refresh
  alone-refresh p w =
      let (r, v) = get_version E (w.heap.cell p) w in
      alone-bind (get_version_task E p) (λ x. compare_task E p x) w
      ∙ ap (λ (x : Result E.Error String × World E). alone (compare_task E p x.0) x.1)
          (alone-get_version p w)
      ∙ ground (arith, alone-put_version p (version_or_empty E r) v)

  pub alone-annotator :
      (p : Address) (w : World E) → alone (annotator_task E p) w ≡ Annotator.sync E p w
  unfolding alone annotator_task refresh_task Annotator.sync
  alone-annotator p w = elim (Bool-cases (awaits_version E (w.heap.cell p))) [
    | inr off ↦ ground (arith, off)
    | inl due ↦
        let steps : alone (annotator_task E p) w ≡ alone (refresh_task E p true) w =
          ground (arith, due) in
        let whole : Annotator.sync E p w ≡ refresh E p w = ground (arith, due) in
        steps ∙ alone-refresh p w ∙ sym whole
  ]

  pub alone-config :
      (p : Address) (w : World E) → alone (config_task E p) w ≡ ConfigGenerator.sync E p w
  unfolding alone config_task reconcile_task write_config_task create_task move_task
      ConfigGenerator.sync reconcile create_kubeconfig update_kubeconfig
  alone-config p w = ground arith

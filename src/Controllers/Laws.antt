-- ===== src/Controllers/Laws.antt =====
-- What the four controllers share.
use mathlib.Core.List.{append_assoc}
use kubecon.Prelude.{ap, ◌∙◌, ◌≡◌, some, List, [], ◌∷◌, ◌++◌, arith}
use kubecon.Client.Informers.{
  emit, Factory, Informer, Event, cluster, find, add_handler, go_run, go_worker, informer_for,
}
use kubecon.Controllers.{
  register_provisioner, register_config_generator, register_healthchecker, register_annotator,
  register_all,
}

-- What registration does, in order, with the informer `i`.
abbrev pub registration : Informer → List Event
registration i =
    add_handler i "provisioner"
    ∷ go_worker "provisioner"
    ∷ add_handler i "configgenerator"
    ∷ go_run i
    ∷ add_handler i "healthchecker"
    ∷ go_run i
    ∷ add_handler i "annotator"
    ∷ go_run i
    ∷ []

module _ (i : Informer) (f : Factory) (has : find cluster f.informers ≡ some i) where
  abbrev pub after : Event → Event → Factory
  after a b = emit b (emit a f)

  informer_of : informer_for cluster f ≡ (i, f)
  unfolding informer_for
  informer_of = ground arith

  provisioner_after :
      register_provisioner f ≡ after (add_handler i "provisioner") (go_worker "provisioner")
  unfolding register_provisioner
  provisioner_after = rw informer_of (rw informer_of)

  config_generator_after :
      register_config_generator f ≡ after (add_handler i "configgenerator") (go_run i)
  unfolding register_config_generator
  config_generator_after = rw informer_of

  healthchecker_after : register_healthchecker f ≡ after (add_handler i "healthchecker") (go_run i)
  unfolding register_healthchecker
  healthchecker_after = rw informer_of (rw informer_of)

  annotator_after : register_annotator f ≡ after (add_handler i "annotator") (go_run i)
  unfolding register_annotator
  annotator_after = rw informer_of

find-informer_for :
    (f : Factory)
    → find cluster (informer_for cluster f).1.informers ≡ some (informer_for cluster f).0
unfolding informer_for find
find-informer_for f = ground arith

provisioner_first :
    (f : Factory) → register_provisioner f ≡ register_provisioner (informer_for cluster f).1
unfolding register_provisioner
provisioner_first f =
    let (i, f1) = informer_for cluster f in
    let again = informer_of i f1 (find-informer_for f) in rw again (rw again)

-- All four controllers attach their handlers to the one cluster informer of the factory, the one
-- that it has or the one that it creates, and three of them set it running.
pub register_all-events :
    (f : Factory)
    → let (i, f1) = informer_for cluster f in (register_all f).events ≡ f1.events ++ registration i
unfolding register_all
register_all-events f =
    let (i, f1) = informer_for cluster f in
    let has = find-informer_for f in
    let f2 = after i f1 has (add_handler i "provisioner") (go_worker "provisioner") in
    let f3 = after i f2 has (add_handler i "configgenerator") (go_run i) in
    let f4 = after i f3 has (add_handler i "healthchecker") (go_run i) in
    ap (λ x. (register_annotator (register_healthchecker (register_config_generator x))).events)
      (provisioner_first f ∙ provisioner_after i f1 has)
    ∙ ap (λ x. (register_annotator (register_healthchecker x)).events)
        (config_generator_after i f2 has)
    ∙ ap (λ x. (register_annotator x).events) (healthchecker_after i f3 has)
    ∙ ap (λ x. x.events) (annotator_after i f4 has)
    ∙ simp append_assoc

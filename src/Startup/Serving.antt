-- ===== src/Startup/Serving.antt =====
-- Theorems on main.go: when run comes to serve.
use mathlib.Core.List.{map}
use kubecon.Prelude.{
  String, ◌≡◌, ◌↔◌, ap, sym, ◌∙◌, none, some, List, ◌++◌, arith, Option-cases, inl, inr,
}
use kubecon.Platform.{Platform, ok, err, Result-cases}
use kubecon.World.{World}
use kubecon.Client.Informers.{Factory}
use kubecon.Client.Clientset.{ConfigOf}
use kubecon.Controllers.{register}
use kubecon.Startup.Laws.{all_applied, create_crds-files}
use kubecon.Startup.{apply_command, apply_files, create_crds, run, crd_directory, returned, serving}

module _ (E : Platform) where
  module _ (kube_config : String) (w : World E) where
    run-no_config :
        (e : E.Error)
        → E.build_config kube_config w.outside ≡ err e
        → (run E kube_config w).0 ≡ returned e
    unfolding run
    run-no_config e b = ground arith

    run-no_crds :
        (config : ConfigOf E.rest) (x : E.Error)
        → E.build_config kube_config w.outside ≡ ok config
        → (create_crds E w).0 ≡ some x
        → (run E kube_config w).0 ≡ returned x
    unfolding run
    run-no_crds config x b c = ground arith

    run-not_registered :
        (config : ConfigOf E.rest) (x : E.Error)
        → E.build_config kube_config w.outside ≡ ok config
        → (create_crds E w).0 ≡ none
        → register E config ≡ err x
        → (run E kube_config w).0 ≡ returned x
    unfolding run
    run-not_registered config x b c r = ground arith

    run-serving :
        (config : ConfigOf E.rest) (f : Factory)
        → E.build_config kube_config w.outside ≡ ok config
        → (create_crds E w).0 ≡ none
        → register E config ≡ ok f
        → run E kube_config w ≡ (serving f, (create_crds E w).1)
    unfolding run
    run-serving config f b c r = ground arith

    create_crds-no_directory :
        (e : E.Error) → E.read_dir crd_directory w.outside ≡ err e → create_crds E w ≡ (some e, w)
    unfolding create_crds
    create_crds-no_directory e d = ground arith

  -- What `run` needs to serve: a configuration that is read, a directory whose files are all applied, and
  -- controllers that can be registered.
  pub record IsStarted (kube_config : String) (w : World E) (f : Factory) : Type 0 where
    pub config : ConfigOf E.rest
    pub files : List String
    pub configured : E.build_config kube_config w.outside ≡ ok config
    pub listed : E.read_dir crd_directory w.outside ≡ ok files
    pub all_created : (apply_files E files w).0 ≡ none
    pub registered : register E config ≡ ok f

  started_lem :
      (kube_config : String) (w : World E) (f : Factory)
      → (run E kube_config w).0 ≡ serving f
      → IsStarted kube_config w f
  started_lem kube_config w f h = elim (Result-cases (E.build_config kube_config w.outside)) [
    | inr (e, b) ↦ cc (h, run-no_config kube_config w e b)
    | inl (config, b) ↦ elim (Option-cases (create_crds E w).0) [
      | inr (x, c) ↦ cc (h, run-no_crds kube_config w config x b c)
      | inl c ↦ elim (Result-cases (register E config)) [
        | inr (x, r) ↦ cc (h, run-not_registered kube_config w config x b c r)
        | inl (g, r) ↦ elim (Result-cases (E.read_dir crd_directory w.outside)) [
          | inr (e, d) ↦ cc (c, create_crds-no_directory kube_config w e d)
          | inl (files, d) ↦
              let q = run-serving kube_config w config g b c r in
              record {
                config = config;
                files = files;
                configured = b;
                listed = d;
                all_created = sym (ap (λ v. v.0) (create_crds-files E files w d)) ∙ c;
                registered = cc (h, q, r);
              }
        ]
      ]
    ]
  ]

  create_crds-IsStarted :
      {kube_config : String} {w : World E} {f : Factory} (s : IsStarted kube_config w f)
      → create_crds E w ≡ apply_files E s.files w
  create_crds-IsStarted {w} s = create_crds-files E s.files w s.listed

  run-served :
      {kube_config : String} {w : World E} {f : Factory}
      → IsStarted kube_config w f
      → run E kube_config w ≡ (serving f, (create_crds E w).1)
  run-served {kube_config} {w} {f} s =
      run-serving kube_config w s.config f s.configured
        (ap (λ v. v.0) (create_crds-IsStarted s) ∙ s.all_created) s.registered

  -- `run` comes to serve, with the informers that were registered, exactly where the configuration is
  -- read, all files of the directory are applied without an error, and the controllers can be
  -- registered.
  pub run_serves_iff :
      (kube_config : String) (w : World E) (f : Factory)
      → ((run E kube_config w).0 ≡ serving f) ↔ IsStarted kube_config w f
  run_serves_iff kube_config w f = (started_lem kube_config w f, λ s. ap (λ v. v.0) (run-served s))

  -- By then it has run the commands that apply the files, in order.
  commands-run :
      {kube_config : String} {w : World E} {f : Factory} (s : IsStarted kube_config w f)
      → (run E kube_config w).1.commands ≡ w.commands ++ map apply_command s.files
  commands-run {w} s =
      ap (λ v. v.1.commands) (run-served s)
      ∙ ap (λ v. v.1.commands) (create_crds-IsStarted s)
      ∙ all_applied E s.files w s.all_created

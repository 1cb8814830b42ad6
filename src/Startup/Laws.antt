-- ===== src/Startup/Laws.antt =====
-- Theorems on main.go: the files that are applied.
use mathlib.Core.List.{append-nil, append_assoc, map}
use mathlib.Core.Path.{subst}
use mathlib.Core.Option.{some-ne-none, none-ne-some}
use kubecon.Prelude.{
  String, ◌≡◌, refl, ap, sym, ◌∙◌, Option, none, some, List, [], ◌∷◌, ◌++◌, arith, Option-cases,
  inl, inr,
}
use kubecon.Platform.{Platform, ok, Completion, unstarted, finished}
use kubecon.World.{World, Command}
use kubecon.Startup.{apply_command, apply_file, apply_files, create_crds, crd_directory}

module _ (E : Platform) where
  -- The command of one file among those that ran, if it started.
  abbrev pub ran_of : String → Completion E.Error → List Command
  ran_of file (unstarted x) = []
  ran_of file (finished e out) = apply_command file ∷ []

  abbrev pub attempt : String → World E → Completion E.Error
  attempt file v = (E.run (apply_command file).name (apply_command file).args v.outside).0

  -- A run through `files` from the world `w` that took up those of `done` and ended with `error`. Without an
  -- error it has taken up all, and run the command of each; an error is that of the last one, before which
  -- it has run the commands of the others, and that of the last where it started.
  pub record Applied (files done : List String) (error : Option E.Error) (w w' : World E)
      : Type 0 where
    pub left : List String
    pub in_order : files ≡ done ++ left
    pub complete : error ≡ none → (left ≡ []) × (w'.commands ≡ w.commands ++ map apply_command done)
    pub stopped :
        (e : E.Error)
        → error ≡ some e
        → (before : List String) × (file : String) × (v : World E) × (done ≡ before ++ (file ∷ []))
          × ((apply_file E file v).0 ≡ some e)
          × (v.commands ≡ w.commands ++ map apply_command before)
          × (w'.commands ≡ v.commands ++ ran_of file (attempt file v))

  commands-apply_file :
      (file : String) (w : World E)
      → (apply_file E file w).1.commands ≡ w.commands ++ ran_of file (attempt file w)
  unfolding apply_file
  commands-apply_file file w = ground (arith, append-nil w.commands)

  commands-applied :
      (file : String) (w : World E)
      → (apply_file E file w).0 ≡ none
      → (apply_file E file w).1.commands ≡ w.commands ++ (apply_command file ∷ [])
  unfolding apply_file
  commands-applied file w h = ground arith

  module _ (file : String) (files : List String) (w : World E) where
    apply_files-stop :
        (x : E.Error)
        → (apply_file E file w).0 ≡ some x
        → apply_files E (file ∷ files) w ≡ (some x, (apply_file E file w).1)
    unfolding apply_files
    apply_files-stop x e = ground arith

    apply_files-next :
        (apply_file E file w).0 ≡ none
        → apply_files E (file ∷ files) w ≡ apply_files E files (apply_file E file w).1
    unfolding apply_files
    apply_files-next e = rw (e, apply_files)

    Applied-stop :
        (x : E.Error)
        → (apply_file E file w).0 ≡ some x
        → Applied (file ∷ files) (file ∷ []) (some x) w (apply_file E file w).1
    Applied-stop x e = record {
      left = files;
      in_order = refl;
      complete = λ h. absurd (some-ne-none x h);
      stopped = λ y h.
          ([], file, w, refl, e ∙ h, sym (append-nil w.commands), commands-apply_file file w);
    }

    -- what has run since the first file, by what has since the second
    commands-since :
        {l : List Command} (rest : List String)
        → (apply_file E file w).0 ≡ none
        → l ≡ (apply_file E file w).1.commands ++ map apply_command rest
        → l ≡ w.commands ++ map apply_command (file ∷ rest)
    commands-since rest e h =
        h
        ∙ ap (λ l. l ++ map apply_command rest) (commands-applied file w e)
        ∙ append_assoc w.commands (apply_command file ∷ []) (map apply_command rest)

    Applied-next :
        {done : List String} {error : Option E.Error} {w' : World E}
        → (apply_file E file w).0 ≡ none
        → Applied files done error (apply_file E file w).1 w'
        → Applied (file ∷ files) (file ∷ done) error w w'
    Applied-next {done} {w'} e a = record {
      left = a.left;
      in_order = ap (λ l. file ∷ l) a.in_order;
      complete = λ h. let (all, ran) = a.complete h in (all, commands-since done e ran);
      stopped = λ y h.
          let (before, last, v, d, f, ran, final) = a.stopped y h in
          (file ∷ before, last, v, ap (λ l. file ∷ l) d, f, commands-since before e ran, final);
    }

  -- The loop applies the files in order, all of them if it returns no error, and otherwise those up
  -- to the one whose error it returns; of a file whose command does not start, no command has run.
  pub apply_files-Applied :
      (files : List String) (w : World E)
      → (done : List String) × Applied files done
          (apply_files E files w).0
          w
          (apply_files E files w).1
  unfolding apply_files
  apply_files-Applied [] w = (
    [],
    record {
      left = [];
      in_order = refl;
      complete = λ _. (refl, sym (append-nil w.commands));
      stopped = λ y h. absurd (none-ne-some y h);
    },
  )
  apply_files-Applied (file ∷ files) w = elim (Option-cases (apply_file E file w).0) [
    | inr (x, e) ↦ (
      file ∷ [],
      subst (λ r. Applied (file ∷ files) (file ∷ []) r.0 w r.1)
          (sym (apply_files-stop file files w x e)) (Applied-stop file files w x e),
    )
    | inl e ↦
        let (done, a) = apply_files-Applied files (apply_file E file w).1 in
        (
          file ∷ done,
          subst (λ r. Applied (file ∷ files) (file ∷ done) r.0 w r.1)
              (sym (apply_files-next file files w e)) (Applied-next file files w e a),
        )
  ]

  pub all_applied :
      (files : List String) (w : World E)
      → (apply_files E files w).0 ≡ none
      → (apply_files E files w).1.commands ≡ w.commands ++ map apply_command files
  all_applied files w h =
      let (done, a) = apply_files-Applied files w in
      let (all, ran) = a.complete h in
      let same : files ≡ done = a.in_order ∙ ap (λ l. done ++ l) all ∙ append-nil done in
      ran ∙ ap (λ l. w.commands ++ map apply_command l) (sym same)

  pub create_crds-files :
      (files : List String) (w : World E)
      → E.read_dir crd_directory w.outside ≡ ok files
      → create_crds E w ≡ apply_files E files w
  unfolding create_crds
  create_crds-files files w r = ground arith

-- ===== src/Startup.antt =====
-- main.go: the custom resource definitions are created, the controllers registered, and the
-- program then sleeps for ever.
pub mod Laws
pub mod Serving
pub mod Main
use kubecon.Prelude.{String, ◌<>◌, Option, none, some, List, [], ◌∷◌, ◌++◌}
use kubecon.Platform.{Platform, unstarted, finished, ok, err}
use kubecon.World.{World, M, Command, outside}
use kubecon.Client.Informers.{Factory}
use kubecon.Controllers.{register}

abbrev pub crd_directory : String
crd_directory = "./config/crd"

-- `kubectl apply` of one file
abbrev pub apply_command : String → Command
apply_command file = record {
  name = "kubectl";
  args = "apply" ∷ "-f" ∷ ("./config/crd/" <> file) ∷ [];
}

-- How `run` ends: with an error, or in its endless loop, with the informers that were registered.
pub data Outcome (E : Type 0) : Type 0 where
  returned : E → Outcome E
  serving : Factory → Outcome E

module _ (E : Platform) where
  abbrev pub not_created : String → E.Error → String → E.Error
  not_created file x out =
      E.errorf ("failed to create CRD [" <> file <> "] " <> E.message x <> " " <> out)

  -- the body of the loop of createCRDS; a command that does not start has written nothing
  unfoldable pub apply_file : String → M E (Option E.Error)
  apply_file file w =
      let cmd = apply_command file in
      let (c, w1) = outside E (E.run cmd.name cmd.args) w in
      let w2 = record w1 { commands = w1.commands ++ (cmd ∷ []) } in
      elim c [
        | unstarted x ↦ (some (not_created file x ""), w1)
        | finished e out ↦ elim e [
          | some x ↦ (some (not_created file x out), w2)
          | none ↦ (none, w2)
        ]
      ]

  unfoldable pub apply_files : List String → M E (Option E.Error)
  apply_files [] w = (none, w)
  apply_files (file ∷ files) w =
      let rest = apply_files files in
      let (e, w1) = apply_file file w in elim e [ some x ↦ (some x, w1) | none ↦ rest w1 ]

  unfoldable pub create_crds : M E (Option E.Error)
  create_crds w = elim (E.read_dir crd_directory w.outside) [
    | err e ↦ (some e, w)
    | ok files ↦ apply_files files w
  ]

  unfoldable pub run : String → M E (Outcome E.Error)
  run kube_config w = elim (E.build_config kube_config w.outside) [
    | err e ↦ (returned e, w)
    | ok config ↦
        let (e, w1) = create_crds w in
        elim e [
          | some x ↦ (returned x, w1)
          | none ↦ elim (register E config) [ err x ↦ (returned x, w1) | ok f ↦ (serving f, w1) ]
        ]
  ]

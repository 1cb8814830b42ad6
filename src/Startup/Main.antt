-- ===== src/Startup/Main.antt =====
-- main of main.go, over the command-line library.
use kubecon.Prelude.{String, Option, none, some, List, [], ◌∷◌}
use kubecon.Platform.{Platform}
use kubecon.World.{M}
use kubecon.Client.Informers.{Factory}
use kubecon.Startup.{run, returned, serving}

-- cli.StringFlag
pub record StringFlag : Type 0 where
  pub name : String
  pub usage : String
  pub env_var : String
  pub value : String

-- The flag of main
abbrev kubeconfig_flag : StringFlag
kubeconfig_flag = record {
  name = "kubeconfig";
  usage = "Kube config for accessing k8s cluster";
  env_var = "KUBECONFIG";
  value = "/Users/alena/.kube/config";
}

-- `App.Run` of the command-line library: the values of the flags by their names, with which it
-- calls the action; `none` where it shows the help or the version, or refuses the arguments.
pub record CommandLine : Type 1 where
  pub Args : Type 0
  pub parse : List StringFlag → Args → Option (String → String)

-- How the process ends: it returns from main, or it never does.
pub data Ending : Type 0 where
  finished : Ending
  forever : Factory → Ending

-- main; the error that `App.Run` returns of the action is dropped
unfoldable main : (E : Platform) (C : CommandLine) → C.Args → M E Ending
main E C args w = elim (C.parse (kubeconfig_flag ∷ []) args) [
  | none ↦ (finished, w)
  | some value_of ↦
      let (o, w') = run E (value_of "kubeconfig") w in
      elim o [ returned e ↦ (finished, w') | serving f ↦ (forever f, w') ]
]

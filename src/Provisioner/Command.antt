-- ===== src/Provisioner/Command.antt =====
-- provisioner.go: a command is started, its error output is copied as it is read, and its exit is
-- awaited.
pub mod Laws
use kubecon.Prelude.{String, ◌<>◌, Option, some, List, [], ◌∷◌, ◌++◌, ◌==◌, if◌then◌else◌}
use kubecon.Api.{Cluster}
use kubecon.Platform.{Platform, Reader, stop, chunk, no_pipe, no_start, started}
use kubecon.World.{M, outside}

abbrev pub rke : String
rke = "/Users/alena/go/src/github.com/rancher/rke/rke"

-- What one read adds to the output: nothing where it gives no bytes.
abbrev pub shown : String → List String
shown bytes = if bytes == "" then [] else bytes ∷ []

-- printLogs, by the list of the texts that it prints
unfoldable pub print_logs : {E : Type 0} → Reader E → List String
print_logs (stop bytes e) = shown bytes
print_logs (chunk bytes r) = shown bytes ++ print_logs r

module _ (E : Platform) where
  -- executeCommand. The deferred function replaces the result by that of `Wait`, but is set up only
  -- once the command has started.
  unfoldable pub execute_command : String → List String → M E (Option E.Error)
  execute_command name args w =
      let (x, w1) = outside E (E.exec name args) w in
      let described = "'" <> E.cmd_text name args <> "' " in
      let w2 = record w1 { commands = w1.commands ++ (record { name = name; args = args } ∷ []) } in
      elim x [
        | no_pipe e ↦
            (some (E.errorf ("error getting stdout from cmd " <> described <> E.message e)), w1)
        | no_start e ↦ (some (E.errorf ("error starting cmd " <> described <> E.message e)), w1)
        | started r e ↦ (e, record w2 { stdout = w2.stdout ++ print_logs r })
      ]

  -- provisionCluster
  unfoldable pub provision_cluster : Cluster → M E (Option E.Error)
  provision_cluster c = execute_command rke ("up" ∷ "--config" ∷ c.spec.config_path ∷ [])

  -- removeCluster
  unfoldable pub remove_cluster : Cluster → M E (Option E.Error)
  remove_cluster c =
      execute_command rke ("remove" ∷ "--force" ∷ "--config" ∷ c.spec.config_path ∷ [])

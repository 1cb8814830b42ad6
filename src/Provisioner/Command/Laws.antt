-- ===== src/Provisioner/Command/Laws.antt =====
-- What a command leaves alone, and what of its output is printed.
use mathlib.Core.List
use mathlib.Core.Path.{ap₂}
use text.Mathlib.TextLemmas.{nil-append, append-nil, append_assoc}
use kubecon.Prelude.{
  sym, String, ◌<>◌, ◌≡◌, Bool-cases, inl, inr, ap, ◌∙◌, Option, some, List, [], ◌∷◌, ◌++◌, ◌==◌,
  eq_iff, arith,
}
use kubecon.Platform.{Platform, Reader, stop, chunk, Execution, no_pipe, no_start, started}
use kubecon.World.{World, Command, frame}
use kubecon.Provisioner.Command.{shown, print_logs, execute_command}

-- All the bytes that a reader gives, those beside its error included.
abbrev bytes_of : {E : Type 0} → Reader E → String
bytes_of (stop bytes e) = bytes
bytes_of (chunk bytes r) = bytes <> bytes_of r

abbrev joined : List String → String
joined [] = ""
joined (s ∷ l) = s <> joined l

joined-append : (l m : List String) → joined (l ++ m) ≡ joined l <> joined m
joined-append [] m = sym (nil-append (joined m))
joined-append (s ∷ l) m =
    ap (λ t. s <> t) (joined-append l m) ∙ sym (append_assoc s (joined l) (joined m))

joined-shown : (bytes : String) → joined (shown bytes) ≡ bytes
joined-shown bytes = elim (Bool-cases (bytes == "")) [
  | inl e ↦ rw e (sym ((eq_iff bytes "").0 e))
  | inr e ↦ rw e (append-nil bytes)
]

-- Everything that a command writes is printed, in order, whatever the sizes of the reads.
joined-print_logs : {E : Type 0} (r : Reader E) → joined (print_logs r) ≡ bytes_of r
unfolding print_logs
joined-print_logs (stop bytes e) = joined-shown bytes
joined-print_logs (chunk bytes r) =
    joined-append (shown bytes) (print_logs r)
    ∙ ap₂ (λ (s t : String). s <> t) (joined-shown bytes) (joined-print_logs r)

-- The error that a caller of a command sees.
abbrev pub exit_of : (E : Platform) → String → List String → Execution E.Error → Option E.Error
exit_of E name args (no_pipe e) = some (
    E.errorf
      ("error getting stdout from cmd " <> ("'" <> E.cmd_text name args <> "' ") <> E.message e))
exit_of E name args (no_start e) =
    some (E.errorf ("error starting cmd " <> ("'" <> E.cmd_text name args <> "' ") <> E.message e))
exit_of E name args (started r e) = e

-- The commands that ran.
abbrev pub ran : (E : Platform) → String → List String → Execution E.Error → List Command
ran E name args (started r e) = record { name = name; args = args } ∷ []
ran E name args _ = []

module _ (E : Platform) (name : String) (args : List String) (w : World E) where
  pub heap-execute_command : (execute_command E name args w).1.heap ≡ w.heap
  unfolding execute_command
  heap-execute_command = ground arith

  pub frame-execute_command : frame E (execute_command E name args w).1 ≡ frame E w
  unfolding execute_command
  frame-execute_command = ground arith

  pub indexer-execute_command : (execute_command E name args w).1.indexer ≡ w.indexer
  indexer-execute_command = ap (λ x. x.1) frame-execute_command

  pub outside-execute_command :
      (execute_command E name args w).1.outside ≡ (E.exec name args w.outside).1
  unfolding execute_command
  outside-execute_command = ground arith

  pub commands-execute_command :
      (execute_command E name args w).1.commands
      ≡ w.commands ++ ran E name args (E.exec name args w.outside).0
  unfolding execute_command
  commands-execute_command = ground (arith, List.append-nil w.commands)

  pub exit-execute_command :
      (execute_command E name args w).0 ≡ exit_of E name args (E.exec name args w.outside).0
  unfolding execute_command
  exit-execute_command = ground arith

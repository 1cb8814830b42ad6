-- ===== src/Provisioner/Remove.antt =====
-- Theorems on finalize in provisioner.go: the command that it runs, and what it writes.
use mathlib.Core.Bool.{false≢true}
use kubecon.Prelude.{
  String, ◌≡◌, ◌≢◌, refl, ap, sym, ◌∙◌, true, false, Bool, Option, none, some, List, [], ◌∷◌, ◌++◌,
  arith, Option-cases, Bool-cases, inl, inr, if◌then◌else◌, ◌==◌,
}
use kubecon.Api.{Cluster}
use kubecon.Platform.{Platform, Result, ok, err, Result-cases}
use kubecon.Platform.Laws.{KeepsClusters, stored}
use kubecon.World.{World, Address}
use kubecon.World.Retry.{retry}
use kubecon.World.Writes.{left, view-retry}
use kubecon.Provisioner.Command.{rke, remove_cluster}
use kubecon.Provisioner.Command.Laws.{
  ran, commands-execute_command, outside-execute_command, exit_of, exit-execute_command,
}
use kubecon.Provisioner.Finalizers.{contains_string, without, set_finalizers, clean_up, finalize}
use kubecon.Provisioner.Steps.{AccessorWorks}

abbrev pub remove_args : String → List String
remove_args path = "remove" ∷ "--force" ∷ "--config" ∷ path ∷ []

-- The object of the server waits for this finalizer: it is being deleted, and bears it.
abbrev pub awaits : String → Cluster → Bool
awaits key c = elim c.metadata.deletion_timestamp [
  | none ↦ false
  | some _ ↦ contains_string c.metadata.finalizers key
]

abbrev pub get_awaits : {E : Type 0} → String → Result E Cluster → Bool
get_awaits key (ok c) = awaits key c
get_awaits key (err e) = false

module _ (E : Platform) (p : Address) (key : String) (w : World E) where
  abbrev pub name_of : String
  name_of = (w.heap.cell p).metadata.name

  -- The answer to `Get`, and the world after it.
  abbrev pub answer : Result E.Error Cluster
  answer = (E.clusters.get name_of w.outside).0

  abbrev pub asked : World E
  asked = record w { outside = (E.clusters.get name_of w.outside).1 }

  pub finalize-idle :
      AccessorWorks E → get_awaits key answer ≡ false → (finalize E p key w).1 ≡ asked
  unfolding finalize
  finalize-idle works h = elim (Result-cases answer) [
    | inl (x, r) ↦ ground (arith, r, works x)
    | inr (e, r) ↦ ground (arith, r)
  ]

  pub finalize-clean_up :
      AccessorWorks E
      → (x : Cluster) → answer ≡ ok x
      → awaits key x ≡ true
      → finalize E p key w ≡ clean_up E p x key asked
  unfolding finalize
  finalize-clean_up works x r h = ground (arith, works x)

  abbrev pub args_of : List String
  args_of = remove_args (w.heap.cell p).spec.config_path

  -- How `rke remove` ends, where it is called.
  abbrev pub remove_exit : Option E.Error
  remove_exit = exit_of E rke args_of (E.exec rke args_of asked.outside).0

  error-remove_cluster : (remove_cluster E (w.heap.cell p) asked).0 ≡ remove_exit
  unfolding remove_cluster
  error-remove_cluster = exit-execute_command E rke args_of asked

  commands-remove_cluster :
      (remove_cluster E (w.heap.cell p) asked).1.commands
      ≡ w.commands ++ ran E rke args_of (E.exec rke args_of asked.outside).0
  unfolding remove_cluster
  commands-remove_cluster = commands-execute_command E rke args_of asked

  pub outside-remove_cluster :
      (remove_cluster E (w.heap.cell p) asked).1.outside ≡ (E.exec rke args_of asked.outside).1
  unfolding remove_cluster
  outside-remove_cluster = outside-execute_command E rke args_of asked

  commands-clean_up :
      (x : Cluster)
      → (clean_up E p x key asked).1.commands ≡ (remove_cluster E (w.heap.cell p) asked).1.commands
  unfolding clean_up
  commands-clean_up x = ground arith

  -- `rke remove` is run for the cluster's file, once, exactly where the server's object awaits this
  -- finalizer.
  pub finalize_runs :
      AccessorWorks E
      → (finalize E p key w).1.commands ≡ (
          if get_awaits key answer
          then w.commands ++ ran E rke args_of (E.exec rke args_of asked.outside).0
          else w.commands)
  finalize_runs works = elim (Result-cases answer) [
    | inr (e, r) ↦ rw r (ap (λ v. v.commands) (finalize-idle works (ap (get_awaits key) r)))
    | inl (x, r) ↦ elim (Bool-cases (awaits key x)) [
      | inl h ↦ rw r (
          rw h (
            ap (λ v. v.1.commands) (finalize-clean_up works x r h)
            ∙ commands-clean_up x
            ∙ commands-remove_cluster))
      | inr h ↦ rw r (rw h (ap (λ v. v.commands) (finalize-idle works (ap (get_awaits key) r ∙ h))))
    ]
  ]

  -- the object that is sent once the machines are cleaned up
  abbrev pub released : Cluster → Cluster
  released x = set_finalizers (without key x.metadata.finalizers) x

  abbrev pub cleaned : E.Outside
  cleaned = (remove_cluster E (w.heap.cell p) asked).1.outside

  pub clean_up-failed :
      (x : Cluster) (e : E.Error)
      → remove_exit ≡ some e
      → clean_up E p x key asked ≡ (some e, (remove_cluster E (w.heap.cell p) asked).1)
  unfolding clean_up
  clean_up-failed x e h = ground (arith, error-remove_cluster)

  pub error-clean_up :
      (x : Cluster)
      → remove_exit ≡ none
      → (clean_up E p x key asked).0 ≡ (retry 3 (E.clusters.update (released x)) none cleaned).0
  unfolding clean_up
  error-clean_up x h = ground (arith, error-remove_cluster)

  pub outside-clean_up :
      (x : Cluster)
      → remove_exit ≡ none
      → (clean_up E p x key asked).1.outside
        ≡ (retry 3 (E.clusters.update (released x)) none cleaned).1
  unfolding clean_up
  outside-clean_up x h = ground (arith, error-remove_cluster)

  module _ {view : E.Outside → String → Option Cluster} (K : KeepsClusters E view)
      (works : AccessorWorks E) where
    pub view_asked : (n : String) → view asked.outside n ≡ view w.outside n
    view_asked n = K.objects.get_keeps name_of w.outside n

    pub view_cleaned : (n : String) → view cleaned n ≡ view w.outside n
    view_cleaned n =
        rw outside-remove_cluster (K.others.exec_keeps rke args_of asked.outside n ∙ view_asked n)

    -- Once the machines are cleaned up and the write has been accepted, the server holds the object
    -- without this finalizer, but for its version, or no longer holds it, and all else as before.
    pub finalize_releases :
        (x : Cluster)
        → answer ≡ ok x
        → awaits key x ≡ true
        → remove_exit ≡ none
        → (finalize E p key w).0 ≡ none
        → (n : String)
        → view (finalize E p key w).1.outside n
          ≡ (if x.metadata.name == n then stored (released x) else view w.outside n)
    finalize_releases x r a clean h n =
        let q = finalize-clean_up works x r a in
        let done : (retry 3 (E.clusters.update (released x)) none cleaned).0 ≡ none =
          sym (error-clean_up x clean) ∙ sym (ap (λ v. v.0) q) ∙ h in
        rw q (
          rw (outside-clean_up x clean) (
            view-retry E K (released x) 2 cleaned n
            ∙ ap (λ e. left E K (released x) e cleaned n) done
            ∙ ap (λ v. if x.metadata.name == n then stored (released x) else v) (view_cleaned n)))

    -- While `rke remove` fails, the server's objects stay as they are, the finalizer with them, and
    -- its error is returned.
    pub finalize_holds :
        (x : Cluster) (e : E.Error)
        → answer ≡ ok x
        → awaits key x ≡ true
        → remove_exit ≡ some e
        → ((finalize E p key w).0 ≡ some e)
          × ((n : String) → view (finalize E p key w).1.outside n ≡ view w.outside n)
    finalize_holds x e r a f =
        rw (finalize-clean_up works x r a) (rw (clean_up-failed x e f) (refl, view_cleaned))

    -- Whatever the branch: the server's objects change only where the object awaits this finalizer
    -- and its machines have been cleaned up.
    pub finalize_safe :
        (n : String)
        → view (finalize E p key w).1.outside n ≢ view w.outside n
        → (get_awaits key answer ≡ true) × (remove_exit ≡ none)
    finalize_safe n changed = elim (Bool-cases (get_awaits key answer)) [
      | inr h ↦ absurd (changed (ap (λ v. view v.outside n) (finalize-idle works h) ∙ view_asked n))
      | inl h ↦ elim (Option-cases remove_exit) [
        | inl c ↦ (h, c)
        | inr (e, f) ↦ elim (Result-cases answer) [
          | inl (x, r) ↦
              absurd (changed ((finalize_holds x e r (sym (ap (get_awaits key) r) ∙ h) f).1 n))
          | inr (y, r) ↦ absurd (false≢true (sym (ap (get_awaits key) r) ∙ h))
        ]
      ]
    ]

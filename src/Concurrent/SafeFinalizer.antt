-- ===== src/Concurrent/SafeFinalizer.antt =====
-- The steps of `finalize`.
use mathlib.Core.Path.{subst}
use kubecon.Prelude.{
  ℕ, zero, suc, List, String, Bool, true, false, ◌≡◌, refl, sym, Option, none, some, ◌∷◌, [],
}
use kubecon.Api.{Cluster}
use kubecon.Platform.{Platform, Result, ok, err}
use kubecon.Platform.Shared.{Replacement, SharesServer}
use kubecon.World.{World, Address}
use kubecon.World.Keeps.{Kept-same}
use kubecon.Provisioner.Command.{rke, execute_command, remove_cluster}
use kubecon.Provisioner.Command.Laws.{
  heap-execute_command, outside-execute_command, indexer-execute_command,
}
use kubecon.Controllers.Sends.{Sent}
use kubecon.Controllers.Backed.{Backed, Backed-Kept}
use kubecon.Controllers.Meanwhile.{Faithful, Faithful-same, Faithful-quiet}
use kubecon.Concurrent.{Task, ended}
use kubecon.Concurrent.Provisioning.{
  send_loop, fail_task, send_cleaned_task, clean_up_task, inspect_task, finalize_found,
  finalize_task, removed_task,
}
use kubecon.Concurrent.Safe.{Later-trans, Safe, StepSafe, StepSafe-by, Faithful-send}
use kubecon.Concurrent.SafeHandlers.{StepSafe-read}

module _ (E : Platform) {logged : E.Outside → String → String → Option Cluster}
    {writes : E.Outside → List Replacement} (V : SharesServer E logged writes) where
  pub StepSafe-command :
      (name : String) (args : List String) (v : World E)
      → StepSafe E V (execute_command E name args) v
  StepSafe-command name args v =
      StepSafe-by E V (heap-execute_command E name args v)
        (subst (λ o. Faithful E V v.outside o) (sym (outside-execute_command E name args v))
          (Faithful-quiet E V (V.grows.exec_grows name args v.outside)
            (V.exec_writes name args v.outside) (Faithful-same E V v.outside)))
        (indexer-execute_command E name args v)

  StepSafe-remove :
      (p : Address) (v : World E) → StepSafe E V (λ w. remove_cluster E (w.heap.cell p) w) v
  unfolding remove_cluster
  StepSafe-remove p v =
      let s =
        StepSafe-command rke
          ("remove" ∷ "--force" ∷ "--config" ∷ (v.heap.cell p).spec.config_path ∷ []) v in
      record { later = s.later; indexer_kept = s.indexer_kept }

  pub Safe-fail :
      (what : String) (p : Address) (e : E.Error) (w : World E) → Safe E V (fail_task E what p e) w
  Safe-fail what p e w = λ v l owned. (StepSafe-read E V _ v, tt)

  -- what is sent was made of a cluster that the server has held
  Safe-send_loop :
      (n : ℕ) (d c : Cluster)
      → Sent d c
      → (last : Option E.Error) (w : World E) → Backed E logged w.outside d
      → Safe E V (send_loop E n c last) w
  unfolding send_loop
  Safe-send_loop zero d c s last w b = tt
  Safe-send_loop (suc n) d c s last w b = λ v l owned.
      let k = l.faithful in
      let held = Backed-Kept E logged b k.log_kept (Kept-same d d refl refl) in
      let f = Faithful-send E V d c s v.outside held in
      let u : World E = record v { outside = (E.clusters.update c v.outside).1 } in
      (
        StepSafe-by E V refl f refl,
        again u
            (λ x.
              Safe-send_loop n d c s (some x) u
                (Backed-Kept E logged held f.log_kept (Kept-same d d refl refl)))
            (E.clusters.update c v.outside).0,
      )
    where
      again :
          (u : World E)
          → ((x : E.Error) → Safe E V (send_loop E n c (some x)) u)
          → (e : Option E.Error)
          → Safe E V
              (elim e as (λ _. Task E (Option E.Error)) [
                | none ↦ ended none
                | some x ↦ send_loop E n c (some x)
              ])
              u
      again u h none = tt
      again u h (some x) = h x

  Safe-send_cleaned :
      (x : Cluster) (key : String) (e : Option E.Error) (w : World E)
      → Backed E logged w.outside x
      → Safe E V (send_cleaned_task E x key e) w
  unfolding send_cleaned_task
  Safe-send_cleaned x key (some e) w b = tt
  Safe-send_cleaned x key none w b =
      Safe-send_loop 3 x _ (record { same_core = refl; same_version = refl }) none w b

  Safe-clean_up :
      (p : Address) (key : String) (x : Cluster) (due : Bool) (w : World E)
      → Backed E logged w.outside x
      → Safe E V (clean_up_task E p key x due) w
  unfolding clean_up_task
  Safe-clean_up p key x false w b = tt
  Safe-clean_up p key x true w b = λ v l owned.
      let s = StepSafe-remove p v in
      let k = (Later-trans E V l s.later).faithful in
      (s, Safe-send_cleaned x key _ _ (Backed-Kept E logged b k.log_kept (Kept-same x x refl refl)))

  Safe-inspect :
      (p : Address) (key : String) (x : Cluster) (e : Option E.Error) (w : World E)
      → Backed E logged w.outside x
      → Safe E V (inspect_task E p key x e) w
  unfolding inspect_task
  Safe-inspect p key x (some e) w b = tt
  Safe-inspect p key x none w b = Safe-clean_up p key x _ w b

  Safe-finalize_found :
      (p : Address) (key : String) (r : Result E.Error Cluster) (w : World E)
      → ((x : Cluster) → r ≡ ok x → Backed E logged w.outside x)
      → Safe E V (finalize_found E p key r) w
  unfolding finalize_found
  Safe-finalize_found p key (err e) w b = tt
  Safe-finalize_found p key (ok x) w b = Safe-inspect p key x _ w (b x refl)

  -- `Get` answers with a cluster that the server holds
  pub Safe-finalize :
      (p : Address) (key : String) (w : World E) → Safe E V (finalize_task E p key) w
  Safe-finalize p key w = λ v l owned.
      let n = (v.heap.cell p).metadata.name in
      let f =
        Faithful-quiet E V (V.grows.get_grows n v.outside) (V.get_writes n v.outside)
          (Faithful-same E V v.outside) in
      (
        StepSafe-by E V refl f refl,
        Safe-finalize_found p key _ _ (λ x r. record {
          original = x;
          was_held = V.grows.get_grows n v.outside _ _ x (V.get_found n v.outside x r);
          same_core = refl;
        }),
      )

  pub Safe-removed :
      (p : Address) (e : Option E.Error) (w : World E) → Safe E V (removed_task E p e) w
  unfolding removed_task
  Safe-removed p (some x) w = Safe-fail _ p x w
  Safe-removed p none w = tt

-- ===== src/Provisioner/Finalizers.antt =====
-- provisioner.go: the finalizer that keeps a deleted cluster at the API server until its machines
-- are cleaned up.
pub mod Laws
use kubecon.Prelude.{
  String, Bool, true, false, Option, none, some, List, [], ◌∷◌, ◌++◌, ◌==◌, if◌then◌else◌,
}
use kubecon.Api.{Cluster}
use kubecon.Platform.{Platform, ok, err}
use kubecon.World.{M, Address, store, outside}
use kubecon.World.Retry.{retry}
use kubecon.Provisioner.Command.{remove_cluster}

-- containsString
unfoldable pub contains_string : List String → String → Bool
contains_string [] item = false
contains_string (j ∷ slice) item = if j == item then true else contains_string slice item

-- the loop of `finalize` over the finalizers
unfoldable pub without : String → List String → List String
without key [] = []
without key (finalizer ∷ finalizers) =
    let rest = without key finalizers in if finalizer == key then rest else finalizer ∷ rest

-- `metadata.SetFinalizers(finalizers)`
abbrev pub set_finalizers : List String → Cluster → Cluster
set_finalizers l c = record c { metadata = record (c.metadata) { finalizers = l } }

module _ (E : Platform) where
  unfoldable pub initialize : Address → String → M E (Option E.Error)
  initialize p key w =
      let c = w.heap.cell p in
      elim (E.accessor_error c) [
        | some e ↦ (some e, w)
        | none ↦
            if contains_string c.metadata.finalizers key
            then (none, w)
            else let (_, w1) =
                store E p (set_finalizers (c.metadata.finalizers ++ (key ∷ [])) c) w in
              let (_, w2) = outside E (retry 3 (E.clusters.update (w1.heap.cell p)) none) w1 in
              (none, w2)
      ]

  -- finalize, once the object that the API server holds is known to be deleted and to carry the
  -- finalizer
  unfoldable pub clean_up : Address → Cluster → String → M E (Option E.Error)
  clean_up p to_update key w =
      let (e, w1) = remove_cluster E (w.heap.cell p) w in
      elim e [
        | some x ↦ (some x, w1)
        | none ↦
            outside E
              (retry 3
                (E.clusters.update
                  (set_finalizers (without key to_update.metadata.finalizers) to_update))
                none)
              w1
      ]

  unfoldable pub finalize : Address → String → M E (Option E.Error)
  finalize p key w =
      let (r, w1) = outside E (E.clusters.get (w.heap.cell p).metadata.name) w in
      elim r [
        | err e ↦ (if E.is_not_found e then none else some e, w1)
        | ok to_update ↦ elim (E.accessor_error to_update) [
          | some e ↦ (some e, w1)
          | none ↦ elim to_update.metadata.deletion_timestamp [
            | none ↦ (none, w1)
            | some _ ↦
                if contains_string to_update.metadata.finalizers key
                then clean_up p to_update key w1
                else (none, w1)
          ]
        ]
      ]

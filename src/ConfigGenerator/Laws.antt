-- ===== src/ConfigGenerator/Laws.antt =====
-- Theorems on config_generator.go: the Kubeconfig objects that sync leaves at the server.
use kubecon.Prelude.{
  String, ◌≡◌, ◌≢◌, ◌⊎◌, ap, ◌∙◌, true, false, Bool, Option, none, some, arith, Bool-cases, inl,
  inr, if◌then◌else◌, ◌==◌, eq_iff,
}
use kubecon.Api.{Cluster, Kubeconfig, provisioned}
use kubecon.Platform.{Platform, ok, err}
use kubecon.Platform.Laws.{KeepsKubeconfigs, kubeconfig_content}
use kubecon.World.{World, Address}
use kubecon.ConfigGenerator.{
  get_kube_config_path, new_kubeconfig, create_kubeconfig, update_kubeconfig, reconcile, sync,
}

module _ (E : Platform) {view : E.Outside → String → Option Kubeconfig}
    (K : KeepsKubeconfigs E view) (p : Address) (w : World E) where
  abbrev pub cluster_of : Cluster
  cluster_of = w.heap.cell p

  abbrev pub name_of : String
  name_of = cluster_of.metadata.name

  abbrev pub path_of : String
  path_of = get_kube_config_path cluster_of

  -- The guards of `sync`.
  abbrev pub is_due : Bool
  is_due = elim cluster_of.metadata.deletion_timestamp [
    | some _ ↦ false
    | none ↦ E.is_true provisioned cluster_of
  ]

  abbrev pub asked : E.Outside
  asked = (E.kubeconfigs.get name_of w.outside).1

  -- the object that an update sends
  abbrev pub moved : Kubeconfig → Kubeconfig
  moved k = record k { spec = record { config_path = path_of } }

  sync-reconcile : is_due ≡ true → sync E p w ≡ reconcile E cluster_of w
  unfolding sync
  sync-reconcile due = ground arith

  reconcile-missing :
      (e : E.Error)
      → (E.kubeconfigs.get name_of w.outside).0 ≡ err e
      → E.is_not_found e ≡ true
      → (reconcile E cluster_of w).1.outside
        ≡ (E.kubeconfigs.create (new_kubeconfig cluster_of path_of) asked).1
  unfolding reconcile create_kubeconfig
  reconcile-missing e g f = ground arith

  reconcile-failed :
      (e : E.Error)
      → (E.kubeconfigs.get name_of w.outside).0 ≡ err e
      → E.is_not_found e ≡ false
      → (reconcile E cluster_of w).1.outside ≡ asked
  unfolding reconcile
  reconcile-failed e g f = ground arith

  reconcile-same :
      (k : Kubeconfig)
      → (E.kubeconfigs.get name_of w.outside).0 ≡ ok k
      → (k.spec.config_path == path_of) ≡ true
      → (reconcile E cluster_of w).1.outside ≡ asked
  unfolding reconcile
  reconcile-same k g f = ground arith

  reconcile-moved :
      (k : Kubeconfig)
      → (E.kubeconfigs.get name_of w.outside).0 ≡ ok k
      → (k.spec.config_path == path_of) ≡ false
      → (reconcile E cluster_of w).1.outside ≡ (E.kubeconfigs.update (moved k) asked).1
  unfolding reconcile update_kubeconfig
  reconcile-moved k g f = ground arith

  -- The server's objects after a run: under the cluster's name what `wanted` says, the rest as
  -- before.
  abbrev Leaves : Option Kubeconfig → Type 0
  Leaves wanted =
      (n : String)
      → view (sync E p w).1.outside n ≡ (if name_of == n then wanted else view w.outside n)

  abbrev pub Accepts : Type 0
  Accepts =
      (k : Kubeconfig) (o : E.Outside)
      → ((E.kubeconfigs.create k o).0 ≡ none) × ((E.kubeconfigs.update k o).0 ≡ none)

  module _ (due : is_due ≡ true) where
    -- For a provisioned cluster that is not being deleted and has no Kubeconfig, a server that accepts
    -- writes gets one: of the cluster's name, owned by the cluster, for the path that the file's
    -- path gives; its other objects stay.
    pub sync_creates :
        Accepts
        → (e : E.Error) → (E.kubeconfigs.get name_of w.outside).0 ≡ err e
        → E.is_not_found e ≡ true
        → Leaves (some (new_kubeconfig cluster_of path_of))
    unfolding new_kubeconfig
    sync_creates accepts e g f n =
        ap (λ v. view v.1.outside n) (sync-reconcile due)
        ∙ ap (λ o. view o n) (reconcile-missing e g f)
        ∙ K.create_accepted (new_kubeconfig cluster_of path_of) asked (accepts _ asked).0 n
        ∙ ap (λ v. if name_of == n then some (new_kubeconfig cluster_of path_of) else v)
            (K.objects.get_keeps name_of w.outside n)

    -- For a provisioned cluster that is not being deleted, a Kubeconfig for another path than the one
    -- that the file's path gives is moved to that path at a server that accepts writes, its other
    -- fields, but for its version, and the other objects kept.
    pub sync_moves :
        Accepts
        → (k : Kubeconfig) → (E.kubeconfigs.get name_of w.outside).0 ≡ ok k
        → k.spec.config_path ≢ path_of
        → Leaves (some (kubeconfig_content (moved k)))
    sync_moves accepts k g d n = elim (Bool-cases (k.spec.config_path == path_of)) [
      | inl s ↦ absurd (d ((eq_iff _ _).0 s))
      | inr s ↦
          ap (λ v. view v.1.outside n) (sync-reconcile due)
          ∙ ap (λ o. view o n) (reconcile-moved k g s)
          ∙ K.objects.update_accepted (moved k) asked (accepts _ asked).1 n
          ∙ ap (λ m. if m == n then some (kubeconfig_content (moved k)) else view asked n)
              (K.found_name name_of w.outside k g)
          ∙ ap (λ v. if name_of == n then some (kubeconfig_content (moved k)) else v)
              (K.objects.get_keeps name_of w.outside n)
    ]

    -- A Kubeconfig for the right path is left alone, and so are all where `Get` fails otherwise
    -- than by NotFound.
    pub sync_rests :
        ((k : Kubeconfig) × ((E.kubeconfigs.get name_of w.outside).0 ≡ ok k)
            × (k.spec.config_path ≡ path_of))
          ⊎ ((e : E.Error) × ((E.kubeconfigs.get name_of w.outside).0 ≡ err e)
              × (E.is_not_found e ≡ false))
        → (n : String) → view (sync E p w).1.outside n ≡ view w.outside n
    sync_rests (inl (k, g, s)) n =
        ap (λ v. view v.1.outside n) (sync-reconcile due)
        ∙ ap (λ o. view o n) (reconcile-same k g ((eq_iff _ _).1 s))
        ∙ K.objects.get_keeps name_of w.outside n
    sync_rests (inr (e, g, f)) n =
        ap (λ v. view v.1.outside n) (sync-reconcile due)
        ∙ ap (λ o. view o n) (reconcile-failed e g f)
        ∙ K.objects.get_keeps name_of w.outside n

-- ===== src/Client/Fake/Simple.antt =====
-- pkg/client/clientset/versioned/fake/clientset_generated.go and fake_clusterprovisioner_client.go:
-- the clientset for tests, over the object tracker of k8s.io/client-go/testing.
pub mod Laws
use kubecon.Prelude.{String, Option, none, some, List, [], ◌∷◌}
use kubecon.Prelude.Exec.{Exec}
use kubecon.Client.Scheme.{GoType, SchemeLibrary, clientset_scheme}
use kubecon.Client.Result.{OrPanic, value, panics}

-- A `runtime.Object` with its Go type.
pub record TypedObject (O : Type 0) : Type 0 where
  pub type : GoType
  pub object : O

-- What the constructor calls of the testing library.
pub record TestingLibrary {E : Type 0} (S : SchemeLibrary E) : Type 1 where
  pub Object : Type 0
  pub Tracker : Type 0
  pub Fake : Type 0
  pub Reaction : Type 0
  pub WatchReaction : Type 0
  pub new_tracker : S.Scheme → Tracker
  pub add : TypedObject Object → Exec Tracker (Option E)
  pub empty_fake : Fake
  pub object_reaction : Tracker → Reaction
  pub fake_watch : WatchReaction
  pub add_reactor : String → String → Reaction → Fake → Fake
  pub add_watch_reactor : String → WatchReaction → Fake → Fake

-- Clientset: a copy of the Fake, and the Fake that its discovery client has
pub record SimpleClientset {E : Type 0} {S : SchemeLibrary E} (L : TestingLibrary S) : Type 0 where
  pub fake : L.Fake
  pub discovery : L.Fake

module _ {E : Type 0} (S : SchemeLibrary E) (L : TestingLibrary S) where
  -- the `scheme` of fake/register.go, whose code is that of the clientset's
  abbrev pub fake_scheme : S.Scheme
  fake_scheme = clientset_scheme S

  -- the loop over the objects; it panics with the first error
  unfoldable pub add_all : List (TypedObject L.Object) → L.Tracker → OrPanic E L.Tracker
  add_all [] o = value o
  add_all (obj ∷ objects) o =
      let rest = add_all objects in
      let (err, o') = L.add obj o in elim err [ some e ↦ panics e | none ↦ rest o' ]

  -- NewSimpleClientset
  unfoldable pub new_simple_clientset : List (TypedObject L.Object) → OrPanic E (SimpleClientset L)
  new_simple_clientset objects = elim (add_all objects (L.new_tracker fake_scheme)) [
    | panics e ↦ panics e
    | value o ↦
        let reacting = L.add_reactor "*" "*" (L.object_reaction o) L.empty_fake in
        let fake_ptr = L.add_watch_reactor "*" L.fake_watch reacting in
        value (record { fake = fake_ptr; discovery = fake_ptr })
  ]

  -- the getters, to the Fake that each wraps
  abbrev fake_discovery : SimpleClientset L → L.Fake
  fake_discovery c = c.discovery

  abbrev fake_clusterprovisioner_v1alpha1 : SimpleClientset L → L.Fake
  fake_clusterprovisioner_v1alpha1 c = c.fake

  abbrev fake_clusterprovisioner : SimpleClientset L → L.Fake
  fake_clusterprovisioner c = c.fake

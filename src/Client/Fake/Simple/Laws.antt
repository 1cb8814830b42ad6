-- ===== src/Client/Fake/Simple/Laws.antt =====
-- NewSimpleClientset of clientset_generated.go, with the scheme of register.go.
use mathlib.Core.List.Memᴰ.{Memᴰ, head, tail}
use kubecon.Prelude.{
  ◌≡◌, ◌≢◌, refl, ◌∙◌, ap, sym, Bool, true, false, none, List, [], ◌∷◌, Option-cases, inl, inr,
  arith,
}
use kubecon.Client.Result.{panics}
use kubecon.Client.Clientset.{GroupVersion}
use kubecon.Client.Scheme.{
  GoType, cluster_list_type, kubeconfig_type, kubeconfig_list_type, SchemeLibrary, clientset_scheme,
}
use kubecon.Client.Scheme.Laws.{IsScheme, same_type, knows-clientset_scheme}
use kubecon.Client.Fake.Simple.{TypedObject, TestingLibrary, add_all, new_simple_clientset}

-- `meta.IsListType`
abbrev pub is_list_type : GoType → Bool
is_list_type cluster_list_type = true
is_list_type kubeconfig_list_type = true
is_list_type _ = false

module _ {E : Type 0} (S : SchemeLibrary E) (L : TestingLibrary S) where
  -- A tracker keeps the scheme that it was made with, and refuses an object whose type the scheme knows in
  -- no version, where it is no list: a list it takes apart.
  pub record ChecksTypes (knows : S.Scheme → GroupVersion → GoType → Bool)
      (scheme_of : L.Tracker → S.Scheme) : Type 0 where
    pub scheme_given : (s : S.Scheme) → scheme_of (L.new_tracker s) ≡ s
    pub scheme_kept :
        (x : TypedObject L.Object) (o : L.Tracker) → scheme_of (L.add x o).1 ≡ scheme_of o
    pub unknown_refused :
        (x : TypedObject L.Object) (o : L.Tracker)
        → is_list_type x.type ≡ false
        → ((g : GroupVersion) → knows (scheme_of o) g x.type ≡ false)
        → (L.add x o).0 ≢ none

  module _ {knows : S.Scheme → GroupVersion → GoType → Bool} (I : IsScheme S knows)
      {scheme_of : L.Tracker → S.Scheme} (C : ChecksTypes knows scheme_of) where
    kubeconfig_unknown : (g : GroupVersion) → knows (clientset_scheme S) g kubeconfig_type ≡ false
    unfolding same_type
    kubeconfig_unknown g = knows-clientset_scheme S I g kubeconfig_type ∙ ground arith

    kubeconfig_refused :
        (x : TypedObject L.Object) (o : L.Tracker)
        → x.type ≡ kubeconfig_type
        → scheme_of o ≡ clientset_scheme S
        → (L.add x o).0 ≢ none
    kubeconfig_refused x o k s = C.unknown_refused x o (ap is_list_type k) (λ g.
        ap (λ t. knows (scheme_of o) g t) k
        ∙ ap (λ c. knows c g kubeconfig_type) s
        ∙ kubeconfig_unknown g)

    add_all-panics :
        (objects : List (TypedObject L.Object)) (x : TypedObject L.Object) (o : L.Tracker)
        → Memᴰ x objects
        → x.type ≡ kubeconfig_type
        → scheme_of o ≡ clientset_scheme S
        → (e : E) × (add_all S L objects o ≡ panics e)
    unfolding add_all
    add_all-panics [] x o m k s = elim m [ ]
    add_all-panics (y ∷ objects) x o (head e) k s = elim (Option-cases (L.add y o).0) [
      | inr (err, h) ↦ (err, rw (h, add_all) refl)
      | inl h ↦
          absurd
            (kubeconfig_refused y o (sym (ap (λ (z : TypedObject L.Object). z.type) e) ∙ k) s h)
    ]
    add_all-panics (y ∷ objects) x o (tail m) k s = elim (Option-cases (L.add y o).0) [
      | inr (err, h) ↦ (err, rw (h, add_all) refl)
      | inl h ↦
          let (err, later) = add_all-panics objects x (L.add y o).1 m k (C.scheme_kept y o ∙ s) in
          (err, rw (h, add_all) later)
    ]

    -- Over a tracker that refuses an object whose type its scheme does not know, unless it is a list,
    -- NewSimpleClientset panics where one of its objects is a Kubeconfig, wherever it stands among them:
    -- the scheme does not know the type.
    pub new_simple_clientset-panics :
        (objects : List (TypedObject L.Object)) (x : TypedObject L.Object)
        → Memᴰ x objects
        → x.type ≡ kubeconfig_type
        → (e : E) × (new_simple_clientset S L objects ≡ panics e)
    unfolding new_simple_clientset
    new_simple_clientset-panics objects x m k =
        let (e, h) =
          add_all-panics objects x (L.new_tracker (clientset_scheme S)) m k
            (C.scheme_given (clientset_scheme S)) in
        (e, rw (h, new_simple_clientset) refl)

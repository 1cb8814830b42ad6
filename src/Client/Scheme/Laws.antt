-- ===== src/Client/Scheme/Laws.antt =====
-- What the clientset's scheme knows.
use kubecon.Prelude.{
  ◌≡◌, refl, ap, ◌∙◌, Bool, true, false, none, some, Option-cases, inl, inr, ◌&&◌, ◌||◌, Option,
  List, [], ◌∷◌, ◌==◌, arith,
}
use kubecon.Prelude.Exec.{Exec}
use kubecon.Client.Clientset.{GroupVersion, scheme_group_version}
use kubecon.Client.Scheme.{
  GoType, cluster_type, cluster_list_type, cluster_condition_type, cluster_spec_type,
  cluster_status_type, kubeconfig_type, kubeconfig_list_type, kubeconfig_spec_type, DeepCopyFunc,
  SchemeLibrary, add_known_types, register_deep_copies, scheme_builder, add_to_scheme,
  clientset_scheme,
}

unfoldable pub same_type : GoType → GoType → Bool
same_type cluster_type cluster_type = true
same_type cluster_list_type cluster_list_type = true
same_type cluster_condition_type cluster_condition_type = true
same_type cluster_spec_type cluster_spec_type = true
same_type cluster_status_type cluster_status_type = true
same_type kubeconfig_type kubeconfig_type = true
same_type kubeconfig_list_type kubeconfig_list_type = true
same_type kubeconfig_spec_type kubeconfig_spec_type = true
same_type _ _ = false

abbrev pub same_version : GroupVersion → GroupVersion → Bool
same_version g h = (g.group == h.group) && (g.version == h.version)

abbrev pub among : GoType → List GoType → Bool
among t [] = false
among t (u ∷ l) = same_type t u || among t l

-- A scheme by the types that it recognizes: AddKnownTypes adds those that it is given, metav1 and
-- the deep-copy functions add none of the program's, and a builder runs its functions in order, up
-- to the first that fails.
pub record IsScheme {E : Type 0} (S : SchemeLibrary E)
    (knows : S.Scheme → GroupVersion → GoType → Bool) : Type 0 where
  pub knows_none : (g : GroupVersion) (t : GoType) → knows S.new_scheme g t ≡ false
  pub known_added :
      (g h : GroupVersion) (l : List GoType) (s : S.Scheme) (t : GoType)
      → knows (S.scheme_add_known_types h l s) g t
        ≡ ((same_version g h && among t l) || knows s g t)
  pub version_added :
      (g h : GroupVersion) (s : S.Scheme) (t : GoType)
      → knows (S.add_to_group_version h s) g t ≡ knows s g t
  pub copies_added :
      (g : GroupVersion) (l : List DeepCopyFunc) (s : S.Scheme) (t : GoType)
      → knows (S.add_generated_deep_copies l s).1 g t ≡ knows s g t
  pub builder_empty : (s : S.Scheme) → S.builder_adds [] s ≡ (none, s)
  pub builder_runs :
      (f : Exec S.Scheme (Option E)) (l : List (Exec S.Scheme (Option E))) (s : S.Scheme)
      → S.builder_adds (f ∷ l) s
        ≡ (let (e, s') = f s in elim e [ some x ↦ (some x, s') | none ↦ S.builder_adds l s' ])

abbrev pub is_cluster_type : GoType → Bool
is_cluster_type t = among t (cluster_type ∷ cluster_list_type ∷ [])

module _ {E : Type 0} (S : SchemeLibrary E) {knows : S.Scheme → GroupVersion → GoType → Bool}
    (I : IsScheme S knows) where
  -- an error of the last function leaves the scheme that the function leaves
  built :
      (s : S.Scheme)
      → (S.builder_adds (scheme_builder S) s).1 ≡ (register_deep_copies S (add_known_types S s).1).1
  unfolding add_known_types
  built s =
      ap (λ r. r.1) (I.builder_runs (add_known_types S) (register_deep_copies S ∷ []) s)
      ∙ ap (λ r. r.1) (I.builder_runs (register_deep_copies S) [] (add_known_types S s).1)
      ∙ (let s1 = (add_known_types S s).1 in
          elim (Option-cases (register_deep_copies S s1).0) [
            | inl h ↦ rw h (ap (λ r. r.1) (I.builder_empty (register_deep_copies S s1).1))
            | inr (e, h) ↦ rw h refl
          ])

  knows-add_to_scheme :
      (s : S.Scheme) (g : GroupVersion) (t : GoType)
      → knows (add_to_scheme S s) g t
        ≡ ((same_version g scheme_group_version && is_cluster_type t) || knows s g t)
  unfolding add_to_scheme add_known_types register_deep_copies
  knows-add_to_scheme s g t =
      ap (λ r. knows r g t) (built s)
      ∙ I.copies_added g _ (add_known_types S s).1 t
      ∙ I.version_added g scheme_group_version _ t
      ∙ I.known_added g scheme_group_version _ s t

  -- The clientset's scheme knows the types Cluster and ClusterList of v1alpha1, and neither
  -- Kubeconfig nor KubeconfigList.
  pub knows-clientset_scheme :
      (g : GroupVersion) (t : GoType)
      → knows (clientset_scheme S) g t ≡ (same_version g scheme_group_version && is_cluster_type t)
  unfolding clientset_scheme
  knows-clientset_scheme g t =
      let v1 : GroupVersion = record { group = ""; version = "v1" } in
      knows-add_to_scheme (S.add_to_group_version v1 S.new_scheme) g t
      ∙ rw (I.version_added g v1 S.new_scheme t) (rw (I.knows_none g t) (ground arith))

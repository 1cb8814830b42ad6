-- ===== src/Client/Scheme.antt =====
-- pkg/apis/clusterprovisioner/v1alpha1/register.go and RegisterDeepCopies of its
-- zz_generated.deepcopy.go, with the clientset's scheme/register.go and fake/register.go, which are
-- the same code: the Go types that a scheme knows.
pub mod Laws
use kubecon.Prelude.{String, Bool, Option, none, List, [], ◌∷◌, ◌==◌}
use kubecon.Prelude.Exec.{Exec}
use kubecon.Api.{group_name}
use kubecon.Client.Clientset.{GroupVersion, scheme_group_version}

-- The Go types of types.go that can be registered.
pub data GoType : Type 0 where
  cluster_type cluster_list_type cluster_condition_type cluster_spec_type : GoType
  cluster_status_type kubeconfig_type kubeconfig_list_type kubeconfig_spec_type : GoType

-- GeneratedDeepCopyFunc: a type, and the type whose DeepCopyInto the function calls.
pub record DeepCopyFunc : Type 0 where
  pub fn : GoType
  pub in_type : GoType

-- What the registration calls of the runtime library and of metav1.
pub record SchemeLibrary (E : Type 0) : Type 1 where
  pub Scheme : Type 0
  pub new_scheme : Scheme
  pub scheme_add_known_types : GroupVersion → List GoType → Scheme → Scheme
  pub add_to_group_version : GroupVersion → Scheme → Scheme
  pub add_generated_deep_copies : List DeepCopyFunc → Exec Scheme (Option E)
  pub builder_adds : List (Exec Scheme (Option E)) → Exec Scheme (Option E)

pub record GroupResource : Type 0 where
  pub group : String
  pub resource : String

-- Resource
abbrev resource : String → GroupResource
resource r = record { group = group_name; resource = r }

module _ {E : Type 0} (S : SchemeLibrary E) where
  -- addKnownTypes
  unfoldable pub add_known_types : Exec S.Scheme (Option E)
  add_known_types scheme =
      let known =
        S.scheme_add_known_types scheme_group_version (cluster_type ∷ cluster_list_type ∷ [])
          scheme in
      (none, S.add_to_group_version scheme_group_version known)

  abbrev deep_copy_of : GoType → DeepCopyFunc
  deep_copy_of t = record { fn = t; in_type = t }

  -- RegisterDeepCopies
  unfoldable pub register_deep_copies : Exec S.Scheme (Option E)
  register_deep_copies = S.add_generated_deep_copies (
      deep_copy_of cluster_type
      ∷ deep_copy_of cluster_condition_type
      ∷ deep_copy_of cluster_list_type
      ∷ deep_copy_of cluster_spec_type
      ∷ deep_copy_of cluster_status_type
      ∷ deep_copy_of kubeconfig_type
      ∷ deep_copy_of kubeconfig_list_type
      ∷ deep_copy_of kubeconfig_spec_type
      ∷ [])

  -- SchemeBuilder, once the `init` of the generated file has run; AddToScheme of v1alpha1 runs it
  abbrev scheme_builder : List (Exec S.Scheme (Option E))
  scheme_builder = add_known_types ∷ register_deep_copies ∷ []

  -- AddToScheme of the clientset, which drops the error
  unfoldable pub add_to_scheme : S.Scheme → S.Scheme
  add_to_scheme scheme = (S.builder_adds scheme_builder scheme).1

  -- Scheme, once `init` has run
  unfoldable pub clientset_scheme : S.Scheme
  clientset_scheme =
      add_to_scheme (S.add_to_group_version (record { group = ""; version = "v1" }) S.new_scheme)

-- ===== src/ConfigGenerator/FilePath.antt =====
-- config_generator.go, getKubeConfigPath: where `rke` leaves the kubeconfig of a cluster file.
-- `strings.Split` and `strings.TrimSuffix` are those of the Go library.
pub mod Laws
use Prim.Native.Char.{Char, code}
use Prim.Native.Nat.{compare, Ordering}
use kubecon.Prelude.{String, ◌<>◌, Bool, true, false, List, [], ◌∷◌, ◌==◌, if◌then◌else◌}

abbrev pub is_slash : Char → Bool
is_slash c = elim (compare (code c) 47) [ Ordering.eq ↦ true | _ ↦ false ]

-- `strings.Split(s, "/")`, which is never empty: its first part, and the others.
unfoldable pub split : String → String × List String
split String.[] = (String.[], [])
split (String.◌∷◌ c s) =
    let (first, rest) = split s in
    if is_slash c then (String.[], first ∷ rest) else (String.◌∷◌ c first, rest)

-- `splitted[len(splitted)-1]`
unfoldable pub last_of : String → List String → String
last_of first [] = first
last_of first (x ∷ rest) = last_of x rest

-- `strings.TrimSuffix(s, suffix)`
unfoldable pub trim_suffix : String → String → String
trim_suffix String.[] suffix = String.[]
trim_suffix (String.◌∷◌ c s) suffix =
    if String.◌∷◌ c s == suffix then String.[] else String.◌∷◌ c (trim_suffix s suffix)

unfoldable pub kube_config_path : String → String
unfolding split last_of trim_suffix
kube_config_path cluster_config_path =
    let (first, rest) = split cluster_config_path in
    let file_name = last_of first rest in
    trim_suffix cluster_config_path file_name <> "/kube_config_" <> file_name

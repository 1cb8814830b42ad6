-- ===== src/ConfigGenerator/FilePath/Laws.antt =====
-- The path that `kube_config_path` builds, for a path with a directory and for a bare name.
use Prim.Native.Char.{Char}
use text.Mathlib.TextLemmas.{
  nil-append, cons-append, append_assoc, append_cancel_right, cons-ne-nil,
}
use text.Mathlib.TextPositions.{eq_refl}
use kubecon.Prelude.{
  String, ◌<>◌, ◌≡◌, refl, false, [], ◌==◌, ◌||◌, arith, eq_iff, Bool, Bool-cases, inl, inr, ap,
  sym, ◌∙◌,
}
use kubecon.ConfigGenerator.FilePath.{is_slash, split, last_of, trim_suffix, kube_config_path}

-- Whether a name contains a slash.
abbrev has_slash : String → Bool
has_slash String.[] = false
has_slash (String.◌∷◌ c s) = is_slash c || has_slash s

split-bare : (file : String) → has_slash file ≡ false → split file ≡ (file, [])
unfolding split
split-bare String.[] h = refl
split-bare (String.◌∷◌ c s) h = ground (arith, split-bare s)

-- `"/" <> file`, with its first character in view
slash_append : (file : String) → "/" <> file ≡ String.◌∷◌ "/" file
slash_append file = cons-append "/" "" file ∙ ap (String.◌∷◌ "/") (nil-append file)

last_of-split :
    (dir file first : String)
    → has_slash file ≡ false
    → last_of first (split (dir <> ("/" <> file))).1 ≡ file
unfolding split last_of
last_of-split String.[] file first h = rw (nil-append, slash_append) (rw (split-bare file h))
last_of-split (String.◌∷◌ c dir) file first h = rw cons-append (
    ground (
      arith,
      last_of-split dir file first h,
      last_of-split dir file (split (dir <> ("/" <> file))).0 h,
    ))

trim_suffix_self : (file : String) → trim_suffix file file ≡ ""
unfolding trim_suffix
trim_suffix_self String.[] = refl
trim_suffix_self (String.◌∷◌ c s) = rw eq_refl

-- a text is not a longer one that ends in it
longer-ne : (c : Char) (dir file : String) → (String.◌∷◌ c (dir <> file) == file) ≡ false
longer-ne c dir file = elim (Bool-cases (String.◌∷◌ c (dir <> file) == file)) [
  | inl e ↦ absurd (
      cons-ne-nil c dir (
        append_cancel_right (String.◌∷◌ c dir) "" file (
          cons-append c dir file
          ∙ (eq_iff (String.◌∷◌ c (dir <> file)) file).0 e
          ∙ sym (nil-append file))))
  | inr e ↦ e
]

trim_suffix-append : (dir file : String) → trim_suffix (dir <> file) file ≡ dir
unfolding trim_suffix
trim_suffix-append String.[] file = rw nil-append (trim_suffix_self file)
trim_suffix-append (String.◌∷◌ c dir) file =
    rw cons-append (rw longer-ne (ap (String.◌∷◌ c) (trim_suffix-append dir file)))

kube_config_path-directory :
    (dir file : String)
    → has_slash file ≡ false
    → kube_config_path (dir <> ("/" <> file)) ≡ (dir <> "/") <> "/kube_config_" <> file
unfolding kube_config_path
kube_config_path-directory dir file h =
    rw (last_of-split dir file (split (dir <> ("/" <> file))).0 h)
      (rw (← append_assoc dir "/" file) (rw (trim_suffix-append (dir <> "/") file)))

kube_config_path-bare :
    (file : String) → has_slash file ≡ false → kube_config_path file ≡ "/kube_config_" <> file
unfolding kube_config_path
kube_config_path-bare file h =
    rw (split-bare file h) (unfold last_of in rw trim_suffix_self (rw nil-append))

-- For a file in a directory the kubeconfig is in that directory, behind two slashes; for a bare file
-- name it is in the root directory.
pub kube_config_path-file :
    (dir file : String)
    → has_slash file ≡ false
    → (kube_config_path (dir <> ("/" <> file)) ≡ (dir <> "/") <> "/kube_config_" <> file)
      × (kube_config_path file ≡ "/kube_config_" <> file)
kube_config_path-file dir file h =
    (kube_config_path-directory dir file h, kube_config_path-bare file h)

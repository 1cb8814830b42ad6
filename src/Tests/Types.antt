-- ===== src/Tests/Types.antt =====
-- Schemes and trackers of objects, on which the theorems on the clientset for tests are tried.
use kubecon.Prelude.Exec.{Exec}
use kubecon.Prelude.{
  Option, some, String, Bool, none, List, [], ◌∷◌, if◌then◌else◌, arith, ◌≡◌, refl, inr, false,
  ◌++◌, ◌&&◌, ◌||◌, Bool-cases, inl,
}
use mathlib.Core.Option.{some-ne-none}
use text.Mathlib.TextPositions.{eq_refl}
use kubecon.Client.Clientset.{GroupVersion}
use kubecon.Client.Scheme.{GoType, cluster_type, kubeconfig_type, SchemeLibrary}
use kubecon.Client.Scheme.Laws.{IsScheme, same_type, same_version, among}
use kubecon.Client.Fake.Simple.{TestingLibrary, TypedObject}
use kubecon.Client.Fake.Simple.Laws.{ChecksTypes, is_list_type}

-- A scheme as the list of the types that it knows.
abbrev Known : Type 0
Known = List (GroupVersion × GoType)

abbrev versioned : GroupVersion → List GoType → Known
versioned g [] = []
versioned g (t ∷ l) = (g, t) ∷ versioned g l

abbrev pub knows : Known → GroupVersion → GoType → Bool
knows [] g t = false
knows ((h, u) ∷ l) g t = (same_version g h && same_type t u) || knows l g t

abbrev run_all : List (Exec Known (Option String)) → Exec Known (Option String)
run_all [] s = (none, s)
run_all (f ∷ l) s =
    let rest = run_all l in let (e, s') = f s in elim e [ some x ↦ (some x, s') | none ↦ rest s' ]

abbrev pub types : SchemeLibrary String
types = record {
  Scheme = Known;
  new_scheme = [];
  scheme_add_known_types = λ g l s. versioned g l ++ s;
  add_to_group_version = λ g s. s;
  add_generated_deep_copies = λ l s. (none, s);
  builder_adds = run_all;
}

knows-versioned :
    (g h : GroupVersion) (l : List GoType) (s : Known) (t : GoType)
    → knows (versioned h l ++ s) g t ≡ ((same_version g h && among t l) || knows s g t)
knows-versioned g h [] s t = ground arith
knows-versioned g h (u ∷ l) s t = ground (arith, knows-versioned g h l s t)

pub types-IsScheme : IsScheme types knows
types-IsScheme = record {
  knows_none = λ g t. refl;
  known_added = knows-versioned;
  version_added = λ g h s t. refl;
  copies_added = λ g l s t. refl;
  builder_empty = λ s. refl;
  builder_runs = λ f l s. refl;
}

abbrev knows_some : Known → GoType → Bool
knows_some [] t = false
knows_some ((h, u) ∷ l) t = same_type t u || knows_some l t

-- A tracker as its scheme with the names of the objects that were added.
abbrev pub testing : TestingLibrary types
testing = record {
  Object = String;
  Tracker = Known × List String;
  Fake = List String;
  Reaction = List String;
  WatchReaction = String;
  new_tracker = λ s. (s, []);
  add = λ x o.
      if is_list_type x.type || knows_some o.0 x.type
      then (none, (o.0, x.object ∷ o.1))
      else (some "no kind is registered for the type", o);
  empty_fake = [];
  object_reaction = λ o. o.1;
  fake_watch = "watch";
  add_reactor = λ verb resource r f. r ++ f;
  add_watch_reactor = λ resource r f. f;
}

knows_some-known :
    (l : Known) (t : GoType) → ((g : GroupVersion) → knows l g t ≡ false) → knows_some l t ≡ false
knows_some-known [] t h = refl
knows_some-known ((g, u) ∷ l) t h = elim (Bool-cases (same_type t u)) [
  | inl e ↦ absurd (ground (arith, h g, eq_refl g.group, eq_refl g.version))
  | inr e ↦ rw e (knows_some-known l t (λ k. ground (arith, h k)))
]

pub testing-ChecksTypes : ChecksTypes types testing knows (λ o. o.0)
testing-ChecksTypes = record {
  scheme_given = λ s. refl;
  scheme_kept = λ x o. ground arith;
  unknown_refused =
      λ x o l h e. let never = knows_some-known o.0 x.type h in some-ne-none _ (rw (l, never) at e);
}

abbrev pub a_kubeconfig : TypedObject String
a_kubeconfig = record { type = kubeconfig_type; object = "kubeconfig of east" }

abbrev pub objects : List (TypedObject String)
objects = record { type = cluster_type; object = "east" } ∷ a_kubeconfig ∷ []

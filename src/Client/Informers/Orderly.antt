-- ===== src/Client/Informers/Orderly.antt =====
-- An invariant of the factory of factory.go, over the events that it has emitted.
use mathlib.Core.Path.{subst}
use mathlib.Core.Option.{some-ne-none}
use kubecon.Prelude.{
  same_address-eq, ℕ, suc, ◌+◌, ◌≤◌, ◌<◌, ◌≡◌, refl, ap, sym, ◌∙◌, Bool, true, false, Option, none,
  some, List, [], ◌∷◌, ◌++◌, arith, Bool-cases, inl, inr, ◌⊎◌, same_address,
}
use kubecon.Client.Informers.{
  Kind, same_kind, Informer, create, go_run, Factory, new_factory, find, is_started,
}
use kubecon.Client.Informers.Laws.{same_kind-eq, same_kind_self}
use kubecon.Client.Informers.Requests.{creations, creations-append, runs, runs-append}

abbrev pub once_if : Bool → ℕ
once_if true = 1
once_if false = 0

abbrev pub present : Option Informer → Bool
present none = false
present (some _) = true

-- The informers of a list are those that its types have in the map.
abbrev pub Entries : List (Kind × Informer) → List (Kind × Informer) → Type 0
Entries [] all = Unit
Entries ((k, i) ∷ l) all = (find k all ≡ some i) × Entries l all

-- Each type has at most one informer, its own, which has been created once, and has been run
-- once where it counts as started and never where it does not.
pub record Orderly (f : Factory) : Type 0 where
  pub entries : Entries f.informers f.informers
  pub created : (k : Kind) → creations k f.events ≡ once_if (present (find k f.informers))
  pub ran :
      (k : Kind) (i : Informer)
      → find k f.informers ≡ some i
      → runs i f.events ≡ once_if (is_started k f.started)
  pub fresh : (i : Informer) → f.next ≤ i → runs i f.events ≡ 0
  pub below : (k : Kind) (i : Informer) → find k f.informers ≡ some i → i < f.next
  pub apart :
      (j k : Kind) (i : Informer)
      → find j f.informers ≡ some i
      → find k f.informers ≡ some i
      → j ≡ k
  pub idle : (k : Kind) → find k f.informers ≡ none → is_started k f.started ≡ false

pub Orderly-new : (resync : ℕ) → Orderly (new_factory resync)
unfolding new_factory find is_started
Orderly-new resync = record {
  entries = tt;
  created = λ k. refl;
  ran = λ k i h. absurd (some-ne-none i (sym h));
  fresh = λ i h. refl;
  below = λ k i h. absurd (some-ne-none i (sym h));
  apart = λ j k i h g. absurd (some-ne-none i (sym h));
  idle = λ k h. refl;
}

find_other :
    (j k : Kind) (i n : Informer) (l : List (Kind × Informer))
    → find j l ≡ none
    → find k l ≡ some i
    → find k ((j, n) ∷ l) ≡ some i
unfolding find
find_other j k i n l h g = elim (Bool-cases (same_kind j k)) [
  | inl e ↦ absurd (some-ne-none i (sym g ∙ ap (λ x. find x l) (sym (same_kind-eq j k e)) ∙ h))
  | inr e ↦ rw e g
]

Entries-grow :
    (j : Kind) (n : Informer) (l all : List (Kind × Informer))
    → find j all ≡ none
    → Entries l all
    → Entries l ((j, n) ∷ all)
Entries-grow j n [] all h e = tt
Entries-grow j n ((k, i) ∷ l) all h (e, es) =
    (find_other j k i n all h e, Entries-grow j n l all h es)

module _ (k : Kind) (f : Factory) (O : Orderly f) (h : find k f.informers ≡ none) where
  abbrev added : Factory
  added = record f {
    informers = (k, f.next) ∷ f.informers;
    next = suc f.next;
    events = f.events ++ (create k f.default_resync f.next ∷ []);
  }

  -- what the map holds for a type once it holds the new informer
  found :
      (j : Kind) (i : Informer)
      → find j added.informers ≡ some i
      → ((j ≡ k) × (i ≡ f.next)) ⊎ (find j f.informers ≡ some i)
  unfolding find
  found j i g = elim (Bool-cases (same_kind k j)) [
    | inl e ↦ inl (sym (same_kind-eq k j e), ground arith)
    | inr e ↦ inr (ground arith)
  ]

  runs-added : (i : Informer) → runs i added.events ≡ runs i f.events
  runs-added i = runs-append i f.events _ ∙ omega arith

  creations-added :
      (j : Kind) → creations j added.events ≡ once_if (present (find j added.informers))
  unfolding find
  creations-added j =
      let count = creations-append j f.events (create k f.default_resync f.next ∷ []) in
      let before = O.created j in
      elim (Bool-cases (same_kind k j)) [
        | inl e ↦
            let none_before = ap (λ x. find x f.informers) (sym (same_kind-eq k j e)) ∙ h in
            ground arith
        | inr e ↦ ground arith
      ]

  apart-added :
      (j l : Kind) (i : Informer)
      → find j added.informers ≡ some i
      → find l added.informers ≡ some i
      → j ≡ l
  apart-added j l i g d = elim (found j i g) [
    | inl (a, x) ↦ elim (found l i d) [
      | inl (b, y) ↦ a ∙ sym b
      | inr b ↦ absurd (let lt = O.below l i b in omega arith)
    ]
    | inr a ↦ elim (found l i d) [
      | inl (b, y) ↦ absurd (let lt = O.below j i a in omega arith)
      | inr b ↦ O.apart j l i a b
    ]
  ]

  pub Orderly-added : Orderly added
  unfolding find
  Orderly-added = record {
    entries =
        (rw (same_kind_self k) refl, Entries-grow k f.next f.informers f.informers h O.entries);
    created = creations-added;
    ran = λ j i g. runs-added i ∙ elim (found j i g) [
      | inl (a, x) ↦
          rw a (rw (O.idle k h) (ap (λ n. runs n f.events) x ∙ O.fresh f.next (omega arith)))
      | inr a ↦ O.ran j i a
    ];
    fresh = λ i le. runs-added i ∙ O.fresh i (omega arith);
    below = λ j i g. elim (found j i g) [
      | inl (a, x) ↦ omega arith
      | inr a ↦ let lt = O.below j i a in omega arith
    ];
    apart = apart-added;
    idle = λ j g. O.idle j (ground arith);
  }

module _ (k : Kind) (i : Informer) (f : Factory) (O : Orderly f) (h : find k f.informers ≡ some i)
    (d : is_started k f.started ≡ false) where
  abbrev running : Factory
  running = record f { started = k ∷ f.started; events = f.events ++ (go_run i ∷ []) }

  runs-running :
      (j : Informer) → runs j running.events ≡ runs j f.events + once_if (same_address i j)
  runs-running j = runs-append j f.events _ ∙ ground arith

  ran-running :
      (j : Kind) (n : Informer)
      → find j f.informers ≡ some n
      → runs n running.events ≡ once_if (is_started j running.started)
  unfolding is_started
  ran-running j n g = elim (Bool-cases (same_address i n)) [
    | inl e ↦
        let same = O.apart k j n (h ∙ ap some (same_address-eq i n e)) g in
        let before = O.ran j n g in
        let unstarted = ap (λ x. is_started x f.started) (sym same) ∙ d in
        let itself = subst (λ x. same_kind k x ≡ true) same (same_kind_self k) in
        runs-running n ∙ rw (e, before) (rw (unstarted, itself) refl)
    | inr e ↦ elim (Bool-cases (same_kind k j)) [
      | inl s ↦
          absurd (let other = ap (λ x. find x f.informers) (same_kind-eq k j s) ∙ g in ground arith)
      | inr s ↦ runs-running n ∙ rw (e, s) (let r = O.ran j n g in omega arith)
    ]
  ]

  pub Orderly-running : Orderly running
  unfolding is_started
  Orderly-running = record {
    entries = O.entries;
    created = λ j. creations-append j f.events _ ∙ (let c = O.created j in omega arith);
    ran = ran-running;
    fresh =
        λ n le. runs-running n ∙ (let z = O.fresh n le in let lt = O.below k i h in ground arith);
    below = O.below;
    apart = O.apart;
    idle = λ j g. elim (Bool-cases (same_kind k j)) [
      | inl s ↦
          absurd (some-ne-none i (sym h ∙ ap (λ x. find x f.informers) (same_kind-eq k j s) ∙ g))
      | inr s ↦ rw s (O.idle j g)
    ];
  }

-- ===== src/Client/Fake/Laws.antt =====
-- The listing of the fake clients against the library's filter.
use mathlib.Core.Bool.{Bool-discrete}
use mathlib.Core.List.{filter}
use kubecon.Prelude.{
  ◌≡◌, refl, ap, ◌∙◌, true, Option, none, some, List, [], ◌∷◌, arith, String, sym, ◌⊎◌, inl, inr,
  Option-cases, ◌==◌, if◌then◌else◌,
}
use mathlib.Core.Option
use mathlib.Core.Option.{some-ne-none}
use kubecon.Client.Result.{ok}
use kubecon.Client.Objects.{KeepsObjects}
use kubecon.Client.Fake.{
  get_action, update_action, Object, single, other, as_single, answer_of, failed, fake_resource,
  update, get, FakeLibrary, FakeResource, ListLabel, invalid, unset, label, returned, several,
  list_action, selected, select_items, list,
}

module _ {E A : Type 0} (F : FakeLibrary E A) (R : FakeResource A) where
  -- The selector that a listing goes by: everything where none is given.
  abbrev chosen : ListLabel F.Selector → Option F.Selector
  chosen invalid = none
  chosen unset = some F.everything
  chosen (label s) = some s

  selected-eq-filter :
      (s : F.Selector) (l : List A)
      → selected F R s l ≡ filter (λ a. Bool-discrete (F.matches s (R.labels a)) true) l
  unfolding selected
  selected-eq-filter s [] = refl
  selected-eq-filter s (a ∷ l) = ground (arith, selected-eq-filter s l)

  list-selected :
      (opts : F.Options) (s : F.Selector) (f : F.Fake) (items : List A) (e : Option E)
      → (F.invokes (list_action R.resource R.kind opts) (several []) f).0
        ≡ (some (several items), e)
      → chosen (F.label_of opts) ≡ some s
      → (list F R opts f).0 ≡ returned (some (selected F R s items)) e
  unfolding list select_items
  list-selected opts s f items e i c = ground arith

  -- Where the tracker answers with a list, the client returns those of its items that match the
  -- options' selector, or everything where they have none, in order, and the tracker's error.
  list-eq-filter :
      (opts : F.Options) (s : F.Selector) (f : F.Fake) (items : List A) (e : Option E)
      → (F.invokes (list_action R.resource R.kind opts) (several []) f).0
        ≡ (some (several items), e)
      → chosen (F.label_of opts) ≡ some s
      → (list F R opts f).0
        ≡ returned (some (filter (λ a. Bool-discrete (F.matches s (R.labels a)) true) items)) e
  list-eq-filter opts s f items e i c =
      list-selected opts s f items e i c
      ∙ ap (λ l. returned (some l) e) (selected-eq-filter s items)

-- The object tracker of the testing library, behind its reaction to actions: an update that returns
-- no error stores its object and answers with it, one that returns an error stores nothing and answers
-- with no object; a get that answers with such an object and no error
-- tells what is stored, and changes nothing.
pub record TracksObjects {E A : Type 0} (F : FakeLibrary E A) (R : FakeResource A)
    (name : A → String) (view : F.Fake → String → Option A) : Type 0 where
  pub update_stored :
      (a : A) (f : F.Fake)
      → (F.invokes (update_action R.resource a) (single R.zero) f).0.1 ≡ none
      → (n : String)
      → view (F.invokes (update_action R.resource a) (single R.zero) f).1 n
        ≡ (if name a == n then some a else view f n)
  pub update_failed :
      (a : A) (f : F.Fake) (e : E)
      → (F.invokes (update_action R.resource a) (single R.zero) f).0.1 ≡ some e
      → (n : String)
      → view (F.invokes (update_action R.resource a) (single R.zero) f).1 n ≡ view f n
  pub update_returns :
      (a : A) (f : F.Fake)
      → ((F.invokes (update_action R.resource a) (single R.zero) f).0 ≡ (some (single a), none))
        ⊎ ((e : E) × ((F.invokes (update_action R.resource a) (single R.zero) f).0
              ≡ (none, some e)))
  pub get_stored :
      (n : String) (f : F.Fake) (a : A)
      → (F.invokes (get_action R.resource n) (single R.zero) f).0 ≡ (some (single a), none)
      → view f n ≡ some a
  pub get_leaves :
      (n : String) (f : F.Fake) (m : String)
      → view (F.invokes (get_action R.resource n) (single R.zero) f).1 m ≡ view f m

map_failed-none : {E : Type 0} → (e : Option E) → Option.map failed e ≡ none → e ≡ none
map_failed-none none h = refl
map_failed-none (some e) h = ground arith

module _ {E A : Type 0} where
  answer-as_single :
      (r : Option (Object A) × Option E) (a : A)
      → answer_of (as_single r) ≡ ok a
      → r ≡ (some (single a), none)
  unfolding as_single
  answer-as_single (none, none) a h = ground arith
  answer-as_single (none, some e) a h = ground arith
  answer-as_single (some (single b), none) a h = ground arith
  answer-as_single (some (single b), some e) a h = ground arith
  answer-as_single (some (several l), e) a h = ground arith
  answer-as_single (some other, e) a h = ground arith

module _ {E A : Type 0} (F : FakeLibrary E A) (R : FakeResource A) {name : A → String}
    {view : F.Fake → String → Option A} (S : TracksObjects F R name view) where
  -- An update ends as the tracker's does: the object is returned, or an error and no object.
  update-returned :
      (a : A) (f : F.Fake)
      → ((update F R a f).0 ≡ returned (some a) none)
        ⊎ ((e : E) × ((update F R a f).0 ≡ returned none (some e)))
  unfolding update as_single
  update-returned a f = elim (S.update_returns a f) [
    | inl h ↦ inl (ap as_single h)
    | inr (e, h) ↦ inr (e, ap as_single h)
  ]

  failure-update :
      (a : A) (f : F.Fake)
      → ((fake_resource F R).update a f).0
        ≡ Option.map failed (F.invokes (update_action R.resource a) (single R.zero) f).0.1
  unfolding update as_single
  failure-update a f = elim (S.update_returns a f) [ inl h ↦ rw h refl | inr (e, h) ↦ rw h refl ]

  kept_objects : KeepsObjects (fake_resource F R) name (λ a. some a) (λ a. a) view
  unfolding update get
  kept_objects = record {
    update_accepted =
        λ a f h n. S.update_stored a f (map_failed-none _ (sym (failure-update a f) ∙ h)) n;
    update_refused = λ a f e h n.
        elim (Option-cases (F.invokes (update_action R.resource a) (single R.zero) f).0.1) [
          | inl x ↦ absurd (some-ne-none e (sym h ∙ failure-update a f ∙ ap (Option.map failed) x))
          | inr (y, x) ↦ S.update_failed a f y x n
        ];
    get_found = λ n f a h. S.get_stored n f a (answer-as_single _ a h);
    get_keeps = λ n f m. S.get_leaves n f m;
  }

  -- Over a tracker that keeps the resource's objects, the fake client is a client that keeps objects by
  -- name, like that of the API server; and its update does not panic, but returns the object that was
  -- sent and no error, or an error and no object.
  pub KeepsObjects-fake_resource :
      KeepsObjects (fake_resource F R) name (λ a. some a) (λ a. a) view
      × ((a : A) (f : F.Fake)
          → ((update F R a f).0 ≡ returned (some a) none)
            ⊎ ((e : E) × ((update F R a f).0 ≡ returned none (some e))))
  KeepsObjects-fake_resource = (kept_objects, update-returned)

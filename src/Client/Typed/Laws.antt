-- ===== src/Client/Typed/Laws.antt =====
-- What the typed clients promise over a server that answers REST requests.
use kubecon.Prelude.{
  String, ◌≡◌, refl, ap, ◌∙◌, Option, none, some, List, [], ◌∷◌, if◌then◌else◌, ◌==◌, arith,
}
use kubecon.Client.Result.{ok}
use kubecon.Client.Objects.{KeepsObjects, found-update}
use kubecon.Client.Typed.{
  Rest, TypedResource, get_verb, put_verb, post_verb, Call, resource, named, versioned_params, body,
  Body, object, Params, create, update, get, get_options, ok_or_error, typed_resource,
}

module _ {P B : Type 0} where
  -- The resource, the name and the body that a request is about: what the calls said last.
  abbrev pub resource_of : String → List (Call P B) → String
  resource_of r [] = r
  resource_of r (resource s ∷ q) = resource_of s q
  resource_of r (_ ∷ q) = resource_of r q

  abbrev pub name_of : Option String → List (Call P B) → Option String
  name_of n [] = n
  name_of n (named s ∷ q) = name_of (some s) q
  name_of n (_ ∷ q) = name_of n q

  abbrev pub body_of : Option B → List (Call P B) → Option B
  body_of b [] = b
  body_of b (body c ∷ q) = body_of (some c) q
  body_of b (_ ∷ q) = body_of b q

-- A server that keeps objects of a resource by name, as its clients' requests tell: an accepted PUT
-- stores the request's body under the request's name, as `kept` says, a refused one changes
-- nothing; an answered GET gives, as far as `seen` tells, the object under the request's name, and none
-- changes anything.
pub record ServesObjects {E A : Type 0} (T : Rest E A) (plural : String) (kept : A → Option A)
    (seen : A → A) (view : T.Outside → String → Option A) : Type 0 where
  pub put_accepted :
      (q : List (Call (Params T.GetOptions T.ListOptions) (Body A T.DeleteOptions))) (n : String)
      (a z : A) (o : T.Outside)
      → resource_of "" q ≡ plural
      → name_of none q ≡ some n
      → body_of none q ≡ some (object a)
      → (T.do_into put_verb q z o).0.1 ≡ none
      → (m : String) → view (T.do_into put_verb q z o).1 m ≡ (if n == m then kept a else view o m)
  pub put_refused :
      (q : List (Call (Params T.GetOptions T.ListOptions) (Body A T.DeleteOptions))) (z : A)
      (o : T.Outside) (e : E)
      → (T.do_into put_verb q z o).0.1 ≡ some e
      → (m : String) → view (T.do_into put_verb q z o).1 m ≡ view o m
  pub get_answered :
      (q : List (Call (Params T.GetOptions T.ListOptions) (Body A T.DeleteOptions))) (n : String)
      (z : A) (o : T.Outside)
      → resource_of "" q ≡ plural
      → name_of none q ≡ some n
      → (T.do_into get_verb q z o).0.1 ≡ none
      → view o n ≡ some (seen (T.do_into get_verb q z o).0.0)
  pub get_keeps :
      (q : List (Call (Params T.GetOptions T.ListOptions) (Body A T.DeleteOptions))) (z : A)
      (o : T.Outside) (m : String)
      → view (T.do_into get_verb q z o).1 m ≡ view o m

-- One that creates objects as well: an accepted POST stores the request's body, under the name that it
-- bears.
pub record CreatesObjects {E A : Type 0} (T : Rest E A) (plural : String) (name : A → String)
    (kept : A → Option A) (view : T.Outside → String → Option A) : Type 0 where
  pub post_accepted :
      (q : List (Call (Params T.GetOptions T.ListOptions) (Body A T.DeleteOptions))) (a z : A)
      (o : T.Outside)
      → resource_of "" q ≡ plural
      → body_of none q ≡ some (object a)
      → (T.do_into post_verb q z o).0.1 ≡ none
      → (m : String)
      → view (T.do_into post_verb q z o).1 m ≡ (if name a == m then kept a else view o m)

module _ {E A : Type 0} (T : Rest E A) (R : TypedResource A) {kept : A → Option A} {seen : A → A}
    {view : T.Outside → String → Option A} (S : ServesObjects T R.plural kept seen view) where
  -- How an update leaves the server, by the error that it returns.
  abbrev update_left : Option E → A → T.Outside → String → Option A
  update_left none a o m = if R.name a == m then kept a else view o m
  update_left (some e) a o m = view o m

  update-stores :
      (a : A) (o : T.Outside) (m : String)
      → view (update T R a o).1 m ≡ update_left (update T R a o).0.1 a o m
  unfolding update
  update-stores a o m = by_error (T.do_into put_verb q R.zero o).0.1 refl
    where
      q : List (Call (Params T.GetOptions T.ListOptions) (Body A T.DeleteOptions))
      q = resource R.plural ∷ named (R.name a) ∷ body (object a) ∷ []

      by_error :
          (e : Option E)
          → (T.do_into put_verb q R.zero o).0.1 ≡ e
          → view (T.do_into put_verb q R.zero o).1 m ≡ update_left e a o m
      by_error none h = S.put_accepted q (R.name a) a R.zero o refl refl refl h m
      by_error (some e) h = S.put_refused q R.zero o e h m

  get-found :
      (options : T.GetOptions) (n : String) (o : T.Outside) (a : A)
      → ((typed_resource T R options).get n o).0 ≡ ok a
      → view o n ≡ some (seen a)
  unfolding get
  get-found options n o a h =
      let q : List (Call (Params T.GetOptions T.ListOptions) (Body A T.DeleteOptions)) =
        resource R.plural ∷ named n ∷ versioned_params (get_options options) ∷ [] in
      let ((found, e), o') = T.do_into get_verb q R.zero o in
      by_error found e h (λ x. S.get_answered q n R.zero o refl refl x)
    where
      by_error :
          (found : A) (e : Option E)
          → ok_or_error found e ≡ ok a
          → (e ≡ none → view o n ≡ some (seen found))
          → view o n ≡ some (seen a)
      by_error found none g known = known refl ∙ ground arith
      by_error found (some x) g known = ground arith

  -- Over a server that keeps the resource's objects as its requests tell, the typed client is a client
  -- that keeps objects by name: its requests name the resource, the object and its content.
  pub KeepsObjects-typed_resource :
      (options : T.GetOptions) → KeepsObjects (typed_resource T R options) R.name kept seen view
  unfolding update get
  KeepsObjects-typed_resource options = record {
    update_accepted = λ a o h n. update-stores a o n ∙ ap (λ e. update_left e a o n) h;
    update_refused = λ a o e h n. update-stores a o n ∙ ap (λ x. update_left x a o n) h;
    get_found = get-found options;
    get_keeps = λ n o m. S.get_keeps _ R.zero o m;
  }

  -- After an update that reports no error, a `Get` of the object's name that reports none finds what
  -- the server keeps of the object, as far as `seen` tells, and the server then holds this under the name and all else as
  -- before.
  get-update :
      (options : T.GetOptions) (a : A) (o : T.Outside)
      → (update T R a o).0.1 ≡ none
      → let (answer, o') = get T R (R.name a) options (update T R a o).1 in
        answer.1 ≡ none
        → (kept a ≡ some (seen answer.0))
          × ((m : String) → view o' m ≡ (if R.name a == m then kept a else view o m))
  unfolding get update
  get-update options a o accepted answered =
      found-update (typed_resource T R options) (KeepsObjects-typed_resource options) a _ o accepted
        (rw answered refl)

module _ {E A : Type 0} (T : Rest E A) (R : TypedResource A) {kept : A → Option A}
    {view : T.Outside → String → Option A} (S : CreatesObjects T R.plural R.name kept view) where
  -- The request of a create names the resource and holds the object.
  pub create-stores :
      (a : A) (o : T.Outside)
      → (create T R a o).0.1 ≡ none
      → (m : String) → view (create T R a o).1 m ≡ (if R.name a == m then kept a else view o m)
  unfolding create
  create-stores a o h m =
      S.post_accepted (resource R.plural ∷ body (object a) ∷ []) a R.zero o refl refl h m

-- ===== src/Client/Lister.antt =====
-- pkg/client/listers/clusterprovisioner/v1alpha1, cluster.go and kubeconfig.go: reads of the
-- informer's store.
use kubecon.Prelude.{String, ◌≡◌, ap, sym, ◌∙◌, Option, List, [], ◌∷◌, ◌++◌}
use mathlib.Core.List.{append-nil, append_assoc}
use kubecon.Api.{Kubeconfig}
use kubecon.Platform.{Platform, Result, ok, err}
use kubecon.World.{Address, Indexed, failed, missing, present}

-- `Get` of clusterLister. The object found is the store's own, by its address.
unfoldable pub get : (E : Platform) → (String → Indexed E.Error) → String → Result E.Error Address
get E indexer name = elim (indexer name) [
  | failed e ↦ err e
  | missing ↦ err (E.new_not_found "cluster" name)
  | present p ↦ ok p
]

-- `Get` of kubeconfigLister
unfoldable get_kubeconfig :
    (E : Platform) → (String → Indexed E.Error) → String → Result E.Error Address
get_kubeconfig E indexer name = elim (indexer name) [
  | failed e ↦ err e
  | missing ↦ err (E.new_not_found "kubeconfig" name)
  | present p ↦ ok p
]

-- What the listers call of the cache library: `ListAll` hands the selected items of the store to a
-- function, one after the other, here with the state `S` that the function writes to.
pub record ListerLibrary (E A : Type 0) : Type 1 where
  pub Indexer : Type 0
  pub Selector : Type 0
  pub list_all : {S : Type 0} → Indexer → Selector → (A → S → S) → S → S × Option E

module _ {E A : Type 0} (L : ListerLibrary E A) where
  -- clusterLister and kubeconfigLister, with NewClusterLister and NewKubeconfigLister
  pub record Lister : Type 0 where
    pub indexer : L.Indexer

  abbrev new_lister : L.Indexer → Lister
  new_lister i = record { indexer = i }

  -- `List`
  unfoldable pub list : Lister → L.Selector → List A × Option E
  list s selector = L.list_all s.indexer selector (λ m ret. ret ++ (m ∷ [])) []

  abbrev run_through : {S : Type 0} → (A → S → S) → S → List A → S
  run_through f s [] = s
  run_through f s (a ∷ l) = run_through f (f a s) l

  -- `ListAll` reads the store's items that it hands over, and its error, before the function's writes
  -- matter.
  pub record ReadsStore (selected : L.Indexer → L.Selector → List A × Option E) : Type 1 where
    pub handed_over :
        {S : Type 0} (i : L.Indexer) (s : L.Selector) (f : A → S → S) (z : S)
        → L.list_all i s f z ≡ (run_through f z (selected i s).0, (selected i s).1)

  run_through-append : (l r : List A) → run_through (λ m ret. ret ++ (m ∷ [])) r l ≡ r ++ l
  run_through-append [] r = sym (append-nil r)
  run_through-append (a ∷ l) r = run_through-append l (r ++ (a ∷ [])) ∙ append_assoc r (a ∷ []) l

  -- `List` returns the items that `ListAll` hands over, in order, and its error.
  list-selected :
      {selected : L.Indexer → L.Selector → List A × Option E}
      → ReadsStore selected
      → (s : Lister) (selector : L.Selector) → list s selector ≡ selected s.indexer selector
  unfolding list
  list-selected {selected} r s selector =
      r.handed_over s.indexer selector (λ m ret. ret ++ (m ∷ [])) []
      ∙ ap (λ l. (l, (selected s.indexer selector).1)) (run_through-append _ [])

-- kubeconfigLister over the same library: its constructor and its `List`
module _ {E : Type 0} (L : ListerLibrary E Kubeconfig) where
  abbrev KubeconfigLister : Type 0
  KubeconfigLister = Lister L

  abbrev new_kubeconfig_lister : L.Indexer → KubeconfigLister
  new_kubeconfig_lister = new_lister L

  abbrev list_kubeconfigs : KubeconfigLister → L.Selector → List Kubeconfig × Option E
  list_kubeconfigs = list L

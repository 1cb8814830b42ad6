-- ===== src/Prelude/Strings.antt =====
-- Lists of strings as the program walks them.
use Prim.Native.String.{String}
use mathlib.Core.Path.{◌≡◌, refl}
use mathlib.Core.Bool.{Bool, false, ◌||◌}
use mathlib.Core.List.{List, [], ◌∷◌, ◌++◌}
use native.Mathlib.Omega.{arith}
use text.Mathlib.Text.{◌==◌}

-- Whether an item stands in a list, by Boolean tests.
abbrev pub has : List String → String → Bool
has [] k = false
has (x ∷ xs) k = (x == k) || has xs k

pub has-append : (xs ys : List String) (k : String) → has (xs ++ ys) k ≡ (has xs k || has ys k)
has-append [] ys k = refl
has-append (x ∷ xs) ys k = ground (arith, has-append xs ys k)

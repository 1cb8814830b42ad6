-- ===== src/Prelude/Map.antt =====
-- `map[string]string` as an association list; the program never ranges over one.
use Prim.Native.String.{String}
use mathlib.Core.Path.{◌≡◌, refl}
use mathlib.Core.Bool.{cond}
use mathlib.Core.List.{List, [], ◌∷◌}
use native.Mathlib.Omega.{arith}
use text.Mathlib.Text.{◌==◌}
use text.Mathlib.TextEquality.{eq_iff}

abbrev pub Map : Type 0
Map = List (String × String)

-- `m[k]`: the empty string where the key is missing.
unfoldable pub index : Map → String → String
index [] k = ""
index ((j, v) ∷ m) k = cond (j == k) v (index m k)

-- `m[k] = v`
unfoldable pub assign : Map → String → String → Map
assign [] k v = (k, v) ∷ []
assign ((j, w) ∷ m) k v = cond (j == k) ((k, v) ∷ m) ((j, w) ∷ assign m k v)

-- A read after a write.
pub index-assign : (m : Map) (k v j : String) → index (assign m k v) j ≡ cond (k == j) v (index m j)
unfolding index assign
index-assign [] k v j = refl
index-assign ((i, w) ∷ m) k v j =
    ground (arith, eq_iff k j, eq_iff i k, eq_iff i j, index-assign m k v j)

-- ===== src/Prelude/Texts.antt =====
-- `sort()` of texts.
use Prim.Native.String.{String, compare}
use Prim.Native.Nat.{Ordering}
use mathlib.Core.List.{List, [], ◌∷◌}

insert_key : String → List String → List String
insert_key k [] = k ∷ []
insert_key k (j ∷ js) = elim (compare k j) [ Ordering.gt ↦ j ∷ insert_key k js | _ ↦ k ∷ j ∷ js ]

unfoldable pub sort : List String → List String
unfolding insert_key
sort [] = []
sort (k ∷ ks) = insert_key k (sort ks)

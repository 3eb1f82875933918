-- ===== src/Btree/Build/Examples.antt =====
-- Builds of small trees of lib/trees/btree.
use contrees_fat_node.Prelude.{ℕ, ◌≡◌, refl, Option, none, some, List, [], ◌∷◌, arith}
use contrees_fat_node.SortedMap.{Entry, lookup}
use contrees_fat_node.Btree.Node.{Tree}
use contrees_fat_node.Btree.Query.{find}
use contrees_fat_node.Btree.Build.{sort, build, build_sorted}
use contrees_fat_node.Btree.Build.Correct.{Built, build_sorted_lem}
use contrees_fat_node.Btree.Build.Sorted.{build_lem}

abbrev twenty : List Entry
twenty =
    (9, 81)
    ∷ (3, 9)
    ∷ (14, 196)
    ∷ (0, 0)
    ∷ (7, 49)
    ∷ (20, 400)
    ∷ (11, 121)
    ∷ (5, 25)
    ∷ (18, 324)
    ∷ (2, 4)
    ∷ (16, 256)
    ∷ (6, 36)
    ∷ (12, 144)
    ∷ (1, 1)
    ∷ (19, 361)
    ∷ (8, 64)
    ∷ (4, 16)
    ∷ (17, 289)
    ∷ (10, 100)
    ∷ (13, 169)
    ∷ []

abbrev twenty_sorted : List Entry
twenty_sorted =
    (0, 0)
    ∷ (1, 1)
    ∷ (2, 4)
    ∷ (3, 9)
    ∷ (4, 16)
    ∷ (5, 25)
    ∷ (6, 36)
    ∷ (7, 49)
    ∷ (8, 64)
    ∷ (9, 81)
    ∷ (10, 100)
    ∷ (11, 121)
    ∷ (12, 144)
    ∷ (13, 169)
    ∷ (14, 196)
    ∷ (16, 256)
    ∷ (17, 289)
    ∷ (18, 324)
    ∷ (19, 361)
    ∷ (20, 400)
    ∷ []

-- Two leaves, of ten entries each.
build_sorted_lem_example : Built twenty_sorted (build_sorted twenty_sorted)
build_sorted_lem_example = build_sorted_lem twenty_sorted (omega arith)

build_lem_example :
    (b : Built (sort twenty) (build twenty)) × ((q snapshot : ℕ)
      → find b.tree q snapshot ≡ lookup q twenty)
build_lem_example = build_lem twenty (omega arith)

abbrev then_find : ℕ → Option Tree → Option ℕ
then_find q none = none
then_find q (some t) = find t q 0

finds_built : then_find 14 (build twenty) ≡ some 196
unfolding build find
finds_built = refl

finds_none : then_find 15 (build twenty) ≡ none
unfolding build find
finds_none = refl

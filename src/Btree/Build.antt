-- ===== src/Btree/Build.antt =====
-- lib/trees/btree/build.hpp: the bulk build, which cuts the sorted elements into leaves, and the nodes
-- of a level into nodes of the next, until one is left.
--
-- The vectors `chkeys` and `chs` are one list of keys with their nodes. A read past the end of the
-- elements has no result.
pub mod Runs
pub mod Rows
pub mod Correct
pub mod Sorted
mod Examples
use contrees_fat_node.SortedMap.{Entry}
use contrees_fat_node.Prelude.{
  ℕ, zero, suc, ◌+◌, ◌-◌, ◌*◌, ◌/◌, ◌%◌, ◌^◌, Bool, true, false, ◌&&◌, ◌||◌, Option, none, some,
  List, [], ◌∷◌, ltb, leb, ◌==◌, if◌then◌else◌, length, take, drop,
}
use contrees_fat_node.Btree.Node.{Tree, Kids, leaf, internal, one, more, b}

-- `uint8_t size = B + (k+r)/m`.
unfoldable pub run_size : ℕ → ℕ → ℕ → ℕ
run_size m r k = (b + (k + r) / m) % 2 ^ 8

-- The loop that fills `m` nodes, `for (uint64_t i = 0, k = 0; i < n; )`, on fuel: the elements that
-- each node takes.
unfoldable pub cut : {A : Type 0} → ℕ → ℕ → ℕ → ℕ → List A → Option (List (List A))
unfolding run_size
cut fuel m r k [] = some []
cut zero m r k (x ∷ xs) = none
cut (suc fuel) m r k (x ∷ xs) =
    let size = run_size m r k in
    if ltb (length (x ∷ xs)) size
    then none
    else elim (cut fuel m r ((k + r) % m) (drop size (x ∷ xs))) [
      | none ↦ none
      | some runs ↦ some (take size (x ∷ xs) ∷ runs)
    ]

-- The children of an internal node: the key of the first is not stored.
unfoldable pub kids_from : Tree → List (ℕ × Tree) → Kids
kids_from t [] = one t
kids_from t ((key, t') ∷ chs) = more t key (kids_from t' chs)

-- `ts`, with `keys`: the internal nodes, each with the key of its first child.
unfoldable pub branches : List (List (ℕ × Tree)) → List (ℕ × Tree)
unfolding kids_from
branches [] = []
branches ([] ∷ runs) = branches runs
branches (((key, t) ∷ chs) ∷ runs) = (key, internal 0 (kids_from t chs)) ∷ branches runs

-- The same for leaves.
unfoldable pub leaves : List (List Entry) → List (ℕ × Tree)
leaves [] = []
leaves ([] ∷ runs) = leaves runs
leaves (((key, val) ∷ es) ∷ runs) = (key, leaf 0 ((key, val) ∷ es) none) ∷ leaves runs

-- The node over all children; there is at least one.
unfoldable pub top : List (ℕ × Tree) → Option Tree
unfolding kids_from
top [] = none
top ((key, t) ∷ chs) = some (internal 0 (kids_from t chs))

-- `m` and `r`.
abbrev pub node_count : ℕ → ℕ
node_count n = n / b

abbrev pub left_over : ℕ → ℕ
left_over n = n - node_count n * b

-- `build_internal`, on fuel: each call has an eighth of the nodes of the one before.
unfoldable pub build_internal : ℕ → List (ℕ × Tree) → Option Tree
unfolding cut branches top
build_internal zero chs = none
build_internal (suc fuel) chs =
    let n = length chs in
    elim (ltb n (2 * b)) [
      | true ↦ top chs
      | false ↦ elim (cut n (node_count n) (left_over n) 0 chs) [
        | none ↦ none
        | some runs ↦ build_internal fuel (branches runs)
      ]
    ]

unfoldable pub build_sorted : List Entry → Option Tree
unfolding cut leaves build_internal
build_sorted elems =
    let n = length elems in
    if ltb n (2 * b)
    then some (leaf 0 elems none)
    else elim (cut n (node_count n) (left_over n) 0 elems) [
      | none ↦ none
      | some runs ↦ build_internal n (leaves runs)
    ]

-- The order of `std::sort` on pairs.
unfoldable pub is_before : Entry → Entry → Bool
is_before (k, v) (k', v') = ltb k k' || (k == k' && ltb v v')

unfoldable pub insert_sorted : Entry → List Entry → List Entry
unfolding is_before
insert_sorted x [] = x ∷ []
insert_sorted x (y ∷ ys) =
    let rest = insert_sorted x ys in if is_before y x then y ∷ rest else x ∷ y ∷ ys

-- `std::sort(elems, elems+n)`.
unfoldable pub sort : List Entry → List Entry
unfolding insert_sorted
sort [] = []
sort (x ∷ xs) = insert_sorted x (sort xs)

unfoldable pub build : List Entry → Option Tree
unfolding sort build_sorted
build elems = build_sorted (sort elems)

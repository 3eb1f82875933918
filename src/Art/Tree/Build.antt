-- ===== src/Art/Tree/Build.antt =====
-- Trees of one owner in lib/trees/art: update_inplace.hpp and build.hpp.
use contrees_fat_node.Prelude.{
  ℕ, ◌^◌, ◌<◌, ◌≡◌, refl, ap, ◌∙◌, Bool, Option, none, some, List, [], ◌∷◌, ◌==◌, if◌then◌else◌,
  arith,
}
use contrees_fat_node.Art.Key.Agree.{agree-eq}
use contrees_fat_node.Art.Tree.{Tree, null, find, update_inplace, build_from, build}
use contrees_fat_node.Art.Tree.Shape.{IsTree, find_null}
use contrees_fat_node.Art.Tree.Through.{Puts}
use contrees_fat_node.Art.Tree.Inplace.{Plain, update_inplace-Puts}

-- The root stands before the first byte.
pub Puts-root :
    (key val q : ℕ) (before after : Option ℕ)
    → key < 2 ^ 64
    → q < 2 ^ 64
    → Puts 0 key val q before after
    → after ≡ (if q == key then some val else before)
Puts-root key val q before after k b p =
    p ∙ ap (λ (e : Bool). if e then some val else before) (agree-eq q key b k)

-- A well formed tree with plain leaves.
abbrev pub IsRoot : Tree → Type 0
IsRoot t = IsTree Plain 0 t

-- The update in place of a well formed radix tree with plain leaves, with a 64-bit key, keeps it
-- well formed, and a 64-bit key is then found with the new value if it is the same and else as
-- before.
pub find-update_inplace :
    (t : Tree) (key val : ℕ)
    → IsRoot t
    → key < 2 ^ 64
    → IsRoot (update_inplace t 0 key val)
      × ((q version : ℕ)
          → q < 2 ^ 64
          → find (update_inplace t 0 key val) q version
            ≡ (if q == key then some val else find t q version))
find-update_inplace t key val i k =
    let u = update_inplace-Puts 0 key val t i in
    (
      u.0,
      λ q version b.
          Puts-root key val q (find t q version) (find (update_inplace t 0 key val) q version) k b
            (u.1 q version),
    )

-- The last element with the key, or what there was.
abbrev pub latest : Option ℕ → List (ℕ × ℕ) → ℕ → Option ℕ
latest before [] q = before
latest before ((key, val) ∷ elems) q = latest (if q == key then some val else before) elems q

abbrev pub Keys : List (ℕ × ℕ) → Type 0
Keys [] = Unit {0}
Keys ((key, val) ∷ elems) = (key < 2 ^ 64) × Keys elems

find-build_from :
    (t : Tree) (elems : List (ℕ × ℕ)) (q version : ℕ)
    → IsRoot t
    → Keys elems
    → q < 2 ^ 64
    → find (build_from t elems) q version ≡ latest (find t q version) elems q
unfolding build_from
find-build_from t [] q version i k b = refl
find-build_from t ((key, val) ∷ elems) q version i k b =
    let u = find-update_inplace t key val i k.0 in
    find-build_from (update_inplace t 0 key val) elems q version u.0 k.1 b
    ∙ ap (λ r. latest r elems q) (u.1 q version b)

-- A radix tree built from a list of elements with 64-bit keys finds at a 64-bit key the value of the
-- last element with the key, or nothing.
pub find-build :
    (elems : List (ℕ × ℕ)) (q version : ℕ)
    → Keys elems
    → q < 2 ^ 64
    → find (build elems) q version ≡ latest none elems q
unfolding build
find-build elems q version k b =
    find-build_from null elems q version (omega arith) k b
    ∙ ap (λ r. latest r elems q) (find_null q version)

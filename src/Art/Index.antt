-- ===== src/Art/Index.antt =====
-- lib/trees/art: the index of an inner node, by which a byte of a key finds a child: node4.hpp,
-- node16.hpp, node48.hpp, node256.hpp and their dispatch in node_wrapper.hpp.
--
-- `Kind` is the type of an inner node with its index: the used entries of `keys`, or `slts` and `size`.
use contrees_fat_node.Prelude.{
  ℕ, suc, ◌+◌, Bool, false, Option, none, some, List, [], ◌∷◌, leb, ◌==◌, if◌then◌else◌, length,
}
use contrees_fat_node.ArrayOps.{insert}

pub data Kind : Type 0 where
  node4 : List ℕ → Kind
  node16 : List ℕ → Kind
  node48 : (ℕ → ℕ) → ℕ → Kind
  node256 : Kind

-- `(uint8_t)~0`, an unused slot of a `node48`.
abbrev pub no_slot : ℕ
no_slot = 255

-- The first position with the key: `node4_find`, and the loop of `node16_find`.
unfoldable pub position : List ℕ → ℕ → Option ℕ
position [] pkey = none
position (k ∷ ks) pkey =
    if k == pkey then some 0 else elim (position ks pkey) [ none ↦ none | some i ↦ some (suc i) ]

-- The first position whose key is above the argument, or the size: `node4_findgt`, `node16_findgt`.
unfoldable pub findgt : List ℕ → ℕ → ℕ
findgt [] pkey = 0
findgt (k ∷ ks) pkey = if leb k pkey then suc (findgt ks pkey) else 0

-- The loop of `node16_find`; its vector instructions are taken to do the same.
abbrev pub node4_find : List ℕ → ℕ → Option ℕ
node4_find keys pkey = position keys pkey

abbrev pub node16_find : List ℕ → ℕ → Option ℕ
node16_find keys pkey = position keys pkey

abbrev pub node48_find : (ℕ → ℕ) → ℕ → Option ℕ
node48_find slts pkey = if slts pkey == no_slot then none else some pkey

abbrev pub node256_find : ℕ → Option ℕ
node256_find pkey = some pkey

-- `find_idx`.
unfoldable pub find_idx : Kind → ℕ → Option ℕ
unfolding position
find_idx (node4 keys) pkey = node4_find keys pkey
find_idx (node16 keys) pkey = node16_find keys pkey
find_idx (node48 slts size) pkey = node48_find slts pkey
find_idx node256 pkey = node256_find pkey

abbrev pub node4_findgt : List ℕ → ℕ → ℕ
node4_findgt keys pkey = findgt keys pkey

abbrev pub node16_findgt : List ℕ → ℕ → ℕ
node16_findgt keys pkey = findgt keys pkey

abbrev pub node4_append : List ℕ → ℕ → List ℕ × ℕ
node4_append keys pkey = let idx = node4_findgt keys pkey in (insert keys idx pkey, idx)

abbrev pub node16_append : List ℕ → ℕ → List ℕ × ℕ
node16_append keys pkey = let idx = node16_findgt keys pkey in (insert keys idx pkey, idx)

-- The slot of the key is the size before.
abbrev pub node48_append : (ℕ → ℕ) → ℕ → ℕ → ℕ → ℕ
node48_append slts size pkey q = if q == pkey then size else slts q

-- `append`: the node with room for one more child, and the index of the child.
unfoldable pub append : Kind → ℕ → Kind × ℕ
unfolding findgt insert
append (node4 keys) pkey = let (keys', idx) = node4_append keys pkey in (node4 keys', idx)
append (node16 keys) pkey = let (keys', idx) = node16_append keys pkey in (node16 keys', idx)
append (node48 slts size) pkey = (node48 (node48_append slts size pkey) (size + 1), pkey)
append node256 pkey = (node256, pkey)

unfoldable pub is_full : Kind → Bool
is_full (node4 keys) = length keys == 4
is_full (node16 keys) = length keys == 16
is_full (node48 slts size) = size == 48
is_full node256 = false

-- The loop of `node16_extend`.
unfoldable pub fill_slts : (ℕ → ℕ) → ℕ → List ℕ → ℕ → ℕ
fill_slts slts idx [] = slts
fill_slts slts idx (k ∷ ks) = fill_slts (λ q. if q == k then idx else slts q) (suc idx) ks

abbrev pub node4_extend : List ℕ → Kind
node4_extend keys = node16 keys

abbrev pub node16_extend : List ℕ → Kind
node16_extend keys = node48 (fill_slts (λ q. no_slot) 0 keys) 16

abbrev pub node48_extend : (ℕ → ℕ) → Kind
node48_extend slts = node256

-- `node_extend`, which is called on a full node. There is nothing above a `node256`.
unfoldable pub node_extend : Kind → Kind
unfolding fill_slts
node_extend (node4 keys) = node4_extend keys
node_extend (node16 keys) = node16_extend keys
node_extend (node48 slts size) = node48_extend slts
node_extend node256 = node256

-- Where `getch` points to in `chs`.
unfoldable pub slot : Kind → ℕ → ℕ
slot (node4 keys) idx = idx
slot (node16 keys) idx = idx
slot (node48 slts size) pkey = slts pkey
slot node256 pkey = pkey

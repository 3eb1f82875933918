-- ===== src/Art/Scan.antt =====
-- lib/trees/art/query.hpp: `scan`, the pairs from a key on, in the order of the bytes of the keys.
--
-- A call of `scan_append` on a null pointer, which it does not test, has no result.
pub mod Children
pub mod Entries
use contrees_fat_node.Prelude.{
  ℕ, zero, suc, ◌+◌, ◌-◌, Bool, true, false, Option, none, some, List, [], ◌∷◌, ◌++◌, ltb, ◌==◌,
  if◌then◌else◌, length,
}
use contrees_fat_node.FatValue.{read}
use contrees_fat_node.Art.Key.{partial_key}
use contrees_fat_node.Art.Index.{
  Kind, node4, node16, node48, node256, no_slot, node4_findgt, node16_findgt, find_idx, slot,
}
use contrees_fat_node.Art.Tree.{Tree, null, leaf, inner, departs, match_prefix}

-- `count` numbers from the first on.
unfoldable pub range : ℕ → ℕ → List ℕ
range first zero = []
range first (suc count) = first ∷ range (suc first) count

-- The first byte that `node48_scan_append` and `node256_scan_append` visit; 256 is none.
unfoldable pub first_byte : Option ℕ → ℕ
first_byte none = 0
first_byte (some pkey) = suc pkey

unfoldable pub used_slots : (ℕ → ℕ) → List ℕ → List ℕ
used_slots slts [] = []
used_slots slts (q ∷ qs) =
    let rest = used_slots slts qs in if slts q == no_slot then rest else slts q ∷ rest

-- The positions that the loops visit, in their order: `node4_scan_append` and the others.
unfoldable pub node4_scan : List ℕ → Option ℕ → List ℕ
unfolding range
node4_scan keys none = range 0 (length keys)
node4_scan keys (some pkey) = let idx = node4_findgt keys pkey in range idx (length keys - idx)

unfoldable pub node16_scan : List ℕ → Option ℕ → List ℕ
unfolding range
node16_scan keys none = range 0 (length keys)
node16_scan keys (some pkey) = let idx = node16_findgt keys pkey in range idx (length keys - idx)

unfoldable pub node48_scan : (ℕ → ℕ) → Option ℕ → List ℕ
unfolding used_slots range first_byte
node48_scan slts pkey = used_slots slts (range (first_byte pkey) (256 - first_byte pkey))

unfoldable pub node256_scan : Option ℕ → List ℕ
unfolding range first_byte
node256_scan pkey = range (first_byte pkey) (256 - first_byte pkey)

unfoldable pub positions : Kind → Option ℕ → List ℕ
unfolding node4_scan node16_scan node48_scan node256_scan
positions (node4 keys) pkey = node4_scan keys pkey
positions (node16 keys) pkey = node16_scan keys pkey
positions (node48 slts size) pkey = node48_scan slts pkey
positions node256 pkey = node256_scan pkey

-- A loop over positions, while `ret.size() < n`.
unfoldable pub visit :
    ℕ → (ℕ → List (ℕ × ℕ) → Option (List (ℕ × ℕ))) → List ℕ → List (ℕ × ℕ) → Option (List (ℕ × ℕ))
visit n body [] ret = some ret
visit n body (i ∷ is) ret =
    if ltb (length ret) n
    then elim (body i ret) [ none ↦ none | some ret' ↦ visit n body is ret' ]
    else some ret

abbrev pub is_null : Tree → Bool
is_null null = true
is_null (leaf h val fat) = false
is_null (inner h k chs) = false

-- `if (t->chs[idx])`, which only `node256_scan_append` asks of a child.
abbrev pub is_skipped : Kind → Tree → Bool
is_skipped (node4 keys) ch = false
is_skipped (node16 keys) ch = false
is_skipped (node48 slts size) ch = false
is_skipped node256 ch = is_null ch

-- `scan_append(t, pkey, n, ret, version)`.
unfoldable pub scan_append : Tree → Option ℕ → ℕ → ℕ → List (ℕ × ℕ) → Option (List (ℕ × ℕ))
unfolding read positions visit
scan_append null pkey n version ret = none
scan_append (leaf h val fat) pkey n version ret = some (ret ++ (h.pfx, read fat val version) ∷ [])
scan_append (inner h k chs) pkey n version ret =
    visit n
      (λ i ret'.
        let below = scan_append (chs i) none n version ret' in
        if is_skipped k (chs i) then some ret' else below)
      (positions k pkey) ret

-- The bytes at which a node and a key part.
unfoldable pub is_before : ℕ → ℕ → ℕ → Bool
unfolding partial_key
is_before pfx key pos = ltb (partial_key pfx pos) (partial_key key pos)

-- `scan_search(t, key, n, ret, version)`.
unfoldable pub scan_search : Tree → ℕ → ℕ → ℕ → List (ℕ × ℕ) → Option (List (ℕ × ℕ))
unfolding departs match_prefix is_before scan_append read find_idx slot partial_key
scan_search null key n version ret = some ret
scan_search (leaf h val fat) key n version ret =
    if departs h key
    then (if is_before h.pfx key (h.pfx_ofs + match_prefix h key)
        then some ret
        else scan_append (leaf h val fat) none n version ret)
    else some (ret ++ (h.pfx, read fat val version) ∷ [])
scan_search (inner h k chs) key n version ret =
    if departs h key
    then (if is_before h.pfx key (h.pfx_ofs + match_prefix h key)
        then some ret
        else scan_append (inner h k chs) none n version ret)
    else (let pkey = partial_key key (h.pfx_ofs + h.pfx_len) in
        let found : Option (List (ℕ × ℕ)) = elim (find_idx k pkey) [
          | none ↦ some ret
          | some i ↦ scan_search (chs (slot k i)) key n version ret
        ] in
        elim found [
          | none ↦ none
          | some ret' ↦ scan_append (inner h k chs) (some pkey) n version ret'
        ])

unfoldable pub scan : Tree → ℕ → ℕ → ℕ → Option (List (ℕ × ℕ))
unfolding scan_search
scan t key n version = scan_search t key n version []

-- ===== src/Art/Tree.antt =====
-- lib/trees/art: the tree of node.hpp and leaf.hpp, `find` of query.hpp, `fat_leaf_for` of
-- fat_lookup.hpp, and the update of a tree that has one owner, update_inplace.hpp and build.hpp.
--
-- A null pointer is `null`. An inner node has `chs` as a function of the position.
pub mod Shape
pub mod Fork
pub mod Through
pub mod Inplace
pub mod Build
use contrees_fat_node.Prelude.{
  ℕ, zero, suc, ◌+◌, ◌-◌, Bool, true, false, Option, none, some, List, [], ◌∷◌, ltb, if◌then◌else◌,
  set,
}
use contrees_fat_node.FatValue.{FatValue, no_values, read}
use contrees_fat_node.Art.Key.{partial_key, masked, prefix_match}
use contrees_fat_node.Art.Index.{Kind, node4, find_idx, is_full, slot}
use contrees_fat_node.Art.Node.{write, insert_inplace}

-- The fields of a node that its prefix is read from. The prefix of a leaf reaches to the end of its key.
pub record Header : Type 0 where
  pub ver : ℕ
  pub pfx_ofs : ℕ
  pub pfx_len : ℕ
  pub pfx : ℕ

pub data Tree : Type 0 where
  null : Tree
  leaf : Header → ℕ → FatValue → Tree
  inner : Header → Kind → (ℕ → Tree) → Tree

-- `prefix_match(t, key)`.
unfoldable pub match_prefix : Header → ℕ → ℕ
unfolding prefix_match
match_prefix h key = prefix_match h.pfx_ofs h.pfx_len h.pfx key

-- `t->pfx_len > prefix_match(t, key)`.
unfoldable pub departs : Header → ℕ → Bool
unfolding match_prefix
departs h key = ltb (match_prefix h key) h.pfx_len

-- `new_leaf`.
unfoldable pub new_leaf : ℕ → ℕ → ℕ → ℕ → Tree
new_leaf ver pfx_ofs key val =
    leaf (record { ver = ver; pfx_ofs = pfx_ofs; pfx_len = 8 - pfx_ofs; pfx = key }) val no_values

-- The header that `new_node` gives to an inner node.
unfoldable pub new_header : ℕ → ℕ → ℕ → ℕ → Header
unfolding masked
new_header ver pfx_ofs pfx_len key = record {
  ver = ver;
  pfx_ofs = pfx_ofs;
  pfx_len = pfx_len;
  pfx = masked key pfx_ofs pfx_len;
}

-- `find`. The child is the one that `findch` has.
unfoldable pub find : Tree → ℕ → ℕ → Option ℕ
unfolding departs partial_key find_idx slot read
find null key version = none
find (leaf h val fat) key version = if departs h key then none else some (read fat val version)
find (inner h k chs) key version =
    if departs h key then none else elim (find_idx k (partial_key key (h.pfx_ofs + h.pfx_len))) [
      | none ↦ none
      | some i ↦ find (chs (slot k i)) key version
    ]

-- `t->pfx_ofs += n; t->pfx_len -= n`, and the mask of an inner node.
unfoldable pub advance : ℕ → Tree → Tree
unfolding new_header
advance n null = null
advance n (leaf h val fat) =
    leaf (record h { pfx_ofs = h.pfx_ofs + n; pfx_len = h.pfx_len - n }) val fat
advance n (inner h k chs) = inner (new_header h.ver (h.pfx_ofs + n) (h.pfx_len - n) h.pfx) k chs

-- The `node4` with two children of `node_fork_inplace` and `node_fork_cow`: `keys[idx]` and `chs[idx]`
-- are for the old node, where `idx` is `pk0 > pk1`.
unfoldable pub fork_keys : ℕ → ℕ → ℕ → List ℕ
fork_keys idx pk0 pk1 = set (set (0 ∷ 0 ∷ []) idx pk0) (1 - idx) pk1

unfoldable pub fork_chs : ℕ → Tree → Tree → ℕ → Tree
unfolding write
fork_chs idx old new = write (write (λ i. null) idx old) (1 - idx) new

unfoldable pub fork_node : ℕ → ℕ → ℕ → ℕ → ℕ → ℕ → Tree → Tree
unfolding new_header new_leaf partial_key fork_keys fork_chs
fork_node ver ofs pmlen key val pk0 old =
    let pk1 = partial_key key (ofs + pmlen) in
    let idx = if ltb pk1 pk0 then 1 else 0 in
    inner (new_header ver ofs pmlen key) (node4 (fork_keys idx pk0 pk1))
      (fork_chs idx old (new_leaf ver (ofs + pmlen + 1) key val))

-- `node_fork_inplace` of a node with the header.
unfoldable pub node_fork_inplace : Header → Tree → ℕ → ℕ → ℕ → ℕ → Tree
unfolding partial_key advance fork_node
node_fork_inplace h t ofs pmlen key val =
    fork_node 0 ofs pmlen key val (partial_key h.pfx (h.pfx_ofs + pmlen)) (advance (pmlen + 1) t)

-- The header after `node_extend`, or the old one.
unfoldable pub extended : ℕ → Kind → Header → Header
unfolding is_full new_header
extended ver k h = if is_full k then new_header ver h.pfx_ofs h.pfx_len h.pfx else h

unfoldable pub update_inplace : Tree → ℕ → ℕ → ℕ → Tree
unfolding departs match_prefix partial_key find_idx slot write insert_inplace new_leaf
    node_fork_inplace extended
update_inplace null ofs key val = new_leaf 0 ofs key val
update_inplace (leaf h old fat) ofs key val =
    if departs h key
    then node_fork_inplace h (leaf h old fat) ofs (match_prefix h key) key val
    else leaf h val fat
update_inplace (inner h k chs) ofs key val =
    if departs h key
    then node_fork_inplace h (inner h k chs) ofs (match_prefix h key) key val
    else (let pkey = partial_key key (ofs + h.pfx_len) in
        elim (find_idx k pkey) [
          | some i ↦
              inner h k (
                write chs (slot k i)
                  (update_inplace (chs (slot k i)) (ofs + h.pfx_len + 1) key val))
          | none ↦
              let (k', chs') =
                insert_inplace null k chs pkey (new_leaf 0 (ofs + h.pfx_len + 1) key val) in
              inner (extended 0 k h) k' chs'
        ])

-- `build`, the loop over the elements.
unfoldable pub build_from : Tree → List (ℕ × ℕ) → Tree
unfolding update_inplace
build_from t [] = t
build_from t ((key, val) ∷ elems) = build_from (update_inplace t 0 key val) elems

unfoldable pub build : List (ℕ × ℕ) → Tree
unfolding build_from
build elems = build_from null elems

-- ===== src/Art/Node.antt =====
-- lib/trees/art: the children of an inner node, and what finds, adds and copies them: node4.hpp,
-- node16.hpp, node48.hpp, node256.hpp and their dispatch in node_wrapper.hpp.
--
-- An array of pointers is a function of the position, and `null` is what it has where nothing was
-- written.
pub mod Positions
pub mod Laws
pub mod Insert
pub mod Children
pub mod Every
pub mod Used
use contrees_fat_node.Prelude.{
  ℕ, zero, suc, ◌+◌, ◌-◌, Bool, true, false, ◌||◌, Option, none, some, List, [], ◌∷◌, ltb, leb,
  ◌==◌, if◌then◌else◌, length,
}
use contrees_fat_node.Art.Index.{
  node4, node16, node48, node256, Kind, no_slot, position, findgt, node4_find, node16_find,
  node48_find, node256_find, find_idx, node4_findgt, node16_findgt, node4_append, node16_append,
  node48_append, append, is_full, fill_slts, node4_extend, node16_extend, node48_extend,
  node_extend, slot,
}

module _ {ℓ} {A : Type ℓ} where
  -- `chs[i] = ch`.
  unfoldable pub write : (ℕ → A) → ℕ → A → ℕ → A
  write chs i ch j = if j == i then ch else chs j

  -- `insert(arr, size, pos, elem)`.
  unfoldable pub insert_at : (ℕ → A) → ℕ → ℕ → A → ℕ → A
  insert_at arr size pos elt i =
      if ltb i pos || ltb size i then arr i else if i == pos then elt else arr (i - 1)

  abbrev pub node4_insertch : List ℕ → (ℕ → A) → ℕ → A → ℕ → A
  node4_insertch keys chs idx ch = insert_at chs (length keys - 1) idx ch

  abbrev pub node16_insertch : List ℕ → (ℕ → A) → ℕ → A → ℕ → A
  node16_insertch keys chs idx ch = insert_at chs (length keys - 1) idx ch

  abbrev pub node48_insertch : (ℕ → ℕ) → (ℕ → A) → ℕ → A → ℕ → A
  node48_insertch slts chs pkey ch = write chs (slts pkey) ch

  abbrev pub node256_insertch : (ℕ → A) → ℕ → A → ℕ → A
  node256_insertch chs pkey ch = write chs pkey ch

  -- `insertch`, after `append`.
  unfoldable pub insertch : Kind → (ℕ → A) → ℕ → A → ℕ → A
  unfolding insert_at write slot
  insertch (node4 keys) chs idx ch = node4_insertch keys chs idx ch
  insertch (node16 keys) chs idx ch = node16_insertch keys chs idx ch
  insertch (node48 slts size) chs pkey ch = node48_insertch slts chs pkey ch
  insertch node256 chs pkey ch = node256_insertch chs pkey ch

  module _ (null : A) where
    -- `idx ? chs[idx] : nullptr`.
    abbrev pub at : (ℕ → A) → Option ℕ → A
    at chs none = null
    at chs (some idx) = chs idx

    abbrev pub node4_findch : List ℕ → (ℕ → A) → ℕ → A
    node4_findch keys chs pkey = at chs (node4_find keys pkey)

    abbrev pub node16_findch : List ℕ → (ℕ → A) → ℕ → A
    node16_findch keys chs pkey = at chs (node16_find keys pkey)

    abbrev pub node48_findch : (ℕ → ℕ) → (ℕ → A) → ℕ → A
    node48_findch slts chs pkey = if slts pkey == no_slot then null else chs (slts pkey)

    abbrev pub node256_findch : (ℕ → A) → ℕ → A
    node256_findch chs pkey = chs pkey

    -- `findch`.
    unfoldable pub findch : Kind → (ℕ → A) → ℕ → A
    unfolding position
    findch (node4 keys) chs pkey = node4_findch keys chs pkey
    findch (node16 keys) chs pkey = node16_findch keys chs pkey
    findch (node48 slts size) chs pkey = node48_findch slts chs pkey
    findch node256 chs pkey = node256_findch chs pkey

    -- `copy(dst, src, size)`.
    unfoldable pub copy_chs : ℕ → (ℕ → A) → ℕ → A
    copy_chs size src i = if ltb i size then src i else null

    -- `copy_insert<nodeptr>(dst, src, size, pos, nullptr)`.
    unfoldable pub copy_insert_chs : ℕ → (ℕ → A) → ℕ → ℕ → A
    unfolding copy_chs insert_at
    copy_insert_chs size src pos = insert_at (copy_chs size src) size pos null

    -- `node48_copych_extend`.
    unfoldable pub spread_chs : (ℕ → ℕ) → (ℕ → A) → ℕ → A
    spread_chs slts src pkey = if slts pkey == no_slot then null else src (slts pkey)

    abbrev pub node4_copych : List ℕ → (ℕ → A) → ℕ → A
    node4_copych keys chs = copy_chs (length keys) chs

    abbrev pub node4_copych_at : List ℕ → (ℕ → A) → ℕ → ℕ → A
    node4_copych_at keys chs idx = copy_insert_chs (length keys) chs idx

    abbrev pub node4_copych_extend : List ℕ → (ℕ → A) → ℕ → ℕ → A
    node4_copych_extend keys chs idx = copy_insert_chs (length keys) chs idx

    abbrev pub node16_copych : List ℕ → (ℕ → A) → ℕ → A
    node16_copych keys chs = copy_chs (length keys) chs

    abbrev pub node16_copych_at : List ℕ → (ℕ → A) → ℕ → ℕ → A
    node16_copych_at keys chs idx = copy_insert_chs (length keys) chs idx

    abbrev pub node16_copych_extend : List ℕ → (ℕ → A) → ℕ → A
    node16_copych_extend keys chs = copy_chs (length keys) chs

    abbrev pub node48_copych : ℕ → (ℕ → A) → ℕ → A
    node48_copych size chs = copy_chs size chs

    abbrev pub node256_copych : (ℕ → A) → ℕ → A
    node256_copych chs = copy_chs 256 chs

    -- `copych(t_new, t_old)`, of one type.
    unfoldable pub copych : Kind → (ℕ → A) → ℕ → A
    unfolding copy_chs
    copych (node4 keys) chs = node4_copych keys chs
    copych (node16 keys) chs = node16_copych keys chs
    copych (node48 slts size) chs = node48_copych size chs
    copych node256 chs = node256_copych chs

    -- `copych(t_new, t_old, idx)`: `t_new` is `t_old` with one more child, and maybe of the next type.
    unfoldable pub copych_at : Kind → (ℕ → A) → ℕ → ℕ → A
    unfolding is_full copych copy_chs copy_insert_chs spread_chs
    copych_at (node4 keys) chs idx =
        if is_full (node4 keys)
        then node4_copych_extend keys chs idx
        else node4_copych_at keys chs idx
    copych_at (node16 keys) chs idx =
        if is_full (node16 keys)
        then node16_copych_extend keys chs
        else node16_copych_at keys chs idx
    copych_at (node48 slts size) chs idx =
        if is_full (node48 slts size) then spread_chs slts chs else node48_copych size chs
    copych_at node256 chs idx = node256_copych chs

    -- The end of `update_inplace`: a child for a byte that has none.
    unfoldable pub insert_inplace : Kind → (ℕ → A) → ℕ → A → Kind × (ℕ → A)
    unfolding is_full node_extend append copych_at write slot insertch
    insert_inplace t chs pkey ch =
        if is_full t
        then (let (t', i) = append (node_extend t) pkey in
            (t', write (copych_at t chs i) (slot t' i) ch))
        else (let (t', i) = append t pkey in (t', insertch t' chs i ch))

    -- `INSERT` of `update_cow` and `handle_insert`: the same on a copy.
    unfoldable pub insert_cow : Kind → (ℕ → A) → ℕ → A → Kind × (ℕ → A)
    unfolding is_full node_extend append copych_at write slot
    insert_cow t chs pkey ch =
        let (t', i) = append (if is_full t then node_extend t else t) pkey in
        (t', write (copych_at t chs i) (slot t' i) ch)

-- ===== src/Btree/Node.antt =====
-- lib/trees/btree/node.hpp: the nodes of a B+Tree and their primitive operations.
--
-- A node of type LEAF is `leaf`: its version, the used entries `(keys[i], vals[i])` and the sidecar
-- behind `vals[2*B-1]`. A node of type INTERNAL is `internal`: its version and its children, with
-- `chs[0]`, `keys[0]`, `chs[1]`, ..., `keys[size-1]`, `chs[size]` in this order in `Kids`.
-- `cow_ready`, which orders the threads of a pipeline, is not part of a node here.
use contrees_fat_node.SortedMap.{Entry}
use contrees_fat_node.Prelude.{
  ℕ, zero, suc, Bool, false, Option, List, [], ◌∷◌, ltb, ◌==◌, if◌then◌else◌,
}

-- `B`.
abbrev pub b : ℕ
b = 8

-- `2*B-1`, the capacity of a leaf and the number of keys of a full internal node.
abbrev pub full_size : ℕ
full_size = 15

-- `struct delta_slot`. Version zero marks an unused slot.
pub record DeltaSlot : Type 0 where
  pub version : ℕ
  pub key : ℕ
  pub value : ℕ

-- `struct delta_block` with the slots behind it; `capacity` is the number of slots.
pub record DeltaBlock : Type 0 where
  pub capacity : ℕ
  pub count : ℕ
  pub slots : List DeltaSlot

mutual
  pub data Tree : Type 0 where
    leaf : ℕ → List Entry → Option DeltaBlock → Tree
    internal : ℕ → Kids → Tree

  pub data Kids : Type 0 where
    one : Tree → Kids
    more : Tree → ℕ → Kids → Kids

-- `size` of an internal node: the number of its keys.
unfoldable pub size : Kids → ℕ
size (one c) = 0
size (more c s ks) = suc (size ks)

-- `chs[i]`.
unfoldable pub child : Kids → ℕ → Tree
child (one c) i = c
child (more c s ks) zero = c
child (more c s ks) (suc i) = child ks i

-- `chs[i] = t`. A write past `chs[size]` changes nothing.
unfoldable pub set_child : Kids → ℕ → Tree → Kids
set_child (one c) zero t = one t
set_child (one c) (suc i) t = one c
set_child (more c s ks) zero t = more t s ks
set_child (more c s ks) (suc i) t = more c s (set_child ks i t)

-- The first position whose key is above the argument, or `size`.
unfoldable pub findch : Kids → ℕ → ℕ
findch (one c) key = 0
findch (more c s ks) key = if ltb key s then 0 else suc (findch ks key)

-- The first position whose key is not below the argument, or `size`.
unfoldable pub findval : List Entry → ℕ → ℕ
findval [] key = 0
findval ((k, v) ∷ es) key = if ltb k key then suc (findval es key) else 0

-- `insert_child(t, key, t_l, t_r, pos)`: `t_l` takes the place of `chs[pos]`, and `key` and `t_r`
-- are inserted behind it.
unfoldable pub insert_child : Kids → ℕ → Tree → Tree → ℕ → Kids
insert_child (one c) key t_l t_r pos = more t_l key (one t_r)
insert_child (more c s ks) key t_l t_r zero = more t_l key (more t_r s ks)
insert_child (more c s ks) key t_l t_r (suc pos) = more c s (insert_child ks key t_l t_r pos)

-- `split` followed by `copych_split`: the first `n` keys with their children, the next key, and
-- the rest. It is called with `n = B-1` on a full node; on a node with fewer keys the result is
-- without meaning.
unfoldable pub split_at : ℕ → Kids → Kids × ℕ × Kids
split_at n (one c) = (one c, 0, one c)
split_at zero (more c s ks) = (one c, s, ks)
split_at (suc n) (more c s ks) = let (l, p, r) = split_at n ks in (more c s l, p, r)

unfoldable pub split : Kids → Kids × ℕ × Kids
split ks = split_at 7 ks

-- `new_root(ver, key, ch0, ch1)`.
unfoldable pub new_root : ℕ → ℕ → Tree → Tree → Tree
new_root ver key ch0 ch1 = internal ver (more ch0 key (one ch1))

-- The test `i < t->size && t->keys[i] == key` of the leaf routines.
unfoldable pub key_at : List Entry → ℕ → ℕ → Bool
key_at [] i key = false
key_at ((k, v) ∷ es) zero key = k == key
key_at ((k, v) ∷ es) (suc i) key = key_at es i key

-- `t->vals[i] = v`.
unfoldable pub set_val : List Entry → ℕ → ℕ → List Entry
set_val [] i v = []
set_val ((k, w) ∷ es) zero v = (k, v) ∷ es
set_val ((k, w) ∷ es) (suc i) v = (k, w) ∷ set_val es i v

-- The number of levels below a node, along its first children.
unfoldable mutual
  pub height : Tree → ℕ
  height (leaf ver es d) = 0
  height (internal ver ks) = suc (height_kids ks)

  pub height_kids : Kids → ℕ
  height_kids (one c) = height c
  height_kids (more c s ks) = height c

-- ===== src/Btree/Inplace.antt =====
-- lib/trees/btree/update_inplace.hpp: the update that writes into the nodes it meets.
pub mod Descent
pub mod Correct
pub mod Root
use contrees_fat_node.Prelude.{
  Option, ℕ, zero, suc, ◌+◌, ◌-◌, none, List, [], ◌∷◌, ltb, leb, if◌then◌else◌, length, drop,
}
use contrees_fat_node.ArrayOps.{copy, insert, copy_insert}
use contrees_fat_node.SortedMap.{Entry}
use contrees_fat_node.Btree.Node.{
  Tree, Kids, DeltaBlock, leaf, internal, one, b, full_size, size, child, set_child, findch,
  findval, insert_child, split, new_root, key_at, set_val, height,
}

-- The two full halves of a leaf with one more entry.
unfoldable pub split_leaf : List Entry → ℕ → Entry → List Entry × List Entry
split_leaf es i e =
    if ltb i b
    then (copy_insert es 7 i e, copy (drop 7 es) b)
    else (copy es b, copy_insert (drop b es) 7 (i - b) e)

-- `t_r->keys[0]`.
unfoldable pub first_key : List Entry → ℕ
first_key [] = 0
first_key ((k, v) ∷ es) = k

-- What a leaf update leaves: one leaf, or two with their separator.
pub data LeafUpdate : Type 0 where
  whole : List Entry → LeafUpdate
  halves : List Entry → ℕ → List Entry → LeafUpdate

unfoldable pub leaf_halves : List Entry × List Entry → LeafUpdate
unfolding first_key
leaf_halves (l, r) = halves l (first_key r) r

-- The entries that `update_leaf_inplace(t, k, v)` leaves, and `update_leaf_cow` without sidecars.
unfoldable pub update_entries : List Entry → ℕ → ℕ → LeafUpdate
unfolding split_leaf leaf_halves findval key_at set_val insert
update_entries es k v =
    let i = findval es k in
    if key_at es i k
    then whole (set_val es i v)
    else if ltb (length es) full_size
    then whole (insert es i (k, v))
    else leaf_halves (split_leaf es i (k, v))

-- The result of an update on a subtree, seen from its parent.
pub data Grown : Type 0 where
  same : Tree → Grown
  pair : Tree → ℕ → Tree → Grown

-- One leaf of version `ver` with the sidecar `d`, or two new leaves of version `new`.
unfoldable pub grown_leaf : ℕ → Option DeltaBlock → ℕ → LeafUpdate → Grown
grown_leaf ver d new (whole es) = same (leaf ver es d)
grown_leaf ver d new (halves l p r) = pair (leaf new l none) p (leaf new r none)

-- `update_leaf_inplace`: the leaf stays with its sidecar, or two new leaves of version 0 replace it.
unfoldable pub update_leaf_inplace : Tree → ℕ → ℕ → Grown
unfolding update_entries grown_leaf
update_leaf_inplace (leaf ver es d) k v = grown_leaf ver d 0 (update_entries es k v)
update_leaf_inplace (internal ver ks) k v = same (internal ver ks)

-- `chs[i]` is replaced by the outcome.
unfoldable pub put_grown : Kids → ℕ → Grown → Kids
unfolding set_child insert_child
put_grown ks i (same t) = set_child ks i t
put_grown ks i (pair l p r) = insert_child ks p l r i

-- Makes room below `t`: a full child `cs` is split by `split`, `insert_child` and `copych_split`,
-- and `i += p <= k` picks the half for `k`.
unfoldable pub make_room : ℕ → Kids → ℕ → Kids → ℕ → Kids × ℕ
unfolding split insert_child size
make_room ver ks i cs k =
    if ltb (size cs) full_size
    then (ks, i)
    else (let (l, p, r) = split cs in
        (insert_child ks p (internal ver l) (internal ver r) i, if leb p k then i + 1 else i))

-- Rewrites the children of the internal node at position `i`.
unfoldable pub descend : (Kids → Kids) → Kids × ℕ → Kids
unfolding child set_child
descend f (ks, i) = elim (child ks i) [
  | leaf ver es d ↦ ks
  | internal ver cs ↦ set_child ks i (internal ver (f cs))
]

-- `update_internal_inplace(t, k, v)` on the children of `t`. The first argument bounds the depth of
-- the recursion; the height of the node is enough.
unfoldable pub update_internal_inplace : ℕ → Kids → ℕ → ℕ → Kids
unfolding findch child update_leaf_inplace put_grown make_room descend
update_internal_inplace zero ks k v = ks
update_internal_inplace (suc fuel) ks k v =
    let i = findch ks k in
    elim (child ks i) [
      | leaf ver es d ↦ put_grown ks i (update_leaf_inplace (leaf ver es d) k v)
      | internal ver cs ↦
          descend (λ ks'. update_internal_inplace fuel ks' k v) (make_room 0 ks i cs k)
    ]

-- The root after its leaf was updated: two leaves get a new root above them.
unfoldable pub root_of : ℕ → Grown → Tree
unfolding new_root
root_of ver (same t) = t
root_of ver (pair l p r) = new_root ver p l r

-- `update_root_inplace`, with the height of the tree for the depth of the recursion.
unfoldable pub update_root_inplace : Tree → ℕ → ℕ → Tree
unfolding update_leaf_inplace root_of make_room descend update_internal_inplace height
update_root_inplace (leaf ver es d) k v = root_of 0 (update_leaf_inplace (leaf ver es d) k v)
update_root_inplace (internal ver ks) k v =
    let fuel = height (internal ver ks) in
    if ltb (size ks) full_size
    then internal ver (update_internal_inplace fuel ks k v)
    else internal 0 (
        descend (λ ks'. update_internal_inplace fuel ks' k v)
          (make_room 0 (one (internal ver ks)) 0 ks k))

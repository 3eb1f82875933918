-- ===== src/Btree/Query.antt =====
-- lib/trees/btree/query.hpp: lookups at a snapshot version.
pub mod Find
use contrees_fat_node.Prelude.{
  ℕ, zero, suc, Bool, not, ◌&&◌, Option, none, some, List, [], ◌∷◌, leb, ◌==◌, if◌then◌else◌,
}
use contrees_fat_node.SortedMap.{Entry}
use contrees_fat_node.Btree.Node.{
  Tree, Kids, DeltaSlot, DeltaBlock, leaf, internal, one, more, findch, findval, key_at,
}
use contrees_fat_node.Btree.Delta.{is_pending}

pub record LeafNode : Type 0 where
  pub ver : ℕ
  pub kvs : List Entry
  pub delta : Option DeltaBlock

-- `while (t->type != LEAF) { t = t->chs[findch(t, key)]; }`. `leaf_at ks i` goes on from `chs[i]`.
unfoldable mutual
  unfolding findch

  pub leaf_for : Tree → ℕ → LeafNode
  leaf_for (leaf ver es d) key = record { ver = ver; kvs = es; delta = d }
  leaf_for (internal ver ks) key = leaf_at ks (findch ks key) key

  pub leaf_at : Kids → ℕ → ℕ → LeafNode
  leaf_at (one c) i key = leaf_for c key
  leaf_at (more c s ks) zero key = leaf_for c key
  leaf_at (more c s ks) (suc i) key = leaf_at ks i key

-- `vals[i]`.
unfoldable pub val_at : List Entry → ℕ → ℕ
val_at [] i = 0
val_at ((k, v) ∷ es) zero = v
val_at ((k, v) ∷ es) (suc i) = val_at es i

-- The result so far and its version.
abbrev pub Found : Type 0
Found = Option ℕ × ℕ

unfoldable pub find_base : LeafNode → ℕ → Found
unfolding findval key_at val_at
find_base t key =
    let i = findval t.kvs key in
    if key_at t.kvs i key then (some (val_at t.kvs i), t.ver) else (none, 0)

-- A published record that the snapshot may see.
unfoldable pub is_visible : ℕ → DeltaSlot → Bool
unfolding is_pending
is_visible snapshot slot =
    not (slot.version == 0) && not (is_pending slot.version) && leb slot.version snapshot

-- The body of the loop over the slots.
unfoldable pub find_slot : ℕ → ℕ → Found → DeltaSlot → Found
find_slot key snapshot r slot =
    if is_visible snapshot slot && leb r.1 slot.version && slot.key == key
    then (some slot.value, slot.version)
    else r

unfoldable pub find_slots : ℕ → ℕ → Found → List DeltaSlot → Found
find_slots key snapshot r [] = r
find_slots key snapshot r (s ∷ ss) = find_slots key snapshot (find_slot key snapshot r s) ss

abbrev pub slots_of : Option DeltaBlock → List DeltaSlot
slots_of none = []
slots_of (some block) = block.slots

-- `find(t, key, snapshot_version)`, after the test of a null root: a `Tree` is never null.
unfoldable pub find : Tree → ℕ → ℕ → Option ℕ
unfolding leaf_for find_base find_slots find_slot is_visible
find t key snapshot =
    let l = leaf_for t key in (find_slots key snapshot (find_base l key) (slots_of l.delta)).0

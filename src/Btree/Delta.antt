-- ===== src/Btree/Delta.antt =====
-- lib/trees/btree/node.hpp: the sidecar of a leaf, `delta_block`. Its slots are written in order,
-- and a reader only looks at versions, keys and values. An allocation does not fail here.
pub mod Laws
use contrees_fat_node.Prelude.{
  ℕ, suc, ◌+◌, ◌*◌, ◌/◌, ◌%◌, ◌^◌, Bool, true, false, not, ◌&&◌, ◌||◌, Option, none, some, List, [],
  ◌∷◌, ltb, leb, ◌==◌, if◌then◌else◌, length, get_elem?, set, replicate,
}
use contrees_fat_node.Btree.Node.{DeltaSlot, DeltaBlock}

-- `DELTA_PENDING`, the high bit of a 64-bit version.
abbrev pub delta_pending : ℕ
delta_pending = 2 ^ 63

-- `version & DELTA_PENDING`, as a test, and the version without that bit.
unfoldable pub is_pending : ℕ → Bool
is_pending version = version / delta_pending % 2 == 1

unfoldable pub ticket : ℕ → ℕ
ticket version = version % delta_pending

unfoldable pub supported_fat_slots : ℕ → Bool
supported_fat_slots capacity = capacity == 2 || capacity == 4 || capacity == 8

-- `sizeof(delta_block)` is 8 and `sizeof(delta_slot)` is 24.
unfoldable pub delta_block_size : ℕ → ℕ
delta_block_size capacity = 8 + capacity * 24

abbrev pub unused : DeltaSlot
unused = record { version = 0; key = 0; value = 0 }

unfoldable pub new_delta_block : ℕ → DeltaBlock
new_delta_block capacity = record {
  capacity = capacity;
  count = 0;
  slots = replicate capacity unused;
}

unfoldable pub leaf_delta_capacity : Option DeltaBlock → ℕ
leaf_delta_capacity none = 0
leaf_delta_capacity (some block) = block.capacity

unfoldable pub count_used : List DeltaSlot → ℕ
count_used [] = 0
count_used (s ∷ ss) = if s.version == 0 then count_used ss else suc (count_used ss)

unfoldable pub leaf_delta_count : Option DeltaBlock → ℕ
unfolding count_used
leaf_delta_count none = 0
leaf_delta_count (some block) = count_used block.slots

-- The sidecar, allocated when the leaf has none.
unfoldable pub block_of : ℕ → Option DeltaBlock → DeltaBlock
unfolding new_delta_block
block_of capacity none = new_delta_block capacity
block_of capacity (some block) = block

-- The slot at `count` is written, and `count` is advanced.
unfoldable pub write_slot : DeltaBlock → DeltaSlot → DeltaBlock
write_slot block slot = record block {
  count = block.count + 1;
  slots = set block.slots block.count slot;
}

-- `append_leaf_delta`: the sidecar afterwards, and whether the record was appended.
unfoldable pub append_leaf_delta : Option DeltaBlock → ℕ → ℕ → ℕ → ℕ → Option DeltaBlock × Bool
unfolding supported_fat_slots block_of write_slot
append_leaf_delta delta capacity version key value =
    if not (supported_fat_slots capacity)
    then (delta, false)
    else (let block = block_of capacity delta in
        if not (block.capacity == capacity) || leb block.capacity block.count
        then (some block, false)
        else (
          some (write_slot block (record { version = version; key = key; value = value })),
          true,
        ))

-- `reserve_leaf_delta`: the sidecar afterwards, and the index of the reserved slot.
unfoldable pub reserve_leaf_delta : Option DeltaBlock → ℕ → ℕ → ℕ → Option DeltaBlock × Option ℕ
unfolding supported_fat_slots block_of write_slot
reserve_leaf_delta delta capacity version key =
    if not (supported_fat_slots capacity)
    then (delta, none)
    else (let block = block_of capacity delta in
        if not (block.capacity == capacity) || block.count == capacity
        then (some block, none)
        else (
          some (
              write_slot block
                (record { version = delta_pending + version; key = key; value = 0 })),
          some block.count,
        ))

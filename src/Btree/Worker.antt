-- ===== src/Btree/Worker.antt =====
-- lib/trees/btree/handlers.hpp, `handle_fat_append`: a worker writes the value of a slot that
-- `reserve_leaf_delta` has reserved, and publishes it.
pub mod Laws
use contrees_fat_node.Prelude.{ℕ, zero, suc, Bool, true, false, Option, none, some, List, [], ◌∷◌}
use contrees_fat_node.Btree.Node.{DeltaSlot, DeltaBlock}
use contrees_fat_node.Btree.Delta.{reserve_leaf_delta}

-- The handler runs only on a leaf with a sidecar; without one nothing is written here.
-- `slot.value = ctx->val`, then the version without the bit of a pending one.
unfoldable pub publish_slot : List DeltaSlot → ℕ → ℕ → ℕ → List DeltaSlot
publish_slot [] i version value = []
publish_slot (s ∷ ss) zero version value = record s { version = version; value = value } ∷ ss
publish_slot (s ∷ ss) (suc i) version value = s ∷ publish_slot ss i version value

unfoldable pub handle_fat_append : Option DeltaBlock → ℕ → ℕ → ℕ → Option DeltaBlock
unfolding publish_slot
handle_fat_append none i version value = none
handle_fat_append (some block) i version value =
    some (record block { slots = publish_slot block.slots i version value })

-- The end of `pipeline_fat_reserve` in src/adapters/btree.hpp: a negative index is a refusal, and else
-- the task becomes a FAT_APPEND, which a worker runs.
unfoldable pub append_reserved : Option DeltaBlock × Option ℕ → ℕ → ℕ → Option DeltaBlock × Bool
unfolding handle_fat_append
append_reserved (delta, none) version value = (delta, false)
append_reserved (delta, some i) version value = (handle_fat_append delta i version value, true)

-- `pipeline_fat_reserve` from the leaf on, and the handler of its task, with nothing between them. The
-- walk down to the leaf, which gives up at a node that is not complete, is left out.
unfoldable pub reserve_and_append : Option DeltaBlock → ℕ → ℕ → ℕ → ℕ → Option DeltaBlock × Bool
unfolding reserve_leaf_delta append_reserved
reserve_and_append delta capacity version key value =
    append_reserved (reserve_leaf_delta delta capacity version key) version value

-- ===== src/Btree/Materialize.antt =====
-- `materialize_leaf_cow` of lib/trees/btree/update_cow.hpp: the entries of a leaf, its sidecar and a
-- new record become one sorted list, in one new leaf or two.
pub mod Records
pub mod Merge
pub mod Step
pub mod Size
use contrees_fat_node.Prelude.{
  ℕ, zero, suc, ◌+◌, ◌/◌, Bool, true, false, not, ◌&&◌, ◌||◌, Option, none, some, List, [], ◌∷◌,
  ◌++◌, map, ltb, leb, ◌==◌, if◌then◌else◌, length, take, drop,
}
use contrees_fat_node.SortedMap.{Entry}
use contrees_fat_node.Btree.Node.{DeltaSlot, DeltaBlock, full_size}
use contrees_fat_node.Btree.Query.{slots_of}
use contrees_fat_node.Btree.Inplace.{LeafUpdate, whole, leaf_halves}

-- `struct leaf_record`.
pub record LeafRecord : Type 0 where
  pub key : ℕ
  pub value : ℕ
  pub version : ℕ

-- The slots that the version `sno` sees, in slot order.
unfoldable pub collect : ℕ → List DeltaSlot → List LeafRecord
collect sno [] = []
collect sno (s ∷ ss) =
    if not (s.version == 0) && leb s.version sno
    then record { key = s.key; value = s.value; version = s.version } ∷ collect sno ss
    else collect sno ss

-- The order that `std::sort` is given: by key, then by version.
unfoldable pub record_less : LeafRecord → LeafRecord → Bool
record_less l r = if not (l.key == r.key) then ltb l.key r.key else ltb l.version r.version

unfoldable pub insert_record : LeafRecord → List LeafRecord → List LeafRecord
unfolding record_less
insert_record x [] = x ∷ []
insert_record x (y ∷ ys) = if record_less y x then y ∷ insert_record x ys else x ∷ y ∷ ys

-- `std::sort`, as a sort by insertion.
unfoldable pub sort_records : List LeafRecord → List LeafRecord
unfolding insert_record
sort_records [] = []
sort_records (x ∷ xs) = insert_record x (sort_records xs)

-- Adjacent records of one key become the last of them.
unfoldable pub newest_per_key : List LeafRecord → List LeafRecord
newest_per_key [] = []
newest_per_key (x ∷ []) = x ∷ []
newest_per_key (x ∷ y ∷ ys) =
    let rest = newest_per_key (y ∷ ys) in if y.key == x.key then rest else x ∷ rest

-- The loop that merges the sorted base, of version `ver`, with the sorted overlay.
unfoldable pub merge_base : ℕ → List Entry → List LeafRecord → List Entry
merge_base ver [] [] = []
merge_base ver [] (d ∷ ds) = (d.key, d.value) ∷ merge_base ver [] ds
merge_base ver ((k, v) ∷ es) [] = (k, v) ∷ merge_base ver es []
merge_base ver ((k, v) ∷ es) (d ∷ ds) = elim (ltb k d.key) [
  | true ↦ (k, v) ∷ merge_base ver es (d ∷ ds)
  | false ↦ elim (k == d.key) [
    | true ↦ (k, if ltb d.version ver then v else d.value) ∷ merge_base ver es ds
    | false ↦ (d.key, d.value) ∷ merge_base ver ((k, v) ∷ es) ds
  ]
]

unfoldable pub materialized : ℕ → List Entry → Option DeltaBlock → ℕ → ℕ → ℕ → List Entry
unfolding collect sort_records newest_per_key merge_base
materialized ver es d sno key val =
    let new : LeafRecord = record { key = key; value = val; version = sno } in
    merge_base ver es (newest_per_key (sort_records (collect sno (slots_of d) ++ new ∷ [])))

-- One leaf if the entries fit, else two halves.
unfoldable pub spread : List Entry → LeafUpdate
unfolding leaf_halves
spread es =
    if leb (length es) full_size
    then whole es
    else leaf_halves (take (length es / 2) es, drop (length es / 2) es)

unfoldable pub materialize_leaf_cow : ℕ → List Entry → Option DeltaBlock → ℕ → ℕ → ℕ → LeafUpdate
unfolding materialized spread
materialize_leaf_cow ver es d sno key val = spread (materialized ver es d sno key val)

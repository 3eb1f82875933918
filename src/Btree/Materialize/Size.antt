-- ===== src/Btree/Materialize/Size.antt =====
-- How many entries `materialize_leaf_cow` of lib/trees/btree/update_cow.hpp leaves, and in how many leaves.
use contrees_fat_node.Prelude.{
  ℕ, ◌+◌, ◌/◌, ◌≤◌, ◌<◌, ◌≡◌, refl, Option, inl, inr, List, [], ◌∷◌, ◌++◌, arith, length, leb,
  Bool-cases, length-append, length-take, length-drop, take-append-drop, leb→le, leb→lt,
}
use contrees_fat_node.SortedMap.{Entry}
use contrees_fat_node.Btree.Node.{DeltaBlock, full_size}
use contrees_fat_node.Btree.Query.{slots_of}
use contrees_fat_node.Btree.Inplace.{leaf_halves}
use contrees_fat_node.Btree.Materialize.{
  LeafRecord, collect, sort_records, newest_per_key, materialized, spread,
}
use contrees_fat_node.Btree.Materialize.Records.{length-sort_records, length-newest_per_key}
use contrees_fat_node.Btree.Materialize.Merge.{length-merge_base}
use contrees_fat_node.Btree.Leaf.{FilledUpdate, update_list}
use contrees_fat_node.Btree.Materialize.Step.{length-collect}

-- A leaf does not lose entries, and gains at most one for each slot and the new record.
pub length-materialized :
    (old : ℕ) (es : List Entry) (d : Option DeltaBlock) (sno key val : ℕ)
    → (length es ≤ length (materialized old es d sno key val))
      × (length (materialized old es d sno key val) ≤ length es + length (slots_of d) + 1)
unfolding materialized
length-materialized old es d sno key val =
    let x : LeafRecord = record { key = key; value = val; version = sno } in
    let xs = collect sno (slots_of d) ++ x ∷ [] in
    omega (
      arith,
      length-merge_base old es (newest_per_key (sort_records xs)),
      length-newest_per_key (sort_records xs),
      length-sort_records xs,
      length-append (collect sno (slots_of d)) (x ∷ []),
      length-collect sno (slots_of d),
    )

pub update_list-spread : (es : List Entry) → update_list (spread es) ≡ es
unfolding spread leaf_halves
update_list-spread es = elim (Bool-cases (leb (length es) full_size)) [
  | inl fits ↦ rw fits
  | inr full ↦ rw full (take-append-drop (length es / 2) es)
]

pub spread-Filled :
    (n : ℕ) (es : List Entry) → n ≤ length es → length es ≤ 24 → FilledUpdate n (spread es)
unfolding spread leaf_halves
spread-Filled n es h j = elim (Bool-cases (leb (length es) full_size)) [
  | inl fits ↦ rw fits (h, leb→le (length es) full_size fits)
  | inr full ↦
      let m : 15 < length es = leb→lt (length es) full_size full in
      let x = length-take (length es / 2) es in
      let y = length-drop (length es / 2) es in
      rw full (omega (arith, x), omega (arith, x), omega (arith, y), omega (arith, y), refl)
]

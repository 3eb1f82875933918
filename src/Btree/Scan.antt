-- ===== src/Btree/Scan.antt =====
-- lib/trees/btree/query.hpp: range scans at a snapshot version. The vector that they fill is passed
-- along; its size stops them.
pub mod Records
pub mod Leaf
pub mod Correct
use contrees_fat_node.Prelude.{
  ℕ, zero, suc, Bool, true, false, not, ◌||◌, List, [], ◌∷◌, ◌++◌, Option, ltb, leb, ◌==◌,
  if◌then◌else◌, length,
}
use contrees_fat_node.SortedMap.{Entry}
use contrees_fat_node.Btree.Node.{
  Tree, Kids, DeltaSlot, DeltaBlock, leaf, internal, one, more, findch,
}
use contrees_fat_node.Btree.Query.{is_visible, slots_of}
use contrees_fat_node.Btree.Materialize.{LeafRecord, sort_records, newest_per_key}

-- The used entries of a leaf of version `ver`, as records. A `visible_leaf_record` has the fields of a
-- `leaf_record`, and the comparison that sorts them is the same.
unfoldable pub base_records : ℕ → List Entry → List LeafRecord
base_records ver [] = []
base_records ver ((k, v) ∷ es) = record { key = k; value = v; version = ver } ∷ base_records ver es

-- The slots that the snapshot sees.
unfoldable pub visible_records : ℕ → List DeltaSlot → List LeafRecord
unfolding is_visible
visible_records snapshot [] = []
visible_records snapshot (s ∷ ss) =
    if is_visible snapshot s
    then record { key = s.key; value = s.value; version = s.version } ∷ visible_records snapshot ss
    else visible_records snapshot ss

-- One round of the last loop: the newest record of a key is passed over below the bound.
unfoldable pub emit_one : ℕ → Bool → List Entry → LeafRecord → List Entry
emit_one lower_bound use_lower_bound ret newest =
    if not use_lower_bound || leb lower_bound newest.key
    then ret ++ (newest.key, newest.value) ∷ []
    else ret

unfoldable pub emit : ℕ → Bool → ℕ → List Entry → List LeafRecord → List Entry
unfolding emit_one
emit lower_bound use_lower_bound n ret [] = ret
emit lower_bound use_lower_bound n ret (r ∷ rs) = elim (ltb (length ret) n) [
  | true ↦ emit lower_bound use_lower_bound n (emit_one lower_bound use_lower_bound ret r) rs
  | false ↦ ret
]

unfoldable pub leaf_records : ℕ → List Entry → Option DeltaBlock → ℕ → List LeafRecord
unfolding base_records visible_records sort_records newest_per_key
leaf_records ver es d snapshot =
    newest_per_key (sort_records (base_records ver es ++ visible_records snapshot (slots_of d)))

-- `scan_visible_leaf`.
unfoldable pub scan_visible_leaf :
    ℕ → List Entry → Option DeltaBlock → ℕ → Bool → ℕ → ℕ → List Entry → List Entry
unfolding leaf_records emit
scan_visible_leaf ver es d lower_bound use_lower_bound n snapshot ret =
    emit lower_bound use_lower_bound n ret (leaf_records ver es d snapshot)

-- `scan_visible_append`, and its loop over the children that are left.
unfoldable mutual
  unfolding scan_visible_leaf

  pub scan_visible_append : Tree → ℕ → ℕ → List Entry → List Entry
  scan_visible_append (leaf ver es d) n snapshot ret =
      scan_visible_leaf ver es d 0 false n snapshot ret
  scan_visible_append (internal ver ks) n snapshot ret = append_children ks n snapshot ret

  pub append_children : Kids → ℕ → ℕ → List Entry → List Entry
  append_children (one c) n snapshot ret =
      let rest = scan_visible_append c n snapshot ret in if ltb (length ret) n then rest else ret
  append_children (more c s ks) n snapshot ret =
      let rest = append_children ks n snapshot (scan_visible_append c n snapshot ret) in
      if ltb (length ret) n then rest else ret

-- `scan_visible_search`; `search_children ks i` goes on from `chs[i]`, and then over the children
-- behind it.
unfoldable mutual
  unfolding scan_visible_leaf append_children findch

  pub scan_visible_search : Tree → ℕ → ℕ → ℕ → List Entry → List Entry
  scan_visible_search (leaf ver es d) key n snapshot ret =
      scan_visible_leaf ver es d key true n snapshot ret
  scan_visible_search (internal ver ks) key n snapshot ret =
      search_children ks (findch ks key) key n snapshot ret

  pub search_children : Kids → ℕ → ℕ → ℕ → ℕ → List Entry → List Entry
  search_children (one c) i key n snapshot ret = scan_visible_search c key n snapshot ret
  search_children (more c s ks) zero key n snapshot ret =
      append_children ks n snapshot (scan_visible_search c key n snapshot ret)
  search_children (more c s ks) (suc i) key n snapshot ret = search_children ks i key n snapshot ret

-- `scan(t, key, n, snapshot_version)`, on a tree.
unfoldable pub scan : Tree → ℕ → ℕ → ℕ → List Entry
unfolding scan_visible_search
scan t key n snapshot = if not (n == 0) then scan_visible_search t key n snapshot [] else []

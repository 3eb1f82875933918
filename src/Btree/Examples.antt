-- ===== src/Btree/Examples.antt =====
-- Runs of lib/trees/btree on small trees.
use contrees_fat_node.Prelude.{
  ℕ, ◌≡◌, ◌≤◌, refl, true, false, Option, none, some, List, [], ◌∷◌, arith, tests,
}
use contrees_fat_node.SortedMap.{Entry, lookup, put}
use contrees_fat_node.Btree.Node.{Tree, DeltaBlock, leaf, internal, one, more, size}
use contrees_fat_node.Btree.Shape.{entries, Ordered, FilledRoot, content}
use contrees_fat_node.Btree.Delta.{append_leaf_delta, supported_fat_slots}
use contrees_fat_node.Btree.Delta.Laws.{Appended, append_leaf_delta-Appended}
use contrees_fat_node.Btree.Inplace.{update_root_inplace, update_entries}
use contrees_fat_node.Btree.Leaf.{
  FilledUpdate, update_list, update_entries-put, update_entries-Filled,
}
use contrees_fat_node.Btree.Materialize.{materialized}
use contrees_fat_node.Btree.Materialize.Step.{materialized-put}
use contrees_fat_node.Btree.Query.{find}
use contrees_fat_node.Btree.Query.Find.{find-lookup}
use contrees_fat_node.Btree.Cow.{Task, exec_task, append_at_leaf}
use contrees_fat_node.Btree.Update.{key_limit, IsTree, Done, exec_task_fat, append_isolated}
use contrees_fat_node.Btree.Scan.{scan}
use contrees_fat_node.Btree.Scan.Leaf.{from_key}
use contrees_fat_node.Btree.Scan.Correct.{scan_lem}
use contrees_fat_node.Prelude.{take}
use contrees_fat_node.Btree.Sequence.{exec_tasks, AllDone, exec_tasks_lem}
use contrees_fat_node.Btree.Worker.{reserve_and_append}
use contrees_fat_node.Btree.Worker.Laws.{reserve_and_append_lem, reserve_leaf_delta_lem}
use contrees_fat_node.Btree.Query.{slots_of}
use contrees_fat_node.Btree.Delta.{reserve_leaf_delta}
use contrees_fat_node.Btree.Shape.{overlay}
use contrees_fat_node.Btree.Plain.{PlainDone, exec_task_plain, update_root_inplace_lem}

-- Two leaves of eight entries each, the first with a record of version 3.
abbrev low : List Entry
low = (1, 10) ∷ (2, 20) ∷ (3, 30) ∷ (4, 40) ∷ (5, 50) ∷ (6, 60) ∷ (7, 70) ∷ (8, 80) ∷ []

abbrev high : List Entry
high = (10, 0) ∷ (20, 0) ∷ (30, 0) ∷ (40, 0) ∷ (50, 0) ∷ (60, 0) ∷ (70, 0) ∷ (80, 0) ∷ []

abbrev half_used : Option DeltaBlock
half_used = some (record {
  capacity = 2;
  count = 1;
  slots =
      record { version = 3; key = 9; value = 90 } ∷ record { version = 0; key = 0; value = 0 } ∷ [];
})

abbrev two_leaves : Tree
two_leaves = internal 2 (more (leaf 2 low half_used) 10 (one (leaf 2 high none)))

-- The same without the record.
abbrev two_bare_leaves : Tree
two_bare_leaves = internal 2 (more (leaf 2 low none) 10 (one (leaf 2 high none)))

abbrev at_nine : Task
at_nine = record { sno = 4; key = 9; val = 99; fat_slots = 2; gc_enabled = true }

abbrev plain_task : Task
plain_task = record { sno = 4; key = 9; val = 99; fat_slots = 0; gc_enabled = true }

supported : supported_fat_slots 2 ≡ true
unfolding supported_fat_slots
supported = refl

unsupported : supported_fat_slots 0 ≡ false
unfolding supported_fat_slots
unsupported = refl

two_bare_leaves-Ordered : Ordered 0 key_limit two_bare_leaves
two_bare_leaves-Ordered = omega (arith, tests)

two_bare_leaves-FilledRoot : FilledRoot 1 two_bare_leaves
unfolding size
two_bare_leaves-FilledRoot = omega (arith, tests)

two_leaves-IsTree : IsTree 4 1 two_leaves
unfolding size
two_leaves-IsTree = record {
  ordered = omega (arith, tests);
  filled = omega (arith, tests);
  aged = omega (arith, tests);
}

exec_task_fat_example : Done at_nine 1 two_leaves (exec_task at_nine two_leaves)
exec_task_fat_example =
    exec_task_fat at_nine 1 two_leaves two_leaves-IsTree (omega tests) (omega tests) supported

append_isolated_example : find (append_at_leaf at_nine two_leaves).0 9 3 ≡ find two_leaves 9 3
append_isolated_example =
    append_isolated at_nine 1 two_leaves two_leaves-IsTree (omega tests) (omega tests) 3 9
      (omega tests)

-- The older record is still what a snapshot at its version reads.
older_snapshot : find (append_at_leaf at_nine two_leaves).0 9 3 ≡ some 90
unfolding find append_at_leaf
older_snapshot = refl

newer_snapshot : find (append_at_leaf at_nine two_leaves).0 9 4 ≡ some 99
unfolding find append_at_leaf
newer_snapshot = refl

exec_task_plain_example :
    PlainDone plain_task 1 two_bare_leaves (exec_task plain_task two_bare_leaves)
exec_task_plain_example =
    exec_task_plain plain_task 1 two_bare_leaves unsupported (omega tests) two_bare_leaves-Ordered
      two_bare_leaves-FilledRoot (refl, refl)

update_root_inplace_lem_example :
    (entries none (update_root_inplace two_leaves 9 5) ≡ put 9 5 (entries none two_leaves))
    × Ordered 0 key_limit (update_root_inplace two_leaves 9 5)
    × ((h' : ℕ) × (h' ≤ 2) × FilledRoot h' (update_root_inplace two_leaves 9 5))
update_root_inplace_lem_example =
    update_root_inplace_lem 1 9 5 two_leaves (omega tests) two_leaves-IsTree.ordered
      two_leaves-IsTree.filled

find-lookup_example : find two_leaves 9 3 ≡ lookup 9 (entries (some 3) two_leaves)
find-lookup_example = find-lookup 9 3 0 key_limit two_leaves two_leaves-IsTree.ordered

materialized-put_example :
    materialized 2 low half_used 4 9 99 ≡ put 9 99 (content (some 4) low half_used)
materialized-put_example =
    materialized-put 4 0 10 2 4 9 99 low half_used (omega (arith, tests)) (omega (arith, tests))
      (omega tests) (omega tests) (omega tests)

append_leaf_delta-Appended_example :
    Appended 2 4 0 10 9 99 low half_used (append_leaf_delta half_used 2 4 9 99)
append_leaf_delta-Appended_example =
    append_leaf_delta-Appended 2 4 0 10 9 99 low half_used (omega (arith, tests))
      (omega (arith, tests)) (omega tests) (omega tests) (omega tests) 2

update_entries-put_example : update_list (update_entries low 9 5) ≡ put 9 5 low
update_entries-put_example = update_entries-put low 9 5 (omega tests)

update_entries-Filled_example : FilledUpdate 8 (update_entries low 9 5)
update_entries-Filled_example = update_entries-Filled low 9 5 (omega tests)

reserve_and_append_lem_example :
    reserve_and_append half_used 2 4 9 99 ≡ append_leaf_delta half_used 2 4 9 99
reserve_and_append_lem_example = reserve_and_append_lem half_used 2 4 9 99 (omega tests)

reserve_leaf_delta_lem_example :
    overlay 5 (slots_of (reserve_leaf_delta half_used 2 4 9).0) low
    ≡ overlay 5 (slots_of half_used) low
reserve_leaf_delta_lem_example =
    reserve_leaf_delta_lem half_used 2 4 9 5 low (omega tests) (refl, tt)

-- The first update fills the sidecar of its leaf, the second finds it full.
abbrev two_updates : List Entry
two_updates = (9, 99) ∷ (4, 44) ∷ []

exec_tasks_lem_example :
    AllDone 3 two_leaves two_updates (exec_tasks 2 true 3 two_leaves two_updates)
exec_tasks_lem_example =
    exec_tasks_lem 2 true supported 3 1 two_leaves two_updates (omega (arith, tests)) (omega tests)
      two_leaves-IsTree

scan_lem_example : scan two_leaves 8 3 3 ≡ take 3 (from_key 8 (entries (some 3) two_leaves))
scan_lem_example = scan_lem two_leaves 0 key_limit 8 3 3 two_leaves-IsTree.ordered

-- The record in the sidecar stands between the two leaves.
three_from_eight : scan two_leaves 8 3 3 ≡ (8, 80) ∷ (9, 90) ∷ (10, 0) ∷ []
unfolding scan
three_from_eight = refl

-- ===== src/Art/Examples.antt =====
-- Runs of lib/trees/art on small trees.
use contrees_fat_node.Prelude.{
  ℕ, ◌<◌, ◌^◌, ◌≡◌, ◌&&◌, leb, refl, true, Option, none, some, List, [], ◌∷◌, ◌==◌, if◌then◌else◌,
  arith, tests, ◌++◌, take,
}
use contrees_fat_node.Btree.Cow.{Task}
use contrees_fat_node.Art.Key.{prefix_match}
use contrees_fat_node.Art.Key.Agree.{agree}
use contrees_fat_node.Art.Key.Prefix.{prefix_match-agree}
use contrees_fat_node.Art.Index.{Kind, node4, find_idx, slot}
use contrees_fat_node.Art.Node.{findch, write, insert_inplace, insert_cow}
use contrees_fat_node.Art.Node.Laws.{IsKind, Inserted}
use contrees_fat_node.Art.Node.Insert.{insert_inplace-Inserted, insert_cow-Inserted}
use contrees_fat_node.Art.Node.Children.{write-findch}
use contrees_fat_node.Art.Tree.{Tree, null, find, update_inplace, build}
use contrees_fat_node.Art.Tree.Shape.{Present}
use contrees_fat_node.Art.Tree.Build.{IsRoot, latest, find-update_inplace, find-build}
use contrees_fat_node.Art.Cow.{append_at_leaf, exec_task}
use contrees_fat_node.Art.Tree.Inplace.{Plain}
use contrees_fat_node.Art.Scan.{scan_append, scan}
use contrees_fat_node.Art.Scan.Entries.{entries, scan_append-entries}
use contrees_fat_node.Art.Cow.Update.{
  IsLogged, Updated, exec_task_radix, exec_task_radix_plain, find-append_at_leaf,
}

-- A full `node4`, with child 10 times its byte.
abbrev four : Kind
four = node4 (3 ∷ 5 ∷ 8 ∷ 9 ∷ [])

abbrev tens : ℕ → ℕ
tens i = if i == 0 then 30 else if i == 1 then 50 else if i == 2 then 80 else 90

four-IsKind : IsKind four
four-IsKind = omega (arith, tests)

insert_inplace-Inserted_example : Inserted 0 four tens 6 60 (insert_inplace 0 four tens 6 60)
unfolding find_idx
insert_inplace-Inserted_example =
    insert_inplace-Inserted 0 6 60 tens (omega arith) four four-IsKind refl

insert_cow-Inserted_example : Inserted 0 four tens 6 60 (insert_cow 0 four tens 6 60)
unfolding find_idx
insert_cow-Inserted_example = insert_cow-Inserted 0 6 60 tens (omega arith) four four-IsKind refl

-- The insertion extends the node, and moves the children behind the new one.
moves_behind :
    (λ (i : ℕ). findch 0 (insert_inplace 0 four tens 6 60).0 (insert_inplace 0 four tens 6 60).1 i)
      8
    ≡ 80
unfolding findch insert_inplace
moves_behind = refl

write-findch_example :
    findch 0 four (write tens (slot four 2) 81) 5 ≡ (if 5 == 8 then 81 else findch 0 four tens 5)
unfolding find_idx
write-findch_example = write-findch 0 four tens 8 2 81 four-IsKind refl 5

-- Keys that agree in their first six bytes.
abbrev key_a : ℕ
key_a = 72623859790382856

abbrev key_b : ℕ
key_b = 72623859790383368

prefix_match-agree_example : leb 6 (prefix_match 1 7 key_a key_b) ≡ agree 6 1 key_b key_a
prefix_match-agree_example = prefix_match-agree 1 7 key_a key_b 6 (omega arith) (omega arith)

matches_five : prefix_match 1 7 key_a key_b ≡ 5
unfolding prefix_match
matches_five = refl

abbrev elems : List (ℕ × ℕ)
elems = (258, 1) ∷ (259, 2) ∷ (515, 3) ∷ (259, 4) ∷ []

find-build_example : find (build elems) 259 0 ≡ latest none elems 259
find-build_example = find-build elems 259 0 (omega arith) (omega arith)

builds : find (build elems) 259 0 ≡ some 4
unfolding find build
builds = refl

-- Updates of three keys, of versions 1, 2 and 3, with four slots to a leaf.
abbrev task : ℕ → ℕ → ℕ → ℕ → Task
task fat_slots sno key val = record {
  sno = sno;
  key = key;
  val = val;
  fat_slots = fat_slots;
  gc_enabled = true;
}

null-IsLogged : IsLogged 4 1 null
null-IsLogged = omega arith

first : Updated (task 4 1 key_a 10) 4 null (exec_task (task 4 1 key_a 10) null)
first = exec_task_radix (task 4 1 key_a 10) (omega arith) (omega arith) refl null null-IsLogged

second : Updated (task 4 2 key_b 20) 4 first.tree (exec_task (task 4 2 key_b 20) first.tree)
second =
    exec_task_radix (task 4 2 key_b 20) (omega arith) (omega arith) refl first.tree
      first.well_formed

-- The third goes to a leaf that is there.
exec_task_radix_example :
    Updated (task 4 3 key_a 30) 4 second.tree (exec_task (task 4 3 key_a 30) second.tree)
exec_task_radix_example =
    exec_task_radix (task 4 3 key_a 30) (omega arith) (omega arith) refl second.tree
      second.well_formed

exec_task_radix_plain_example :
    Updated (task 0 3 key_a 30) 4 second.tree (exec_task (task 0 3 key_a 30) second.tree)
exec_task_radix_plain_example =
    exec_task_radix_plain (task 0 3 key_a 30) (omega arith) 4 second.tree refl (omega arith)
      second.well_formed

find-append_at_leaf_example : find (append_at_leaf (task 4 3 key_a 30) second.tree).0 key_a 2 ≡ (
    if (append_at_leaf (task 4 3 key_a 30) second.tree).1 && leb 3 2 && key_a == key_a
    then some 30
    else find second.tree key_a 2)
find-append_at_leaf_example =
    find-append_at_leaf (task 4 3 key_a 30) (omega arith) (omega arith) refl second.tree
      second.well_formed key_a 2 (omega arith)

null-IsRoot : IsRoot null
null-IsRoot = omega arith

abbrev one_leaf : Tree
one_leaf = update_inplace null 0 258 1

one_leaf-IsRoot : IsRoot one_leaf
one_leaf-IsRoot = (find-update_inplace null 258 1 null-IsRoot (omega arith)).0

find-update_inplace_example :
    IsRoot (update_inplace one_leaf 0 259 2)
    × ((q version : ℕ)
        → q < 2 ^ 64
        → find (update_inplace one_leaf 0 259 2) q version
          ≡ (if q == 259 then some 2 else find one_leaf q version))
find-update_inplace_example = find-update_inplace one_leaf 259 2 one_leaf-IsRoot (omega arith)

-- What a run of two updates from the empty tree reads.
then_find : Task → ℕ → ℕ → Option (Tree × List Tree) → Option ℕ
then_find ctx q v none = none
then_find ctx q v (some (t, retired)) = elim (exec_task ctx t) [
  | none ↦ none
  | some (t', rs) ↦ find t' q v
]

reads_old : then_find (task 4 2 key_a 20) key_a 1 (exec_task (task 4 1 key_a 10) null) ≡ some 10
unfolding then_find exec_task find
reads_old = refl

forks : then_find (task 4 2 key_b 20) key_a 2 (exec_task (task 4 1 key_a 10) null) ≡ some 10
unfolding then_find exec_task find
forks = refl

abbrev two_leaves : Tree
two_leaves = update_inplace one_leaf 0 259 2

two_leaves-Present : Present two_leaves
unfolding update_inplace
two_leaves-Present = tt

scan_append-entries_example :
    scan_append two_leaves none 2 0 ((5, 6) ∷ [])
    ≡ some (((5, 6) ∷ []) ++ take 1 (entries two_leaves 0))
scan_append-entries_example =
    scan_append-entries Plain 0 two_leaves 2 0 ((5, 6) ∷ [])
      (find-update_inplace one_leaf 259 2 one_leaf-IsRoot (omega arith)).0 two_leaves-Present
      (omega arith)

scans_from : scan two_leaves 259 3 0 ≡ some ((259, 2) ∷ [])
unfolding scan update_inplace
scans_from = refl

scans_both : scan (build elems) 0 2 0 ≡ some ((258, 1) ∷ (259, 4) ∷ [])
unfolding scan build
scans_both = refl

-- ===== src/Btree/Cow/Fat.antt =====
-- lib/trees/btree/update_cow.hpp with fat leaves: the step at the leaf.
use contrees_fat_node.Prelude.{ℕ, ◌≤◌, ◌≡◌, ◌∙◌, true, Option, some, List, arith, length}
use contrees_fat_node.SortedMap.{Entry}
use contrees_fat_node.Btree.Node.{DeltaBlock}
use contrees_fat_node.Btree.Query.{slots_of}
use contrees_fat_node.Btree.Delta.{supported_fat_slots}
use contrees_fat_node.Btree.Materialize.{materialize_leaf_cow, materialized, spread}
use contrees_fat_node.Btree.Materialize.Step.{Aged, materialized-put}
use contrees_fat_node.Btree.Materialize.Size.{
  length-materialized, update_list-spread, spread-Filled,
}
use contrees_fat_node.Btree.Inplace.Correct.{grown_leaf_fresh-Acts}
use contrees_fat_node.Btree.Cow.{Task, update_leaf_cow}
use contrees_fat_node.Btree.Cow.Stages.{LeafStep}

-- The update of a leaf puts the entry into what a snapshot from its version on sees of the leaf.
pub fat-LeafStep :
    (ctx : Task) (snapshot : ℕ)
    → supported_fat_slots ctx.fat_slots ≡ true
    → ctx.sno ≤ snapshot
    → (old : ℕ) (es : List Entry) (d : Option DeltaBlock) → Aged ctx.sno old es d
    → length es ≤ 15
    → length (slots_of d) ≤ 8
    → LeafStep (some snapshot) ctx old es d
unfolding update_leaf_cow materialize_leaf_cow
fat-LeafStep ctx snapshot fat s old es d a h k =
    let m = materialized old es d ctx.sno ctx.key ctx.val in
    let n = length-materialized old es d ctx.sno ctx.key ctx.val in
    let f = spread-Filled (length es) m n.0 (omega (arith, n.1)) in
    record {
      update = spread m;
      made = rw fat;
      filled = f;
      acts =
          grown_leaf_fresh-Acts (some snapshot) old ctx.sno ctx.key ctx.val (length es) es d
            (spread m)
            (λ lo hi x y o.
              update_list-spread m
              ∙ materialized-put snapshot lo hi old ctx.sno ctx.key ctx.val es d o a s x y)
            f;
    }

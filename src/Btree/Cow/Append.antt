-- ===== src/Btree/Cow/Append.antt =====
-- The fat fast path of lib/trees/btree/handlers.hpp: appending to the sidecar of the leaf for a key.
use contrees_fat_node.Prelude.{
  ℕ, ◌<◌, Bool, Option, none, some, inl, inr, List, ltb, Bool-cases, if◌then◌else◌, ltb→lt, ltb→le,
}
use contrees_fat_node.SortedMap.{Entry}
use contrees_fat_node.Btree.Node.{Tree, Kids, DeltaBlock, leaf, internal, one, more, findch}
use contrees_fat_node.Btree.Inplace.{same}
use contrees_fat_node.Btree.Delta.{delta_pending, append_leaf_delta}
use contrees_fat_node.Btree.Delta.Laws.{seen_by, append_leaf_delta-Appended}
use contrees_fat_node.Btree.Focus.{Acts, ActsKids, first_child, later_child}
use contrees_fat_node.Btree.Leaves.{Leaves, LeavesKids}
use contrees_fat_node.Btree.Materialize.Step.{Aged}
use contrees_fat_node.Btree.Cow.{Task, append_at_leaf, append_at_child}

-- What an append does to the entries that a snapshot sees; an append that failed does nothing.
abbrev pub outcome : Task → ℕ → Bool → Option ℕ
outcome ctx snapshot appended = if appended then seen_by ctx.sno snapshot ctx.val else none

module _ (ctx : Task) (snapshot : ℕ) (p : ctx.sno < delta_pending) where
  append_leaf-Acts :
      (ver : ℕ) (es : List Entry) (d : Option DeltaBlock)
      → Aged ctx.sno ver es d
      → let r = append_leaf_delta d ctx.fat_slots ctx.sno ctx.key ctx.val in
        Acts
          (some snapshot)
          (outcome ctx snapshot r.1)
          ctx.key
          (leaf ver es d)
          (same (leaf ver es r.0))
  append_leaf-Acts ver es d a lo hi h j o =
      let x =
        append_leaf_delta-Appended ver ctx.sno lo hi ctx.key ctx.val es d o a p h j ctx.fat_slots in
      ((o.0, x.sidecar), x.shows snapshot)

  mutual
    unfolding append_at_leaf findch

    pub append_at_leaf-Acts :
        (t : Tree)
        → Leaves (Aged ctx.sno) t
        → Acts
            (some snapshot)
            (outcome ctx snapshot (append_at_leaf ctx t).1)
            ctx.key
            t
            (same (append_at_leaf ctx t).0)
    append_at_leaf-Acts (leaf ver es d) a = append_leaf-Acts ver es d a
    append_at_leaf-Acts (internal ver ks) a = append_at_child-ActsKids ks a

    pub append_at_child-ActsKids :
        (ks : Kids)
        → LeavesKids (Aged ctx.sno) ks
        → let r = append_at_child ctx ks (findch ks ctx.key) in
          ActsKids (some snapshot) (outcome ctx snapshot r.1) ctx.key ks r.0
    append_at_child-ActsKids (one c) a = append_at_leaf-Acts c a
    append_at_child-ActsKids (more c s ks) a = elim (Bool-cases (ltb ctx.key s)) [
      | inl e ↦ rw e (
          first_child (some snapshot) (outcome ctx snapshot (append_at_leaf ctx c).1) ctx.key s c
            (append_at_leaf ctx c).0 ks (ltb→lt ctx.key s e) (append_at_leaf-Acts c a.0))
      | inr e ↦ rw e (
          later_child (some snapshot)
            (outcome ctx snapshot (append_at_child ctx ks (findch ks ctx.key)).1) ctx.key s c ks
            (append_at_child ctx ks (findch ks ctx.key)).0 (ltb→le ctx.key s e)
            (append_at_child-ActsKids ks a.1))
    ]

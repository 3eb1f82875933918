-- ===== src/Btree/Cow/Correct.antt =====
-- `handle_init_cow` of lib/trees/btree/handlers.hpp, from the root on.
use contrees_fat_node.Prelude.{
  ℕ, zero, suc, ◌≤◌, ◌≡◌, refl, true, false, Option, none, some, inl, inr, List, [], ◌∷◌, arith,
  length, ltb, Bool-cases, tests, ltb→lt, ltb→le, lt→leb, le→leb,
}
use contrees_fat_node.SortedMap.{Entry}
use contrees_fat_node.Btree.Node.{
  Tree, Kids, DeltaBlock, leaf, internal, one, size, child, set_child, findch, insert_child, split,
  full_size, height,
}
use contrees_fat_node.Btree.Inplace.{
  Grown, same, pair, make_room, grown_leaf, root_of, update_entries,
}
use contrees_fat_node.Btree.Query.{slots_of}
use contrees_fat_node.Btree.Delta.{supported_fat_slots}
use contrees_fat_node.Btree.Shape.{FilledKids, FilledRoot, height_kids-FilledKids}
use contrees_fat_node.Btree.Leaves.{
  LeafPred, Leaves, LeavesKids, child-Leaves, set_child-Leaves, make_room-Leaves,
}
use contrees_fat_node.Btree.Leaf.{update_entries-put, update_entries-Filled}
use contrees_fat_node.Btree.Fill.{size-set_child}
use contrees_fat_node.Btree.Inplace.Descent.{
  Serves, Entered, make_room-Serves, make_room-Entered, Entered-Serves, Serves-trans,
}
use contrees_fat_node.Btree.Inplace.Correct.{grown_leaf_fresh-Acts}
use contrees_fat_node.Btree.Inplace.Root.{
  Puts, ActsKids-Puts, one-Puts, root_of-Puts, root_leaf-Filled,
}
use contrees_fat_node.Btree.Cow.{
  Task, plug, update_leaf_cow, update_cow, retire_replaced, kids_at, handle_init_cow,
}
use contrees_fat_node.Btree.Cow.Stages.{
  LeafStep, Ends, update_cow-Ends, kids_at-Entered, run_stages_done, GrownLeaves, grown_leaf-Leaves,
}

-- The tree after an update: the entry is put, and the tree is filled, with one more level at most.
pub record Updated (w : Option ℕ) (h : ℕ) (ctx : Task) (t t' : Tree) : Type 0 where
  pub puts : Puts w ctx.key ctx.val t t'
  pub levels : ℕ
  pub at_most : levels ≤ suc h
  pub filled : FilledRoot levels t'

full_root_stage :
    (ctx : Task) (ver : ℕ) (ks : Kids)
    → ltb (size ks) full_size ≡ false
    → let (ks', j) = make_room ctx.sno (one (internal ver ks)) 0 ks ctx.key in
      handle_init_cow ctx (internal ver ks)
      ≡ update_cow ctx ((ks', j) ∷ []) (kids_at ks' j) (retire_replaced ctx [] (internal ver ks))
unfolding handle_init_cow make_room kids_at child insert_child
full_root_stage ctx ver ks full = elim (Bool-cases (ltb ctx.key (split ks).1)) [
  | inl left ↦ rw (full, left, lt→leb (split ks).1 ctx.key (ltb→lt ctx.key (split ks).1 left))
  | inr right ↦ rw (full, right, le→leb (split ks).1 ctx.key (ltb→le ctx.key (split ks).1 right))
]

room_root_stage :
    (ctx : Task) (ver : ℕ) (ks : Kids)
    → ltb (size ks) full_size ≡ true
    → handle_init_cow ctx (internal ver ks)
      ≡ update_cow ctx [] ks (retire_replaced ctx [] (internal ver ks))
unfolding handle_init_cow
room_root_stage ctx ver ks room = rw room

root_of-Leaves : (R : LeafPred) (ver : ℕ) (g : Grown) → GrownLeaves R g → Leaves R (root_of ver g)
unfolding root_of
root_of-Leaves R ver (same t) f = f
root_of-Leaves R ver (pair l p r) f = f

size-make_room_full :
    (ver ver' k : ℕ) (ks : Kids)
    → ltb (size ks) full_size ≡ false
    → size (make_room ver (one (internal ver' ks)) 0 ks k).0 ≡ 1
unfolding make_room insert_child size
size-make_room_full ver ver' k ks full = rw full

module _ (w : Option ℕ) (ctx : Task) (P R : LeafPred)
    (step : (old : ℕ) (es : List Entry) (d : Option DeltaBlock)
      → P old es d
      → length es ≤ 15
      → length (slots_of d) ≤ 8
      → LeafStep w ctx old es d)
    (weaken : (old : Kids) → LeavesKids P old → LeavesKids R old)
    (fresh : (es : List Entry) → R ctx.sno es none) where
  leaf_root-Ends :
      (fuel ver : ℕ) (es : List Entry) (d : Option DeltaBlock)
      → FilledRoot 0 (leaf ver es d)
      → P ver es d
      → Ends fuel ctx
          (handle_init_cow ctx (leaf ver es d))
          (λ t'. Updated w 0 ctx (leaf ver es d) t' × Leaves R t')
  unfolding handle_init_cow
  leaf_root-Ends fuel ver es d f p =
      let s = step ver es d p f.0 f.1 in
      let x = root_leaf-Filled ctx.sno ctx.sno (length es) none s.update (omega arith) s.filled in
      rw s.made (
        _,
        _,
        run_stages_done fuel ctx _ _,
        (
          record {
            puts =
                root_of-Puts w ctx.key ctx.val ctx.sno (leaf ver es d)
                  (grown_leaf ctx.sno none ctx.sno s.update) s.acts;
            levels = x.0;
            at_most = x.1;
            filled = x.2;
          },
          root_of-Leaves R ctx.sno (grown_leaf ctx.sno none ctx.sno s.update)
              (grown_leaf-Leaves R ctx.sno s.update fresh),
        ),
      )

  -- The halves of a full root under a new root, one of them with the new children.
  full_root-Updated :
      (h ver : ℕ) (ks new : Kids)
      → let root = one (internal ver ks) in
        let (ks', j) = make_room ctx.sno root 0 ks ctx.key in
        (m : Entered h ctx.key ks' j)
        → ltb (size ks) full_size ≡ false
        → Serves w (suc h) none ctx.key root ks'
        → Serves w h (some ctx.val) ctx.key m.kids new
        → Updated w
            (suc h)
            ctx
            (internal ver ks)
            (internal ctx.sno (set_child ks' j (internal ctx.sno new)))
  unfolding size
  full_root-Updated h ver ks new m full s r =
      let root = one (internal ver ks) in
      let (ks', j) = make_room ctx.sno root 0 ks ctx.key in
      let e = Entered-Serves w h ctx.key ctx.sno (some ctx.val) ks' j new m s.filled r in
      let n = size-set_child ks' j (internal ctx.sno new) in
      let o = size-make_room_full ctx.sno ver ctx.key ks full in
      let t = Serves-trans w (suc h) ctx.key (some ctx.val) root ks' _ s e (omega (arith, n, o)) in
      record {
        puts = one-Puts w ctx.key ctx.val ver ctx.sno ks _ t.acts;
        levels = suc (suc h);
        at_most = omega arith;
        filled = (omega (arith, n, o), omega (arith, n, o), t.filled);
      }

  full_root-Ends :
      (h fuel ver : ℕ) (ks : Kids)
      → ltb (size ks) full_size ≡ false
      → suc h ≤ fuel
      → FilledRoot (suc h) (internal ver ks)
      → LeavesKids P ks
      → Ends fuel ctx
          (handle_init_cow ctx (internal ver ks))
          (λ t'. Updated w (suc h) ctx (internal ver ks) t' × Leaves R t')
  unfolding plug child findch size
  full_root-Ends h fuel ver ks full n f p =
      let root = one (internal ver ks) in
      let g : FilledKids (suc h) root = (omega tests, omega arith, f.2) in
      let s = make_room-Serves w h ctx.sno ver ctx.key root ks refl g in
      let m = make_room-Entered h ctx.sno ver ctx.key root ks refl g in
      let q = make_room-Leaves P ctx.sno ver ctx.key 0 root ks refl p in
      let (ks', j) = make_room ctx.sno root 0 ks ctx.key in
      rw (full_root_stage ctx ver ks full, kids_at-Entered h ctx.key ks' j m)
        (update_cow-Ends w ctx P R step weaken fresh h fuel ((ks', j) ∷ []) m.kids
          (retire_replaced ctx [] (internal ver ks))
          (λ t'. Updated w (suc h) ctx (internal ver ks) t' × Leaves R t')
          (child m.kids (findch m.kids ctx.key)) refl (omega arith) m.filled
          (rw m.at at (child-Leaves P ks' j q))
          (λ new r z. (
            full_root-Updated h ver ks new m full s r,
            set_child-Leaves R ks' j (internal ctx.sno new) (weaken ks' q) z,
          )))

  room_root-Ends :
      (h ver : ℕ) (ks : Kids)
      → ltb (size ks) full_size ≡ true
      → FilledRoot (suc h) (internal ver ks)
      → LeavesKids P ks
      → Ends
          (suc h)
          ctx
          (update_cow ctx [] ks (retire_replaced ctx [] (internal ver ks)))
          (λ t'. Updated w (suc h) ctx (internal ver ks) t' × Leaves R t')
  unfolding plug
  room_root-Ends h ver ks room f p =
      update_cow-Ends w ctx P R step weaken fresh h (suc h) [] ks
        (retire_replaced ctx [] (internal ver ks))
        (λ t'. Updated w (suc h) ctx (internal ver ks) t' × Leaves R t')
        (child ks (findch ks ctx.key)) refl (omega arith) f.2 p
        (λ new r z. (
          record {
            puts = ActsKids-Puts w ctx.key ctx.val ver ctx.sno ks new r.acts;
            levels = suc h;
            at_most = omega arith;
            filled = (omega (arith, r.grows), omega (tests, r.at_most), r.filled);
          },
          z,
        ))

  -- A copying update of a well formed tree ends, with the height of the tree as its fuel.
  pub handle_init_cow-Ends :
      (h : ℕ) (t : Tree)
      → FilledRoot h t
      → Leaves P t
      → Ends (height t) ctx (handle_init_cow ctx t) (λ t'. Updated w h ctx t t' × Leaves R t')
  unfolding height
  handle_init_cow-Ends zero (leaf ver es d) f p = leaf_root-Ends 0 ver es d f p
  handle_init_cow-Ends zero (internal ver ks) f p = absurd f
  handle_init_cow-Ends (suc h) (leaf ver es d) f p = absurd f
  handle_init_cow-Ends (suc h) (internal ver ks) f p = elim (Bool-cases (ltb (size ks) full_size)) [
    | inl room ↦
        rw (height_kids-FilledKids h ks f.2, room_root_stage ctx ver ks room)
          (room_root-Ends h ver ks room f p)
    | inr full ↦
        rw (height_kids-FilledKids h ks f.2)
          (full_root-Ends h (suc h) ver ks full (omega arith) f p)
  ]

-- Without sidecars the update of a leaf puts the entry in the leaf.
pub plain-LeafStep :
    (ctx : Task)
    → supported_fat_slots ctx.fat_slots ≡ false
    → (old : ℕ) (es : List Entry) (d : Option DeltaBlock) → Unit {0}
    → length es ≤ 15
    → length (slots_of d) ≤ 8
    → LeafStep none ctx old es d
unfolding update_leaf_cow
plain-LeafStep ctx plain old es d u h k =
    let f = update_entries-Filled es ctx.key ctx.val h in
    record {
      update = update_entries es ctx.key ctx.val;
      made = rw plain;
      filled = f;
      acts =
          grown_leaf_fresh-Acts none old ctx.sno ctx.key ctx.val (length es) es d
            (update_entries es ctx.key ctx.val)
            (λ lo hi a c o. update_entries-put es ctx.key ctx.val h) f;
    }

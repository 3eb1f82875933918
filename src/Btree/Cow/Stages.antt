-- ===== src/Btree/Cow/Stages.antt =====
-- The stages of lib/trees/btree/update_cow.hpp and handlers.hpp, from a node on.
use contrees_fat_node.Prelude.{
  ℕ, zero, suc, ◌+◌, ◌≤◌, ◌≡◌, refl, ap, sym, true, false, Option, none, some, inl, inr, List, ◌∷◌,
  arith, length, leb, ◌==◌, Bool-cases, if◌then◌else◌, tests, le→ltb, lt→ltb,
}
use contrees_fat_node.SortedMap.{Entry}
use contrees_fat_node.Btree.Node.{
  Tree, Kids, DeltaBlock, leaf, internal, one, more, size, child, set_child, findch, insert_child,
  split, full_size,
}
use contrees_fat_node.Btree.Inplace.{
  Grown, same, pair, LeafUpdate, whole, halves, make_room, put_grown, grown_leaf,
}
use contrees_fat_node.Btree.Query.{slots_of}
use contrees_fat_node.Btree.Shape.{FilledKids}
use contrees_fat_node.Btree.Leaves.{
  LeafPred, Leaves, LeavesKids, child-Leaves, set_child-Leaves, insert_child-Leaves,
  make_room-Leaves,
}
use contrees_fat_node.Btree.Focus.{Acts}
use contrees_fat_node.Btree.Leaf.{FilledUpdate}
use contrees_fat_node.Btree.Fill.{findch-le-size, child-Filled, size-set_child}
use contrees_fat_node.Btree.Inplace.Descent.{
  Serves, Entered, make_room-Serves, make_room-Entered, Entered-Serves, Serves-trans,
}
use contrees_fat_node.Btree.Inplace.Correct.{put_grown-Serves, grown_leaf-FilledGrown}
use contrees_fat_node.Btree.Cow.{
  Task, Ancestors, Stage, done, search_down, search_split, plug, update_leaf_cow, update_cow,
  retire_replaced, key_of, kids_at, handle_search_down, handle_search_split, run_stages,
}

-- What `update_leaf_cow` makes of one leaf, seen at `w`.
pub record LeafStep (w : Option ℕ) (ctx : Task) (old : ℕ) (es : List Entry) (d : Option DeltaBlock)
    : Type 0 where
  pub update : LeafUpdate
  pub made : update_leaf_cow ctx old es d ≡ grown_leaf ctx.sno none ctx.sno update
  pub filled : FilledUpdate (length es) update
  pub acts : Acts w (some ctx.val) ctx.key (leaf old es d) (grown_leaf ctx.sno none ctx.sno update)

-- The run ends, and its tree has the property.
abbrev pub Ends : ℕ → Task → Stage → (Tree → Type 0) → Type 0
Ends fuel ctx stage Q =
    (t : Tree) × (retired : List Tree) × (run_stages fuel ctx stage ≡ some (t, retired)) × Q t

-- The children that a node of the descent has, where `make_room` says that it is entered.
pub kids_at-Entered : (h k : ℕ) (ks : Kids) (j : ℕ) (n : Entered h k ks j) → kids_at ks j ≡ n.kids
unfolding kids_at
kids_at-Entered h k ks j n = rw (n.at, kids_at)

kids_at-child :
    (ks : Kids) (i ver : ℕ) (cs : Kids) → child ks i ≡ internal ver cs → kids_at ks i ≡ cs
unfolding kids_at
kids_at-child ks i ver cs e = rw (e, kids_at)

pub run_stages_done :
    (fuel : ℕ) (ctx : Task) (t : Tree) (retired : List Tree)
    → run_stages fuel ctx (done t retired) ≡ some (t, retired)
unfolding run_stages
run_stages_done zero ctx t retired = refl
run_stages_done (suc fuel) ctx t retired = refl

key_of-insert_child :
    (ks : Kids) (p i : ℕ) (l r : Tree) → i ≤ size ks → key_of (insert_child ks p l r i) i ≡ p
unfolding key_of insert_child size
key_of-insert_child (one c) p zero l r h = refl
key_of-insert_child (one c) p (suc i) l r h = absurd (omega arith)
key_of-insert_child (more c s ks) p zero l r h = refl
key_of-insert_child (more c s ks) p (suc i) l r h = key_of-insert_child ks p i l r (omega arith)

module _ (ctx : Task) (path : Ancestors) (ks : Kids) (retired : List Tree) where
  update_cow_leaf :
      (ver : ℕ) (es : List Entry) (d : Option DeltaBlock)
      → child ks (findch ks ctx.key) ≡ leaf ver es d
      → update_cow ctx path ks retired
        ≡ done
            (plug ctx.sno path (put_grown ks (findch ks ctx.key) (update_leaf_cow ctx ver es d)))
            (retire_replaced ctx retired (leaf ver es d))
  unfolding update_cow
  update_cow_leaf ver es d e = rw (e, update_cow)

  update_cow_room :
      (ver : ℕ) (cs : Kids)
      → child ks (findch ks ctx.key) ≡ internal ver cs
      → (size cs == full_size) ≡ false
      → update_cow ctx path ks retired
        ≡ search_down
            ((ks, findch ks ctx.key) ∷ path)
            cs
            (retire_replaced ctx retired (internal ver cs))
  unfolding update_cow
  update_cow_room ver cs e room = rw (e, update_cow, room)

  update_cow_full :
      (ver : ℕ) (cs : Kids)
      → child ks (findch ks ctx.key) ≡ internal ver cs
      → (size cs == full_size) ≡ true
      → let (l, p, r) = split cs in
        update_cow ctx path ks retired
        ≡ search_split path
            (insert_child ks p (internal ctx.sno l) (internal ctx.sno r) (findch ks ctx.key))
            (findch ks ctx.key)
            (retire_replaced ctx retired (internal ver cs))
  unfolding update_cow
  update_cow_full ver cs e full = rw (e, update_cow, full)

  -- The two ways in which `update_cow` goes on below an internal child come to one: the next node is
  -- the one for which `make_room` makes room.
  next_node :
      (fuel ver : ℕ) (cs : Kids)
      → child ks (findch ks ctx.key) ≡ internal ver cs
      → size cs ≤ 15
      → let (ks', j) = make_room ctx.sno ks (findch ks ctx.key) cs ctx.key in
        run_stages (suc fuel) ctx (update_cow ctx path ks retired)
        ≡ run_stages fuel ctx (
            update_cow ctx
              ((ks', j) ∷ path)
              (kids_at ks' j)
              (retire_replaced ctx retired (internal ver cs)))
  unfolding run_stages make_room handle_search_down handle_search_split
  next_node fuel ver cs e f = elim (Bool-cases (size cs == full_size)) [
    | inl full ↦
        let i = findch ks ctx.key in
        let ks' =
          insert_child ks (split cs).1 (internal ctx.sno (split cs).0)
            (internal ctx.sno (split cs).2) i in
        let k =
          key_of-insert_child ks (split cs).1 i (internal ctx.sno (split cs).0)
            (internal ctx.sno (split cs).2) (findch-le-size ks ctx.key) in
        rw (update_cow_full ver cs e full, le→ltb (size cs) 15 (omega tests))
          (ap
            (λ (x : ℕ).
              let j = if leb x ctx.key then i + 1 else i in
              run_stages fuel ctx (
                update_cow ctx ((ks', j) ∷ path) (kids_at ks' j)
                  (retire_replaced ctx retired (internal ver cs))))
            k)
    | inr room ↦
        let i = findch ks ctx.key in
        rw (update_cow_room ver cs e room, lt→ltb (size cs) 15 (omega tests))
          (ap
            (λ z.
              run_stages fuel ctx
                (update_cow ctx ((ks, i) ∷ path) z (retire_replaced ctx retired (internal ver cs))))
            (sym (kids_at-child ks i ver cs e)))
  ]

abbrev pub GrownLeaves : LeafPred → Grown → Type 0
GrownLeaves R (same t) = Leaves R t
GrownLeaves R (pair l p r) = Leaves R l × Leaves R r

pub put_grown-Leaves :
    (R : LeafPred) (ks : Kids) (i : ℕ) (g : Grown)
    → LeavesKids R ks
    → GrownLeaves R g
    → LeavesKids R (put_grown ks i g)
unfolding put_grown
put_grown-Leaves R ks i (same t) f g = set_child-Leaves R ks i t f g
put_grown-Leaves R ks i (pair l p r) f g = insert_child-Leaves R ks p l r i f g.0 g.1

pub grown_leaf-Leaves :
    (R : LeafPred) (sno : ℕ) (u : LeafUpdate)
    → ((es : List Entry) → R sno es none)
    → GrownLeaves R (grown_leaf sno none sno u)
unfolding grown_leaf
grown_leaf-Leaves R sno (whole es) fresh = fresh es
grown_leaf-Leaves R sno (halves l p r) fresh = (fresh l, fresh r)

-- A stage below a node whose children are at height `h` ends within `h` more stages.
pub update_cow-Ends :
    (w : Option ℕ) (ctx : Task) (P R : LeafPred)
    → ((old : ℕ) (es : List Entry) (d : Option DeltaBlock)
        → P old es d
        → length es ≤ 15
        → length (slots_of d) ≤ 8
        → LeafStep w ctx old es d)
    → ((old : Kids) → LeavesKids P old → LeavesKids R old)
    → ((es : List Entry) → R ctx.sno es none)
    → (h fuel : ℕ) (path : Ancestors) (ks : Kids) (retired : List Tree) (Q : Tree → Type 0)
      (t : Tree)
    → child ks (findch ks ctx.key) ≡ t
    → h ≤ fuel
    → FilledKids h ks
    → LeavesKids P ks
    → ((new : Kids)
        → Serves w h (some ctx.val) ctx.key ks new
        → LeavesKids R new
        → Q (plug ctx.sno path new))
    → Ends fuel ctx (update_cow ctx path ks retired) Q
unfolding plug
update_cow-Ends w ctx P R step weaken fresh zero fuel path ks retired Q (leaf ver es d) e n f p
      finish =
    let c = rw e at (child-Filled 0 ks (findch ks ctx.key) f) in
    let s = step ver es d (rw e at (child-Leaves P ks (findch ks ctx.key) p)) c.1 c.2 in
    rw (update_cow_leaf ctx path ks retired ver es d e, s.made)
      (
        _,
        _,
        run_stages_done fuel ctx _ _,
        finish _
            (put_grown-Serves w 0 ctx.key (some ctx.val) (leaf ver es d) ks
              (grown_leaf ctx.sno none ctx.sno s.update) e f s.acts
              (grown_leaf-FilledGrown ctx.sno ctx.sno (length es) none s.update c.0 (omega arith)
                s.filled))
            (put_grown-Leaves R ks (findch ks ctx.key) (grown_leaf ctx.sno none ctx.sno s.update)
              (weaken ks p) (grown_leaf-Leaves R ctx.sno s.update fresh)),
      )
update_cow-Ends w ctx P R step weaken fresh zero fuel path ks retired Q (internal ver cs) e n f p
      finish =
    absurd (rw e at (child-Filled 0 ks (findch ks ctx.key) f))
update_cow-Ends w ctx P R step weaken fresh (suc h) fuel path ks retired Q (leaf ver es d) e n f p
      finish =
    absurd (rw e at (child-Filled (suc h) ks (findch ks ctx.key) f))
update_cow-Ends w ctx P R step weaken fresh (suc h) zero path ks retired Q (internal ver cs) e n f p
      finish =
    absurd (omega arith)
update_cow-Ends w ctx P R step weaken fresh (suc h) (suc fuel) path ks retired Q (internal ver cs) e
      n f p finish =
    let c = rw e at (child-Filled (suc h) ks (findch ks ctx.key) f) in
    let s = make_room-Serves w h ctx.sno ver ctx.key ks cs e f in
    let m = make_room-Entered h ctx.sno ver ctx.key ks cs e f in
    let q = make_room-Leaves P ctx.sno ver ctx.key (findch ks ctx.key) ks cs e p in
    let (ks', j) = make_room ctx.sno ks (findch ks ctx.key) cs ctx.key in
    rw (next_node ctx path ks retired fuel ver cs e c.1, kids_at-Entered h ctx.key ks' j m)
      (update_cow-Ends w ctx P R step weaken fresh h fuel ((ks', j) ∷ path) m.kids
        (retire_replaced ctx retired (internal ver cs)) Q (child m.kids (findch m.kids ctx.key))
        refl (omega arith) m.filled (rw m.at at (child-Leaves P ks' j q))
        (λ new r z.
          finish (set_child ks' j (internal ctx.sno new))
            (Serves-trans w (suc h) ctx.key (some ctx.val) ks ks' _ s
              (Entered-Serves w h ctx.key ctx.sno (some ctx.val) ks' j new m s.filled r)
              (omega (arith, size-set_child ks' j (internal ctx.sno new), s.at_most)))
            (set_child-Leaves R ks' j (internal ctx.sno new) (weaken ks' q) z)))

-- ===== src/Btree/Cow/Kept.antt =====
-- The fat fast path of lib/trees/btree/handlers.hpp: the shape of the tree and the age of its records.
use contrees_fat_node.Prelude.{
  ℕ, zero, suc, ◌≤◌, ◌<◌, ◌≡◌, refl, ap, Bool, true, false, not, ◌||◌, Option, none, some, inl, inr,
  List, [], ◌∷◌, arith, length, leb, ◌==◌, Bool-cases, if◌then◌else◌, length-set, set,
}
use contrees_fat_node.SortedMap.{Entry}
use contrees_fat_node.Btree.Node.{
  Tree, Kids, DeltaSlot, DeltaBlock, leaf, internal, one, more, findch, size,
}
use contrees_fat_node.Btree.Query.{slots_of}
use contrees_fat_node.Btree.Delta.{
  supported_fat_slots, block_of, new_delta_block, write_slot, append_leaf_delta,
}
use contrees_fat_node.Btree.Delta.Laws.{length-replicate-unused, replicate-SlotsBelow}
use contrees_fat_node.Btree.Shape.{Filled, FilledKids, FilledRoot}
use contrees_fat_node.Btree.Leaves.{Leaves, LeavesKids}
use contrees_fat_node.Btree.Materialize.Step.{Aged, SlotsBelow}
use contrees_fat_node.Btree.Cow.{Task, append_at_leaf, append_at_child}

-- The three ways in which an append ends.
append_leaf_delta-cases :
    (d : Option DeltaBlock) (capacity version key value : ℕ) (Q : Option DeltaBlock × Bool → Type 0)
    → Q (d, false)
    → (supported_fat_slots capacity ≡ true → Q (some (block_of capacity d), false))
    → (supported_fat_slots capacity ≡ true
        → Q (
          some (
              write_slot
                (block_of capacity d)
                (record { version = version; key = key; value = value })),
          true,
        ))
    → Q (append_leaf_delta d capacity version key value)
unfolding append_leaf_delta
append_leaf_delta-cases d capacity version key value Q off full on =
    let block = block_of capacity d in
    elim (Bool-cases (supported_fat_slots capacity)) [
      | inr no_fat ↦ rw no_fat off
      | inl fat ↦
          elim (Bool-cases (not (block.capacity == capacity) || leb block.capacity block.count)) [
            | inl bad ↦ rw (fat, bad) (full fat)
            | inr good ↦ rw (fat, good) (on fat)
          ]
    ]

supported_le : (capacity : ℕ) → supported_fat_slots capacity ≡ true → capacity ≤ 8
unfolding supported_fat_slots
supported_le capacity h = ground arith

block_of-small :
    (capacity : ℕ) (d : Option DeltaBlock)
    → supported_fat_slots capacity ≡ true
    → length (slots_of d) ≤ 8
    → length (block_of capacity d).slots ≤ 8
unfolding block_of new_delta_block
block_of-small capacity none h k =
    omega (arith, length-replicate-unused capacity, supported_le capacity h)
block_of-small capacity (some block) h k = k

append_leaf_delta-small :
    (d : Option DeltaBlock) (capacity version key value : ℕ)
    → length (slots_of d) ≤ 8
    → length (slots_of (append_leaf_delta d capacity version key value).0) ≤ 8
unfolding write_slot
append_leaf_delta-small d capacity version key value k =
    append_leaf_delta-cases d capacity version key value (λ r. length (slots_of r.0) ≤ 8) k
      (λ h. block_of-small capacity d h k)
      (λ h. omega (
        arith,
        block_of-small capacity d h k,
        length-set (block_of capacity d).slots (block_of capacity d).count
            (record { version = version; key = key; value = value }),
      ))

SlotsBelow-suc : (n : ℕ) (ss : List DeltaSlot) → SlotsBelow n ss → SlotsBelow (suc n) ss
SlotsBelow-suc n [] b = tt
SlotsBelow-suc n (x ∷ ss) b = (omega arith, SlotsBelow-suc n ss b.1)

set-SlotsBelow :
    (n i : ℕ) (ss : List DeltaSlot) (x : DeltaSlot)
    → x.version < n
    → SlotsBelow n ss
    → SlotsBelow n (set ss i x)
set-SlotsBelow n i [] x h b = tt
set-SlotsBelow n zero (y ∷ ss) x h b = (h, b.1)
set-SlotsBelow n (suc i) (y ∷ ss) x h b = (b.0, set-SlotsBelow n i ss x h b.1)

block_of-SlotsBelow :
    (n capacity : ℕ) (d : Option DeltaBlock)
    → 0 < n
    → SlotsBelow n (slots_of d)
    → SlotsBelow n (block_of capacity d).slots
unfolding block_of new_delta_block
block_of-SlotsBelow n capacity none h b = replicate-SlotsBelow n capacity h
block_of-SlotsBelow n capacity (some block) h b = b

-- The bound on the versions of a tree after an append.
abbrev pub age_after : ℕ → Bool → ℕ
age_after sno appended = if appended then suc sno else sno

append_leaf_delta-Aged :
    (d : Option DeltaBlock) (capacity sno key value ver : ℕ) (es : List Entry)
    → Aged sno ver es d
    → let r = append_leaf_delta d capacity sno key value in Aged (age_after sno r.1) ver es r.0
unfolding write_slot
append_leaf_delta-Aged d capacity sno key value ver es a =
    let b = block_of-SlotsBelow sno capacity d (omega arith) a.1 in
    append_leaf_delta-cases d capacity sno key value (λ r. Aged (age_after sno r.1) ver es r.0) a
      (λ h. (a.0, b))
      (λ h. (omega arith, set-SlotsBelow (suc sno) _ _ _ (omega arith) (SlotsBelow-suc sno _ b)))

mutual
  pub Leaves-suc : (n : ℕ) (t : Tree) → Leaves (Aged n) t → Leaves (Aged (suc n)) t
  Leaves-suc n (leaf ver es d) a = (omega arith, SlotsBelow-suc n (slots_of d) a.1)
  Leaves-suc n (internal ver ks) a = LeavesKids-suc n ks a

  pub LeavesKids-suc : (n : ℕ) (ks : Kids) → LeavesKids (Aged n) ks → LeavesKids (Aged (suc n)) ks
  LeavesKids-suc n (one c) a = Leaves-suc n c a
  LeavesKids-suc n (more c s ks) a = (Leaves-suc n c a.0, LeavesKids-suc n ks a.1)

pub Leaves-after :
    (n : ℕ) (b : Bool) (t : Tree) → Leaves (Aged n) t → Leaves (Aged (age_after n b)) t
Leaves-after n true t a = Leaves-suc n t a
Leaves-after n false t a = a

LeavesKids-after :
    (n : ℕ) (b : Bool) (ks : Kids) → LeavesKids (Aged n) ks → LeavesKids (Aged (age_after n b)) ks
LeavesKids-after n true ks a = LeavesKids-suc n ks a
LeavesKids-after n false ks a = a

size-append_at_child :
    (ctx : Task) (ks : Kids) (i : ℕ) → size (append_at_child ctx ks i).0 ≡ size ks
unfolding append_at_leaf size
size-append_at_child ctx (one c) i = refl
size-append_at_child ctx (more c s ks) zero = refl
size-append_at_child ctx (more c s ks) (suc i) = ap suc (size-append_at_child ctx ks i)

mutual
  unfolding append_at_leaf size

  pub append_at_leaf-Filled :
      (h : ℕ) (ctx : Task) (t : Tree) → Filled h t → Filled h (append_at_leaf ctx t).0
  append_at_leaf-Filled zero ctx (leaf ver es d) f =
      (f.0, f.1, append_leaf_delta-small d ctx.fat_slots ctx.sno ctx.key ctx.val f.2)
  append_at_leaf-Filled (suc h) ctx (leaf ver es d) f = absurd f
  append_at_leaf-Filled zero ctx (internal ver ks) f = absurd f
  append_at_leaf-Filled (suc h) ctx (internal ver ks) f =
      let n = size-append_at_child ctx ks (findch ks ctx.key) in
      (
        omega (arith, n),
        omega (arith, n),
        append_at_child-FilledKids h ctx ks (findch ks ctx.key) f.2,
      )

  pub append_at_child-FilledKids :
      (h : ℕ) (ctx : Task) (ks : Kids) (i : ℕ)
      → FilledKids h ks
      → FilledKids h (append_at_child ctx ks i).0
  append_at_child-FilledKids h ctx (one c) i f = append_at_leaf-Filled h ctx c f
  append_at_child-FilledKids h ctx (more c s ks) zero f = (append_at_leaf-Filled h ctx c f.0, f.1)
  append_at_child-FilledKids h ctx (more c s ks) (suc i) f =
      (f.0, append_at_child-FilledKids h ctx ks i f.1)

-- An append keeps the tree filled.
pub append_at_leaf-FilledRoot :
    (h : ℕ) (ctx : Task) (t : Tree) → FilledRoot h t → FilledRoot h (append_at_leaf ctx t).0
unfolding append_at_leaf
append_at_leaf-FilledRoot zero ctx (leaf ver es d) f =
    (f.0, append_leaf_delta-small d ctx.fat_slots ctx.sno ctx.key ctx.val f.1)
append_at_leaf-FilledRoot (suc h) ctx (leaf ver es d) f = absurd f
append_at_leaf-FilledRoot zero ctx (internal ver ks) f = absurd f
append_at_leaf-FilledRoot (suc h) ctx (internal ver ks) f =
    let n = size-append_at_child ctx ks (findch ks ctx.key) in
    (
      omega (arith, n),
      omega (arith, n),
      append_at_child-FilledKids h ctx ks (findch ks ctx.key) f.2,
    )

-- After an append that succeeded the versions reach the new one; else they stay below it.
mutual
  unfolding append_at_leaf

  pub append_at_leaf-Aged :
      (ctx : Task) (t : Tree)
      → Leaves (Aged ctx.sno) t
      → Leaves (Aged (age_after ctx.sno (append_at_leaf ctx t).1)) (append_at_leaf ctx t).0
  append_at_leaf-Aged ctx (leaf ver es d) a =
      append_leaf_delta-Aged d ctx.fat_slots ctx.sno ctx.key ctx.val ver es a
  append_at_leaf-Aged ctx (internal ver ks) a = append_at_child-Aged ctx ks (findch ks ctx.key) a

  pub append_at_child-Aged :
      (ctx : Task) (ks : Kids) (i : ℕ)
      → LeavesKids (Aged ctx.sno) ks
      → LeavesKids
          (Aged (age_after ctx.sno (append_at_child ctx ks i).1))
          (append_at_child ctx ks i).0
  append_at_child-Aged ctx (one c) i a = append_at_leaf-Aged ctx c a
  append_at_child-Aged ctx (more c s ks) zero a =
      (append_at_leaf-Aged ctx c a.0, LeavesKids-after ctx.sno _ ks a.1)
  append_at_child-Aged ctx (more c s ks) (suc i) a =
      (Leaves-after ctx.sno _ c a.0, append_at_child-Aged ctx ks i a.1)

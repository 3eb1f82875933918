-- ===== src/Btree/Inplace/Root.antt =====
-- `update_root_inplace` of lib/trees/btree/update_inplace.hpp, and what an update makes of a whole tree.
use contrees_fat_node.Prelude.{
  ℕ, zero, suc, ◌≤◌, ◌<◌, ◌≡◌, refl, ◌∙◌, Option, none, some, inl, inr, arith, ltb, false,
  Bool-cases, length, tests,
}
use contrees_fat_node.Btree.Query.{slots_of}
use contrees_fat_node.SortedMap.{act, put}
use contrees_fat_node.Btree.Node.{
  Tree, Kids, DeltaBlock, leaf, internal, one, size, child, findch, full_size,
}
use contrees_fat_node.Btree.Inplace.{
  Grown, same, pair, make_room, descend, root_of, update_entries, grown_leaf, LeafUpdate, whole,
  halves, update_internal_inplace, update_root_inplace,
}
use contrees_fat_node.Btree.Shape.{entries, Ordered, Filled, FilledRoot, height_kids-FilledKids}
use contrees_fat_node.Btree.Focus.{Acts, ActsKids}
use contrees_fat_node.Btree.Leaf.{update_entries-put, update_entries-Filled, FilledUpdate}
use contrees_fat_node.Btree.Inplace.Descent.{
  Serves, make_room-Serves, make_room-Entered, descend-Serves, size-descend, Serves-trans,
}
use contrees_fat_node.Btree.Inplace.Correct.{grown_leaf_kept-Acts, update_internal_inplace-Serves}

-- What an update makes of a whole tree, seen at `w`.
pub record Puts (w : Option ℕ) (k v : ℕ) (t t' : Tree) : Type 0 where
  pub ordered : (lo hi : ℕ) → lo ≤ k → k < hi → Ordered lo hi t → Ordered lo hi t'
  pub puts : (lo hi : ℕ) → lo ≤ k → k < hi → Ordered lo hi t → entries w t' ≡ put k v (entries w t)

pub ActsKids-Puts :
    (w : Option ℕ) (k v ver ver' : ℕ) (ks ks' : Kids)
    → ActsKids w (some v) k ks ks'
    → Puts w k v (internal ver ks) (internal ver' ks')
unfolding act
ActsKids-Puts w k v ver ver' ks ks' a = record {
  ordered = λ lo hi h j o. (a lo hi h j o).0;
  puts = λ lo hi h j o. (a lo hi h j o).1;
}

pub one-Puts :
    (w : Option ℕ) (k v ver ver' : ℕ) (ks ks' : Kids)
    → ActsKids w (some v) k (one (internal ver ks)) ks'
    → Puts w k v (internal ver ks) (internal ver' ks')
unfolding act
one-Puts w k v ver ver' ks ks' a = record {
  ordered = λ lo hi h j o. (a lo hi h j o).0;
  puts = λ lo hi h j o. (a lo hi h j o).1;
}

pub root_of-Puts :
    (w : Option ℕ) (k v ver : ℕ) (t : Tree) (g : Grown)
    → Acts w (some v) k t g
    → Puts w k v t (root_of ver g)
unfolding act root_of
root_of-Puts w k v ver t (same t') a = record {
  ordered = λ lo hi h j o. (a lo hi h j o).0;
  puts = λ lo hi h j o. (a lo hi h j o).1;
}
root_of-Puts w k v ver t (pair l p r) a = record {
  ordered = λ lo hi h j o. (a lo hi h j o).0;
  puts = λ lo hi h j o. (a lo hi h j o).1;
}

-- The two halves of a full root, and the update in one of them, under a new root.
full_root-Serves :
    (h k v ver : ℕ) (ks : Kids)
    → Filled (suc h) (internal ver ks)
    → Serves none (suc h) (some v) k (one (internal ver ks)) (
        descend
          (λ ks'. update_internal_inplace (suc h) ks' k v)
          (make_room 0 (one (internal ver ks)) 0 ks k))
unfolding child findch
full_root-Serves h k v ver ks f =
    let s = make_room-Serves none h 0 ver k (one (internal ver ks)) ks refl f in
    let n = make_room-Entered h 0 ver k (one (internal ver ks)) ks refl f in
    let (ks', j) = make_room 0 (one (internal ver ks)) 0 ks k in
    Serves-trans none (suc h) k (some v) (one (internal ver ks)) ks' _ s
      (descend-Serves none h k (some v) ks' j (λ cs'. update_internal_inplace (suc h) cs' k v) n
        s.filled (update_internal_inplace-Serves h k v n.kids n.filled))
      (omega (
        arith,
        size-descend (λ cs'. update_internal_inplace (suc h) cs' k v) ks' j _ refl,
        s.at_most,
      ))

size-full_root :
    (k ver : ℕ) (ks : Kids) (g : Kids → Kids)
    → ltb (size ks) full_size ≡ false
    → size (descend g (make_room 0 (one (internal ver ks)) 0 ks k)) ≡ 1
unfolding make_room size
size-full_root k ver ks g full =
    let (ks', j) = make_room 0 (one (internal ver ks)) 0 ks k in
    size-descend g ks' j (child ks' j) refl ∙ rw (full, size)

full_root-FilledRoot :
    (h k v ver : ℕ) (ks : Kids)
    → ltb (size ks) full_size ≡ false
    → FilledRoot (suc h) (internal ver ks)
    → FilledRoot (suc (suc h)) (
        internal 0 (
          descend
            (λ ks'. update_internal_inplace (suc h) ks' k v)
            (make_room 0 (one (internal ver ks)) 0 ks k)))
full_root-FilledRoot h k v ver ks full f =
    let s = full_root-Serves h k v ver ks (omega tests, omega arith, f.2) in
    let n = size-full_root k ver ks (λ ks'. update_internal_inplace (suc h) ks' k v) full in
    (omega (arith, n), omega (arith, n), s.filled)

pub root_leaf-Filled :
    (ver new n : ℕ) (d : Option DeltaBlock) (u : LeafUpdate)
    → length (slots_of d) ≤ 8
    → FilledUpdate n u
    → (h' : ℕ) × (h' ≤ 1) × FilledRoot h' (root_of new (grown_leaf ver d new u))
unfolding root_of grown_leaf size
root_leaf-Filled ver new n d (whole es) z f = (0, omega arith, (f.1, z))
root_leaf-Filled ver new n d (halves l p r) z f =
    (1, omega arith, (omega arith, omega arith, (omega arith, omega arith)))

pub update_root_inplace-Puts :
    (h k v : ℕ) (t : Tree) → FilledRoot h t → Puts none k v t (update_root_inplace t k v)
unfolding update_root_inplace
update_root_inplace-Puts zero k v (leaf ver es d) f =
    root_of-Puts none k v 0 (leaf ver es d) (grown_leaf ver d 0 (update_entries es k v)) (
      grown_leaf_kept-Acts ver k v es d (update_entries es k v) (update_entries-put es k v f.0)
        (update_entries-Filled es k v f.0))
update_root_inplace-Puts zero k v (internal ver ks) f = absurd f
update_root_inplace-Puts (suc h) k v (leaf ver es d) f = absurd f
update_root_inplace-Puts (suc h) k v (internal ver ks) f =
    elim (Bool-cases (ltb (size ks) full_size)) [
      | inl room ↦
          rw (room, height_kids-FilledKids h ks f.2)
            (ActsKids-Puts none k v ver ver ks _ (update_internal_inplace-Serves h k v ks f.2).acts)
      | inr full ↦
          rw (full, height_kids-FilledKids h ks f.2)
            (one-Puts none k v ver 0 ks _
              (rw full at ((full_root-Serves h k v ver ks (omega tests, omega arith, f.2)).acts)))
    ]

-- An update keeps the tree filled, and adds at most one level.
pub update_root_inplace-FilledRoot :
    (h k v : ℕ) (t : Tree)
    → FilledRoot h t
    → (h' : ℕ) × (h' ≤ suc h) × FilledRoot h' (update_root_inplace t k v)
unfolding update_root_inplace
update_root_inplace-FilledRoot zero k v (leaf ver es d) f =
    root_leaf-Filled ver 0 (length es) d (update_entries es k v) f.1
      (update_entries-Filled es k v f.0)
update_root_inplace-FilledRoot zero k v (internal ver ks) f = absurd f
update_root_inplace-FilledRoot (suc h) k v (leaf ver es d) f = absurd f
update_root_inplace-FilledRoot (suc h) k v (internal ver ks) f =
    elim (Bool-cases (ltb (size ks) full_size)) [
      | inl room ↦
          let s = update_internal_inplace-Serves h k v ks f.2 in
          rw (room, height_kids-FilledKids h ks f.2)
            (suc h, omega arith, (omega (arith, s.grows), omega (tests, s.at_most), s.filled))
      | inr full ↦
          rw (full, height_kids-FilledKids h ks f.2)
            (suc (suc h), omega arith, rw full at (full_root-FilledRoot h k v ver ks full f))
    ]

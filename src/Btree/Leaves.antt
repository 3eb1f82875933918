-- ===== src/Btree/Leaves.antt =====
-- A property of every leaf of a B+Tree of lib/trees/btree, and the writes that keep it.
use contrees_fat_node.Prelude.{ℕ, zero, suc, ◌≡◌, Option, List, ltb, Bool-cases, inl, inr}
use contrees_fat_node.SortedMap.{Entry}
use contrees_fat_node.Btree.Node.{
  Tree, Kids, DeltaBlock, leaf, internal, one, more, size, child, set_child, insert_child, split,
  split_at, full_size,
}
use contrees_fat_node.Btree.Inplace.{make_room}

abbrev pub LeafPred : Type 1
LeafPred = ℕ → List Entry → Option DeltaBlock → Type 0

abbrev mutual
  pub Leaves : LeafPred → Tree → Type 0
  Leaves P (leaf ver es d) = P ver es d
  Leaves P (internal ver ks) = LeavesKids P ks

  pub LeavesKids : LeafPred → Kids → Type 0
  LeavesKids P (one c) = Leaves P c
  LeavesKids P (more c s ks) = Leaves P c × LeavesKids P ks

module _ (P : LeafPred) where
  pub child-Leaves : (ks : Kids) (i : ℕ) → LeavesKids P ks → Leaves P (child ks i)
  unfolding child
  child-Leaves (one c) i f = f
  child-Leaves (more c s ks) zero f = f.0
  child-Leaves (more c s ks) (suc i) f = child-Leaves ks i f.1

  pub set_child-Leaves :
      (ks : Kids) (i : ℕ) (t : Tree)
      → LeavesKids P ks
      → Leaves P t
      → LeavesKids P (set_child ks i t)
  unfolding set_child
  set_child-Leaves (one c) zero t f g = g
  set_child-Leaves (one c) (suc i) t f g = f
  set_child-Leaves (more c s ks) zero t f g = (g, f.1)
  set_child-Leaves (more c s ks) (suc i) t f g = (f.0, set_child-Leaves ks i t f.1 g)

  pub insert_child-Leaves :
      (ks : Kids) (p : ℕ) (l r : Tree) (i : ℕ)
      → LeavesKids P ks
      → Leaves P l
      → Leaves P r
      → LeavesKids P (insert_child ks p l r i)
  unfolding insert_child
  insert_child-Leaves (one c) p l r i f a z = (a, z)
  insert_child-Leaves (more c s ks) p l r zero f a z = (a, (z, f.1))
  insert_child-Leaves (more c s ks) p l r (suc i) f a z =
      (f.0, insert_child-Leaves ks p l r i f.1 a z)

  pub split_at-Leaves :
      (n : ℕ) (ks : Kids)
      → LeavesKids P ks
      → LeavesKids P (split_at n ks).0 × LeavesKids P (split_at n ks).2
  unfolding split_at
  split_at-Leaves zero (one c) f = (f, f)
  split_at-Leaves (suc n) (one c) f = (f, f)
  split_at-Leaves zero (more c s ks) f = (f.0, f.1)
  split_at-Leaves (suc n) (more c s ks) f = let x = split_at-Leaves n ks f.1 in ((f.0, x.0), x.1)

  pub make_room-Leaves :
      (ver ver' k i : ℕ) (ks cs : Kids)
      → child ks i ≡ internal ver' cs
      → LeavesKids P ks
      → LeavesKids P (make_room ver ks i cs k).0
  unfolding make_room split
  make_room-Leaves ver ver' k i ks cs e f = elim (Bool-cases (ltb (size cs) full_size)) [
    | inl room ↦ rw room f
    | inr full ↦
        let c = rw e at (child-Leaves ks i f) in
        let x = split_at-Leaves 7 cs c in rw full (insert_child-Leaves ks _ _ _ i f x.0 x.1)
  ]

-- ===== src/Btree/Fill.antt =====
-- Writes to the children of a node of lib/trees/btree, seen by the shape of the tree.
use contrees_fat_node.Prelude.{
  Option, ℕ, zero, suc, ◌+◌, ◌≤◌, ◌<◌, ◌≡◌, refl, ap, ◌∙◌, arith, ltb, if◌then◌else◌, ◌++◌,
  append_assoc,
}
use contrees_fat_node.Btree.Node.{
  Tree, Kids, one, more, size, child, findch, set_child, insert_child, split_at,
}
use contrees_fat_node.Btree.Shape.{entries, entries_kids, OrderedKids, Filled, FilledKids}

suc-add-one : (i : ℕ) → suc i + 1 ≡ suc (i + 1)
suc-add-one i = omega arith

pub findch-le-size : (ks : Kids) (k : ℕ) → findch ks k ≤ size ks
unfolding findch size
findch-le-size (one c) k = omega arith
findch-le-size (more c s ks) k = ground (arith, findch-le-size ks k)

pub child-Filled : (h : ℕ) (ks : Kids) (i : ℕ) → FilledKids h ks → Filled h (child ks i)
unfolding child
child-Filled h (one c) i f = f
child-Filled h (more c s ks) zero f = f.0
child-Filled h (more c s ks) (suc i) f = child-Filled h ks i f.1

pub set_child-Filled :
    (h : ℕ) (ks : Kids) (i : ℕ) (t : Tree)
    → FilledKids h ks
    → Filled h t
    → FilledKids h (set_child ks i t)
unfolding set_child
set_child-Filled h (one c) zero t f g = g
set_child-Filled h (one c) (suc i) t f g = f
set_child-Filled h (more c s ks) zero t f g = (g, f.1)
set_child-Filled h (more c s ks) (suc i) t f g = (f.0, set_child-Filled h ks i t f.1 g)

pub size-set_child : (ks : Kids) (i : ℕ) (t : Tree) → size (set_child ks i t) ≡ size ks
unfolding set_child size
size-set_child (one c) zero t = refl
size-set_child (one c) (suc i) t = refl
size-set_child (more c s ks) zero t = refl
size-set_child (more c s ks) (suc i) t = ap suc (size-set_child ks i t)

pub insert_child-Filled :
    (h : ℕ) (ks : Kids) (p : ℕ) (l r : Tree) (i : ℕ)
    → FilledKids h ks
    → Filled h l
    → Filled h r
    → FilledKids h (insert_child ks p l r i)
unfolding insert_child
insert_child-Filled h (one c) p l r i f a z = (a, z)
insert_child-Filled h (more c s ks) p l r zero f a z = (a, (z, f.1))
insert_child-Filled h (more c s ks) p l r (suc i) f a z =
    (f.0, insert_child-Filled h ks p l r i f.1 a z)

pub size-insert_child :
    (ks : Kids) (p : ℕ) (l r : Tree) (i : ℕ) → size (insert_child ks p l r i) ≡ suc (size ks)
unfolding insert_child size
size-insert_child (one c) p l r i = refl
size-insert_child (more c s ks) p l r zero = refl
size-insert_child (more c s ks) p l r (suc i) = ap suc (size-insert_child ks p l r i)

-- The halves of a node stand in order on the two sides of the separator and hold its entries.
pub split_at_lem :
    (w : Option ℕ) (n : ℕ) (ks : Kids) (lo hi : ℕ)
    → n < size ks
    → OrderedKids lo hi ks
    → let (l, p, r) = split_at n ks in
      (lo ≤ p)
      × (p ≤ hi)
      × OrderedKids lo p l
      × OrderedKids p hi r
      × (entries_kids w l ++ entries_kids w r ≡ entries_kids w ks)
unfolding split_at size
split_at_lem w n (one c) lo hi h o = absurd (omega arith)
split_at_lem w zero (more c s ks) lo hi h o = (o.0, o.1, o.2, o.3, refl)
split_at_lem w (suc n) (more c s ks) lo hi h o =
    let x = split_at_lem w n ks s hi (omega arith) o.3 in
    (
      omega arith,
      x.1,
      (o.0, x.0, o.2, x.2),
      x.3,
      append_assoc (entries w c) (entries_kids w (split_at n ks).0)
            (entries_kids w (split_at n ks).2)
          ∙ ap (λ xs. entries w c ++ xs) x.4,
    )

pub split_at-Filled :
    (n h : ℕ) (ks : Kids)
    → n < size ks
    → FilledKids h ks
    → let (l, p, r) = split_at n ks in
      (size l ≡ n) × (size r + suc n ≡ size ks) × FilledKids h l × FilledKids h r
unfolding split_at size
split_at-Filled n h (one c) lt f = absurd (omega arith)
split_at-Filled zero h (more c s ks) lt f = (refl, omega arith, f.0, f.1)
split_at-Filled (suc n) h (more c s ks) lt f =
    let x = split_at-Filled n h ks (omega arith) f.1 in
    (omega (arith, x.0), omega (arith, x.1), (f.0, x.2), x.3)

-- After a split at the position for `k`, the position for `k` is the half that its separator picks.
pub findch-insert_child :
    (ks : Kids) (p k : ℕ) (l r : Tree)
    → findch (insert_child ks p l r (findch ks k)) k
      ≡ (if ltb k p then findch ks k else findch ks k + 1)
unfolding findch insert_child
findch-insert_child (one c) p k l r = ground arith
findch-insert_child (more c s ks) p k l r = ground (arith, findch-insert_child ks p k l r)

pub child-insert_child :
    (ks : Kids) (p i : ℕ) (l r : Tree)
    → i ≤ size ks
    → (child (insert_child ks p l r i) i ≡ l) × (child (insert_child ks p l r i) (i + 1) ≡ r)
unfolding child insert_child size
child-insert_child (one c) p zero l r h = (refl, refl)
child-insert_child (one c) p (suc i) l r h = absurd (omega arith)
child-insert_child (more c s ks) p zero l r h = (refl, refl)
child-insert_child (more c s ks) p (suc i) l r h =
    rw (suc-add-one i) (child-insert_child ks p i l r (omega arith))

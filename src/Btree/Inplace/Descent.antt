-- ===== src/Btree/Inplace/Descent.antt =====
-- One level of `update_internal_inplace` in lib/trees/btree/update_inplace.hpp.
use contrees_fat_node.Prelude.{
  ℕ, suc, ◌≤◌, ◌<◌, ◌≡◌, refl, Option, none, inl, inr, arith, ltb, leb, Bool-cases, tests,
}
use contrees_fat_node.SortedMap.{act}
use contrees_fat_node.Btree.Node.{
  Tree, Kids, leaf, internal, size, child, findch, set_child, split, split_at, full_size,
}
use contrees_fat_node.Btree.Inplace.{same, pair, put_grown, make_room, descend}
use contrees_fat_node.Btree.Shape.{FilledKids}
use contrees_fat_node.Btree.Focus.{Acts, ActsKids, put_grown-ActsKids}
use contrees_fat_node.Btree.Fill.{
  findch-le-size, child-Filled, set_child-Filled, size-set_child, insert_child-Filled,
  size-insert_child, split_at_lem, split_at-Filled, findch-insert_child, child-insert_child,
}

-- What an operation makes of the children of a node: the entries after the action, in order, at the
-- same height, with at most one more child.
pub record Serves (w : Option ℕ) (h : ℕ) (o : Option ℕ) (k : ℕ) (ks ks' : Kids) : Type 0 where
  pub acts : ActsKids w o k ks ks'
  pub filled : FilledKids h ks'
  pub grows : size ks ≤ size ks'
  pub at_most : size ks' ≤ suc (size ks)

-- The node that the descent enters next: it lies where `findch` looks, and has room for a key.
pub record Entered (h k : ℕ) (ks' : Kids) (j : ℕ) : Type 0 where
  pub ver : ℕ
  pub kids : Kids
  pub here : j ≡ findch ks' k
  pub at : child ks' j ≡ internal ver kids
  pub filled : FilledKids h kids
  pub low : 7 ≤ size kids
  pub room : size kids < 15

pub ActsKids-none : (w : Option ℕ) (k : ℕ) (ks : Kids) → ActsKids w none k ks ks
unfolding act
ActsKids-none w k ks lo hi h j o = (o, refl)

-- A full child in two halves of the same entries.
split-Acts :
    (w : Option ℕ) (ver ver' k n : ℕ) (cs : Kids)
    → n < size cs
    → let (l, p, r) = split_at n cs in
      Acts w none k (internal ver cs) (pair (internal ver' l) p (internal ver' r))
unfolding act
split-Acts w ver ver' k n cs h lo hi a z o =
    let x = split_at_lem w n cs lo hi h o in ((x.0, x.1, x.2, x.3), x.4)

pub make_room-Serves :
    (w : Option ℕ) (h ver ver' k : ℕ) (ks cs : Kids)
    → child ks (findch ks k) ≡ internal ver' cs
    → FilledKids (suc h) ks
    → Serves w (suc h) none k ks (make_room ver ks (findch ks k) cs k).0
unfolding make_room split put_grown
make_room-Serves w h ver ver' k ks cs e f = elim (Bool-cases (ltb (size cs) full_size)) [
  | inl room ↦ rw room (record {
    acts = ActsKids-none w k ks;
    filled = f;
    grows = omega arith;
    at_most = omega arith;
  })
  | inr full ↦
      let n : 7 < size cs = omega tests in
      let c = rw e at (child-Filled (suc h) ks (findch ks k) f) in
      let x = split_at-Filled 7 h cs n c.2 in
      let g =
        size-insert_child ks (split_at 7 cs).1 (internal ver (split_at 7 cs).0)
          (internal ver (split_at 7 cs).2) (findch ks k) in
      rw full (record {
        acts = put_grown-ActsKids w none k ks (pair _ _ _) (rw e (split-Acts w ver' ver k 7 cs n));
        filled =
            insert_child-Filled (suc h) ks _ _ _ (findch ks k) f
              (omega (tests, x.0), omega (tests, x.0), x.2)
              (omega (tests, x.1), omega (tests, x.1), x.3);
        grows = omega (arith, g);
        at_most = omega (arith, g);
      })
]

pub make_room-Entered :
    (h ver ver' k : ℕ) (ks cs : Kids)
    → child ks (findch ks k) ≡ internal ver' cs
    → FilledKids (suc h) ks
    → let (ks', j) = make_room ver ks (findch ks k) cs k in Entered h k ks' j
unfolding make_room split
make_room-Entered h ver ver' k ks cs e f = elim (Bool-cases (ltb (size cs) full_size)) [
  | inl room ↦
      let c = rw e at (child-Filled (suc h) ks (findch ks k) f) in
      rw room (record {
        ver = ver';
        kids = cs;
        here = refl;
        at = e;
        filled = c.2;
        low = c.0;
        room = omega tests;
      })
  | inr full ↦
      let c = rw e at (child-Filled (suc h) ks (findch ks k) f) in
      let n : 7 < size cs = omega tests in
      let x = split_at-Filled 7 h cs n c.2 in
      let l = internal ver (split_at 7 cs).0 in
      let r = internal ver (split_at 7 cs).2 in
      let p = (split_at 7 cs).1 in
      let j = findch-insert_child ks p k l r in
      let at = child-insert_child ks p (findch ks k) l r (findch-le-size ks k) in
      rw full (elim (Bool-cases (leb p k)) [
        | inl right ↦ rw right (record {
          ver = ver;
          kids = (split_at 7 cs).2;
          here = ground (arith, j);
          at = at.1;
          filled = x.3;
          low = omega (tests, x.1);
          room = omega (tests, x.1);
        })
        | inr left ↦ rw left (record {
          ver = ver;
          kids = (split_at 7 cs).0;
          here = ground (arith, j);
          at = at.0;
          filled = x.2;
          low = omega (arith, x.0);
          room = omega (arith, x.0);
        })
      ])
]

pub size-descend :
    (f : Kids → Kids) (ks : Kids) (j : ℕ) (t : Tree)
    → child ks j ≡ t
    → size (descend f (ks, j)) ≡ size ks
unfolding descend
size-descend f ks j (leaf ver es d) e = rw (e, descend)
size-descend f ks j (internal ver cs) e =
    rw (e, descend) (size-set_child ks j (internal ver (f cs)))

-- New children for the node that the descent enters, at any version.
pub Entered-Serves :
    (w : Option ℕ) (h k ver : ℕ) (o : Option ℕ) (ks : Kids) (j : ℕ) (new : Kids)
    (n : Entered h k ks j)
    → FilledKids (suc h) ks
    → Serves w h o k n.kids new
    → Serves w (suc h) o k ks (set_child ks j (internal ver new))
unfolding put_grown
Entered-Serves w h k ver o ks j new n g s = record {
  acts = rw n.here (put_grown-ActsKids w o k ks (same (internal ver new)) (rw at_findch s.acts));
  filled = set_child-Filled (suc h) ks j (internal ver new) g (omega arith, omega arith, s.filled);
  grows = omega (arith, size-set_child ks j (internal ver new));
  at_most = omega (arith, size-set_child ks j (internal ver new));
}
  where
    at_findch : child ks (findch ks k) ≡ internal n.ver n.kids
    at_findch = rw (← n.here) n.at

pub descend-Serves :
    (w : Option ℕ) (h k : ℕ) (o : Option ℕ) (ks : Kids) (j : ℕ) (f : Kids → Kids)
    (n : Entered h k ks j)
    → FilledKids (suc h) ks
    → Serves w h o k n.kids (f n.kids)
    → Serves w (suc h) o k ks (descend f (ks, j))
unfolding descend
descend-Serves w h k o ks j f n g s =
    rw (n.at, descend) (Entered-Serves w h k n.ver o ks j (f n.kids) n g s)

-- One operation after another that leaves the entries.
pub Serves-trans :
    (w : Option ℕ) (h k : ℕ) (o : Option ℕ) (ks ks' ks'' : Kids)
    → Serves w h none k ks ks'
    → Serves w h o k ks' ks''
    → size ks'' ≤ suc (size ks)
    → Serves w h o k ks ks''
unfolding act
Serves-trans w h k o ks ks' ks'' s t n = record {
  acts = λ lo hi a z w.
      let x = s.acts lo hi a z w in let y = t.acts lo hi a z x.0 in (y.0, rw (← x.1) y.1);
  filled = t.filled;
  grows = omega arith;
  at_most = n;
}

-- ===== src/Btree/Focus.antt =====
-- The descent to a key in lib/trees/btree: an action at the child that `findch` picks, seen at the node.
use contrees_fat_node.Prelude.{
  ℕ, suc, ◌≤◌, ◌<◌, ◌≡◌, ap, sym, ◌∙◌, Option, inl, inr, List, ◌++◌, arith, ltb, ltb→lt, ltb→le,
  Bool-cases, append_assoc,
}
use contrees_fat_node.SortedMap.{Entry, act, act-append_left, act-append_right}
use contrees_fat_node.Btree.Node.{Tree, Kids, one, more, child, findch, set_child, insert_child}
use contrees_fat_node.Btree.Inplace.{Grown, same, pair, put_grown}
use contrees_fat_node.Btree.Shape.{
  entries, entries_kids, Ordered, OrderedKids, Ordered-SortedIn, OrderedKids-SortedIn,
}

abbrev pub grown_entries : Option ℕ → Grown → List Entry
grown_entries w (same t) = entries w t
grown_entries w (pair l p r) = entries w l ++ entries w r

abbrev pub OrderedGrown : ℕ → ℕ → Grown → Type 0
OrderedGrown lo hi (same t) = Ordered lo hi t
OrderedGrown lo hi (pair l p r) = (lo ≤ p) × (p ≤ hi) × Ordered lo p l × Ordered p hi r

-- In any bounds around `k`, the outcome `g` is ordered as `t` is, and holds the entries of `t` after
-- the action.
abbrev pub Acts : Option ℕ → Option ℕ → ℕ → Tree → Grown → Type 0
Acts w o k t g =
    (lo hi : ℕ)
    → lo ≤ k
    → k < hi
    → Ordered lo hi t
    → OrderedGrown lo hi g × (grown_entries w g ≡ act o k (entries w t))

abbrev pub ActsKids : Option ℕ → Option ℕ → ℕ → Kids → Kids → Type 0
ActsKids w o k ks ks' =
    (lo hi : ℕ)
    → lo ≤ k
    → k < hi
    → OrderedKids lo hi ks
    → OrderedKids lo hi ks' × (entries_kids w ks' ≡ act o k (entries_kids w ks))

put_grown_first :
    (w : Option ℕ) (o : Option ℕ) (k s : ℕ) (c : Tree) (ks : Kids) (g : Grown)
    → k < s
    → Acts w o k c g
    → ActsKids w o k (more c s ks) (put_grown (more c s ks) 0 g)
unfolding put_grown set_child insert_child
put_grown_first w o k s c ks (same t) h a lo hi p q r =
    let x = a lo s p h r.2 in
    (
      (r.0, r.1, x.0, r.3),
      rw
          (act-append_left o k (entries w c) (entries_kids w ks) s hi h
            (OrderedKids-SortedIn w s hi ks r.3))
          (ap (λ xs. xs ++ entries_kids w ks) x.1),
    )
put_grown_first w o k s c ks (pair l m t) h a lo hi p q r =
    let x = a lo s p h r.2 in
    (
      (x.0.0, omega arith, x.0.2, (x.0.1, r.1, x.0.3, r.3)),
      rw
          (act-append_left o k (entries w c) (entries_kids w ks) s hi h
            (OrderedKids-SortedIn w s hi ks r.3))
          (sym (append_assoc (entries w l) (entries w t) (entries_kids w ks))
            ∙ ap (λ xs. xs ++ entries_kids w ks) x.1),
    )

-- What happens behind the first child.
pub later_child :
    (w o : Option ℕ) (k s : ℕ) (c : Tree) (ks ks' : Kids)
    → s ≤ k
    → ActsKids w o k ks ks'
    → ActsKids w o k (more c s ks) (more c s ks')
later_child w o k s c ks ks' h a lo hi p q r =
    let x = a s hi h q r.3 in
    (
      (r.0, r.1, r.2, x.0),
      rw
          (act-append_right o k (entries w c) (entries_kids w ks) lo s h
            (Ordered-SortedIn w lo s c r.2))
          (ap (λ xs. entries w c ++ xs) x.1),
    )

-- What happens at the first child.
pub first_child :
    (w o : Option ℕ) (k s : ℕ) (c c' : Tree) (ks : Kids)
    → k < s
    → Acts w o k c (same c')
    → ActsKids w o k (more c s ks) (more c' s ks)
unfolding put_grown set_child
first_child w o k s c c' ks h a = put_grown_first w o k s c ks (same c') h a

put_grown_later :
    (w : Option ℕ) (o : Option ℕ) (k s i : ℕ) (c : Tree) (ks : Kids) (g : Grown)
    → s ≤ k
    → ActsKids w o k ks (put_grown ks i g)
    → ActsKids w o k (more c s ks) (put_grown (more c s ks) (suc i) g)
unfolding put_grown set_child insert_child
put_grown_later w o k s i c ks (same t) h a = later_child w o k s c ks (set_child ks i t) h a
put_grown_later w o k s i c ks (pair l m t) h a =
    later_child w o k s c ks (insert_child ks m l t i) h a

put_grown_only :
    (w : Option ℕ) (o : Option ℕ) (k : ℕ) (c : Tree) (g : Grown)
    → Acts w o k c g
    → ActsKids w o k (one c) (put_grown (one c) 0 g)
unfolding put_grown set_child insert_child
put_grown_only w o k c (same t) a = a
put_grown_only w o k c (pair l m t) a = a

-- An outcome at the child for `k` is an outcome at the node.
pub put_grown-ActsKids :
    (w : Option ℕ) (o : Option ℕ) (k : ℕ) (ks : Kids) (g : Grown)
    → Acts w o k (child ks (findch ks k)) g
    → ActsKids w o k ks (put_grown ks (findch ks k) g)
unfolding findch child
put_grown-ActsKids w o k (one c) g a = put_grown_only w o k c g a
put_grown-ActsKids w o k (more c s ks) g a = elim (Bool-cases (ltb k s)) [
  | inl e ↦ rw e (put_grown_first w o k s c ks g (ltb→lt k s e) (rw e at a))
  | inr e ↦ rw e (
      put_grown_later w o k s (findch ks k) c ks g (ltb→le k s e)
        (put_grown-ActsKids w o k ks g (rw e at a)))
]

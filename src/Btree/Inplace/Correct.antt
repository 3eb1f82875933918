-- ===== src/Btree/Inplace/Correct.antt =====
-- `update_internal_inplace` of lib/trees/btree/update_inplace.hpp.
use contrees_fat_node.Prelude.{
  ℕ, zero, suc, ◌≤◌, ◌<◌, ◌≡◌, refl, ◌∙◌, Option, none, some, arith, List, ◌++◌, length,
}
use contrees_fat_node.Btree.Query.{slots_of}
use contrees_fat_node.SortedMap.{Entry, act, put, SortedIn, SortedIn-put}
use contrees_fat_node.Btree.Node.{Tree, Kids, DeltaBlock, leaf, internal, child, findch}
use contrees_fat_node.Btree.Inplace.{
  Grown, same, pair, put_grown, make_room, update_leaf_inplace, update_entries, grown_leaf,
  LeafUpdate, whole, halves, update_internal_inplace,
}
use contrees_fat_node.Btree.Shape.{
  Ordered, content, content-SortedIn, content-none, Filled, FilledKids,
}
use contrees_fat_node.Btree.Focus.{Acts, put_grown-ActsKids}
use contrees_fat_node.Btree.Leaf.{
  update_list, update_entries-put, update_entries-Filled, FilledUpdate, SortedIn-halves,
}
use contrees_fat_node.Btree.Fill.{
  child-Filled, set_child-Filled, size-set_child, insert_child-Filled, size-insert_child,
}
use contrees_fat_node.Btree.Inplace.Descent.{
  Serves, make_room-Serves, make_room-Entered, descend-Serves, size-descend, Serves-trans,
}

-- From the list of a leaf update to the leaves: the leaf keeps its sidecar, and only its own entries
-- are looked at.
pub grown_leaf_kept-Acts :
    (ver k v : ℕ) (es : List Entry) (d : Option DeltaBlock) (u : LeafUpdate)
    → update_list u ≡ put k v es
    → FilledUpdate (length es) u
    → Acts none (some v) k (leaf ver es d) (grown_leaf ver d 0 u)
unfolding act grown_leaf
grown_leaf_kept-Acts ver k v es d (whole es') e f lo hi h j o =
    ((rw e (SortedIn-put k v es h j o.0), o.1), e)
grown_leaf_kept-Acts ver k v es d (halves l p r) e f lo hi h j o =
    let s : SortedIn lo hi (l ++ r) = rw e (SortedIn-put k v es h j o.0) in
    let x = SortedIn-halves lo hi l r (omega arith) s in
    (rw (f.4) (x.0, x.1, (x.2, tt), (x.3, tt)), e)

-- The leaves are new and have no sidecar; `w` says what is seen of the old leaf.
pub grown_leaf_fresh-Acts :
    (w : Option ℕ) (old ver k v n : ℕ) (es : List Entry) (d : Option DeltaBlock) (u : LeafUpdate)
    → ((lo hi : ℕ)
        → lo ≤ k
        → k < hi
        → Ordered lo hi (leaf old es d)
        → update_list u ≡ put k v (content w es d))
    → FilledUpdate n u
    → Acts w (some v) k (leaf old es d) (grown_leaf ver none ver u)
unfolding act grown_leaf
grown_leaf_fresh-Acts w old ver k v n es d (whole es') e f lo hi h j o =
    let s : SortedIn lo hi es' =
      rw (e lo hi h j o) (SortedIn-put k v _ h j (content-SortedIn w old lo hi d es o.1 o.0)) in
    ((s, tt), content-none w es' ∙ e lo hi h j o)
grown_leaf_fresh-Acts w old ver k v n es d (halves l p r) e f lo hi h j o =
    let s : SortedIn lo hi (l ++ r) =
      rw (e lo hi h j o) (SortedIn-put k v _ h j (content-SortedIn w old lo hi d es o.1 o.0)) in
    let x = SortedIn-halves lo hi l r (omega arith) s in
    (
      rw (f.4) (x.0, x.1, (x.2, tt), (x.3, tt)),
      rw (content-none w l, content-none w r) (e lo hi h j o),
    )

abbrev pub FilledGrown : ℕ → Grown → Type 0
FilledGrown h (same t) = Filled h t
FilledGrown h (pair l p r) = Filled h l × Filled h r

pub grown_leaf-FilledGrown :
    (ver new n : ℕ) (d : Option DeltaBlock) (u : LeafUpdate)
    → 8 ≤ n
    → length (slots_of d) ≤ 8
    → FilledUpdate n u
    → FilledGrown 0 (grown_leaf ver d new u)
unfolding grown_leaf
grown_leaf-FilledGrown ver new n d (whole es) h z f = omega arith
grown_leaf-FilledGrown ver new n d (halves l p r) h z f = omega arith

-- An outcome at the child for `k` serves the node.
pub put_grown-Serves :
    (w : Option ℕ) (h k : ℕ) (o : Option ℕ) (t : Tree) (ks : Kids) (g : Grown)
    → child ks (findch ks k) ≡ t
    → FilledKids h ks
    → Acts w o k t g
    → FilledGrown h g
    → Serves w h o k ks (put_grown ks (findch ks k) g)
unfolding put_grown
put_grown-Serves w h k o t ks (same t') e f a z = record {
  acts = put_grown-ActsKids w o k ks (same t') (rw e a);
  filled = set_child-Filled h ks (findch ks k) t' f z;
  grows = omega (arith, size-set_child ks (findch ks k) t');
  at_most = omega (arith, size-set_child ks (findch ks k) t');
}
put_grown-Serves w h k o t ks (pair l p r) e f a z = record {
  acts = put_grown-ActsKids w o k ks (pair l p r) (rw e a);
  filled = insert_child-Filled h ks p l r (findch ks k) f z.0 z.1;
  grows = omega (arith, size-insert_child ks p l r (findch ks k));
  at_most = omega (arith, size-insert_child ks p l r (findch ks k));
}

leaf-Serves :
    (ver k v : ℕ) (es : List Entry) (d : Option DeltaBlock) (ks : Kids)
    → child ks (findch ks k) ≡ leaf ver es d
    → FilledKids 0 ks
    → Serves none 0
        (some v)
        k
        ks
        (put_grown ks (findch ks k) (update_leaf_inplace (leaf ver es d) k v))
unfolding update_leaf_inplace
leaf-Serves ver k v es d ks e f =
    let c = rw e at (child-Filled 0 ks (findch ks k) f) in
    let u = update_entries-Filled es k v c.1 in
    put_grown-Serves none 0 k (some v) (leaf ver es d) ks
      (grown_leaf ver d 0 (update_entries es k v)) e f
      (grown_leaf_kept-Acts ver k v es d (update_entries es k v) (update_entries-put es k v c.1) u)
      (grown_leaf-FilledGrown ver 0 (length es) d (update_entries es k v) c.0 c.2 u)

-- One update below a node, by induction on the height of its children. `t` is the child for `k`.
update_child-Serves :
    (h k v : ℕ) (ks : Kids) (t : Tree)
    → child ks (findch ks k) ≡ t
    → FilledKids h ks
    → Serves none h (some v) k ks (update_internal_inplace (suc h) ks k v)
unfolding update_internal_inplace
update_child-Serves zero k v ks (leaf ver es d) e f =
    rw (e, update_internal_inplace) (leaf-Serves ver k v es d ks e f)
update_child-Serves zero k v ks (internal ver cs) e f =
    absurd (rw e at (child-Filled 0 ks (findch ks k) f))
update_child-Serves (suc h) k v ks (leaf ver es d) e f =
    absurd (rw e at (child-Filled (suc h) ks (findch ks k) f))
update_child-Serves (suc h) k v ks (internal ver cs) e f =
    let s = make_room-Serves none h 0 ver k ks cs e f in
    let n = make_room-Entered h 0 ver k ks cs e f in
    let (ks', j) = make_room 0 ks (findch ks k) cs k in
    rw (e, update_internal_inplace)
      (Serves-trans none (suc h) k (some v) ks ks' _ s
        (descend-Serves none h k (some v) ks' j (λ cs'. update_internal_inplace (suc h) cs' k v) n
          s.filled
          (update_child-Serves h k v n.kids (child n.kids (findch n.kids k)) refl n.filled))
        (omega (
          arith,
          size-descend (λ cs'. update_internal_inplace (suc h) cs' k v) ks' j _ refl,
          s.at_most,
        )))

-- An update below a node puts the entry, keeps the order and the height, and adds one child at most.
pub update_internal_inplace-Serves :
    (h k v : ℕ) (ks : Kids)
    → FilledKids h ks
    → Serves none h (some v) k ks (update_internal_inplace (suc h) ks k v)
update_internal_inplace-Serves h k v ks f =
    update_child-Serves h k v ks (child ks (findch ks k)) refl f

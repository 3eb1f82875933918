-- ===== src/Btree/Scan/Correct.antt =====
-- The scans of lib/trees/btree/query.hpp, beside the entries that the snapshot sees.
use contrees_fat_node.Prelude.{
  ℕ, suc, ◌-◌, ◌≤◌, ◌≡◌, refl, ap, sym, ◌∙◌, true, false, some, List, [], ◌∷◌, ◌++◌, arith, length,
  take, ltb, ◌==◌, Bool-cases, inl, inr, ltb→lt, ltb→le, ==→eq,
}
use contrees_fat_node.SortedMap.{Entry, SortedIn}
use contrees_fat_node.Btree.Node.{Tree, Kids, leaf, internal, one, more, findch}
use contrees_fat_node.Btree.Shape.{
  entries, entries_kids, Ordered, OrderedKids, Ordered-SortedIn, OrderedKids-SortedIn,
}
use contrees_fat_node.Btree.Scan.{
  scan_visible_append, append_children, scan_visible_search, search_children, scan,
}
use contrees_fat_node.Btree.Scan.Leaf.{
  from_key, fill, fill-full, fill-append, scan_visible_leaf-fill,
}

from_key-append :
    (key : ℕ) (xs ys : List Entry) → from_key key (xs ++ ys) ≡ from_key key xs ++ from_key key ys
unfolding from_key
from_key-append key [] ys = refl
from_key-append key ((k, v) ∷ xs) ys = ground (arith, from_key-append key xs ys)

-- All entries lie from the key on, or below it.
from_key_all :
    (key lo hi : ℕ) (es : List Entry) → key ≤ lo → SortedIn lo hi es → from_key key es ≡ es
unfolding from_key
from_key_all key lo hi [] h s = refl
from_key_all key lo hi ((k, v) ∷ es) h s =
    ground (arith, from_key_all key (suc k) hi es (omega arith) s.2)

from_key_none :
    (key lo hi : ℕ) (es : List Entry) → hi ≤ key → SortedIn lo hi es → from_key key es ≡ []
unfolding from_key
from_key_none key lo hi [] h s = refl
from_key_none key lo hi ((k, v) ∷ es) h s = ground (arith, from_key_none key (suc k) hi es h s.2)

mutual
  unfolding scan_visible_append append_children

  scan_visible_append-fill :
      (t : Tree) (lo hi n snapshot : ℕ) (ret : List Entry)
      → Ordered lo hi t
      → scan_visible_append t n snapshot ret ≡ fill n ret (entries (some snapshot) t)
  scan_visible_append-fill (leaf ver es d) lo hi n snapshot ret o =
      scan_visible_leaf-fill ver lo hi 0 false n snapshot es d ret o
  scan_visible_append-fill (internal ver ks) lo hi n snapshot ret o =
      append_children-fill ks lo hi n snapshot ret o

  append_children-fill :
      (ks : Kids) (lo hi n snapshot : ℕ) (ret : List Entry)
      → OrderedKids lo hi ks
      → append_children ks n snapshot ret ≡ fill n ret (entries_kids (some snapshot) ks)
  append_children-fill (one c) lo hi n snapshot ret o = elim (Bool-cases (ltb (length ret) n)) [
    | inl room ↦ rw room (scan_visible_append-fill c lo hi n snapshot ret o)
    | inr full ↦
        rw full (sym (fill-full n ret (entries (some snapshot) c) (ltb→le (length ret) n full)))
  ]
  append_children-fill (more c s ks) lo hi n snapshot ret o =
      elim (Bool-cases (ltb (length ret) n)) [
        | inl room ↦ rw room (
            ap (append_children ks n snapshot) (scan_visible_append-fill c lo s n snapshot ret o.2)
            ∙ append_children-fill ks s hi n snapshot (fill n ret (entries (some snapshot) c)) o.3
            ∙ fill-append n ret (entries (some snapshot) c) (entries_kids (some snapshot) ks))
        | inr full ↦ rw full (
            sym (
              fill-full n ret (entries_kids (some snapshot) (more c s ks))
                (ltb→le (length ret) n full)))
      ]

mutual
  unfolding scan_visible_search search_children findch

  scan_visible_search-fill :
      (t : Tree) (lo hi key n snapshot : ℕ) (ret : List Entry)
      → Ordered lo hi t
      → scan_visible_search t key n snapshot ret
        ≡ fill n ret (from_key key (entries (some snapshot) t))
  scan_visible_search-fill (leaf ver es d) lo hi key n snapshot ret o =
      scan_visible_leaf-fill ver lo hi key true n snapshot es d ret o
  scan_visible_search-fill (internal ver ks) lo hi key n snapshot ret o =
      search_children-fill ks lo hi key n snapshot ret o

  search_children-fill :
      (ks : Kids) (lo hi key n snapshot : ℕ) (ret : List Entry)
      → OrderedKids lo hi ks
      → search_children ks (findch ks key) key n snapshot ret
        ≡ fill n ret (from_key key (entries_kids (some snapshot) ks))
  search_children-fill (one c) lo hi key n snapshot ret o =
      scan_visible_search-fill c lo hi key n snapshot ret o
  search_children-fill (more c s ks) lo hi key n snapshot ret o =
      let xs = entries (some snapshot) c in
      let ys = entries_kids (some snapshot) ks in
      let split = from_key-append key xs ys in
      elim (Bool-cases (ltb key s)) [
        | inl left ↦
            let all =
              from_key_all key s hi ys (omega (arith, ltb→lt key s left))
                (OrderedKids-SortedIn (some snapshot) s hi ks o.3) in
            rw left (
              ap (append_children ks n snapshot)
                (scan_visible_search-fill c lo s key n snapshot ret o.2)
              ∙ append_children-fill ks s hi n snapshot (fill n ret (from_key key xs)) o.3
              ∙ fill-append n ret (from_key key xs) ys
              ∙ ap (fill n ret) (ap (◌++◌ (from_key key xs)) (sym all) ∙ sym split))
        | inr right ↦
            let none_left =
              from_key_none key lo s xs (ltb→le key s right)
                (Ordered-SortedIn (some snapshot) lo s c o.2) in
            rw right (
              search_children-fill ks s hi key n snapshot ret o.3
              ∙ ap (fill n ret) (ap (λ zs. zs ++ from_key key ys) (sym none_left) ∙ sym split))
      ]

-- A scan of an ordered tree, for a snapshot, returns the first `n` of the entries that the snapshot
-- sees from the key on, in order, or all of them if there are fewer.
pub scan_lem :
    (t : Tree) (lo hi key n snapshot : ℕ)
    → Ordered lo hi t
    → scan t key n snapshot ≡ take n (from_key key (entries (some snapshot) t))
unfolding scan
scan_lem t lo hi key n snapshot o = elim (Bool-cases (n == 0)) [
  | inl nothing ↦ rw (nothing, ==→eq n 0 nothing)
  | inr wanted ↦
      let all : n - 0 ≡ n = omega arith in
      rw wanted (
        scan_visible_search-fill t lo hi key n snapshot [] o
        ∙ ap (λ (k : ℕ). take k (from_key key (entries (some snapshot) t))) all)
]

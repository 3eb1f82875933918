-- ===== src/Btree/Leaf.antt =====
-- The leaf routines of lib/trees/btree/update_inplace.hpp, on the list of the entries.
use contrees_fat_node.Prelude.{
  ℕ, zero, suc, ◌-◌, ◌≤◌, ◌<◌, ◌≡◌, refl, ap, ◌∙◌, true, false, inl, inr, List, [], ◌∷◌, ◌++◌,
  arith, length, drop, ltb, Bool-cases, length-take, length-drop, take_all, tests,
}
use contrees_fat_node.ArrayOps.{
  copy, insert, length-insert, length-copy_insert, copy_insert_all, copy_insert-append-drop,
  take-append-insert,
}
use contrees_fat_node.SortedMap.{Entry, SortedIn, put}
use contrees_fat_node.Btree.Node.{b, full_size, findval, key_at, set_val}
use contrees_fat_node.Btree.Inplace.{
  LeafUpdate, whole, halves, update_entries, split_leaf, first_key,
}

set_val-eq-put :
    (es : List Entry) (k v : ℕ)
    → key_at es (findval es k) k ≡ true
    → set_val es (findval es k) v ≡ put k v es
unfolding key_at findval set_val put
set_val-eq-put [] k v h = cc
set_val-eq-put ((a, w) ∷ es) k v h = ground (arith, set_val-eq-put es k v)

insert-eq-put :
    (es : List Entry) (k v : ℕ)
    → key_at es (findval es k) k ≡ false
    → insert es (findval es k) (k, v) ≡ put k v es
unfolding key_at findval insert put
insert-eq-put [] k v h = refl
insert-eq-put ((a, w) ∷ es) k v h = ground (arith, insert-eq-put es k v)

pub findval-le-length : (es : List Entry) (k : ℕ) → findval es k ≤ length es
unfolding findval
findval-le-length [] k = omega arith
findval-le-length ((a, w) ∷ es) k = ground (arith, findval-le-length es k)

length-set_val : (es : List Entry) (i v : ℕ) → length (set_val es i v) ≡ length es
unfolding set_val
length-set_val [] i v = refl
length-set_val ((a, w) ∷ es) zero v = refl
length-set_val ((a, w) ∷ es) (suc i) v = ap suc (length-set_val es i v)

-- The two halves hold the full leaf and the new entry, eight entries each.
split_leaf-append :
    (es : List Entry) (i : ℕ) (e : Entry)
    → length es ≡ 15
    → (split_leaf es i e).0 ++ (split_leaf es i e).1 ≡ insert es i e
unfolding split_leaf copy
split_leaf-append es i e h = elim (Bool-cases (ltb i b)) [
  | inl t ↦
      rw (t, take_all 8 (drop 7 es) (omega (arith, length-drop 7 es)))
        (copy_insert-append-drop es 7 i e (omega tests))
  | inr t ↦
      rw (t, copy_insert_all (drop 8 es) 7 (i - 8) e (omega (arith, length-drop 8 es)))
        (take-append-insert es 8 i e (omega tests))
]

length-split_leaf :
    (es : List Entry) (i : ℕ) (e : Entry)
    → length es ≡ 15
    → i ≤ 15
    → (length (split_leaf es i e).0 ≡ 8) × (length (split_leaf es i e).1 ≡ 8)
unfolding split_leaf copy
length-split_leaf es i e h j = elim (Bool-cases (ltb i b)) [
  | inl t ↦ rw t (
    length-copy_insert es 7 i e (omega tests) (omega arith),
    omega (arith, length-take 8 (drop 7 es), length-drop 7 es),
  )
  | inr t ↦ rw t (
    omega (arith, length-take 8 es),
    length-copy_insert (drop 8 es) 7 (i - 8) e (omega tests) (omega (arith, length-drop 8 es)),
  )
]

abbrev pub update_list : LeafUpdate → List Entry
update_list (whole es) = es
update_list (halves l p r) = l ++ r

-- An update of at most 15 entries leaves, in one leaf or in two together, the entries with the new
-- one put: in order, or in the place of the value of its key.
pub update_entries-put :
    (es : List Entry) (k v : ℕ) → length es ≤ 15 → update_list (update_entries es k v) ≡ put k v es
unfolding update_entries
update_entries-put es k v h = elim (Bool-cases (key_at es (findval es k) k)) [
  | inl hit ↦ rw hit (set_val-eq-put es k v hit)
  | inr miss ↦ elim (Bool-cases (ltb (length es) full_size)) [
    | inl room ↦ rw (miss, room) (insert-eq-put es k v miss)
    | inr full ↦
        rw (miss, full)
          (split_leaf-append es (findval es k) (k, v) (omega tests) ∙ insert-eq-put es k v miss)
  ]
]

abbrev pub FilledUpdate : ℕ → LeafUpdate → Type 0
FilledUpdate n (whole es) = (n ≤ length es) × (length es ≤ 15)
FilledUpdate n (halves l p r) =
    (8 ≤ length l) × (length l ≤ 15) × (8 ≤ length r) × (length r ≤ 15) × (p ≡ first_key r)

-- An update of at most 15 entries leaves one leaf of at least as many and at most 15, or two leaves
-- of 8 to 15 each whose separator is the first key of the right one.
pub update_entries-Filled :
    (es : List Entry) (k v : ℕ) → length es ≤ 15 → FilledUpdate (length es) (update_entries es k v)
unfolding update_entries
update_entries-Filled es k v h = elim (Bool-cases (key_at es (findval es k) k)) [
  | inl hit ↦ rw hit (omega (arith, length-set_val es (findval es k) v))
  | inr miss ↦ elim (Bool-cases (ltb (length es) full_size)) [
    | inl room ↦
        rw (miss, room)
          (omega (tests, length-insert es (findval es k) (k, v) (findval-le-length es k)))
    | inr full ↦
        rw (miss, full)
          (let x =
              length-split_leaf es (findval es k) (k, v) (omega tests)
                (omega (arith, findval-le-length es k)) in
            (omega (arith, x.0), omega (arith, x.0), omega (arith, x.1), omega (arith, x.1), refl))
  ]
]

pub SortedIn-halves :
    (lo hi : ℕ) (xs ys : List Entry)
    → 0 < length ys
    → SortedIn lo hi (xs ++ ys)
    → (lo ≤ first_key ys)
      × (first_key ys ≤ hi)
      × SortedIn lo (first_key ys) xs
      × SortedIn (first_key ys) hi ys
unfolding first_key
SortedIn-halves lo hi xs [] h s = absurd (omega arith)
SortedIn-halves lo hi [] ((k, v) ∷ ys) h s = (s.0, omega arith, tt, (omega arith, s.1, s.2))
SortedIn-halves lo hi ((a, w) ∷ xs) ((k, v) ∷ ys) h s =
    let x = SortedIn-halves (suc a) hi xs ((k, v) ∷ ys) h s.2 in
    (omega arith, x.1, (s.0, x.0, x.2), x.3)

-- ===== src/Btree/Materialize/Merge.antt =====
-- The merge of base and overlay in `materialize_leaf_cow` of lib/trees/btree/update_cow.hpp.
use contrees_fat_node.Prelude.{
  ℕ, suc, ◌+◌, ◌≤◌, ◌<◌, ◌≡◌, refl, ap, ◌∙◌, true, false, none, inl, inr, List, [], ◌∷◌, arith,
  length, ltb, ◌==◌, Bool-cases, ltb→lt, ltb→le, ==→eq, ==→ne, le→ltb,
}
use contrees_fat_node.SortedMap.{Entry, SortedIn, lookup, lookup_below}
use contrees_fat_node.Btree.Materialize.{LeafRecord, merge_base}
use contrees_fat_node.Btree.Materialize.Records.{or_else, Newer, as_entries}

-- The merge is sorted.
pub merge_base-SortedIn :
    (ver lo hi : ℕ) (es : List Entry) (ds : List LeafRecord)
    → SortedIn lo hi es
    → SortedIn lo hi (as_entries ds)
    → SortedIn lo hi (merge_base ver es ds)
unfolding merge_base
merge_base-SortedIn ver lo hi [] [] s t = tt
merge_base-SortedIn ver lo hi [] (d ∷ ds) s t =
    (t.0, t.1, merge_base-SortedIn ver (suc d.key) hi [] ds tt t.2)
merge_base-SortedIn ver lo hi ((k, v) ∷ es) [] s t =
    (s.0, s.1, merge_base-SortedIn ver (suc k) hi es [] s.2 tt)
merge_base-SortedIn ver lo hi ((k, v) ∷ es) (d ∷ ds) s t = ground (
  arith,
  merge_base-SortedIn ver (suc k) hi es (d ∷ ds),
  merge_base-SortedIn ver (suc k) hi es ds,
  merge_base-SortedIn ver (suc d.key) hi ((k, v) ∷ es) ds,
)

module _ (ver k v : ℕ) (es : List Entry) (d : LeafRecord) (ds : List LeafRecord) where
  merge_less :
      ltb k d.key ≡ true
      → merge_base ver ((k, v) ∷ es) (d ∷ ds) ≡ (k, v) ∷ merge_base ver es (d ∷ ds)
  unfolding merge_base
  merge_less e = ground arith

  merge_same :
      ltb k d.key ≡ false
      → (k == d.key) ≡ true
      → ltb d.version ver ≡ false
      → merge_base ver ((k, v) ∷ es) (d ∷ ds) ≡ (k, d.value) ∷ merge_base ver es ds
  unfolding merge_base
  merge_same e f g = ground arith

  merge_more :
      ltb k d.key ≡ false
      → (k == d.key) ≡ false
      → merge_base ver ((k, v) ∷ es) (d ∷ ds) ≡ (d.key, d.value) ∷ merge_base ver ((k, v) ∷ es) ds
  unfolding merge_base
  merge_more e f = ground arith

lookup-merge_nil :
    (q ver : ℕ) (ds : List LeafRecord)
    → lookup q (merge_base ver [] ds) ≡ or_else (lookup q (as_entries ds)) none
unfolding merge_base lookup
lookup-merge_nil q ver [] = refl
lookup-merge_nil q ver (d ∷ ds) = ground (arith, lookup-merge_nil q ver ds)

merge_base-nil : (ver : ℕ) (es : List Entry) → merge_base ver es [] ≡ es
unfolding merge_base
merge_base-nil ver [] = refl
merge_base-nil ver ((k, v) ∷ es) = ap (◌∷◌ (k, v)) (merge_base-nil ver es)

-- An overlay of newer records wins over the base.
pub lookup-merge_base :
    (q ver lo hi : ℕ) (es : List Entry) (ds : List LeafRecord)
    → SortedIn lo hi es
    → SortedIn lo hi (as_entries ds)
    → Newer ver ds
    → lookup q (merge_base ver es ds) ≡ or_else (lookup q (as_entries ds)) (lookup q es)
unfolding lookup
lookup-merge_base q ver lo hi [] ds s t n = lookup-merge_nil q ver ds
lookup-merge_base q ver lo hi ((k, v) ∷ es) [] s t n =
    ap (lookup q) (merge_base-nil ver ((k, v) ∷ es))
lookup-merge_base q ver lo hi ((k, v) ∷ es) (d ∷ ds) s t n = elim (Bool-cases (ltb k d.key)) [
  | inl less ↦
      let below : k < d.key = ltb→lt k d.key less in
      rw (merge_less ver k v es d ds less) (
        ground (
          arith,
          lookup-merge_base q ver (suc k) hi es (d ∷ ds) s.2 (omega arith, t.1, t.2) n,
          lookup_below q (as_entries ds) (suc d.key) hi,
        ))
  | inr more ↦ elim (Bool-cases (k == d.key)) [
    | inl same ↦
        let ih = lookup-merge_base q ver (suc k) hi es ds s.2 (rw (==→eq k d.key same) t.2) n.1 in
        rw (merge_same ver k v es d ds more same (le→ltb d.version ver (omega arith)))
          (ground (arith, ih))
    | inr other ↦
        let above : d.key < k = omega (arith, ltb→le k d.key more, ==→ne k d.key other) in
        let ih =
          lookup-merge_base q ver (suc d.key) hi ((k, v) ∷ es) ds (omega arith, s.1, s.2) t.2 n.1 in
        rw (merge_more ver k v es d ds more other) (ground (arith, ih))
  ]
]

-- Every base entry is kept, and each record adds one at most.
pub length-merge_base :
    (ver : ℕ) (es : List Entry) (ds : List LeafRecord)
    → (length es ≤ length (merge_base ver es ds))
      × (length (merge_base ver es ds) ≤ length es + length ds)
unfolding merge_base
length-merge_base ver [] [] = omega arith
length-merge_base ver [] (d ∷ ds) = omega (arith, length-merge_base ver [] ds)
length-merge_base ver ((k, v) ∷ es) [] = omega (arith, length-merge_base ver es [])
length-merge_base ver ((k, v) ∷ es) (d ∷ ds) = ground (
  arith,
  length-merge_base ver es (d ∷ ds),
  length-merge_base ver es ds,
  length-merge_base ver ((k, v) ∷ es) ds,
)

-- Two sorted lists that read alike are equal.
pub SortedIn-ext :
    (lo hi : ℕ) (xs ys : List Entry)
    → SortedIn lo hi xs
    → SortedIn lo hi ys
    → ((q : ℕ) → lookup q xs ≡ lookup q ys)
    → xs ≡ ys
unfolding lookup
SortedIn-ext lo hi [] [] s t h = refl
SortedIn-ext lo hi [] ((k, v) ∷ ys) s t h = ground (arith, h k)
SortedIn-ext lo hi ((k, v) ∷ xs) [] s t h = ground (arith, h k)
SortedIn-ext lo hi ((k, v) ∷ xs) ((j, w) ∷ ys) s t h =
    let heads : (k ≡ j) × (v ≡ w) =
      ground (arith, h k, h j, lookup_below k ys (suc j) hi, lookup_below j xs (suc k) hi) in
    ap (λ e. e ∷ xs) (λ i. (heads.0 i, heads.1 i))
    ∙ ap (◌∷◌ (j, w)) (
        SortedIn-ext (suc k) hi xs ys s.2 (rw heads.0 t.2)
          (λ q. ground (arith, h q, lookup_below q xs (suc k) hi, lookup_below q ys (suc j) hi)))

-- ===== src/Btree/Build/Sorted.antt =====
-- `build` of lib/trees/btree/build.hpp on elements in any order.
use contrees_fat_node.Prelude.{
  ℕ, suc, ◌≤◌, ◌<◌, ◌≡◌, ◌≢◌, refl, ap, ◌∙◌, some, List, [], ◌∷◌, ltb, ◌==◌, if◌then◌else◌, arith,
  Bool-cases, inl, inr, ltb→lt, ltb→le, ne→==,
}
use contrees_fat_node.SortedMap.{Entry, SortedIn, lookup}
use contrees_fat_node.Btree.Query.{find}
use contrees_fat_node.Btree.Update.{key_limit}
use contrees_fat_node.Btree.Build.{is_before, insert_sorted, sort, build}
use contrees_fat_node.Btree.Build.Correct.{Built, build_sorted_lem}

-- No element has the key.
abbrev Absent : ℕ → List Entry → Type 0
Absent k [] = Unit {0}
Absent k ((k', v) ∷ es) = (k' ≢ k) × Absent k es

-- Distinct 64-bit keys.
abbrev pub Distinct : List Entry → Type 0
Distinct [] = Unit {0}
Distinct ((k, v) ∷ es) = (k < key_limit) × Absent k es × Distinct es

-- The values decide only between equal keys.
is_before_key : (k v k' v' : ℕ) → k ≢ k' → is_before (k, v) (k', v') ≡ ltb k k'
unfolding is_before
is_before_key k v k' v' n = rw (ne→== k k' n) (ground arith)

insert_sorted-Absent :
    (q k v : ℕ) (es : List Entry) → k ≢ q → Absent q es → Absent q (insert_sorted (k, v) es)
unfolding insert_sorted
insert_sorted-Absent q k v [] n a = (n, tt)
insert_sorted-Absent q k v ((k', v') ∷ es) n a = elim (Bool-cases (is_before (k', v') (k, v))) [
  | inl before ↦ rw before (a.0, insert_sorted-Absent q k v es n a.1)
  | inr behind ↦ rw behind (n, a)
]

sort-Absent : (q : ℕ) (es : List Entry) → Absent q es → Absent q (sort es)
unfolding sort
sort-Absent q [] a = tt
sort-Absent q ((k, v) ∷ es) a = insert_sorted-Absent q k v (sort es) a.0 (sort-Absent q es a.1)

insert_sorted-SortedIn :
    (lo hi k v : ℕ) (es : List Entry)
    → lo ≤ k
    → k < hi
    → Absent k es
    → SortedIn lo hi es
    → SortedIn lo hi (insert_sorted (k, v) es)
unfolding insert_sorted
insert_sorted-SortedIn lo hi k v [] l h a s = (l, h, tt)
insert_sorted-SortedIn lo hi k v ((k', v') ∷ es) l h a s =
    let e = is_before_key k' v' k v a.0 in
    elim (Bool-cases (ltb k' k)) [
      | inl before ↦
          rw (e, before)
            (let b = ltb→lt k' k before in
              (s.0, s.1, insert_sorted-SortedIn (suc k') hi k v es (omega (arith, b)) h a.1 s.2))
      | inr behind ↦ rw (e, behind) (l, h, (omega (arith, ltb→le k' k behind, a.0), s.1, s.2))
    ]

lookup-insert_sorted :
    (q k v : ℕ) (es : List Entry)
    → Absent k es
    → lookup q (insert_sorted (k, v) es) ≡ (if k == q then some v else lookup q es)
unfolding lookup insert_sorted
lookup-insert_sorted q k v [] a = refl
lookup-insert_sorted q k v ((k', v') ∷ es) a = elim (Bool-cases (is_before (k', v') (k, v))) [
  | inl before ↦ rw (before, lookup-insert_sorted q k v es a.1) (ground (arith, a.0))
  | inr behind ↦ rw behind refl
]

sort-SortedIn : (es : List Entry) → Distinct es → SortedIn 0 key_limit (sort es)
unfolding sort
sort-SortedIn [] d = tt
sort-SortedIn ((k, v) ∷ es) d =
    insert_sorted-SortedIn 0 key_limit k v (sort es) (omega arith) d.0 (sort-Absent k es d.1)
      (sort-SortedIn es d.2)

lookup-sort : (q : ℕ) (es : List Entry) → Distinct es → lookup q (sort es) ≡ lookup q es
unfolding lookup sort
lookup-sort q [] d = refl
lookup-sort q ((k, v) ∷ es) d =
    lookup-insert_sorted q k v (sort es) (sort-Absent k es d.1)
    ∙ ap (λ r. if k == q then some v else r) (lookup-sort q es d.2)

-- A build from elements in any order, with distinct 64-bit keys, ends with a well formed tree of the
-- sorted elements, in which every snapshot finds at a key what the elements as given have there.
pub build_lem :
    (elems : List Entry)
    → Distinct elems
    → (b : Built (sort elems) (build elems)) × ((q snapshot : ℕ)
        → find b.tree q snapshot ≡ lookup q elems)
unfolding build
build_lem elems d =
    let b = build_sorted_lem (sort elems) (sort-SortedIn elems d) in
    (b, λ q snapshot. b.reads q snapshot ∙ lookup-sort q elems d)

-- ===== src/Btree/Scan/Records.antt =====
-- The sorted records of `scan_visible_leaf` in lib/trees/btree/query.hpp: records of one key differ
-- in their versions, and those of the leaf are older than those of its sidecar.
use contrees_fat_node.Prelude.{
  ℕ, zero, suc, ◌≤◌, ◌<◌, ◌≡◌, refl, ap, sym, ◌∙◌, none, some, List, [], ◌∷◌, ◌++◌, arith, ◌==◌,
  if◌then◌else◌, Bool-cases, inl, inr,
}
use contrees_fat_node.SortedMap.{
  Entry, SortedIn, lookup, lookup_below, lookup-put, put, SortedIn-put,
}
use contrees_fat_node.Btree.Node.{DeltaSlot}
use contrees_fat_node.Btree.Query.{is_visible}
use contrees_fat_node.Btree.Shape.{overlay, Filed, is_visible_unused}
use contrees_fat_node.Btree.Materialize.{LeafRecord, insert_record, sort_records}
use contrees_fat_node.Btree.Materialize.Records.{or_else, last_for, KeysIn}
use contrees_fat_node.Btree.Scan.{base_records, visible_records}

-- The records of the key of `x` are newer than `x`.
abbrev pub Later : LeafRecord → List LeafRecord → Type 0
Later x [] = Unit {0}
Later x (y ∷ ys) = (y.key ≡ x.key → x.version < y.version) × Later x ys

-- So it is for each record and those behind it.
abbrev pub Layered : List LeafRecord → Type 0
Layered [] = Unit {0}
Layered (x ∷ xs) = Later x xs × Layered xs

insert_record-Later :
    (x y : LeafRecord) (ys : List LeafRecord)
    → (y.key ≡ x.key → x.version < y.version)
    → Later x ys
    → Later x (insert_record y ys)
unfolding insert_record
insert_record-Later x y [] h l = (h, tt)
insert_record-Later x y (z ∷ ys) h l = ground (arith, insert_record-Later x y ys h l.1)

sort_records-Later :
    (x : LeafRecord) (ys : List LeafRecord) → Later x ys → Later x (sort_records ys)
unfolding sort_records
sort_records-Later x [] l = tt
sort_records-Later x (y ∷ ys) l =
    insert_record-Later x y (sort_records ys) l.0 (sort_records-Later x ys l.1)

last_for-insert_record :
    (q : ℕ) (x : LeafRecord) (ys : List LeafRecord)
    → Later x ys
    → last_for q (insert_record x ys) ≡ last_for q (x ∷ ys)
unfolding last_for insert_record
last_for-insert_record q x [] l = refl
last_for-insert_record q x (y ∷ ys) l = ground (arith, last_for-insert_record q x ys l.1, l.0)

-- Sorting layered records keeps the last record of each key.
pub last_for-sort-Layered :
    (q : ℕ) (xs : List LeafRecord) → Layered xs → last_for q (sort_records xs) ≡ last_for q xs
unfolding last_for sort_records
last_for-sort-Layered q [] l = refl
last_for-sort-Layered q (x ∷ xs) l =
    last_for-insert_record q x (sort_records xs) (sort_records-Later x xs l.0)
    ∙ ap (λ o. or_else o (if x.key == q then some x.value else none))
        (last_for-sort-Layered q xs l.1)

Later-append :
    (x : LeafRecord) (xs ys : List LeafRecord) → Later x xs → Later x ys → Later x (xs ++ ys)
Later-append x [] ys l m = m
Later-append x (y ∷ xs) ys l m = (l.0, Later-append x xs ys l.1 m)

-- Records of other keys.
base_records-Later :
    (x : LeafRecord) (ver lo hi : ℕ) (es : List Entry)
    → SortedIn lo hi es
    → x.key < lo
    → Later x (base_records ver es)
unfolding base_records
base_records-Later x ver lo hi [] s h = tt
base_records-Later x ver lo hi ((k, v) ∷ es) s h =
    (λ e. absurd (omega (arith, e)), base_records-Later x ver (suc k) hi es s.2 (omega arith))

visible_records-Later :
    (x : LeafRecord) (snapshot v lo hi n : ℕ) (ss : List DeltaSlot)
    → Filed v lo hi n ss
    → x.version ≤ v
    → Later x (visible_records snapshot ss)
unfolding visible_records
visible_records-Later x snapshot v lo hi zero [] f h = tt
visible_records-Later x snapshot v lo hi (suc n) [] f h = absurd f
visible_records-Later x snapshot v lo hi zero (s ∷ ss) f h =
    rw (is_visible_unused snapshot s f.0) (visible_records-Later x snapshot v lo hi zero ss f.1 h)
visible_records-Later x snapshot v lo hi (suc n) (s ∷ ss) f h =
    let rest = visible_records-Later x snapshot s.version lo hi n ss f.4 (omega arith) in
    elim (Bool-cases (is_visible snapshot s)) [
      | inl seen ↦ rw seen (λ e. omega arith, rest)
      | inr late ↦ rw late rest
    ]

visible_records-Layered :
    (snapshot v lo hi n : ℕ) (ss : List DeltaSlot)
    → Filed v lo hi n ss
    → Layered (visible_records snapshot ss)
unfolding visible_records
visible_records-Layered snapshot v lo hi zero [] f = tt
visible_records-Layered snapshot v lo hi (suc n) [] f = absurd f
visible_records-Layered snapshot v lo hi zero (s ∷ ss) f =
    rw (is_visible_unused snapshot s f.0) (visible_records-Layered snapshot v lo hi zero ss f.1)
visible_records-Layered snapshot v lo hi (suc n) (s ∷ ss) f =
    let rest = visible_records-Layered snapshot s.version lo hi n ss f.4 in
    let x : LeafRecord = record { key = s.key; value = s.value; version = s.version } in
    elim (Bool-cases (is_visible snapshot s)) [
      | inl seen ↦
          rw seen (visible_records-Later x snapshot s.version lo hi n ss f.4 (omega arith), rest)
      | inr late ↦ rw late rest
    ]

pub records-Layered :
    (snapshot ver lo lo' hi n : ℕ) (es : List Entry) (ss : List DeltaSlot)
    → SortedIn lo' hi es
    → Filed ver lo hi n ss
    → Layered (base_records ver es ++ visible_records snapshot ss)
unfolding base_records
records-Layered snapshot ver lo lo' hi n [] ss s f =
    visible_records-Layered snapshot ver lo hi n ss f
records-Layered snapshot ver lo lo' hi n ((k, v) ∷ es) ss s f =
    let x : LeafRecord = record { key = k; value = v; version = ver } in
    (
      Later-append x (base_records ver es) (visible_records snapshot ss)
          (base_records-Later x ver (suc k) hi es s.2 (omega arith))
          (visible_records-Later x snapshot ver lo hi n ss f (omega arith)),
      records-Layered snapshot ver lo (suc k) hi n es ss s.2 f,
    )

visible_records-KeysIn :
    (snapshot v lo hi n : ℕ) (ss : List DeltaSlot)
    → Filed v lo hi n ss
    → KeysIn lo hi (visible_records snapshot ss)
unfolding visible_records
visible_records-KeysIn snapshot v lo hi zero [] f = tt
visible_records-KeysIn snapshot v lo hi (suc n) [] f = absurd f
visible_records-KeysIn snapshot v lo hi zero (s ∷ ss) f =
    rw (is_visible_unused snapshot s f.0) (visible_records-KeysIn snapshot v lo hi zero ss f.1)
visible_records-KeysIn snapshot v lo hi (suc n) (s ∷ ss) f =
    let rest = visible_records-KeysIn snapshot s.version lo hi n ss f.4 in
    elim (Bool-cases (is_visible snapshot s)) [
      | inl seen ↦ rw seen (f.2, f.3, rest)
      | inr late ↦ rw late rest
    ]

pub records-KeysIn :
    (snapshot ver lo lo' hi n : ℕ) (es : List Entry) (ss : List DeltaSlot)
    → lo ≤ lo'
    → SortedIn lo' hi es
    → Filed ver lo hi n ss
    → KeysIn lo hi (base_records ver es ++ visible_records snapshot ss)
unfolding base_records
records-KeysIn snapshot ver lo lo' hi n [] ss h s f =
    visible_records-KeysIn snapshot ver lo hi n ss f
records-KeysIn snapshot ver lo lo' hi n ((k, v) ∷ es) ss h s f =
    (omega arith, s.1, records-KeysIn snapshot ver lo (suc k) hi n es ss (omega arith) s.2 f)

last_for-append :
    (q : ℕ) (xs ys : List LeafRecord)
    → last_for q (xs ++ ys) ≡ or_else (last_for q ys) (last_for q xs)
unfolding last_for
last_for-append q [] ys = ground arith
last_for-append q (x ∷ xs) ys = ground (arith, last_for-append q xs ys)

last_for-base_records :
    (q ver lo hi : ℕ) (es : List Entry)
    → SortedIn lo hi es
    → last_for q (base_records ver es) ≡ lookup q es
unfolding last_for base_records lookup
last_for-base_records q ver lo hi [] s = refl
last_for-base_records q ver lo hi ((k, v) ∷ es) s =
    ground (arith, last_for-base_records q ver (suc k) hi es s.2, lookup_below q es (suc k) hi)

lookup-overlay_visible :
    (q snapshot v lo hi n : ℕ) (ss : List DeltaSlot) (es : List Entry)
    → Filed v lo hi n ss
    → SortedIn lo hi es
    → lookup q (overlay snapshot ss es)
      ≡ or_else (last_for q (visible_records snapshot ss)) (lookup q es)
unfolding overlay visible_records last_for
lookup-overlay_visible q snapshot v lo hi zero [] es f s = refl
lookup-overlay_visible q snapshot v lo hi (suc n) [] es f s = absurd f
lookup-overlay_visible q snapshot v lo hi zero (x ∷ ss) es f s =
    rw (is_visible_unused snapshot x f.0)
      (lookup-overlay_visible q snapshot v lo hi zero ss es f.1 s)
lookup-overlay_visible q snapshot v lo hi (suc n) (x ∷ ss) es f s =
    elim (Bool-cases (is_visible snapshot x)) [
      | inl seen ↦ rw seen (
          lookup-overlay_visible q snapshot x.version lo hi n ss (put x.key x.value es) f.4
            (SortedIn-put x.key x.value es f.2 f.3 s)
          ∙ ground (arith, lookup-put x.key q x.value es lo hi s))
      | inr late ↦ rw late (lookup-overlay_visible q snapshot x.version lo hi n ss es f.4 s)
    ]

-- The last record of a key has what the snapshot sees at the key.
pub last_for-records :
    (q snapshot ver lo hi n : ℕ) (es : List Entry) (ss : List DeltaSlot)
    → SortedIn lo hi es
    → Filed ver lo hi n ss
    → last_for q (base_records ver es ++ visible_records snapshot ss)
      ≡ lookup q (overlay snapshot ss es)
last_for-records q snapshot ver lo hi n es ss s f =
    last_for-append q (base_records ver es) (visible_records snapshot ss)
    ∙ ap (or_else (last_for q (visible_records snapshot ss)))
        (last_for-base_records q ver lo hi es s)
    ∙ sym (lookup-overlay_visible q snapshot ver lo hi n ss es f s)

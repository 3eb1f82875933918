-- ===== src/Btree/Scan/Leaf.antt =====
-- `scan_visible_leaf` of lib/trees/btree/query.hpp, beside the entries that the snapshot sees.
use contrees_fat_node.Prelude.{
  ℕ, zero, suc, ◌-◌, ◌≤◌, ◌<◌, ◌≡◌, refl, ap, sym, ◌∙◌, Bool, true, false, Option, none, some, List,
  [], ◌∷◌, ◌++◌, arith, length, take, leb, ltb, if◌then◌else◌, Bool-cases, inl, inr, append_assoc,
  append-nil, length-append, ltb→lt, ltb→le,
}
use contrees_fat_node.SortedMap.{Entry, SortedIn}
use contrees_fat_node.Btree.Node.{DeltaSlot, DeltaBlock, leaf}
use contrees_fat_node.Btree.Shape.{content, overlay, overlay-SortedIn, Ordered, Filed}
use contrees_fat_node.Btree.Materialize.{LeafRecord, sort_records, newest_per_key}
use contrees_fat_node.Btree.Materialize.Records.{
  as_entries, sort_records-KeySorted, newest_per_key-SortedIn, lookup-newest_per_key,
}
use contrees_fat_node.Btree.Materialize.Merge.{SortedIn-ext}
use contrees_fat_node.Btree.Scan.{
  emit_one, emit, base_records, visible_records, leaf_records, scan_visible_leaf,
}
use contrees_fat_node.Btree.Scan.Records.{
  last_for-sort-Layered, records-Layered, records-KeysIn, last_for-records,
}

-- The entries from a key on.
unfoldable pub from_key : ℕ → List Entry → List Entry
from_key key [] = []
from_key key ((k, v) ∷ es) = if leb key k then (k, v) ∷ from_key key es else from_key key es

-- What a scan makes of a vector: it takes the entries until there are `n` in all.
abbrev pub fill : ℕ → List Entry → List Entry → List Entry
fill n ret es = ret ++ take (n - length ret) es

pub fill-full : (n : ℕ) (ret es : List Entry) → n ≤ length ret → fill n ret es ≡ ret
fill-full n ret es h =
    let none_left : n - length ret ≡ 0 = omega arith in
    ap (λ (k : ℕ). ret ++ take k es) none_left ∙ append-nil ret

pub fill-nil : (n : ℕ) (ret : List Entry) → fill n ret [] ≡ ret
fill-nil n ret = ap (◌++◌ ret) (take_nil (n - length ret)) ∙ append-nil ret
  where
    take_nil : (k : ℕ) → take {A = Entry} k [] ≡ []
    take_nil zero = refl
    take_nil (suc k) = refl

pub fill-cons :
    (n : ℕ) (ret : List Entry) (e : Entry) (es : List Entry)
    → length ret < n
    → fill n (ret ++ e ∷ []) es ≡ fill n ret (e ∷ es)
fill-cons n ret e es h =
    let l = length-append ret (e ∷ []) in
    append_assoc ret (e ∷ []) (take (n - length (ret ++ e ∷ [])) es)
    ∙ ap (λ (k : ℕ). ret ++ e ∷ take k es) (omega (arith, l))
    ∙ ap (λ (k : ℕ). ret ++ take k (e ∷ es))
        (let m : suc (n - length ret - 1) ≡ n - length ret = omega arith in m)

pub fill-append :
    (n : ℕ) (ret xs ys : List Entry) → fill n (fill n ret xs) ys ≡ fill n ret (xs ++ ys)
fill-append n ret [] ys = ap (λ r. fill n r ys) (fill-nil n ret)
fill-append n ret (x ∷ xs) ys = elim (Bool-cases (ltb (length ret) n)) [
  | inl room ↦
      let h = ltb→lt (length ret) n room in
      ap (λ r. fill n r ys) (sym (fill-cons n ret x xs h))
      ∙ fill-append n (ret ++ x ∷ []) xs ys
      ∙ fill-cons n ret x (xs ++ ys) h
  | inr full ↦
      let h = ltb→le (length ret) n full in
      ap (λ r. fill n r ys) (fill-full n ret (x ∷ xs) h)
      ∙ fill-full n ret ys h
      ∙ sym (fill-full n ret (x ∷ xs ++ ys) h)
]

-- The entries that a bound lets through.
abbrev pub bounded : Bool → ℕ → List Entry → List Entry
bounded true key es = from_key key es
bounded false key es = es

emit_one-fill :
    (key : ℕ) (use_key : Bool) (n : ℕ) (ret : List Entry) (r : LeafRecord) (es : List Entry)
    → length ret < n
    → fill n (emit_one key use_key ret r) (bounded use_key key es)
      ≡ fill n ret (bounded use_key key ((r.key, r.value) ∷ es))
unfolding emit_one from_key
emit_one-fill key false n ret r es h = fill-cons n ret (r.key, r.value) es h
emit_one-fill key true n ret r es h = elim (Bool-cases (leb key r.key)) [
  | inl above ↦ rw above (fill-cons n ret (r.key, r.value) (from_key key es) h)
  | inr below ↦ rw below refl
]

emit-fill :
    (key : ℕ) (use_key : Bool) (n : ℕ) (ret : List Entry) (rs : List LeafRecord)
    → emit key use_key n ret rs ≡ fill n ret (bounded use_key key (as_entries rs))
unfolding emit from_key
emit-fill key true n ret [] = sym (fill-nil n ret)
emit-fill key false n ret [] = sym (fill-nil n ret)
emit-fill key use_key n ret (r ∷ rs) = elim (Bool-cases (ltb (length ret) n)) [
  | inl room ↦
      rw (room, emit)
        (emit-fill key use_key n (emit_one key use_key ret r) rs
          ∙ emit_one-fill key use_key n ret r (as_entries rs) (ltb→lt (length ret) n room))
  | inr full ↦
      rw (full, emit)
        (sym (
          fill-full n ret (bounded use_key key (as_entries (r ∷ rs))) (ltb→le (length ret) n full)))
]

records-content :
    (ver lo hi n snapshot : ℕ) (es : List Entry) (ss : List DeltaSlot)
    → SortedIn lo hi es
    → Filed ver lo hi n ss
    → as_entries
        (newest_per_key (sort_records (base_records ver es ++ visible_records snapshot ss)))
      ≡ overlay snapshot ss es
records-content ver lo hi n snapshot es ss s f =
    let xs = base_records ver es ++ visible_records snapshot ss in
    let k =
      sort_records-KeySorted lo hi xs
        (records-KeysIn snapshot ver lo lo hi n es ss (omega arith) s f) in
    SortedIn-ext lo hi (as_entries (newest_per_key (sort_records xs))) (overlay snapshot ss es)
      (newest_per_key-SortedIn lo hi (sort_records xs) k)
      (overlay-SortedIn snapshot ver lo hi n ss es f s)
      (λ q.
        lookup-newest_per_key q lo hi (sort_records xs) k
        ∙ last_for-sort-Layered q xs (records-Layered snapshot ver lo lo hi n es ss s f)
        ∙ last_for-records q snapshot ver lo hi n es ss s f)

-- The records of a leaf are the entries that the snapshot sees.
leaf_records-content :
    (ver lo hi snapshot : ℕ) (es : List Entry) (d : Option DeltaBlock)
    → Ordered lo hi (leaf ver es d)
    → as_entries (leaf_records ver es d snapshot) ≡ content (some snapshot) es d
unfolding leaf_records
leaf_records-content ver lo hi snapshot es none o =
    records-content ver lo hi 0 snapshot es [] o.0 tt
leaf_records-content ver lo hi snapshot es (some block) o =
    records-content ver lo hi block.count snapshot es block.slots o.0 o.1.1

-- `scan_visible_leaf` takes from what the snapshot sees of the leaf.
pub scan_visible_leaf-fill :
    (ver lo hi key : ℕ) (use_key : Bool) (n snapshot : ℕ) (es : List Entry) (d : Option DeltaBlock)
    (ret : List Entry)
    → Ordered lo hi (leaf ver es d)
    → scan_visible_leaf ver es d key use_key n snapshot ret
      ≡ fill n ret (bounded use_key key (content (some snapshot) es d))
unfolding scan_visible_leaf
scan_visible_leaf-fill ver lo hi key use_key n snapshot es d ret o =
    emit-fill key use_key n ret (leaf_records ver es d snapshot)
    ∙ ap (λ xs. fill n ret (bounded use_key key xs))
        (leaf_records-content ver lo hi snapshot es d o)

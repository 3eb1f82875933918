-- ===== src/Btree/Query/Find.antt =====
-- `find` of lib/trees/btree/query.hpp, beside the entries that a snapshot sees.
use contrees_fat_node.Prelude.{
  ℕ, zero, suc, ◌≤◌, ◌≡◌, refl, ap, sym, ◌∙◌, true, false, Option, none, some, inl, inr, List, [],
  ◌∷◌, arith, ltb, ltb→lt, ltb→le, le→leb, Bool-cases, if◌then◌else◌, ◌==◌,
}
use contrees_fat_node.SortedMap.{
  Entry, SortedIn, lookup, lookup_below, put, lookup-put, lookup-append_left, lookup-append_right,
  SortedIn-put,
}
use contrees_fat_node.Btree.Node.{
  Tree, Kids, DeltaSlot, DeltaBlock, leaf, internal, one, more, findch, findval, key_at,
}
use contrees_fat_node.Btree.Query.{
  LeafNode, Found, leaf_for, leaf_at, find_base, find_slot, find_slots, slots_of, is_visible,
  val_at, find,
}
use contrees_fat_node.Btree.Shape.{
  entries, entries_kids, overlay, content, Filed, IsSidecar, Ordered, OrderedKids,
  OrderedKids-SortedIn, Ordered-SortedIn, is_visible_unused,
}

find_base-lookup :
    (es : List Entry) (key : ℕ) (lo hi : ℕ)
    → SortedIn lo hi es
    → (if key_at es (findval es key) key then some (val_at es (findval es key)) else none)
      ≡ lookup key es
unfolding key_at findval val_at lookup
find_base-lookup [] key lo hi s = refl
find_base-lookup ((k, v) ∷ es) key lo hi s =
    ground (arith, find_base-lookup es key (suc k) hi s.2, lookup_below key es (suc k) hi)

find_slot_unseen :
    (key snapshot : ℕ) (r : Found) (x : DeltaSlot)
    → is_visible snapshot x ≡ false
    → find_slot key snapshot r x ≡ r
unfolding find_slot
find_slot_unseen key snapshot r x e = rw e

find_slot_seen :
    (key snapshot : ℕ) (r : Found) (x : DeltaSlot)
    → is_visible snapshot x ≡ true
    → r.1 ≤ x.version
    → find_slot key snapshot r x ≡ (if x.key == key then (some x.value, x.version) else r)
unfolding find_slot
find_slot_seen key snapshot r x e h = rw (e, le→leb r.1 x.version h)

slot_step :
    (key snapshot : ℕ) (ss : List DeltaSlot) (es : List Entry) (r : Found) (x : DeltaSlot)
    (r' : Found) (es' : List Entry)
    → find_slot key snapshot r x ≡ r'
    → (if is_visible snapshot x then put x.key x.value es else es) ≡ es'
    → (find_slots key snapshot r' ss).0 ≡ lookup key (overlay snapshot ss es')
    → (find_slots key snapshot r (x ∷ ss)).0 ≡ lookup key (overlay snapshot (x ∷ ss) es)
unfolding find_slots overlay
slot_step key snapshot ss es r x r' es' p q h =
    ap (λ z. (find_slots key snapshot z ss).0) p
    ∙ h
    ∙ ap (λ z. lookup key (overlay snapshot ss z)) (sym q)

-- The loop over the slots: the newest visible record of the key wins over the base value.
find_slots-lookup :
    (key snapshot v lo hi n : ℕ) (ss : List DeltaSlot) (es : List Entry) (r : Found)
    → Filed v lo hi n ss
    → SortedIn lo hi es
    → r.1 ≤ v
    → r.0 ≡ lookup key es
    → (find_slots key snapshot r ss).0 ≡ lookup key (overlay snapshot ss es)
unfolding find_slots overlay
find_slots-lookup key snapshot v lo hi n [] es r f s h e = e
find_slots-lookup key snapshot v lo hi zero (x ∷ ss) es r f s h e =
    let u = is_visible_unused snapshot x f.0 in
    slot_step key snapshot ss es r x r es (find_slot_unseen key snapshot r x u) (rw u)
      (find_slots-lookup key snapshot v lo hi zero ss es r f.1 s h e)
find_slots-lookup key snapshot v lo hi (suc n) (x ∷ ss) es r f s h e =
    elim (Bool-cases (is_visible snapshot x)) [
      | inl seen ↦
          slot_step key snapshot ss es r x _ (put x.key x.value es)
            (find_slot_seen key snapshot r x seen (omega arith)) (rw seen)
            (find_slots-lookup key snapshot x.version lo hi n ss (put x.key x.value es)
              (if x.key == key then (some x.value, x.version) else r) f.4
              (SortedIn-put x.key x.value es f.2 f.3 s) (ground arith)
              (ground (arith, lookup-put x.key key x.value es lo hi s)))
      | inr unseen ↦
          slot_step key snapshot ss es r x r es (find_slot_unseen key snapshot r x unseen)
            (rw unseen)
            (find_slots-lookup key snapshot x.version lo hi n ss es r f.4 s (omega arith) e)
    ]

find_base-value :
    (ver : ℕ) (es : List Entry) (d : Option DeltaBlock) (key : ℕ)
    → (find_base (record { ver = ver; kvs = es; delta = d }) key).0
      ≡ (if key_at es (findval es key) key then some (val_at es (findval es key)) else none)
unfolding find_base
find_base-value ver es d key = ground arith

find_base-version :
    (ver : ℕ) (es : List Entry) (d : Option DeltaBlock) (key : ℕ)
    → (find_base (record { ver = ver; kvs = es; delta = d }) key).1 ≤ ver
unfolding find_base
find_base-version ver es d key = ground arith

find_leaf : ℕ → ℕ → LeafNode → Option ℕ
find_leaf key snapshot l = (find_slots key snapshot (find_base l key) (slots_of l.delta)).0

find_leaf-lookup :
    (key snapshot lo hi ver : ℕ) (es : List Entry) (d : Option DeltaBlock)
    → SortedIn lo hi es
    → IsSidecar ver lo hi d
    → find_leaf key snapshot (record { ver = ver; kvs = es; delta = d })
      ≡ lookup key (content (some snapshot) es d)
unfolding find_leaf find_slots overlay
find_leaf-lookup key snapshot lo hi ver es none s c =
    find_base-value ver es none key ∙ find_base-lookup es key lo hi s
find_leaf-lookup key snapshot lo hi ver es (some block) s c =
    find_slots-lookup key snapshot ver lo hi block.count block.slots es _ c.1 s
      (find_base-version ver es (some block) key)
      (find_base-value ver es (some block) key ∙ find_base-lookup es key lo hi s)

mutual
  unfolding leaf_for findch

  leaf_for-lookup :
      (key snapshot lo hi : ℕ) (t : Tree)
      → Ordered lo hi t
      → find_leaf key snapshot (leaf_for t key) ≡ lookup key (entries (some snapshot) t)
  leaf_for-lookup key snapshot lo hi (leaf ver es d) o =
      find_leaf-lookup key snapshot lo hi ver es d o.0 o.1
  leaf_for-lookup key snapshot lo hi (internal ver ks) o = leaf_at-lookup key snapshot lo hi ks o

  leaf_at-lookup :
      (key snapshot lo hi : ℕ) (ks : Kids)
      → OrderedKids lo hi ks
      → find_leaf key snapshot (leaf_at ks (findch ks key) key)
        ≡ lookup key (entries_kids (some snapshot) ks)
  leaf_at-lookup key snapshot lo hi (one c) o = leaf_for-lookup key snapshot lo hi c o
  leaf_at-lookup key snapshot lo hi (more c s ks) o = elim (Bool-cases (ltb key s)) [
    | inl e ↦
        rw
          (
            e,
            lookup-append_left key (entries (some snapshot) c) (entries_kids (some snapshot) ks) s
                hi (ltb→lt key s e) (OrderedKids-SortedIn (some snapshot) s hi ks o.3),
          )
          (leaf_for-lookup key snapshot lo s c o.2)
    | inr e ↦
        rw
          (
            e,
            lookup-append_right key (entries (some snapshot) c) (entries_kids (some snapshot) ks) lo
                s (ltb→le key s e) (Ordered-SortedIn (some snapshot) lo s c o.2),
          )
          (leaf_at-lookup key snapshot s hi ks o.3)
  ]

-- In an ordered tree, a reader at a snapshot finds at a key what the sorted sequence of the entries
-- that the snapshot sees has there, or nothing if it has no such entry.
pub find-lookup :
    (key snapshot lo hi : ℕ) (t : Tree)
    → Ordered lo hi t
    → find t key snapshot ≡ lookup key (entries (some snapshot) t)
unfolding find find_leaf
find-lookup key snapshot lo hi t o = leaf_for-lookup key snapshot lo hi t o

-- ===== src/Btree/Worker/Laws.antt =====
-- What a reservation of lib/trees/btree shows, and what its publication makes of it.
use contrees_fat_node.Prelude.{
  ℕ, zero, suc, ◌+◌, ◌/◌, ◌≤◌, ◌<◌, ◌≡◌, refl, ap, sym, ◌∙◌, true, false, not, ◌||◌, Option, none,
  some, List, [], ◌∷◌, set, leb, ◌==◌, if◌then◌else◌, arith, tests, Bool-cases, inl, inr, replicate,
  leb→le, leb→lt, eq→==, ne→==,
}
use contrees_fat_node.SortedMap.{Entry, put}
use contrees_fat_node.Btree.Node.{DeltaSlot, DeltaBlock}
use contrees_fat_node.Btree.Delta.{
  delta_pending, is_pending, supported_fat_slots, block_of, write_slot, new_delta_block, unused,
  append_leaf_delta, reserve_leaf_delta,
}
use contrees_fat_node.Btree.Query.{is_visible, slots_of}
use contrees_fat_node.Btree.Shape.{overlay, is_visible_unused}
use contrees_fat_node.Btree.Worker.{
  publish_slot, append_reserved, handle_fat_append, reserve_and_append,
}

publish_slot-set :
    (ss : List DeltaSlot) (n version key value : ℕ) (old : DeltaSlot)
    → old.key ≡ key
    → publish_slot (set ss n old) n version value
      ≡ set ss n (record { version = version; key = key; value = value })
unfolding publish_slot
publish_slot-set [] n version key value old e = refl
publish_slot-set (s ∷ ss) zero version key value old e =
    ap (λ k. record { version = version; key = k; value = value } ∷ ss) e
publish_slot-set (s ∷ ss) (suc n) version key value old e =
    ap (◌∷◌ s) (publish_slot-set ss n version key value old e)

-- The test of a full block: `count == capacity` in one function, `count >= capacity` in the other.
full-agrees :
    (block : DeltaBlock) (capacity : ℕ)
    → block.count ≤ block.capacity
    → (not (block.capacity == capacity) || block.count == capacity)
      ≡ (not (block.capacity == capacity) || leb block.capacity block.count)
full-agrees block capacity h = elim (Bool-cases (block.capacity == capacity)) [
  | inr other ↦ rw other refl
  | inl same ↦ elim (Bool-cases (leb block.capacity block.count)) [
    | inl full ↦
        rw
          (
            same,
            full,
            eq→== block.count capacity
                (omega (tests, same, leb→le block.capacity block.count full, h)),
          )
          refl
    | inr room ↦
        rw
          (
            same,
            room,
            ne→== block.count capacity
                (omega (tests, same, leb→lt block.capacity block.count room, h)),
          )
          refl
  ]
]

-- The `count` of a sidecar does not exceed its capacity.
abbrev pub CountFits : Option DeltaBlock → Type 0
CountFits none = Unit {0}
CountFits (some block) = block.count ≤ block.capacity

block_of-CountFits :
    (capacity : ℕ) (d : Option DeltaBlock)
    → CountFits d
    → (block_of capacity d).count ≤ (block_of capacity d).capacity
unfolding block_of new_delta_block
block_of-CountFits capacity none f = omega arith
block_of-CountFits capacity (some block) f = f

module _ (d : Option DeltaBlock) (capacity version key : ℕ)
    (on : supported_fat_slots capacity ≡ true) where
  reserved_slot : DeltaSlot
  reserved_slot = record { version = delta_pending + version; key = key; value = 0 }

  reserve_full :
      (not ((block_of capacity d).capacity == capacity) || (block_of capacity d).count == capacity)
        ≡ true
      → reserve_leaf_delta d capacity version key ≡ (some (block_of capacity d), none)
  unfolding reserve_leaf_delta
  reserve_full full = rw (on, full) refl

  reserve_room :
      (not ((block_of capacity d).capacity == capacity) || (block_of capacity d).count == capacity)
        ≡ false
      → reserve_leaf_delta d capacity version key
        ≡ (some (write_slot (block_of capacity d) reserved_slot), some (block_of capacity d).count)
  unfolding reserve_leaf_delta reserved_slot
  reserve_room room = rw (on, room) refl

-- If the `count` of a sidecar does not exceed its capacity, a reservation and its publication leave
-- the sidecar that an append of the same record leaves, and both are refused or neither.
pub reserve_and_append_lem :
    (d : Option DeltaBlock) (capacity version key value : ℕ)
    → CountFits d
    → reserve_and_append d capacity version key value
      ≡ append_leaf_delta d capacity version key value
unfolding reserve_and_append append_leaf_delta append_reserved handle_fat_append write_slot
    reserved_slot reserve_leaf_delta
reserve_and_append_lem d capacity version key value f =
    let block = block_of capacity d in
    let e = full-agrees block capacity (block_of-CountFits capacity d f) in
    elim (Bool-cases (supported_fat_slots capacity)) [
      | inr off ↦ rw off refl
      | inl on ↦
          elim (Bool-cases (not (block.capacity == capacity) || leb block.capacity block.count)) [
            | inl full ↦
                ap (λ r. append_reserved r version value)
                  (reserve_full d capacity version key on (e ∙ full))
                ∙ rw (on, full) refl
            | inr room ↦
                ap (λ r. append_reserved r version value)
                  (reserve_room d capacity version key on (e ∙ room))
                ∙ rw (on, room)
                    (ap (λ ss. (some (record block { count = block.count + 1; slots = ss }), true))
                      (publish_slot-set block.slots block.count version key value _ refl))
          ]
    ]

-- The slots from `n` on are unused.
abbrev pub UnusedFrom : ℕ → List DeltaSlot → Type 0
UnusedFrom n [] = Unit {0}
UnusedFrom zero (s ∷ ss) = (s.version ≡ 0) × UnusedFrom zero ss
UnusedFrom (suc n) (s ∷ ss) = UnusedFrom n ss

is_visible_pending :
    (snapshot : ℕ) (s : DeltaSlot) → is_pending s.version ≡ true → is_visible snapshot s ≡ false
unfolding is_visible
is_visible_pending snapshot s e =
    rw e (elim (Bool-cases (s.version == 0)) [ inl z ↦ rw z refl | inr n ↦ rw n refl ])

overlay-set_pending :
    (snapshot n : ℕ) (ss : List DeltaSlot) (x : DeltaSlot) (es : List Entry)
    → is_pending x.version ≡ true
    → UnusedFrom n ss
    → overlay snapshot (set ss n x) es ≡ overlay snapshot ss es
unfolding overlay
overlay-set_pending snapshot n [] x es p u = refl
overlay-set_pending snapshot zero (s ∷ ss) x es p u =
    ap (λ b. overlay snapshot ss (if b then put x.key x.value es else es))
      (is_visible_pending snapshot x p)
    ∙ sym (
        ap (λ b. overlay snapshot ss (if b then put s.key s.value es else es))
          (is_visible_unused snapshot s u.0))
overlay-set_pending snapshot (suc n) (s ∷ ss) x es p u = overlay-set_pending snapshot n ss x _ p u

pending_version :
    (version : ℕ) → version < delta_pending → is_pending (delta_pending + version) ≡ true
unfolding is_pending
pending_version version h =
    let q : (delta_pending + version) / delta_pending ≡ 1 = omega arith in rw q refl

overlay-replicate :
    (snapshot n : ℕ) (es : List Entry) → overlay snapshot (replicate n unused) es ≡ es
unfolding overlay
overlay-replicate snapshot zero es = refl
overlay-replicate snapshot (suc n) es =
    ap (λ b. overlay snapshot (replicate n unused) (if b then put 0 0 es else es))
      (is_visible_unused snapshot unused refl)
    ∙ overlay-replicate snapshot n es

replicate-UnusedFrom : (n : ℕ) → UnusedFrom 0 (replicate n unused)
replicate-UnusedFrom zero = tt
replicate-UnusedFrom (suc n) = (refl, replicate-UnusedFrom n)

-- The slots of a sidecar from its `count` on are unused.
abbrev pub TailUnused : Option DeltaBlock → Type 0
TailUnused none = Unit {0}
TailUnused (some block) = UnusedFrom block.count block.slots

block_of-overlay :
    (capacity snapshot : ℕ) (d : Option DeltaBlock) (es : List Entry)
    → overlay snapshot (block_of capacity d).slots es ≡ overlay snapshot (slots_of d) es
unfolding block_of new_delta_block overlay
block_of-overlay capacity snapshot none es = overlay-replicate snapshot capacity es
block_of-overlay capacity snapshot (some block) es = refl

block_of-UnusedFrom :
    (capacity : ℕ) (d : Option DeltaBlock)
    → TailUnused d
    → UnusedFrom (block_of capacity d).count (block_of capacity d).slots
unfolding block_of new_delta_block
block_of-UnusedFrom capacity none u = replicate-UnusedFrom capacity
block_of-UnusedFrom capacity (some block) u = u

-- A reservation, made or refused, for a version below 2^63, in a sidecar whose slots from `count` on
-- are unused, is invisible: every snapshot sees of the leaf what it saw before.
pub reserve_leaf_delta_lem :
    (d : Option DeltaBlock) (capacity version key snapshot : ℕ) (es : List Entry)
    → version < delta_pending
    → TailUnused d
    → overlay snapshot (slots_of (reserve_leaf_delta d capacity version key).0) es
      ≡ overlay snapshot (slots_of d) es
unfolding reserve_leaf_delta write_slot
reserve_leaf_delta_lem d capacity version key snapshot es h u =
    let block = block_of capacity d in
    let o = block_of-overlay capacity snapshot d es in
    elim (Bool-cases (supported_fat_slots capacity)) [
      | inr off ↦ rw off refl
      | inl on ↦ elim (Bool-cases (not (block.capacity == capacity) || block.count == capacity)) [
        | inl full ↦ rw (on, full) o
        | inr room ↦
            rw (on, room)
              (overlay-set_pending snapshot block.count block.slots _ es (pending_version version h)
                  (block_of-UnusedFrom capacity d u)
                ∙ o)
      ]
    ]

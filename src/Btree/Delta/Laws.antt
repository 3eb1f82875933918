-- ===== src/Btree/Delta/Laws.antt =====
-- `append_leaf_delta` of lib/trees/btree/node.hpp on a leaf, as snapshots see it.
use contrees_fat_node.Prelude.{
  ℕ, zero, suc, ◌+◌, ◌≤◌, ◌<◌, ◌≡◌, refl, ap, sym, ◌∙◌, Bool, true, false, not, ◌||◌, Option, none,
  some, inl, inr, List, [], ◌∷◌, arith, length, leb, ◌==◌, Bool-cases, if◌then◌else◌, set,
  length-set, replicate,
}
use contrees_fat_node.SortedMap.{Entry, put, act}
use contrees_fat_node.Btree.Node.{DeltaSlot, DeltaBlock, leaf}
use contrees_fat_node.Btree.Query.{is_visible}
use contrees_fat_node.Btree.Delta.{
  delta_pending, supported_fat_slots, unused, new_delta_block, block_of, write_slot,
  append_leaf_delta,
}
use contrees_fat_node.Btree.Shape.{overlay, content, Filed, IsSidecar, Ordered, is_visible_unused}
use contrees_fat_node.Btree.Materialize.Step.{Aged, SlotsBelow, not_pending}

-- What a new record does to the entries that a snapshot sees.
abbrev pub seen_by : ℕ → ℕ → ℕ → Option ℕ
seen_by sno snapshot val = if leb sno snapshot then some val else none

pub overlay_unused :
    (snapshot v lo hi : ℕ) (ss : List DeltaSlot) (es : List Entry)
    → Filed v lo hi 0 ss
    → overlay snapshot ss es ≡ es
unfolding overlay
overlay_unused snapshot v lo hi [] es f = refl
overlay_unused snapshot v lo hi (x ∷ ss) es f =
    ap (λ b. overlay snapshot ss (if b then put x.key x.value es else es))
      (is_visible_unused snapshot x f.0)
    ∙ overlay_unused snapshot v lo hi ss es f.1

Filed-zero : (v w lo hi : ℕ) (ss : List DeltaSlot) → Filed v lo hi 0 ss → Filed w lo hi 0 ss
Filed-zero v w lo hi [] f = tt
Filed-zero v w lo hi (x ∷ ss) f = (f.0, Filed-zero v w lo hi ss f.1)

is_visible_published :
    (snapshot : ℕ) (x : DeltaSlot)
    → 0 < x.version
    → x.version < delta_pending
    → is_visible snapshot x ≡ leb x.version snapshot
unfolding is_visible
is_visible_published snapshot x h k = ground (arith, not_pending x.version k)

set-Filed :
    (v lo hi n : ℕ) (ss : List DeltaSlot) (x : DeltaSlot)
    → Filed v lo hi n ss
    → n < length ss
    → SlotsBelow x.version ss
    → v < x.version
    → x.version < delta_pending
    → lo ≤ x.key
    → x.key < hi
    → Filed v lo hi (suc n) (set ss n x)
set-Filed v lo hi n [] x f h b c p i j = absurd (omega arith)
set-Filed v lo hi zero (y ∷ ss) x f h b c p i j = (c, p, i, j, Filed-zero v x.version lo hi ss f.1)
set-Filed v lo hi (suc n) (y ∷ ss) x f h b c p i j =
    (f.0, f.1, f.2, f.3, set-Filed y.version lo hi n ss x f.4 (omega arith) b.1 b.0 p i j)

if-act :
    (b : Bool) (k v : ℕ) (es : List Entry)
    → (if b then put k v es else es) ≡ act (if b then some v else none) k es
unfolding act
if-act true k v es = refl
if-act false k v es = refl

overlay-set :
    (snapshot v lo hi n : ℕ) (ss : List DeltaSlot) (x : DeltaSlot) (es : List Entry)
    → Filed v lo hi n ss
    → n < length ss
    → 0 < x.version
    → x.version < delta_pending
    → overlay snapshot (set ss n x) es
      ≡ act (seen_by x.version snapshot x.value) x.key (overlay snapshot ss es)
unfolding overlay act
overlay-set snapshot v lo hi n [] x es f h z p = absurd (omega arith)
overlay-set snapshot v lo hi zero (y ∷ ss) x es f h z p =
    overlay_unused snapshot v lo hi ss (if is_visible snapshot x then put x.key x.value es else es)
      f.1
    ∙ ap (λ b. if b then put x.key x.value es else es) (is_visible_published snapshot x z p)
    ∙ if-act (leb x.version snapshot) x.key x.value es
    ∙ ap (act (seen_by x.version snapshot x.value) x.key)
        (sym (overlay_unused snapshot v lo hi (y ∷ ss) es f))
overlay-set snapshot v lo hi (suc n) (y ∷ ss) x es f h z p =
    overlay-set snapshot y.version lo hi n ss x _ f.4 (omega arith) z p

replicate-Filed : (v lo hi n : ℕ) → Filed v lo hi 0 (replicate n unused)
replicate-Filed v lo hi zero = tt
replicate-Filed v lo hi (suc n) = (refl, replicate-Filed v lo hi n)

pub replicate-SlotsBelow : (m n : ℕ) → 0 < m → SlotsBelow m (replicate n unused)
replicate-SlotsBelow m zero h = tt
replicate-SlotsBelow m (suc n) h = (h, replicate-SlotsBelow m n h)

-- The sidecar that an append writes into: it is well formed, and shows what the old one shows.
pub record Opened (old sno lo hi : ℕ) (d : Option DeltaBlock) (block : DeltaBlock) : Type 0 where
  pub sized : length block.slots ≡ block.capacity
  pub filed : Filed old lo hi block.count block.slots
  pub below : SlotsBelow sno block.slots
  pub shows : (w : Option ℕ) (es : List Entry) → content w es (some block) ≡ content w es d

pub length-replicate-unused : (n : ℕ) → length (replicate n unused) ≡ n
length-replicate-unused zero = refl
length-replicate-unused (suc n) = ap suc (length-replicate-unused n)

content-new_block :
    (w : Option ℕ) (n : ℕ) (es : List Entry)
    → content w es (some (new_delta_block n)) ≡ content w es none
unfolding new_delta_block overlay
content-new_block none n es = refl
content-new_block (some s) n es =
    overlay_unused s 0 0 0 (replicate n unused) es (replicate-Filed 0 0 0 n)

block_of-Opened :
    (old sno lo hi capacity : ℕ) (es : List Entry) (d : Option DeltaBlock)
    → Ordered lo hi (leaf old es d)
    → Aged sno old es d
    → Opened old sno lo hi d (block_of capacity d)
unfolding block_of new_delta_block
block_of-Opened old sno lo hi capacity es none o a = record {
  sized = length-replicate-unused capacity;
  filed = replicate-Filed old lo hi capacity;
  below = replicate-SlotsBelow sno capacity (omega arith);
  shows = λ w es'. content-new_block w capacity es';
}
block_of-Opened old sno lo hi capacity es (some block) o a = record {
  sized = o.1.0;
  filed = o.1.1;
  below = a.1;
  shows = λ w es'. refl;
}

has_room :
    (block : DeltaBlock) (capacity : ℕ)
    → (not (block.capacity == capacity) || leb block.capacity block.count) ≡ false
    → block.count < block.capacity
has_room block capacity h = ground arith

-- The sidecar of an append and its outcome, in the words of the leaf.
pub record Appended (old sno lo hi key val : ℕ) (es : List Entry) (d : Option DeltaBlock)
    (r : Option DeltaBlock × Bool) : Type 0 where
  pub sidecar : IsSidecar old lo hi r.0
  pub shows :
      (snapshot : ℕ)
      → content (some snapshot) es r.0
        ≡ act (if r.1 then seen_by sno snapshot val else none) key (content (some snapshot) es d)

module _ (old sno lo hi key val : ℕ) (es : List Entry) (d : Option DeltaBlock)
    (o : Ordered lo hi (leaf old es d)) (a : Aged sno old es d) (p : sno < delta_pending)
    (j : lo ≤ key) (k : key < hi) where
  written :
      (block : DeltaBlock)
      → Opened old sno lo hi d block
      → block.count < block.capacity
      → Appended old sno lo hi key val es d
          (some (write_slot block (record { version = sno; key = key; value = val })), true)
  unfolding write_slot
  written block b h =
      let slot : DeltaSlot = record { version = sno; key = key; value = val } in
      record {
        sidecar = (
          length-set block.slots block.count slot ∙ b.sized,
          (let e : block.count + 1 ≡ suc block.count = omega arith in
              rw e (
                set-Filed old lo hi block.count block.slots slot b.filed (omega (arith, b.sized))
                  b.below (omega arith) p j k)),
        );
        shows = λ s.
            overlay-set s old lo hi block.count block.slots slot es b.filed (omega (arith, b.sized))
              (omega arith) p
            ∙ ap (act (seen_by sno s val) key) (b.shows (some s) es);
      }

  refused :
      (d' : Option DeltaBlock)
      → IsSidecar old lo hi d'
      → ((w : Option ℕ) → content w es d' ≡ content w es d)
      → Appended old sno lo hi key val es d (d', false)
  unfolding act
  refused d' s h = record { sidecar = s; shows = λ x. h (some x) }

  -- A record of a version below 2^63 and above those of an ordered leaf, with a key in its range, is
  -- appended or refused, whatever the capacity. The sidecar afterwards is well formed. What a snapshot
  -- sees of the leaf has the entry put if the record was appended and the snapshot is not below its
  -- version, and is else the same.
  pub append_leaf_delta-Appended :
      (capacity : ℕ)
      → Appended old sno lo hi key val es d (append_leaf_delta d capacity sno key val)
  unfolding append_leaf_delta
  append_leaf_delta-Appended capacity =
      let b = block_of-Opened old sno lo hi capacity es d o a in
      elim (Bool-cases (supported_fat_slots capacity)) [
        | inr off ↦ rw off (refused d o.1 (λ w. refl))
        | inl on ↦
            let block = block_of capacity d in
            elim (Bool-cases (not (block.capacity == capacity) || leb block.capacity block.count)) [
              | inl bad ↦ rw (on, bad) (refused (some block) (b.sized, b.filed) (λ w. b.shows w es))
              | inr good ↦ rw (on, good) (written block b (has_room block capacity good))
            ]
      ]

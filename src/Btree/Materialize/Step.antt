-- ===== src/Btree/Materialize/Step.antt =====
-- `materialize_leaf_cow` of lib/trees/btree/update_cow.hpp, beside what a reader sees of the leaf.
use contrees_fat_node.Prelude.{
  ℕ, zero, suc, ◌/◌, ◌≤◌, ◌<◌, ◌≡◌, refl, sym, ◌∙◌, false, Option, none, some, List, [], ◌∷◌, ◌++◌,
  arith, length, ◌==◌, if◌then◌else◌, ne→==, ◌%◌,
}
use contrees_fat_node.SortedMap.{Entry, SortedIn, lookup, lookup-put, put, SortedIn-put}
use contrees_fat_node.Btree.Node.{leaf, DeltaSlot, DeltaBlock}
use contrees_fat_node.Btree.Delta.{delta_pending, is_pending}
use contrees_fat_node.Btree.Query.{slots_of, is_visible}
use contrees_fat_node.Btree.Materialize.{
  LeafRecord, collect, sort_records, newest_per_key, materialized,
}
use contrees_fat_node.Btree.Materialize.Records.{
  or_else, last_for, Ascending, Ascending-Newer, KeysIn, as_entries, sort_records-Newer,
  sort_records-KeySorted, last_for-sort_records, last_for-snoc, newest_per_key-SortedIn,
  newest_per_key-Newer, lookup-newest_per_key,
}
use contrees_fat_node.Btree.Materialize.Merge.{merge_base-SortedIn, lookup-merge_base, SortedIn-ext}
use contrees_fat_node.Btree.Shape.{overlay, content, content-SortedIn, Filed, Ordered}
use contrees_fat_node.Btree.Leaves.{LeafPred}

-- The versions of the slots are below `n`.
abbrev pub SlotsBelow : ℕ → List DeltaSlot → Type 0
SlotsBelow n [] = Unit {0}
SlotsBelow n (s ∷ ss) = (s.version < n) × SlotsBelow n ss

-- The leaf and its records are older than the version `n`.
abbrev pub Aged : ℕ → LeafPred
Aged n ver es d = (ver < n) × SlotsBelow n (slots_of d)

pub not_pending : (v : ℕ) → v < delta_pending → is_pending v ≡ false
unfolding is_pending
not_pending v h = ne→== (v / delta_pending % 2) 1 (omega arith)

pub collect-KeysIn :
    (sno v lo hi n : ℕ) (ss : List DeltaSlot) → Filed v lo hi n ss → KeysIn lo hi (collect sno ss)
unfolding collect
collect-KeysIn sno v lo hi zero [] f = tt
collect-KeysIn sno v lo hi (suc n) [] f = absurd f
collect-KeysIn sno v lo hi zero (s ∷ ss) f = ground (arith, collect-KeysIn sno v lo hi zero ss f.1)
collect-KeysIn sno v lo hi (suc n) (s ∷ ss) f =
    ground (arith, collect-KeysIn sno s.version lo hi n ss f.4)

-- The collected records ascend, and so do they with the new record behind them.
pub collect-Ascending :
    (sno v lo hi n : ℕ) (ss : List DeltaSlot) (x : LeafRecord)
    → Filed v lo hi n ss
    → SlotsBelow sno ss
    → v < sno
    → x.version ≡ sno
    → Ascending v (collect sno ss ++ x ∷ [])
unfolding collect
collect-Ascending sno v lo hi zero [] x f b h e = (omega arith, tt)
collect-Ascending sno v lo hi (suc n) [] x f b h e = absurd f
collect-Ascending sno v lo hi zero (s ∷ ss) x f b h e =
    ground (arith, collect-Ascending sno v lo hi zero ss x f.1 b.1 h e)
collect-Ascending sno v lo hi (suc n) (s ∷ ss) x f b h e =
    ground (arith, collect-Ascending sno s.version lo hi n ss x f.4 b.1 b.0 e)

pub length-collect : (sno : ℕ) (ss : List DeltaSlot) → length (collect sno ss) ≤ length ss
unfolding collect
length-collect sno [] = omega arith
length-collect sno (s ∷ ss) = ground (arith, length-collect sno ss)

-- What a snapshot from `sno` on sees of a sidecar is what the version `sno` collects.
pub lookup-overlay :
    (q snapshot sno v lo hi n : ℕ) (ss : List DeltaSlot) (es : List Entry)
    → Filed v lo hi n ss
    → SlotsBelow sno ss
    → sno ≤ snapshot
    → SortedIn lo hi es
    → lookup q (overlay snapshot ss es) ≡ or_else (last_for q (collect sno ss)) (lookup q es)
unfolding overlay collect last_for is_visible
lookup-overlay q snapshot sno v lo hi zero [] es f b h s = refl
lookup-overlay q snapshot sno v lo hi (suc n) [] es f b h s = absurd f
lookup-overlay q snapshot sno v lo hi zero (x ∷ ss) es f b h s =
    ground (arith, lookup-overlay q snapshot sno v lo hi zero ss es f.1 b.1 h s)
lookup-overlay q snapshot sno v lo hi (suc n) (x ∷ ss) es f b h s = ground (
  arith,
  not_pending x.version f.1,
  lookup-put x.key q x.value es lo hi s,
  lookup-overlay q snapshot sno x.version lo hi n ss (put x.key x.value es) f.4 b.1 h
      (SortedIn-put x.key x.value es f.2 f.3 s),
)

overlay_of : ℕ → Option DeltaBlock → LeafRecord → List LeafRecord
overlay_of sno d x = newest_per_key (sort_records (collect sno (slots_of d) ++ x ∷ []))

KeysIn-snoc :
    (lo hi : ℕ) (xs : List LeafRecord) (x : LeafRecord)
    → KeysIn lo hi xs
    → lo ≤ x.key
    → x.key < hi
    → KeysIn lo hi (xs ++ x ∷ [])
KeysIn-snoc lo hi [] x k h j = (h, j, tt)
KeysIn-snoc lo hi (y ∷ ys) x k h j = (k.0, k.1, KeysIn-snoc lo hi ys x k.2 h j)

-- The facts about the collected records, whether the leaf has a sidecar or not.
pub record Collected (sno old lo hi snapshot : ℕ) (es : List Entry) (d : Option DeltaBlock)
    (x : LeafRecord) : Type 0 where
  pub ascending : Ascending old (collect sno (slots_of d) ++ x ∷ [])
  pub keys : KeysIn lo hi (collect sno (slots_of d) ++ x ∷ [])
  pub seen :
      (q : ℕ)
      → lookup q (content (some snapshot) es d)
        ≡ or_else (last_for q (collect sno (slots_of d))) (lookup q es)

collected :
    (sno old lo hi snapshot : ℕ) (es : List Entry) (d : Option DeltaBlock) (x : LeafRecord)
    → Ordered lo hi (leaf old es d)
    → Aged sno old es d
    → sno ≤ snapshot
    → lo ≤ x.key
    → x.key < hi
    → x.version ≡ sno
    → Collected sno old lo hi snapshot es d x
unfolding collect last_for overlay
collected sno old lo hi snapshot es none x o a h j k e = record {
  ascending = (omega arith, tt);
  keys = (j, k, tt);
  seen = λ q. refl;
}
collected sno old lo hi snapshot es (some block) x o a h j k e = record {
  ascending = collect-Ascending sno old lo hi block.count block.slots x o.1.1 a.1 a.0 e;
  keys =
      KeysIn-snoc lo hi (collect sno block.slots) x
        (collect-KeysIn sno old lo hi block.count block.slots o.1.1) j k;
  seen = λ q. lookup-overlay q snapshot sno old lo hi block.count block.slots es o.1.1 a.1 h o.0;
}

module _ (snapshot lo hi old sno key val : ℕ) (es : List Entry) (d : Option DeltaBlock)
    (o : Ordered lo hi (leaf old es d)) (a : Aged sno old es d) (h : sno ≤ snapshot) (j : lo ≤ key)
    (k : key < hi) where
  new_record : LeafRecord
  new_record = record { key = key; value = val; version = sno }

  facts : Collected sno old lo hi snapshot es d new_record
  unfolding new_record
  facts = collected sno old lo hi snapshot es d new_record o a h j k refl

  overlay_of-SortedIn : SortedIn lo hi (as_entries (overlay_of sno d new_record))
  unfolding overlay_of
  overlay_of-SortedIn = newest_per_key-SortedIn lo hi _ (sort_records-KeySorted lo hi _ facts.keys)

  materialized-SortedIn : SortedIn lo hi (materialized old es d sno key val)
  unfolding materialized overlay_of new_record
  materialized-SortedIn =
      merge_base-SortedIn old lo hi es (overlay_of sno d new_record) o.0 overlay_of-SortedIn

  lookup-overlay_of :
      (q : ℕ)
      → lookup q (as_entries (overlay_of sno d new_record))
        ≡ (if key == q then some val else last_for q (collect sno (slots_of d)))
  unfolding overlay_of new_record
  lookup-overlay_of q =
      lookup-newest_per_key q lo hi _ (sort_records-KeySorted lo hi _ facts.keys)
      ∙ last_for-sort_records q old _ facts.ascending
      ∙ last_for-snoc q (collect sno (slots_of d)) new_record

  lookup-materialized :
      (q : ℕ)
      → lookup q (materialized old es d sno key val)
        ≡ (if key == q then some val else lookup q (content (some snapshot) es d))
  unfolding materialized overlay_of lookup new_record
  lookup-materialized q =
      lookup-merge_base q old lo hi es (overlay_of sno d new_record) o.0 overlay_of-SortedIn (
        newest_per_key-Newer old _
          (sort_records-Newer old _ (Ascending-Newer old _ facts.ascending)))
      ∙ ground (arith, lookup-overlay_of q, facts.seen q)

  -- A leaf is ordered, its version and its records are below the version of the task, and the snapshot
  -- is not below it. Then the list that replaces the leaf is what the snapshot saw of leaf and sidecar,
  -- with the new entry put.
  pub materialized-put :
      materialized old es d sno key val ≡ put key val (content (some snapshot) es d)
  materialized-put =
      let c = content-SortedIn (some snapshot) old lo hi d es o.1 o.0 in
      SortedIn-ext lo hi (materialized old es d sno key val)
        (put key val (content (some snapshot) es d)) materialized-SortedIn
        (SortedIn-put key val (content (some snapshot) es d) j k c)
        (λ q.
          lookup-materialized q ∙ sym (lookup-put key q val (content (some snapshot) es d) lo hi c))

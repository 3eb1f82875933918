-- ===== src/Btree/Materialize/Records.antt =====
-- The overlay of `materialize_leaf_cow` in lib/trees/btree/update_cow.hpp: sorted, and the newest
-- record of each key.
use contrees_fat_node.Prelude.{
  ℕ, suc, ◌≤◌, ◌<◌, ◌≡◌, refl, ap, ◌∙◌, Option, none, some, List, [], ◌∷◌, ◌++◌, arith, length,
  ◌==◌, if◌then◌else◌,
}
use contrees_fat_node.SortedMap.{Entry, SortedIn, lookup, lookup_below}
use contrees_fat_node.Btree.Materialize.{LeafRecord, insert_record, sort_records, newest_per_key}

abbrev pub or_else : Option ℕ → Option ℕ → Option ℕ
or_else (some v) o = some v
or_else none o = o

-- The value of the last record of a key.
unfoldable pub last_for : ℕ → List LeafRecord → Option ℕ
last_for q [] = none
last_for q (x ∷ xs) = or_else (last_for q xs) (if x.key == q then some x.value else none)

-- All versions are above `v`.
abbrev pub Newer : ℕ → List LeafRecord → Type 0
Newer v [] = Unit {0}
Newer v (x ∷ xs) = (v < x.version) × Newer v xs

-- The versions ascend, from above `v`.
abbrev pub Ascending : ℕ → List LeafRecord → Type 0
Ascending v [] = Unit {0}
Ascending v (x ∷ xs) = (v < x.version) × Ascending x.version xs

-- The keys lie from `lo` and below `hi`.
abbrev pub KeysIn : ℕ → ℕ → List LeafRecord → Type 0
KeysIn lo hi [] = Unit {0}
KeysIn lo hi (x ∷ xs) = (lo ≤ x.key) × (x.key < hi) × KeysIn lo hi xs

-- The keys do not descend.
abbrev pub KeySorted : ℕ → ℕ → List LeafRecord → Type 0
KeySorted lo hi [] = Unit {0}
KeySorted lo hi (x ∷ xs) = (lo ≤ x.key) × (x.key < hi) × KeySorted x.key hi xs

pub Newer-mono : (v w : ℕ) (xs : List LeafRecord) → v ≤ w → Newer w xs → Newer v xs
Newer-mono v w [] h n = tt
Newer-mono v w (x ∷ xs) h n = (omega arith, Newer-mono v w xs h n.1)

pub Ascending-Newer : (v : ℕ) (xs : List LeafRecord) → Ascending v xs → Newer v xs
Ascending-Newer v [] a = tt
Ascending-Newer v (x ∷ xs) a =
    (a.0, Newer-mono v x.version xs (omega arith) (Ascending-Newer x.version xs a.1))

insert_record-Newer :
    (v : ℕ) (x : LeafRecord) (ys : List LeafRecord)
    → v < x.version
    → Newer v ys
    → Newer v (insert_record x ys)
unfolding insert_record
insert_record-Newer v x [] h n = (h, tt)
insert_record-Newer v x (y ∷ ys) h n = ground (arith, insert_record-Newer v x ys h n.1)

pub sort_records-Newer : (v : ℕ) (xs : List LeafRecord) → Newer v xs → Newer v (sort_records xs)
unfolding sort_records
sort_records-Newer v [] n = tt
sort_records-Newer v (x ∷ xs) n =
    insert_record-Newer v x (sort_records xs) n.0 (sort_records-Newer v xs n.1)

insert_record-KeySorted :
    (lo hi : ℕ) (x : LeafRecord) (ys : List LeafRecord)
    → lo ≤ x.key
    → x.key < hi
    → KeySorted lo hi ys
    → KeySorted lo hi (insert_record x ys)
unfolding insert_record
insert_record-KeySorted lo hi x [] h j k = (h, j, tt)
insert_record-KeySorted lo hi x (y ∷ ys) h j k =
    ground (arith, insert_record-KeySorted y.key hi x ys)

pub sort_records-KeySorted :
    (lo hi : ℕ) (xs : List LeafRecord) → KeysIn lo hi xs → KeySorted lo hi (sort_records xs)
unfolding sort_records
sort_records-KeySorted lo hi [] k = tt
sort_records-KeySorted lo hi (x ∷ xs) k =
    insert_record-KeySorted lo hi x (sort_records xs) k.0 k.1 (sort_records-KeySorted lo hi xs k.2)

-- An older record goes before the newer ones of its key.
last_for-insert_record :
    (q : ℕ) (x : LeafRecord) (ys : List LeafRecord)
    → Newer x.version ys
    → last_for q (insert_record x ys) ≡ last_for q (x ∷ ys)
unfolding last_for insert_record
last_for-insert_record q x [] n = refl
last_for-insert_record q x (y ∷ ys) n = ground (arith, last_for-insert_record q x ys n.1)

-- Sorting records of ascending versions keeps the last record of each key.
pub last_for-sort_records :
    (q v : ℕ) (xs : List LeafRecord) → Ascending v xs → last_for q (sort_records xs) ≡ last_for q xs
unfolding last_for sort_records
last_for-sort_records q v [] a = refl
last_for-sort_records q v (x ∷ xs) a =
    last_for-insert_record q x (sort_records xs)
      (sort_records-Newer x.version xs (Ascending-Newer x.version xs a.1))
    ∙ ap (λ o. or_else o (if x.key == q then some x.value else none))
        (last_for-sort_records q x.version xs a.1)

pub last_for-snoc :
    (q : ℕ) (xs : List LeafRecord) (x : LeafRecord)
    → last_for q (xs ++ x ∷ []) ≡ (if x.key == q then some x.value else last_for q xs)
unfolding last_for
last_for-snoc q [] x = refl
last_for-snoc q (y ∷ ys) x = ground (arith, last_for-snoc q ys x)

abbrev pub as_entries : List LeafRecord → List Entry
as_entries [] = []
as_entries (x ∷ xs) = (x.key, x.value) ∷ as_entries xs

-- The newest records have distinct keys in order.
pub newest_per_key-SortedIn :
    (lo hi : ℕ) (xs : List LeafRecord)
    → KeySorted lo hi xs
    → SortedIn lo hi (as_entries (newest_per_key xs))
unfolding newest_per_key
newest_per_key-SortedIn lo hi [] k = tt
newest_per_key-SortedIn lo hi (x ∷ []) k = (k.0, k.1, tt)
newest_per_key-SortedIn lo hi (x ∷ y ∷ ys) k =
    ground (
      arith,
      newest_per_key-SortedIn lo hi (y ∷ ys),
      newest_per_key-SortedIn (suc x.key) hi (y ∷ ys),
    )

pub newest_per_key-Newer : (v : ℕ) (xs : List LeafRecord) → Newer v xs → Newer v (newest_per_key xs)
unfolding newest_per_key
newest_per_key-Newer v [] n = tt
newest_per_key-Newer v (x ∷ []) n = n
newest_per_key-Newer v (x ∷ y ∷ ys) n = ground (arith, newest_per_key-Newer v (y ∷ ys) n.1)

-- The newest record of a key is its last one.
pub lookup-newest_per_key :
    (q lo hi : ℕ) (xs : List LeafRecord)
    → KeySorted lo hi xs
    → lookup q (as_entries (newest_per_key xs)) ≡ last_for q xs
unfolding newest_per_key lookup last_for
lookup-newest_per_key q lo hi [] k = refl
lookup-newest_per_key q lo hi (x ∷ []) k = refl
lookup-newest_per_key q lo hi (x ∷ y ∷ ys) k = ground (
  arith,
  lookup-newest_per_key q x.key hi (y ∷ ys) k.2,
  lookup_below q (as_entries (newest_per_key (y ∷ ys))) (suc x.key) hi,
  newest_per_key-SortedIn (suc x.key) hi (y ∷ ys),
)

length-insert_record :
    (x : LeafRecord) (ys : List LeafRecord) → length (insert_record x ys) ≡ suc (length ys)
unfolding insert_record
length-insert_record x [] = refl
length-insert_record x (y ∷ ys) = ground (arith, length-insert_record x ys)

pub length-sort_records : (xs : List LeafRecord) → length (sort_records xs) ≡ length xs
unfolding sort_records
length-sort_records [] = refl
length-sort_records (x ∷ xs) =
    length-insert_record x (sort_records xs) ∙ ap suc (length-sort_records xs)

pub length-newest_per_key : (xs : List LeafRecord) → length (newest_per_key xs) ≤ length xs
unfolding newest_per_key
length-newest_per_key [] = omega arith
length-newest_per_key (x ∷ []) = omega arith
length-newest_per_key (x ∷ y ∷ ys) = ground (arith, length-newest_per_key (y ∷ ys))

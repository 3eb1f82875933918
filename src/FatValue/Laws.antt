-- ===== src/FatValue/Laws.antt =====
-- lib/common/fat_value.hpp against a log: the published records in the order of their versions.
use contrees_fat_node.Prelude.{
  ℕ, zero, suc, ◌+◌, ◌-◌, ◌≤◌, ◌<◌, ◌≡◌, ◌⊎◌, refl, ap, sym, ◌∙◌, true, false, Option, none, some,
  List, [], ◌∷◌, ◌++◌, leb, if◌then◌else◌, length, replicate, arith, Bool-cases, inl, inr, ne→==,
  lt→ltb,
}
use contrees_fat_node.FatValue.{
  Record, FatValue, unpublished, no_values, read_record, read_records, records_of, read, publish,
  extra_of,
}

-- Versions ascend, from above `v`.
abbrev pub Ascends : ℕ → List Record → Type 0
Ascends v [] = Unit {0}
Ascends v (r ∷ rs) = (v < r.version) × Ascends r.version rs

-- What a reader at a snapshot sees of a log: its newest value, or the base.
unfoldable pub newest : ℕ → ℕ → List Record → ℕ
newest snapshot base [] = base
newest snapshot base (r ∷ rs) =
    newest snapshot (if leb r.version snapshot then r.value else base) rs

pub Ascends-left : (v : ℕ) (xs ys : List Record) → Ascends v (xs ++ ys) → Ascends v xs
Ascends-left v [] ys a = tt
Ascends-left v (x ∷ xs) ys a = (a.0, Ascends-left x.version xs ys a.1)

Ascends-mono : (u v : ℕ) (xs : List Record) → u ≤ v → Ascends v xs → Ascends u xs
Ascends-mono u v [] h a = tt
Ascends-mono u v (x ∷ xs) h a = (omega arith, a.1)

pub Ascends-right : (v : ℕ) (xs ys : List Record) → Ascends v (xs ++ ys) → Ascends v ys
Ascends-right v [] ys a = a
Ascends-right v (x ∷ xs) ys a =
    Ascends-mono v x.version ys (omega arith) (Ascends-right x.version xs ys a.1)

abbrev pub padded : List Record → ℕ → List Record
padded xs n = xs ++ replicate n unpublished

-- The log is `placed`, the published records in place, and `spilled`, those of the block. The block is
-- used only when no record in place is free; it has the other `slots - 2` records.
pub record IsLog (slots : ℕ) (f : FatValue) (log : List Record) : Type 0 where
  pub ascends : Ascends 0 log
  pub placed : List Record
  pub spilled : List Record
  pub free : ℕ
  pub extra_free : ℕ
  pub parts : log ≡ placed ++ spilled
  pub in_place : f.values ≡ padded placed free
  pub in_block : extra_of slots f.extra ≡ padded spilled extra_free
  pub sized : length placed + free ≡ 2
  pub extra_sized : length spilled + extra_free + 2 ≡ slots
  pub in_order : (free ≡ 0) ⊎ (spilled ≡ [])

read_records-unpublished :
    (snapshot n : ℕ) (r : ℕ × ℕ) → read_records snapshot r (replicate n unpublished) ≡ r
unfolding read_records read_record
read_records-unpublished snapshot zero r = refl
read_records-unpublished snapshot (suc n) r = read_records-unpublished snapshot n r

read_records-append :
    (snapshot : ℕ) (r : ℕ × ℕ) (xs ys : List Record)
    → read_records snapshot r (xs ++ ys) ≡ read_records snapshot (read_records snapshot r xs) ys
unfolding read_records
read_records-append snapshot r [] ys = refl
read_records-append snapshot r (x ∷ xs) ys =
    read_records-append snapshot (read_record snapshot r x) xs ys

read_records-padded :
    (snapshot n : ℕ) (r : ℕ × ℕ) (xs : List Record)
    → read_records snapshot r (padded xs n) ≡ read_records snapshot r xs
read_records-padded snapshot n r xs =
    read_records-append snapshot r xs (replicate n unpublished)
    ∙ read_records-unpublished snapshot n (read_records snapshot r xs)

read_records-extra :
    (slots snapshot : ℕ) (r : ℕ × ℕ) (e : Option (List Record))
    → read_records snapshot r (records_of e) ≡ read_records snapshot r (extra_of slots e)
unfolding extra_of read_records
read_records-extra slots snapshot r none = sym (read_records-unpublished snapshot (slots - 2) r)
read_records-extra slots snapshot r (some rs) = refl

read_record-new :
    (snapshot best base : ℕ) (x : Record)
    → best < x.version
    → read_record snapshot (best, base) x
      ≡ (if leb x.version snapshot then (x.version, x.value) else (best, base))
unfolding read_record
read_record-new snapshot best base x h =
    rw (ne→== x.version 0 (omega arith), lt→ltb best x.version h)
      (elim (Bool-cases (leb x.version snapshot)) [ inl seen ↦ rw seen | inr late ↦ rw late ])

read_records-newest :
    (snapshot best base v : ℕ) (xs : List Record)
    → best ≤ v
    → Ascends v xs
    → (read_records snapshot (best, base) xs).1 ≡ newest snapshot base xs
unfolding read_records newest
read_records-newest snapshot best base v [] h a = refl
read_records-newest snapshot best base v (x ∷ xs) h a =
    let e = read_record-new snapshot best base x (omega arith) in
    elim (Bool-cases (leb x.version snapshot)) [
      | inl seen ↦
          let d : read_record snapshot (best, base) x ≡ (x.version, x.value) =
            e ∙ ap (λ b. if b then (x.version, x.value) else (best, base)) seen in
          ap (λ r. (read_records snapshot r xs).1) d
          ∙ rw seen (read_records-newest snapshot x.version x.value x.version xs (omega arith) a.1)
      | inr late ↦
          let d : read_record snapshot (best, base) x ≡ (best, base) =
            e ∙ ap (λ b. if b then (x.version, x.value) else (best, base)) late in
          ap (λ r. (read_records snapshot r xs).1) d
          ∙ rw late (read_records-newest snapshot best base x.version xs (omega arith) a.1)
    ]

-- A reader at a snapshot of a value with a log reads what the log has newest for the snapshot, or the
-- base value if it has nothing.
pub read_lem :
    (slots : ℕ) (f : FatValue) (log : List Record) (base snapshot : ℕ)
    → IsLog slots f log
    → read f base snapshot ≡ newest snapshot base log
unfolding read
read_lem slots f log base snapshot l =
    let r = read_records snapshot (0, base) l.placed in
    let a =
      ap (read_records snapshot (0, base)) l.in_place
      ∙ read_records-padded snapshot l.free (0, base) l.placed in
    let b =
      read_records-extra slots snapshot r f.extra
      ∙ ap (read_records snapshot r) l.in_block
      ∙ read_records-padded snapshot l.extra_free r l.spilled in
    let c =
      sym (read_records-append snapshot (0, base) l.placed l.spilled)
      ∙ ap (read_records snapshot (0, base)) (sym l.parts) in
    ap (λ p. (read_records snapshot p (records_of f.extra)).1) a
    ∙ ap (λ p. p.1) (b ∙ c)
    ∙ read_records-newest snapshot 0 base 0 log (omega arith) l.ascends

pub publish-room :
    (v n : ℕ) (xs : List Record) (x : Record)
    → Ascends v xs
    → publish (padded xs (suc n)) x ≡ (xs ++ x ∷ replicate n unpublished, true)
unfolding publish
publish-room v n [] x a = refl
publish-room v n (y ∷ xs) x a =
    rw (ne→== y.version 0 (omega arith), publish-room y.version n xs x a.1)

pub publish-full :
    (v : ℕ) (xs : List Record) (x : Record)
    → Ascends v xs
    → publish (padded xs 0) x ≡ (padded xs 0, false)
unfolding publish
publish-full v [] x a = refl
publish-full v (y ∷ xs) x a = rw (ne→== y.version 0 (omega arith), publish-full y.version xs x a.1)

-- A fresh value has the empty log.
pub no_values-IsLog : (slots : ℕ) → 2 ≤ slots → IsLog slots no_values []
unfolding extra_of
no_values-IsLog slots h = record {
  ascends = tt;
  placed = [];
  spilled = [];
  free = 2;
  extra_free = slots - 2;
  parts = refl;
  in_place = refl;
  in_block = refl;
  sized = omega arith;
  extra_sized = omega arith;
  in_order = inr refl;
}

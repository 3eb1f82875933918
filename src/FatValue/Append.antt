-- ===== src/FatValue/Append.antt =====
-- `append` of lib/common/fat_value.hpp against a log.
use contrees_fat_node.Prelude.{
  ℕ, zero, suc, ◌+◌, ◌≤◌, ◌<◌, ◌≡◌, ◌⊎◌, refl, ap, sym, ◌∙◌, subst, Bool, true, false, not, ◌||◌,
  some, List, [], ◌∷◌, ◌++◌, ltb, ◌==◌, if◌then◌else◌, length, replicate, arith, tests, Bool-cases,
  inl, inr, ne→==, lt→ltb, le→ltb, append-nil, length-append, append_assoc,
}
use contrees_fat_node.FatValue.{
  Record, FatValue, unpublished, publish, extra_of, append_extra, append,
}
use contrees_fat_node.FatValue.Laws.{
  Ascends, Ascends-left, Ascends-right, padded, IsLog, publish-room, publish-full,
}

zero-or-suc : (n : ℕ) → (n ≡ 0) ⊎ ((m : ℕ) × (n ≡ suc m))
zero-or-suc zero = inl refl
zero-or-suc (suc n) = inr (n, refl)

-- An append was made, or refused because all records were published.
abbrev pub Appends : ℕ → List Record → Record → FatValue × Bool → Type 0
Appends slots log x (f, appended) =
    (appended ≡ ltb (length log) slots) × IsLog slots f (if appended then log ++ x ∷ [] else log)

module _ (slots version value : ℕ) (f : FatValue)
    (g : (version == 0 || not (slots == 2 || slots == 4 || slots == 8)) ≡ false) where
  abbrev new_record : Record
  new_record = record { value = value; version = version }

  append_placed :
      (rs : List Record)
      → publish f.values new_record ≡ (rs, true)
      → append f slots version value ≡ (record f { values = rs }, true)
  unfolding append
  append_placed rs e = rw (g, e) refl

  append_refused :
      (rs : List Record)
      → publish f.values new_record ≡ (rs, false)
      → (slots == 2) ≡ true
      → append f slots version value ≡ (f, false)
  unfolding append
  append_refused rs e two = rw (g, e, two) refl

  append_spilled :
      (rs rs' : List Record) (b : Bool)
      → publish f.values new_record ≡ (rs, false)
      → (slots == 2) ≡ false
      → publish (extra_of slots f.extra) new_record ≡ (rs', b)
      → append f slots version value ≡ (record f { extra = some rs' }, b)
  unfolding append append_extra
  append_spilled rs rs' b e more e' = rw (g, e, more, e') refl

  no_spill : (log : List Record) (l : IsLog slots f log) (n : ℕ) → l.free ≡ suc n → l.spilled ≡ []
  no_spill log l n r = elim l.in_order [ inl z ↦ absurd (omega (arith, z, r)) | inr e ↦ e ]

  grown-IsLog :
      (log : List Record) (l : IsLog slots f log) (n : ℕ)
      → l.free ≡ suc n
      → Ascends 0 (log ++ new_record ∷ [])
      → IsLog slots
          (record f { values = l.placed ++ new_record ∷ replicate n unpublished })
          (log ++ new_record ∷ [])
  grown-IsLog log l n r a = record {
    ascends = a;
    placed = l.placed ++ new_record ∷ [];
    spilled = l.spilled;
    free = n;
    extra_free = l.extra_free;
    parts =
        ap (λ xs. xs ++ new_record ∷ [])
          (l.parts ∙ ap (◌++◌ l.placed) (no_spill log l n r) ∙ append-nil l.placed)
        ∙ sym (append-nil (l.placed ++ new_record ∷ []))
        ∙ ap (◌++◌ (l.placed ++ new_record ∷ [])) (sym (no_spill log l n r));
    in_place = sym (append_assoc l.placed (new_record ∷ []) (replicate n unpublished));
    in_block = l.in_block;
    sized = omega (arith, l.sized, r, length-append l.placed (new_record ∷ []));
    extra_sized = l.extra_sized;
    in_order = inr (no_spill log l n r);
  }

  spilled-IsLog :
      (log : List Record) (l : IsLog slots f log) (n : ℕ)
      → l.free ≡ 0
      → l.extra_free ≡ suc n
      → Ascends 0 (log ++ new_record ∷ [])
      → IsLog slots
          (record f { extra = some (l.spilled ++ new_record ∷ replicate n unpublished) })
          (log ++ new_record ∷ [])
  unfolding extra_of
  spilled-IsLog log l n z r a = record {
    ascends = a;
    placed = l.placed;
    spilled = l.spilled ++ new_record ∷ [];
    free = l.free;
    extra_free = n;
    parts =
        ap (λ xs. xs ++ new_record ∷ []) l.parts
        ∙ append_assoc l.placed l.spilled (new_record ∷ []);
    in_place = l.in_place;
    in_block = sym (append_assoc l.spilled (new_record ∷ []) (replicate n unpublished));
    sized = l.sized;
    extra_sized = omega (arith, l.extra_sized, r, length-append l.spilled (new_record ∷ []));
    in_order = inl z;
  }

  refused-IsLog :
      (log : List Record) (l : IsLog slots f log)
      → IsLog slots (record f { extra = some (padded l.spilled l.extra_free) }) log
  unfolding extra_of
  refused-IsLog log l = record {
    ascends = l.ascends;
    placed = l.placed;
    spilled = l.spilled;
    free = l.free;
    extra_free = l.extra_free;
    parts = l.parts;
    in_place = l.in_place;
    in_block = refl;
    sized = l.sized;
    extra_sized = l.extra_sized;
    in_order = l.in_order;
  }

  made :
      (log : List Record) (r : FatValue × Bool)
      → append f slots version value ≡ r
      → r.1 ≡ true
      → length log < slots
      → IsLog slots r.0 (log ++ new_record ∷ [])
      → Appends slots log new_record (append f slots version value)
  made log r e b h l = subst (Appends slots log new_record) (sym e) (
    b ∙ sym (lt→ltb (length log) slots h),
    subst (λ c. IsLog slots r.0 (if c then log ++ new_record ∷ [] else log)) (sym b) l,
  )

  refused :
      (log : List Record) (r : FatValue × Bool)
      → append f slots version value ≡ r
      → r.1 ≡ false
      → slots ≤ length log
      → IsLog slots r.0 log
      → Appends slots log new_record (append f slots version value)
  refused log r e b h l = subst (Appends slots log new_record) (sym e) (
    b ∙ sym (le→ltb (length log) slots h),
    subst (λ c. IsLog slots r.0 (if c then log ++ new_record ∷ [] else log)) (sym b) l,
  )

  full_in_place :
      (log : List Record) (l : IsLog slots f log)
      → l.free ≡ 0
      → publish f.values new_record ≡ (padded l.placed 0, false)
  full_in_place log l z =
      ap (λ rs. publish rs new_record) (l.in_place ∙ ap (padded l.placed) z)
      ∙ publish-full 0 l.placed new_record
          (Ascends-left 0 l.placed l.spilled (subst (Ascends 0) l.parts l.ascends))

  length-log :
      (log : List Record) (l : IsLog slots f log) → length log ≡ length l.placed + length l.spilled
  length-log log l = ap length l.parts ∙ length-append l.placed l.spilled

  append_to_block :
      (log : List Record) (l : IsLog slots f log)
      → l.free ≡ 0
      → (slots == 2) ≡ false
      → Ascends 0 (log ++ new_record ∷ [])
      → Appends slots log new_record (append f slots version value)
  append_to_block log l z more a =
      let p = full_in_place log l z in
      let n = length-log log l in
      let u = Ascends-right 0 l.placed l.spilled (subst (Ascends 0) l.parts l.ascends) in
      elim (zero-or-suc l.extra_free) [
        | inl e ↦
            refused log _
              (append_spilled _ _ false p more (
                ap (λ rs. publish rs new_record) (l.in_block ∙ ap (padded l.spilled) e)
                ∙ publish-full 0 l.spilled new_record u
                ∙ ap (λ k. (padded l.spilled k, false)) (sym e)))
              refl (omega (arith, n, z, e, l.sized, l.extra_sized)) (refused-IsLog log l)
        | inr (m, e) ↦
            made log _
              (append_spilled _ _ true p more (
                ap (λ rs. publish rs new_record) (l.in_block ∙ ap (padded l.spilled) e)
                ∙ publish-room 0 m l.spilled new_record u))
              refl (omega (arith, n, z, e, l.sized, l.extra_sized)) (spilled-IsLog log l m z e a)
      ]

  append_any :
      (log : List Record)
      → IsLog slots f log
      → Ascends 0 (log ++ new_record ∷ [])
      → Appends slots log new_record (append f slots version value)
  append_any log l a =
      let n = length-log log l in
      elim (zero-or-suc l.free) [
        | inr (m, e) ↦
            made log _
              (append_placed _ (
                ap (λ rs. publish rs new_record) (l.in_place ∙ ap (padded l.placed) e)
                ∙ publish-room 0 m l.placed new_record
                    (Ascends-left 0 l.placed l.spilled (subst (Ascends 0) l.parts l.ascends))))
              refl (omega (arith, n, e, l.sized, l.extra_sized, ap length (no_spill log l m e)))
              (grown-IsLog log l m e a)
        | inl z ↦ elim (Bool-cases (slots == 2)) [
          | inl two ↦
              refused log (f, false) (append_refused _ (full_in_place log l z) two) refl
                (omega (tests, two, n, z, l.sized)) l
          | inr more ↦ append_to_block log l z more a
        ]
      ]

-- A value has a log, and 2, 4 or 8 slots. A record of a version above those of the log is appended to
-- it if the log has fewer records than there are slots, and is else refused; the log then stays.
pub append_lem :
    (slots : ℕ) (f : FatValue) (log : List Record) (version value : ℕ)
    → (slots == 2 || slots == 4 || slots == 8) ≡ true
    → IsLog slots f log
    → Ascends 0 (log ++ record { value = value; version = version } ∷ [])
    → Appends slots log (record { value = value; version = version }) (append f slots version value)
append_lem slots f log version value s l a =
    let x : Record = record { value = value; version = version } in
    let h = (Ascends-right 0 log (x ∷ []) a).0 in
    append_any slots version value f (rw (s, ne→== version 0 (omega (arith, h)))) log l a

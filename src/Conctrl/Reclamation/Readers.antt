-- ===== src/Conctrl/Reclamation/Readers.antt =====
-- The scan of lib/conctrl/reclamation.hpp for the oldest version that a reader has advertised.
use contrees_fat_node.Prelude.{
  ℕ, ◌≤◌, ◌≡◌, ◌≢◌, ◌⊎◌, ==→ne, ◌∙◌, refl, sym, true, false, subst, List, [], ◌∷◌, leb, ◌==◌, min,
  arith, Bool-cases, inl, inr, leb→le, leb→lt, ==→eq,
}
use contrees_fat_node.Conctrl.Reclamation.{inactive, oldest_of}

-- Every reader that has advertised a version has advertised at least `v`.
abbrev pub AtLeast : ℕ → List ℕ → Type 0
AtLeast v [] = Unit {0}
AtLeast v (r ∷ rs) = (r ≢ inactive → v ≤ r) × AtLeast v rs

oldest_of-nil : (o : ℕ) → oldest_of o [] ≡ o
unfolding oldest_of
oldest_of-nil o = refl

oldest_of-inactive :
    (o r : ℕ) (rs : List ℕ) → (r == inactive) ≡ true → oldest_of o (r ∷ rs) ≡ oldest_of o rs
unfolding oldest_of
oldest_of-inactive o r rs e = rw e

oldest_of-active :
    (o r : ℕ) (rs : List ℕ)
    → (r == inactive) ≡ false
    → oldest_of o (r ∷ rs) ≡ oldest_of (min o r) rs
unfolding oldest_of
oldest_of-active o r rs e = rw e

pub oldest_of-le : (o : ℕ) (rs : List ℕ) → oldest_of o rs ≤ o
unfolding oldest_of
oldest_of-le o [] = omega arith
oldest_of-le o (r ∷ rs) = elim (Bool-cases (r == inactive)) [
  | inl off ↦ rw off (oldest_of-le o rs)
  | inr on ↦ rw on (omega (arith, oldest_of-le (min o r) rs))
]

pub AtLeast-mono : (u v : ℕ) (rs : List ℕ) → u ≤ v → AtLeast v rs → AtLeast u rs
AtLeast-mono u v [] h a = tt
AtLeast-mono u v (r ∷ rs) h a = (λ x. omega (arith, a.0 x), AtLeast-mono u v rs h a.1)

pub oldest_of-AtLeast : (o : ℕ) (rs : List ℕ) → AtLeast (oldest_of o rs) rs
oldest_of-AtLeast o [] = tt
oldest_of-AtLeast o (r ∷ rs) = elim (Bool-cases (r == inactive)) [
  | inl off ↦
      let e = oldest_of-inactive o r rs off in
      (
        λ x. absurd (x (==→eq r inactive off)),
        AtLeast-mono _ (oldest_of o rs) rs (omega (arith, e)) (oldest_of-AtLeast o rs),
      )
  | inr on ↦
      let e = oldest_of-active o r rs on in
      (
        λ x. omega (arith, e, oldest_of-le (min o r) rs),
        AtLeast-mono _ (oldest_of (min o r) rs) rs (omega (arith, e))
            (oldest_of-AtLeast (min o r) rs),
      )
]

-- Some reader has advertised the version.
abbrev pub IsReader : ℕ → List ℕ → Type 0
IsReader v [] = ⊥
IsReader v (r ∷ rs) = ((r ≢ inactive) × (v ≡ r)) ⊎ IsReader v rs

pub min-cases : (a b : ℕ) → (min a b ≡ a) ⊎ (min a b ≡ b)
min-cases a b = elim (Bool-cases (leb a b)) [
  | inl less ↦ inl (omega (arith, leb→le a b less))
  | inr more ↦ inr (omega (arith, leb→lt a b more))
]

pub oldest_of-IsReader : (o : ℕ) (rs : List ℕ) → (oldest_of o rs ≡ o) ⊎ IsReader (oldest_of o rs) rs
oldest_of-IsReader o [] = inl (oldest_of-nil o)
oldest_of-IsReader o (r ∷ rs) =
    let Out : ℕ → Type 0 = λ v. (v ≡ o) ⊎ IsReader v (r ∷ rs) in
    elim (Bool-cases (r == inactive)) [
      | inl off ↦
          subst Out (sym (oldest_of-inactive o r rs off))
            (elim (oldest_of-IsReader o rs) [ inl same ↦ inl same | inr reader ↦ inr (inr reader) ])
      | inr on ↦
          subst Out (sym (oldest_of-active o r rs on)) (elim (oldest_of-IsReader (min o r) rs) [
            | inl least ↦ elim (min-cases o r) [
              | inl older ↦ inl (least ∙ older)
              | inr newer ↦ inr (inl (==→ne r inactive on, least ∙ newer))
            ]
            | inr reader ↦ inr (inr reader)
          ])
    ]

-- ===== src/Art/Key/Agree.antt =====
-- The bytes of two keys of lib/trees/art, one by one.
use contrees_fat_node.Prelude.{
  ℕ, zero, suc, ◌+◌, ◌^◌, ◌≤◌, ◌<◌, ◌≡◌, refl, ap, subst, sym, ◌∙◌, Bool, true, ◌&&◌, ◌==◌, arith,
  Bool-cases, inl, inr, eq→==, ne→==,
}
use contrees_fat_node.Art.Key.{partial_key, masked}
use contrees_fat_node.Art.Key.Bytes.{partial_key-inj, partial_key-masked}

zero_left : (n : ℕ) → 0 + n ≡ n
zero_left n = omega arith

zero_right : (n : ℕ) → n + 0 ≡ n
zero_right n = omega arith

suc_right : (n i : ℕ) → n + suc i ≡ suc n + i
suc_right n i = omega arith

suc_left : (n i : ℕ) → suc n + i ≡ suc (n + i)
suc_left n i = omega arith

-- Whether the `n` bytes from `pos` on agree.
unfoldable pub agree : ℕ → ℕ → ℕ → ℕ → Bool
agree zero pos p q = true
agree (suc n) pos p q = (partial_key p pos == partial_key q pos) && agree n (suc pos) p q

pub agree_append :
    (a b pos p q : ℕ) → agree (a + b) pos p q ≡ (agree a pos p q && agree b (pos + a) p q)
unfolding agree
agree_append zero b pos p q = let e : 0 + b ≡ b = omega arith in rw (e, zero_right pos) refl
agree_append (suc a) b pos p q =
    ap (λ (n : ℕ). agree n pos p q) (suc_left a b)
    ∙ rw (agree_append a b (suc pos) p q, suc_right pos a) (ground arith)

pub agree_self : (n pos p : ℕ) → agree n pos p p ≡ true
unfolding agree
agree_self zero pos p = refl
agree_self (suc n) pos p =
    rw (eq→== (partial_key p pos) (partial_key p pos) refl, agree_self n (suc pos) p) refl

-- Keys that agree with one another agree with the same keys.
pub agree_trans : (n pos p q r : ℕ) → agree n pos p q ≡ true → agree n pos p r ≡ agree n pos q r
unfolding agree
agree_trans zero pos p q r e = refl
agree_trans (suc n) pos p q r e = ground (arith, agree_trans n (suc pos) p q r)

pub agree_sym : (n pos p q : ℕ) → agree n pos p q ≡ agree n pos q p
unfolding agree
agree_sym zero pos p q = refl
agree_sym (suc n) pos p q = ground (arith, agree_sym n (suc pos) p q)

pub agree-byte :
    (n pos p q i : ℕ)
    → agree n pos p q ≡ true
    → i < n
    → partial_key p (pos + i) ≡ partial_key q (pos + i)
unfolding agree
agree-byte zero pos p q i e h = absurd (omega arith)
agree-byte (suc n) pos p q zero e h =
    subst (λ (k : ℕ). partial_key p k ≡ partial_key q k) (sym (zero_right pos)) (ground arith)
agree-byte (suc n) pos p q (suc i) e h =
    subst (λ (k : ℕ). partial_key p k ≡ partial_key q k) (sym (suc_right pos i))
      (agree-byte n (suc pos) p q i (ground arith) (omega arith))

agree_of_bytes :
    (n pos p q : ℕ)
    → ((i : ℕ) → i < n → partial_key p (pos + i) ≡ partial_key q (pos + i))
    → agree n pos p q ≡ true
unfolding agree
agree_of_bytes zero pos p q e = refl
agree_of_bytes (suc n) pos p q e =
    let here : partial_key p pos ≡ partial_key q pos =
      subst (λ (k : ℕ). partial_key p k ≡ partial_key q k) (zero_right pos) (e 0 (omega arith)) in
    let rest = agree_of_bytes n (suc pos) p q (λ i h.
      subst (λ (k : ℕ). partial_key p k ≡ partial_key q k) (suc_right pos i)
        (e (suc i) (omega arith))) in
    rw (eq→== (partial_key p pos) (partial_key q pos) here, rest) refl

-- All eight bytes agree when the keys are equal.
pub agree-eq : (p q : ℕ) → p < 2 ^ 64 → q < 2 ^ 64 → agree 8 0 p q ≡ (p == q)
agree-eq p q h j = elim (Bool-cases (agree 8 0 p q)) [
  | inl all ↦
      all
      ∙ sym (
          eq→== p q (
            partial_key-inj p q h j (λ i l.
              subst (λ (k : ℕ). partial_key p k ≡ partial_key q k) (zero_left i)
                (agree-byte 8 0 p q i all l))))
  | inr other ↦
      other
      ∙ sym (
          ne→== p q (λ e.
            let f : agree 8 0 p q ≡ true =
              ap (λ (k : ℕ). agree 8 0 p k) (sym e) ∙ agree_self 8 0 p in
            cc))
]

pub agree-masked :
    (pfx ofs len n q : ℕ)
    → n ≤ len
    → ofs + len ≤ 8
    → agree n ofs q (masked pfx ofs len) ≡ agree n ofs q pfx
agree-masked pfx ofs len n q h b =
    sym (agree_sym n ofs (masked pfx ofs len) q)
    ∙ agree_trans n ofs (masked pfx ofs len) pfx q (
        agree_of_bytes n ofs (masked pfx ofs len) pfx
          (λ i l. partial_key-masked pfx ofs len i (omega arith) b))
    ∙ agree_sym n ofs pfx q

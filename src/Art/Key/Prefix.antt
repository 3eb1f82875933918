-- ===== src/Art/Key/Prefix.antt =====
-- `prefix_match` of lib/trees/art/node.hpp: the prefix of a node against the bytes of a key.
use Prim.Native.Nat.{bit_xor}
use contrees_fat_node.Prelude.{
  ℕ, zero, suc, ◌+◌, ◌-◌, ◌*◌, ◌/◌, ◌%◌, ◌^◌, ◌≤◌, ◌<◌, ◌≡◌, ◌≢◌, ap, sym, ◌∙◌, true, false, ◌&&◌,
  ltb, leb, ◌==◌, arith, Bool-cases, inl, inr, eq→==, ne→==, ==→eq, ltb→lt, ltb→le, lt→ltb, le→ltb,
}
use mathlib.Core.Bool.{false≢true}
use native.Mathlib.Nat.{one-le-pow, mul-div-mul_right, div-lt_iff_lt-mul, div-eq_of_lt}
use contrees_fat_node.Art.Key.{partial_key, leading_zeros, prefix_match}
use contrees_fat_node.Art.Key.Bytes.{pow_add, byte_of_mod}
use contrees_fat_node.Art.Key.Digits.{leading_zeros-bound, bit_xor-byte, bit_xor-shift}
use contrees_fat_node.Art.Key.Agree.{agree, agree_append}

-- `d` of `prefix_match`.
abbrev apart : ℕ → ℕ → ℕ → ℕ
apart ofs p q = bit_xor p q * 2 ^ (8 * ofs) % 2 ^ 64

-- A byte of `d` is zero where those of the keys are equal.
apart-byte :
    (ofs i p q : ℕ)
    → ofs + i < 8
    → (partial_key (apart ofs p q) i == 0) ≡ (partial_key p (ofs + i) == partial_key q (ofs + i))
unfolding partial_key
apart-byte ofs i p q h =
    let a = 2 ^ (8 * ofs) in
    let m = 2 ^ (8 * i) in
    let n = 56 - 8 * (ofs + i) in
    let positive : (w : ℕ) → 0 < 2 ^ w = λ w. one-le-pow w 2 (omega arith) in
    let at : 56 - 8 * i ≡ n + 8 * ofs = omega arith in
    let width : 64 ≡ 56 - 8 * i + (8 + 8 * i) = omega arith in
    let lower : 2 ^ (56 - 8 * i) ≡ 2 ^ n * a = ap (λ (w : ℕ). 2 ^ w) at ∙ pow_add n (8 * ofs) in
    let whole : 2 ^ 64 ≡ 2 ^ (56 - 8 * i) * (256 * m) =
      ap (λ (w : ℕ). 2 ^ w) width
      ∙ pow_add (56 - 8 * i) (8 + 8 * i)
      ∙ ap (λ (w : ℕ). 2 ^ (56 - 8 * i) * w) (pow_add 8 (8 * i)) in
    let byte : partial_key (apart ofs p q) i ≡ bit_xor (p / 2 ^ n) (q / 2 ^ n) % 256 =
      ap (λ (w : ℕ). bit_xor p q * a % w / 2 ^ (56 - 8 * i) % 256) whole
      ∙ byte_of_mod (bit_xor p q * a) (2 ^ (56 - 8 * i)) m (positive (56 - 8 * i))
      ∙ ap (λ (w : ℕ). bit_xor p q * a / w % 256) lower
      ∙ ap (λ (w : ℕ). w % 256) (mul-div-mul_right (bit_xor p q) (2 ^ n) (positive (8 * ofs)))
      ∙ ap (λ (w : ℕ). w % 256) (bit_xor-shift n p q) in
    ap (λ (w : ℕ). w == 0) byte ∙ bit_xor-byte (p / 2 ^ n) (q / 2 ^ n)

-- The byte below a bound.
byte_below : (d m : ℕ) → 0 < m → d < 256 * m → (d / m % 256 == 0) ≡ ltb d m
byte_below d m z h =
    let few : d / m < 256 = (div-lt_iff_lt-mul z).1 h in
    elim (Bool-cases (ltb d m)) [
      | inl less ↦
          let e : d / m ≡ 0 = div-eq_of_lt (ltb→lt d m less) in
          eq→== (d / m % 256) 0 (omega (arith, e)) ∙ sym less
      | inr more ↦
          ne→== (d / m % 256) 0 (λ e.
            let none : d / m < 1 = omega (arith, e, few) in
            let less : d < 1 * m = (div-lt_iff_lt-mul z).0 none in
            absurd (omega (arith, less, ltb→le d m more)))
          ∙ sym more
    ]

agree_one : (pos p q : ℕ) → agree 1 pos p q ≡ (partial_key p pos == partial_key q pos)
unfolding agree
agree_one pos p q = ground arith

agree-suc : (n pos p q : ℕ) → agree (suc n) pos p q ≡ (agree n pos p q && agree 1 (pos + n) p q)
agree-suc n pos p q =
    let e : suc n ≡ n + 1 = omega arith in
    ap (λ (m : ℕ). agree m pos p q) e ∙ agree_append n 1 pos p q

leb_le : (n m : ℕ) → n ≤ m → leb n m ≡ true
leb_le n m h = ground arith

leb-suc : (n : ℕ) → leb (suc n) n ≡ false
leb-suc n = ground arith

-- The bytes agree as far as the highest digits of `d` are zero.
agree-apart :
    (n ofs p q : ℕ) → ofs + n ≤ 8 → agree n ofs p q ≡ ltb (apart ofs p q) (2 ^ (64 - 8 * n))
unfolding agree partial_key
agree-apart zero ofs p q h = sym (lt→ltb (apart ofs p q) (2 ^ 64) (omega arith))
agree-apart (suc n) ofs p q h =
    let d = apart ofs p q in
    let m = 2 ^ (56 - 8 * n) in
    let at : 64 - 8 * n ≡ 8 + (56 - 8 * n) = omega arith in
    let next : 64 - 8 * suc n ≡ 56 - 8 * n = omega arith in
    let bound : 2 ^ (64 - 8 * n) ≡ 256 * m = ap (λ (w : ℕ). 2 ^ w) at ∙ pow_add 8 (56 - 8 * n) in
    let byte = apart-byte ofs n p q (omega arith) in
    let last : agree 1 (ofs + n) p q ≡ (partial_key d n == 0) =
      agree_one (ofs + n) p q ∙ sym byte in
    let below : 0 < m = one-le-pow (56 - 8 * n) 2 (omega arith) in
    agree-suc n ofs p q
    ∙ rw (agree-apart n ofs p q (omega arith), last, next, bound)
        (elim (Bool-cases (ltb d (256 * m))) [
          | inl less ↦ rw less (byte_below d m below (ltb→lt d (256 * m) less))
          | inr more ↦
              rw more
                (let large = ltb→le d (256 * m) more in sym (le→ltb d m (omega (arith, large))))
        ])

-- What `prefix_match` returns where a digit differs is the number of the bytes before it.
zeros-agree :
    (n ofs p q : ℕ) → ofs + n ≤ 8 → leb n (leading_zeros 64 (apart ofs p q) / 8) ≡ agree n ofs p q
zeros-agree n ofs p q h =
    let d = apart ofs p q in
    let z = leading_zeros 64 d in
    let bound = leading_zeros-bound 64 (8 * n) d (omega arith) (omega arith) in
    let bytes : leb n (z / 8) ≡ leb (8 * n) z = ground arith in
    bytes ∙ bound ∙ sym (agree-apart n ofs p q h)

nothing_apart : (n ofs p q : ℕ) → ofs + n ≤ 8 → apart ofs p q ≡ 0 → agree n ofs p q ≡ true
nothing_apart n ofs p q h e =
    agree-apart n ofs p q h
    ∙ ap (λ (d : ℕ). ltb d (2 ^ (64 - 8 * n))) e
    ∙ lt→ltb 0 (2 ^ (64 - 8 * n)) (one-le-pow (64 - 8 * n) 2 (omega arith))

-- If the prefix of a node ends inside the eight bytes of a key, prefix_match with a key is at least
-- a number, up to the length of the prefix, exactly if that many first bytes of the prefix and of
-- the key are equal.
pub prefix_match-agree :
    (ofs len pfx key n : ℕ)
    → ofs + len ≤ 8
    → n ≤ len
    → leb n (prefix_match ofs len pfx key) ≡ agree n ofs key pfx
unfolding prefix_match agree
prefix_match-agree ofs zero pfx key zero b h = ground arith
prefix_match-agree ofs zero pfx key (suc n) b h = absurd (omega arith)
prefix_match-agree ofs (suc len) pfx key n b h = elim (Bool-cases (apart ofs key pfx == 0)) [
  | inl same ↦
      rw (ne→== (suc len) 0 (omega arith), same)
        (let all = nothing_apart n ofs key pfx (omega arith) (==→eq (apart ofs key pfx) 0 same) in
          leb_le n (suc len) h ∙ sym all)
  | inr other ↦
      rw (ne→== (suc len) 0 (omega arith), other) (zeros-agree n ofs key pfx (omega arith))
]

-- Where the prefix of a node and a key part.
pub record Parts (ofs len pfx key pm : ℕ) : Type 0 where
  pub inside : pm < len
  pub before : agree pm ofs key pfx ≡ true
  pub differ : partial_key key (ofs + pm) ≢ partial_key pfx (ofs + pm)

parting :
    (ofs len pfx key : ℕ)
    → ltb (prefix_match ofs len pfx key) len ≡ true
    → prefix_match ofs len pfx key ≡ leading_zeros 64 (apart ofs key pfx) / 8
unfolding prefix_match
parting ofs len pfx key h = elim (Bool-cases (apart ofs key pfx == 0)) [
  | inl same ↦ ground arith
  | inr other ↦ ground arith
]

pub prefix_match-Parts :
    (ofs len pfx key : ℕ)
    → ofs + len ≤ 8
    → ltb (prefix_match ofs len pfx key) len ≡ true
    → Parts ofs len pfx key (prefix_match ofs len pfx key)
prefix_match-Parts ofs len pfx key b h =
    let c = leading_zeros 64 (apart ofs key pfx) / 8 in
    let e : prefix_match ofs len pfx key ≡ c = parting ofs len pfx key h in
    let inside : c < len = omega (arith, e, ltb→lt (prefix_match ofs len pfx key) len h) in
    let before : agree c ofs key pfx ≡ true =
      sym (zeros-agree c ofs key pfx (omega arith)) ∙ leb_le c c (omega arith) in
    let after : agree (suc c) ofs key pfx ≡ false =
      sym (zeros-agree (suc c) ofs key pfx (omega arith)) ∙ leb-suc c in
    rw e (record {
      inside = inside;
      before = before;
      differ = λ same. false≢true (
          sym after
          ∙ agree-suc c ofs key pfx
          ∙ rw (before, agree_one (ofs + c) key pfx)
              (eq→== (partial_key key (ofs + c)) (partial_key pfx (ofs + c)) same));
    })

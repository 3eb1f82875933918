-- ===== src/Art/Key/Digits.antt =====
-- The exclusive or of two keys, and the count of the zeros before its first digit.
use Prim.Native.Nat.{digits, differ, bit_xor, bit_xor-bitwise}
use contrees_fat_node.Prelude.{
  ℕ, zero, suc, ◌+◌, ◌-◌, ◌*◌, ◌/◌, ◌%◌, ◌^◌, ◌≤◌, ◌<◌, ◌≡◌, refl, ap, sym, ◌∙◌, arith, ltb, leb,
  Bool-cases, inl, inr, ltb→lt, ltb→le, lt→ltb, ==→eq, eq→==, ne→==, ==→ne, ◌==◌, subst, true,
}
use native.Mathlib.Nat.{pow-suc, pow-le-pow_right, div-div-eq-div-mul}
use contrees_fat_node.Art.Key.{leading_zeros}

digits_enough :
    (n m a b : ℕ) → a ≤ n → a ≤ m → digits (λ b. b) differ n a b ≡ digits (λ b. b) differ m a b
digits_enough zero zero a b p q = refl
digits_enough zero (suc m) zero b p q = refl
digits_enough zero (suc m) (suc a) b p q = absurd (omega arith)
digits_enough (suc n) zero zero b p q = refl
digits_enough (suc n) zero (suc a) b p q = absurd (omega arith)
digits_enough (suc n) (suc m) zero b p q = refl
digits_enough (suc n) (suc m) (suc a) b p q =
    omega (arith, digits_enough n m (suc a / 2) (b / 2) (omega arith) (omega arith))

zero-bit_xor : (b : ℕ) → bit_xor 0 b ≡ b
zero-bit_xor b = bit_xor-bitwise 0 b

differ_zero : (b : ℕ) → differ 0 b ≡ b
differ_zero b = refl

-- The lowest digit.
bit_xor_step : (a b : ℕ) → bit_xor a b ≡ bit_xor (a / 2) (b / 2) * 2 + differ (a % 2) (b % 2)
bit_xor_step zero b = omega (arith, zero-bit_xor b, zero-bit_xor (b / 2), differ_zero (b % 2))
bit_xor_step (suc a) b = omega (
  arith,
  bit_xor-bitwise (suc a) b,
  bit_xor-bitwise (suc a / 2) (b / 2),
  digits_enough a (suc a / 2) (suc a / 2) (b / 2) (omega arith) (omega arith),
)

differ-eq : (x y : ℕ) → differ x y ≡ 0 → x ≡ y
differ-eq zero y e = sym e
differ-eq (suc x) zero e = e
differ-eq (suc x) (suc y) e = ap suc (differ-eq x y e)

differ_self : (x : ℕ) → differ x x ≡ 0
differ_self zero = refl
differ_self (suc x) = differ_self x

differ-digit : (x y : ℕ) → x < 2 → y < 2 → differ x y < 2
differ-digit zero y p q = q
differ-digit (suc x) zero p q = p
differ-digit (suc x) (suc y) p q = differ-digit x y (omega arith) (omega arith)

bit_xor_digit : (a b : ℕ) → bit_xor a b % 2 ≡ differ (a % 2) (b % 2)
bit_xor_digit a b =
    omega (arith, bit_xor_step a b, differ-digit (a % 2) (b % 2) (omega arith) (omega arith))

bit_xor_half : (a b : ℕ) → bit_xor a b / 2 ≡ bit_xor (a / 2) (b / 2)
bit_xor_half a b =
    omega (arith, bit_xor_step a b, differ-digit (a % 2) (b % 2) (omega arith) (omega arith))

-- The `n` lowest digits are the same.
abbrev Same : ℕ → ℕ → ℕ → Type 0
Same zero a b = Unit {0}
Same (suc n) a b = (a % 2 ≡ b % 2) × Same n (a / 2) (b / 2)

bit_xor-Same : (n a b : ℕ) → Same n (bit_xor a b) 0 → Same n a b
bit_xor-Same zero a b s = tt
bit_xor-Same (suc n) a b s = (
  differ-eq (a % 2) (b % 2) (sym (bit_xor_digit a b) ∙ s.0),
  bit_xor-Same n (a / 2) (b / 2) (subst (λ x. Same n x 0) (bit_xor_half a b) s.1),
)

Same-bit_xor : (n a b : ℕ) → Same n a b → Same n (bit_xor a b) 0
Same-bit_xor zero a b s = tt
Same-bit_xor (suc n) a b s = (
  bit_xor_digit a b ∙ ap (differ (a % 2)) (sym s.0) ∙ differ_self (a % 2),
  subst (λ x. Same n x 0) (sym (bit_xor_half a b)) (Same-bit_xor n (a / 2) (b / 2) s.1),
)

Same-byte : (a b : ℕ) → Same 8 a b → a % 256 ≡ b % 256
Same-byte a b (d0, (d1, (d2, (d3, (d4, (d5, (d6, (d7, end)))))))) =
    omega (arith, d0, d1, d2, d3, d4, d5, d6, d7)

byte-Same : (a b : ℕ) → a % 256 ≡ b % 256 → Same 8 a b
byte-Same a b e = (
  omega (arith, e),
  (
    omega (arith, e),
    (
      omega (arith, e),
      (
        omega (arith, e),
        (omega (arith, e), (omega (arith, e), (omega (arith, e), (omega (arith, e), tt)))),
      ),
    ),
  ),
)

-- The byte of an exclusive or is zero where the bytes are equal.
pub bit_xor-byte : (a b : ℕ) → (bit_xor a b % 256 == 0) ≡ (a % 256 == b % 256)
bit_xor-byte a b = elim (Bool-cases (a % 256 == b % 256)) [
  | inl same ↦
      eq→== (bit_xor a b % 256) 0 (
        Same-byte (bit_xor a b) 0
          (Same-bit_xor 8 a b (byte-Same a b (==→eq (a % 256) (b % 256) same))))
      ∙ sym same
  | inr other ↦
      ne→== (bit_xor a b % 256) 0 (λ e.
        ==→ne (a % 256) (b % 256) other
          (Same-byte a b (bit_xor-Same 8 a b (byte-Same (bit_xor a b) 0 e))))
      ∙ sym other
]

halves : (a n : ℕ) → a / 2 ^ suc n ≡ a / 2 ^ n / 2
halves a n = ap (λ (k : ℕ). a / k) (pow-suc 2 n) ∙ sym (div-div-eq-div-mul a (2 ^ n) 2)

pub bit_xor-shift : (n a b : ℕ) → bit_xor a b / 2 ^ n ≡ bit_xor (a / 2 ^ n) (b / 2 ^ n)
bit_xor-shift zero a b =
    let e : (x : ℕ) → x / 2 ^ 0 ≡ x = λ x. omega arith in
    e (bit_xor a b) ∙ sym (ap (λ (x : ℕ). bit_xor x (b / 2 ^ 0)) (e a) ∙ ap (bit_xor a) (e b))
bit_xor-shift (suc n) a b =
    halves (bit_xor a b) n
    ∙ ap (λ (x : ℕ). x / 2) (bit_xor-shift n a b)
    ∙ bit_xor_half (a / 2 ^ n) (b / 2 ^ n)
    ∙ sym (
        ap (λ (x : ℕ). bit_xor x (b / 2 ^ suc n)) (halves a n)
        ∙ ap (bit_xor (a / 2 ^ n / 2)) (halves b n))

-- At least `n` of the digits are leading zeros of the numbers with `n` digits fewer.
pub leading_zeros-bound :
    (width n d : ℕ)
    → d < 2 ^ width
    → n ≤ width
    → leb n (leading_zeros width d) ≡ ltb d (2 ^ (width - n))
unfolding leading_zeros
leading_zeros-bound width zero d b h =
    let e : width - 0 ≡ width = omega arith in
    let at_least : leb 0 (leading_zeros width d) ≡ true = ground arith in
    at_least ∙ sym (ap (λ (m : ℕ). ltb d (2 ^ m)) e ∙ lt→ltb d (2 ^ width) b)
leading_zeros-bound zero (suc n) d b h = absurd (omega arith)
leading_zeros-bound (suc width) (suc n) d b h =
    let e : suc width - suc n ≡ width - n = omega arith in
    let fewer : 2 ^ (width - n) ≤ 2 ^ width = pow-le-pow_right (omega arith) (omega arith) in
    elim (Bool-cases (ltb d (2 ^ width))) [
      | inl small ↦
          rw (small, e)
            (let rest = leading_zeros-bound width n d (ltb→lt d (2 ^ width) small) (omega arith) in
              ground (arith, rest))
      | inr large ↦ rw (large, e) (ground (arith, fewer, ltb→le d (2 ^ width) large))
    ]

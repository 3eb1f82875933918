-- ===== src/Art/Key/Bytes.antt =====
-- The bytes of a `uint64_t`: two of them are equal when their bytes are, and a mask keeps its own.
use contrees_fat_node.Prelude.{
  ℕ, zero, suc, ◌+◌, ◌-◌, ◌*◌, ◌/◌, ◌%◌, ◌^◌, ◌≤◌, ◌<◌, ◌≡◌, ap, sym, ◌∙◌, arith, ne→==,
}
use native.Mathlib.Nat.{
  one-le-pow, mul-div-mul_right, div-div-eq-div-mul, mul_comm, mul-add-div, mod-add-div,
  two-pow-succ,
}
use contrees_fat_node.Art.Key.{partial_key, masked}

pub partial_key-lt : (key pos : ℕ) → partial_key key pos < 256
unfolding partial_key
partial_key-lt key pos = omega arith

-- The eight bytes determine the key.
pub partial_key-inj :
    (p q : ℕ)
    → p < 2 ^ 64
    → q < 2 ^ 64
    → ((i : ℕ) → i < 8 → partial_key p i ≡ partial_key q i)
    → p ≡ q
unfolding partial_key
partial_key-inj p q h j e =
    let e0 : p / 72057594037927936 % 256 ≡ q / 72057594037927936 % 256 = e 0 (omega arith) in
    let e1 : p / 281474976710656 % 256 ≡ q / 281474976710656 % 256 = e 1 (omega arith) in
    let e2 : p / 1099511627776 % 256 ≡ q / 1099511627776 % 256 = e 2 (omega arith) in
    let e3 : p / 4294967296 % 256 ≡ q / 4294967296 % 256 = e 3 (omega arith) in
    let e4 : p / 16777216 % 256 ≡ q / 16777216 % 256 = e 4 (omega arith) in
    let e5 : p / 65536 % 256 ≡ q / 65536 % 256 = e 5 (omega arith) in
    let e6 : p / 256 % 256 ≡ q / 256 % 256 = e 6 (omega arith) in
    let e7 : p / 1 % 256 ≡ q / 1 % 256 = e 7 (omega arith) in
    omega (arith, e0, e1, e2, e3, e4, e5, e6, e7)

pub pow_add : (a b : ℕ) → 2 ^ (a + b) ≡ 2 ^ a * 2 ^ b
pow_add a zero = let e : a + 0 ≡ a = omega arith in ap (λ (n : ℕ). 2 ^ n) e ∙ omega arith
pow_add a (suc b) =
    let e : a + suc b ≡ suc (a + b) = omega arith in
    ap (λ (n : ℕ). 2 ^ n) e
    ∙ omega (arith, two-pow-succ (a + b), pow_add a b)
    ∙ ap (λ (n : ℕ). 2 ^ a * n) (sym (two-pow-succ b))

spread : (k m q r : ℕ) → r + k * (256 * m) * q ≡ k * (256 * m * q) + r
spread k m q r = omega arith

byte_of_sum : (m q r s : ℕ) → s ≡ 256 * m * q + r → r % 256 ≡ s % 256
byte_of_sum m q r s e = let f : 256 * m * q ≡ 256 * (m * q) = omega arith in omega (arith, e, f)

pub byte_of_mod : (x k m : ℕ) → 0 < k → x % (k * (256 * m)) / k % 256 ≡ x / k % 256
byte_of_mod x k m h =
    let l = k * (256 * m) in
    let e : x ≡ k * (256 * m * (x / l)) + x % l =
      sym (mod-add-div x l) ∙ spread k m (x / l) (x % l) in
    let d : x / k ≡ 256 * m * (x / l) + x % l / k =
      ap (◌/ k) e ∙ mul-add-div h (256 * m * (x / l)) (x % l) in
    byte_of_sum m (x / l) (x % l / k) (x / k) d

-- A byte inside the mask.
pub partial_key-masked :
    (pfx ofs len i : ℕ)
    → i < len
    → ofs + len ≤ 8
    → partial_key (masked pfx ofs len) (ofs + i) ≡ partial_key pfx (ofs + i)
unfolding partial_key masked
partial_key-masked pfx ofs len i h b =
    let e = 2 ^ (8 * (8 - len - ofs)) in
    let k = 2 ^ (8 * (len - suc i)) in
    let x = pfx / e in
    let m = 2 ^ (8 * i) in
    let positive : (n : ℕ) → 0 < 2 ^ n = λ n. one-le-pow n 2 (omega arith) in
    let at : 56 - 8 * (ofs + i) ≡ 8 * (len - suc i) + 8 * (8 - len - ofs) = omega arith in
    let width : 8 * len ≡ 8 * (len - suc i) + (8 + 8 * i) = omega arith in
    let lower : 2 ^ (56 - 8 * (ofs + i)) ≡ k * e =
      ap (λ (n : ℕ). 2 ^ n) at ∙ pow_add (8 * (len - suc i)) (8 * (8 - len - ofs)) in
    let whole : 2 ^ (8 * len) ≡ k * (256 * m) =
      ap (λ (n : ℕ). 2 ^ n) width
      ∙ pow_add (8 * (len - suc i)) (8 + 8 * i)
      ∙ ap (λ (n : ℕ). k * n) (pow_add 8 (8 * i)) in
    rw (lower, whole, ne→== len 0 (omega arith))
      (ap (λ (n : ℕ). n % 256)
          (mul-div-mul_right (x % (k * (256 * m))) k (positive (8 * (8 - len - ofs))))
        ∙ byte_of_mod x k m (positive (8 * (len - suc i)))
        ∙ ap (λ (n : ℕ). n % 256)
            (div-div-eq-div-mul pfx e k ∙ ap (λ (n : ℕ). pfx / n) (mul_comm e k)))

-- ===== src/Btree/Build/Runs.antt =====
-- The sizes of the runs that the loops of lib/trees/btree/build.hpp cut.
use contrees_fat_node.Prelude.{
  ℕ, zero, suc, ◌+◌, ◌-◌, ◌*◌, ◌/◌, ◌%◌, ◌≤◌, ◌<◌, ◌≡◌, refl, ap, ◌∙◌, false, Option, some, List,
  [], ◌∷◌, ◌++◌, ltb, length, take, drop, arith, le→ltb, length-take, length-drop, take-append-drop,
}
use native.Mathlib.Nat.{mul-add-div, mod-add-div, mod-lt, div-lt_iff_lt-mul, div-eq_of_lt}
use contrees_fat_node.Btree.Build.{run_size, cut, node_count, left_over}

-- Each run fills a node at least to the half, and fits.
abbrev pub Fit : {A : Type 0} → List (List A) → Type 0
Fit [] = Unit {0}
Fit (run ∷ runs) = (8 ≤ length run) × (length run ≤ 15) × Fit runs

abbrev pub concat : {A : Type 0} → List (List A) → List A
concat [] = []
concat (run ∷ runs) = run ++ concat runs

-- The elements, cut into `count` runs.
pub record Cuts {A : Type 0} (count : ℕ) (xs : List A) (result : Option (List (List A)))
    : Type 0 where
  pub runs : List (List A)
  pub ends : result ≡ some runs
  pub all : concat runs ≡ xs
  pub fit : Fit runs
  pub counted : length runs ≡ count

run_size-bound : (m r k : ℕ) → 0 < m → r < 8 → k < m → (k + r) / m < 8
run_size-bound m r k z h j = (div-lt_iff_lt-mul z).1 (grind arith)

run_size_lem : (m r k : ℕ) → 0 < m → r < 8 → k < m → run_size m r k ≡ 8 + (k + r) / m
unfolding run_size
run_size_lem m r k z h j = omega (arith, run_size-bound m r k z h j)

-- What is left after a run.
remaining : (m r k c : ℕ) → 0 < m → (k + suc c * r) / m ≡ (k + r) / m + ((k + r) % m + c * r) / m
remaining m r k c z =
    let q = (k + r) / m in
    let k' = (k + r) % m in
    let e : k + suc c * r ≡ m * q + (k' + c * r) =
      let d : k' + m * q ≡ k + r = mod-add-div (k + r) m in grind arith in
    ap (λ (x : ℕ). x / m) e ∙ mul-add-div z q (k' + c * r)

no_run : (m r k : ℕ) → k < m → (k + 0 * r) / m ≡ 0
no_run m r k h = let e : k + 0 * r ≡ k = omega arith in ap (λ (x : ℕ). x / m) e ∙ div-eq_of_lt h

module _ {A : Type 0} (m r : ℕ) (z : 0 < m) (b : r < 8) where
  -- One more run.
  cut_step :
      (fuel c k : ℕ) (x : A) (xs : List A)
      → k < m
      → 8 + (k + r) / m ≤ suc (length xs)
      → Cuts c
          (drop (8 + (k + r) / m) (x ∷ xs))
          (cut fuel m r ((k + r) % m) (drop (8 + (k + r) / m) (x ∷ xs)))
      → Cuts (suc c) (x ∷ xs) (cut (suc fuel) m r k (x ∷ xs))
  unfolding cut
  cut_step fuel c k x xs h l rest =
      let size = 8 + (k + r) / m in
      let room : ltb (suc (length xs)) size ≡ false = le→ltb (suc (length xs)) size l in
      let few : length (take size (x ∷ xs)) ≡ size = omega (arith, length-take size (x ∷ xs), l) in
      let small = run_size-bound m r k z b h in
      record {
        runs = take size (x ∷ xs) ∷ rest.runs;
        ends =
            rw (run_size_lem m r k z b h, room, rest.ends)
              (ap (λ w. some (take w (x ∷ xs) ∷ rest.runs)) (run_size_lem m r k z b h));
        all = ap (λ ys. take size (x ∷ xs) ++ ys) rest.all ∙ take-append-drop size (x ∷ xs);
        fit = (omega (arith, few), omega (arith, few, small), rest.fit);
        counted = ap suc rest.counted;
      }

  pub cut-Cuts :
      (fuel c k : ℕ) (xs : List A)
      → c ≤ fuel
      → k < m
      → length xs ≡ 8 * c + (k + c * r) / m
      → Cuts c xs (cut fuel m r k xs)
  unfolding cut
  cut-Cuts fuel zero k [] h j l = record {
    runs = [];
    ends = refl;
    all = refl;
    fit = tt;
    counted = refl;
  }
  cut-Cuts fuel zero k (x ∷ xs) h j l = absurd (omega (arith, no_run m r k j, l))
  cut-Cuts fuel (suc c) k [] h j l = absurd (omega (arith, l))
  cut-Cuts zero (suc c) k (x ∷ xs) h j l = absurd (omega arith)
  cut-Cuts (suc fuel) (suc c) k (x ∷ xs) h j l =
      let size = 8 + (k + r) / m in
      let left = remaining m r k c z in
      let gone = length-drop size (x ∷ xs) in
      cut_step fuel c k x xs j (omega (arith, l, left)) (
        cut-Cuts fuel c ((k + r) % m) (drop size (x ∷ xs)) (omega arith) (mod-lt (k + r) z)
          (omega (arith, l, left, gone)))

-- All elements of a level.
pub level-Cuts :
    {A : Type 0} (xs : List A)
    → 8 ≤ length xs
    → let n = length xs in Cuts (node_count n) xs (cut n (node_count n) (left_over n) 0 xs)
level-Cuts xs h =
    let n = length xs in
    let m = n / 8 in
    let r = n - m * 8 in
    let z : 0 < m = omega arith in
    let e : (0 + m * r) / m ≡ r =
      let f : 0 + m * r ≡ m * r + 0 = omega arith in
      ap (λ (x : ℕ). x / m) f
      ∙ mul-add-div z r 0
      ∙ ap (λ (x : ℕ). r + x) (div-eq_of_lt z)
      ∙ omega arith in
    cut-Cuts m r z (omega arith) n m 0 xs (omega arith) z (omega (arith, e))

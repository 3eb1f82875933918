-- ===== src/ArrayOps.antt =====
-- lib/common/arrayops.hpp: `memcpy` and `memmove` on arrays, as functions on lists. An array whose
-- `size` is in use is the list of its used elements; the destination of a copy is the result.
use contrees_fat_node.Prelude.{
  ℕ, zero, suc, ◌-◌, ◌≤◌, ◌≡◌, refl, ap, ◌∙◌, List, [], ◌∷◌, ◌++◌, arith, length, take, drop, set,
  length-append, length-take, length-drop, take-append-drop, take_all,
}

sub-suc : (n i : ℕ) → suc n - suc i ≡ n - i
sub-suc n i = omega arith

module _ {ℓ} {A : Type ℓ} where
  -- `copy(dst, src, size)`.
  unfoldable pub copy : List A → ℕ → List A
  copy src size = take size src

  -- `insert(arr, size, pos, elem)`, with `size` the length of the list.
  unfoldable pub insert : List A → ℕ → A → List A
  insert arr pos elem = take pos arr ++ elem ∷ drop pos arr

  -- `copy_insert(dst, src, size, pos, elem)`.
  unfoldable pub copy_insert : List A → ℕ → ℕ → A → List A
  copy_insert src size pos elem = take pos src ++ elem ∷ take (size - pos) (drop pos src)

  -- `copy_update(dst, src, size, pos, elem)`.
  unfoldable pub copy_update : List A → ℕ → ℕ → A → List A
  copy_update src size pos elem = set (take size src) pos elem

  -- `copy_split(dsth, dstt, src, size, pos)`.
  unfoldable pub copy_split : List A → ℕ → ℕ → List A × List A
  copy_split src size pos = (take pos src, take (size - pos) (drop pos src))

  take-nil : (n : ℕ) → take {A = A} n [] ≡ []
  take-nil zero = refl
  take-nil (suc n) = refl

  drop-nil : (n : ℕ) → drop {A = A} n [] ≡ []
  drop-nil zero = refl
  drop-nil (suc n) = refl

  pub length-insert :
      (xs : List A) (i : ℕ) (e : A) → i ≤ length xs → length (insert xs i e) ≡ suc (length xs)
  unfolding insert
  length-insert xs i e h =
      omega (arith, length-append (take i xs) (e ∷ drop i xs), length-take i xs, length-drop i xs)

  pub length-copy_insert :
      (xs : List A) (n i : ℕ) (e : A)
      → i ≤ n
      → n ≤ length xs
      → length (copy_insert xs n i e) ≡ suc n
  unfolding copy_insert
  length-copy_insert xs n i e h k = omega (
    arith,
    length-append (take i xs) (e ∷ take (n - i) (drop i xs)),
    length-take i xs,
    length-take (n - i) (drop i xs),
    length-drop i xs,
  )

  -- An insertion into the first `n` elements, followed by the others, is an insertion into all.
  pub copy_insert-append-drop :
      (xs : List A) (n i : ℕ) (e : A) → i ≤ n → copy_insert xs n i e ++ drop n xs ≡ insert xs i e
  unfolding copy_insert insert
  copy_insert-append-drop xs n zero e h =
      ap (◌∷◌ e) (ap (λ (k : ℕ). take k xs ++ drop n xs) (omega arith) ∙ take-append-drop n xs)
  copy_insert-append-drop xs zero (suc i) e h = absurd (omega arith)
  copy_insert-append-drop [] (suc n) (suc i) e h = rw (take-nil (suc n - suc i))
  copy_insert-append-drop (x ∷ xs) (suc n) (suc i) e h =
      ap (◌∷◌ x) (rw (sub-suc n i) (copy_insert-append-drop xs n i e (omega arith)))

  -- An insertion behind the first `n` elements leaves these as they are.
  pub take-append-insert :
      (xs : List A) (n i : ℕ) (e : A)
      → n ≤ i
      → take n xs ++ insert (drop n xs) (i - n) e ≡ insert xs i e
  unfolding insert
  take-append-insert xs zero i e h = ap (λ (k : ℕ). insert xs k e) (omega arith)
  take-append-insert [] (suc n) zero e h = absurd (omega arith)
  take-append-insert [] (suc n) (suc i) e h =
      rw (take-nil (suc i - suc n), drop-nil (suc i - suc n))
  take-append-insert (x ∷ xs) (suc n) zero e h = absurd (omega arith)
  take-append-insert (x ∷ xs) (suc n) (suc i) e h =
      ap (◌∷◌ x) (rw (sub-suc i n) (take-append-insert xs n i e (omega arith)))

  -- With every element in the range, it is a plain insertion.
  pub copy_insert_all :
      (xs : List A) (n i : ℕ) (e : A) → length xs ≤ n → copy_insert xs n i e ≡ insert xs i e
  unfolding copy_insert insert
  copy_insert_all xs n i e h = rw (take_all (n - i) (drop i xs) (omega (arith, length-drop i xs)))

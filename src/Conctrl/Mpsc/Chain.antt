-- ===== src/Conctrl/Mpsc/Chain.antt =====
-- The items of a list in lib/conctrl/mpsc_list.hpp, from the tail to the head.
use contrees_fat_node.Prelude.{
  ℕ, ◌≡◌, ◌≢◌, refl, subst, sym, Bool, true, false, ◌||◌, Option, none, some, List, [], ◌∷◌, ◌++◌,
  ◌==◌, arith, eq→==, ne→==,
}
use contrees_fat_node.Conctrl.Mpsc.{set_next}

abbrev pub member : ℕ → List ℕ → Bool
member x [] = false
member x (y ∷ ys) = (x == y) || member x ys

abbrev pub Distinct : List ℕ → Type 0
Distinct [] = Unit {0}
Distinct (x ∷ xs) = (member x xs ≡ false) × Distinct xs

-- The items after `t`, the last of which is `h`.
abbrev pub Chain : (ℕ → Option ℕ) → ℕ → List ℕ → ℕ → Type 0
Chain next t [] h = (t ≡ h) × (next t ≡ none)
Chain next t (x ∷ xs) h = (next t ≡ some x) × Chain next x xs h

head-member :
    (next : ℕ → Option ℕ) (t h : ℕ) (xs : List ℕ) → Chain next t xs h → member h (t ∷ xs) ≡ true
head-member next t h [] c = ground (arith, c.0)
head-member next t h (x ∷ xs) c = ground (arith, head-member next x h xs c.1)

-- `push` of a new item.
pub push-Chain :
    (next : ℕ → Option ℕ) (t h item : ℕ) (xs : List ℕ)
    → Chain next t xs h
    → Distinct (t ∷ xs)
    → member item (t ∷ xs) ≡ false
    → Chain (set_next (set_next next item none) h (some item)) t (xs ++ item ∷ []) item
unfolding set_next
push-Chain next t h item [] c d n =
    let a : item ≢ h = ground (arith, n, c.0) in
    (rw (eq→== t h c.0) refl, (refl, rw (ne→== item h a, eq→== item item refl) refl))
push-Chain next t h item (x ∷ xs) c d n =
    let m = head-member next x h xs c.1 in
    let apart : t ≢ h = λ e.
      let m' : member t (x ∷ xs) ≡ true = subst (λ (k : ℕ). member k (x ∷ xs) ≡ true) (sym e) m in
      ground (m', d.0, arith) in
    let other : t ≢ item = ground (arith, n) in
    (
      rw (ne→== t h apart, ne→== t item other) c.0,
      push-Chain next x h item xs c.1 d.1 (ground (arith, n)),
    )

pub member_last :
    (x item : ℕ) (xs : List ℕ)
    → member x xs ≡ false
    → member item (x ∷ []) ≡ false
    → member x (xs ++ item ∷ []) ≡ false
member_last x item [] m n = ground (arith, n)
member_last x item (y ∷ ys) m n = ground (arith, member_last x item ys)

pub Distinct-last :
    (item : ℕ) (xs : List ℕ) → Distinct xs → member item xs ≡ false → Distinct (xs ++ item ∷ [])
Distinct-last item [] d n = (refl, tt)
Distinct-last item (x ∷ xs) d n =
    (member_last x item xs d.0 (ground (arith, n)), Distinct-last item xs d.1 (ground (arith, n)))

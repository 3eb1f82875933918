-- ===== src/Art/Scan/Children.antt =====
-- The positions that a scan of lib/trees/art visits, against the bytes of the children.
use contrees_fat_node.Prelude.{
  ℕ, zero, suc, ◌+◌, ◌≤◌, ◌<◌, ◌≡◌, refl, ap, subst, sym, ◌∙◌, none, List, [], ◌∷◌, ◌++◌, ◌==◌,
  if◌then◌else◌, length, arith, inl, inr, Bool-cases, ne→==, ==→eq, ==→ne,
}
use contrees_fat_node.Art.Index.{Kind, node4, node16, node48, node256, no_slot, position}
use contrees_fat_node.Art.Node.{findch, at}
use contrees_fat_node.Art.Node.Positions.{Ascends, position_below}
use contrees_fat_node.Art.Node.Laws.{IsSlts, IsKind}
use contrees_fat_node.Art.Node.Used.{Used}
use contrees_fat_node.Art.Scan.{
  range, first_byte, used_slots, node4_scan, node16_scan, node48_scan, node256_scan, positions,
}

module _ {B : Type 0} where
  -- What there is at some positions, in their order.
  abbrev pub gather : (ℕ → List B) → List ℕ → List B
  gather e [] = []
  gather e (i ∷ is) = e i ++ gather e is

  gather-range :
      (e f : ℕ → List B) (first count : ℕ)
      → ((i : ℕ) → first ≤ i → e i ≡ f i)
      → gather e (range first count) ≡ gather f (range first count)
  unfolding range
  gather-range e f first zero h = refl
  gather-range e f first (suc count) h =
      rw (h first (omega arith), gather-range e f (suc first) count (λ i l. h i (omega arith))) refl

  gather_shift :
      (e : ℕ → List B) (first count : ℕ)
      → gather (λ i. e (suc i)) (range first count) ≡ gather e (range (suc first) count)
  unfolding range
  gather_shift e first zero = refl
  gather_shift e first (suc count) =
      ap (λ xs. e (suc first) ++ xs) (gather_shift e (suc first) count)

  -- The bytes from `b` on, of keys that ascend from it.
  gather_keys :
      (e : ℕ → List B) (b count : ℕ) (keys : List ℕ)
      → b + count ≡ 256
      → Ascends b keys
      → gather (λ q. at [] e (position keys q)) (range b count) ≡ gather e (range 0 (length keys))
  unfolding range position
  gather_keys e b zero [] h a = refl
  gather_keys e b zero (k ∷ ks) h a = absurd (omega (arith, a.0, a.1))
  gather_keys e b (suc count) [] h a = gather_keys e (suc b) count [] (omega arith) tt
  gather_keys e b (suc count) (k ∷ ks) h a = elim (Bool-cases (k == b)) [
    | inl same ↦
        let rest =
          gather-range (λ q. at [] e (position (k ∷ ks) q))
            (λ q. at [] (λ i. e (suc i)) (position ks q)) (suc b) count
            (λ q l. rw (ne→== k q (omega (arith, ==→eq k b same, l))) (ground arith)) in
        rw same (
          ap (λ xs. e 0 ++ xs)
            (rest
              ∙ gather_keys (λ i. e (suc i)) (suc b) count ks (omega arith)
                  (subst (λ (m : ℕ). Ascends (suc m) ks) (==→eq k b same) a.2)
              ∙ gather_shift e 0 (length ks)))
    | inr other ↦
        let l : b < k = omega (arith, a.0, ==→ne k b other) in
        let n : position (k ∷ ks) b ≡ none =
          position_below k (k ∷ ks) b l (omega arith, a.1, a.2) in
        ap (λ o. at [] e o ++ gather (λ q. at [] e (position (k ∷ ks) q)) (range (suc b) count)) n
        ∙ gather_keys e (suc b) count (k ∷ ks) (omega arith) (l, a.1, a.2)
  ]

  gather_slots :
      (e : ℕ → List B) (slts : ℕ → ℕ) (qs : List ℕ)
      → gather e (used_slots slts qs)
        ≡ gather (λ q. if slts q == no_slot then [] else e (slts q)) qs
  unfolding used_slots
  gather_slots e slts [] = refl
  gather_slots e slts (q ∷ qs) = elim (Bool-cases (slts q == no_slot)) [
    | inl unused ↦ rw unused (gather_slots e slts qs)
    | inr used ↦ rw used (ap (λ xs. e (slts q) ++ xs) (gather_slots e slts qs))
  ]

  -- A scan of a whole node visits the children in the order of their bytes.
  pub gather-positions :
      (k : Kind) (e : ℕ → List B)
      → IsKind k
      → gather e (positions k none) ≡ gather (findch [] k e) (range 0 256)
  unfolding positions node4_scan node16_scan node48_scan node256_scan findch first_byte
  gather-positions (node4 keys) e k = sym (gather_keys e 0 256 keys (omega arith) k.0)
  gather-positions (node16 keys) e k = sym (gather_keys e 0 256 keys (omega arith) k.0)
  gather-positions (node48 slts size) e k = gather_slots e slts (range 0 256)
  gather-positions node256 e k = refl

-- The positions from which a scan reads a child; in a node256 it tests every child.
abbrev pub Visits : Kind → ℕ → Type 0
Visits (node4 keys) i = Used (node4 keys) i
Visits (node16 keys) i = Used (node16 keys) i
Visits (node48 slts size) i = Used (node48 slts size) i
Visits node256 i = Unit {0}

abbrev pub Each : (ℕ → Type 0) → List ℕ → Type 0
Each Q [] = Unit {0}
Each Q (i ∷ is) = Q i × Each Q is

range-Each :
    (Q : ℕ → Type 0) (first count : ℕ)
    → ((i : ℕ) → first ≤ i → i < first + count → Q i)
    → Each Q (range first count)
unfolding range
range-Each Q first zero f = tt
range-Each Q first (suc count) f = (
  f first (omega arith) (omega arith),
  range-Each Q (suc first) count (λ i a b. f i (omega (arith, a)) (omega (arith, b))),
)

used_slots-Each :
    (slts : ℕ → ℕ) (size : ℕ) (qs : List ℕ)
    → IsSlts slts size
    → Each (λ i. i < size) (used_slots slts qs)
unfolding used_slots
used_slots-Each slts size [] s = tt
used_slots-Each slts size (q ∷ qs) s = elim (Bool-cases (slts q == no_slot)) [
  | inl unused ↦ rw unused (used_slots-Each slts size qs s)
  | inr used ↦ rw used (elim (s.used q) [
    | inl nowhere ↦ absurd (==→ne (slts q) no_slot used nowhere)
    | inr here ↦ (here, used_slots-Each slts size qs s)
  ])
]

pub positions-Visits : (k : Kind) → IsKind k → Each (Visits k) (positions k none)
unfolding positions node4_scan node16_scan node48_scan node256_scan first_byte
positions-Visits (node4 keys) k = range-Each _ 0 (length keys) (λ i a b. omega (arith, b))
positions-Visits (node16 keys) k = range-Each _ 0 (length keys) (λ i a b. omega (arith, b))
positions-Visits (node48 slts size) k = used_slots-Each slts size (range 0 256) k
positions-Visits node256 k = range-Each _ 0 256 (λ i a b. tt)

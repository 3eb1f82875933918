-- ===== src/Art/Node/Children.antt =====
-- `getch` and `copych` of lib/trees/art/node_wrapper.hpp on well formed nodes.
use contrees_fat_node.Prelude.{
  ℕ, ◌<◌, ◌≡◌, refl, ap, ◌∙◌, none, some, List, ◌==◌, if◌then◌else◌, length, arith, Bool-cases,
  Option-cases, inl, inr, ==→eq, ==→ne, eq→==, ne→==, lt→ltb,
}
use contrees_fat_node.Art.Index.{
  Kind, node4, node16, node48, node256, no_slot, position, find_idx, slot,
}
use contrees_fat_node.Art.Node.{write, at, findch, copy_chs, copych}
use contrees_fat_node.Art.Node.Positions.{position-lt, position-inj}
use contrees_fat_node.Art.Node.Laws.{IsKind}

module _ {A : Type 0} (null : A) where
  -- `findch` is `getch` at `find_idx`, and null when there is no index.
  pub findch-find_idx :
      (t : Kind) (chs : ℕ → A) (q : ℕ)
      → findch null t chs q ≡ elim (find_idx t q) [ none ↦ null | some i ↦ chs (slot t i) ]
  unfolding findch find_idx slot
  findch-find_idx (node4 keys) chs q = ground arith
  findch-find_idx (node16 keys) chs q = ground arith
  findch-find_idx (node48 slts size) chs q = ground arith
  findch-find_idx node256 chs q = refl

  write-keys :
      (keys : List ℕ) (chs : ℕ → A) (p i : ℕ) (ch : A) (q : ℕ)
      → position keys p ≡ some i
      → at null (write chs i ch) (position keys q)
        ≡ (if q == p then ch else at null chs (position keys q))
  unfolding write
  write-keys keys chs p i ch q e = elim (Bool-cases (q == p)) [
    | inl same ↦ rw (same, ==→eq q p same, e, eq→== i i refl) refl
    | inr other ↦ elim (Option-cases (position keys q)) [
      | inl nowhere ↦ rw (other, nowhere) refl
      | inr (j, here) ↦
          rw
            (
              other,
              here,
              ne→== j i (λ z. ==→ne q p other (position-inj keys q p i (here ∙ ap some z) e)),
            )
            refl
    ]
  ]

  -- An assignment through getch at the index that a well formed node finds for a byte changes the
  -- child of the byte and of no other.
  pub write-findch :
      (t : Kind) (chs : ℕ → A) (p i : ℕ) (ch : A)
      → IsKind t
      → find_idx t p ≡ some i
      → (q : ℕ)
      → findch null t (write chs (slot t i) ch) q ≡ (if q == p then ch else findch null t chs q)
  unfolding findch find_idx slot write
  write-findch (node4 keys) chs p i ch k e q = write-keys keys chs p i ch q e
  write-findch (node16 keys) chs p i ch k e q = write-keys keys chs p i ch q e
  write-findch (node48 slts size) chs p i ch k e q =
      ground (arith, k.used q, k.used p, k.distinct q p)
  write-findch node256 chs p i ch k e q = ground arith

  copy-keys :
      (keys : List ℕ) (chs : ℕ → A) (q : ℕ)
      → at null (copy_chs null (length keys) chs) (position keys q) ≡ at null chs (position keys q)
  unfolding copy_chs
  copy-keys keys chs q = elim (Option-cases (position keys q)) [
    | inl nowhere ↦ rw nowhere refl
    | inr (i, here) ↦ rw (here, lt→ltb i (length keys) (position-lt keys q i here)) refl
  ]

  -- A copy of a node has its children.
  pub copych-findch :
      (t : Kind) (chs : ℕ → A)
      → IsKind t
      → (q : ℕ) → q < 256
      → findch null t (copych null t chs) q ≡ findch null t chs q
  unfolding findch copych copy_chs
  copych-findch (node4 keys) chs k q b = copy-keys keys chs q
  copych-findch (node16 keys) chs k q b = copy-keys keys chs q
  copych-findch (node48 slts size) chs k q b = elim (k.used q) [
    | inl nowhere ↦ rw (eq→== (slts q) no_slot nowhere) refl
    | inr here ↦ rw (lt→ltb (slts q) size here) refl
  ]
  copych-findch node256 chs k q b = rw (lt→ltb q 256 b) refl

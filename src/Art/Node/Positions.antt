-- ===== src/Art/Node/Positions.antt =====
-- The sorted keys of node4.hpp and node16.hpp in lib/trees/art, and the `slts` of node48.hpp.
use contrees_fat_node.Prelude.{
  ℕ, zero, suc, ◌+◌, ◌≤◌, ◌<◌, ◌≡◌, refl, ◌∙◌, Option, none, some, List, [], ◌∷◌, ltb, ◌==◌,
  if◌then◌else◌, length, arith,
}
use contrees_fat_node.ArrayOps.{insert}
use contrees_fat_node.Art.Index.{position, findgt, fill_slts}

-- The keys ascend, from `lo`, and are bytes.
abbrev pub Ascends : ℕ → List ℕ → Type 0
Ascends lo [] = Unit {0}
Ascends lo (k ∷ ks) = (lo ≤ k) × (k < 256) × Ascends (suc k) ks

pub position-lt : (ks : List ℕ) (q i : ℕ) → position ks q ≡ some i → i < length ks
unfolding position
position-lt [] q i e = cc
position-lt (k ∷ ks) q zero e = omega arith
position-lt (k ∷ ks) q (suc i) e = ground (arith, position-lt ks q i)

pub position-inj :
    (ks : List ℕ) (p q i : ℕ) → position ks p ≡ some i → position ks q ≡ some i → p ≡ q
unfolding position
position-inj [] p q i e f = cc
position-inj (k ∷ ks) p q zero e f = ground arith
position-inj (k ∷ ks) p q (suc i) e f = ground (arith, position-inj ks p q i)

-- Where a position goes when an element is inserted at `idx`.
abbrev pub bump : ℕ → Option ℕ → Option ℕ
bump idx none = none
bump idx (some i) = some (if ltb i idx then i else suc i)

pub position-insert :
    (ks : List ℕ) (idx p q : ℕ)
    → position ks p ≡ none
    → idx ≤ length ks
    → position (insert ks idx p) q ≡ (if q == p then some idx else bump idx (position ks q))
unfolding position insert
position-insert [] zero p q e h = ground arith
position-insert [] (suc idx) p q e h = absurd (omega arith)
position-insert (k ∷ ks) zero p q e h = ground arith
position-insert (k ∷ ks) (suc idx) p q e h = ground (arith, position-insert ks idx p q)

pub findgt-le-length : (ks : List ℕ) (p : ℕ) → findgt ks p ≤ length ks
unfolding findgt
findgt-le-length [] p = omega arith
findgt-le-length (k ∷ ks) p = ground (arith, findgt-le-length ks p)

pub insert-Ascends :
    (lo : ℕ) (ks : List ℕ) (p : ℕ)
    → position ks p ≡ none
    → lo ≤ p
    → p < 256
    → Ascends lo ks
    → Ascends lo (insert ks (findgt ks p) p)
unfolding position insert findgt
insert-Ascends lo [] p e h j a = (h, j, tt)
insert-Ascends lo (k ∷ ks) p e h j a = ground (arith, insert-Ascends (suc k) ks p)

pub position_below : (lo : ℕ) (ks : List ℕ) (q : ℕ) → q < lo → Ascends lo ks → position ks q ≡ none
unfolding position
position_below lo [] q h a = refl
position_below lo (k ∷ ks) q h a = ground (arith, position_below (suc k) ks q)

-- The slots that a loop over sorted keys fills.
pub fill_slts-position :
    (slts : ℕ → ℕ) (idx lo : ℕ) (ks : List ℕ) (q : ℕ)
    → Ascends lo ks
    → fill_slts slts idx ks q ≡ elim (position ks q) [ none ↦ slts q | some i ↦ idx + i ]
unfolding fill_slts position
fill_slts-position slts idx lo [] q a = refl
fill_slts-position slts idx lo (k ∷ ks) q a =
    fill_slts-position (λ r. if r == k then idx else slts r) (suc idx) (suc k) ks q a.2
    ∙ ground (arith, position_below (suc k) ks k)

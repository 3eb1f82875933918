-- ===== src/Btree/Shape.antt =====
-- What a B+Tree of lib/trees/btree holds, and when it is well formed. Models no code.
use contrees_fat_node.Prelude.{
  [], Bool, ◌∷◌, Option, none, some, ◌<◌, true, false, if◌then◌else◌, ℕ, zero, suc, ◌≤◌, ◌≡◌, refl,
  ap, List, ◌++◌, length,
}
use contrees_fat_node.Btree.Delta.{delta_pending}
use contrees_fat_node.Btree.Query.{is_visible, slots_of}
use contrees_fat_node.SortedMap.{put, SortedIn-put, Entry, SortedIn, SortedIn-append}
use contrees_fat_node.Btree.Node.{
  DeltaSlot, DeltaBlock, Tree, Kids, leaf, internal, one, more, size, height, height_kids,
}

-- The records of a sidecar that a snapshot sees, put over the entries of the leaf in slot order.
unfoldable pub overlay : ℕ → List DeltaSlot → List Entry → List Entry
overlay snapshot [] es = es
overlay snapshot (s ∷ ss) es =
    overlay snapshot ss (if is_visible snapshot s then put s.key s.value es else es)

-- The entries of a leaf: `none` stands for the leaf alone, `some s` for what the snapshot `s` sees.
abbrev pub content : Option ℕ → List Entry → Option DeltaBlock → List Entry
content none es d = es
content (some snapshot) es d = overlay snapshot (slots_of d) es

-- The first `n` slots hold published records of ascending versions above `v`, with keys from `lo`
-- and below `hi`; the others are unused.
abbrev pub Filed : ℕ → ℕ → ℕ → ℕ → List DeltaSlot → Type 0
Filed v lo hi zero [] = Unit {0}
Filed v lo hi (suc n) [] = ⊥
Filed v lo hi zero (s ∷ ss) = (s.version ≡ 0) × Filed v lo hi zero ss
Filed v lo hi (suc n) (s ∷ ss) =
    (v < s.version)
    × (s.version < delta_pending)
    × (lo ≤ s.key)
    × (s.key < hi)
    × Filed s.version lo hi n ss

-- The sidecar of a leaf of version `v`.
abbrev pub IsSidecar : ℕ → ℕ → ℕ → Option DeltaBlock → Type 0
IsSidecar v lo hi none = Unit {0}
IsSidecar v lo hi (some block) =
    (length block.slots ≡ block.capacity) × Filed v lo hi block.count block.slots

-- The entries of the leaves from left to right.
abbrev mutual
  pub entries : Option ℕ → Tree → List Entry
  entries w (leaf ver es d) = content w es d
  entries w (internal ver ks) = entries_kids w ks

  pub entries_kids : Option ℕ → Kids → List Entry
  entries_kids w (one c) = entries w c
  entries_kids w (more c s ks) = entries w c ++ entries_kids w ks

-- Every key lies where the separators send it: from `lo` and below `hi`, and `chs[i]` from
-- `keys[i-1]` and below `keys[i]`.
abbrev mutual
  pub Ordered : ℕ → ℕ → Tree → Type 0
  Ordered lo hi (leaf ver es d) = SortedIn lo hi es × IsSidecar ver lo hi d
  Ordered lo hi (internal ver ks) = OrderedKids lo hi ks

  pub OrderedKids : ℕ → ℕ → Kids → Type 0
  OrderedKids lo hi (one c) = Ordered lo hi c
  OrderedKids lo hi (more c s ks) = (lo ≤ s) × (s ≤ hi) × Ordered lo s c × OrderedKids s hi ks

-- All leaves are `h` levels down, no node but the root is less than half full, and a sidecar has
-- eight slots at most.
abbrev mutual
  pub Filled : ℕ → Tree → Type 0
  Filled zero (leaf ver es d) = (8 ≤ length es) × (length es ≤ 15) × (length (slots_of d) ≤ 8)
  Filled (suc h) (leaf ver es d) = ⊥
  Filled zero (internal ver ks) = ⊥
  Filled (suc h) (internal ver ks) = (7 ≤ size ks) × (size ks ≤ 15) × FilledKids h ks

  pub FilledKids : ℕ → Kids → Type 0
  FilledKids h (one c) = Filled h c
  FilledKids h (more c s ks) = Filled h c × FilledKids h ks

-- The root is a leaf of any size, or an internal node with at least one key.
abbrev pub FilledRoot : ℕ → Tree → Type 0
FilledRoot zero (leaf ver es d) = (length es ≤ 15) × (length (slots_of d) ≤ 8)
FilledRoot (suc h) (leaf ver es d) = ⊥
FilledRoot zero (internal ver ks) = ⊥
FilledRoot (suc h) (internal ver ks) = (1 ≤ size ks) × (size ks ≤ 15) × FilledKids h ks

pub is_visible_unused :
    (snapshot : ℕ) (s : DeltaSlot) → s.version ≡ 0 → is_visible snapshot s ≡ false
unfolding is_visible
is_visible_unused snapshot s e = rw e

put_if-SortedIn :
    (lo hi : ℕ) (s : DeltaSlot) (seen : Bool) (es : List Entry)
    → lo ≤ s.key
    → s.key < hi
    → SortedIn lo hi es
    → SortedIn lo hi (if seen then put s.key s.value es else es)
put_if-SortedIn lo hi s true es h j o = SortedIn-put s.key s.value es h j o
put_if-SortedIn lo hi s false es h j o = o

pub overlay-SortedIn :
    (snapshot v lo hi n : ℕ) (ss : List DeltaSlot) (es : List Entry)
    → Filed v lo hi n ss
    → SortedIn lo hi es
    → SortedIn lo hi (overlay snapshot ss es)
unfolding overlay
overlay-SortedIn snapshot v lo hi n [] es f s = s
overlay-SortedIn snapshot v lo hi zero (x ∷ ss) es f s =
    rw (is_visible_unused snapshot x f.0) (overlay-SortedIn snapshot v lo hi zero ss es f.1 s)
overlay-SortedIn snapshot v lo hi (suc n) (x ∷ ss) es f s =
    overlay-SortedIn snapshot x.version lo hi n ss _ f.4
      (put_if-SortedIn lo hi x (is_visible snapshot x) es f.2 f.3 s)

-- A leaf without a sidecar shows its entries.
pub content-none : (w : Option ℕ) (es : List Entry) → content w es none ≡ es
unfolding overlay
content-none none es = refl
content-none (some x) es = refl

pub content-SortedIn :
    (w : Option ℕ) (v lo hi : ℕ) (d : Option DeltaBlock) (es : List Entry)
    → IsSidecar v lo hi d
    → SortedIn lo hi es
    → SortedIn lo hi (content w es d)
unfolding overlay
content-SortedIn none v lo hi d es f s = s
content-SortedIn (some x) v lo hi none es f s = s
content-SortedIn (some x) v lo hi (some block) es f s =
    overlay-SortedIn x v lo hi block.count block.slots es f.1 s

mutual
  pub Ordered-SortedIn :
      (w : Option ℕ) (lo hi : ℕ) (t : Tree) → Ordered lo hi t → SortedIn lo hi (entries w t)
  Ordered-SortedIn w lo hi (leaf ver es d) o = content-SortedIn w ver lo hi d es o.1 o.0
  Ordered-SortedIn w lo hi (internal ver ks) o = OrderedKids-SortedIn w lo hi ks o

  pub OrderedKids-SortedIn :
      (w : Option ℕ) (lo hi : ℕ) (ks : Kids)
      → OrderedKids lo hi ks
      → SortedIn lo hi (entries_kids w ks)
  OrderedKids-SortedIn w lo hi (one c) o = Ordered-SortedIn w lo hi c o
  OrderedKids-SortedIn w lo hi (more c s ks) o =
      SortedIn-append (entries w c) (entries_kids w ks) o.0 o.1 (Ordered-SortedIn w lo s c o.2)
        (OrderedKids-SortedIn w s hi ks o.3)

-- The height that the code measures is the height of a well formed tree.
mutual
  unfolding height

  pub height-Filled : (h : ℕ) (t : Tree) → Filled h t → height t ≡ h
  height-Filled zero (leaf ver es d) f = refl
  height-Filled (suc h) (leaf ver es d) f = absurd f
  height-Filled zero (internal ver ks) f = absurd f
  height-Filled (suc h) (internal ver ks) f = ap suc (height_kids-FilledKids h ks f.2)

  pub height_kids-FilledKids : (h : ℕ) (ks : Kids) → FilledKids h ks → height_kids ks ≡ h
  height_kids-FilledKids h (one c) f = height-Filled h c f
  height_kids-FilledKids h (more c s ks) f = height-Filled h c f.0

-- ===== src/Art/Node/Used.antt =====
-- The children of a node of lib/trees/art at the positions in use, through the operations on it. A
-- node256 has none that it counts on: each of its children may be null.
use contrees_fat_node.Prelude.{
  ℕ, suc, ◌+◌, ◌-◌, ◌≤◌, ◌<◌, ◌≡◌, refl, false, List, ltb, ◌==◌, length, subst, arith, Bool-cases,
  inl, inr, eq→==, ==→eq, ==→ne, lt→ltb, ltb→lt, ltb→le, le→ltb,
}
use contrees_fat_node.ArrayOps.{insert, length-insert}
use contrees_fat_node.Art.Index.{Kind, node4, node16, node48, node256, findgt, slot}
use contrees_fat_node.Art.Node.{
  write, insert_at, insertch, copy_chs, copy_insert_chs, copych, insert_inplace, insert_cow,
}
use contrees_fat_node.Art.Node.Positions.{findgt-le-length}

abbrev pub Used : Kind → ℕ → Type 0
Used (node4 keys) i = i < length keys
Used (node16 keys) i = i < length keys
Used (node48 slts size) i = i < size
Used node256 i = ⊥

module _ {A : Type 0} (P : A → Type 0) where
  -- A condition on the children in use.
  abbrev pub InUse : Kind → (ℕ → A) → Type 0
  InUse k chs = (i : ℕ) → Used k i → P (chs i)

  pub write-InUse :
      (k : Kind) (chs : ℕ → A) (i : ℕ) (ch : A)
      → InUse k chs
      → (Used k i → P ch)
      → InUse k (write chs i ch)
  unfolding write
  write-InUse k chs i ch f p j u = elim (Bool-cases (j == i)) [
    | inl same ↦ rw same (p (subst (Used k) (==→eq j i same) u))
    | inr other ↦ rw other (f j u)
  ]

  -- The first `size` children.
  abbrev Below : ℕ → (ℕ → A) → Type 0
  Below size chs = (i : ℕ) → i < size → P (chs i)

  write-Below :
      (size n : ℕ) (chs : ℕ → A) (ch : A)
      → Below n chs
      → P ch
      → size ≤ suc n
      → Below size (write chs n ch)
  unfolding write
  write-Below size n chs ch f p b j h = elim (Bool-cases (j == n)) [
    | inl same ↦ rw same p
    | inr other ↦ rw other (f j (omega (arith, ==→ne j n other)))
  ]

  insert_at-Below :
      (n pos : ℕ) (chs : ℕ → A) (ch : A)
      → pos ≤ n
      → Below n chs
      → P ch
      → Below (suc n) (insert_at chs n pos ch)
  unfolding insert_at
  insert_at-Below n pos chs ch b f p j h =
      let inside : ltb n j ≡ false = le→ltb n j (omega arith) in
      elim (Bool-cases (ltb j pos)) [
        | inl before ↦ rw before (f j (omega (arith, ltb→lt j pos before)))
        | inr behind ↦ elim (Bool-cases (j == pos)) [
          | inl here ↦ rw (behind, inside, here) p
          | inr after ↦
              rw (behind, inside, after)
                (f (j - 1) (omega (arith, ltb→le j pos behind, ==→ne j pos after)))
        ]
      ]

  module _ (nil : A) where
    copy-Below :
        (n size : ℕ) (chs : ℕ → A) → n ≤ size → Below n chs → Below n (copy_chs nil size chs)
    unfolding copy_chs
    copy-Below n size chs b f j h = rw (lt→ltb j size (omega arith)) (f j h)

    -- A gap that is then filled.
    filled-Below :
        (n pos : ℕ) (chs : ℕ → A) (ch : A)
        → pos ≤ n
        → Below n chs
        → P ch
        → Below (suc n) (write (copy_insert_chs nil n chs pos) pos ch)
    unfolding write copy_insert_chs insert_at
    filled-Below n pos chs ch b f p j h =
        let g = copy-Below n n chs (omega arith) f in
        let inside : ltb n j ≡ false = le→ltb n j (omega arith) in
        elim (Bool-cases (j == pos)) [
          | inl here ↦ rw here p
          | inr other ↦ elim (Bool-cases (ltb j pos)) [
            | inl before ↦ rw (other, before) (g j (omega (arith, ltb→lt j pos before)))
            | inr behind ↦
                rw (other, behind, inside)
                  (g (j - 1) (omega (arith, ltb→le j pos behind, ==→ne j pos other)))
          ]
        ]

    pub copych-InUse : (k : Kind) (chs : ℕ → A) → InUse k chs → InUse k (copych nil k chs)
    unfolding copych
    copych-InUse (node4 keys) chs f = copy-Below (length keys) (length keys) chs (omega arith) f
    copych-InUse (node16 keys) chs f = copy-Below (length keys) (length keys) chs (omega arith) f
    copych-InUse (node48 slts size) chs f = copy-Below size size chs (omega arith) f
    copych-InUse node256 chs f = λ i u. absurd u

    module _ (p : ℕ) (chs : ℕ → A) (ch : A) (pp : P ch) where
      more : (keys : List ℕ) → length (insert keys (findgt keys p) p) ≡ suc (length keys)
      more keys = length-insert keys (findgt keys p) p (findgt-le-length keys p)

      -- `insert` into the children, after the keys have grown.
      grown-Below :
          (keys : List ℕ)
          → Below (length keys) chs
          → Below
              (length (insert keys (findgt keys p) p))
              (insert_at chs (length (insert keys (findgt keys p) p) - 1) (findgt keys p) ch)
      grown-Below keys f =
          let e : length (insert keys (findgt keys p) p) - 1 ≡ length keys =
            omega (arith, more keys) in
          rw e (λ j h.
            insert_at-Below (length keys) (findgt keys p) chs ch (findgt-le-length keys p) f pp j
              (omega (arith, more keys, h)))

      gap-Below :
          (keys : List ℕ)
          → Below (length keys) chs
          → Below
              (length (insert keys (findgt keys p) p))
              (write (copy_insert_chs nil (length keys) chs (findgt keys p)) (findgt keys p) ch)
      gap-Below keys f j h =
          filled-Below (length keys) (findgt keys p) chs ch (findgt-le-length keys p) f pp j
            (omega (arith, more keys, h))

      -- A full `node16` is copied without a gap, and has its new child behind the others.
      behind-Below :
          (keys : List ℕ)
          → length keys ≡ 16
          → Below (length keys) chs
          → Below 17 (write (copy_chs nil (length keys) chs) 16 ch)
      behind-Below keys e f =
          write-Below 17 16 _ ch
            (λ i h. copy-Below (length keys) (length keys) chs (omega arith) f i (omega (arith, e)))
            pp (omega arith)

      pub insert_inplace-InUse :
          (t : Kind) → InUse t chs → let r = insert_inplace nil t chs p ch in InUse r.0 r.1
      unfolding insert_inplace slot insertch
      insert_inplace-InUse (node4 keys) f = elim (Bool-cases (length keys == 4)) [
        | inl full ↦ rw full (gap-Below keys f)
        | inr room ↦ rw room (grown-Below keys f)
      ]
      insert_inplace-InUse (node16 keys) f = elim (Bool-cases (length keys == 16)) [
        | inl full ↦ rw (full, eq→== p p refl) (behind-Below keys (==→eq (length keys) 16 full) f)
        | inr room ↦ rw room (grown-Below keys f)
      ]
      insert_inplace-InUse (node48 slts size) f = elim (Bool-cases (size == 48)) [
        | inl full ↦ rw full (λ i u. absurd u)
        | inr room ↦
            rw (room, eq→== p p refl)
              (λ j h. write-Below (size + 1) size chs ch f pp (omega arith) j h)
      ]
      insert_inplace-InUse node256 f = λ i u. absurd u

      pub insert_cow-InUse :
          (t : Kind) → InUse t chs → let r = insert_cow nil t chs p ch in InUse r.0 r.1
      unfolding insert_cow slot
      insert_cow-InUse (node4 keys) f = elim (Bool-cases (length keys == 4)) [
        | inl full ↦ rw full (gap-Below keys f)
        | inr room ↦ rw room (gap-Below keys f)
      ]
      insert_cow-InUse (node16 keys) f = elim (Bool-cases (length keys == 16)) [
        | inl full ↦ rw (full, eq→== p p refl) (behind-Below keys (==→eq (length keys) 16 full) f)
        | inr room ↦ rw room (gap-Below keys f)
      ]
      insert_cow-InUse (node48 slts size) f = elim (Bool-cases (size == 48)) [
        | inl full ↦ rw full (λ i u. absurd u)
        | inr room ↦
            rw (room, eq→== p p refl)
              (λ j h.
                write-Below (size + 1) size (copy_chs nil size chs) ch
                  (copy-Below size size chs (omega arith) f) pp (omega arith) j h)
      ]
      insert_cow-InUse node256 f = λ i u. absurd u

-- ===== src/Art/Node/Insert.antt =====
-- `insert_inplace`, `insert_cow`, `getch` and `copych` of lib/trees/art on well formed nodes.
use contrees_fat_node.Prelude.{
  ℕ, ◌-◌, ◌≤◌, ◌<◌, ◌≡◌, refl, ap, none, List, ◌==◌, length, arith, Bool-cases, inl, inr, ==→eq,
  ==→ne, eq→==, ne→==, lt→ltb,
}
use contrees_fat_node.ArrayOps.{insert, length-insert}
use contrees_fat_node.Art.Index.{
  Kind, node4, node16, node48, node256, no_slot, position, findgt, find_idx, slot,
}
use contrees_fat_node.Art.Node.{write, insert_at, copy_chs, insert_inplace, insert_cow}
use contrees_fat_node.Art.Node.Positions.{findgt-le-length}
use contrees_fat_node.Art.Node.Laws.{
  IsKind, Inserted, write-copy_insert, insert4, insert16, insert48, insert16_full, insert48_full,
}

copy_chs-lt :
    {A : Type 0} (null : A) (chs : ℕ → A) (n i : ℕ) → i < n → copy_chs null n chs i ≡ chs i
unfolding copy_chs
copy_chs-lt null chs n i h = rw (lt→ltb i n h) refl

module _ {A : Type 0} (null : A) (p : ℕ) (ch : A) (chs : ℕ → A) (b : p < 256) where
  -- `insert` shifts the children up to the size before `append`.
  insertch-keys :
      (keys : List ℕ) (i : ℕ)
      → insert_at chs (length (insert keys (findgt keys p) p) - 1) (findgt keys p) ch i
        ≡ insert_at chs (length keys) (findgt keys p) ch i
  insertch-keys keys i =
      let l = length-insert keys (findgt keys p) p (findgt-le-length keys p) in
      ap (λ (n : ℕ). insert_at chs n (findgt keys p) ch i) (omega (arith, l))

  write_old : (n i : ℕ) → i < n → write chs n ch i ≡ chs i
  unfolding write
  write_old n i h = rw (ne→== i n (omega arith)) refl

  write_below : (size n i : ℕ) → n ≤ size → i < n → write (copy_chs null size chs) n ch i ≡ chs i
  unfolding write copy_chs
  write_below size n i b h = rw (ne→== i n (omega arith), lt→ltb i size (omega arith)) refl

  -- A node whose `is_full` is decided, in either way.
  node4_inplace :
      (keys : List ℕ)
      → IsKind (node4 keys)
      → position keys p ≡ none
      → Inserted null (node4 keys) chs p ch (insert_inplace null (node4 keys) chs p ch)
  unfolding insert_inplace slot
  node4_inplace keys k e = elim (Bool-cases (length keys == 4)) [
    | inl full ↦ rw full (
        insert16 null p ch chs b keys _ (node4 keys) (inl refl) k.0 e (omega arith) (λ i h.
          write-copy_insert null chs (length keys) (findgt keys p) i ch h
            (findgt-le-length keys p)))
    | inr room ↦ rw room (
        insert4 null p ch chs b keys _ k e (omega (arith, ==→ne (length keys) 4 room))
          (λ i h. insertch-keys keys i))
  ]

  node16_inplace :
      (keys : List ℕ)
      → IsKind (node16 keys)
      → position keys p ≡ none
      → Inserted null (node16 keys) chs p ch (insert_inplace null (node16 keys) chs p ch)
  unfolding insert_inplace slot write
  node16_inplace keys k e = elim (Bool-cases (length keys == 16)) [
    | inl full ↦
        rw (full, eq→== p p refl)
          (insert16_full null p ch chs b keys _ k.0 e (==→eq (length keys) 16 full) refl
            (λ i h. write_below (length keys) 16 i (omega (arith, ==→eq (length keys) 16 full)) h))
    | inr room ↦ rw room (
        insert16 null p ch chs b keys _ (node16 keys) (inr refl) k.0 e
          (omega (arith, ==→ne (length keys) 16 room)) (λ i h. insertch-keys keys i))
  ]

  node48_inplace :
      (slts : ℕ → ℕ) (size : ℕ)
      → IsKind (node48 slts size)
      → slts p ≡ no_slot
      → Inserted null (node48 slts size) chs p ch (insert_inplace null (node48 slts size) chs p ch)
  unfolding insert_inplace slot write
  node48_inplace slts size k e = elim (Bool-cases (size == 48)) [
    | inl full ↦ rw full (insert48_full null p ch chs b slts size e)
    | inr room ↦
        rw (room, eq→== p p refl)
          (insert48 null p ch chs b slts size _ k e (omega (arith, k.fits, ==→ne size 48 room))
            (rw (eq→== size size refl) refl) (λ i h. write_old size i h))
  ]

  -- A child added in place at a byte that has none, with a change to the next node type if the node
  -- is full, leaves the node well formed; it finds the child at the byte, and the old children at
  -- the others.
  pub insert_inplace-Inserted :
      (t : Kind)
      → IsKind t
      → find_idx t p ≡ none
      → Inserted null t chs p ch (insert_inplace null t chs p ch)
  unfolding find_idx
  insert_inplace-Inserted (node4 keys) k e = node4_inplace keys k e
  insert_inplace-Inserted (node16 keys) k e = node16_inplace keys k e
  insert_inplace-Inserted (node48 slts size) k e = node48_inplace slts size k (ground arith)
  insert_inplace-Inserted node256 k e = cc

  node4_cow :
      (keys : List ℕ)
      → IsKind (node4 keys)
      → position keys p ≡ none
      → Inserted null (node4 keys) chs p ch (insert_cow null (node4 keys) chs p ch)
  unfolding insert_cow slot
  node4_cow keys k e = elim (Bool-cases (length keys == 4)) [
    | inl full ↦ rw full (
        insert16 null p ch chs b keys _ (node4 keys) (inl refl) k.0 e (omega arith) (λ i h.
          write-copy_insert null chs (length keys) (findgt keys p) i ch h
            (findgt-le-length keys p)))
    | inr room ↦ rw room (
        insert4 null p ch chs b keys _ k e (omega (arith, ==→ne (length keys) 4 room)) (λ i h.
          write-copy_insert null chs (length keys) (findgt keys p) i ch h
            (findgt-le-length keys p)))
  ]

  node16_cow :
      (keys : List ℕ)
      → IsKind (node16 keys)
      → position keys p ≡ none
      → Inserted null (node16 keys) chs p ch (insert_cow null (node16 keys) chs p ch)
  unfolding insert_cow slot write
  node16_cow keys k e = elim (Bool-cases (length keys == 16)) [
    | inl full ↦
        rw (full, eq→== p p refl)
          (insert16_full null p ch chs b keys _ k.0 e (==→eq (length keys) 16 full) refl
            (λ i h. write_below (length keys) 16 i (omega (arith, ==→eq (length keys) 16 full)) h))
    | inr room ↦ rw room (
        insert16 null p ch chs b keys _ (node16 keys) (inr refl) k.0 e
          (omega (arith, ==→ne (length keys) 16 room))
          (λ i h.
            write-copy_insert null chs (length keys) (findgt keys p) i ch h
              (findgt-le-length keys p)))
  ]

  node48_cow :
      (slts : ℕ → ℕ) (size : ℕ)
      → IsKind (node48 slts size)
      → slts p ≡ no_slot
      → Inserted null (node48 slts size) chs p ch (insert_cow null (node48 slts size) chs p ch)
  unfolding insert_cow slot write
  node48_cow slts size k e = elim (Bool-cases (size == 48)) [
    | inl full ↦ rw full (insert48_full null p ch chs b slts size e)
    | inr room ↦
        rw (room, eq→== p p refl)
          (insert48 null p ch chs b slts size _ k e (omega (arith, k.fits, ==→ne size 48 room))
            (rw (eq→== size size refl) refl) (λ i h. write_below size size i (omega arith) h))
  ]

  -- A child added to a copy of a well formed node, at a byte that has none, leaves the copy well
  -- formed; it finds the child at the byte, and the old children at the others.
  pub insert_cow-Inserted :
      (t : Kind)
      → IsKind t
      → find_idx t p ≡ none
      → Inserted null t chs p ch (insert_cow null t chs p ch)
  unfolding find_idx
  insert_cow-Inserted (node4 keys) k e = node4_cow keys k e
  insert_cow-Inserted (node16 keys) k e = node16_cow keys k e
  insert_cow-Inserted (node48 slts size) k e = node48_cow slts size k (ground arith)
  insert_cow-Inserted node256 k e = cc

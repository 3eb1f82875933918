-- ===== src/Art/Node/Every.antt =====
-- A condition on the children of a node of lib/trees/art, through the operations on it.
use contrees_fat_node.Prelude.{ℕ, ◌-◌, ◌||◌, ◌==◌, ltb, length, Option-cases, inl, inr, if_both}
use contrees_fat_node.Art.Index.{
  Kind, node4, node16, node48, node256, no_slot, find_idx, is_full, slot,
}
use contrees_fat_node.Art.Node.{
  findch, write, insert_at, insertch, copy_chs, copy_insert_chs, spread_chs, copych, copych_at,
  insert_inplace, insert_cow,
}
use contrees_fat_node.Art.Node.Children.{findch-find_idx}

module _ {A : Type 0} (P : A → Type 0) where
  pub write_all :
      (chs : ℕ → A) (i : ℕ) (ch : A) → ((j : ℕ) → P (chs j)) → P ch → (j : ℕ) → P (write chs i ch j)
  unfolding write
  write_all chs i ch f p j = if_both P (j == i) ch (chs j) p (f j)

  pub findch_all :
      (nil : A) (t : Kind) (chs : ℕ → A) (q : ℕ)
      → P nil
      → ((j : ℕ) → P (chs j))
      → P (findch nil t chs q)
  findch_all nil t chs q z f =
      rw (findch-find_idx nil t chs q) (elim (Option-cases (find_idx t q)) [
        | inl nowhere ↦ rw nowhere z
        | inr (i, here) ↦ rw here (f (slot t i))
      ])

  insert_at_all :
      (arr : ℕ → A) (size pos : ℕ) (elt : A)
      → ((j : ℕ) → P (arr j))
      → P elt
      → (j : ℕ) → P (insert_at arr size pos elt j)
  unfolding insert_at
  insert_at_all arr size pos elt f p j =
      if_both P (ltb j pos || ltb size j) (arr j) _ (f j)
        (if_both P (j == pos) elt (arr (j - 1)) p (f (j - 1)))

  insertch_all :
      (t : Kind) (chs : ℕ → A) (i : ℕ) (ch : A)
      → ((j : ℕ) → P (chs j))
      → P ch
      → (j : ℕ) → P (insertch t chs i ch j)
  unfolding insertch
  insertch_all (node4 keys) chs i ch f p = insert_at_all chs (length keys - 1) i ch f p
  insertch_all (node16 keys) chs i ch f p = insert_at_all chs (length keys - 1) i ch f p
  insertch_all (node48 slts size) chs i ch f p = write_all chs (slts i) ch f p
  insertch_all node256 chs i ch f p = write_all chs i ch f p

  module _ (nil : A) (z : P nil) (chs : ℕ → A) (f : (j : ℕ) → P (chs j)) where
    copy_all : (size j : ℕ) → P (copy_chs nil size chs j)
    unfolding copy_chs
    copy_all size j = if_both P (ltb j size) (chs j) nil (f j) z

    copy_insert_all : (size pos j : ℕ) → P (copy_insert_chs nil size chs pos j)
    unfolding copy_insert_chs
    copy_insert_all size pos = insert_at_all (copy_chs nil size chs) size pos nil (copy_all size) z

    spread_all : (slts : ℕ → ℕ) (j : ℕ) → P (spread_chs nil slts chs j)
    unfolding spread_chs
    spread_all slts j = if_both P (slts j == no_slot) nil (chs (slts j)) z (f (slts j))

    pub copych_all : (t : Kind) (j : ℕ) → P (copych nil t chs j)
    unfolding copych
    copych_all (node4 keys) = copy_all (length keys)
    copych_all (node16 keys) = copy_all (length keys)
    copych_all (node48 slts size) = copy_all size
    copych_all node256 = copy_all 256

    copych_at_all : (t : Kind) (i j : ℕ) → P (copych_at nil t chs i j)
    unfolding copych_at
    copych_at_all (node4 keys) i =
        if_both (λ (g : ℕ → A). (j : ℕ) → P (g j)) (is_full (node4 keys)) _ _
          (copy_insert_all (length keys) i) (copy_insert_all (length keys) i)
    copych_at_all (node16 keys) i =
        if_both (λ (g : ℕ → A). (j : ℕ) → P (g j)) (is_full (node16 keys)) _ _
          (copy_all (length keys)) (copy_insert_all (length keys) i)
    copych_at_all (node48 slts size) i =
        if_both (λ (g : ℕ → A). (j : ℕ) → P (g j)) (is_full (node48 slts size)) _ _
          (spread_all slts) (copy_all size)
    copych_at_all node256 i = copy_all 256

    pub insert_inplace_all :
        (t : Kind) (pkey : ℕ) (ch : A) → P ch → (j : ℕ) → P ((insert_inplace nil t chs pkey ch).1 j)
    unfolding insert_inplace
    insert_inplace_all t pkey ch p j =
        if_both (λ (g : Kind × (ℕ → A)). P (g.1 j)) (is_full t) _ _
          (write_all _ _ ch (copych_at_all t _) p j) (insertch_all _ chs _ ch f p j)

    pub insert_cow_all :
        (t : Kind) (pkey : ℕ) (ch : A) → P ch → (j : ℕ) → P ((insert_cow nil t chs pkey ch).1 j)
    unfolding insert_cow
    insert_cow_all t pkey ch p j = write_all _ _ ch (copych_at_all t _) p j

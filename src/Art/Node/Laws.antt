-- ===== src/Art/Node/Laws.antt =====
-- The nodes of lib/trees/art as maps from bytes to children.
use contrees_fat_node.Prelude.{
  ℕ, suc, ◌+◌, ◌≤◌, ◌<◌, ◌≡◌, ◌≢◌, ◌⊎◌, refl, ap, sym, ◌∙◌, none, some, List, ltb, ◌==◌,
  if◌then◌else◌, length, arith, Bool-cases, Option-cases, inl, inr, eq→==, ne→==,
}
use contrees_fat_node.ArrayOps.{insert, length-insert}
use contrees_fat_node.Art.Index.{
  Kind, node4, node16, node48, node256, no_slot, position, findgt, fill_slts,
}
use contrees_fat_node.Art.Node.{write, insert_at, at, findch, copy_chs, copy_insert_chs, spread_chs}
use contrees_fat_node.Art.Node.Positions.{
  Ascends, position-lt, position-inj, position-insert, findgt-le-length, insert-Ascends,
  fill_slts-position,
}

-- The slots below `size`, one for each key that has one.
pub record IsSlts (slts : ℕ → ℕ) (size : ℕ) : Type 0 where
  pub fits : size ≤ 48
  pub used : (q : ℕ) → (slts q ≡ no_slot) ⊎ (slts q < size)
  pub distinct : (p q : ℕ) → slts p ≡ slts q → slts p ≢ no_slot → p ≡ q

-- A well formed inner node.
abbrev pub IsKind : Kind → Type 0
IsKind (node4 keys) = Ascends 0 keys × (2 ≤ length keys) × (length keys ≤ 4)
IsKind (node16 keys) = Ascends 0 keys × (length keys ≤ 16)
IsKind (node48 slts size) = IsSlts slts size
IsKind node256 = Unit {0}

module _ {A : Type 0} (null : A) where
  -- An insertion into the keys and into the children, at one position.
  at-insert :
      (keys : List ℕ) (idx p q n : ℕ) (chs chs' : ℕ → A) (ch : A)
      → position keys p ≡ none
      → idx ≤ n
      → length keys ≡ n
      → ((i : ℕ) → i ≤ n → chs' i ≡ insert_at chs n idx ch i)
      → at null chs' (position (insert keys idx p) q)
        ≡ (if q == p then ch else at null chs (position keys q))
  unfolding insert_at
  at-insert keys idx p q n chs chs' ch e h l w =
      ap (at null chs') (position-insert keys idx p q e (omega (arith, l)))
      ∙ elim (Bool-cases (q == p)) [
        | inl same ↦ rw same (w idx (omega arith) ∙ ground arith)
        | inr other ↦ elim (Option-cases (position keys q)) [
          | inl nowhere ↦ rw (other, nowhere) refl
          | inr (i, here) ↦
              let b = position-lt keys q i here in
              rw (other, here)
                (elim (Bool-cases (ltb i idx)) [
                  | inl before ↦ rw before (w i (omega (arith, b, l)) ∙ ground arith)
                  | inr behind ↦ rw behind (w (suc i) (omega (arith, b, l)) ∙ ground (arith, l, b))
                ])
        ]
      ]

  -- What an insertion of a child promises: the node stays well formed, and finds the new child at its
  -- byte and the old ones elsewhere.
  pub record Inserted (t : Kind) (chs : ℕ → A) (p : ℕ) (ch : A) (r : Kind × (ℕ → A)) : Type 0 where
    pub well_formed : IsKind r.0
    pub finds : (q : ℕ) → findch null r.0 r.1 q ≡ (if q == p then ch else findch null t chs q)

  -- The slot after `append`, written into the children from `copych`, is the child that `insertch`
  -- puts there.
  pub write-copy_insert :
      (chs : ℕ → A) (n idx i : ℕ) (ch : A)
      → i ≤ n
      → idx ≤ n
      → write (copy_insert_chs null n chs idx) idx ch i ≡ insert_at chs n idx ch i
  unfolding write copy_insert_chs insert_at copy_chs
  write-copy_insert chs n idx i ch h j = ground arith

  full-IsSlts :
      (keys : List ℕ)
      → Ascends 0 keys
      → length keys ≡ 16
      → IsSlts (fill_slts (λ r. no_slot) 0 keys) 16
  full-IsSlts keys a f =
      let fill = λ (q : ℕ). fill_slts-position (λ r. no_slot) 0 0 keys q a in
      record {
        fits = omega arith;
        used = λ q. elim (Option-cases (position keys q)) [
          | inl nowhere ↦ inl (fill q ∙ rw nowhere refl)
          | inr (i, here) ↦
              let e : fill_slts (λ r. no_slot) 0 keys q ≡ 0 + i = fill q ∙ rw here refl in
              inr (omega (arith, e, position-lt keys q i here, f))
        ];
        distinct = λ p q e n. elim (Option-cases (position keys p)) [
          | inl nowhere ↦ absurd (n (fill p ∙ rw nowhere refl))
          | inr (i, here) ↦ elim (Option-cases (position keys q)) [
            | inl nowhere ↦ absurd (n (e ∙ fill q ∙ rw nowhere refl))
            | inr (j, there) ↦
                let x : fill_slts (λ r. no_slot) 0 keys p ≡ 0 + i = fill p ∙ rw here refl in
                let y : fill_slts (λ r. no_slot) 0 keys q ≡ 0 + j = fill q ∙ rw there refl in
                let z : j ≡ i = omega (arith, e, x, y) in
                position-inj keys p q i here (there ∙ ap some z)
          ]
        ];
      }

  -- The children of a full `node16` are found through the slots as they were through the keys.
  same :
      (keys : List ℕ) (chs : ℕ → A)
      → Ascends 0 keys
      → length keys ≡ 16
      → (q : ℕ)
      → findch null (node48 (fill_slts (λ r. no_slot) 0 keys) 16) chs q
        ≡ findch null (node16 keys) chs q
  unfolding findch
  same keys chs a f q =
      let fill = fill_slts-position (λ r. no_slot) 0 0 keys q a in
      elim (Option-cases (position keys q)) [
        | inl nowhere ↦
            let e : fill_slts (λ r. no_slot) 0 keys q ≡ no_slot = fill ∙ rw nowhere refl in
            rw (e, nowhere) refl
        | inr (i, here) ↦
            let e : fill_slts (λ r. no_slot) 0 keys q ≡ 0 + i = fill ∙ rw here refl in
            let z : fill_slts (λ r. no_slot) 0 keys q ≡ i = omega (arith, e) in
            rw (z, here, ne→== i no_slot (omega (arith, position-lt keys q i here, f))) refl
      ]

  module _ (p : ℕ) (ch : A) (chs : ℕ → A) (b : p < 256) where
    pub insert4 :
        (keys : List ℕ) (chs' : ℕ → A)
        → IsKind (node4 keys)
        → position keys p ≡ none
        → length keys ≤ 3
        → ((i : ℕ) → i ≤ length keys → chs' i ≡ insert_at chs (length keys) (findgt keys p) ch i)
        → Inserted (node4 keys) chs p ch (node4 (insert keys (findgt keys p) p), chs')
    unfolding findch
    insert4 keys chs' k e f w =
        let g = findgt-le-length keys p in
        let l = length-insert keys (findgt keys p) p g in
        record {
          well_formed = (
            insert-Ascends 0 keys p e (omega arith) b k.0,
            omega (arith, l, k.1),
            omega (arith, l),
          );
          finds = λ q. at-insert keys (findgt keys p) p q (length keys) chs chs' ch e g refl w;
        }

    pub insert16 :
        (keys : List ℕ) (chs' : ℕ → A) (t : Kind)
        → (t ≡ node4 keys) ⊎ (t ≡ node16 keys)
        → Ascends 0 keys
        → position keys p ≡ none
        → length keys ≤ 15
        → ((i : ℕ) → i ≤ length keys → chs' i ≡ insert_at chs (length keys) (findgt keys p) ch i)
        → Inserted t chs p ch (node16 (insert keys (findgt keys p) p), chs')
    unfolding findch
    insert16 keys chs' t c k e f w =
        let g = findgt-le-length keys p in
        let l = length-insert keys (findgt keys p) p g in
        let same : (q : ℕ) → findch null t chs q ≡ at null chs (position keys q) =
          λ q. elim c [ inl d ↦ rw d refl | inr d ↦ rw d refl ] in
        record {
          well_formed = (insert-Ascends 0 keys p e (omega arith) b k, omega (arith, l));
          finds = λ q.
              at-insert keys (findgt keys p) p q (length keys) chs chs' ch e g refl w
              ∙ ap (λ a. if q == p then ch else a) (sym (same q));
        }

    -- A new slot at the end.
    pub insert48 :
        (slts : ℕ → ℕ) (size : ℕ) (chs' : ℕ → A)
        → IsSlts slts size
        → slts p ≡ no_slot
        → size < 48
        → (chs' size ≡ ch)
        → ((i : ℕ) → i < size → chs' i ≡ chs i)
        → Inserted
            (node48 slts size)
            chs
            p
            ch
            (node48 (λ q. if q == p then size else slts q) (size + 1), chs')
    unfolding findch
    insert48 slts size chs' k e f w v = record {
      well_formed = record {
        fits = omega arith;
        used = λ q. elim (Bool-cases (q == p)) [
          | inl same ↦ rw same (inr (omega arith))
          | inr other ↦ rw other (elim (k.used q) [ inl z ↦ inl z | inr l ↦ inr (omega arith) ])
        ];
        distinct = λ q r. ground (arith, k.used q, k.used r, k.distinct q r);
      };
      finds = λ q. elim (Bool-cases (q == p)) [
        | inl same ↦ rw (same, ne→== size no_slot (omega arith)) w
        | inr other ↦ rw other (elim (k.used q) [
          | inl nowhere ↦ rw (eq→== (slts q) no_slot nowhere) refl
          | inr here ↦ rw (v (slts q) here) refl
        ])
      ];
    }

    -- A full `node16` becomes a `node48` with the slots of its keys, and the new one.
    pub insert16_full :
        (keys : List ℕ) (chs' : ℕ → A)
        → Ascends 0 keys
        → position keys p ≡ none
        → length keys ≡ 16
        → chs' 16 ≡ ch
        → ((i : ℕ) → i < 16 → chs' i ≡ chs i)
        → Inserted
            (node16 keys)
            chs
            p
            ch
            (node48 (λ q. if q == p then 16 else fill_slts (λ r. no_slot) 0 keys q) (16 + 1), chs')
    unfolding findch
    insert16_full keys chs' a e f w v =
        let slts = fill_slts (λ r. no_slot) 0 keys in
        let k = full-IsSlts keys a f in
        let absent : slts p ≡ no_slot =
          fill_slts-position (λ r. no_slot) 0 0 keys p a ∙ rw e refl in
        let i = insert48 slts 16 chs' k absent (omega arith) w v in
        record {
          well_formed = i.well_formed;
          finds = λ q. i.finds q ∙ ap (λ c. if q == p then ch else c) (same keys chs a f q);
        }

    -- A full `node48` becomes a `node256`.
    pub insert48_full :
        (slts : ℕ → ℕ) (size : ℕ)
        → slts p ≡ no_slot
        → Inserted (node48 slts size) chs p ch (node256, write (spread_chs null slts chs) p ch)
    unfolding findch write spread_chs
    insert48_full slts size e = record { well_formed = tt; finds = λ q. refl }

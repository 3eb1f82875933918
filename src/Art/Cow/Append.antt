-- ===== src/Art/Cow/Append.antt =====
-- The fat append of lib/trees/art: handlers.hpp, `handle_init`, with fat_lookup.hpp.
use contrees_fat_node.Prelude.{
  ℕ, suc, ◌+◌, ◌-◌, ◌<◌, ◌≡◌, refl, ap, subst, sym, ◌∙◌, Bool, true, false, ◌&&◌, ◌||◌, some, List,
  [], ◌∷◌, ◌++◌, leb, ◌==◌, if◌then◌else◌, arith, inl, inr, Bool-cases, Option-cases, ==→eq,
}
use contrees_fat_node.FatValue.{Record, FatValue, read, append}
use contrees_fat_node.FatValue.Laws.{Ascends, newest, read_lem}
use contrees_fat_node.FatValue.Append.{Appends, append_lem}
use contrees_fat_node.Btree.Cow.{Task}
use contrees_fat_node.Art.Key.{partial_key}
use contrees_fat_node.Art.Key.Agree.{agree}
use contrees_fat_node.Art.Index.{Kind, find_idx, slot}
use contrees_fat_node.Art.Node.{findch, write}
use contrees_fat_node.Art.Node.Children.{findch-find_idx, write-findch}
use contrees_fat_node.Art.Node.Used.{write-InUse}
use contrees_fat_node.Art.Node.Every.{write_all}
use contrees_fat_node.Art.Tree.{Header, Tree, null, leaf, inner, departs, find}
use contrees_fat_node.Art.Tree.Shape.{Present, IsTree, find_inner}
use contrees_fat_node.Art.Tree.Through.{along-agree, find_own_leaf, find_replaced}
use contrees_fat_node.Art.Cow.{append_at_leaf}
use contrees_fat_node.Art.Cow.Copy.{Below, Logged}

newest_append :
    (v base : ℕ) (log : List Record) (x : Record)
    → newest v base (log ++ x ∷ []) ≡ (if leb x.version v then x.value else newest v base log)
unfolding newest
newest_append v base [] x = refl
newest_append v base (r ∷ rs) x = newest_append v (if leb r.version v then r.value else base) rs x

Ascends-append :
    (u : ℕ) (log : List Record) (x : Record)
    → u < x.version
    → Ascends u log
    → Below x.version log
    → Ascends u (log ++ x ∷ [])
Ascends-append u [] x h a b = (h, tt)
Ascends-append u (r ∷ rs) x h a b = (a.0, Ascends-append r.version rs x b.0 a.1 b.1)

Below-suc : (n : ℕ) (log : List Record) → Below n log → Below (suc n) log
Below-suc n [] b = tt
Below-suc n (r ∷ rs) b = (omega arith, Below-suc n rs b.1)

Below-append :
    (n value : ℕ) (log : List Record)
    → Below n log
    → Below (suc n) (log ++ record { value = value; version = n } ∷ [])
Below-append n value [] b = (omega arith, tt)
Below-append n value (r ∷ rs) b = (omega arith, Below-append n value rs b.1)

pub Logged-suc :
    (slots n val : ℕ) (fat : FatValue) → Logged slots n val fat → Logged slots (suc n) val fat
Logged-suc slots n val fat l = record {
  log = l.log;
  is_log = l.is_log;
  below = Below-suc n l.log l.below;
}

-- A condition that follows on every leaf.
pub IsTree-imp :
    (P Q : ℕ → FatValue → Type 0)
    → ((val : ℕ) (fat : FatValue) → P val fat → Q val fat)
    → (pos : ℕ) (t : Tree) → IsTree P pos t
    → IsTree Q pos t
IsTree-imp P Q f pos null i = i
IsTree-imp P Q f pos (leaf h val fat) i = (i.0, i.1, f val fat i.2)
IsTree-imp P Q f pos (inner h k chs) i =
    (i.0, i.1, i.2, λ j. IsTree-imp P Q f (pos + h.pfx_len + 1) (chs j) (i.3 j), i.4)

-- The versions after an append.
abbrev pub age : ℕ → Bool → ℕ
age n appended = if appended then suc n else n

-- Whether a snapshot sees the appended value.
abbrev pub seen : ℕ → Bool → ℕ → Bool
seen n appended v = appended && leb n v

abbrev Appended : (slots n value val : ℕ) → FatValue → FatValue × Bool → Type 0
Appended slots n value val fat (fat', appended) =
    Logged slots (age n appended) val fat'
    × ((base v : ℕ) → read fat' base v ≡ (if seen n appended v then value else read fat base v))

module _ (slots n value : ℕ) (z : 0 < n) (s : (slots == 2 || slots == 4 || slots == 8) ≡ true) where
  Appends-Appended :
      (val : ℕ) (fat : FatValue) (l : Logged slots n val fat) (r : FatValue × Bool)
      → Appends slots l.log (record { value = value; version = n }) r
      → Appended slots n value val fat r
  Appends-Appended val fat l (fat', true) a = (
    record {
      log = l.log ++ record { value = value; version = n } ∷ [];
      is_log = a.1;
      below = Below-append n value l.log l.below;
    },
    λ base v.
        read_lem slots fat' (l.log ++ record { value = value; version = n } ∷ []) base v a.1
        ∙ newest_append v base l.log (record { value = value; version = n })
        ∙ ap (λ r. if leb n v then value else r) (sym (read_lem slots fat l.log base v l.is_log)),
  )
  Appends-Appended val fat l (fat', false) a = (
    record { log = l.log; is_log = a.1; below = l.below },
    λ base v. read_lem slots fat' l.log base v a.1 ∙ sym (read_lem slots fat l.log base v l.is_log),
  )

  append-Appended :
      (val : ℕ) (fat : FatValue)
      → Logged slots n val fat
      → Appended slots n value val fat (append fat slots n value)
  append-Appended val fat l = Appends-Appended val fat l (append fat slots n value) (
      append_lem slots fat l.log n value s l.is_log
        (Ascends-append 0 l.log (record { value = value; version = n }) z l.is_log.ascends l.below))

-- What the append promises of a node below the first `pos` bytes: the leaves keep logs, and the
-- snapshots that see the new value see it at the key.
pub record AppendsAt (ctx : Task) (slots pos : ℕ) (t : Tree) (r : Tree × Bool) : Type 0 where
  pub well_formed : IsTree (Logged slots (age ctx.sno r.1)) pos r.0
  pub present : Present t → Present r.0
  pub finds :
      (q v : ℕ)
      → find r.0 q v
        ≡ (if seen ctx.sno r.1 v && agree (8 - pos) pos q ctx.key then some ctx.val else find t q v)

module _ (ctx : Task) (z : 0 < ctx.sno)
    (s : (ctx.fat_slots == 2 || ctx.fat_slots == 4 || ctx.fat_slots == 8) ≡ true) where
  unchanged :
      (pos : ℕ) (t : Tree)
      → IsTree (Logged ctx.fat_slots ctx.sno) pos t
      → AppendsAt ctx ctx.fat_slots pos t (t, false)
  unchanged pos t i = record { well_formed = i; present = λ p. p; finds = λ q v. refl }

  aged :
      (pos : ℕ) (appended : Bool) (t : Tree)
      → IsTree (Logged ctx.fat_slots ctx.sno) pos t
      → IsTree (Logged ctx.fat_slots (age ctx.sno appended)) pos t
  aged pos true t i =
      IsTree-imp _ (Logged ctx.fat_slots (suc ctx.sno)) (Logged-suc ctx.fat_slots ctx.sno) pos t i
  aged pos false t i = i

  -- A child that the reader cannot tell from the old one.
  find_unchanged :
      (P : ℕ → FatValue → Type 0) (pos j : ℕ) (h : Header) (k : Kind) (chs : ℕ → Tree) (ch : Tree)
      (q v : ℕ)
      → IsTree P pos (inner h k chs)
      → IsTree P pos (inner h k (write chs (slot k j) ch))
      → find_idx k (partial_key ctx.key (pos + h.pfx_len)) ≡ some j
      → find ch q v ≡ find (chs (slot k j)) q v
      → find (inner h k (write chs (slot k j) ch)) q v ≡ find (inner h k chs) q v
  find_unchanged P pos j h k chs ch q v i i' here e =
      let pk = partial_key ctx.key (pos + h.pfx_len) in
      let qk = partial_key q (pos + h.pfx_len) in
      let old : findch null k chs pk ≡ chs (slot k j) =
        findch-find_idx null k chs pk ∙ rw here refl in
      find_inner P pos h k (write chs (slot k j) ch) q v i'
      ∙ rw (find_inner P pos h k chs q v i, write-findch null k chs pk j ch i.2 here qk)
          (elim (Bool-cases (qk == pk)) [
            | inl same ↦ rw (same, ==→eq qk pk same, old, e) refl
            | inr other ↦ rw other refl
          ])

  append_leaf :
      (pos : ℕ) (h : Header) (val : ℕ) (fat : FatValue)
      → departs h ctx.key ≡ false
      → IsTree (Logged ctx.fat_slots ctx.sno) pos (leaf h val fat)
      → (r : FatValue × Bool) → Appended ctx.fat_slots ctx.sno ctx.val val fat r
      → AppendsAt ctx ctx.fat_slots pos (leaf h val fat) (leaf h val r.0, r.1)
  append_leaf pos h val fat along i r a =
      let P = Logged ctx.fat_slots (age ctx.sno r.1) in
      let e = along-agree pos h ctx.key i.0 (omega (arith, i.1)) along in
      record {
        well_formed = (i.0, i.1, a.0);
        present = λ p. p;
        finds = λ q v.
            find_own_leaf P pos ctx.key h val r.0 q v (i.0, i.1, a.0) e
            ∙ rw
                (
                  a.1 val v,
                  find_own_leaf (Logged ctx.fat_slots ctx.sno) pos ctx.key h val fat q v i e,
                )
                (ground arith);
      }

  append_child :
      (pos j : ℕ) (h : Header) (k : Kind) (chs : ℕ → Tree)
      → departs h ctx.key ≡ false
      → find_idx k (partial_key ctx.key (pos + h.pfx_len)) ≡ some j
      → IsTree (Logged ctx.fat_slots ctx.sno) pos (inner h k chs)
      → (r : Tree × Bool) → AppendsAt ctx ctx.fat_slots (pos + h.pfx_len + 1) (chs (slot k j)) r
      → AppendsAt ctx ctx.fat_slots pos (inner h k chs) (inner h k (write chs (slot k j) r.0), r.1)
  append_child pos j h k chs along here i r a =
      let P = Logged ctx.fat_slots (age ctx.sno r.1) in
      let below = pos + h.pfx_len + 1 in
      let e = along-agree pos h ctx.key i.0 (omega (arith, i.1)) along in
      let i' : IsTree P pos (inner h k chs) = aged pos r.1 (inner h k chs) i in
      let kept : IsTree P pos (inner h k (write chs (slot k j) r.0)) = (
        i.0,
        i.1,
        i.2,
        write_all (IsTree P below) chs (slot k j) r.0 i'.3 a.well_formed,
        write-InUse Present k chs (slot k j) r.0 i.4 (λ u. a.present (i.4 (slot k j) u)),
      ) in
      record {
        well_formed = kept;
        present = λ p. p;
        finds = λ q v. elim (Bool-cases (seen ctx.sno r.1 v)) [
          | inl new ↦ rw new (
              find_replaced P pos ctx.key ctx.val q v h h k chs r.0 i' e refl refl chs j kept
                (λ p b. refl) here (a.finds q v ∙ rw new refl))
          | inr old ↦
              rw old
                (find_unchanged P pos j h k chs r.0 q v i' kept here (a.finds q v ∙ rw old refl))
        ];
      }

  pub append_at_leaf-AppendsAt :
      (pos : ℕ) (t : Tree)
      → IsTree (Logged ctx.fat_slots ctx.sno) pos t
      → AppendsAt ctx ctx.fat_slots pos t (append_at_leaf ctx t)
  unfolding append_at_leaf
  append_at_leaf-AppendsAt pos null i = unchanged pos null i
  append_at_leaf-AppendsAt pos (leaf h val fat) i = elim (Bool-cases (departs h ctx.key)) [
    | inl apart ↦ rw apart (unchanged pos (leaf h val fat) i)
    | inr along ↦ rw along (
        append_leaf pos h val fat along i (append fat ctx.fat_slots ctx.sno ctx.val)
          (append-Appended ctx.fat_slots ctx.sno ctx.val z s val fat i.2))
  ]
  append_at_leaf-AppendsAt pos (inner h k chs) i = elim (Bool-cases (departs h ctx.key)) [
    | inl apart ↦ rw apart (unchanged pos (inner h k chs) i)
    | inr along ↦
        rw along (elim (Option-cases (find_idx k (partial_key ctx.key (h.pfx_ofs + h.pfx_len)))) [
          | inl nowhere ↦ rw nowhere (unchanged pos (inner h k chs) i)
          | inr (j, here) ↦
              let at : find_idx k (partial_key ctx.key (pos + h.pfx_len)) ≡ some j =
                subst (λ (n : ℕ). find_idx k (partial_key ctx.key (n + h.pfx_len)) ≡ some j) i.0
                  here in
              rw here (
                append_child pos j h k chs along at i (append_at_leaf ctx (chs (slot k j))) (
                  append_at_leaf-AppendsAt (pos + h.pfx_len + 1) (chs (slot k j)) (i.3 (slot k j))))
        ])
  ]

-- ===== src/Art/Tree/Through.antt =====
-- An update of one child of a node of lib/trees/art, as `find` sees it at the node.
use contrees_fat_node.Prelude.{
  ℕ, suc, ◌+◌, ◌-◌, ◌≤◌, ◌<◌, ◌≡◌, refl, ap, subst, sym, ◌∙◌, true, false, Option, none, some, ◌==◌,
  if◌then◌else◌, arith, Bool-cases, inl, inr, if_both, ==→eq,
}
use contrees_fat_node.FatValue.{FatValue, read}
use contrees_fat_node.Art.Key.{partial_key}
use contrees_fat_node.Art.Key.Bytes.{partial_key-lt}
use contrees_fat_node.Art.Key.Agree.{agree, agree_trans, agree_sym, agree-masked}
use contrees_fat_node.Art.Index.{Kind, find_idx, slot, is_full}
use contrees_fat_node.Art.Node.{findch, write}
use contrees_fat_node.Art.Node.Laws.{Inserted}
use contrees_fat_node.Art.Node.Children.{findch-find_idx, write-findch}
use contrees_fat_node.Art.Tree.{
  Header, Tree, null, leaf, inner, departs, new_header, find, extended,
}
use contrees_fat_node.Art.Tree.Shape.{IsTree, departs-agree, find_inner, find_leaf, find_null}
use contrees_fat_node.Art.Tree.Fork.{agree_split3}

-- What an update of the key promises, at a node below the first `pos` bytes.
abbrev pub Puts : (pos key val q : ℕ) → Option ℕ → Option ℕ → Type 0
Puts pos key val q before after = after ≡ (if agree (8 - pos) pos q key then some val else before)

-- Keys with the prefix of a node see it as the key does.
agree_swap :
    (n pos q key pfx : ℕ) → agree n pos key pfx ≡ true → agree n pos q pfx ≡ agree n pos q key
agree_swap n pos q key pfx e =
    agree_sym n pos q pfx ∙ sym (agree_trans n pos key pfx q e) ∙ agree_sym n pos key q

-- A node with a child in another's place.
pub find_through :
    (P : ℕ → FatValue → Type 0) (pos key val q version : ℕ) (h h' : Header) (k k' : Kind)
    (chs chs' : ℕ → Tree) (ch : Tree)
    → IsTree P pos (inner h k chs)
    → IsTree P pos (inner h' k' chs')
    → agree h.pfx_len pos key h.pfx ≡ true
    → h'.pfx_len ≡ h.pfx_len
    → agree h.pfx_len pos q h'.pfx ≡ agree h.pfx_len pos q h.pfx
    → findch null k' chs' (partial_key q (pos + h.pfx_len)) ≡ (
        if partial_key q (pos + h.pfx_len) == partial_key key (pos + h.pfx_len)
        then ch
        else findch null k chs (partial_key q (pos + h.pfx_len)))
    → Puts
        (pos + h.pfx_len + 1)
        key
        val
        q
        (find (findch null k chs (partial_key key (pos + h.pfx_len))) q version)
        (find ch q version)
    → Puts pos key val q (find (inner h k chs) q version) (find (inner h' k' chs') q version)
find_through P pos key val q version h h' k k' chs chs' ch i i' e l m f c =
    let pk = partial_key key (pos + h.pfx_len) in
    let qk = partial_key q (pos + h.pfx_len) in
    let r : 8 - pos - suc h.pfx_len ≡ 8 - (pos + h.pfx_len + 1) = omega arith in
    find_inner P pos h' k' chs' q version i'
    ∙ rw
        (
          l,
          m,
          f,
          find_inner P pos h k chs q version i,
          agree_split3 h.pfx_len (8 - pos) pos q key (omega (arith, i.1)),
          agree_swap h.pfx_len pos q key h.pfx e,
          r,
        )
        (elim (Bool-cases (qk == pk)) [
          | inl same ↦ rw (same, ==→eq qk pk same, c) (ground arith)
          | inr other ↦ rw other (ground arith)
        ])

pub extended-IsTree :
    (P : ℕ → FatValue → Type 0) (pos ver : ℕ) (h : Header) (k k' : Kind) (chs : ℕ → Tree)
    → IsTree P pos (inner h k' chs)
    → IsTree P pos (inner (extended ver k h) k' chs)
unfolding extended new_header
extended-IsTree P pos ver h k k' chs i =
    if_both (λ g. IsTree P pos (inner g k' chs)) (is_full k) _ h i i

-- The extension of a node keeps its prefix.
pub extended_pfx :
    (pos ver q : ℕ) (h : Header) (k : Kind)
    → h.pfx_ofs ≡ pos
    → pos + h.pfx_len < 8
    → ((extended ver k h).pfx_len ≡ h.pfx_len)
      × (agree h.pfx_len pos q (extended ver k h).pfx ≡ agree h.pfx_len pos q h.pfx)
unfolding extended new_header
extended_pfx pos ver q h k o b =
    if_both
      (λ (g : Header).
        (g.pfx_len ≡ h.pfx_len) × (agree h.pfx_len pos q g.pfx ≡ agree h.pfx_len pos q h.pfx))
      (is_full k) _ h
      (refl, rw o (agree-masked h.pfx pos h.pfx_len h.pfx_len q (omega arith) (omega arith)))
      (refl, refl)

-- The prefix of the key.
pub along-agree :
    (pos : ℕ) (h : Header) (key : ℕ)
    → h.pfx_ofs ≡ pos
    → pos + h.pfx_len ≤ 8
    → departs h key ≡ false
    → agree h.pfx_len pos key h.pfx ≡ true
along-agree pos h key o b e =
    let d = departs-agree h key (omega (arith, o)) in
    subst (λ (n : ℕ). agree h.pfx_len n key h.pfx ≡ true) o (ground (arith, e, d))

-- The leaf of the key.
pub find_own_leaf :
    (P : ℕ → FatValue → Type 0) (pos key : ℕ) (h : Header) (val : ℕ) (fat : FatValue)
    (q version : ℕ)
    → IsTree P pos (leaf h val fat)
    → agree h.pfx_len pos key h.pfx ≡ true
    → find (leaf h val fat) q version
      ≡ (if agree (8 - pos) pos q key then some (read fat val version) else none)
find_own_leaf P pos key h val fat q version i e =
    let l : h.pfx_len ≡ 8 - pos = omega (arith, i.1) in
    find_leaf P pos h val fat q version i
    ∙ ap (λ b. if b then some (read fat val version) else none)
        (agree_swap h.pfx_len pos q key h.pfx e ∙ ap (λ (n : ℕ). agree n pos q key) l)

module _ (P : ℕ → FatValue → Type 0) (pos key val q version : ℕ) (h h' : Header) (k : Kind)
    (chs : ℕ → Tree) (ch : Tree) (i : IsTree P pos (inner h k chs))
    (e : agree h.pfx_len pos key h.pfx ≡ true) (l : h'.pfx_len ≡ h.pfx_len)
    (m : agree h.pfx_len pos q h'.pfx ≡ agree h.pfx_len pos q h.pfx) where
  -- A child in the place of the child of the key.
  pub find_replaced :
      (chs' : ℕ → Tree) (j : ℕ)
      → IsTree P pos (inner h' k (write chs' (slot k j) ch))
      → ((p : ℕ) → p < 256 → findch null k chs' p ≡ findch null k chs p)
      → find_idx k (partial_key key (pos + h.pfx_len)) ≡ some j
      → Puts (pos + h.pfx_len + 1) key val q (find (chs (slot k j)) q version) (find ch q version)
      → Puts pos key val q
          (find (inner h k chs) q version)
          (find (inner h' k (write chs' (slot k j) ch)) q version)
  find_replaced chs' j i' s here c =
      let pk = partial_key key (pos + h.pfx_len) in
      let qk = partial_key q (pos + h.pfx_len) in
      let old : findch null k chs pk ≡ chs (slot k j) =
        findch-find_idx null k chs pk ∙ rw here refl in
      find_through P pos key val q version h h' k k chs (write chs' (slot k j) ch) ch i i' e l m
        (write-findch null k chs' pk j ch i.2 here qk
          ∙ ap (λ (t : Tree). if qk == pk then ch else t)
              (s qk (partial_key-lt q (pos + h.pfx_len))))
        (rw old c)

  -- A child where there was none.
  pub find_with_child :
      (r : Kind × (ℕ → Tree))
      → IsTree P pos (inner h' r.0 r.1)
      → Inserted null k chs (partial_key key (pos + h.pfx_len)) ch r
      → find_idx k (partial_key key (pos + h.pfx_len)) ≡ none
      → Puts (pos + h.pfx_len + 1) key val q none (find ch q version)
      → Puts pos key val q (find (inner h k chs) q version) (find (inner h' r.0 r.1) q version)
  find_with_child r i' n nowhere c =
      let pk = partial_key key (pos + h.pfx_len) in
      let qk = partial_key q (pos + h.pfx_len) in
      let old : findch null k chs pk ≡ null = findch-find_idx null k chs pk ∙ rw nowhere refl in
      find_through P pos key val q version h h' k r.0 chs r.1 ch i i' e l m (n.finds qk)
        (rw (old, find_null q version) c)

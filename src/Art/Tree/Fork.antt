-- ===== src/Art/Tree/Fork.antt =====
-- `node_fork_inplace` and `node_fork_cow` of lib/trees/art: the new parent of two nodes.
use contrees_fat_node.Prelude.{
  ℕ, zero, suc, ◌+◌, ◌-◌, ◌≤◌, ◌<◌, ◌≡◌, ◌≢◌, refl, ap, subst, sym, ◌∙◌, Bool, true, false, ◌&&◌,
  none, some, ltb, ◌==◌, if◌then◌else◌, arith,
}
use contrees_fat_node.FatValue.{FatValue, no_values, read}
use contrees_fat_node.Art.Key.{partial_key, masked}
use contrees_fat_node.Art.Key.Bytes.{partial_key-lt}
use contrees_fat_node.Art.Key.Agree.{agree, agree_append, agree_trans, agree_sym, agree-masked}
use contrees_fat_node.Art.Key.Prefix.{Parts}
use contrees_fat_node.Art.Index.{node4, position}
use contrees_fat_node.Art.Node.{findch, write}
use contrees_fat_node.Art.Node.Laws.{IsKind}
use contrees_fat_node.Art.Node.Used.{InUse}
use contrees_fat_node.Art.Node.Every.{write_all}
use contrees_fat_node.Art.Tree.{
  Header, Tree, null, leaf, inner, new_leaf, new_header, find, advance, fork_keys, fork_chs,
  fork_node,
}
use contrees_fat_node.Art.Tree.Shape.{Present, IsTree, find_inner, find_leaf, find_null}

-- The children of the new node.
fork_findch :
    (pk0 pk1 q : ℕ) (old new : Tree)
    → pk1 ≢ pk0
    → findch null
        (node4 (fork_keys (if ltb pk1 pk0 then 1 else 0) pk0 pk1))
        (fork_chs (if ltb pk1 pk0 then 1 else 0) old new)
        q
      ≡ (if q == pk1 then new else (if q == pk0 then old else null))
unfolding findch fork_keys fork_chs write position
fork_findch pk0 pk1 q old new n = ground arith

fork-IsKind :
    (pk0 pk1 : ℕ)
    → pk0 < 256
    → pk1 < 256
    → pk1 ≢ pk0
    → IsKind (node4 (fork_keys (if ltb pk1 pk0 then 1 else 0) pk0 pk1))
unfolding fork_keys
fork-IsKind pk0 pk1 a b n = ground arith

fork-InUse :
    (b : Bool) (pk0 pk1 : ℕ) (old new : Tree)
    → Present old
    → Present new
    → let idx : ℕ = if b then 1 else 0 in
      InUse Present (node4 (fork_keys idx pk0 pk1)) (fork_chs idx old new)
unfolding fork_keys fork_chs write
fork-InUse true pk0 pk1 old new p r zero h = r
fork-InUse true pk0 pk1 old new p r (suc zero) h = p
fork-InUse true pk0 pk1 old new p r (suc (suc j)) h = absurd (omega arith)
fork-InUse false pk0 pk1 old new p r zero h = p
fork-InUse false pk0 pk1 old new p r (suc zero) h = r
fork-InUse false pk0 pk1 old new p r (suc (suc j)) h = absurd (omega arith)

abbrev pub header : Tree → Header
header null = record { ver = 0; pfx_ofs = 0; pfx_len = 0; pfx = 0 }
header (leaf h val fat) = h
header (inner h k chs) = h

-- A node without the first `n` bytes of its prefix.
pub advance-IsTree :
    (P : ℕ → FatValue → Type 0) (pos n : ℕ) (t : Tree)
    → n ≤ (header t).pfx_len
    → IsTree P pos t
    → IsTree P (pos + n) (advance n t)
unfolding advance new_header
advance-IsTree P pos n null b i = omega arith
advance-IsTree P pos n (leaf h val fat) b i = (omega (arith, i.0), omega (arith, i.1), i.2)
advance-IsTree P pos n (inner h k chs) b i =
    let e : pos + h.pfx_len + 1 ≡ pos + n + (h.pfx_len - n) + 1 = omega arith in
    (
      omega (arith, i.0),
      omega (arith, i.1),
      i.2,
      λ j. subst (λ (m : ℕ). IsTree P m (chs j)) e (i.3 j),
      i.4,
    )

pub advance-Present : (n : ℕ) (t : Tree) → Present t → Present (advance n t)
unfolding advance
advance-Present n null p = p
advance-Present n (leaf h val fat) p = tt
advance-Present n (inner h k chs) p = tt

agree_split :
    (n len pos q pfx : ℕ)
    → n ≤ len
    → agree len pos q pfx ≡ (agree n pos q pfx && agree (len - n) (pos + n) q pfx)
agree_split n len pos q pfx b =
    let e : len ≡ n + (len - n) = omega arith in
    ap (λ (m : ℕ). agree m pos q pfx) e ∙ agree_append n (len - n) pos q pfx

-- What those bytes were is all that a search there lost.
pub find-advance :
    (P : ℕ → FatValue → Type 0) (pos n : ℕ) (t : Tree) (q version : ℕ)
    → n ≤ (header t).pfx_len
    → IsTree P pos t
    → find t q version
      ≡ (if agree n pos q (header t).pfx then find (advance n t) q version else none)
unfolding advance new_header
find-advance P pos n null q version b i = rw (find_null q version) (ground arith)
find-advance P pos n (leaf h val fat) q version b i =
    let j = advance-IsTree P pos n (leaf h val fat) b i in
    find_leaf P pos h val fat q version i
    ∙ rw
        (
          find_leaf P (pos + n) (header (advance n (leaf h val fat))) val fat q version j,
          agree_split n h.pfx_len pos q h.pfx b,
        )
        (ground arith)
find-advance P pos n (inner h k chs) q version b i =
    let j = advance-IsTree P pos n (inner h k chs) b i in
    let e : pos + n + (h.pfx_len - n) ≡ pos + h.pfx_len = omega arith in
    let m : masked h.pfx (h.pfx_ofs + n) (h.pfx_len - n) ≡ masked h.pfx (pos + n) (h.pfx_len - n) =
      ap (λ (o : ℕ). masked h.pfx (o + n) (h.pfx_len - n)) i.0 in
    find_inner P pos h k chs q version i
    ∙ rw
        (
          find_inner P (pos + n) (header (advance n (inner h k chs))) k chs q version j,
          agree_split n h.pfx_len pos q h.pfx b,
          e,
          m,
          agree-masked h.pfx (pos + n) (h.pfx_len - n) (h.pfx_len - n) q (omega arith)
              (omega (arith, i.1)),
        )
        (ground arith)

-- The bytes before, at and after `pos + n`.
pub agree_split3 :
    (n len pos q key : ℕ)
    → n < len
    → agree len pos q key ≡ (
        agree n pos q key
        && ((partial_key q (pos + n) == partial_key key (pos + n))
            && agree (len - suc n) (pos + n + 1) q key))
unfolding agree
agree_split3 n len pos q key b =
    let e : len - n ≡ suc (len - suc n) = omega arith in
    let f : suc (pos + n) ≡ pos + n + 1 = omega arith in
    agree_split n len pos q key (omega arith) ∙ rw (e, f) refl

agree_next :
    (n pos q key : ℕ)
    → agree (n + 1) pos q key
      ≡ (agree n pos q key && (partial_key q (pos + n) == partial_key key (pos + n)))
unfolding agree
agree_next n pos q key = agree_append n 1 pos q key ∙ ground arith

find_if :
    (b : Bool) (s t : Tree) (q version : ℕ)
    → find (if b then s else t) q version ≡ (if b then find s q version else find t q version)
find_if true s t q version = refl
find_if false s t q version = refl

module _ (P : ℕ → FatValue → Type 0) (ver pos pm key val len pfx : ℕ) (old : Tree)
    (b : pos + len ≤ 8) (d : Parts pos len pfx key pm) (i : IsTree P (pos + pm + 1) old)
    (there : Present old) (p : P val no_values) where
  new_leaf-IsTree : IsTree P (pos + pm + 1) (new_leaf ver (pos + pm + 1) key val)
  unfolding new_leaf
  new_leaf-IsTree = (refl, omega (arith, d.inside), p)

  new_leaf-Present : Present (new_leaf ver (pos + pm + 1) key val)
  unfolding new_leaf
  new_leaf-Present = tt

  find-new_leaf :
      (q version : ℕ)
      → read no_values val version ≡ val
      → find (new_leaf ver (pos + pm + 1) key val) q version
        ≡ (if agree (8 - pos - suc pm) (pos + pm + 1) q key then some val else none)
  unfolding new_leaf
  find-new_leaf q version r =
      let e : 8 - (pos + pm + 1) ≡ 8 - pos - suc pm = omega (arith, d.inside) in
      find_leaf P (pos + pm + 1) _ val no_values q version new_leaf-IsTree ∙ rw (e, r) refl

  pub fork-IsTree : IsTree P pos (fork_node ver pos pm key val (partial_key pfx (pos + pm)) old)
  unfolding fork_node fork_chs new_header
  fork-IsTree = (
    refl,
    omega (arith, d.inside),
    fork-IsKind (partial_key pfx (pos + pm)) (partial_key key (pos + pm))
        (partial_key-lt pfx (pos + pm)) (partial_key-lt key (pos + pm)) d.differ,
    write_all (IsTree P (pos + pm + 1)) _ _ _
        (write_all (IsTree P (pos + pm + 1)) _ _ _ (λ j. omega (arith, d.inside)) i)
        new_leaf-IsTree,
    fork-InUse (ltb (partial_key key (pos + pm)) (partial_key pfx (pos + pm)))
        (partial_key pfx (pos + pm)) (partial_key key (pos + pm)) old _ there new_leaf-Present,
  )

  pub find_fork :
      (q version : ℕ)
      → read no_values val version ≡ val
      → find (fork_node ver pos pm key val (partial_key pfx (pos + pm)) old) q version ≡ (
          if agree (8 - pos) pos q key
          then some val
          else (if agree (pm + 1) pos q pfx then find old q version else none))
  unfolding fork_node new_header
  find_fork q version r =
      let pk0 = partial_key pfx (pos + pm) in
      let pk1 = partial_key key (pos + pm) in
      let same : agree pm pos q pfx ≡ agree pm pos q key =
        agree_sym pm pos q pfx
        ∙ sym (agree_trans pm pos key pfx q d.before)
        ∙ agree_sym pm pos key q in
      find_inner P pos _ _ _ q version fork-IsTree
      ∙ rw
          (
            agree-masked key pos pm pm q (omega arith) (omega (arith, d.inside)),
            fork_findch pk0 pk1 (partial_key q (pos + pm)) old (new_leaf ver (pos + pm + 1) key val)
                d.differ,
            agree_split3 pm (8 - pos) pos q key (omega (arith, d.inside)),
            agree_next pm pos q pfx,
            same,
            find_if (partial_key q (pos + pm) == pk1) (new_leaf ver (pos + pm + 1) key val)
                (if partial_key q (pos + pm) == pk0 then old else null) q version,
            find_if (partial_key q (pos + pm) == pk0) old null q version,
            find_null q version,
            find-new_leaf q version r,
          )
          (ground (arith, d.differ))

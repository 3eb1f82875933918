-- ===== src/Art/Tree/Shape.antt =====
-- Well formed trees of lib/trees/art, and `find` through a node.
use contrees_fat_node.Prelude.{
  ℕ, ◌+◌, ◌≤◌, ◌<◌, ◌≡◌, refl, ap, ◌∙◌, ltb, leb, sym, true, not, none, some, if◌then◌else◌, arith,
  Option-cases, inl, inr,
}
use contrees_fat_node.FatValue.{FatValue, read}
use contrees_fat_node.Art.Key.{partial_key, prefix_match}
use contrees_fat_node.Art.Key.Agree.{agree}
use contrees_fat_node.Art.Key.Prefix.{prefix_match-agree, Parts, prefix_match-Parts}
use contrees_fat_node.Art.Index.{Kind, find_idx}
use contrees_fat_node.Art.Node.{findch}
use contrees_fat_node.Art.Node.Laws.{IsKind}
use contrees_fat_node.Art.Node.Used.{InUse}
use contrees_fat_node.Art.Node.Children.{findch-find_idx}
use contrees_fat_node.Art.Tree.{Header, Tree, null, leaf, inner, match_prefix, departs, find}

-- Not a null pointer.
abbrev pub Present : Tree → Type 0
Present null = ⊥
Present (leaf h val fat) = Unit {0}
Present (inner h k chs) = Unit {0}

-- A tree below the first `pos` bytes of its keys, with a condition on the values of its leaves. The children
-- that an inner node counts are not null.
abbrev pub IsTree : (ℕ → FatValue → Type 0) → ℕ → Tree → Type 0
IsTree P pos null = pos ≤ 8
IsTree P pos (leaf h val fat) = (h.pfx_ofs ≡ pos) × (pos + h.pfx_len ≡ 8) × P val fat
IsTree P pos (inner h k chs) =
    (h.pfx_ofs ≡ pos)
    × (pos + h.pfx_len < 8)
    × IsKind k
    × ((i : ℕ) → IsTree P (pos + h.pfx_len + 1) (chs i))
    × InUse Present k chs

less_not : (a b : ℕ) → ltb a b ≡ not (leb b a)
less_not a b = ground arith

-- The prefix of a node against a key.
pub departs-agree :
    (h : Header) (key : ℕ)
    → h.pfx_ofs + h.pfx_len ≤ 8
    → departs h key ≡ not (agree h.pfx_len h.pfx_ofs key h.pfx)
unfolding departs match_prefix
departs-agree h key b =
    less_not (prefix_match h.pfx_ofs h.pfx_len h.pfx key) h.pfx_len
    ∙ ap not (prefix_match-agree h.pfx_ofs h.pfx_len h.pfx key h.pfx_len b (omega arith))

pub departs-Parts :
    (h : Header) (key : ℕ)
    → h.pfx_ofs + h.pfx_len ≤ 8
    → departs h key ≡ true
    → Parts h.pfx_ofs h.pfx_len h.pfx key (match_prefix h key)
unfolding departs match_prefix
departs-Parts h key b e = prefix_match-Parts h.pfx_ofs h.pfx_len h.pfx key b e

-- `find` at an inner node: the prefix, then the child.
pub find_inner :
    (P : ℕ → FatValue → Type 0) (pos : ℕ) (h : Header) (k : Kind) (chs : ℕ → Tree) (q version : ℕ)
    → IsTree P pos (inner h k chs)
    → find (inner h k chs) q version ≡ (
        if agree h.pfx_len pos q h.pfx
        then find (findch null k chs (partial_key q (pos + h.pfx_len))) q version
        else none)
unfolding find
find_inner P pos h k chs q version t =
    let pkey = partial_key q (h.pfx_ofs + h.pfx_len) in
    rw (sym t.0, departs-agree h q (omega (arith, t.0, t.1)), findch-find_idx null k chs pkey)
      (elim (Option-cases (find_idx k pkey)) [
        | inl nowhere ↦ rw nowhere (ground arith)
        | inr (i, here) ↦ rw here (ground arith)
      ])

pub find_leaf :
    (P : ℕ → FatValue → Type 0) (pos : ℕ) (h : Header) (val : ℕ) (fat : FatValue) (q version : ℕ)
    → IsTree P pos (leaf h val fat)
    → find (leaf h val fat) q version
      ≡ (if agree h.pfx_len pos q h.pfx then some (read fat val version) else none)
unfolding find
find_leaf P pos h val fat q version t =
    rw (sym t.0, departs-agree h q (omega (arith, t.0, t.1))) (ground arith)

pub find_null : (q version : ℕ) → find null q version ≡ none
unfolding find
find_null q version = refl

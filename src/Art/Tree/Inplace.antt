-- ===== src/Art/Tree/Inplace.antt =====
-- `update_inplace` and `build` of lib/trees/art against `find`.
use contrees_fat_node.Prelude.{
  ℕ, ◌+◌, ◌-◌, ◌≤◌, ◌≡◌, refl, ap, subst, sym, ◌∙◌, true, none, some, if◌then◌else◌, arith,
  Bool-cases, Option-cases, inl, inr, if_both,
}
use contrees_fat_node.FatValue.{FatValue, no_values, read}
use contrees_fat_node.Art.Key.{partial_key}
use contrees_fat_node.Art.Key.Bytes.{partial_key-lt}
use contrees_fat_node.Art.Key.Agree.{agree}
use contrees_fat_node.Art.Key.Prefix.{Parts}
use contrees_fat_node.Art.Index.{find_idx, slot}
use contrees_fat_node.Art.Node.{write, insert_inplace}
use contrees_fat_node.Art.Node.Insert.{insert_inplace-Inserted}
use contrees_fat_node.Art.Node.Used.{write-InUse, insert_inplace-InUse}
use contrees_fat_node.Art.Node.Every.{write_all, insert_inplace_all}
use contrees_fat_node.Art.Tree.{
  Header, Tree, null, leaf, inner, departs, match_prefix, new_leaf, fork_node, find, advance,
  node_fork_inplace, extended, update_inplace,
}
use contrees_fat_node.Art.Tree.Shape.{Present, IsTree, departs-Parts, find_leaf, find_null}
use contrees_fat_node.Art.Tree.Through.{
  Puts, extended-IsTree, extended_pfx, along-agree, find_own_leaf, find_replaced, find_with_child,
}
use contrees_fat_node.Art.Tree.Fork.{
  header, advance-IsTree, advance-Present, find-advance, fork-IsTree, find_fork,
}

-- The leaf has no values but its own.
abbrev pub Plain : ℕ → FatValue → Type 0
Plain val fat = (base version : ℕ) → read fat base version ≡ base

pub Plain-no_values : (val : ℕ) → Plain val no_values
unfolding read
Plain-no_values val base version = refl

-- A node that parts from the key.
fork_inplace-Puts :
    (pos key val : ℕ) (t : Tree)
    → pos + (header t).pfx_len ≤ 8
    → (header t).pfx_ofs ≡ pos
    → departs (header t) key ≡ true
    → Present t
    → IsTree Plain pos t
    → IsTree Plain pos (node_fork_inplace (header t) t pos (match_prefix (header t) key) key val)
      × ((q version : ℕ)
          → Puts pos key val q (find t q version) (
              find
                (node_fork_inplace (header t) t pos (match_prefix (header t) key) key val)
                q
                version))
unfolding node_fork_inplace
fork_inplace-Puts pos key val t b o e there i =
    let h = header t in
    let pm = match_prefix h key in
    let d : Parts pos h.pfx_len h.pfx key pm =
      subst (λ (n : ℕ). Parts n h.pfx_len h.pfx key pm) o
        (departs-Parts h key (omega (arith, o)) e) in
    let a : IsTree Plain (pos + (pm + 1)) (advance (pm + 1) t) =
      advance-IsTree Plain pos (pm + 1) t (omega (arith, d.inside)) i in
    let s : pos + (pm + 1) ≡ pos + pm + 1 = omega arith in
    let a' = subst (λ (n : ℕ). IsTree Plain n (advance (pm + 1) t)) s a in
    let z = Plain-no_values val in
    let old = advance-Present (pm + 1) t there in
    rw o (
      fork-IsTree Plain 0 pos pm key val h.pfx_len h.pfx (advance (pm + 1) t) b d a' old z,
      λ q version.
          find_fork Plain 0 pos pm key val h.pfx_len h.pfx (advance (pm + 1) t) b d a' old z q
            version (z val version)
          ∙ ap (λ r. if agree (8 - pos) pos q key then some val else r)
              (sym (find-advance Plain pos (pm + 1) t q version (omega (arith, d.inside)) i)),
    )

new_leaf-Puts :
    (pos key val : ℕ)
    → pos ≤ 8
    → IsTree Plain pos (new_leaf 0 pos key val)
      × ((q version : ℕ) → Puts pos key val q none (find (new_leaf 0 pos key val) q version))
unfolding new_leaf
new_leaf-Puts pos key val b =
    let i : IsTree Plain pos (new_leaf 0 pos key val) = (refl, omega arith, Plain-no_values val) in
    (
      i,
      λ q version.
          find_leaf Plain pos _ val no_values q version i
          ∙ rw (Plain-no_values val val version) refl,
    )

pub new_leaf-Present : (ver pos key val : ℕ) → Present (new_leaf ver pos key val)
unfolding new_leaf
new_leaf-Present ver pos key val = tt

fork_inplace-Present :
    (h : Header) (t : Tree) (pos pm key val : ℕ) → Present (node_fork_inplace h t pos pm key val)
unfolding node_fork_inplace fork_node
fork_inplace-Present h t pos pm key val = tt

-- An update leaves no null.
update_inplace-Present : (pos key val : ℕ) (t : Tree) → Present (update_inplace t pos key val)
unfolding update_inplace
update_inplace-Present pos key val null = new_leaf-Present 0 pos key val
update_inplace-Present pos key val (leaf h old fat) =
    if_both Present (departs h key) _ _
      (fork_inplace-Present h (leaf h old fat) pos (match_prefix h key) key val) tt
update_inplace-Present pos key val (inner h k chs) = elim (Bool-cases (departs h key)) [
  | inl apart ↦ rw apart (fork_inplace-Present h (inner h k chs) pos (match_prefix h key) key val)
  | inr along ↦ rw along (elim (Option-cases (find_idx k (partial_key key (pos + h.pfx_len)))) [
    | inl nowhere ↦ rw nowhere tt
    | inr (j, here) ↦ rw here tt
  ])
]

pub update_inplace-Puts :
    (pos key val : ℕ) (t : Tree)
    → IsTree Plain pos t
    → IsTree Plain pos (update_inplace t pos key val)
      × ((q version : ℕ)
          → Puts pos key val q (find t q version) (find (update_inplace t pos key val) q version))
unfolding update_inplace
update_inplace-Puts pos key val null i =
    let new = new_leaf-Puts pos key val i in
    (new.0, λ q version. rw (find_null q version) (new.1 q version))
update_inplace-Puts pos key val (leaf h old fat) i = elim (Bool-cases (departs h key)) [
  | inl apart ↦
      rw apart (fork_inplace-Puts pos key val (leaf h old fat) (omega (arith, i.1)) i.0 apart tt i)
  | inr along ↦
      let e = along-agree pos h key i.0 (omega (arith, i.1)) along in
      rw along (
        i,
        λ q version.
            find_own_leaf Plain pos key h val fat q version i e
            ∙ rw (find_own_leaf Plain pos key h old fat q version i e, i.2 val version)
                (ground arith),
      )
]
update_inplace-Puts pos key val (inner h k chs) i = elim (Bool-cases (departs h key)) [
  | inl apart ↦
      rw apart (fork_inplace-Puts pos key val (inner h k chs) (omega (arith, i.1)) i.0 apart tt i)
  | inr along ↦
      let pk = partial_key key (pos + h.pfx_len) in
      let below = pos + h.pfx_len + 1 in
      let e = along-agree pos h key i.0 (omega (arith, i.1)) along in
      rw along (elim (Option-cases (find_idx k pk)) [
        | inl nowhere ↦
            let new = new_leaf-Puts below key val (omega (arith, i.1)) in
            let r = insert_inplace null k chs pk (new_leaf 0 below key val) in
            let n =
              insert_inplace-Inserted null pk (new_leaf 0 below key val) chs
                (partial_key-lt key (pos + h.pfx_len)) k i.2 nowhere in
            let kept : IsTree Plain pos (inner h r.0 r.1) = (
              i.0,
              i.1,
              n.well_formed,
              insert_inplace_all (IsTree Plain below) null (omega (arith, i.1)) chs i.3 k pk _
                  new.0,
              insert_inplace-InUse Present null pk chs _ (new_leaf-Present 0 below key val) k i.4,
            ) in
            let x = extended-IsTree Plain pos 0 h k r.0 r.1 kept in
            rw nowhere (
              x,
              λ q version.
                  find_with_child Plain pos key val q version h (extended 0 k h) k chs
                    (new_leaf 0 below key val) i e (extended_pfx pos 0 q h k i.0 i.1).0
                    (extended_pfx pos 0 q h k i.0 i.1).1 r x n nowhere (new.1 q version),
            )
        | inr (j, here) ↦
            let c = update_inplace-Puts below key val (chs (slot k j)) (i.3 (slot k j)) in
            let kept : IsTree Plain pos
                (inner h k (write chs (slot k j) (update_inplace (chs (slot k j)) below key val))) =
              (
                i.0,
                i.1,
                i.2,
                write_all (IsTree Plain below) chs (slot k j) _ i.3 c.0,
                write-InUse Present k chs (slot k j) _ i.4
                    (λ u. update_inplace-Present below key val (chs (slot k j))),
              ) in
            rw here (
              kept,
              λ q version.
                  find_replaced Plain pos key val q version h h k chs _ i e refl refl chs j kept
                    (λ p b. refl) here (c.1 q version),
            )
      ])
]

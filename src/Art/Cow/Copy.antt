-- ===== src/Art/Cow/Copy.antt =====
-- The copies of nodes in lib/trees/art, whose leaves have logs: `node_copy` with `copych`.
use contrees_fat_node.Prelude.{ℕ, ◌+◌, ◌≤◌, ◌<◌, ◌≡◌, refl, sym, ◌∙◌, List, [], ◌∷◌, arith, le→leb}
use contrees_fat_node.FatValue.{Record, FatValue, no_values, read}
use contrees_fat_node.FatValue.Laws.{newest, IsLog, read_lem, no_values-IsLog}
use contrees_fat_node.Art.Key.{partial_key}
use contrees_fat_node.Art.Key.Bytes.{partial_key-lt}
use contrees_fat_node.Art.Node.{copych}
use contrees_fat_node.Art.Node.Children.{copych-findch}
use contrees_fat_node.Art.Node.Used.{copych-InUse}
use contrees_fat_node.Art.Node.Every.{copych_all}
use contrees_fat_node.Art.Tree.{Tree, null, leaf, inner, find, advance}
use contrees_fat_node.Art.Tree.Shape.{Present, IsTree, find_inner, find_leaf}
use contrees_fat_node.Art.Tree.Fork.{header}
use contrees_fat_node.Art.Tree.Inplace.{Plain-no_values}
use contrees_fat_node.Art.Cow.{node_copy, copy_children}

abbrev pub Below : ℕ → List Record → Type 0
Below n [] = Unit {0}
Below n (r ∷ rs) = (r.version < n) × Below n rs

-- A leaf whose records have versions below `n`.
pub record Logged (slots n val : ℕ) (fat : FatValue) : Type 0 where
  pub log : List Record
  pub is_log : IsLog slots fat log
  pub below : Below n log

newest-Below :
    (n v w base : ℕ) (log : List Record)
    → n ≤ v
    → n ≤ w
    → Below n log
    → newest v base log ≡ newest w base log
unfolding newest
newest-Below n v w base [] h j b = refl
newest-Below n v w base (r ∷ rs) h j b =
    rw (le→leb r.version v (omega arith), le→leb r.version w (omega arith))
      (newest-Below n v w r.value rs h j b.1)

-- All snapshots from `n` on read the same.
pub read-Logged :
    (slots n val base v : ℕ) (fat : FatValue)
    → n ≤ v
    → Logged slots n val fat
    → read fat base v ≡ read fat base n
read-Logged slots n val base v fat h l =
    read_lem slots fat l.log base v l.is_log
    ∙ newest-Below n v n base l.log h (omega arith) l.below
    ∙ sym (read_lem slots fat l.log base n l.is_log)

pub no_values-Logged : (slots n val : ℕ) → 2 ≤ slots → Logged slots n val no_values
no_values-Logged slots n val h = record { log = []; is_log = no_values-IsLog slots h; below = tt }

-- `copych` after `node_copy`.
abbrev pub copied : Tree → ℕ → Tree
copied t ver = copy_children (node_copy t ver) t

pub copied-Present : (t : Tree) (ver : ℕ) → Present t → Present (copied t ver)
unfolding copy_children node_copy
copied-Present null ver p = p
copied-Present (leaf h val fat) ver p = tt
copied-Present (inner h k chs) ver p = tt

module _ (slots n : ℕ) (s : 2 ≤ slots) where
  pub copied-IsTree :
      (pos : ℕ) (t : Tree)
      → IsTree (Logged slots n) pos t
      → IsTree (Logged slots n) pos (copied t n)
  unfolding copy_children node_copy
  copied-IsTree pos null i = i
  copied-IsTree pos (leaf h val fat) i = (i.0, i.1, no_values-Logged slots n _ s)
  copied-IsTree pos (inner h k chs) i = (
    i.0,
    i.1,
    i.2,
    copych_all (IsTree (Logged slots n) (pos + h.pfx_len + 1)) null (omega (arith, i.1)) chs i.3 k,
    copych-InUse Present null k chs i.4,
  )

  -- The readers from the version of the copy on see the same.
  pub find-copied :
      (pos : ℕ) (t : Tree) (q v : ℕ)
      → n ≤ v
      → IsTree (Logged slots n) pos t
      → find (copied t n) q v ≡ find t q v
  unfolding copy_children node_copy
  find-copied pos null q v h i = refl
  find-copied pos (leaf g val fat) q v h i =
      let P = Logged slots n in
      find_leaf P pos (record g { ver = n }) (read fat val n) no_values q v
        (copied-IsTree pos (leaf g val fat) i)
      ∙ rw
          (
            find_leaf P pos g val fat q v i,
            Plain-no_values val (read fat val n) v,
            read-Logged slots n val val v fat h i.2,
          )
          refl
  find-copied pos (inner g k chs) q v h i =
      let P = Logged slots n in
      find_inner P pos (record g { ver = n }) k (copych null k chs) q v
        (copied-IsTree pos (inner g k chs) i)
      ∙ rw
          (
            find_inner P pos g k chs q v i,
            copych-findch null k chs i.2 (partial_key q (pos + g.pfx_len))
                (partial_key-lt q (pos + g.pfx_len)),
          )
          refl

-- A fork copies the children after it has cut the prefix.
pub copy-advance :
    (m ver : ℕ) (t : Tree)
    → copy_children (advance m (node_copy t ver)) t ≡ advance m (copied t ver)
unfolding copy_children node_copy advance
copy-advance m ver null = refl
copy-advance m ver (leaf h val fat) = refl
copy-advance m ver (inner h k chs) = refl

pub header-copied :
    (t : Tree) (ver : ℕ)
    → ((header (copied t ver)).pfx_len ≡ (header t).pfx_len)
      × ((header (copied t ver)).pfx ≡ (header t).pfx)
unfolding copy_children node_copy
header-copied null ver = (refl, refl)
header-copied (leaf h val fat) ver = (refl, refl)
header-copied (inner h k chs) ver = (refl, refl)

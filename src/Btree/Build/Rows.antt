-- ===== src/Btree/Build/Rows.antt =====
-- The nodes of one level of a tree that lib/trees/btree/build.hpp builds, from left to right.
use contrees_fat_node.Prelude.{
  ℕ, suc, ◌≤◌, ◌≡◌, refl, ap, subst, sym, ◌∙◌, Option, none, List, [], ◌∷◌, ◌++◌, length, arith,
  append_assoc, append-nil,
}
use contrees_fat_node.SortedMap.{Entry, SortedIn, SortedIn-mono}
use contrees_fat_node.Btree.Node.{Tree, size}
use contrees_fat_node.Btree.Shape.{
  entries, entries_kids, content-none, Ordered, OrderedKids, Filled, FilledKids,
}
use contrees_fat_node.Btree.Leaves.{LeafPred, Leaves, LeavesKids}
use contrees_fat_node.Btree.Build.{kids_from, branches, leaves}
use contrees_fat_node.Btree.Build.Runs.{Fit, concat}

-- The leaves are as `new_leaf(0, n)` makes them.
abbrev pub Fresh : LeafPred
Fresh ver es d = (ver ≡ 0) × (d ≡ none)

-- The key of the first node, or the bound behind the last.
abbrev pub first_key : ℕ → List (ℕ × Tree) → ℕ
first_key hi [] = hi
first_key hi ((key, t) ∷ row) = key

-- Each node has `h` levels below it and the keys from its own on, below that of the next.
abbrev pub Row : ℕ → ℕ → List (ℕ × Tree) → Type 0
Row h hi [] = Unit {0}
Row h hi ((key, t) ∷ row) =
    (key ≤ first_key hi row)
    × Ordered key (first_key hi row) t
    × Filled h t
    × Leaves Fresh t
    × Row h hi row

abbrev pub row_entries : Option ℕ → List (ℕ × Tree) → List Entry
row_entries w [] = []
row_entries w ((key, t) ∷ row) = entries w t ++ row_entries w row

pub row_entries-append :
    (w : Option ℕ) (xs ys : List (ℕ × Tree))
    → row_entries w (xs ++ ys) ≡ row_entries w xs ++ row_entries w ys
row_entries-append w [] ys = refl
row_entries-append w ((key, t) ∷ xs) ys =
    ap (λ es. entries w t ++ es) (row_entries-append w xs ys)
    ∙ sym (append_assoc (entries w t) (row_entries w xs) (row_entries w ys))

first_key-append :
    (hi : ℕ) (xs ys : List (ℕ × Tree)) → first_key hi (xs ++ ys) ≡ first_key (first_key hi ys) xs
first_key-append hi [] ys = refl
first_key-append hi ((key, t) ∷ xs) ys = refl

pub Row-left :
    (h hi : ℕ) (xs ys : List (ℕ × Tree)) → Row h hi (xs ++ ys) → Row h (first_key hi ys) xs
Row-left h hi [] ys r = tt
Row-left h hi ((key, t) ∷ []) ys r = (r.0, r.1, r.2, r.3, tt)
Row-left h hi ((key, t) ∷ (key', t') ∷ xs) ys r =
    (r.0, r.1, r.2, r.3, Row-left h hi ((key', t') ∷ xs) ys r.4)

pub Row-right : (h hi : ℕ) (xs ys : List (ℕ × Tree)) → Row h hi (xs ++ ys) → Row h hi ys
Row-right h hi [] ys r = r
Row-right h hi ((key, t) ∷ xs) ys r = Row-right h hi xs ys r.4

pub first_key-le : (h hi : ℕ) (row : List (ℕ × Tree)) → Row h hi row → first_key hi row ≤ hi
first_key-le h hi [] r = omega arith
first_key-le h hi ((key, t) ∷ row) r = omega (arith, r.0, first_key-le h hi row r.4)

-- The children of a node of the next level.
pub kids_from-OrderedKids :
    (h hi key : ℕ) (t : Tree) (row : List (ℕ × Tree))
    → Row h hi ((key, t) ∷ row)
    → OrderedKids key hi (kids_from t row)
unfolding kids_from
kids_from-OrderedKids h hi key t [] r = r.1
kids_from-OrderedKids h hi key t ((key', t') ∷ row) r =
    (r.0, first_key-le h hi ((key', t') ∷ row) r.4, r.1, kids_from-OrderedKids h hi key' t' row r.4)

pub kids_from-FilledKids :
    (h hi key : ℕ) (t : Tree) (row : List (ℕ × Tree))
    → Row h hi ((key, t) ∷ row)
    → FilledKids h (kids_from t row) × LeavesKids Fresh (kids_from t row)
unfolding kids_from
kids_from-FilledKids h hi key t [] r = (r.2, r.3)
kids_from-FilledKids h hi key t ((key', t') ∷ row) r =
    let rest = kids_from-FilledKids h hi key' t' row r.4 in ((r.2, rest.0), (r.3, rest.1))

pub size-kids_from : (t : Tree) (row : List (ℕ × Tree)) → size (kids_from t row) ≡ length row
unfolding kids_from size
size-kids_from t [] = refl
size-kids_from t ((key, t') ∷ row) = ap suc (size-kids_from t' row)

pub entries-kids_from :
    (w : Option ℕ) (t : Tree) (row : List (ℕ × Tree))
    → entries_kids w (kids_from t row) ≡ entries w t ++ row_entries w row
unfolding kids_from
entries-kids_from w t [] = sym (append-nil (entries w t))
entries-kids_from w t ((key, t') ∷ row) = ap (λ es. entries w t ++ es) (entries-kids_from w t' row)

first_key-branches :
    (hi : ℕ) (runs : List (List (ℕ × Tree)))
    → Fit runs
    → first_key hi (branches runs) ≡ first_key hi (concat runs)
unfolding branches
first_key-branches hi [] f = refl
first_key-branches hi ([] ∷ runs) f = absurd (omega (arith, f.0))
first_key-branches hi (((key, t) ∷ chs) ∷ runs) f = refl

-- The next level.
pub branches-Row :
    (h hi : ℕ) (runs : List (List (ℕ × Tree)))
    → Fit runs
    → Row h hi (concat runs)
    → Row (suc h) hi (branches runs)
unfolding branches
branches-Row h hi [] f r = tt
branches-Row h hi ([] ∷ runs) f r = absurd (omega (arith, f.0))
branches-Row h hi (((key, t) ∷ chs) ∷ runs) f r =
    let run : Row h (first_key hi (concat runs)) ((key, t) ∷ chs) =
      Row-left h hi ((key, t) ∷ chs) (concat runs) r in
    let e = first_key-branches hi runs f.2 in
    let n = size-kids_from t chs in
    let k = kids_from-FilledKids h (first_key hi (concat runs)) key t chs run in
    (
      omega (arith, e, first_key-le h (first_key hi (concat runs)) ((key, t) ∷ chs) run),
      subst (λ (n : ℕ). OrderedKids key n (kids_from t chs)) (sym e)
          (kids_from-OrderedKids h (first_key hi (concat runs)) key t chs run),
      (omega (arith, n, f.0), omega (arith, n, f.1), k.0),
      k.1,
      branches-Row h hi runs f.2 (Row-right h hi ((key, t) ∷ chs) (concat runs) r),
    )

pub row_entries-branches :
    (w : Option ℕ) (runs : List (List (ℕ × Tree)))
    → Fit runs
    → row_entries w (branches runs) ≡ row_entries w (concat runs)
unfolding branches
row_entries-branches w [] f = refl
row_entries-branches w ([] ∷ runs) f = absurd (omega (arith, f.0))
row_entries-branches w (((key, t) ∷ chs) ∷ runs) f =
    ap (λ es. es ++ row_entries w (branches runs)) (entries-kids_from w t chs)
    ∙ ap (λ es. row_entries w ((key, t) ∷ chs) ++ es) (row_entries-branches w runs f.2)
    ∙ sym (row_entries-append w ((key, t) ∷ chs) (concat runs))

pub length-branches :
    (runs : List (List (ℕ × Tree))) → Fit runs → length (branches runs) ≡ length runs
unfolding branches
length-branches [] f = refl
length-branches ([] ∷ runs) f = absurd (omega (arith, f.0))
length-branches (((key, t) ∷ chs) ∷ runs) f = ap suc (length-branches runs f.2)

abbrev first_entry : ℕ → List Entry → ℕ
first_entry hi [] = hi
first_entry hi ((key, val) ∷ es) = key

first_entry-bound :
    (lo hi : ℕ) (xs ys : List Entry) → lo ≤ hi → SortedIn lo hi (xs ++ ys) → lo ≤ first_entry hi ys
first_entry-bound lo hi [] [] h s = h
first_entry-bound lo hi [] ((key, val) ∷ ys) h s = s.0
first_entry-bound lo hi ((key, val) ∷ xs) ys h s =
    let b = first_entry-bound (suc key) hi xs ys (omega (arith, s.1)) s.2 in omega (arith, b, s.0)

SortedIn-left :
    (lo hi : ℕ) (xs ys : List Entry)
    → SortedIn lo hi (xs ++ ys)
    → SortedIn lo (first_entry hi ys) xs
SortedIn-left lo hi [] ys s = tt
SortedIn-left lo hi ((key, val) ∷ xs) ys s = (
  s.0,
  first_entry-bound (suc key) hi xs ys (omega (arith, s.1)) s.2,
  SortedIn-left (suc key) hi xs ys s.2,
)

SortedIn-right : (lo hi : ℕ) (xs ys : List Entry) → SortedIn lo hi (xs ++ ys) → SortedIn lo hi ys
SortedIn-right lo hi [] ys s = s
SortedIn-right lo hi ((key, val) ∷ xs) ys s =
    SortedIn-mono ys (omega (arith, s.0)) (omega arith) (SortedIn-right (suc key) hi xs ys s.2)

first_key-leaves :
    (hi : ℕ) (runs : List (List Entry))
    → Fit runs
    → first_key hi (leaves runs) ≡ first_entry hi (concat runs)
unfolding leaves
first_key-leaves hi [] f = refl
first_key-leaves hi ([] ∷ runs) f = absurd (omega (arith, f.0))
first_key-leaves hi (((key, val) ∷ es) ∷ runs) f = refl

-- The level of the leaves.
pub leaves-Row :
    (lo hi : ℕ) (runs : List (List Entry))
    → Fit runs
    → SortedIn lo hi (concat runs)
    → Row 0 hi (leaves runs)
unfolding leaves
leaves-Row lo hi [] f s = tt
leaves-Row lo hi ([] ∷ runs) f s = absurd (omega (arith, f.0))
leaves-Row lo hi (((key, val) ∷ es) ∷ runs) f s =
    let e = first_key-leaves hi runs f.2 in
    let rest = first_entry-bound (suc key) hi es (concat runs) (omega (arith, s.1)) s.2 in
    let left = SortedIn-left (suc key) hi es (concat runs) s.2 in
    (
      omega (arith, e, rest),
      (subst (λ (n : ℕ). SortedIn key n ((key, val) ∷ es)) (sym e) (omega arith, rest, left), tt),
      (f.0, f.1, omega arith),
      (refl, refl),
      leaves-Row lo hi runs f.2 (SortedIn-right lo hi ((key, val) ∷ es) (concat runs) s),
    )

pub row_entries-leaves :
    (w : Option ℕ) (runs : List (List Entry)) → Fit runs → row_entries w (leaves runs) ≡ concat runs
unfolding leaves
row_entries-leaves w [] f = refl
row_entries-leaves w ([] ∷ runs) f = absurd (omega (arith, f.0))
row_entries-leaves w (((key, val) ∷ es) ∷ runs) f =
    ap (λ xs. xs ++ row_entries w (leaves runs)) (content-none w ((key, val) ∷ es))
    ∙ ap (λ xs. ((key, val) ∷ es) ++ xs) (row_entries-leaves w runs f.2)

pub length-leaves : (runs : List (List Entry)) → Fit runs → length (leaves runs) ≡ length runs
unfolding leaves
length-leaves [] f = refl
length-leaves ([] ∷ runs) f = absurd (omega (arith, f.0))
length-leaves (((key, val) ∷ es) ∷ runs) f = ap suc (length-leaves runs f.2)

-- ===== src/Btree/Build/Correct.antt =====
-- `build_sorted` of lib/trees/btree/build.hpp on sorted elements.
use contrees_fat_node.Prelude.{
  ℕ, zero, suc, ◌≤◌, ◌≡◌, refl, ap, subst, sym, ◌∙◌, true, false, Option, none, some, List, [], ◌∷◌,
  length, ltb, arith, Bool-cases, inl, inr, ltb→lt, ltb→le,
}
use contrees_fat_node.SortedMap.{Entry, SortedIn, SortedIn-mono, lookup}
use contrees_fat_node.Btree.Node.{DeltaSlot, DeltaBlock, Tree, Kids, leaf, internal, one, more}
use contrees_fat_node.Btree.Query.{find}
use contrees_fat_node.Btree.Query.Find.{find-lookup}
use contrees_fat_node.Btree.Shape.{
  entries, content-none, Filed, IsSidecar, Ordered, OrderedKids, FilledRoot,
}
use contrees_fat_node.Btree.Leaves.{Leaves, LeavesKids}
use contrees_fat_node.Btree.Materialize.Step.{Aged}
use contrees_fat_node.Btree.Update.{key_limit, IsTree}
use contrees_fat_node.Btree.Build.{
  cut, kids_from, branches, leaves, top, build_internal, build_sorted, node_count, left_over,
}
use contrees_fat_node.Btree.Build.Runs.{level-Cuts}
use contrees_fat_node.Btree.Build.Rows.{
  Fresh, Row, row_entries, kids_from-OrderedKids, kids_from-FilledKids, size-kids_from,
  entries-kids_from, branches-Row, row_entries-branches, length-branches, leaves-Row,
  row_entries-leaves, length-leaves,
}

-- A tree over the nodes of a level.
record Over (h hi : ℕ) (row : List (ℕ × Tree)) (result : Option Tree) : Type 0 where
  pub tree : Tree
  pub levels : ℕ
  pub ends : result ≡ some tree
  pub lowest : ℕ
  pub ordered : Ordered lowest hi tree
  pub filled : FilledRoot levels tree
  pub fresh : Leaves Fresh tree
  pub holds : (w : Option ℕ) → entries w tree ≡ row_entries w row

top-Over :
    (h hi : ℕ) (row : List (ℕ × Tree))
    → 2 ≤ length row
    → length row ≤ 15
    → Row h hi row
    → Over h hi row (top row)
unfolding top
top-Over h hi [] a b r = absurd (omega arith)
top-Over h hi ((key, t) ∷ row) a b r =
    let k = kids_from-FilledKids h hi key t row r in
    let n = size-kids_from t row in
    record {
      tree = internal 0 (kids_from t row);
      levels = suc h;
      ends = refl;
      lowest = key;
      ordered = kids_from-OrderedKids h hi key t row r;
      filled = (omega (arith, n, a), omega (arith, n, b), k.0);
      fresh = k.1;
      holds = λ w. entries-kids_from w t row;
    }

top_few :
    (fuel : ℕ) (row : List (ℕ × Tree))
    → ltb (length row) 16 ≡ true
    → build_internal (suc fuel) row ≡ top row
unfolding build_internal
top_few fuel row e =
    ap
      (λ few. elim few [
        | true ↦ top row
        | false ↦ elim (cut (length row) (node_count (length row)) (left_over (length row)) 0 row) [
          | none ↦ none
          | some runs ↦ build_internal fuel (branches runs)
        ]
      ])
      e

level_many :
    (fuel : ℕ) (row : List (ℕ × Tree)) (runs : List (List (ℕ × Tree)))
    → ltb (length row) 16 ≡ false
    → cut (length row) (node_count (length row)) (left_over (length row)) 0 row ≡ some runs
    → build_internal (suc fuel) row ≡ build_internal fuel (branches runs)
unfolding build_internal
level_many fuel row runs e c =
    let next : Option (List (List (ℕ × Tree))) → Option Tree =
      λ result. elim result [ none ↦ none | some runs ↦ build_internal fuel (branches runs) ] in
    ap
      (λ few. elim few [
        | true ↦ top row
        | false ↦ next (cut (length row) (node_count (length row)) (left_over (length row)) 0 row)
      ])
      e
    ∙ ap next c

-- Fuel that is not below the number of the nodes is enough.
build_internal-Over :
    (fuel h hi : ℕ) (row : List (ℕ × Tree))
    → 2 ≤ length row
    → length row ≤ fuel
    → Row h hi row
    → Over h hi row (build_internal fuel row)
build_internal-Over zero h hi row a b r = absurd (omega (arith, a, b))
build_internal-Over (suc fuel) h hi row a b r = elim (Bool-cases (ltb (length row) 16)) [
  | inl few ↦
      subst (Over h hi row) (sym (top_few fuel row few))
        (top-Over h hi row a (omega (arith, ltb→lt (length row) 16 few)) r)
  | inr many ↦
      let l = ltb→le (length row) 16 many in
      let c = level-Cuts row (omega (arith, l)) in
      let n = length-branches c.runs c.fit in
      let o : Over (suc h) hi (branches c.runs) (build_internal fuel (branches c.runs)) =
        build_internal-Over fuel (suc h) hi (branches c.runs) (omega (arith, n, c.counted, l))
          (omega (arith, n, c.counted, l, b))
          (branches-Row h hi c.runs c.fit (subst (Row h hi) (sym c.all) r)) in
      subst (Over h hi row) (sym (level_many fuel row c.runs many c.ends)) (record {
        tree = o.tree;
        levels = o.levels;
        ends = o.ends;
        lowest = o.lowest;
        ordered = o.ordered;
        filled = o.filled;
        fresh = o.fresh;
        holds = λ w. o.holds w ∙ row_entries-branches w c.runs c.fit ∙ ap (row_entries w) c.all;
      })
]

-- A smaller lower bound.
Filed-lower :
    (v lo lo' hi n : ℕ) (ss : List DeltaSlot) → lo' ≤ lo → Filed v lo hi n ss → Filed v lo' hi n ss
Filed-lower v lo lo' hi zero [] b f = tt
Filed-lower v lo lo' hi (suc n) [] b f = absurd f
Filed-lower v lo lo' hi zero (s ∷ ss) b f = (f.0, Filed-lower v lo lo' hi zero ss b f.1)
Filed-lower v lo lo' hi (suc n) (s ∷ ss) b f =
    (f.0, f.1, omega (arith, f.2), f.3, Filed-lower s.version lo lo' hi n ss b f.4)

IsSidecar-lower :
    (v lo lo' hi : ℕ) (d : Option DeltaBlock)
    → lo' ≤ lo
    → IsSidecar v lo hi d
    → IsSidecar v lo' hi d
IsSidecar-lower v lo lo' hi none b i = tt
IsSidecar-lower v lo lo' hi (some block) b i =
    (i.0, Filed-lower v lo lo' hi block.count block.slots b i.1)

mutual
  Ordered-lower : (lo hi : ℕ) (t : Tree) → Ordered lo hi t → Ordered 0 hi t
  Ordered-lower lo hi (leaf ver es d) o = (
    SortedIn-mono es (omega arith) (omega arith) o.0,
    IsSidecar-lower ver lo 0 hi d (omega arith) o.1,
  )
  Ordered-lower lo hi (internal ver ks) o = OrderedKids-lower lo hi ks o

  OrderedKids-lower : (lo hi : ℕ) (ks : Kids) → OrderedKids lo hi ks → OrderedKids 0 hi ks
  OrderedKids-lower lo hi (one c) o = Ordered-lower lo hi c o
  OrderedKids-lower lo hi (more c s ks) o = (omega arith, o.1, Ordered-lower lo s c o.2, o.3)

mutual
  Fresh-Aged : (t : Tree) → Leaves Fresh t → Leaves (Aged 1) t
  Fresh-Aged (leaf ver es none) f = (omega (arith, f.0), tt)
  Fresh-Aged (leaf ver es (some block)) f = let e : some block ≡ none = f.1 in cc
  Fresh-Aged (internal ver ks) f = FreshKids-Aged ks f

  FreshKids-Aged : (ks : Kids) → LeavesKids Fresh ks → LeavesKids (Aged 1) ks
  FreshKids-Aged (one c) f = Fresh-Aged c f
  FreshKids-Aged (more c s ks) f = (Fresh-Aged c f.0, FreshKids-Aged ks f.1)

-- A build as its readers see it: it ends, the tree is well formed, with leaves of version zero, and
-- every snapshot reads the elements.
pub record Built (elems : List Entry) (result : Option Tree) : Type 0 where
  pub tree : Tree
  pub levels : ℕ
  pub ends : result ≡ some tree
  pub well_formed : IsTree 1 levels tree
  pub fresh : Leaves Fresh tree
  pub holds : (w : Option ℕ) → entries w tree ≡ elems
  pub reads : (q snapshot : ℕ) → find tree q snapshot ≡ lookup q elems

built :
    (lo levels : ℕ) (elems : List Entry) (t : Tree) (result : Option Tree)
    → result ≡ some t
    → Ordered lo key_limit t
    → FilledRoot levels t
    → Leaves Fresh t
    → ((w : Option ℕ) → entries w t ≡ elems)
    → Built elems result
built lo levels elems t result e o f l h = record {
  tree = t;
  levels = levels;
  ends = e;
  well_formed = record {
    ordered = Ordered-lower lo key_limit t o;
    filled = f;
    aged = Fresh-Aged t l;
  };
  fresh = l;
  holds = h;
  reads = λ q snapshot. find-lookup q snapshot lo key_limit t o ∙ ap (lookup q) (h (some snapshot));
}

-- A build from elements in strictly ascending order of 64-bit keys ends without a read past their
-- end; the tree is ordered and filled, with leaves of version 0 and no sidecars, holds just the
-- elements, and every snapshot finds at a key what the elements have there.
pub build_sorted_lem :
    (elems : List Entry) → SortedIn 0 key_limit elems → Built elems (build_sorted elems)
unfolding build_sorted
build_sorted_lem elems s = elim (Bool-cases (ltb (length elems) 16)) [
  | inl few ↦ rw few (
      built 0 0 elems (leaf 0 elems none) _ refl (s, tt)
        (omega (arith, ltb→lt (length elems) 16 few), omega arith) (refl, refl)
        (λ w. content-none w elems))
  | inr many ↦
      let l = ltb→le (length elems) 16 many in
      let c = level-Cuts elems (omega (arith, l)) in
      let n = length-leaves c.runs c.fit in
      let row = leaves-Row 0 key_limit c.runs c.fit (subst (SortedIn 0 key_limit) (sym c.all) s) in
      let o =
        build_internal-Over (length elems) 0 key_limit (leaves c.runs)
          (omega (arith, n, c.counted, l)) (omega (arith, n, c.counted, l)) row in
      rw (many, c.ends)
        (built o.lowest o.levels elems o.tree _ o.ends o.ordered o.filled o.fresh
          (λ w. o.holds w ∙ row_entries-leaves w c.runs c.fit ∙ c.all))
]

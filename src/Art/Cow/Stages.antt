-- ===== src/Art/Cow/Stages.antt =====
-- The stages of a copying update in lib/trees/art, run to their end.
use contrees_fat_node.Prelude.{
  ℕ, zero, suc, ◌+◌, ◌-◌, ◌≤◌, ◌≡◌, refl, ap, subst, sym, ◌∙◌, fun_ext, Bool, true, false, none,
  some, List, ◌∷◌, ltb, if◌then◌else◌, arith, inl, inr, Bool-cases, Option-cases,
}
use contrees_fat_node.FatValue.{FatValue, no_values}
use contrees_fat_node.Btree.Cow.{Task}
use contrees_fat_node.Art.Key.{partial_key}
use contrees_fat_node.Art.Key.Bytes.{partial_key-lt}
use contrees_fat_node.Art.Key.Agree.{agree}
use contrees_fat_node.Art.Key.Prefix.{Parts}
use contrees_fat_node.Art.Index.{Kind, node4, find_idx, slot, append, node_extend, is_full}
use contrees_fat_node.Art.Node.{write, copych, insert_cow}
use contrees_fat_node.Art.Node.Children.{copych-findch}
use contrees_fat_node.Art.Node.Insert.{insert_cow-Inserted}
use contrees_fat_node.Art.Node.Used.{write-InUse, copych-InUse, insert_cow-InUse}
use contrees_fat_node.Art.Node.Every.{write_all, copych_all, insert_cow_all}
use contrees_fat_node.Art.Tree.{
  Header, Tree, null, leaf, inner, departs, match_prefix, new_leaf, new_header, find, advance,
  fork_keys, fork_chs, fork_node, extended,
}
use contrees_fat_node.Art.Tree.Shape.{Present, IsTree, departs-Parts, find_leaf, find_null}
use contrees_fat_node.Art.Tree.Fork.{
  header, advance-IsTree, advance-Present, find-advance, fork-IsTree, find_fork,
}
use contrees_fat_node.Art.Tree.Through.{
  Puts, extended-IsTree, extended_pfx, along-agree, find_own_leaf, find_replaced, find_with_child,
}
use contrees_fat_node.Art.Tree.Inplace.{Plain-no_values, new_leaf-Present}
use contrees_fat_node.Art.Cow.{
  Operand, search, insert, Frame, Progress, plug, retire_replaced, node_copy, leaf_update, set_val,
  copy_children, getch, descend, node_fork_cow, cow_apart, cow_along, update_cow, handle_search,
  insert_child, handle_insert, handle_fork, handle, run_handlers, retire_past,
}
use contrees_fat_node.Art.Cow.Copy.{
  Logged, no_values-Logged, copied, copied-Present, copied-IsTree, find-copied, copy-advance,
  header-copied,
}

-- Where `update_cow` starts on a node.
abbrev pub progress : ℕ → ℕ → Tree → Tree → List Frame → List Tree → Progress
progress pos c t x above retired = record {
  key_ofs = pos;
  ch_idx = c;
  t_past = t;
  t_cur = x;
  above = above;
  retired = retired;
}

-- The old child of a fork, after `copych`.
fork_filled :
    (b : Bool) (old new t : Tree)
    → let idx : ℕ = if b then 1 else 0 in
      write (fork_chs idx old new) idx (copy_children (fork_chs idx old new idx) t)
      ≡ fork_chs idx (copy_children old t) new
unfolding write fork_chs
fork_filled true old new t = fun_ext (λ j. ground arith)
fork_filled false old new t = fun_ext (λ j. ground arith)

fork_node-Present :
    (ver pos pm key val pk0 : ℕ) (old : Tree) → Present (fork_node ver pos pm key val pk0 old)
unfolding fork_node
fork_node-Present ver pos pm key val pk0 old = tt

module _ (ctx : Task) (slots : ℕ) (s : 2 ≤ slots) where
  -- The stages end, with a node in the place of `t` that has the new value for the readers from the
  -- version of the task on.
  pub record Ends (fuel : ℕ) (r : Operand × Progress) (above : List Frame) (pos : ℕ) (t : Tree)
      : Type 0 where
    pub node : Tree
    pub retired : List Tree
    pub ends : run_handlers fuel ctx r ≡ some (plug above node, retired)
    pub well_formed : IsTree (Logged slots ctx.sno) pos node
    pub present : Present node
    pub puts : (q v : ℕ) → ctx.sno ≤ v → Puts pos ctx.key ctx.val q (find t q v) (find node q v)

  cow_apart_run :
      (n pos c : ℕ) (h : Header) (t x : Tree) (above : List Frame) (retired : List Tree)
      → run_handlers (suc n) ctx (cow_apart ctx h (progress pos c t x above retired))
        ≡ some (
          plug above (
              fork_node ctx.sno pos
                (match_prefix h ctx.key)
                ctx.key
                ctx.val
                (partial_key h.pfx (h.pfx_ofs + match_prefix h ctx.key))
                (copy_children (advance (match_prefix h ctx.key + 1) (node_copy t ctx.sno)) t)),
          retire_replaced ctx retired t,
        )
  unfolding run_handlers handle handle_fork cow_apart node_fork_cow retire_past fork_node getch
      descend slot plug
  cow_apart_run n pos c h t x above retired =
      let pm = match_prefix h ctx.key in
      let pk0 = partial_key h.pfx (h.pfx_ofs + pm) in
      let pk1 = partial_key ctx.key (pos + pm) in
      ap
        (λ (chs : ℕ → Tree). some (
          plug above (
              inner (new_header ctx.sno pos pm ctx.key)
                (node4 (fork_keys (if ltb pk1 pk0 then 1 else 0) pk0 pk1)) chs),
          retire_replaced ctx retired t,
        ))
        (fork_filled (ltb pk1 pk0) (advance (pm + 1) (node_copy t ctx.sno))
          (new_leaf ctx.sno (pos + pm + 1) ctx.key ctx.val) t)

  cow_apart-Ends :
      (n pos c : ℕ) (t x : Tree) (above : List Frame) (retired : List Tree)
      → pos + (header t).pfx_len ≤ 8
      → (header t).pfx_ofs ≡ pos
      → departs (header t) ctx.key ≡ true
      → Present t
      → IsTree (Logged slots ctx.sno) pos t
      → Ends (suc n) (cow_apart ctx (header t) (progress pos c t x above retired)) above pos t
  cow_apart-Ends n pos c t x above retired b o e there i =
      let h = header t in
      let pm = match_prefix h ctx.key in
      let P = Logged slots ctx.sno in
      let t' = copied t ctx.sno in
      let d : Parts pos h.pfx_len h.pfx ctx.key pm =
        subst (λ (n : ℕ). Parts n h.pfx_len h.pfx ctx.key pm) o
          (departs-Parts h ctx.key (omega (arith, o)) e) in
      let i' = copied-IsTree slots ctx.sno s pos t i in
      let l : pm + 1 ≤ (header t').pfx_len = omega (arith, (header-copied t ctx.sno).0, d.inside) in
      let a : IsTree P (pos + (pm + 1)) (advance (pm + 1) t') =
        advance-IsTree P pos (pm + 1) t' l i' in
      let r : pos + (pm + 1) ≡ pos + pm + 1 = omega arith in
      let a' = subst (λ (n : ℕ). IsTree P n (advance (pm + 1) t')) r a in
      let z = no_values-Logged slots ctx.sno ctx.val s in
      let old = advance-Present (pm + 1) t' (copied-Present t ctx.sno there) in
      record {
        node =
            fork_node ctx.sno pos pm ctx.key ctx.val (partial_key h.pfx (pos + pm))
              (advance (pm + 1) t');
        retired = retire_replaced ctx retired t;
        ends =
            cow_apart_run n pos c h t x above retired
            ∙ rw (copy-advance (pm + 1) ctx.sno t, o) refl;
        well_formed =
            fork-IsTree P ctx.sno pos pm ctx.key ctx.val h.pfx_len h.pfx (advance (pm + 1) t') b d
              a' old z;
        present = fork_node-Present ctx.sno pos pm ctx.key ctx.val _ _;
        puts = λ q v k.
            find_fork P ctx.sno pos pm ctx.key ctx.val h.pfx_len h.pfx (advance (pm + 1) t') b d a'
              old z q v (Plain-no_values ctx.val ctx.val v)
            ∙ ap (λ r. if agree (8 - pos) pos q ctx.key then some ctx.val else r)
                (rw (sym (header-copied t ctx.sno).1)
                    (sym (find-advance P pos (pm + 1) t' q v l i'))
                  ∙ find-copied slots ctx.sno s pos t q v k i);
      }

  new_leaf-IsTree :
      (pos : ℕ) → pos ≤ 8 → IsTree (Logged slots ctx.sno) pos (new_leaf ctx.sno pos ctx.key ctx.val)
  unfolding new_leaf
  new_leaf-IsTree pos b = (refl, omega arith, no_values-Logged slots ctx.sno ctx.val s)

  new_leaf-Puts :
      (pos q v : ℕ)
      → pos ≤ 8
      → Puts pos ctx.key ctx.val q none (find (new_leaf ctx.sno pos ctx.key ctx.val) q v)
  unfolding new_leaf
  new_leaf-Puts pos q v b =
      find_leaf (Logged slots ctx.sno) pos _ ctx.val no_values q v (new_leaf-IsTree pos b)
      ∙ rw (Plain-no_values ctx.val ctx.val v) refl

  -- The leaf of the key.
  leaf-Ends :
      (fuel pos c : ℕ) (h : Header) (val : ℕ) (fat : FatValue) (x : Tree) (above : List Frame)
      (retired : List Tree)
      → departs h ctx.key ≡ false
      → IsTree (Logged slots ctx.sno) pos (leaf h val fat)
      → Ends fuel
          (update_cow ctx (progress pos c (leaf h val fat) x above retired))
          above
          pos
          (leaf h val fat)
  unfolding update_cow run_handlers leaf_update set_val node_copy retire_past
  leaf-Ends fuel pos c h val fat x above retired along i =
      let P = Logged slots ctx.sno in
      let e = along-agree pos h ctx.key i.0 (omega (arith, i.1)) along in
      let h' : Header = record h { ver = ctx.sno } in
      let i' : IsTree P pos (leaf h' ctx.val no_values) =
        (i.0, i.1, no_values-Logged slots ctx.sno ctx.val s) in
      rw along (record {
        node = leaf h' ctx.val no_values;
        retired = retire_replaced ctx retired (leaf h val fat);
        ends = refl;
        well_formed = i';
        present = tt;
        puts = λ q v k.
            find_own_leaf P pos ctx.key h' ctx.val no_values q v i' e
            ∙ rw (Plain-no_values ctx.val ctx.val v, find_own_leaf P pos ctx.key h val fat q v i e)
                (ground arith);
      })

  -- `update_cow` at an inner node along the key.
  update_cow-none :
      (pos c : ℕ) (h : Header) (k : Kind) (chs : ℕ → Tree) (x : Tree) (above : List Frame)
      (retired : List Tree)
      → departs h ctx.key ≡ false
      → find_idx k (partial_key ctx.key (pos + h.pfx_len)) ≡ none
      → let appended : Kind × ℕ =
          append (if is_full k then node_extend k else k) (partial_key ctx.key (pos + h.pfx_len)) in
        update_cow ctx (progress pos c (inner h k chs) x above retired) ≡ (
          insert,
          progress
              (pos + h.pfx_len + 1)
              appended.1
              (inner h k chs)
              (inner (extended ctx.sno k (record h { ver = ctx.sno })) appended.0 (λ j. null))
              above
              (retire_replaced ctx retired (inner h k chs)),
        )
  unfolding update_cow cow_along retire_past
  update_cow-none pos c h k chs x above retired along nowhere = rw (along, cow_along, nowhere) refl

  update_cow-some :
      (pos c j : ℕ) (h : Header) (k : Kind) (chs : ℕ → Tree) (x : Tree) (above : List Frame)
      (retired : List Tree)
      → departs h ctx.key ≡ false
      → find_idx k (partial_key ctx.key (pos + h.pfx_len)) ≡ some j
      → update_cow ctx (progress pos c (inner h k chs) x above retired) ≡ (
        search,
        progress
            (pos + h.pfx_len + 1)
            j
            (inner h k chs)
            (node_copy (inner h k chs) ctx.sno)
            above
            (retire_replaced ctx retired (inner h k chs)),
      )
  unfolding update_cow cow_along retire_past
  update_cow-some pos c j h k chs x above retired along here = rw (along, cow_along, here) refl

  -- A new child.
  insert-Ends :
      (n pos c : ℕ) (h : Header) (k : Kind) (chs : ℕ → Tree) (x : Tree) (above : List Frame)
      (retired : List Tree)
      → departs h ctx.key ≡ false
      → find_idx k (partial_key ctx.key (pos + h.pfx_len)) ≡ none
      → IsTree (Logged slots ctx.sno) pos (inner h k chs)
      → Ends
          (suc n)
          (update_cow ctx (progress pos c (inner h k chs) x above retired))
          above
          pos
          (inner h k chs)
  unfolding run_handlers handle handle_insert insert_child insert_cow
  insert-Ends n pos c h k chs x above retired along nowhere i =
      let P = Logged slots ctx.sno in
      let pk = partial_key ctx.key (pos + h.pfx_len) in
      let below = pos + h.pfx_len + 1 in
      let e = along-agree pos h ctx.key i.0 (omega (arith, i.1)) along in
      let h' : Header = record h { ver = ctx.sno } in
      let new = new_leaf ctx.sno below ctx.key ctx.val in
      let r = insert_cow null k chs pk new in
      let m =
        insert_cow-Inserted null pk new chs (partial_key-lt ctx.key (pos + h.pfx_len)) k i.2
          nowhere in
      let kept : IsTree P pos (inner h' r.0 r.1) = (
        i.0,
        i.1,
        m.well_formed,
        insert_cow_all (IsTree P below) null (omega (arith, i.1)) chs i.3 k pk new
            (new_leaf-IsTree below (omega (arith, i.1))),
        insert_cow-InUse Present null pk chs new (new_leaf-Present ctx.sno below ctx.key ctx.val) k
            i.4,
      ) in
      let y = extended-IsTree P pos ctx.sno h' k r.0 r.1 kept in
      record {
        node = inner (extended ctx.sno k h') r.0 r.1;
        retired = retire_replaced ctx retired (inner h k chs);
        ends =
            ap (run_handlers (suc n) ctx)
              (update_cow-none pos c h k chs x above retired along nowhere);
        well_formed = y;
        present = tt;
        puts = λ q v b.
            let z = extended_pfx pos ctx.sno q h' k i.0 i.1 in
            find_with_child P pos ctx.key ctx.val q v h (extended ctx.sno k h') k chs new i e z.0
              z.1 r y m nowhere (new_leaf-Puts below q v (omega (arith, i.1)));
      }

  -- The child of the key, from the stages on it.
  search-Ends :
      (n pos c j : ℕ) (h : Header) (k : Kind) (chs : ℕ → Tree) (x : Tree) (above : List Frame)
      (retired : List Tree)
      → departs h ctx.key ≡ false
      → find_idx k (partial_key ctx.key (pos + h.pfx_len)) ≡ some j
      → IsTree (Logged slots ctx.sno) pos (inner h k chs)
      → ((y : Tree) (above : List Frame) (retired : List Tree)
          → Ends n
              (update_cow ctx (progress (pos + h.pfx_len + 1) j (chs (slot k j)) y above retired))
              above
              (pos + h.pfx_len + 1)
              (chs (slot k j)))
      → Ends
          (suc n)
          (update_cow ctx (progress pos c (inner h k chs) x above retired))
          above
          pos
          (inner h k chs)
  unfolding run_handlers handle handle_search node_copy copy_children getch descend plug
  search-Ends n pos c j h k chs x above retired along here i f =
      let P = Logged slots ctx.sno in
      let below = pos + h.pfx_len + 1 in
      let e = along-agree pos h ctx.key i.0 (omega (arith, i.1)) along in
      let h' : Header = record h { ver = ctx.sno } in
      let chs' = copych null k chs in
      let frame : Frame = record { header = h'; kind = k; chs = chs'; idx = j } in
      let r =
        f (node_copy (inner h k chs) ctx.sno) (frame ∷ above)
          (retire_replaced ctx retired (inner h k chs)) in
      let kept : IsTree P pos (inner h' k (write chs' (slot k j) r.node)) = (
        i.0,
        i.1,
        i.2,
        write_all (IsTree P below) chs' (slot k j) r.node
            (copych_all (IsTree P below) null (omega (arith, i.1)) chs i.3 k) r.well_formed,
        write-InUse Present k chs' (slot k j) r.node (copych-InUse Present null k chs i.4)
            (λ u. r.present),
      ) in
      record {
        node = inner h' k (write chs' (slot k j) r.node);
        retired = r.retired;
        ends =
            ap (run_handlers (suc n) ctx)
              (update_cow-some pos c j h k chs x above retired along here)
            ∙ r.ends;
        well_formed = kept;
        present = tt;
        puts = λ q v b.
            find_replaced P pos ctx.key ctx.val q v h h' k chs r.node i e refl refl chs' j kept
              (copych-findch null k chs i.2) here (r.puts q v b);
      }

  -- From a node below the first `pos` bytes, `9 - pos` handlers suffice.
  pub update_cow-Ends :
      (fuel pos c : ℕ) (t x : Tree) (above : List Frame) (retired : List Tree)
      → 9 ≤ pos + fuel
      → IsTree (Logged slots ctx.sno) pos t
      → Ends fuel (update_cow ctx (progress pos c t x above retired)) above pos t
  unfolding update_cow run_handlers
  update_cow-Ends fuel pos c null x above retired b i = record {
    node = new_leaf ctx.sno pos ctx.key ctx.val;
    retired = retired;
    ends = refl;
    well_formed = new_leaf-IsTree pos i;
    present = new_leaf-Present ctx.sno pos ctx.key ctx.val;
    puts = λ q v k. rw (find_null q v) (new_leaf-Puts pos q v i);
  }
  update_cow-Ends zero pos c (leaf h val fat) x above retired b i = absurd (omega (arith, i.1))
  update_cow-Ends zero pos c (inner h k chs) x above retired b i = absurd (omega (arith, i.1))
  update_cow-Ends (suc n) pos c (leaf h val fat) x above retired b i =
      elim (Bool-cases (departs h ctx.key)) [
        | inl apart ↦ rw apart (
            cow_apart-Ends n pos c (leaf h val fat) x above retired (omega (arith, i.1)) i.0 apart
              tt i)
        | inr along ↦ leaf-Ends (suc n) pos c h val fat x above retired along i
      ]
  update_cow-Ends (suc n) pos c (inner h k chs) x above retired b i =
      elim (Bool-cases (departs h ctx.key)) [
        | inl apart ↦ rw apart (
            cow_apart-Ends n pos c (inner h k chs) x above retired (omega (arith, i.1)) i.0 apart tt
              i)
        | inr along ↦ elim (Option-cases (find_idx k (partial_key ctx.key (pos + h.pfx_len)))) [
          | inl nowhere ↦ insert-Ends n pos c h k chs x above retired along nowhere i
          | inr (j, here) ↦
              search-Ends n pos c j h k chs x above retired along here i (λ y above retired.
                update_cow-Ends n (pos + h.pfx_len + 1) j (chs (slot k j)) y above retired
                  (omega arith) (i.3 (slot k j)))
        ]
      ]

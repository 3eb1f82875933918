-- ===== src/Art/Cow/Update.antt =====
-- Updates of lib/trees/art as readers see them.
use contrees_fat_node.Prelude.{
  ℕ, suc, ◌^◌, ◌≤◌, ◌<◌, ◌≡◌, refl, ap, ◌∙◌, Bool, true, false, ◌&&◌, ◌||◌, Option, some, List, [],
  leb, ◌==◌, if◌then◌else◌, arith, le→leb, eq→==,
}
use contrees_fat_node.Btree.Cow.{Task}
use contrees_fat_node.Art.Key.Agree.{agree-eq}
use contrees_fat_node.Art.Tree.{Tree, null, find}
use contrees_fat_node.Art.Tree.Shape.{IsTree}
use contrees_fat_node.Art.Tree.Build.{Puts-root}
use contrees_fat_node.Art.Cow.{
  done, update_cow, run_handlers, plug, append_at_leaf, start, handle_init, exec_task,
}
use contrees_fat_node.Art.Cow.Copy.{Logged}
use contrees_fat_node.Art.Cow.Stages.{Ends, update_cow-Ends}
use contrees_fat_node.Art.Cow.Append.{
  Logged-suc, IsTree-imp, seen, AppendsAt, append_at_leaf-AppendsAt,
}

-- A well formed tree, whose leaves have room for `slots` records, of versions below `n`.
abbrev pub IsLogged : ℕ → ℕ → Tree → Type 0
IsLogged slots n t = IsTree (Logged slots n) 0 t

-- An update ends, with a well formed tree, in which every reader from its version on finds the new value
-- at the key, and elsewhere what it found before.
pub record Updated (ctx : Task) (slots : ℕ) (t : Tree) (result : Option (Tree × List Tree))
    : Type 0 where
  pub tree : Tree
  pub retired : List Tree
  pub ends : result ≡ some (tree, retired)
  pub well_formed : IsLogged slots (suc ctx.sno) tree
  pub reads :
      (q v : ℕ)
      → q < 2 ^ 64
      → ctx.sno ≤ v
      → find tree q v ≡ (if q == ctx.key then some ctx.val else find t q v)

module _ (ctx : Task) (k : ctx.key < 2 ^ 64) where
  -- The copying update of a tree that the readers see as `t`.
  cow-Updated :
      (slots : ℕ) (t t' : Tree)
      → 2 ≤ slots
      → IsLogged slots ctx.sno t'
      → ((q v : ℕ) → find t' q v ≡ find t q v)
      → Updated ctx slots t (run_handlers 9 ctx (update_cow ctx (start t')))
  unfolding start plug
  cow-Updated slots t t' s i f =
      let e : Ends ctx slots s 9 (update_cow ctx (start t')) [] 0 t' =
        update_cow-Ends ctx slots s 9 0 0 t' null [] [] (omega arith) i in
      record {
        tree = e.node;
        retired = e.retired;
        ends = e.ends;
        well_formed =
            IsTree-imp _ (Logged slots (suc ctx.sno)) (Logged-suc slots ctx.sno) 0 e.node
              e.well_formed;
        reads = λ q v b a.
            Puts-root ctx.key ctx.val q (find t' q v) (find e.node q v) k b (e.puts q v a)
            ∙ ap (λ r. if q == ctx.key then some ctx.val else r) (f q v);
      }

  -- An update without fat slots, of a well formed radix tree with leaves of at least two slots and
  -- records of older versions, with a 64-bit key, ends; the new tree is well formed, and every
  -- reader from the version of the update on finds the new value at its key and elsewhere what it
  -- found before.
  pub exec_task_radix_plain :
      (slots : ℕ) (t : Tree)
      → ctx.fat_slots ≡ 0
      → 2 ≤ slots
      → IsLogged slots ctx.sno t
      → Updated ctx slots t (exec_task ctx t)
  unfolding exec_task handle_init
  exec_task_radix_plain slots t e s i =
      rw (eq→== ctx.fat_slots 0 e) (cow-Updated slots t t s i (λ q v. refl))

  module _ (z : 0 < ctx.sno)
      (s : (ctx.fat_slots == 2 || ctx.fat_slots == 4 || ctx.fat_slots == 8) ≡ true) where
    append_root :
        (t : Tree)
        → IsLogged ctx.fat_slots ctx.sno t
        → (q v : ℕ) → q < 2 ^ 64
        → find (append_at_leaf ctx t).0 q v ≡ (
            if seen ctx.sno (append_at_leaf ctx t).1 v && q == ctx.key
            then some ctx.val
            else find t q v)
    append_root t i q v b =
        (append_at_leaf-AppendsAt ctx z s 0 t i).finds q v
        ∙ ap
            (λ (e : Bool).
              if seen ctx.sno (append_at_leaf ctx t).1 v && e then some ctx.val else find t q v)
            (agree-eq q ctx.key b k)

    appended-Updated :
        (t : Tree) (r : Tree × Bool)
        → AppendsAt ctx ctx.fat_slots 0 t r
        → Updated ctx ctx.fat_slots t (
            run_handlers 9 ctx (
              if r.1
              then (done, record (start r.0) { t_cur = r.0 })
              else update_cow ctx (start r.0)))
    unfolding run_handlers start plug
    appended-Updated t (t', true) a = record {
      tree = t';
      retired = [];
      ends = refl;
      well_formed = a.well_formed;
      reads = λ q v b h. a.finds q v ∙ rw (le→leb ctx.sno v h, agree-eq q ctx.key b k) refl;
    }
    appended-Updated t (t', false) a =
        cow-Updated ctx.fat_slots t t' (ground (arith, s)) a.well_formed a.finds

    -- An update with 2, 4 or 8 fat slots, of a well formed radix tree whose records have older
    -- versions, with a 64-bit key and a version above 0, ends; the new tree is well formed, and
    -- every reader from the version of the update on finds the new value at its key and elsewhere
    -- what it found before.
    pub exec_task_radix :
        (t : Tree)
        → IsLogged ctx.fat_slots ctx.sno t
        → Updated ctx ctx.fat_slots t (exec_task ctx t)
    unfolding exec_task handle_init
    exec_task_radix t i =
        let r : (ctx.fat_slots == 0) ≡ false = ground (arith, s) in
        rw r (appended-Updated t (append_at_leaf ctx t) (append_at_leaf-AppendsAt ctx z s 0 t i))

    -- An append into the leaf of a 64-bit key in a well formed radix tree of older versions, with 2,
    -- 4 or 8 slots and a version above 0, changes what a reader finds only if it was made, the
    -- snapshot is at least its version and the key is the same; if it was refused, nothing changes
    -- for any reader.
    pub find-append_at_leaf :
        (t : Tree)
        → IsLogged ctx.fat_slots ctx.sno t
        → (q v : ℕ) → q < 2 ^ 64
        → find (append_at_leaf ctx t).0 q v ≡ (
            if (append_at_leaf ctx t).1 && leb ctx.sno v && q == ctx.key
            then some ctx.val
            else find t q v)
    find-append_at_leaf t i q v b = append_root t i q v b

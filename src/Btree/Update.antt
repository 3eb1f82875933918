-- ===== src/Btree/Update.antt =====
-- Updates of lib/trees/btree with fat leaves, as readers see them.
use contrees_fat_node.Prelude.{
  ℕ, zero, suc, ◌^◌, ◌≤◌, ◌<◌, ◌≡◌, refl, ap, sym, ◌∙◌, Bool, true, false, Option, none, some, inl,
  inr, List, [], arith, ◌==◌, Bool-cases, if◌then◌else◌, lt→leb, le→leb, subst,
}
use contrees_fat_node.SortedMap.{act, lookup, lookup-put}
use contrees_fat_node.Btree.Node.{Tree, leaf, internal, height}
use contrees_fat_node.Btree.Query.{find}
use contrees_fat_node.Btree.Query.Find.{find-lookup}
use contrees_fat_node.Btree.Delta.{supported_fat_slots, delta_pending}
use contrees_fat_node.Btree.Shape.{
  entries, Ordered, FilledRoot, Ordered-SortedIn, height_kids-FilledKids,
}
use contrees_fat_node.Btree.Leaves.{Leaves}
use contrees_fat_node.Btree.Materialize.Step.{Aged}
use contrees_fat_node.Btree.Inplace.Root.{Puts}
use contrees_fat_node.Btree.Cow.{
  Task, Stage, done, handle_init_cow, handle_init, exec_task, append_at_leaf, run_stages,
}
use contrees_fat_node.Btree.Cow.Stages.{Ends, run_stages_done}
use contrees_fat_node.Btree.Cow.Correct.{Updated, handle_init_cow-Ends}
use contrees_fat_node.Btree.Cow.Fat.{fat-LeafStep}
use contrees_fat_node.Btree.Cow.Append.{outcome, append_at_leaf-Acts}
use contrees_fat_node.Btree.Cow.Kept.{
  append_at_leaf-FilledRoot, append_at_leaf-Aged, LeavesKids-suc, age_after,
}

-- Keys are 64-bit.
abbrev pub key_limit : ℕ
key_limit = 2 ^ 64

-- A well formed tree of `h` levels below its root, whose leaves and records have versions below `n`.
pub record IsTree (n h : ℕ) (t : Tree) : Type 0 where
  pub ordered : Ordered 0 key_limit t
  pub filled : FilledRoot h t
  pub aged : Leaves (Aged n) t

-- The readers of `t'` from the snapshot on see what those of `t` see, but for the new value.
abbrev pub Reads : Task → ℕ → Tree → Tree → Type 0
Reads ctx snapshot t t' =
    (q : ℕ) → find t' q snapshot ≡ (if ctx.key == q then some ctx.val else find t q snapshot)

pub Puts-Reads :
    (ctx : Task) (snapshot : ℕ) (t t' : Tree)
    → ctx.key < key_limit
    → Ordered 0 key_limit t
    → Puts (some snapshot) ctx.key ctx.val t t'
    → Reads ctx snapshot t t'
Puts-Reads ctx snapshot t t' h o p q =
    find-lookup q snapshot 0 key_limit t' (p.ordered 0 key_limit (omega arith) h o)
    ∙ ap (lookup q) (p.puts 0 key_limit (omega arith) h o)
    ∙ lookup-put ctx.key q ctx.val (entries (some snapshot) t) 0 key_limit
        (Ordered-SortedIn (some snapshot) 0 key_limit t o)
    ∙ ap (λ r. if ctx.key == q then some ctx.val else r)
        (sym (find-lookup q snapshot 0 key_limit t o))

-- The copying update with fat leaves, for one snapshot.
cow_fat :
    (ctx : Task) (h snapshot : ℕ) (t : Tree)
    → supported_fat_slots ctx.fat_slots ≡ true
    → ctx.sno ≤ snapshot
    → IsTree ctx.sno h t
    → Ends
        (height t)
        ctx
        (handle_init_cow ctx t)
        (λ t'. Updated (some snapshot) h ctx t t' × Leaves (Aged (suc ctx.sno)) t')
cow_fat ctx h snapshot t fat s i =
    handle_init_cow-Ends (some snapshot) ctx (Aged ctx.sno) (Aged (suc ctx.sno))
      (fat-LeafStep ctx snapshot fat s) (LeavesKids-suc ctx.sno) (λ es. (omega arith, tt)) h t
      i.filled i.aged

pub Ends_same :
    (fuel : ℕ) (ctx : Task) (stage : Stage) (P Q : Tree → Type 0) (e : Ends fuel ctx stage P)
    → Ends fuel ctx stage Q
    → Q e.0
Ends_same fuel ctx stage P Q e f = subst Q (ground (arith, e.2, f.2)) f.3

-- An update as its readers see it: it ends, its tree is well formed, and every snapshot from its
-- version on reads the new value.
pub record Done (ctx : Task) (h : ℕ) (t : Tree) (result : Option (Tree × List Tree)) : Type 0 where
  pub tree : Tree
  pub retired : List Tree
  pub ends : result ≡ some (tree, retired)
  pub levels : ℕ
  pub at_most : levels ≤ suc h
  pub well_formed : IsTree (suc ctx.sno) levels tree
  pub reads : (snapshot : ℕ) → ctx.sno ≤ snapshot → Reads ctx snapshot t tree

cow_fat-Done :
    (ctx : Task) (h : ℕ) (t : Tree)
    → supported_fat_slots ctx.fat_slots ≡ true
    → ctx.key < key_limit
    → IsTree ctx.sno h t
    → Done ctx h t (run_stages (height t) ctx (handle_init_cow ctx t))
cow_fat-Done ctx h t fat k i =
    let e = cow_fat ctx h ctx.sno t fat (omega arith) i in
    record {
      tree = e.0;
      retired = e.1;
      ends = e.2;
      levels = e.3.0.levels;
      at_most = e.3.0.at_most;
      well_formed = record {
        ordered = e.3.0.puts.ordered 0 key_limit (omega arith) k i.ordered;
        filled = e.3.0.filled;
        aged = e.3.1;
      };
      reads = λ s n.
          Puts-Reads ctx s t e.0 k i.ordered
            (Ends_same (height t) ctx (handle_init_cow ctx t) _ _ e
              (cow_fat ctx h s t fat n i)).0.puts;
    }

height-FilledRoot : (h : ℕ) (t : Tree) → FilledRoot h t → height t ≡ h
unfolding height
height-FilledRoot zero (leaf ver es d) f = refl
height-FilledRoot (suc h) (leaf ver es d) f = absurd f
height-FilledRoot zero (internal ver ks) f = absurd f
height-FilledRoot (suc h) (internal ver ks) f = ap suc (height_kids-FilledKids h ks f.2)

if_same : (b : Bool) → ◌≡◌ {A = Option ℕ} (if b then none else none) none
if_same true = refl
if_same false = refl

module _ (ctx : Task) (h : ℕ) (t : Tree) (i : IsTree ctx.sno h t) (k : ctx.key < key_limit)
    (p : ctx.sno < delta_pending) where
  append_reads :
      (snapshot q : ℕ)
      → find (append_at_leaf ctx t).0 q snapshot
        ≡ lookup q (
            act (outcome ctx snapshot (append_at_leaf ctx t).1) ctx.key (entries (some snapshot) t))
  append_reads s q =
      let a = append_at_leaf-Acts ctx s p t i.aged 0 key_limit (omega arith) k i.ordered in
      find-lookup q s 0 key_limit (append_at_leaf ctx t).0 a.0 ∙ ap (lookup q) a.1

  append-IsTree : IsTree (age_after ctx.sno (append_at_leaf ctx t).1) h (append_at_leaf ctx t).0
  append-IsTree = record {
    ordered = (append_at_leaf-Acts ctx 0 p t i.aged 0 key_limit (omega arith) k i.ordered).0;
    filled = append_at_leaf-FilledRoot h ctx t i.filled;
    aged = append_at_leaf-Aged ctx t i.aged;
  }

  -- A snapshot older than the record does not see an append, and an append that failed is not seen.
  append_unseen :
      (snapshot q : ℕ)
      → outcome ctx snapshot (append_at_leaf ctx t).1 ≡ none
      → find (append_at_leaf ctx t).0 q snapshot ≡ find t q snapshot
  unfolding act
  append_unseen s q e =
      append_reads s q
      ∙ ap (λ o. lookup q (act o ctx.key (entries (some s) t))) e
      ∙ sym (find-lookup q s 0 key_limit t i.ordered)

  append_seen :
      (snapshot : ℕ)
      → (append_at_leaf ctx t).1 ≡ true
      → ctx.sno ≤ snapshot
      → Reads ctx snapshot t (append_at_leaf ctx t).0
  unfolding act
  append_seen s e n q =
      let seen : outcome ctx s (append_at_leaf ctx t).1 ≡ some ctx.val =
        rw (e, le→leb ctx.sno s n) in
      append_reads s q
      ∙ ap (λ o. lookup q (act o ctx.key (entries (some s) t))) seen
      ∙ lookup-put ctx.key q ctx.val (entries (some s) t) 0 key_limit
          (Ordered-SortedIn (some s) 0 key_limit t i.ordered)
      ∙ ap (λ r. if ctx.key == q then some ctx.val else r)
          (sym (find-lookup q s 0 key_limit t i.ordered))

  appended-Done :
      (append_at_leaf ctx t).1 ≡ true
      → Done ctx h t (run_stages (height t) ctx (done (append_at_leaf ctx t).0 []))
  appended-Done e = record {
    tree = (append_at_leaf ctx t).0;
    retired = [];
    ends = run_stages_done (height t) ctx (append_at_leaf ctx t).0 [];
    levels = h;
    at_most = omega arith;
    well_formed = rw e at append-IsTree;
    reads = λ s n. append_seen s e n;
  }

  full-Done :
      supported_fat_slots ctx.fat_slots ≡ true
      → (append_at_leaf ctx t).1 ≡ false
      → Done ctx h t (run_stages (height t) ctx (handle_init_cow ctx (append_at_leaf ctx t).0))
  full-Done fat e =
      let j : IsTree ctx.sno h (append_at_leaf ctx t).0 = rw e at append-IsTree in
      let d = cow_fat-Done ctx h (append_at_leaf ctx t).0 fat k j in
      record {
        tree = d.tree;
        retired = d.retired;
        ends =
            rw
              (
                height-FilledRoot h t i.filled,
                ← height-FilledRoot h (append_at_leaf ctx t).0 j.filled,
              )
              d.ends;
        levels = d.levels;
        at_most = d.at_most;
        well_formed = d.well_formed;
        reads = λ s n q.
            d.reads s n q
            ∙ ap (λ r. if ctx.key == q then some ctx.val else r) (append_unseen s q (rw e));
      }

  -- An update with fat leaves, of a well formed tree of older versions, with a 64-bit key and a version
  -- below 2^63, ends, whether its record fits into the sidecar of
  -- its leaf or the leaf is materialized on a copied path: the new tree is well formed, has one more
  -- level at most, and every snapshot from the version of the update on reads the new value at its
  -- key and at all other keys what it read before.
  pub exec_task_fat : supported_fat_slots ctx.fat_slots ≡ true → Done ctx h t (exec_task ctx t)
  unfolding exec_task handle_init
  exec_task_fat fat = elim (Bool-cases (append_at_leaf ctx t).1) [
    | inl e ↦ rw (fat, e) (appended-Done e)
    | inr e ↦ rw (fat, e) (full-Done fat e)
  ]

  -- In a well formed tree of older versions, an append in place of a record with a 64-bit key and a
  -- version below 2^63, to a leaf that older roots share, does not change what a snapshot older than
  -- the record reads at any key.
  pub append_isolated :
      (snapshot q : ℕ)
      → snapshot < ctx.sno
      → find (append_at_leaf ctx t).0 q snapshot ≡ find t q snapshot
  append_isolated s q n =
      append_unseen s q (rw (lt→leb ctx.sno s n) (if_same (append_at_leaf ctx t).1))

-- ===== src/Btree/Plain.antt =====
-- An update of lib/trees/btree without fat leaves, on a copied path, beside the update in place.
use contrees_fat_node.Prelude.{
  ℕ, suc, ◌≤◌, ◌<◌, ◌≡◌, refl, ap, sym, ◌∙◌, false, Option, none, some, List, arith, length,
}
use contrees_fat_node.SortedMap.{Entry, put}
use contrees_fat_node.Btree.Node.{Tree, DeltaBlock, height}
use contrees_fat_node.Btree.Inplace.{update_root_inplace, update_entries}
use contrees_fat_node.Btree.Query.{slots_of}
use contrees_fat_node.Btree.Delta.{supported_fat_slots}
use contrees_fat_node.Btree.Shape.{entries, Ordered, FilledRoot, content-none}
use contrees_fat_node.Btree.Leaf.{update_entries-put, update_entries-Filled}
use contrees_fat_node.Btree.Leaves.{LeafPred, Leaves}
use contrees_fat_node.Btree.Inplace.Correct.{grown_leaf_fresh-Acts}
use contrees_fat_node.Btree.Inplace.Root.{update_root_inplace-Puts, update_root_inplace-FilledRoot}
use contrees_fat_node.Btree.Cow.{Task, handle_init_cow, handle_init, exec_task, update_leaf_cow}
use contrees_fat_node.Btree.Cow.Stages.{LeafStep, Ends}
use contrees_fat_node.Btree.Cow.Correct.{Updated, handle_init_cow-Ends}
use contrees_fat_node.Btree.Update.{key_limit, Reads, Puts-Reads, Ends_same}

-- No leaf has a sidecar.
abbrev pub Bare : LeafPred
Bare ver es d = d ≡ none

bare-LeafStep :
    (w : Option ℕ) (ctx : Task)
    → supported_fat_slots ctx.fat_slots ≡ false
    → (old : ℕ) (es : List Entry) (d : Option DeltaBlock) → Bare old es d
    → length es ≤ 15
    → length (slots_of d) ≤ 8
    → LeafStep w ctx old es d
unfolding update_leaf_cow
bare-LeafStep w ctx plain old es d bare h k =
    let f = update_entries-Filled es ctx.key ctx.val h in
    record {
      update = update_entries es ctx.key ctx.val;
      made = rw plain;
      filled = f;
      acts =
          grown_leaf_fresh-Acts w old ctx.sno ctx.key ctx.val (length es) es d
            (update_entries es ctx.key ctx.val)
            (λ lo hi x y o.
              update_entries-put es ctx.key ctx.val h
              ∙ ap (put ctx.key ctx.val) (rw bare (sym (content-none w es))))
            f;
    }

-- An update without fat leaves, as its readers see it at any snapshot, and beside the update in place.
pub record PlainDone (ctx : Task) (h : ℕ) (t : Tree) (result : Option (Tree × List Tree))
    : Type 0 where
  pub tree : Tree
  pub retired : List Tree
  pub ends : result ≡ some (tree, retired)
  pub levels : ℕ
  pub at_most : levels ≤ suc h
  pub ordered : Ordered 0 key_limit tree
  pub filled : FilledRoot levels tree
  pub bare : Leaves Bare tree
  pub reads : (snapshot : ℕ) → Reads ctx snapshot t tree
  pub as_inplace : entries none tree ≡ entries none (update_root_inplace t ctx.key ctx.val)

module _ (ctx : Task) (h : ℕ) (t : Tree) (plain : supported_fat_slots ctx.fat_slots ≡ false)
    (k : ctx.key < key_limit) (o : Ordered 0 key_limit t) (f : FilledRoot h t)
    (b : Leaves Bare t) where
  plain-Ends :
      (w : Option ℕ)
      → Ends (height t) ctx (handle_init_cow ctx t) (λ t'. Updated w h ctx t t' × Leaves Bare t')
  plain-Ends w =
      handle_init_cow-Ends w ctx Bare Bare (bare-LeafStep w ctx plain) (λ old x. x) (λ es. refl) h t
        f b

  -- An update without fat leaves, with a 64-bit key, of an ordered and filled tree without sidecars,
  -- ends; the new tree is well
  -- formed and without sidecars, has one more level at most, and every reader reads the new value at
  -- the key of the update and at all other keys what it read before. Its entries are those of the
  -- tree that the update in place makes.
  pub exec_task_plain : PlainDone ctx h t (exec_task ctx t)
  unfolding exec_task handle_init
  exec_task_plain =
      let e = plain-Ends none in
      let i = update_root_inplace-Puts h ctx.key ctx.val t f in
      record {
        tree = e.0;
        retired = e.1;
        ends = rw plain e.2;
        levels = e.3.0.levels;
        at_most = e.3.0.at_most;
        ordered = e.3.0.puts.ordered 0 key_limit (omega arith) k o;
        filled = e.3.0.filled;
        bare = e.3.1;
        reads = λ s.
            Puts-Reads ctx s t e.0 k o
              (Ends_same (height t) ctx (handle_init_cow ctx t) _ _ e (plain-Ends (some s))).0.puts;
        as_inplace =
            e.3.0.puts.puts 0 key_limit (omega arith) k o
            ∙ sym (i.puts 0 key_limit (omega arith) k o);
      }

module _ (h k v : ℕ) (t : Tree) (b : k < key_limit) (o : Ordered 0 key_limit t)
    (f : FilledRoot h t) where
  -- The update in place, with a 64-bit key, of an ordered and filled tree puts the entry
  -- among the entries of the leaves themselves, sidecars aside. The new tree is ordered and filled, and has one more
  -- level at most.
  pub update_root_inplace_lem :
      (entries none (update_root_inplace t k v) ≡ put k v (entries none t))
      × Ordered 0 key_limit (update_root_inplace t k v)
      × ((h' : ℕ) × (h' ≤ suc h) × FilledRoot h' (update_root_inplace t k v))
  update_root_inplace_lem =
      let i = update_root_inplace-Puts h k v t f in
      (
        i.puts 0 key_limit (omega arith) b o,
        i.ordered 0 key_limit (omega arith) b o,
        update_root_inplace-FilledRoot h k v t f,
      )

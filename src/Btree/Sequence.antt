-- ===== src/Btree/Sequence.antt =====
-- lib/conctrl/seqcow.hpp over lib/trees/btree: the updates of a client, one after the other, each with
-- the root and the version of the one before. The threads and the ring of contexts are left out.
use contrees_fat_node.Prelude.{
  ℕ, suc, ◌+◌, ◌%◌, ◌^◌, ◌≤◌, ◌<◌, ◌≡◌, refl, ap, subst, ◌∙◌, Bool, true, Option, none, some, List,
  [], ◌∷◌, arith, length, ◌==◌, if◌then◌else◌,
}
use contrees_fat_node.SortedMap.{Entry}
use contrees_fat_node.Btree.Node.{Tree}
use contrees_fat_node.Btree.Query.{find}
use contrees_fat_node.Btree.Delta.{supported_fat_slots}
use contrees_fat_node.Btree.Cow.{Task, exec_task}
use contrees_fat_node.Btree.Update.{key_limit, IsTree, Done, exec_task_fat}

-- `init_task_`: the version is the number of the task, as a 32-bit number.
unfoldable pub init_task : ℕ → Bool → ℕ → ℕ → ℕ → Task
init_task fat_slots gc_enabled tid key val = record {
  sno = tid % 2 ^ 32;
  key = key;
  val = val;
  fat_slots = fat_slots;
  gc_enabled = gc_enabled;
}

-- The root of an update that ended is `t_past` of the next.
unfoldable pub then_from : (Tree → Option Tree) → Option (Tree × List Tree) → Option Tree
then_from next none = none
then_from next (some (root, retired)) = next root

-- The inner loop of `worker_main_`: `exec_task_(++n_committed_next)` for each submitted update.
unfoldable pub exec_tasks : ℕ → Bool → ℕ → Tree → List Entry → Option Tree
unfolding init_task exec_task then_from
exec_tasks fat_slots gc_enabled n_committed t [] = some t
exec_tasks fat_slots gc_enabled n_committed t ((key, val) ∷ submitted) =
    then_from (λ root. exec_tasks fat_slots gc_enabled (n_committed + 1) root submitted)
      (exec_task (init_task fat_slots gc_enabled (n_committed + 1) key val) t)

-- The last value of a key among the updates, or what there was before.
unfoldable pub last_value : ℕ → List Entry → Option ℕ → Option ℕ
last_value q [] r = r
last_value q ((key, val) ∷ submitted) r = last_value q submitted (if key == q then some val else r)

abbrev pub KeysFit : List Entry → Type 0
KeysFit [] = Unit {0}
KeysFit ((key, val) ∷ submitted) = (key < key_limit) × KeysFit submitted

-- All updates ended: the tree is well formed, and from the last version on a reader reads the last
-- value of each key.
pub record AllDone (n_committed : ℕ) (t : Tree) (submitted : List Entry) (result : Option Tree)
    : Type 0 where
  pub tree : Tree
  pub ends : result ≡ some tree
  pub levels : ℕ
  pub well_formed : IsTree (suc (n_committed + length submitted)) levels tree
  pub reads :
      (snapshot q : ℕ)
      → n_committed + length submitted ≤ snapshot
      → find tree q snapshot ≡ last_value q submitted (find t q snapshot)

module _ (fat_slots : ℕ) (gc_enabled : Bool) (fat : supported_fat_slots fat_slots ≡ true) where
  one_task :
      (n h key val : ℕ) (t : Tree)
      → key < key_limit
      → n + 1 < 2 ^ 32
      → IsTree (suc n) h t
      → Done
          (init_task fat_slots gc_enabled (n + 1) key val)
          h
          t
          (exec_task (init_task fat_slots gc_enabled (n + 1) key val) t)
  unfolding init_task
  one_task n h key val t k b i =
      let e : suc n ≡ (n + 1) % 2 ^ 32 = omega (arith, b) in
      exec_task_fat (init_task fat_slots gc_enabled (n + 1) key val) h t
        (subst (λ m. IsTree m h t) e i) k (omega (arith, b)) fat

  -- Fewer than 2^32 updates in all, with fat leaves and 64-bit keys, run one after the other from a well
  -- formed tree of older versions: they end, the tree is well formed, and a reader whose snapshot is
  -- not below the last version reads at each key the last value written, or what was there before.
  pub exec_tasks_lem :
      (n h : ℕ) (t : Tree) (submitted : List Entry)
      → KeysFit submitted
      → n + length submitted < 2 ^ 32
      → IsTree (suc n) h t
      → AllDone n t submitted (exec_tasks fat_slots gc_enabled n t submitted)
  unfolding exec_tasks last_value init_task then_from
  exec_tasks_lem n h t [] k b i = record {
    tree = t;
    ends = refl;
    levels = h;
    well_formed = subst (λ m. IsTree m h t) (let e : suc n ≡ suc (n + 0) = omega arith in e) i;
    reads = λ snapshot q s. refl;
  }
  exec_tasks_lem n h t ((key, val) ∷ submitted) k b i =
      let d = one_task n h key val t k.0 (omega arith) i in
      let e : suc ((n + 1) % 2 ^ 32) ≡ suc (n + 1) = omega (arith, b) in
      let j : IsTree (suc (n + 1)) d.levels d.tree =
        subst (λ m. IsTree m d.levels d.tree) e d.well_formed in
      let r = exec_tasks_lem (n + 1) d.levels d.tree submitted k.1 (omega (arith, b)) j in
      record {
        tree = r.tree;
        ends =
            ap (then_from (λ root. exec_tasks fat_slots gc_enabled (n + 1) root submitted)) d.ends
            ∙ r.ends;
        levels = r.levels;
        well_formed = subst (λ m. IsTree m r.levels r.tree) (omega arith) r.well_formed;
        reads = λ snapshot q s.
            r.reads snapshot q (omega (arith, s))
            ∙ ap (last_value q submitted) (d.reads snapshot (omega (arith, s, b)) q);
      }

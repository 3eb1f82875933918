-- ===== src/Art/Cow.antt =====
-- lib/trees/art: the update that copies the search path, in the stages in which a controller runs it:
-- update_cow.hpp, handlers.hpp and `node_copy`, `leaf_update`.
--
-- The new tree under construction is `t_cur` and the nodes above it, innermost first, each with its
-- children and the index where the pointer to the next one stands. A copied node has no children before
-- `copych`.
pub mod Copy
pub mod Stages
pub mod Append
pub mod Update
use contrees_fat_node.Prelude.{
  ℕ, zero, suc, ◌+◌, ◌-◌, Bool, true, false, Option, none, some, List, [], ◌∷◌, ◌++◌, ltb, ◌==◌,
  if◌then◌else◌,
}
use contrees_fat_node.FatValue.{no_values, read}
use contrees_fat_node.FatValue
use contrees_fat_node.Btree.Cow.{Task}
use contrees_fat_node.Art.Key.{partial_key}
use contrees_fat_node.Art.Index.{Kind, find_idx, append, is_full, node_extend, slot}
use contrees_fat_node.Art.Node.{write, copych, copych_at}
use contrees_fat_node.Art.Tree.{
  Header, Tree, null, leaf, inner, departs, match_prefix, new_leaf, advance, fork_node, extended,
}

pub data Operand : Type 0 where
  search : Operand
  insert : Operand
  fork : Operand
  done : Operand

-- A node of the new tree above `t_cur`.
pub record Frame : Type 0 where
  pub header : Header
  pub kind : Kind
  pub chs : ℕ → Tree
  pub idx : ℕ

-- The fields of a context that the handlers change. `retired` is what `retire_replaced` was called with.
pub record Progress : Type 0 where
  pub key_ofs : ℕ
  pub ch_idx : ℕ
  pub t_past : Tree
  pub t_cur : Tree
  pub above : List Frame
  pub retired : List Tree

-- The whole new tree.
unfoldable pub plug : List Frame → Tree → Tree
unfolding slot write
plug [] t = t
plug (f ∷ fs) t = plug fs (inner f.header f.kind (write f.chs (slot f.kind f.idx) t))

unfoldable pub retire_replaced : Task → List Tree → Tree → List Tree
retire_replaced ctx retired t = if ctx.gc_enabled then retired ++ t ∷ [] else retired

unfoldable pub node_copy : Tree → ℕ → Tree
unfolding read
node_copy null ver = null
node_copy (leaf h val fat) ver = leaf (record h { ver = ver }) (read fat val ver) no_values
node_copy (inner h k chs) ver = inner (record h { ver = ver }) k (λ i. null)

-- `((leaf*)t)->val = val`.
unfoldable pub set_val : Tree → ℕ → Tree
set_val null val = null
set_val (leaf h old fat) val = leaf h val fat
set_val (inner h k chs) val = inner h k chs

unfoldable pub leaf_update : ℕ → Tree → ℕ → Tree
unfolding node_copy set_val
leaf_update ver t_old val = set_val (node_copy t_old ver) val

-- `copych(t_new, t_old)`, which leaves a leaf as it is.
unfoldable pub copy_children : Tree → Tree → Tree
unfolding copych
copy_children null t_old = null
copy_children (leaf h val fat) t_old = leaf h val fat
copy_children (inner h k chs) null = inner h k chs
copy_children (inner h k chs) (leaf h' val fat) = inner h k chs
copy_children (inner h k chs) (inner h' k' chs') = inner h k (copych null k' chs')

-- `*getch(t, idx)`.
unfoldable pub getch : Tree → ℕ → Tree
unfolding slot
getch null idx = null
getch (leaf h val fat) idx = null
getch (inner h k chs) idx = chs (slot k idx)

-- `t_cur` becomes a node above the next one.
unfoldable pub descend : Tree → ℕ → List Frame → List Frame
descend null idx above = above
descend (leaf h val fat) idx above = above
descend (inner h k chs) idx above = record { header = h; kind = k; chs = chs; idx = idx } ∷ above

-- `node_fork_cow`, of a node with the header.
unfoldable pub node_fork_cow : Task → Header → Progress → ℕ → Progress
unfolding node_copy advance fork_node partial_key
node_fork_cow ctx h st pmlen =
    let pk0 = partial_key h.pfx (h.pfx_ofs + pmlen) in
    let pk1 = partial_key ctx.key (st.key_ofs + pmlen) in
    record st {
      t_cur =
          fork_node ctx.sno st.key_ofs pmlen ctx.key ctx.val pk0
            (advance (pmlen + 1) (node_copy st.t_past ctx.sno));
      key_ofs = st.key_ofs + pmlen;
      ch_idx = if ltb pk1 pk0 then 1 else 0;
    }

-- `retire_replaced(t_past)`.
unfoldable pub retire_past : Task → Progress → Progress
unfolding retire_replaced
retire_past ctx st = record st { retired = retire_replaced ctx st.retired st.t_past }

-- `update_cow` at a node that parts from the key.
unfoldable pub cow_apart : Task → Header → Progress → Operand × Progress
unfolding node_fork_cow retire_past match_prefix
cow_apart ctx h st = (fork, retire_past ctx (node_fork_cow ctx h st (match_prefix h ctx.key)))

-- `update_cow` at an inner node along the key.
unfoldable pub cow_along : Task → Header → Kind → Progress → Operand × Progress
unfolding partial_key find_idx node_copy append is_full node_extend extended retire_past
cow_along ctx h k st =
    let pkey = partial_key ctx.key (st.key_ofs + h.pfx_len) in
    let st' : Progress = retire_past ctx (record st { key_ofs = st.key_ofs + h.pfx_len + 1 }) in
    elim (find_idx k pkey) [
      | some i ↦ (search, record st' { ch_idx = i; t_cur = node_copy st.t_past ctx.sno })
      | none ↦
          let (k', i) = append (if is_full k then node_extend k else k) pkey in
          (
            insert,
            record st' {
              ch_idx = i;
              t_cur = inner (extended ctx.sno k (record h { ver = ctx.sno })) k' (λ j. null);
            },
          )
    ]

-- `update_cow`, with `*tp` for `t_cur`.
unfoldable pub update_cow : Task → Progress → Operand × Progress
unfolding new_leaf departs cow_apart leaf_update retire_past cow_along
update_cow ctx st = elim st.t_past [
  | null ↦ (done, record st { t_cur = new_leaf ctx.sno st.key_ofs ctx.key ctx.val })
  | leaf h val fat ↦
      if departs h ctx.key
      then cow_apart ctx h st
      else (done, record (retire_past ctx st) { t_cur = leaf_update ctx.sno st.t_past ctx.val })
  | inner h k chs ↦ if departs h ctx.key then cow_apart ctx h st else cow_along ctx h k st
]

unfoldable pub handle_search : Task → Progress → Operand × Progress
unfolding copy_children descend getch update_cow
handle_search ctx st = update_cow ctx (record st {
  t_past = getch st.t_past st.ch_idx;
  above = descend (copy_children st.t_cur st.t_past) st.ch_idx st.above;
})

-- `copych(t_cur, t_past, ch_idx)`, and the new leaf at `ch_idx`.
unfoldable pub insert_child : Task → Progress → Tree → Tree → Tree
unfolding copych_at slot write new_leaf
insert_child ctx st null t_past = null
insert_child ctx st (leaf h val fat) t_past = leaf h val fat
insert_child ctx st (inner h k chs) null = inner h k chs
insert_child ctx st (inner h k chs) (leaf h' val fat) = inner h k chs
insert_child ctx st (inner h k chs) (inner h' k' chs') = inner h k (
    write (copych_at null k' chs' st.ch_idx) (slot k st.ch_idx)
      (new_leaf ctx.sno st.key_ofs ctx.key ctx.val))

unfoldable pub handle_insert : Task → Progress → Operand × Progress
unfolding insert_child
handle_insert ctx st = (done, record st { t_cur = insert_child ctx st st.t_cur st.t_past })

unfoldable pub handle_fork : Task → Progress → Operand × Progress
unfolding descend getch copy_children
handle_fork ctx st = (
  done,
  record st {
    above = descend st.t_cur st.ch_idx st.above;
    t_cur = copy_children (getch st.t_cur st.ch_idx) st.t_past;
  },
)

unfoldable pub handle : Operand → Task → Progress → Operand × Progress
unfolding handle_search handle_insert handle_fork
handle search ctx st = handle_search ctx st
handle insert ctx st = handle_insert ctx st
handle fork ctx st = handle_fork ctx st
handle done ctx st = (done, st)

-- `while (ctx->op != DONE) { ctx->op = T::handlers[ctx->op](ctx); }`: the new root and what was retired,
-- or `none` if the fuel does not suffice.
unfoldable pub run_handlers : ℕ → Task → Operand × Progress → Option (Tree × List Tree)
unfolding handle plug
run_handlers fuel ctx (done, st) = some (plug st.above st.t_cur, st.retired)
run_handlers zero ctx (search, st) = none
run_handlers zero ctx (insert, st) = none
run_handlers zero ctx (fork, st) = none
run_handlers (suc fuel) ctx (search, st) = run_handlers fuel ctx (handle search ctx st)
run_handlers (suc fuel) ctx (insert, st) = run_handlers fuel ctx (handle insert ctx st)
run_handlers (suc fuel) ctx (fork, st) = run_handlers fuel ctx (handle fork ctx st)

-- The fat fast path: the record is appended to the leaf that `fat_leaf_for` finds.
unfoldable pub append_at_leaf : Task → Tree → Tree × Bool
unfolding departs partial_key find_idx slot write FatValue.append
append_at_leaf ctx null = (null, false)
append_at_leaf ctx (leaf h val fat) =
    if departs h ctx.key
    then (leaf h val fat, false)
    else (let (fat', appended) = FatValue.append fat ctx.fat_slots ctx.sno ctx.val in
        (leaf h val fat', appended))
append_at_leaf ctx (inner h k chs) =
    if departs h ctx.key
    then (inner h k chs, false)
    else elim (find_idx k (partial_key ctx.key (h.pfx_ofs + h.pfx_len))) [
      | none ↦ (inner h k chs, false)
      | some i ↦
          let (ch, appended) = append_at_leaf ctx (chs (slot k i)) in
          (inner h k (write chs (slot k i) ch), appended)
    ]

-- The context when `update_cow` starts at the root.
unfoldable pub start : Tree → Progress
start t = record { key_ofs = 0; ch_idx = 0; t_past = t; t_cur = null; above = []; retired = [] }

unfoldable pub handle_init : Task → Tree → Operand × Progress
unfolding append_at_leaf update_cow start
handle_init ctx t =
    if ctx.fat_slots == 0
    then update_cow ctx (start t)
    else (let (t', appended) = append_at_leaf ctx t in
        if appended then (done, record (start t') { t_cur = t' }) else update_cow ctx (start t'))

-- `exec_task_` over these handlers. A key has eight bytes, so nine steps after `handle_init` suffice.
unfoldable pub exec_task : Task → Tree → Option (Tree × List Tree)
unfolding handle_init run_handlers
exec_task ctx t = run_handlers 9 ctx (handle_init ctx t)

-- ===== src/Btree/Cow.antt =====
-- lib/trees/btree/update_cow.hpp and handlers.hpp: the update that copies the search path, in the
-- stages in which a controller runs it.
--
-- A node of the new tree under construction is known by the list of its ancestors, innermost first:
-- the children of each, and the position of the next one. All of them have the version of the task.
-- Where a stage leaves the children of a copied node for the next stage to copy (`copych`,
-- `copych_split`), they are in place here from the start: no stage reads them before.
pub mod Stages
pub mod Correct
pub mod Fat
pub mod Append
pub mod Kept
use contrees_fat_node.Prelude.{
  ℕ, zero, suc, ◌+◌, Bool, true, false, Option, none, some, List, [], ◌∷◌, ◌++◌, ltb, leb, ◌==◌,
  if◌then◌else◌,
}
use contrees_fat_node.SortedMap.{Entry}
use contrees_fat_node.Btree.Node.{
  Tree, Kids, DeltaBlock, leaf, internal, one, more, full_size, size, child, set_child, findch,
  insert_child, split, new_root, height,
}
use contrees_fat_node.Btree.Delta.{supported_fat_slots, append_leaf_delta}
use contrees_fat_node.Btree.Inplace.{
  Grown, LeafUpdate, update_entries, grown_leaf, root_of, put_grown,
}
use contrees_fat_node.Btree.Materialize.{materialize_leaf_cow}

-- What the client and the controller write into a context, and no stage changes.
pub record Task : Type 0 where
  pub sno : ℕ
  pub key : ℕ
  pub val : ℕ
  pub fat_slots : ℕ
  pub gc_enabled : Bool

abbrev pub Ancestors : Type 0
Ancestors = List (Kids × ℕ)

-- Where a task stands: `ctx->root` is complete, or `t_cur` with the children in hand waits for the
-- handler of its operand. The last list is what `retire_replaced` was called with.
pub data Stage : Type 0 where
  done : Tree → List Tree → Stage
  search_down : Ancestors → Kids → List Tree → Stage
  search_split : Ancestors → Kids → ℕ → List Tree → Stage

-- The whole new tree, from the children of `t_cur`.
unfoldable pub plug : ℕ → Ancestors → Kids → Tree
unfolding set_child
plug sno [] ks = internal sno ks
plug sno ((above, j) ∷ path) ks = plug sno path (set_child above j (internal sno ks))

unfoldable pub retire_replaced : Task → List Tree → Tree → List Tree
retire_replaced ctx retired t = if ctx.gc_enabled then retired ++ t ∷ [] else retired

-- `update_leaf_cow`: new leaves of the version of the task. The worker-owned append mode is not
-- modelled.
unfoldable pub update_leaf_cow : Task → ℕ → List Entry → Option DeltaBlock → Grown
unfolding supported_fat_slots materialize_leaf_cow update_entries grown_leaf
update_leaf_cow ctx ver es d = grown_leaf ctx.sno none ctx.sno (
    if supported_fat_slots ctx.fat_slots
    then materialize_leaf_cow ver es d ctx.sno ctx.key ctx.val
    else update_entries es ctx.key ctx.val)

-- `update_cow`, with `t_cur` given by its ancestors and children.
unfoldable pub update_cow : Task → Ancestors → Kids → List Tree → Stage
unfolding findch child update_leaf_cow put_grown split insert_child size plug retire_replaced
update_cow ctx path ks retired =
    let i = findch ks ctx.key in
    elim (child ks i) [
      | leaf ver es d ↦
          done (plug ctx.sno path (put_grown ks i (update_leaf_cow ctx ver es d)))
            (retire_replaced ctx retired (leaf ver es d))
      | internal ver cs ↦
          let retired' = retire_replaced ctx retired (internal ver cs) in
          if size cs == full_size
          then (let (l, p, r) = split cs in
              search_split path (insert_child ks p (internal ctx.sno l) (internal ctx.sno r) i) i
                retired')
          else search_down ((ks, i) ∷ path) cs retired'
    ]

-- `t->keys[i]`.
unfoldable pub key_of : Kids → ℕ → ℕ
key_of (one c) i = 0
key_of (more c s ks) zero = s
key_of (more c s ks) (suc i) = key_of ks i

-- The children of `chs[i]`.
unfoldable pub kids_at : Kids → ℕ → Kids
unfolding child
kids_at ks i = elim (child ks i) [ leaf ver es d ↦ ks | internal ver cs ↦ cs ]

unfoldable pub handle_search_down : Task → Ancestors → Kids → List Tree → Stage
handle_search_down ctx path ks retired = update_cow ctx path ks retired

-- The half that the separator picks is the next `t_cur`.
unfoldable pub handle_search_split : Task → Ancestors → Kids → ℕ → List Tree → Stage
handle_search_split ctx path ks i retired =
    let j = if leb (key_of ks i) ctx.key then i + 1 else i in
    update_cow ctx ((ks, j) ∷ path) (kids_at ks j) retired

-- `handle_init_cow`.
unfoldable pub handle_init_cow : Task → Tree → Stage
unfolding update_leaf_cow root_of split retire_replaced size
handle_init_cow ctx (leaf ver es d) =
    done (root_of ctx.sno (update_leaf_cow ctx ver es d)) (retire_replaced ctx [] (leaf ver es d))
handle_init_cow ctx (internal ver ks) =
    let retired = retire_replaced ctx [] (internal ver ks) in
    if ltb (size ks) full_size
    then update_cow ctx [] ks retired
    else (let (l, p, r) = split ks in
        let root = more (internal ctx.sno l) p (one (internal ctx.sno r)) in
        if ltb ctx.key p
        then update_cow ctx ((root, 0) ∷ []) l retired
        else update_cow ctx ((root, 1) ∷ []) r retired)

-- `while (ctx->op != DONE) { ctx->op = T::handlers[ctx->op](ctx); }`: the new root and what was
-- retired, or `none` if the fuel does not suffice.
unfoldable pub run_stages : ℕ → Task → Stage → Option (Tree × List Tree)
run_stages fuel ctx (done t retired) = some (t, retired)
run_stages zero ctx (search_down path ks retired) = none
run_stages zero ctx (search_split path ks i retired) = none
run_stages (suc fuel) ctx (search_down path ks retired) =
    run_stages fuel ctx (handle_search_down ctx path ks retired)
run_stages (suc fuel) ctx (search_split path ks i retired) =
    run_stages fuel ctx (handle_search_split ctx path ks i retired)

-- The fat fast path: the record is appended to the sidecar of the leaf for the key.
unfoldable mutual
  unfolding findch append_leaf_delta

  pub append_at_leaf : Task → Tree → Tree × Bool
  append_at_leaf ctx (leaf ver es d) =
      let (d', appended) = append_leaf_delta d ctx.fat_slots ctx.sno ctx.key ctx.val in
      (leaf ver es d', appended)
  append_at_leaf ctx (internal ver ks) =
      let (ks', appended) = append_at_child ctx ks (findch ks ctx.key) in
      (internal ver ks', appended)

  pub append_at_child : Task → Kids → ℕ → Kids × Bool
  append_at_child ctx (one c) i = let (c', appended) = append_at_leaf ctx c in (one c', appended)
  append_at_child ctx (more c s ks) zero =
      let (c', appended) = append_at_leaf ctx c in (more c' s ks, appended)
  append_at_child ctx (more c s ks) (suc i) =
      let (ks', appended) = append_at_child ctx ks i in (more c s ks', appended)

-- `handle_init`. A failed append may still have given the leaf an empty sidecar.
unfoldable pub handle_init : Task → Tree → Stage
unfolding append_at_leaf
handle_init ctx t =
    if supported_fat_slots ctx.fat_slots
    then (let (t', appended) = append_at_leaf ctx t in
        if appended then done t' [] else handle_init_cow ctx t')
    else handle_init_cow ctx t

-- `exec_task_` of lib/conctrl/seqcow.hpp: one update, run to its end.
unfoldable pub exec_task : Task → Tree → Option (Tree × List Tree)
unfolding handle_init handle_init_cow supported_fat_slots run_stages handle_search_down
    handle_search_split update_cow key_of kids_at height
exec_task ctx t = run_stages (height t) ctx (handle_init ctx t)

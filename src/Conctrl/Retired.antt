-- ===== src/Conctrl/Retired.antt =====
-- lib/conctrl/context.hpp: the list of the nodes that an update replaced, kept in its context. Six
-- pointers have their place in the context; more go to a chain of blocks.
pub mod Drain
use contrees_fat_node.Prelude.{
  ℕ, zero, suc, ◌+◌, ◌%◌, ◌^◌, Bool, true, false, not, Option, none, some, List, [], ◌∷◌, ◌++◌, map,
  ltb, ◌==◌, if◌then◌else◌, length, set, take, drop, replicate, min,
}

-- `RETIRED_INLINE_CAPACITY` and `RETIRED_OVERFLOW_CAPACITY`.
abbrev pub retired_inline_capacity : ℕ
retired_inline_capacity = 6

abbrev pub retired_overflow_capacity : ℕ
retired_overflow_capacity = 14

-- The fields of a context that hold the list. A pointer is `none` if it is null. A block of the chain
-- is the list of its `count` nodes, of which `spill` lets in no more than the array of a block has room
-- for; the block at `retired_overflow_head` is the first.
pub record Context {ℓ} (A : Type ℓ) : Type ℓ where
  pub gc_enabled : Bool
  pub retired_inline : List (Option A)
  pub retired_overflow : List (List A)
  pub retired_count : ℕ

module _ {ℓ} {A : Type ℓ} where
  -- An empty list.
  abbrev pub empty : Bool → Context A
  empty gc = record {
    gc_enabled = gc;
    retired_inline = replicate retired_inline_capacity none;
    retired_overflow = [];
    retired_count = 0;
  }

  unfoldable pub spill : List (List A) → A → List (List A)
  spill [] node = (node ∷ []) ∷ []
  spill (block ∷ next) node =
      if length block == retired_overflow_capacity
      then (node ∷ []) ∷ block ∷ next
      else (block ++ node ∷ []) ∷ next

  -- `retired_count` is a `uint16_t`.
  unfoldable pub retire_node : Context A → A → Context A
  unfolding spill
  retire_node ctx node =
      if ltb ctx.retired_count retired_inline_capacity
      then record ctx {
        retired_inline = set ctx.retired_inline ctx.retired_count (some node);
        retired_count = (ctx.retired_count + 1) % 2 ^ 16;
      }
      else record ctx {
        retired_overflow = spill ctx.retired_overflow node;
        retired_count = (ctx.retired_count + 1) % 2 ^ 16;
      }

  unfoldable pub retire_replaced : Context A → Option A → Context A
  unfolding retire_node
  retire_replaced ctx none = ctx
  retire_replaced ctx (some node) = if not ctx.gc_enabled then ctx else retire_node ctx node

  unfoldable pub flatten : List (List A) → List A
  flatten [] = []
  flatten (block ∷ next) = block ++ flatten next

  -- What `consume` was called with, in order; the count that is returned; and the context.
  unfoldable pub drain_retired : Context A → List (Option A) × ℕ × Context A
  unfolding flatten
  drain_retired ctx =
      let n = min ctx.retired_count retired_inline_capacity in
      (
        take n ctx.retired_inline ++ map some (flatten ctx.retired_overflow),
        ctx.retired_count,
        record ctx {
          retired_inline = replicate n none ++ drop n ctx.retired_inline;
          retired_overflow = [];
          retired_count = 0;
        },
      )

  -- One call of `retire_replaced` for each node.
  unfoldable pub retire_all : Context A → List A → Context A
  unfolding retire_replaced
  retire_all ctx [] = ctx
  retire_all ctx (node ∷ nodes) = retire_all (retire_replaced ctx (some node)) nodes

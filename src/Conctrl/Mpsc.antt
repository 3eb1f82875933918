-- ===== src/Conctrl/Mpsc.antt =====
-- lib/conctrl/mpsc_list.hpp: the linked list of waiting tasks, one call of `push` or `pop` after the
-- other. A pointer is a number, and `next` holds the `next` fields of all items; null is `none`.
pub mod Chain
pub mod Queue
mod Examples
use contrees_fat_node.Prelude.{ℕ, Bool, true, false, not, Option, none, some, ◌==◌, if◌then◌else◌}

pub record MpscList : Type 0 where
  pub stub : ℕ
  pub head : ℕ
  pub tail : ℕ
  pub next : ℕ → Option ℕ

-- `item->next = value`.
unfoldable pub set_next : (ℕ → Option ℕ) → ℕ → Option ℕ → ℕ → Option ℕ
set_next next item value i = if i == item then value else next i

-- The constructor, with the address of `stub_`.
unfoldable pub new_list : ℕ → MpscList
new_list stub = record { stub = stub; head = stub; tail = stub; next = λ i. none }

unfoldable pub push : MpscList → ℕ → MpscList
unfolding set_next
push l item = record l {
  head = item;
  next = set_next (set_next l.next item none) l.head (some item);
}

-- `if (next) { tail_ = next; return tail; }`, or null.
unfoldable pub advance_tail : MpscList → Option ℕ → MpscList × Option ℕ
advance_tail l none = (l, none)
advance_tail l (some next) = (record l { tail = next }, some l.tail)

-- `pop` from a tail that is not the stub.
unfoldable pub pop_item : MpscList → Option ℕ → MpscList × Option ℕ
unfolding advance_tail push
pop_item l (some next) = advance_tail l (some next)
pop_item l none =
    if l.tail == l.head
    then (let l' = push l l.stub in advance_tail l' (l'.next l.tail))
    else (l, none)

-- `pop` from the stub: the tail goes on to the next item.
unfoldable pub pop_stub : MpscList → Option ℕ → MpscList × Option ℕ
unfolding pop_item
pop_stub l none = (l, none)
pop_stub l (some next) = pop_item (record l { tail = next }) (l.next next)

unfoldable pub pop : MpscList → MpscList × Option ℕ
unfolding pop_stub pop_item
pop l = if l.tail == l.stub then pop_stub l (l.next l.tail) else pop_item l (l.next l.tail)

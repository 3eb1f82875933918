-- ===== src/Conctrl/Mpsc/Queue.antt =====
-- lib/conctrl/mpsc_list.hpp as a queue.
use contrees_fat_node.Prelude.{
  ℕ, ◌≡◌, ◌≢◌, refl, ap, subst, sym, ◌∙◌, inl, inr, false, Option, none, some, List, [], ◌∷◌, ◌++◌,
  ◌==◌, if◌then◌else◌, arith, Bool-cases, eq→==, ne→==, ==→eq, ==→ne,
}
use contrees_fat_node.Conctrl.Mpsc.{MpscList, push, advance_tail, pop_item, pop_stub, pop}
use contrees_fat_node.Conctrl.Mpsc.Chain.{member, Distinct, Chain, push-Chain, Distinct-last}

-- The items but for the stub.
abbrev pub without : ℕ → List ℕ → List ℕ
without stub [] = []
without stub (x ∷ xs) = if x == stub then without stub xs else x ∷ without stub xs

-- A list whose items wait in this order.
pub record IsQueue (l : MpscList) (items : List ℕ) : Type 0 where
  pub rest : List ℕ
  pub chain : Chain l.next l.tail rest l.head
  pub distinct : Distinct (l.tail ∷ rest)
  pub content : items ≡ without l.stub (l.tail ∷ rest)

abbrev pub first_of : List ℕ → Option ℕ
first_of [] = none
first_of (x ∷ xs) = some x

abbrev pub others_of : List ℕ → List ℕ
others_of [] = []
others_of (x ∷ xs) = xs

member-without :
    (x stub : ℕ) (xs : List ℕ) → x ≢ stub → member x (without stub xs) ≡ false → member x xs ≡ false
member-without x stub [] n m = refl
member-without x stub (y ∷ ys) n m = ground (arith, member-without x stub ys n)

without_last :
    (stub item : ℕ) (xs : List ℕ)
    → item ≢ stub
    → without stub (xs ++ item ∷ []) ≡ without stub xs ++ item ∷ []
without_last stub item [] n = rw (ne→== item stub n) refl
without_last stub item (x ∷ xs) n = ground (arith, without_last stub item xs n)

-- On a list whose items wait in some order, push of an item that is neither the stub nor among them
-- puts it last.
pub push-IsQueue :
    (l : MpscList) (items : List ℕ) (item : ℕ)
    → IsQueue l items
    → item ≢ l.stub
    → member item items ≡ false
    → IsQueue (push l item) (items ++ item ∷ [])
unfolding push
push-IsQueue l items item q n m =
    let absent : member item (l.tail ∷ q.rest) ≡ false =
      member-without item l.stub (l.tail ∷ q.rest) n
        (subst (λ (xs : List ℕ). member item xs ≡ false) q.content m) in
    record {
      rest = q.rest ++ item ∷ [];
      chain = push-Chain l.next l.tail l.head item q.rest q.chain q.distinct absent;
      distinct = Distinct-last item (l.tail ∷ q.rest) q.distinct absent;
      content =
          ap (λ (xs : List ℕ). xs ++ item ∷ []) q.content
          ∙ sym (without_last l.stub item (l.tail ∷ q.rest) n);
    }

-- What `pop` promises: the first item, or null if there is none, and a list of the others.
pub record Pops (items : List ℕ) (r : MpscList × Option ℕ) : Type 0 where
  pub item : r.1 ≡ first_of items
  pub left : IsQueue r.0 (others_of items)

pop_item-Pops :
    (l : MpscList) (rest : List ℕ)
    → l.tail ≢ l.stub
    → Chain l.next l.tail rest l.head
    → Distinct (l.tail ∷ rest)
    → Pops (l.tail ∷ without l.stub rest) (pop_item l (l.next l.tail))
unfolding pop_item advance_tail push
pop_item-Pops l [] n c d =
    let a : member l.stub (l.tail ∷ []) ≡ false = ground (arith, n) in
    let c' = push-Chain l.next l.tail l.head l.stub [] c (refl, tt) a in
    let stub_left : IsQueue (record (push l l.stub) { tail = l.stub }) [] = record {
      rest = [];
      chain = (refl, c'.1.1);
      distinct = (refl, tt);
      content = rw (eq→== l.stub l.stub refl) refl;
    } in
    let l' = push l l.stub in
    let one : pop_item l none ≡ advance_tail l' (l'.next l.tail) =
      ap (λ b. if b then advance_tail l' (l'.next l.tail) else (l, none))
        (eq→== l.tail l.head c.0) in
    subst (λ (r : MpscList × Option ℕ). Pops (l.tail ∷ []) r)
      (sym (ap (pop_item l) c.1 ∙ one ∙ ap (advance_tail l') c'.0))
      (record { item = refl; left = stub_left })
pop_item-Pops l (x ∷ xs) n c d = rw c.0 (record {
  item = refl;
  left = record { rest = xs; chain = c.1; distinct = d.1; content = refl };
})

pop_stub-Pops :
    (l : MpscList) (rest : List ℕ)
    → l.tail ≡ l.stub
    → Chain l.next l.tail rest l.head
    → Distinct (l.tail ∷ rest)
    → Pops (without l.stub rest) (pop_stub l (l.next l.tail))
unfolding pop_stub
pop_stub-Pops l [] e c d = rw c.1 (record {
  item = refl;
  left = record { rest = []; chain = c; distinct = d; content = rw (eq→== l.tail l.stub e) refl };
})
pop_stub-Pops l (x ∷ xs) e c d =
    let n : x ≢ l.stub = ground (arith, d.0, e) in
    rw (c.0, ne→== x l.stub n) (pop_item-Pops (record l { tail = x }) xs n c.1 d.1)

-- On a list whose items wait in some order, pop returns the first item and leaves the others in
-- their order; if there is none, it returns null and the list stays empty.
pub pop-Pops : (l : MpscList) (items : List ℕ) → IsQueue l items → Pops items (pop l)
unfolding pop
pop-Pops l items q = elim (Bool-cases (l.tail == l.stub)) [
  | inl at ↦
      let c : items ≡ without l.stub q.rest = q.content ∙ rw at refl in
      rw (at, c) (pop_stub-Pops l q.rest (==→eq l.tail l.stub at) q.chain q.distinct)
  | inr past ↦
      let c : items ≡ l.tail ∷ without l.stub q.rest = q.content ∙ rw past refl in
      rw (past, c) (pop_item-Pops l q.rest (==→ne l.tail l.stub past) q.chain q.distinct)
]

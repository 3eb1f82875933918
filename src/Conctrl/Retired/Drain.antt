-- ===== src/Conctrl/Retired/Drain.antt =====
-- lib/conctrl/context.hpp: what a context holds after retirements, and what it hands out.
use contrees_fat_node.Prelude.{
  ℕ, suc, ◌+◌, ◌-◌, ◌%◌, ◌^◌, ◌≤◌, ◌<◌, ◌≡◌, refl, ap, sym, ◌∙◌, Bool, true, not, subst, Option,
  none, some, List, [], ◌∷◌, ◌++◌, map, ltb, ◌==◌, if◌then◌else◌, length, set, take, drop,
  replicate, min, arith, tests, Bool-cases, inl, inr, append_assoc, append-nil, length-append,
}
use mathlib.Core.List.{Perm, perm_middle}
use mathlib.Core.List.Perm
use contrees_fat_node.Conctrl.Retired.{
  Context, empty, spill, retire_node, retire_replaced, flatten, drain_retired, retire_all,
}

module _ {ℓ} {A : Type ℓ} where
  -- No block is empty or exceeds its capacity.
  abbrev pub Blocks : List (List A) → Type 0
  Blocks [] = Unit {0}
  Blocks (block ∷ next) = (1 ≤ length block) × (length block ≤ 14) × Blocks next

  pub spill-Blocks : (bs : List (List A)) (x : A) → Blocks bs → Blocks (spill bs x)
  unfolding spill
  spill-Blocks [] x f = (omega arith, omega arith, tt)
  spill-Blocks (b ∷ bs) x f = elim (Bool-cases (length b == 14)) [
    | inl full ↦ rw full (omega arith, omega arith, f)
    | inr room ↦
        rw room
          (omega (tests, length-append b (x ∷ [])), omega (tests, length-append b (x ∷ [])), f.2)
  ]

  flatten-spill : (bs : List (List A)) (x : A) → Perm (flatten (spill bs x)) (x ∷ flatten bs)
  unfolding spill flatten
  flatten-spill [] x = Perm.refl (x ∷ [])
  flatten-spill (b ∷ bs) x = elim (Bool-cases (length b == 14)) [
    | inl full ↦ rw full (Perm.refl (x ∷ b ++ flatten bs))
    | inr room ↦ rw (room, append_assoc b (x ∷ []) (flatten bs)) (perm_middle b (flatten bs))
  ]

  -- The places of the context: the nodes so far, then `m` null pointers.
  abbrev pub places : List A → ℕ → List (Option A)
  places xs m = map some xs ++ replicate m none

  set-places :
      (xs : List A) (m : ℕ) (x : A)
      → set (places xs (suc m)) (length xs) (some x) ≡ places (xs ++ x ∷ []) m
  set-places [] m x = refl
  set-places (y ∷ xs) m x = ap (◌∷◌ (some y)) (set-places xs m x)

  take-places : (xs : List A) (m : ℕ) → take (length xs) (places xs m) ≡ map some xs
  take-places [] m = refl
  take-places (x ∷ xs) m = ap (◌∷◌ (some x)) (take-places xs m)

  clear-places :
      (xs : List A) (m : ℕ)
      → replicate (length xs) none ++ drop (length xs) (places xs m)
        ≡ replicate (length xs + m) none
  clear-places [] m = ap (λ (k : ℕ). replicate k none) (omega arith)
  clear-places (x ∷ xs) m =
      ap (◌∷◌ none) (clear-places xs m)
      ∙ ap (λ (k : ℕ). replicate k none)
          (let e : suc (length xs + m) ≡ suc (length xs) + m = omega arith in e)

  map-some-append : (xs ys : List A) → map some xs ++ map some ys ≡ map some (xs ++ ys)
  map-some-append [] ys = refl
  map-some-append (x ∷ xs) ys = ap (◌∷◌ (some x)) (map-some-append xs ys)

  -- A context that collects holds `n` nodes, `nodes` in some order.
  pub record Holds (ctx : Context A) (n : ℕ) (nodes : List A) : Type ℓ where
    pub on : ctx.gc_enabled ≡ true
    pub kept : List A
    pub room : ℕ
    pub fits : length kept + room ≡ 6
    pub inline_places : ctx.retired_inline ≡ places kept room
    pub first : length kept ≡ min n 6
    pub counted : ctx.retired_count ≡ n
    pub blocks : Blocks ctx.retired_overflow
    pub all : Perm (kept ++ flatten ctx.retired_overflow) nodes

  pub empty-Holds : Holds (empty true) 0 []
  unfolding flatten
  empty-Holds = record {
    on = refl;
    kept = [];
    room = 6;
    fits = omega arith;
    inline_places = refl;
    first = omega arith;
    counted = refl;
    blocks = tt;
    all = Perm.refl [];
  }

  kept_one :
      (ctx : Context A) (n : ℕ) (nodes : List A) (x : A) (m : ℕ) (h : Holds ctx n nodes)
      → h.room ≡ suc m
      → n + 1 < 2 ^ 16
      → n < 6
      → Holds
          (record ctx {
            retired_inline = set ctx.retired_inline ctx.retired_count (some x);
            retired_count = (ctx.retired_count + 1) % 2 ^ 16;
          })
          (suc n)
          (x ∷ nodes)
  kept_one ctx n nodes x m h r b l = record {
    on = h.on;
    kept = h.kept ++ x ∷ [];
    room = m;
    fits = omega (arith, h.fits, length-append h.kept (x ∷ []));
    inline_places =
        let e : ctx.retired_count ≡ length h.kept = omega (arith, h.counted, h.first) in
        rw (h.inline_places, e, r) (set-places h.kept m x);
    first = omega (arith, h.first, length-append h.kept (x ∷ []));
    counted = omega (arith, h.counted);
    blocks = h.blocks;
    all =
        rw (append_assoc h.kept (x ∷ []) (flatten ctx.retired_overflow))
          (Perm.trans (perm_middle h.kept (flatten ctx.retired_overflow)) (Perm.cons x h.all));
  }

  spilled_one :
      (ctx : Context A) (n : ℕ) (nodes : List A) (x : A)
      → Holds ctx n nodes
      → n + 1 < 2 ^ 16
      → 6 ≤ n
      → Holds
          (record ctx {
            retired_overflow = spill ctx.retired_overflow x;
            retired_count = (ctx.retired_count + 1) % 2 ^ 16;
          })
          (suc n)
          (x ∷ nodes)
  spilled_one ctx n nodes x h b l = record {
    on = h.on;
    kept = h.kept;
    room = h.room;
    fits = h.fits;
    inline_places = h.inline_places;
    first = omega (arith, h.first);
    counted = omega (arith, h.counted);
    blocks = spill-Blocks ctx.retired_overflow x h.blocks;
    all =
        Perm.trans (Perm.append_left h.kept (flatten-spill ctx.retired_overflow x))
          (Perm.trans (perm_middle h.kept (flatten ctx.retired_overflow)) (Perm.cons x h.all));
  }

  retire_node-Holds :
      (ctx : Context A) (n : ℕ) (nodes : List A) (x : A)
      → Holds ctx n nodes
      → n + 1 < 2 ^ 16
      → Holds (retire_node ctx x) (suc n) (x ∷ nodes)
  unfolding retire_node
  retire_node-Holds ctx n nodes x h b = elim (Bool-cases (ltb ctx.retired_count 6)) [
    | inl few ↦
        let l : n < 6 = omega (tests, h.counted, few) in
        rw few (kept_one ctx n nodes x (h.room - 1) h (omega (arith, h.first, h.fits)) b l)
    | inr many ↦ rw many (spilled_one ctx n nodes x h b (omega (tests, h.counted, many)))
  ]

  retire_replaced-on :
      (ctx : Context A) (x : A)
      → ctx.gc_enabled ≡ true
      → retire_node ctx x ≡ retire_replaced ctx (some x)
  unfolding retire_replaced
  retire_replaced-on ctx x on = ap (λ gc. if not gc then ctx else retire_node ctx x) (sym on)

  pub retire_replaced-Holds :
      (ctx : Context A) (n : ℕ) (nodes : List A) (x : A)
      → Holds ctx n nodes
      → n + 1 < 2 ^ 16
      → Holds (retire_replaced ctx (some x)) (suc n) (x ∷ nodes)
  retire_replaced-Holds ctx n nodes x h b =
      subst (λ c. Holds c (suc n) (x ∷ nodes)) (retire_replaced-on ctx x h.on)
        (retire_node-Holds ctx n nodes x h b)

  retire_all-Holds :
      (ctx : Context A) (n : ℕ) (xs nodes : List A)
      → Holds ctx n nodes
      → n + length xs < 2 ^ 16
      → Holds (retire_all ctx xs) (n + length xs) (xs ++ nodes)
  unfolding retire_all
  retire_all-Holds ctx n [] nodes h b = rw (let e : n + 0 ≡ n = omega arith in e) h
  retire_all-Holds ctx n (x ∷ xs) nodes h b =
      let r =
        retire_all-Holds (retire_replaced ctx (some x)) (suc n) xs (x ∷ nodes)
          (retire_replaced-Holds ctx n nodes x h (omega arith)) (omega arith) in
      record {
        on = r.on;
        kept = r.kept;
        room = r.room;
        fits = r.fits;
        inline_places = r.inline_places;
        first = omega (arith, r.first);
        counted = omega (arith, r.counted);
        blocks = r.blocks;
        all = Perm.trans r.all (perm_middle xs nodes);
      }

  -- What a context hands out after `nodes` were retired: these nodes in some order, their number, and
  -- an empty context.
  abbrev pub HandsOut : List A → List (Option A) × ℕ × Context A → Type ℓ
  HandsOut nodes (consumed, count, ctx) =
      Perm consumed (map some nodes) × (count ≡ length nodes) × (ctx ≡ empty true)

  cleared :
      (gc : Bool) (kept : List (Option A))
      → gc ≡ true
      → kept ≡ replicate 6 none
      → ◌≡◌ {A = Context A}
          (record {
            gc_enabled = gc;
            retired_inline = kept;
            retired_overflow = [];
            retired_count = 0;
          })
          (empty true)
  cleared gc kept e f = rw (e, f) refl

  drained :
      (ctx : Context A) (nodes : List A)
      → Holds ctx (length nodes) nodes
      → HandsOut nodes (drain_retired ctx)
  unfolding drain_retired
  drained ctx nodes h =
      let e : min ctx.retired_count 6 ≡ length h.kept = omega (arith, h.counted, h.first) in
      let out : take (min ctx.retired_count 6) ctx.retired_inline
            ++ map some (flatten ctx.retired_overflow)
          ≡ map some (h.kept ++ flatten ctx.retired_overflow) =
        rw (e, h.inline_places, take-places h.kept h.room)
          (map-some-append h.kept (flatten ctx.retired_overflow)) in
      let gone : replicate (min ctx.retired_count 6) none
            ++ drop (min ctx.retired_count 6) ctx.retired_inline
          ≡ replicate 6 none =
        rw (e, h.inline_places)
          (clear-places h.kept h.room ∙ ap (λ (k : ℕ). replicate k none) h.fits) in
      (rw out (Perm.map some h.all), h.counted, cleared ctx.gc_enabled _ h.on gone)

  -- Fewer than 2^16 nodes that are retired into an empty context, with reclamation on, stand in
  -- blocks of at most 14 behind the first six, come out of drain_retired, each once, with the right
  -- count, and leave the context empty.
  pub retire_all-HandsOut :
      (nodes : List A)
      → length nodes < 2 ^ 16
      → HandsOut nodes (drain_retired (retire_all (empty true) nodes))
        × Blocks (retire_all (empty true) nodes).retired_overflow
  retire_all-HandsOut nodes b =
      let z : 0 + length nodes ≡ length nodes = omega arith in
      let held : Holds (retire_all (empty true) nodes) (length nodes) nodes =
        rw (append-nil nodes, z) at
          (retire_all-Holds (empty true) 0 nodes [] empty-Holds (omega arith)) in
      (drained (retire_all (empty true) nodes) nodes held, held.blocks)

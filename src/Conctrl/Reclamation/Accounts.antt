-- ===== src/Conctrl/Reclamation/Accounts.antt =====
-- The counters of lib/conctrl/reclamation.hpp.
use contrees_fat_node.Prelude.{
  ℕ, ◌+◌, ◌^◌, ◌<◌, ◌≡◌, ap, sym, ◌∙◌, not, Option, List, [], ◌∷◌, ◌++◌, ◌==◌, arith, if_both,
}
use contrees_fat_node.Conctrl.Retired.{Context, drain_retired}
use contrees_fat_node.Conctrl.Reclamation.{
  RetireBatch, Reclaimer, safe_version, free_front, sum_nodes, sum_bytes, try_reclaim, reclaim,
  push_batch, retire, get_statistics,
}
use contrees_fat_node.Conctrl.Reclamation.Queue.{retired_batch, free_front-append}

module _ {ℓ} {A : Type ℓ} where
  sum_nodes-append :
      (xs ys : List (RetireBatch A)) → sum_nodes (xs ++ ys) ≡ sum_nodes xs + sum_nodes ys
  unfolding sum_nodes
  sum_nodes-append [] ys = omega arith
  sum_nodes-append (x ∷ xs) ys = omega (arith, sum_nodes-append xs ys)

  sum_bytes-append :
      (xs ys : List (RetireBatch A)) → sum_bytes (xs ++ ys) ≡ sum_bytes xs + sum_bytes ys
  unfolding sum_bytes
  sum_bytes-append [] ys = omega arith
  sum_bytes-append (x ∷ xs) ys = omega (arith, sum_bytes-append xs ys)

  -- What was retired was freed or waits in the queue.
  pub record Balanced (s : Reclaimer A) : Type 0 where
    pub nodes : s.reclaimed_nodes + sum_nodes s.retired ≡ s.retired_nodes
    pub bytes : s.reclaimed_bytes + sum_bytes s.retired ≡ s.retired_bytes
    pub nodes_fit : s.retired_nodes < 2 ^ 64
    pub bytes_fit : s.retired_bytes < 2 ^ 64

  -- In a balanced state the statistics report as pending the nodes and the bytes of the queue.
  pub get_statistics_lem :
      (s : Reclaimer A)
      → Balanced s
      → ((get_statistics s).pending_nodes ≡ sum_nodes s.retired)
        × ((get_statistics s).pending_bytes ≡ sum_bytes s.retired)
  unfolding get_statistics
  get_statistics_lem s b =
      (omega (arith, b.nodes, b.nodes_fit), omega (arith, b.bytes, b.bytes_fit))

  reclaim-Balanced : (s : Reclaimer A) (v : ℕ) → Balanced s → Balanced (reclaim s v).0
  unfolding reclaim
  reclaim-Balanced s v b =
      let (freed, left) = free_front v s.retired in
      let e = free_front-append v s.retired in
      let n = ap sum_nodes (sym e) ∙ sum_nodes-append freed left in
      let m = ap sum_bytes (sym e) ∙ sum_bytes-append freed left in
      record {
        nodes = omega (arith, b.nodes, b.nodes_fit, n);
        bytes = omega (arith, b.bytes, b.bytes_fit, m);
        nodes_fit = b.nodes_fit;
        bytes_fit = b.bytes_fit;
      }

  -- A call of `try_reclaim` keeps a state balanced.
  pub try_reclaim-Balanced : (s : Reclaimer A) (w : ℕ) → Balanced s → Balanced (try_reclaim s w).0
  unfolding try_reclaim
  try_reclaim-Balanced s w b =
      if_both (λ r. Balanced r.0) (not s.enabled) (s, []) (reclaim s (safe_version s w)) b
        (reclaim-Balanced s (safe_version s w) b)

  push_batch-Balanced :
      (s : Reclaimer A) (x : RetireBatch A)
      → s.retired_nodes + x.node_count < 2 ^ 64
      → s.retired_bytes + x.bytes < 2 ^ 64
      → Balanced s
      → Balanced (push_batch s x)
  unfolding push_batch sum_nodes sum_bytes
  push_batch-Balanced s x h j b = if_both Balanced (x.node_count == 0) s _ b (
      let n = sum_nodes-append s.retired (x ∷ []) in
      let m = sum_bytes-append s.retired (x ∷ []) in
      record {
        nodes = omega (arith, b.nodes, h, n);
        bytes = omega (arith, b.bytes, j, m);
        nodes_fit = omega (arith, h);
        bytes_fit = omega (arith, j);
      })

  -- A call of `retire` keeps a state balanced as long as the counters do not wrap around.
  pub retire-Balanced :
      (node_size : Option A → ℕ) (s : Reclaimer A) (version : ℕ) (ctx : Context A)
      (rebuilt : Option (A × ℕ × ℕ))
      → s.retired_nodes + (retired_batch node_size version ctx rebuilt).node_count < 2 ^ 64
      → s.retired_bytes + (retired_batch node_size version ctx rebuilt).bytes < 2 ^ 64
      → Balanced s
      → Balanced (retire node_size s version ctx rebuilt).0
  unfolding retire
  retire-Balanced node_size s version ctx rebuilt h j b =
      let x = retired_batch node_size version ctx rebuilt in
      let ctx' = (drain_retired ctx).2 in
      if_both (λ (r : Reclaimer A × Context A). Balanced r.0) (not s.enabled) (s, ctx')
        (push_batch s x, ctx') b (push_batch-Balanced s x h j b)

-- ===== src/Conctrl/Reclamation.antt =====
-- lib/conctrl/reclamation.hpp: `epoch_reclaimer`, one operation after the other. The batches of
-- retired nodes wait in a queue until no reader and no writer can hold an older version.
pub mod Readers
pub mod Queue
pub mod Accounts
use contrees_fat_node.Prelude.{
  ℕ, ◌+◌, ◌-◌, ◌%◌, ◌^◌, Bool, true, false, not, Option, none, some, List, [], ◌∷◌, ◌++◌, map, ltb,
  leb, ◌==◌, if◌then◌else◌, length, set, min,
}
use contrees_fat_node.Conctrl.Retired.{Context, drain_retired}

-- `INACTIVE`.
abbrev pub inactive : ℕ
inactive = 2 ^ 64 - 1

-- `struct retire_batch`. The nodes are pointers, and none is null.
pub record RetireBatch {ℓ} (A : Type ℓ) : Type ℓ where
  pub version : ℕ
  pub bytes : ℕ
  pub node_count : ℕ
  pub nodes : List (Option A)
  pub checkpoint_root : Option A

pub record Statistics : Type 0 where
  pub retired_nodes : ℕ
  pub reclaimed_nodes : ℕ
  pub pending_nodes : ℕ
  pub retired_bytes : ℕ
  pub reclaimed_bytes : ℕ
  pub pending_bytes : ℕ

-- The fields of an `epoch_reclaimer`; `readers` is what each reader has advertised.
pub record Reclaimer {ℓ} (A : Type ℓ) : Type ℓ where
  pub enabled : Bool
  pub readers : List ℕ
  pub published_version : ℕ
  pub retired : List (RetireBatch A)
  pub retired_nodes : ℕ
  pub reclaimed_nodes : ℕ
  pub retired_bytes : ℕ
  pub reclaimed_bytes : ℕ

-- The loop over the slots of the readers.
unfoldable pub oldest_of : ℕ → List ℕ → ℕ
oldest_of oldest [] = oldest
oldest_of oldest (version ∷ versions) =
    oldest_of (if version == inactive then oldest else min oldest version) versions

module _ {ℓ} {A : Type ℓ} where
  unfoldable pub oldest_active_reader : Reclaimer A → ℕ
  unfolding oldest_of
  oldest_active_reader s = oldest_of s.published_version s.readers

  -- The largest version whose batch may be freed.
  unfoldable pub safe_version : Reclaimer A → ℕ → ℕ
  unfolding oldest_active_reader
  safe_version s writer_safe_version = min (oldest_active_reader s) writer_safe_version

  -- The batches that `try_reclaim` frees, oldest first, and those it leaves.
  unfoldable pub free_front : ℕ → List (RetireBatch A) → List (RetireBatch A) × List (RetireBatch A)
  free_front safe [] = ([], [])
  free_front safe (batch ∷ batches) =
      let rest = free_front safe batches in
      if leb batch.version safe then (batch ∷ rest.0, rest.1) else ([], batch ∷ batches)

  unfoldable pub sum_nodes : List (RetireBatch A) → ℕ
  sum_nodes [] = 0
  sum_nodes (batch ∷ batches) = batch.node_count + sum_nodes batches

  unfoldable pub sum_bytes : List (RetireBatch A) → ℕ
  sum_bytes [] = 0
  sum_bytes (batch ∷ batches) = batch.bytes + sum_bytes batches

  -- The state after the batches up to `safe` were freed, and these batches.
  unfoldable pub reclaim : Reclaimer A → ℕ → Reclaimer A × List (RetireBatch A)
  unfolding free_front sum_nodes sum_bytes
  reclaim s safe =
      let (freed, left) = free_front safe s.retired in
      (
        record s {
          retired = left;
          reclaimed_nodes = (s.reclaimed_nodes + sum_nodes freed) % 2 ^ 64;
          reclaimed_bytes = (s.reclaimed_bytes + sum_bytes freed) % 2 ^ 64;
        },
        freed,
      )

  -- `try_reclaim`: the state afterwards, and the batches whose nodes were freed.
  unfoldable pub try_reclaim : Reclaimer A → ℕ → Reclaimer A × List (RetireBatch A)
  unfolding safe_version reclaim
  try_reclaim s writer_safe_version =
      if not s.enabled then (s, []) else reclaim s (safe_version s writer_safe_version)

  unfoldable pub get_statistics : Reclaimer A → Statistics
  get_statistics s = record {
    retired_nodes = s.retired_nodes;
    reclaimed_nodes = s.reclaimed_nodes;
    pending_nodes = (s.retired_nodes + (2 ^ 64 - s.reclaimed_nodes)) % 2 ^ 64;
    retired_bytes = s.retired_bytes;
    reclaimed_bytes = s.reclaimed_bytes;
    pending_bytes = (s.retired_bytes + (2 ^ 64 - s.reclaimed_bytes)) % 2 ^ 64;
  }

  -- A batch without nodes is dropped.
  unfoldable pub push_batch : Reclaimer A → RetireBatch A → Reclaimer A
  push_batch s batch = if batch.node_count == 0 then s else record s {
    retired = s.retired ++ batch ∷ [];
    retired_nodes = (s.retired_nodes + batch.node_count) % 2 ^ 64;
    retired_bytes = (s.retired_bytes + batch.bytes) % 2 ^ 64;
  }

  -- `node_size` is the size of a node, of type `T`. `rebuilt` is the root of a checkpoint that the
  -- update replaced, with the number of its nodes and their bytes, if the tree has checkpoints.
  module _ (node_size : Option A → ℕ) where
    unfoldable pub sizes : List (Option A) → ℕ
    sizes [] = 0
    sizes (node ∷ nodes) = node_size node + sizes nodes

    unfoldable pub batch_of : ℕ → List (Option A) → Option (A × ℕ × ℕ) → RetireBatch A
    unfolding sizes
    batch_of version nodes none = record {
      version = version;
      bytes = sizes nodes;
      node_count = length nodes;
      nodes = nodes;
      checkpoint_root = none;
    }
    batch_of version nodes (some (root, n, bytes)) = record {
      version = version;
      bytes = sizes nodes + bytes;
      node_count = length nodes + n;
      nodes = nodes;
      checkpoint_root = some root;
    }

    -- `retire`: the state and the context afterwards.
    unfoldable pub retire :
        Reclaimer A → ℕ → Context A → Option (A × ℕ × ℕ) → Reclaimer A × Context A
    unfolding drain_retired batch_of push_batch
    retire s version ctx rebuilt =
        let (nodes, count, ctx') = drain_retired ctx in
        if not s.enabled then (s, ctx') else (push_batch s (batch_of version nodes rebuilt), ctx')

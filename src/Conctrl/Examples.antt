-- ===== src/Conctrl/Examples.antt =====
-- Runs of lib/conctrl on small inputs, with numbers for the nodes.
use contrees_fat_node.Prelude.{
  ℕ, ◌≡◌, refl, true, Option, none, some, List, [], ◌∷◌, arith, tests, map,
}
use contrees_fat_node.Conctrl.Retired.{Context, empty, drain_retired, retire_all}
use contrees_fat_node.Conctrl.Retired.Drain.{Blocks, HandsOut, retire_all-HandsOut}
use contrees_fat_node.Conctrl.Reclamation.{
  RetireBatch, Reclaimer, inactive, try_reclaim, retire, get_statistics, sum_nodes, sum_bytes,
}
use contrees_fat_node.Conctrl.Reclamation.Queue.{
  Ascending, Split, try_reclaim-Split, retire-Ascending,
}
use contrees_fat_node.Conctrl.Reclamation.Accounts.{
  Balanced, get_statistics_lem, try_reclaim-Balanced, retire-Balanced,
}

abbrev eight : List ℕ
eight = 1 ∷ 2 ∷ 3 ∷ 4 ∷ 5 ∷ 6 ∷ 7 ∷ 8 ∷ []

retire_all-HandsOut_example :
    HandsOut eight (drain_retired (retire_all (empty true) eight))
    × Blocks (retire_all (empty true) eight).retired_overflow
retire_all-HandsOut_example = retire_all-HandsOut eight (omega tests)

-- The last two of eight come from a block.
eight_drained : (drain_retired (retire_all (empty true) eight)).0 ≡ map some eight
unfolding drain_retired retire_all
eight_drained = refl

abbrev batch : ℕ → ℕ → RetireBatch ℕ
batch version node = record {
  version = version;
  bytes = 256;
  node_count = 1;
  nodes = some node ∷ [];
  checkpoint_root = none;
}

-- The first reader has pinned version 2, the second is inactive.
abbrev three_batches : Reclaimer ℕ
three_batches = record {
  enabled = true;
  readers = 2 ∷ inactive ∷ [];
  published_version = 5;
  retired = batch 1 10 ∷ batch 2 20 ∷ batch 4 40 ∷ [];
  retired_nodes = 5;
  reclaimed_nodes = 2;
  retired_bytes = 1280;
  reclaimed_bytes = 512;
}

three_batches-Balanced : Balanced three_batches
unfolding sum_nodes sum_bytes
three_batches-Balanced = record {
  nodes = refl;
  bytes = refl;
  nodes_fit = omega tests;
  bytes_fit = omega tests;
}

try_reclaim-Split_example : Split three_batches 5 (try_reclaim three_batches 5)
try_reclaim-Split_example = try_reclaim-Split three_batches 5 refl (omega (arith, tests))

two_freed : (try_reclaim three_batches 5).1 ≡ batch 1 10 ∷ batch 2 20 ∷ []
unfolding try_reclaim
two_freed = refl

get_statistics_lem_example :
    ((get_statistics three_batches).pending_nodes ≡ sum_nodes three_batches.retired)
    × ((get_statistics three_batches).pending_bytes ≡ sum_bytes three_batches.retired)
get_statistics_lem_example = get_statistics_lem three_batches three_batches-Balanced

try_reclaim-Balanced_example : Balanced (try_reclaim three_batches 5).0
try_reclaim-Balanced_example = try_reclaim-Balanced three_batches 5 three_batches-Balanced

abbrev two_nodes : Context ℕ
two_nodes = record {
  gc_enabled = true;
  retired_inline = some 50 ∷ some 51 ∷ none ∷ none ∷ none ∷ none ∷ [];
  retired_overflow = [];
  retired_count = 2;
}

abbrev size_of : Option ℕ → ℕ
size_of n = 256

retire-Balanced_example : Balanced (retire size_of three_batches 5 two_nodes none).0
unfolding retire
retire-Balanced_example =
    retire-Balanced size_of three_batches 5 two_nodes none (omega tests) (omega tests)
      three_batches-Balanced

retire-Ascending_example : Ascending 0 (retire size_of three_batches 5 two_nodes none).0.retired
retire-Ascending_example =
    retire-Ascending size_of three_batches 5 two_nodes none (omega (arith, tests))
      (omega (arith, tests))

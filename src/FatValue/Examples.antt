-- ===== src/FatValue/Examples.antt =====
-- Runs of lib/common/fat_value.hpp on small values.
use contrees_fat_node.Prelude.{ℕ, ◌≡◌, refl, inl, some, List, [], ◌∷◌, arith, tests}
use contrees_fat_node.FatValue.{Record, FatValue, unpublished, read, extra_of, append}
use contrees_fat_node.FatValue.Laws.{newest, IsLog, read_lem}
use contrees_fat_node.FatValue.Append.{Appends, append_lem}

abbrev entry : ℕ → ℕ → Record
entry version value = record { value = value; version = version }

abbrev three : List Record
three = entry 2 20 ∷ entry 5 50 ∷ entry 7 70 ∷ []

-- Three of four records.
abbrev three_of_four : FatValue
three_of_four = record {
  values = entry 2 20 ∷ entry 5 50 ∷ [];
  extra = some (entry 7 70 ∷ unpublished ∷ []);
}

three_of_four-IsLog : IsLog 4 three_of_four three
unfolding extra_of
three_of_four-IsLog = record {
  ascends = omega (arith, tests);
  placed = entry 2 20 ∷ entry 5 50 ∷ [];
  spilled = entry 7 70 ∷ [];
  free = 0;
  extra_free = 1;
  parts = refl;
  in_place = refl;
  in_block = refl;
  sized = refl;
  extra_sized = refl;
  in_order = inl refl;
}

read_lem_example : read three_of_four 1 6 ≡ newest 6 1 three
read_lem_example = read_lem 4 three_of_four three 1 6 three_of_four-IsLog

reads_second : read three_of_four 1 6 ≡ 50
unfolding read
reads_second = refl

append_lem_example : Appends 4 three (entry 9 90) (append three_of_four 4 9 90)
append_lem_example =
    append_lem 4 three_of_four three 9 90 refl three_of_four-IsLog (omega (arith, tests))

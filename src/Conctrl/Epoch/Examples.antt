-- ===== src/Conctrl/Epoch/Examples.antt =====
-- A run of a writer, a reader and a scan of an `epoch_reclaimer`.
use contrees_fat_node.Prelude.{ℕ, ◌≡◌, ◌≤◌, refl, arith}
use contrees_fat_node.Conctrl.Epoch.{
  pinned, State, begin_publish, publish_step, pin_step, read_step, set_scan, begin_scan, scan_step,
  end_scan, slot_of, publishes_first, publishes, scans_first, scans_next, frees, Steps, here,
  then_step, initial,
}
use contrees_fat_node.Conctrl.Epoch.Invariant.{Among}
use contrees_fat_node.Conctrl.Epoch.Safety.{pinned-Among, freed-le-pinned}
use contrees_fat_node.Conctrl.Epoch.Progress.{alone, alone-Steps, pin_completes}

join : {n : ℕ} {s t u : State ℕ} → Steps n s t → Steps n t u → Steps n s u
join (here st) rest = rest
join (then_step s t u step steps) rest = then_step s t _ step (join steps rest)

-- A reader has loaded the root 7 when the root 9 is published as version 3.
abbrev halfway : State ℕ
halfway = alone 2 (initial 7) 0

abbrev begun : State ℕ
begun = begin_publish halfway 9 3

abbrev with_root : State ℕ
with_root = publish_step begun begun.writer

abbrev with_version : State ℕ
with_version = publish_step with_root with_root.writer

abbrev published : State ℕ
published = publish_step with_version with_version.writer

published-Steps : Steps 1 (initial 7) published
unfolding read_step pin_step initial begin_publish publish_step
published-Steps = join (alone-Steps 1 2 (initial 7) 0 (omega arith)) (
    then_step halfway begun published
      (publishes_first halfway 9 3 refl (omega arith) (omega arith) (omega arith))
      (then_step begun with_root published (publishes begun) (
        then_step with_root with_version published (publishes with_root)
          (then_step with_version published published (publishes with_version) (here published)))))

-- The reader is refused, starts again, and pins the new root.
abbrev settled : State ℕ
settled = alone 9 published 0

settled-pinned : settled.readers 0 ≡ pinned 9 3
unfolding read_step pin_step initial begin_publish publish_step
settled-pinned = refl

abbrev scanned : State ℕ
scanned = scan_step (begin_scan settled 0) 0 3 0

abbrev freed_old : State ℕ
freed_old = end_scan scanned 0 3 5

freed_old-Steps : Steps 1 (initial 7) freed_old
unfolding read_step pin_step initial begin_publish publish_step begin_scan scan_step set_scan
    slot_of
freed_old-Steps = join published-Steps (
    join (alone-Steps 1 9 published 0 (omega arith)) (
      then_step settled (begin_scan settled 0) freed_old (scans_first settled 0 refl) (
        then_step (begin_scan settled 0) scanned freed_old
          (scans_next (begin_scan settled 0) 0 3 0 refl (omega arith))
          (then_step scanned freed_old freed_old (frees scanned 0 3 5 refl) (here freed_old)))))

pinned-Among_example : Among 9 3 freed_old.history
unfolding read_step pin_step initial begin_publish publish_step begin_scan scan_step set_scan
    slot_of end_scan
pinned-Among_example = pinned-Among 1 7 9 freed_old 0 3 freed_old-Steps (omega arith) refl

freed-le-pinned_example : freed_old.freed ≤ 3
unfolding read_step pin_step initial begin_publish publish_step begin_scan scan_step set_scan
    slot_of end_scan
freed-le-pinned_example = freed-le-pinned 1 7 9 freed_old 0 3 freed_old-Steps (omega arith) refl

freed_three : freed_old.freed ≡ 3
unfolding read_step pin_step initial begin_publish publish_step begin_scan scan_step set_scan
    slot_of end_scan
freed_three = refl

pin_completes_example :
    Steps {A = ℕ} 1 (initial 7) (alone 5 (initial 7) 0)
    × ((alone {A = ℕ} 5 (initial 7) 0).readers 0 ≡ pinned 7 0)
unfolding initial
pin_completes_example = pin_completes 1 7 (initial 7) 0 (here (initial 7)) (omega arith) refl refl

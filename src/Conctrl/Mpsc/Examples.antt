-- ===== src/Conctrl/Mpsc/Examples.antt =====
-- Runs of lib/conctrl/mpsc_list.hpp.
use contrees_fat_node.Prelude.{◌≡◌, refl, some, [], ◌∷◌, arith}
use contrees_fat_node.Conctrl.Mpsc.{MpscList, new_list, push, pop}
use contrees_fat_node.Conctrl.Mpsc.Queue.{IsQueue, Pops, push-IsQueue, pop-Pops}

-- The stub is at 100.
abbrev one : MpscList
one = push (new_list 100) 1

empty-IsQueue : IsQueue (new_list 100) []
unfolding new_list
empty-IsQueue = record { rest = []; chain = (refl, refl); distinct = (refl, tt); content = refl }

one-IsQueue : IsQueue one (1 ∷ [])
unfolding new_list
one-IsQueue = push-IsQueue (new_list 100) [] 1 empty-IsQueue (omega arith) refl

push-IsQueue_example : IsQueue (push one 2) (1 ∷ 2 ∷ [])
unfolding new_list push
push-IsQueue_example = push-IsQueue one (1 ∷ []) 2 one-IsQueue (omega arith) refl

pop-Pops_example : Pops (1 ∷ []) (pop one)
pop-Pops_example = pop-Pops one (1 ∷ []) one-IsQueue

pops_second : (pop (pop (push one 2)).0).1 ≡ some 2
unfolding pop push new_list
pops_second = refl

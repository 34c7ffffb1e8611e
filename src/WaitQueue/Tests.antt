-- ===== src/WaitQueue/Tests.antt =====
-- The properties of the wait queue on a queue in which processes 3 and 5 wait.
use seng21213_os.Prelude.{
  ℕ, zero, suc, ◌+◌, ◌<◌, ◌≡◌, refl, ◌⊎◌, find_first, Bool, true, false, Option, none, some, List,
  [], ◌∷◌, ◌++◌, arith,
}
use seng21213_os.WaitQueue.{WaitQueue, empty, add, pop}
use seng21213_os.WaitQueue.Order.{IsQueue, contents, empty-IsQueue, add_cases}

abbrev two : WaitQueue
two = (add (add empty 3).0 5).0

two-IsQueue : IsQueue two
two-IsQueue = (add_cases (add empty 3).0 5 (add_cases empty 3 empty-IsQueue).0).0

two-contents : contents two ≡ some 3 ∷ some 5 ∷ []
unfolding add seng21213_os.Prelude.find_first
two-contents = refl

pop_order : (pop two).1 ≡ some 3
unfolding add pop seng21213_os.Prelude.find_first
pop_order = refl

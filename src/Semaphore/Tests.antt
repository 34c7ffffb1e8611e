-- ===== src/Semaphore/Tests.antt =====
-- The semaphore properties on a semaphore of one unit that processes 3 and 1 ask for.
use seng21213_os.Prelude.{ℕ, ◌+◌, ◌≡◌, refl, true, some, arith}
use seng21213_os.Fixtures.{sleepy}
use seng21213_os.WaitQueue.{empty}
use seng21213_os.WaitQueue.Order.{empty-IsQueue}
use seng21213_os.Semaphore.{Semaphore, SemState, wait_round, sem_signal}
use seng21213_os.Semaphore.Units.{IsSemaphore, Run, granted, given, lost, run-units}

abbrev one_unit : Semaphore
one_unit = record { count = 1; initialized = true; waiters = empty }

one_unit-IsSemaphore : IsSemaphore one_unit
one_unit-IsSemaphore = record {
  ready = refl;
  queue = empty-IsQueue;
  positive = omega arith;
  none_left = λ l. absurd (omega arith);
}

abbrev first_state : SemState
first_state = record { kernel = record sleepy { current = some 3 }; sems = λ i. one_unit }

abbrev taken : SemState
taken = (wait_round first_state 3 0).0

abbrev other_runs : SemState
other_runs = record taken { kernel = record taken.kernel { current = some 1 } }

abbrev queued : SemState
queued = (wait_round other_runs 1 0).0

abbrev all_grants : ℕ
all_grants =
    0
    + granted (wait_round first_state 3 0).1
    + granted (wait_round other_runs 1 0).1
    + given queued 0

abbrev run : Run 0 first_state (sem_signal queued (some 0)) 1 all_grants (0 + lost queued 0)
run =
    Run.signal
      (Run.wait 1 (Run.elsewhere (record taken.kernel { current = some 1 }) (Run.wait 3 Run.start)))

run-units_example :
    IsSemaphore ((sem_signal queued (some 0)).sems 0)
    × (2 ≡ ((sem_signal queued (some 0)).sems 0).count + all_grants + (0 + lost queued 0))
run-units_example = run-units 0 run one_unit-IsSemaphore (omega arith)

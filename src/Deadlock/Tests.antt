-- ===== src/Deadlock/Tests.antt =====
-- The search on a state in which process 1 waits for the mutex of process 3.
use seng21213_os.Prelude.{◌≡◌, refl, true, none, some, arith, update, find_first}
use seng21213_os.Fixtures.{sleepy}
use seng21213_os.Mutex.{MutexState}
use seng21213_os.Deadlock.{deadlock_detect, demo_search, demo_from, deadlock_demo}
use seng21213_os.Deadlock.Wait.{SingleWait, detect-SingleWait}

abbrev one_waits : MutexState
one_waits = record {
  kernel = sleepy;
  mutexes = λ m. record {
    locked = true;
    initialized = true;
    owner = some 3;
    waiters = record { slots = update (λ i. none) 0 (some 1); count = 1 };
  };
  registry = λ i. 0;
  registry_used = 1;
}

one_waits-SingleWait : SingleWait one_waits 3 1
one_waits-SingleWait = record {
  one = refl;
  owned = refl;
  one_waits = refl;
  waits = refl;
  owner_in = omega arith;
  waiter_in = omega arith;
}

detect-SingleWait_example : deadlock_detect one_waits ≡ true
detect-SingleWait_example = detect-SingleWait one_waits 3 1 one_waits-SingleWait (omega arith) refl

demo_finds_cycle : deadlock_demo ≡ true
unfolding deadlock_demo demo_from demo_search find_first
demo_finds_cycle = refl

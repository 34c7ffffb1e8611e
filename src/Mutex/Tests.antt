-- ===== src/Mutex/Tests.antt =====
-- The mutex properties on a mutex that process 3 takes and process 1, more urgent, waits for.
use seng21213_os.Prelude.{
  ℕ, zero, suc, ◌+◌, ◌≤◌, ◌<◌, ◌≡◌, refl, ◌≢◌, ◌⊎◌, Bool, true, false, Option, none, some, List, [],
  ◌∷◌, arith, if◌then◌else◌, ◌==◌, find_first,
}
use seng21213_os.Machine.{Kernel, is_blocked}
use seng21213_os.Fixtures.{sleepy}
use seng21213_os.WaitQueue.{Outcome, WaitQueue, empty, add}
use seng21213_os.WaitQueue.Order.{contents, empty-IsQueue}
use seng21213_os.Scheduler.{scheduler_block_forever}
use seng21213_os.Mutex.{
  Mutex, MutexState, process, mutex_init, owner_add, boost_owner, propagate, propagate_priority,
  take_mutex, start_waiting, lock_round, init_if_new, mutex_lock, mutex_unlock,
}
use seng21213_os.Mutex.Invariant.{IsMutex, AllMutexes}
use seng21213_os.Mutex.Unlock.{mutex_unlock_cases}
use seng21213_os.Mutex.Priority.{lock_round_inherits}
use seng21213_os.Mutex.Exclusion.{Step, Steps, steps-AllMutexes}

abbrev unused : Mutex
unused = record { locked = false; initialized = false; owner = none; waiters = empty }

-- Process 3 has priority 2 and the others priority 0.
abbrev priorities : Kernel
priorities = record sleepy {
  pcbs = λ i. record (sleepy.pcbs i) { priority = if i == 3 then 2 else 0 };
  current = some 3;
}

abbrev idle : MutexState
idle = record { kernel = priorities; mutexes = λ m. unused; registry = λ i. 0; registry_used = 0 }

abbrev held : MutexState
held = (mutex_lock idle (some 0)).0

abbrev other_runs : MutexState
other_runs = record held { kernel = record held.kernel { current = some 1 } }

abbrev contended : MutexState
contended = (mutex_lock other_runs (some 0)).0

abbrev owner_runs : MutexState
owner_runs = record contended { kernel = record contended.kernel { current = some 3 } }

abbrev run : Steps idle owner_runs
run =
    Steps.next
      (Steps.next
        (Steps.next (Steps.next Steps.start (Step.lock idle 0))
          (Step.elsewhere held (record held.kernel { current = some 1 })))
        (Step.lock other_runs 0))
      (Step.elsewhere contended (record contended.kernel { current = some 3 }))

unused-IsMutex : IsMutex unused
unused-IsMutex = record {
  queue = empty-IsQueue;
  held = λ t. absurd cc;
  free = λ f. (refl, refl);
  apart = λ o i e l. absurd cc;
}

locked_held : (other_runs.mutexes 0).locked ≡ true
unfolding mutex_lock init_if_new mutex_init lock_round take_mutex owner_add start_waiting
    boost_owner propagate_priority propagate seng21213_os.WaitQueue.add
    seng21213_os.Prelude.find_first seng21213_os.Scheduler.scheduler_block_forever
locked_held = refl

owner_of_held : (other_runs.mutexes 0).owner ≡ some 3
unfolding mutex_lock init_if_new mutex_init lock_round take_mutex owner_add start_waiting
    boost_owner propagate_priority propagate seng21213_os.WaitQueue.add
    seng21213_os.Prelude.find_first seng21213_os.Scheduler.scheduler_block_forever
owner_of_held = refl

waits_for_held : (lock_round other_runs 1 0).1 ≡ Outcome.waiting
unfolding mutex_lock init_if_new mutex_init lock_round take_mutex owner_add start_waiting
    boost_owner propagate_priority propagate seng21213_os.WaitQueue.add
    seng21213_os.Prelude.find_first seng21213_os.Scheduler.scheduler_block_forever
waits_for_held = refl

runs_3 : owner_runs.kernel.current ≡ some 3
runs_3 = refl

steps-AllMutexes_example : AllMutexes owner_runs
steps-AllMutexes_example = steps-AllMutexes run (λ m. unused-IsMutex)

mutex_unlock_cases_example :
    (((owner_runs.mutexes 0).owner ≢ some 3) × (mutex_unlock owner_runs (some 0) ≡ owner_runs))
    ⊎ (((owner_runs.mutexes 0).owner ≡ some 3)
        × AllMutexes (mutex_unlock owner_runs (some 0))
        × (((contents (owner_runs.mutexes 0).waiters ≡ [])
              × (((mutex_unlock owner_runs (some 0)).mutexes 0).locked ≡ false))
            ⊎ ((p : ℕ) × (contents (owner_runs.mutexes 0).waiters
                  ≡ some p ∷ contents ((mutex_unlock owner_runs (some 0)).mutexes 0).waiters)
                × (((mutex_unlock owner_runs (some 0)).mutexes 0).owner ≡ some p)
                × (is_blocked (process (mutex_unlock owner_runs (some 0)) p).state ≡ false)))
        × ((j : ℕ) → 0 ≢ j → (mutex_unlock owner_runs (some 0)).mutexes j ≡ owner_runs.mutexes j))
mutex_unlock_cases_example = mutex_unlock_cases owner_runs 0 3 steps-AllMutexes_example runs_3

lock_round_inherits_example :
    ((process (lock_round other_runs 1 0).0 3).priority ≤ (process other_runs 1).priority)
    × ((q : ℕ)
        → (process (lock_round other_runs 1 0).0 q).priority ≤ (process other_runs q).priority)
lock_round_inherits_example =
    lock_round_inherits other_runs 1 0 3 locked_held owner_of_held waits_for_held

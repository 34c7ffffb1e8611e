-- ===== src/WaitQueue.antt =====
-- The queue of waiting processes that kernel/mutex.c, kernel/semaphore.c and kernel/rwlock.c each
-- write out: an array of sixteen `pcb_t *` and a count, first come first served.
pub mod Order
mod Tests
use seng21213_os.Prelude.{
  ℕ, ◌+◌, ◌-◌, Bool, true, false, Option, none, some, ltb, leb, ◌==◌, if◌then◌else◌, update,
  shift_down, find_first,
}
use seng21213_os.Machine.{max_processes}

pub record WaitQueue : Type 0 where
  pub slots : ℕ → Option ℕ
  pub count : ℕ

abbrev pub is_pcb : Option ℕ → ℕ → Bool
is_pcb none p = false
is_pcb (some q) p = q == p

-- The queue of an initialised primitive.
abbrev pub empty : WaitQueue
empty = record { slots = λ i. none; count = 0 }

-- `waitq_add`: whether the process is in the queue afterwards.
unfoldable pub add : WaitQueue → ℕ → WaitQueue × Bool
add q p =
    if leb max_processes q.count
    then (q, false)
    else elim (find_first (λ i. is_pcb (q.slots i) p) q.count 0) [
      | some i ↦ (q, true)
      | none ↦ (record { slots = update q.slots q.count (some p); count = q.count + 1 }, true)
    ]

-- `waitq_pop`: the first waiter, or NULL, and the rest moved up.
unfoldable pub pop : WaitQueue → WaitQueue × Option ℕ
pop q =
    let moved = shift_down (q.count - 1) 0 q.slots in
    if q.count == 0
    then (q, none)
    else (record { slots = update moved (q.count - 1) none; count = q.count - 1 }, q.slots 0)

-- How a part of a call that may wait ends: it returns to the caller, yields because the queue is
-- full and tries again, or yields as a waiter.
pub data Outcome : Type 0 where
  returned retry waiting : Outcome

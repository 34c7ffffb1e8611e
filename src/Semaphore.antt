-- ===== src/Semaphore.antt =====
-- kernel/semaphore.c: the counting semaphore. A call is cut where it yields, as in Mutex.antt. An
-- `int32_t` is its pattern of 32 bits.
pub mod Units
mod Tests
use seng21213_os.Prelude.{
  ℕ, zero, suc, ◌+◌, ◌-◌, ◌%◌, ◌^◌, Bool, true, false, ◌&&◌, Option, none, some, ltb, leb, ◌==◌,
  if◌then◌else◌, update,
}
use seng21213_os.Machine.{Pcb, Kernel, max_processes, is_blocked, u32}
use seng21213_os.WaitQueue.{WaitQueue, Outcome, empty, add, pop}
use seng21213_os.Scheduler.{scheduler_block_forever, scheduler_wake}

-- `semaphore_t`
pub record Semaphore : Type 0 where
  pub count : ℕ
  pub initialized : Bool
  pub waiters : WaitQueue

pub record SemState : Type 0 where
  pub kernel : Kernel
  pub sems : ℕ → Semaphore

abbrev pub set_sem : SemState → ℕ → Semaphore → SemState
set_sem s i x = record s { sems = update s.sems i x }

abbrev pub negative : ℕ → Bool
negative n = leb (2 ^ 31) n

unfoldable pub semaphore_init : SemState → ℕ → ℕ → SemState
semaphore_init s i initial_count = set_sem s i (record {
  count = if negative initial_count then 0 else initial_count;
  initialized = true;
  waiters = empty;
})

-- `sem_init`
unfoldable pub sem_init : SemState → ℕ → ℕ → SemState
sem_init s i initial_count = semaphore_init s i initial_count

unfoldable pub init_if_new : SemState → ℕ → SemState
init_if_new s i = if (s.sems i).initialized then s else semaphore_init s i 0

-- The loop of `sem_wait` up to a yield.
unfoldable pub wait_round : SemState → ℕ → ℕ → SemState × Outcome
wait_round s c i =
    let x = s.sems i in
    let queued = set_sem s i (record x { waiters = (add x.waiters c).0 }) in
    if ltb 0 x.count && ltb x.count (2 ^ 31)
    then (set_sem s i (record x { count = x.count - 1 }), Outcome.returned)
    else if ltb x.waiters.count max_processes
    then (record queued { kernel = scheduler_block_forever queued.kernel }, Outcome.waiting)
    else (s, Outcome.retry)

-- `sem_wait` up to its first yield, when no interrupt comes between the test of `initialized` and
-- irq_save; on an initialised semaphore the test makes no difference.
unfoldable pub sem_wait : SemState → Option ℕ → SemState × Outcome
sem_wait s none = (s, Outcome.returned)
sem_wait s (some i) = elim s.kernel.current [
  | none ↦ (s, Outcome.returned)
  | some c ↦
      if (s.kernel.pcbs c).pid == 0 then (s, Outcome.returned) else wait_round (init_if_new s i) c i
]

-- What a waiter does when it runs again.
unfoldable pub wait_resume : SemState → ℕ → ℕ → SemState × Outcome
wait_resume s c i =
    if is_blocked (s.kernel.pcbs c).state then wait_round s c i else (s, Outcome.returned)

-- The end of `sem_signal`, on an initialised semaphore.
unfoldable pub give_unit : SemState → ℕ → SemState
give_unit s i =
    let x = s.sems i in
    let (q, next) = pop x.waiters in
    let popped = set_sem s i (record x { waiters = q }) in
    elim next [
      | some p ↦ record popped { kernel = scheduler_wake s.kernel p }
      | none ↦ set_sem s i (record x { waiters = q; count = u32 (x.count + 1) })
    ]

unfoldable pub sem_signal : SemState → Option ℕ → SemState
sem_signal s none = s
sem_signal s (some i) = give_unit (init_if_new s i) i

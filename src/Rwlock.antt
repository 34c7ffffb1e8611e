-- ===== src/Rwlock.antt =====
-- kernel/rwlock.c: the reader-writer lock. A call is cut where it yields, as in Mutex.antt.
pub mod Exclusion
pub mod Admit
pub mod Counts
pub mod Handover
pub mod Held
pub mod Leave
mod Tests
use seng21213_os.Prelude.{
  ℕ, zero, suc, ◌+◌, ◌-◌, ◌%◌, ◌^◌, Bool, true, false, ◌&&◌, Option, none, some, ltb, leb, ◌==◌,
  if◌then◌else◌, update,
}
use seng21213_os.Machine.{Pcb, Kernel, is_blocked, set_pcb, u32}
use seng21213_os.WaitQueue.{WaitQueue, Outcome, is_pcb, empty, add, pop}
use seng21213_os.Scheduler.{scheduler_block_forever, scheduler_wake}

-- `rwlock_t`
pub record Rwlock : Type 0 where
  pub readers : ℕ
  pub writer : Option ℕ
  pub reader_waiters : WaitQueue
  pub writer_waiters : WaitQueue
  pub initialized : Bool

pub record RwState : Type 0 where
  pub kernel : Kernel
  pub locks : ℕ → Rwlock

abbrev pub set_lock : RwState → ℕ → Rwlock → RwState
set_lock s l x = record s { locks = update s.locks l x }

abbrev pub is_null : Option ℕ → Bool
is_null none = true
is_null (some p) = false

unfoldable pub rwlock_init : RwState → ℕ → RwState
rwlock_init s l = set_lock s l (record {
  readers = 0;
  writer = none;
  reader_waiters = empty;
  writer_waiters = empty;
  initialized = true;
})

unfoldable pub init_if_new : RwState → ℕ → RwState
init_if_new s l = if (s.locks l).initialized then s else rwlock_init s l

-- `rw->readers++; p->rw_read_locks++;`
unfoldable pub enter_reader : RwState → ℕ → ℕ → RwState
enter_reader s p l =
    let x = s.locks l in
    let counted = set_lock s l (record x { readers = u32 (x.readers + 1) }) in
    let pcb = s.kernel.pcbs p in
    record counted {
      kernel = set_pcb s.kernel p (record pcb { rw_read_locks = u32 (pcb.rw_read_locks + 1) });
    }

abbrev block : RwState → RwState
block s = record s { kernel = scheduler_block_forever s.kernel }

-- The loop of `rwlock_read_lock` up to a yield.
unfoldable pub read_round : RwState → ℕ → ℕ → RwState × Outcome
read_round s c l =
    let x = s.locks l in
    if is_null x.writer && x.writer_waiters.count == 0
    then (enter_reader s c l, Outcome.returned)
    else (
      block (set_lock s l (record x { reader_waiters = (add x.reader_waiters c).0 })),
      Outcome.waiting,
    )

-- `rwlock_read_lock` up to its first yield, when no interrupt comes between the test of
-- `initialized` and irq_save; on an initialised lock the test makes no difference.
unfoldable pub rwlock_read_lock : RwState → Option ℕ → RwState × Outcome
rwlock_read_lock s none = (s, Outcome.returned)
rwlock_read_lock s (some l) = elim s.kernel.current [
  | none ↦ (s, Outcome.returned)
  | some c ↦
      if (s.kernel.pcbs c).pid == 0 then (s, Outcome.returned) else read_round (init_if_new s l) c l
]

-- What a waiting reader does when it runs again.
unfoldable pub read_resume : RwState → ℕ → ℕ → RwState × Outcome
read_resume s c l =
    if is_blocked (s.kernel.pcbs c).state then read_round s c l else (s, Outcome.returned)

-- `if (next) scheduler_wake(next);`
abbrev wake_if : Kernel → Option ℕ → Kernel
wake_if k none = k
wake_if k (some p) = scheduler_wake k p

-- The last reader to leave wakes a writer, which has to take the lock itself.
unfoldable pub wake_writer : RwState → ℕ → RwState
wake_writer s l =
    let x = s.locks l in
    let (q, next) = pop x.writer_waiters in
    let popped = set_lock s l (record x { writer_waiters = q }) in
    if x.readers == 0 && is_null x.writer
    then record popped { kernel = wake_if s.kernel next }
    else s

-- `rw_read_locks--` and `readers--`
unfoldable pub leave_reader : RwState → ℕ → ℕ → RwState
leave_reader s c l =
    let x = s.locks l in
    let pcb = s.kernel.pcbs c in
    record (set_lock s l (record x { readers = x.readers - 1 })) {
      kernel = set_pcb s.kernel c (record pcb { rw_read_locks = pcb.rw_read_locks - 1 });
    }

unfoldable pub rwlock_read_unlock : RwState → Option ℕ → RwState
rwlock_read_unlock s none = s
rwlock_read_unlock s (some l) = elim s.kernel.current [
  | none ↦ s
  | some c ↦ if (s.kernel.pcbs c).rw_read_locks == 0 then s else wake_writer (leave_reader s c l) l
]

-- The loop of `rwlock_write_lock` up to a yield.
unfoldable pub write_round : RwState → ℕ → ℕ → RwState × Outcome
write_round s c l =
    let x = s.locks l in
    if is_null x.writer && x.readers == 0
    then (set_lock s l (record x { writer = some c }), Outcome.returned)
    else (
      block (set_lock s l (record x { writer_waiters = (add x.writer_waiters c).0 })),
      Outcome.waiting,
    )

-- `rwlock_write_lock` up to its first yield, with the same condition.
unfoldable pub rwlock_write_lock : RwState → Option ℕ → RwState × Outcome
rwlock_write_lock s none = (s, Outcome.returned)
rwlock_write_lock s (some l) = elim s.kernel.current [
  | none ↦ (s, Outcome.returned)
  | some c ↦
      if (s.kernel.pcbs c).pid == 0
      then (s, Outcome.returned)
      else write_round (init_if_new s l) c l
]

-- What a waiting writer does when it runs again.
unfoldable pub write_resume : RwState → ℕ → ℕ → RwState × Outcome
write_resume s c l =
    if is_pcb (s.locks l).writer c then (s, Outcome.returned) else write_round s c l

-- One round of the loop that lets the readers in: `r` is the first, and `q` the others.
unfoldable pub admit_one : RwState → ℕ → ℕ → WaitQueue → RwState
admit_one s l r q =
    let popped = set_lock s l (record (s.locks l) { reader_waiters = q }) in
    let entered = enter_reader popped r l in
    record entered { kernel = scheduler_wake entered.kernel r }

-- The loop, on fuel: each round takes one off the queue.
unfoldable pub admit_readers : ℕ → RwState → ℕ → RwState
admit_readers zero s l = s
admit_readers (suc f) s l =
    let x = s.locks l in
    let (q, next) = pop x.reader_waiters in
    elim next [
      | none ↦ set_lock s l (record x { reader_waiters = q })
      | some r ↦ admit_readers f (admit_one s l r q) l
    ]

-- The lock goes to the first waiting writer, or else to all waiting readers.
unfoldable pub pass_on : RwState → ℕ → RwState
pass_on s l =
    let x = s.locks l in
    let (q, next) = pop x.writer_waiters in
    let popped = set_lock s l (record x { writer = none; writer_waiters = q }) in
    elim next [
      | none ↦ admit_readers x.reader_waiters.count popped l
      | some w ↦ record (set_lock s l (record x { writer = some w; writer_waiters = q })) {
        kernel = scheduler_wake s.kernel w;
      }
    ]

-- `rw->writer != process_current()`, which may both be NULL.
abbrev same_process : Option ℕ → Option ℕ → Bool
same_process none none = true
same_process none (some q) = false
same_process (some p) o = is_pcb o p

unfoldable pub rwlock_write_unlock : RwState → Option ℕ → RwState
rwlock_write_unlock s none = s
rwlock_write_unlock s (some l) =
    if same_process (s.locks l).writer s.kernel.current then pass_on s l else s

-- ===== src/Mutex.antt =====
-- kernel/mutex.c: the blocking mutex with priority inheritance. `irq_save` and `irq_restore` make
-- the code between them one step; at each `thread_yield` another process may run, so a function
-- that yields is cut there and says how it goes on.
pub mod Invariant
pub mod Lock
pub mod Unlock
pub mod Priority
pub mod Exclusion
mod Tests
use seng21213_os.Prelude.{
  ℕ, zero, suc, ◌+◌, ◌-◌, Bool, true, false, ◌||◌, Option, none, some, ltb, leb, ◌==◌,
  if◌then◌else◌, update, shift_down, find_first,
}
use seng21213_os.Machine.{Pcb, Kernel, max_processes, set_pcb}
use seng21213_os.WaitQueue.{WaitQueue, Outcome, is_pcb, empty, add, pop}
use seng21213_os.Scheduler.{scheduler_block_forever, scheduler_wake}

abbrev pub max_owners : ℕ
max_owners = 4

abbrev pub mutex_registry_size : ℕ
mutex_registry_size = 32

-- `mutex_t`
pub record Mutex : Type 0 where
  pub locked : Bool
  pub initialized : Bool
  pub owner : Option ℕ
  pub waiters : WaitQueue

-- The kernel with the mutexes, each with its number, and the registry of them.
pub record MutexState : Type 0 where
  pub kernel : Kernel
  pub mutexes : ℕ → Mutex
  pub registry : ℕ → ℕ
  pub registry_used : ℕ

abbrev pub set_mutex : MutexState → ℕ → Mutex → MutexState
set_mutex s m x = record s { mutexes = update s.mutexes m x }

abbrev pub set_process : MutexState → ℕ → Pcb → MutexState
set_process s p x = record s { kernel = set_pcb s.kernel p x }

abbrev pub process : MutexState → ℕ → Pcb
process s p = s.kernel.pcbs p

-- `owner_add`
unfoldable pub owner_add : Pcb → ℕ → Pcb
owner_add p m =
    if leb max_owners p.owned_mutexes
    then p
    else elim (find_first (λ i. is_pcb (p.owned_mutex_list i) m) p.owned_mutexes 0) [
      | some i ↦ p
      | none ↦ record p {
        owned_mutex_list = update p.owned_mutex_list p.owned_mutexes (some m);
        owned_mutexes = p.owned_mutexes + 1;
      }
    ]

-- `owner_remove`
unfoldable pub owner_remove : Pcb → ℕ → Pcb
owner_remove p m = elim (find_first (λ i. is_pcb (p.owned_mutex_list i) m) p.owned_mutexes 0) [
  | none ↦ p
  | some i ↦
      let moved = shift_down (p.owned_mutexes - (i + 1)) i p.owned_mutex_list in
      record p {
        owned_mutex_list = update moved (p.owned_mutexes - 1) none;
        owned_mutexes = p.owned_mutexes - 1;
      }
]

-- `if (w && w->priority < p->priority) p->priority = w->priority;`
unfoldable pub lower_to : Kernel → ℕ → Option ℕ → Kernel
lower_to k p none = k
lower_to k p (some w) =
    if ltb (k.pcbs w).priority (k.pcbs p).priority
    then set_pcb k p (record (k.pcbs p) { priority = (k.pcbs w).priority })
    else k

-- The inner loop of `recompute_priority`, for `n` waiters from `j` on.
unfoldable pub lower_to_waiters : ℕ → ℕ → (ℕ → Option ℕ) → Kernel → ℕ → Kernel
lower_to_waiters zero j waiters k p = k
lower_to_waiters (suc n) j waiters k p =
    lower_to_waiters n (j + 1) waiters (lower_to k p (waiters j)) p

-- One round of its outer loop.
unfoldable pub lower_for : (ℕ → Mutex) → Kernel → ℕ → Option ℕ → Kernel
lower_for mutexes k p none = k
lower_for mutexes k p (some m) =
    lower_to_waiters (mutexes m).waiters.count 0 (mutexes m).waiters.slots k p

-- The outer loop, for `n` owned mutexes from `i` on.
unfoldable pub lower_for_owned : ℕ → ℕ → (ℕ → Mutex) → Kernel → ℕ → Kernel
lower_for_owned zero i mutexes k p = k
lower_for_owned (suc n) i mutexes k p =
    lower_for_owned n (i + 1) mutexes (lower_for mutexes k p ((k.pcbs p).owned_mutex_list i)) p

unfoldable pub recompute_priority : MutexState → ℕ → MutexState
recompute_priority s p =
    let k = s.kernel in
    let reset = set_pcb k p (record (k.pcbs p) { priority = (k.pcbs p).base_priority }) in
    record s { kernel = lower_for_owned (k.pcbs p).owned_mutexes 0 s.mutexes reset p }

-- `p->waiting_mutex->owner`, where both are there.
abbrev pub blocker : MutexState → ℕ → Option ℕ
blocker s p = elim (process s p).waiting_mutex [ none ↦ none | some m ↦ (s.mutexes m).owner ]

abbrev pub set_priority : MutexState → ℕ → ℕ → MutexState
set_priority s p x = set_process s p (record (process s p) { priority = x })

-- The loop of `propagate_priority`, with `n` rounds left to `guard`.
unfoldable pub propagate : ℕ → MutexState → ℕ → MutexState
propagate zero s p = s
propagate (suc n) s p = elim (blocker s p) [
  | none ↦ s
  | some owner ↦
      let rest = propagate n (set_priority s owner (process s p).priority) owner in
      if leb (process s owner).priority (process s p).priority then s else rest
]

unfoldable pub propagate_priority : MutexState → ℕ → MutexState
propagate_priority s p = propagate max_processes s p

abbrev fresh : Mutex
fresh = record { locked = false; initialized = true; owner = none; waiters = empty }

-- `mutex_init`
unfoldable pub mutex_init : MutexState → ℕ → MutexState
mutex_init s m =
    let t = set_mutex s m fresh in
    elim (find_first (λ i. s.registry i == m) s.registry_used 0) [
      | some i ↦ t
      | none ↦
          if ltb s.registry_used mutex_registry_size
          then record t {
            registry = update s.registry s.registry_used m;
            registry_used = s.registry_used + 1;
          }
          else t
    ]

unfoldable pub mutex_registry_get : MutexState → ℕ → Option ℕ
mutex_registry_get s index = if ltb index s.registry_used then some (s.registry index) else none

unfoldable pub mutex_is_locked : MutexState → Option ℕ → Bool
mutex_is_locked s none = false
mutex_is_locked s (some m) = (s.mutexes m).locked

-- The owner inherits the priority of the process that is about to wait.
unfoldable pub boost_owner : MutexState → ℕ → ℕ → MutexState
boost_owner s c m = elim (s.mutexes m).owner [
  | none ↦ s
  | some o ↦
      if ltb (process s c).priority (process s o).priority
      then propagate_priority (set_priority s o (process s c).priority) o
      else s
]

unfoldable pub take_mutex : MutexState → ℕ → ℕ → MutexState
take_mutex s c m =
    let x = s.mutexes m in
    set_process (set_mutex s m (record x { locked = true; owner = some c })) c
      (owner_add (process s c) m)

-- The process waits in the queue `q`, which has it already, and blocks.
unfoldable pub start_waiting : MutexState → ℕ → ℕ → WaitQueue → MutexState
start_waiting s c m q =
    let queued = set_mutex s m (record (s.mutexes m) { waiters = q }) in
    let marked = set_process queued c (record (process s c) { waiting_mutex = some m }) in
    let boosted = boost_owner marked c m in
    record boosted { kernel = scheduler_block_forever boosted.kernel }

-- The loop of `mutex_lock` up to a yield.
unfoldable pub lock_round : MutexState → ℕ → ℕ → MutexState × Outcome
lock_round s c m =
    let (q, queued) = add (s.mutexes m).waiters c in
    if (s.mutexes m).locked
    then if queued then (start_waiting s c m q, Outcome.waiting) else (s, Outcome.retry)
    else (take_mutex s c m, Outcome.returned)

unfoldable pub init_if_new : MutexState → ℕ → MutexState
init_if_new s m = if (s.mutexes m).initialized then s else mutex_init s m

-- `mutex_lock` up to its first yield, when no interrupt comes between the tests and irq_save: the
-- initialisation and the test of the owner are outside it. Mutex/Exclusion has the other case.
unfoldable pub mutex_lock : MutexState → Option ℕ → MutexState × Outcome
mutex_lock s none = (s, Outcome.returned)
mutex_lock s (some m) = elim s.kernel.current [
  | none ↦ (s, Outcome.returned)
  | some c ↦
      let t = init_if_new s m in
      if (process s c).pid == 0
      then (s, Outcome.returned)
      else if is_pcb (t.mutexes m).owner c
      then (t, Outcome.returned)
      else lock_round t c m
]

-- What a waiter does when it runs again.
unfoldable pub lock_resume : MutexState → ℕ → ℕ → MutexState × Outcome
lock_resume s c m =
    if is_pcb (s.mutexes m).owner c
    then (set_process s c (record (process s c) { waiting_mutex = none }), Outcome.returned)
    else lock_round s c m

-- The mutex goes to the first waiter, which wakes.
unfoldable pub hand_over : MutexState → ℕ → ℕ → WaitQueue → MutexState
hand_over s m next q =
    let x = s.mutexes m in
    let given = set_mutex s m (record x { locked = true; owner = some next; waiters = q }) in
    let p = owner_add (record (process s next) { waiting_mutex = none }) m in
    let told = set_process given next p in record told { kernel = scheduler_wake told.kernel next }

unfoldable pub release : MutexState → ℕ → MutexState
release s m =
    let (q, next) = pop (s.mutexes m).waiters in
    elim next [
      | some p ↦ hand_over s m p q
      | none ↦ set_mutex s m (record (s.mutexes m) { locked = false; owner = none; waiters = q })
    ]

-- `mutex_unlock` of a mutex by the process that runs.
unfoldable pub unlock_by : MutexState → ℕ → Option ℕ → MutexState
unlock_by s m none = s
unlock_by s m (some c) =
    let removed = set_process s c (owner_remove (process s c) m) in
    if is_pcb (s.mutexes m).owner c then recompute_priority (release removed m) c else s

-- `mutex_unlock`
unfoldable pub mutex_unlock : MutexState → Option ℕ → MutexState
mutex_unlock s none = s
mutex_unlock s (some m) = unlock_by s m s.kernel.current

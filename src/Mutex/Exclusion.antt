-- ===== src/Mutex/Exclusion.antt =====
-- Mutual exclusion over the interleavings of the processes' calls of kernel/mutex.c: each step is
-- one call up to its yield, or anything the rest of the kernel does. What `mutex_lock` does before
-- irq_save can be interrupted: then its initialisation comes late, as a step `init`, and its first
-- round comes late, as a step `again`. The stores of one `mutex_init` are one step, which the code
-- has only while no interrupt comes between them.
use seng21213_os.Prelude.{ℕ, ◌≡◌, sym, ap, ◌≢◌, inl, inr, some, Option-cases, subst}
use seng21213_os.Machine.{Kernel}
use seng21213_os.Mutex.{
  MutexState, mutex_init, lock_round, lock_resume, mutex_lock, mutex_unlock, unlock_by,
}
use seng21213_os.Mutex.Invariant.{AllMutexes}
use seng21213_os.Mutex.Lock.{
  lock_round-AllMutexes, mutex_lock-AllMutexes, lock_resume_cases, mutex_init-AllMutexes,
}
use seng21213_os.Mutex.Unlock.{mutex_unlock_cases}

-- `again` is a round that starts after an interruption: the first one, after the test of the owner
-- outside irq_save, or the next one, after the queue was full. A process that does not wait is not
-- handed the mutex meanwhile.
pub data Step : MutexState → MutexState → Type 0 where
  init : (s : MutexState) (m : ℕ) → Step s (mutex_init s m)
  lock : (s : MutexState) (m : ℕ) → Step s (mutex_lock s (some m)).0
  again :
      (s : MutexState) (c m : ℕ)
      → s.kernel.current ≡ some c
      → (s.mutexes m).owner ≢ some c
      → Step s (lock_round s c m).0
  resume : (s : MutexState) (c m : ℕ) → s.kernel.current ≡ some c → Step s (lock_resume s c m).0
  unlock : (s : MutexState) (m : ℕ) → Step s (mutex_unlock s (some m))
  elsewhere : (s : MutexState) (k : Kernel) → Step s (record s { kernel = k })

pub data Steps : MutexState → MutexState → Type 0 where
  start : {s : MutexState} → Steps s s
  next : {s t u : MutexState} → Steps s t → Step t u → Steps s u

unlock-AllMutexes : (s : MutexState) (m : ℕ) → AllMutexes s → AllMutexes (mutex_unlock s (some m))
unfolding mutex_unlock unlock_by
unlock-AllMutexes s m v = elim (Option-cases s.kernel.current) [
  | inl e ↦ subst AllMutexes (sym (ap (unlock_by s m) e)) v
  | inr (c, e) ↦ elim (mutex_unlock_cases s m c v e) [
    | inl (ne, h) ↦ subst AllMutexes (sym h) v
    | inr (y, all, rest, others) ↦ all
  ]
]

Step-AllMutexes : {s t : MutexState} → Step s t → AllMutexes s → AllMutexes t
Step-AllMutexes (Step.init s m) v = mutex_init-AllMutexes s m v
Step-AllMutexes (Step.lock s m) v = mutex_lock-AllMutexes s (some m) v
Step-AllMutexes (Step.again s c m e ne) v = lock_round-AllMutexes s c m v ne
Step-AllMutexes (Step.resume s c m e) v = (lock_resume_cases s c m v).0
Step-AllMutexes (Step.unlock s m) v = unlock-AllMutexes s m v
Step-AllMutexes (Step.elsewhere s k) v = v

pub steps-AllMutexes : {s t : MutexState} → Steps s t → AllMutexes s → AllMutexes t
steps-AllMutexes Steps.start v = v
steps-AllMutexes (Steps.next r h) v = Step-AllMutexes h (steps-AllMutexes r v)

-- The owner of `j` is the same in both.
abbrev Keeps : MutexState → MutexState → ℕ → Type 0
Keeps s t j = (t.mutexes j).owner ≡ (s.mutexes j).owner

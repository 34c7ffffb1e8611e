-- ===== src/Rwlock/Exclusion.antt =====
-- Readers and a writer never hold a lock of kernel/rwlock.c together: the calls of the processes in
-- any order, each step one call up to its yield, or anything the rest of the kernel does. A call on
-- a new lock is its initialisation followed by the call. The steps of a lock leave out two things
-- that the code does not prevent: initialising a lock that a process holds, as a call does that was
-- interrupted after its test of `initialized`, and leaving a lock as a reader while the read locks
-- that the process holds are others.
use seng21213_os.Prelude.{
  ℕ, ◌+◌, ◌^◌, ◌<◌, ◌≡◌, true, false, Option, some, List, [], ◌∷◌, ◌++◌, ◌==◌, update,
}
use seng21213_os.Machine.{Kernel, is_blocked}
use seng21213_os.Rwlock.{
  RwState, rwlock_init, rwlock_read_lock, read_resume, rwlock_read_unlock, rwlock_write_lock,
  write_resume, rwlock_write_unlock,
}
use seng21213_os.Rwlock.Held.{length, Holds, after_read}
use seng21213_os.Rwlock.Leave.{after_write}

-- One call of the process `c` that runs, up to its yield, with who has the lock for reading after
-- it. The other calls change nothing.
pub data Step : RwState → Holds → RwState → Holds → Type 0 where
  init : (s : RwState) (h : Holds) (l : ℕ) → h l ≡ [] → Step s h (rwlock_init s l) h
  read_lock :
      (s : RwState) (h : Holds) (c l : ℕ)
      → s.kernel.current ≡ some c
      → (s.kernel.pcbs c).pid == 0 ≡ false
      → (s.locks l).initialized ≡ true
      → length (h l) + 1 < 2 ^ 32
      → Step s h (rwlock_read_lock s (some l)).0 (after_read (rwlock_read_lock s (some l)).1 h l c)
  read_again :
      (s : RwState) (h : Holds) (c l : ℕ)
      → is_blocked (s.kernel.pcbs c).state ≡ true
      → length (h l) + 1 < 2 ^ 32
      → Step s h (read_resume s c l).0 (after_read (read_resume s c l).1 h l c)
  read_unlock :
      (s : RwState) (h : Holds) (c l : ℕ) (before after : List (Option ℕ))
      → s.kernel.current ≡ some c
      → (s.kernel.pcbs c).rw_read_locks == 0 ≡ false
      → h l ≡ before ++ some c ∷ after
      → Step s h (rwlock_read_unlock s (some l)) (update h l (before ++ after))
  write_lock :
      (s : RwState) (h : Holds) (c l : ℕ)
      → s.kernel.current ≡ some c
      → (s.kernel.pcbs c).pid == 0 ≡ false
      → (s.locks l).initialized ≡ true
      → Step s h (rwlock_write_lock s (some l)).0 h
  write_again : (s : RwState) (h : Holds) (c l : ℕ) → Step s h (write_resume s c l).0 h
  write_unlock :
      (s : RwState) (h : Holds) (c l : ℕ)
      → s.kernel.current ≡ some c
      → (s.locks l).writer ≡ some c
      → Step s h (rwlock_write_unlock s (some l)) (after_write s h l)
  elsewhere : (s : RwState) (h : Holds) (k : Kernel) → Step s h (record s { kernel = k }) h

pub data Steps : RwState → Holds → RwState → Holds → Type 0 where
  start : {s : RwState} {h : Holds} → Steps s h s h
  next : {s t u : RwState} {h i j : Holds} → Steps s h t i → Step t i u j → Steps s h u j

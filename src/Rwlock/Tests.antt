-- ===== src/Rwlock/Tests.antt =====
-- The properties of the reader-writer lock that process 3 has as the writer, while process 1 waits
-- to read.
use seng21213_os.Prelude.{ℕ, ◌≡◌, refl, ◌==◌, ◌⊎◌, true, false, none, some, [], ◌∷◌, arith}
use seng21213_os.Scheduler.Awake.{IsAwake}
use seng21213_os.Fixtures.{sleepy}
use seng21213_os.WaitQueue.{empty, add}
use seng21213_os.WaitQueue.Order.{contents, empty-IsQueue, add_cases}
use seng21213_os.Rwlock.{
  Rwlock, RwState, rwlock_init, init_if_new, write_round, rwlock_read_lock, rwlock_write_lock,
  rwlock_write_unlock,
}
use seng21213_os.Rwlock.Held.{Holds, after_read}
use seng21213_os.Rwlock.Exclusion.{Step, Steps}
use seng21213_os.Rwlock.Admit.{Admitted}
use seng21213_os.Rwlock.Counts.{AllCounted}
use seng21213_os.Rwlock.Handover.{write_unlock_cases}

abbrev unused : Rwlock
unused = record {
  readers = 0;
  writer = none;
  reader_waiters = empty;
  writer_waiters = empty;
  initialized = false;
}

abbrev idle : RwState
idle = record { kernel = record sleepy { current = some 3 }; locks = λ l. unused }

abbrev ready : RwState
ready = rwlock_init idle 0

ready_new : (ready.locks 0).initialized ≡ true
unfolding rwlock_init
ready_new = refl

runs_3 : ready.kernel.current ≡ some 3
unfolding rwlock_init
runs_3 = refl

not_first : (ready.kernel.pcbs 3).pid == 0 ≡ false
unfolding rwlock_init
not_first = refl

abbrev writing : RwState
writing = (rwlock_write_lock ready (some 0)).0

abbrev other_runs : RwState
other_runs = record writing { kernel = record writing.kernel { current = some 1 } }

other_new : (other_runs.locks 0).initialized ≡ true
unfolding rwlock_init rwlock_write_lock init_if_new write_round
other_new = refl

other_first : (other_runs.kernel.pcbs 1).pid == 0 ≡ false
unfolding rwlock_init rwlock_write_lock init_if_new write_round
other_first = refl

abbrev contended : RwState
contended = (rwlock_read_lock other_runs (some 0)).0

abbrev nobody : Holds
nobody l = []

abbrev held : Holds
held = after_read (rwlock_read_lock other_runs (some 0)).1 nobody 0 1

abbrev run : Steps idle nobody contended held
run =
    Steps.next
      (Steps.next
        (Steps.next (Steps.next Steps.start (Step.init idle nobody 0 refl))
          (Step.write_lock ready nobody 3 0 runs_3 not_first ready_new))
        (Step.elsewhere writing nobody (record writing.kernel { current = some 1 })))
      (Step.read_lock other_runs nobody 1 0 refl other_first other_new (omega arith))

abbrev leaving : RwState
leaving = record {
  kernel = record sleepy { current = some 3 };
  locks =
      λ l. record unused { writer = some 3; reader_waiters = (add empty 1).0; initialized = true };
}

abbrev left : RwState
left = rwlock_write_unlock leaving (some 0)

write_unlock_cases_example :
    ((w : ℕ) × (contents empty ≡ some w ∷ contents (left.locks 0).writer_waiters)
      × ((left.locks 0).writer ≡ some w)
      × IsAwake left.kernel w
      × ((left.locks 0).readers ≡ 0)
      × ((left.locks 0).reader_waiters ≡ (add empty 1).0))
    ⊎ ((contents empty ≡ [])
        × ((left.locks 0).writer_waiters.count ≡ 0)
        × Admitted (record (leaving.locks 0) { writer = none }) left 0
        × AllCounted leaving.kernel left.kernel (contents (add empty 1).0))
write_unlock_cases_example =
    write_unlock_cases leaving 0 3 refl refl empty-IsQueue (add_cases empty 1 empty-IsQueue).0
      (omega arith)

-- ===== src/Rwlock/Handover.antt =====
-- A writer leaves a lock of kernel/rwlock.c: who has it next.
use seng21213_os.Prelude.{
  ℕ, ◌^◌, ◌<◌, [], ◌∷◌, ◌≡◌, sym, ◌∙◌, ap, ◌⊎◌, inl, inr, true, none, some, arith, Option-cases,
  update, update_self, subst,
}
use seng21213_os.Scheduler.Awake.{IsAwake, scheduler_wake-awake}
use seng21213_os.WaitQueue.Order.{IsQueue, contents, pop-none}
use seng21213_os.WaitQueue.{pop}
use seng21213_os.Rwlock.{
  Rwlock, RwState, set_lock, same_process, admit_readers, pass_on, rwlock_write_unlock,
}
use seng21213_os.Machine.{Kernel}
use seng21213_os.Rwlock.Counts.{AllCounted, admit_readers-AllCounted}
use seng21213_os.Rwlock.Admit.{
  Admitted, admit_readers-Admitted, nobody_waits, first_waits, pop_same,
}

-- What the lock is after the writer left.
abbrev Next : Kernel → Rwlock → RwState → ℕ → Type 0
Next k x t l =
    ((w : ℕ) × (contents x.writer_waiters ≡ some w ∷ contents (t.locks l).writer_waiters)
      × ((t.locks l).writer ≡ some w)
      × IsAwake t.kernel w
      × ((t.locks l).readers ≡ x.readers)
      × ((t.locks l).reader_waiters ≡ x.reader_waiters))
    ⊎ ((contents x.writer_waiters ≡ [])
        × ((t.locks l).writer_waiters.count ≡ 0)
        × Admitted (record x { writer = none }) t l
        × AllCounted k t.kernel (contents x.reader_waiters))

pass_on-Next :
    (s : RwState) (l : ℕ)
    → IsQueue (s.locks l).writer_waiters
    → IsQueue (s.locks l).reader_waiters
    → (s.locks l).readers < 2 ^ 32
    → Next s.kernel (s.locks l) (pass_on s l) l
unfolding pass_on
pass_on-Next s l vw vr b =
    let x = s.locks l in
    let q = (pop x.writer_waiters).0 in
    elim (Option-cases (pop x.writer_waiters).1) [
      | inl n ↦
          let y : Rwlock = record x { writer = none; writer_waiters = q } in
          let popped = set_lock s l y in
          let at_l : popped.locks l ≡ y = update_self s.locks l y in
          let r : Admitted (popped.locks l) (admit_readers x.reader_waiters.count popped l) l =
            admit_readers-Admitted x.reader_waiters.count popped l
              (subst (λ z. IsQueue z.reader_waiters) (sym at_l) vr)
              (subst (λ (z : Rwlock). z.readers < 2 ^ 32) (sym at_l) b)
              (omega (arith, ap (λ z. z.reader_waiters.count) at_l)) in
          let t = admit_readers x.reader_waiters.count popped l in
          let m : Admitted y t l = subst (λ z. Admitted z t l) at_l r in
          let counted : AllCounted s.kernel t.kernel (contents x.reader_waiters) =
            subst (λ (z : Rwlock). AllCounted s.kernel t.kernel (contents z.reader_waiters)) at_l
              (admit_readers-AllCounted x.reader_waiters.count popped l
                (subst (λ z. IsQueue z.reader_waiters) (sym at_l) vr)
                (omega (arith, ap (λ z. z.reader_waiters.count) at_l))) in
          rw (pass_on, n)
            (inr (
              nobody_waits x.writer_waiters vw n,
              ap (λ z. z.count) (r.same_waiters ∙ ap (λ z. z.writer_waiters) at_l)
                  ∙ pop-none x.writer_waiters vw n,
              record {
                none_wait = m.none_wait;
                all_read = m.all_read;
                all_awake = m.all_awake;
                same_writer = m.same_writer;
                same_waiters = m.same_waiters ∙ pop_same x.writer_waiters vw n;
              },
              counted,
            ))
      | inr (w, n) ↦
          let y : Rwlock = record x { writer = some w; writer_waiters = q } in
          let at_l : update s.locks l y l ≡ y = update_self s.locks l y in
          rw (pass_on, n)
            (inl (
              w,
              first_waits x.writer_waiters w vw n
                  ∙ ap (λ z. some w ∷ contents z.writer_waiters) (sym at_l),
              ap (λ z. z.writer) at_l,
              scheduler_wake-awake s.kernel w,
              ap (λ z. z.readers) at_l,
              ap (λ z. z.reader_waiters) at_l,
            ))
    ]

-- `write_unlock` by the writer `c`, on a lock with two valid queues: the lock passes to the writer
-- that waits longest, who is awake then, and the readers wait on; or, when no writer waits, all the
-- readers that wait have the lock, are awake and count one read lock more each, and then no process
-- waits for it.
pub write_unlock_cases :
    (s : RwState) (l c : ℕ)
    → s.kernel.current ≡ some c
    → (s.locks l).writer ≡ some c
    → IsQueue (s.locks l).writer_waiters
    → IsQueue (s.locks l).reader_waiters
    → (s.locks l).readers < 2 ^ 32
    → (let t = rwlock_write_unlock s (some l) in
        ((w : ℕ) × (contents (s.locks l).writer_waiters
            ≡ some w ∷ contents (t.locks l).writer_waiters)
          × ((t.locks l).writer ≡ some w)
          × IsAwake t.kernel w
          × ((t.locks l).readers ≡ (s.locks l).readers)
          × ((t.locks l).reader_waiters ≡ (s.locks l).reader_waiters))
        ⊎ ((contents (s.locks l).writer_waiters ≡ [])
            × ((t.locks l).writer_waiters.count ≡ 0)
            × Admitted (record (s.locks l) { writer = none }) t l
            × AllCounted s.kernel t.kernel (contents (s.locks l).reader_waiters)))
unfolding rwlock_write_unlock pass_on
write_unlock_cases s l c e h vw vr b =
    let x = s.locks l in
    let t : same_process x.writer s.kernel.current ≡ true =
      ap (same_process x.writer) e ∙ ap (λ o. same_process o (some c)) h ∙ ground arith in
    let by : rwlock_write_unlock s (some l) ≡ pass_on s l = rw (rwlock_write_unlock, t) in
    subst (λ r. Next s.kernel (s.locks l) r l) (sym by) (pass_on-Next s l vw vr b)

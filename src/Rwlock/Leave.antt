-- ===== src/Rwlock/Leave.antt =====
-- A process leaves a lock of kernel/rwlock.c: the readers that hold it are the rest, or those that
-- are let in.
use seng21213_os.Prelude.{
  ℕ, zero, suc, ◌+◌, ◌≡◌, refl, sym, ◌∙◌, ap, ◌≢◌, inl, inr, true, false, ◌&&◌, Option, none, some,
  List, [], ◌∷◌, ◌++◌, arith, ◌==◌, if◌then◌else◌, Bool-cases, Option-cases, update, update_self,
  update_ne, subst,
}
use native.Mathlib.Decide.{ℕ_discrete}
use seng21213_os.WaitQueue.{WaitQueue, pop}
use seng21213_os.WaitQueue.Order.{IsQueue, contents, pop_cases}
use seng21213_os.Rwlock.{
  Rwlock, RwState, set_lock, is_null, same_process, enter_reader, wake_writer, leave_reader,
  rwlock_read_unlock, admit_one, admit_readers, pass_on, rwlock_write_unlock,
}
use seng21213_os.Rwlock.Admit.{Admitted, admit_readers-Admitted}
use seng21213_os.Rwlock.Held.{
  length, length-append_one, length-slots_from, Holds, IsExclusive, AllExclusive, update_both,
  update_lock,
}

-- The readers that are let in when the writer leaves: all that wait, if no writer waits.
abbrev pub after_write : RwState → Holds → ℕ → Holds
after_write s h l =
    if is_null (pop (s.locks l).writer_waiters).1
    then update h l (h l ++ contents (s.locks l).reader_waiters)
    else h

wake_writer-AllExclusive :
    (s : RwState) (h : Holds) (l : ℕ) → AllExclusive s h → AllExclusive (wake_writer s l) h
unfolding wake_writer
wake_writer-AllExclusive s h l v =
    let x = s.locks l in
    let e = v l in
    elim (Bool-cases (x.readers == 0 && is_null x.writer)) [
      | inl t ↦
          rw (wake_writer, t)
            (update_lock s h l _ v (record {
              counted = e.counted;
              exclusive = e.exclusive;
              readers_wait = e.readers_wait;
              writers_wait = (pop_cases x.writer_waiters e.writers_wait).0;
            }))
      | inr f ↦ rw (wake_writer, f) v
    ]

leave_reader-AllExclusive :
    (s : RwState) (h : Holds) (c l : ℕ) (before after : List (Option ℕ))
    → h l ≡ before ++ some c ∷ after
    → AllExclusive s h
    → AllExclusive (leave_reader s c l) (update h l (before ++ after))
unfolding leave_reader
leave_reader-AllExclusive s h c l before after y v =
    let e = v l in
    let n : length (h l) ≡ length (before ++ after) + 1 =
      ap length y ∙ length-append_one before after (some c) in
    update_both s h l _ _ v (record {
      counted = omega (arith, e.counted, n);
      exclusive = λ w g. absurd (omega (arith, n, ap length (e.exclusive w g)));
      readers_wait = e.readers_wait;
      writers_wait = e.writers_wait;
    })

pub read_unlock-AllExclusive :
    (s : RwState) (h : Holds) (c l : ℕ) (before after : List (Option ℕ))
    → s.kernel.current ≡ some c
    → (s.kernel.pcbs c).rw_read_locks == 0 ≡ false
    → h l ≡ before ++ some c ∷ after
    → AllExclusive s h
    → AllExclusive (rwlock_read_unlock s (some l)) (update h l (before ++ after))
unfolding rwlock_read_unlock
read_unlock-AllExclusive s h c l before after e z y v =
    rw (rwlock_read_unlock, e, z)
      (wake_writer-AllExclusive (leave_reader s c l) (update h l (before ++ after)) l
        (leave_reader-AllExclusive s h c l before after y v))

admit_readers_others :
    (f : ℕ) (s : RwState) (l j : ℕ) → l ≢ j → (admit_readers f s l).locks j ≡ s.locks j
unfolding admit_readers admit_one enter_reader
admit_readers_others zero s l j ne = refl
admit_readers_others (suc f) s l j ne =
    let x = s.locks l in
    elim (Option-cases (pop x.reader_waiters).1) [
      | inl n ↦ rw (admit_readers, n) (update_ne s.locks l j _ ne)
      | inr (r, n) ↦
          let q = (pop x.reader_waiters).0 in
          let one = admit_one s l r q in
          let popped = update s.locks l (record x { reader_waiters = q }) in
          let same : one.locks j ≡ s.locks j =
            update_ne popped l j _ ne ∙ update_ne s.locks l j _ ne in
          rw (admit_readers, n) (admit_readers_others f one l j ne ∙ same)
    ]

nobody-IsQueue : (q : WaitQueue) → q.count ≡ 0 → IsQueue q
nobody-IsQueue q z = record {
  bounded = omega arith;
  filled = λ i l. absurd (omega arith);
  distinct = λ i j a b e. absurd (omega arith);
}

-- Nobody had the lock for reading, and `n` readers are let in.
admit-IsExclusive :
    (s : RwState) (h : Holds) (l : ℕ)
    → AllExclusive s h
    → h l ≡ []
    → (s.locks l).writer ≡ none
    → IsExclusive
        ((admit_readers (s.locks l).reader_waiters.count s l).locks l)
        (h l ++ contents (s.locks l).reader_waiters)
admit-IsExclusive s h l v y none_in =
    let x = s.locks l in
    let e = v l in
    let zero_in : x.readers ≡ 0 = e.counted ∙ ap length y in
    let m : Admitted x (admit_readers x.reader_waiters.count s l) l =
      admit_readers-Admitted x.reader_waiters.count s l e.readers_wait (omega arith)
        (omega arith) in
    record {
      counted =
          omega (arith, m.all_read, e.readers_wait.bounded)
          ∙ sym (length-slots_from x.reader_waiters.slots 0 x.reader_waiters.count)
          ∙ sym (ap (λ a. length (a ++ contents x.reader_waiters)) y);
      exclusive = λ w g. absurd (cc (m.same_writer, none_in, g));
      readers_wait = nobody-IsQueue _ m.none_wait;
      writers_wait = subst IsQueue (sym m.same_waiters) e.writers_wait;
    }

-- `left` is the lock without its writer.
admit-AllExclusive :
    (s : RwState) (h : Holds) (l : ℕ) (left : Rwlock)
    → s.locks l ≡ left
    → h l ≡ []
    → left.writer ≡ none
    → AllExclusive s h
    → AllExclusive
        (admit_readers left.reader_waiters.count s l)
        (update h l (h l ++ contents left.reader_waiters))
admit-AllExclusive s h l left e y n v j = elim (ℕ_discrete l j) [
  | yes g ↦
      let t : l == j ≡ true = ground (arith, g) in
      rw t (
        subst
          (λ i.
            IsExclusive ((admit_readers left.reader_waiters.count s l).locks i)
              (h l ++ contents left.reader_waiters))
          g
          (subst
            (λ (x : Rwlock).
              IsExclusive ((admit_readers x.reader_waiters.count s l).locks l)
                (h l ++ contents x.reader_waiters))
            e (admit-IsExclusive s h l v y (ap (λ x. x.writer) e ∙ n))))
  | no ne ↦
      let f : l == j ≡ false = ground (arith, ne) in
      let same = admit_readers_others left.reader_waiters.count s l j ne in
      rw f (subst (λ x. IsExclusive x (h j)) (sym same) (v j))
]

pass_on-AllExclusive :
    (s : RwState) (h : Holds) (c l : ℕ)
    → AllExclusive s h
    → (s.locks l).writer ≡ some c
    → AllExclusive (pass_on s l) (after_write s h l)
unfolding pass_on
pass_on-AllExclusive s h c l v y =
    let x = s.locks l in
    let e = v l in
    let q = (pop x.writer_waiters).0 in
    let vq : IsQueue q = (pop_cases x.writer_waiters e.writers_wait).0 in
    let nobody : h l ≡ [] = e.exclusive c y in
    elim (Option-cases (pop x.writer_waiters).1) [
      | inl n ↦
          let left : Rwlock = record x { writer = none; writer_waiters = q } in
          rw (pass_on, n)
            (admit-AllExclusive (set_lock s l left) h l left (update_self s.locks l left) nobody
              refl
              (update_lock s h l left v (record {
                counted = e.counted;
                exclusive = λ w g. absurd cc;
                readers_wait = e.readers_wait;
                writers_wait = vq;
              })))
      | inr (w, n) ↦
          rw (pass_on, n)
            (update_lock s h l _ v (record {
              counted = e.counted;
              exclusive = λ z g. nobody;
              readers_wait = e.readers_wait;
              writers_wait = vq;
            }))
    ]

pub write_unlock-AllExclusive :
    (s : RwState) (h : Holds) (c l : ℕ)
    → s.kernel.current ≡ some c
    → (s.locks l).writer ≡ some c
    → AllExclusive s h
    → AllExclusive (rwlock_write_unlock s (some l)) (after_write s h l)
unfolding rwlock_write_unlock
write_unlock-AllExclusive s h c l e y v =
    let x = s.locks l in
    let t : same_process x.writer s.kernel.current ≡ true =
      ap (same_process x.writer) e ∙ ap (λ o. same_process o (some c)) y ∙ ground arith in
    rw (rwlock_write_unlock, t) (pass_on-AllExclusive s h c l v y)

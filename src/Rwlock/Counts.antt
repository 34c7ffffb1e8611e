-- ===== src/Rwlock/Counts.antt =====
-- Each reader that is let in counts one read lock more: `rw_read_locks` of kernel/rwlock.c.
use seng21213_os.Prelude.{
  ℕ, zero, suc, ◌+◌, ◌≤◌, ◌<◌, [], ◌∷◌, ◌≡◌, ◌≢◌, refl, sym, ◌∙◌, ap, inl, inr, some, Option, List,
  arith, Bool-cases, Option-cases, update_self, update_ne, subst,
}
use native.Mathlib.Decide.{ℕ_discrete}
use seng21213_os.Machine.{Pcb, Kernel, is_blocked, set_pcb, u32}
use seng21213_os.Scheduler.{scheduler_wake}
use seng21213_os.WaitQueue.Order.{IsQueue, slots_from, contents, pop_cases, pop-apart}
use seng21213_os.WaitQueue.{WaitQueue, pop}
use seng21213_os.Rwlock.{Rwlock, RwState, enter_reader, admit_one, admit_readers}
use seng21213_os.Rwlock.Admit.{admit_one-lock, pop-count, nobody_waits, first_waits}

abbrev reads : Kernel → ℕ → ℕ
reads k i = (k.pcbs i).rw_read_locks

-- Each process of the list holds one read lock more afterwards.
pub data AllCounted (before after : Kernel) : List (Option ℕ) → Type 0 where
  empty : AllCounted before after []
  more :
      (r : ℕ) (l : List (Option ℕ))
      → (after.pcbs r).rw_read_locks ≡ u32 ((before.pcbs r).rw_read_locks + 1)
      → AllCounted before after l
      → AllCounted before after (some r ∷ l)

data Absent (i : ℕ) : List (Option ℕ) → Type 0 where
  empty : Absent i []
  more : (o : Option ℕ) (l : List (Option ℕ)) → o ≢ some i → Absent i l → Absent i (o ∷ l)

slots_from-Absent :
    (s : ℕ → Option ℕ) (p i n : ℕ)
    → ((j : ℕ) → i ≤ j → j < i + n → s j ≢ some p)
    → Absent p (slots_from s i n)
slots_from-Absent s p i zero h = Absent.empty
slots_from-Absent s p i (suc n) h =
    Absent.more (s i) (slots_from s (i + 1) n) (h i (omega arith) (omega arith))
      (slots_from-Absent s p (i + 1) n (λ j a b. h j (omega arith) (omega arith)))

first-Absent :
    (q : WaitQueue) (r : ℕ) → IsQueue q → (pop q).1 ≡ some r → Absent r (contents (pop q).0)
first-Absent q r v e =
    slots_from-Absent (pop q).0.slots r 0 (pop q).0.count
      (λ j a b. pop-apart q r j v e (omega (arith, b)))

Absent-head : {i : ℕ} {o : Option ℕ} {l : List (Option ℕ)} → Absent i (o ∷ l) → o ≢ some i
Absent-head (Absent.more o l ne a) = ne

Absent-tail : {i : ℕ} {o : Option ℕ} {l : List (Option ℕ)} → Absent i (o ∷ l) → Absent i l
Absent-tail (Absent.more o l ne a) = a

set_pcb-reads :
    (k : Kernel) (p i : ℕ) (x : Pcb)
    → x.rw_read_locks ≡ reads k p
    → reads (set_pcb k p x) i ≡ reads k i
set_pcb-reads k p i x h = elim (ℕ_discrete p i) [
  | yes e ↦
      ap (reads (set_pcb k p x)) (sym e)
      ∙ ap (λ y. y.rw_read_locks) (update_self k.pcbs p x)
      ∙ h
      ∙ ap (reads k) e
  | no ne ↦ ap (λ y. y.rw_read_locks) (update_ne k.pcbs p i x ne)
]

scheduler_wake-reads : (k : Kernel) (p i : ℕ) → reads (scheduler_wake k p) i ≡ reads k i
unfolding scheduler_wake
scheduler_wake-reads k p i = elim (Bool-cases (is_blocked (k.pcbs p).state)) [
  | inl t ↦ rw (scheduler_wake, t) (set_pcb-reads k p i _ refl)
  | inr f ↦ rw (scheduler_wake, f)
]

admit_one-reads :
    (s : RwState) (l r : ℕ) (q : WaitQueue)
    → reads (admit_one s l r q).kernel r ≡ u32 (reads s.kernel r + 1)
unfolding admit_one enter_reader
admit_one-reads s l r q =
    scheduler_wake-reads _ r r ∙ ap (λ p. p.rw_read_locks) (update_self s.kernel.pcbs r _)

admit_one-reads_ne :
    (s : RwState) (l r i : ℕ) (q : WaitQueue)
    → r ≢ i
    → reads (admit_one s l r q).kernel i ≡ reads s.kernel i
unfolding admit_one enter_reader
admit_one-reads_ne s l r i q ne =
    scheduler_wake-reads _ r i ∙ ap (λ p. p.rw_read_locks) (update_ne s.kernel.pcbs r i _ ne)

-- What holds of the queue of the lock after one round.
after_one :
    (s : RwState) (l r : ℕ) (P : WaitQueue → Type 0)
    → P (pop (s.locks l).reader_waiters).0
    → P ((admit_one s l r (pop (s.locks l).reader_waiters).0).locks l).reader_waiters
after_one s l r P =
    subst (λ (y : Rwlock). P y.reader_waiters)
      (sym (admit_one-lock s l r (pop (s.locks l).reader_waiters).0))

admit_readers-reads :
    (f : ℕ) (s : RwState) (l i : ℕ)
    → IsQueue (s.locks l).reader_waiters
    → Absent i (contents (s.locks l).reader_waiters)
    → reads (admit_readers f s l).kernel i ≡ reads s.kernel i
unfolding admit_readers
admit_readers-reads zero s l i v a = refl
admit_readers-reads (suc f) s l i v a =
    let x = s.locks l in
    elim (Option-cases (pop x.reader_waiters).1) [
      | inl n ↦ rw (admit_readers, n)
      | inr (r, n) ↦
          let q = (pop x.reader_waiters).0 in
          let one = admit_one s l r q in
          let b : Absent i (some r ∷ contents q) =
            subst (Absent i) (first_waits x.reader_waiters r v n) a in
          rw (admit_readers, n)
            (admit_readers-reads f one l i
                (after_one s l r IsQueue (pop_cases x.reader_waiters v).0)
                (after_one s l r (λ o. Absent i (contents o)) (Absent-tail b))
              ∙ admit_one-reads_ne s l r i q (λ g. Absent-head b (ap some g)))
    ]

-- Counting from an earlier state in which only `r` had another number.
count_from :
    (a b c : Kernel) (r : ℕ) {l : List (Option ℕ)}
    → ((i : ℕ) → r ≢ i → reads b i ≡ reads a i)
    → Absent r l
    → AllCounted b c l
    → AllCounted a c l
count_from a b c r same z AllCounted.empty = AllCounted.empty
count_from a b c r same z (AllCounted.more i l e n) =
    AllCounted.more i l (e ∙ ap (λ x. u32 (x + 1)) (same i (λ g. Absent-head z (ap some (sym g)))))
      (count_from a b c r same (Absent-tail z) n)

pub admit_readers-AllCounted :
    (f : ℕ) (s : RwState) (l : ℕ)
    → IsQueue (s.locks l).reader_waiters
    → (s.locks l).reader_waiters.count ≤ f
    → AllCounted s.kernel (admit_readers f s l).kernel (contents (s.locks l).reader_waiters)
unfolding admit_readers
admit_readers-AllCounted zero s l v h =
    let z : (s.locks l).reader_waiters.count ≡ 0 = omega (arith, h) in
    subst (λ n. AllCounted s.kernel s.kernel (slots_from (s.locks l).reader_waiters.slots 0 n))
      (sym z) AllCounted.empty
admit_readers-AllCounted (suc f) s l v h =
    let x = s.locks l in
    elim (Option-cases (pop x.reader_waiters).1) [
      | inl n ↦
          rw (admit_readers, n)
            (subst (AllCounted s.kernel s.kernel) (sym (nobody_waits x.reader_waiters v n))
              AllCounted.empty)
      | inr (r, n) ↦
          let q = (pop x.reader_waiters).0 in
          let one = admit_one s l r q in
          let vq = after_one s l r IsQueue (pop_cases x.reader_waiters v).0 in
          let absent = first-Absent x.reader_waiters r v n in
          let small : q.count ≤ f = omega (arith, pop-count x.reader_waiters r n) in
          let rest : AllCounted one.kernel (admit_readers f one l).kernel (contents q) =
            subst
              (λ (y : Rwlock).
                AllCounted one.kernel (admit_readers f one l).kernel (contents y.reader_waiters))
              (admit_one-lock s l r q)
              (admit_readers-AllCounted f one l vq (after_one s l r (λ o. o.count ≤ f) small)) in
          let first : reads (admit_readers f one l).kernel r ≡ u32 (reads s.kernel r + 1) =
            admit_readers-reads f one l r vq (after_one s l r (λ o. Absent r (contents o)) absent)
            ∙ admit_one-reads s l r q in
          rw (admit_readers, n)
            (subst (AllCounted s.kernel (admit_readers f one l).kernel)
              (sym (first_waits x.reader_waiters r v n))
              (AllCounted.more r (contents q) first (
                count_from s.kernel one.kernel (admit_readers f one l).kernel r
                  (λ i ne. admit_one-reads_ne s l r i q ne) absent rest)))
    ]

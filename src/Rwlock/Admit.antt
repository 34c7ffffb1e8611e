-- ===== src/Rwlock/Admit.antt =====
-- The readers that wait for a lock of kernel/rwlock.c are let in and woken.
use seng21213_os.Prelude.{
  ℕ, zero, suc, ◌+◌, ◌-◌, ◌^◌, ◌≤◌, ◌<◌, [], ◌∷◌, ◌≡◌, refl, sym, ◌∙◌, ap, inl, inr, true, none,
  some, Option, List, arith, ◌==◌, Bool-cases, Option-cases, update, update_self, subst,
}
use seng21213_os.Machine.{Pcb, Kernel, is_blocked, set_pcb, u32}
use seng21213_os.Scheduler.Awake.{IsAwake, scheduler_wake-awake, scheduler_wake-IsAwake}
use seng21213_os.WaitQueue.Order.{
  IsQueue, slots_from, contents, pop_cases, pop-none, pop-nonempty, popped_none,
}
use seng21213_os.WaitQueue.{WaitQueue, pop}
use seng21213_os.Rwlock.{Rwlock, RwState, set_lock, enter_reader, admit_one, admit_readers}

-- The processes of the list do not wait any more.
pub data AllAwake (k : Kernel) : List (Option ℕ) → Type 0 where
  empty : AllAwake k []
  more : (r : ℕ) (l : List (Option ℕ)) → IsAwake k r → AllAwake k l → AllAwake k (some r ∷ l)

-- The lock `l` of `t` is `x` with all readers in that waited for `x`, who are awake.
pub record Admitted (x : Rwlock) (t : RwState) (l : ℕ) : Type 0 where
  pub none_wait : (t.locks l).reader_waiters.count ≡ 0
  pub all_read : (t.locks l).readers ≡ u32 (x.readers + x.reader_waiters.count)
  pub all_awake : AllAwake t.kernel (contents x.reader_waiters)
  pub same_writer : (t.locks l).writer ≡ x.writer
  pub same_waiters : (t.locks l).writer_waiters ≡ x.writer_waiters

abbrev pub admitted : Rwlock → WaitQueue → Rwlock
admitted x q = record x { reader_waiters = q; readers = u32 (x.readers + 1) }

pub admit_one-lock :
    (s : RwState) (l r : ℕ) (q : WaitQueue) → (admit_one s l r q).locks l ≡ admitted (s.locks l) q
unfolding admit_one enter_reader
admit_one-lock s l r q =
    let popped : ℕ → Rwlock = update s.locks l (record (s.locks l) { reader_waiters = q }) in
    update_self popped l _
    ∙ ap (λ (y : Rwlock). record y { readers = u32 (y.readers + 1) }) (update_self s.locks l _)

pub pop-count : (q : WaitQueue) (p : ℕ) → (pop q).1 ≡ some p → (pop q).0.count ≡ q.count - 1
unfolding pop
pop-count q p e = elim (Bool-cases (q.count == 0)) [
  | inl t ↦ absurd (cc (rw (pop, t) at e))
  | inr f ↦ rw (pop, f)
]

pub nobody_waits : (q : WaitQueue) → IsQueue q → (pop q).1 ≡ none → contents q ≡ []
nobody_waits q v e = elim (pop_cases q v).1 [ inl (z, g) ↦ z | inr (p, z, g) ↦ absurd (cc (e, g)) ]

pub first_waits :
    (q : WaitQueue) (w : ℕ)
    → IsQueue q
    → (pop q).1 ≡ some w
    → contents q ≡ some w ∷ contents (pop q).0
first_waits q w v e = elim (pop_cases q v).1 [
  | inl (z, g) ↦ absurd (cc (sym e ∙ ap (λ x. x.1) g))
  | inr (p, z, g) ↦ z ∙ ap (λ o. o ∷ contents (pop q).0) (sym g ∙ e)
]

pub pop_same : (q : WaitQueue) → IsQueue q → (pop q).1 ≡ none → (pop q).0 ≡ q
unfolding pop
pop_same q v e =
    let z : q.count ≡ 0 = popped_none q v e in
    let t : q.count == 0 ≡ true = ground (arith, z) in rw (pop, t)

admit_one-IsAwake :
    (s : RwState) (l r i : ℕ) (q : WaitQueue)
    → IsAwake s.kernel i
    → IsAwake (admit_one s l r q).kernel i
unfolding admit_one enter_reader
admit_one-IsAwake s l r i q h =
    let pcb = s.kernel.pcbs r in
    let p : Pcb = record pcb { rw_read_locks = u32 (pcb.rw_read_locks + 1) } in
    scheduler_wake-IsAwake (set_pcb s.kernel r p) r i (elim (Bool-cases (r == i)) [
      | inl y ↦
          let e : r ≡ i = ground (arith, y) in
          rw y (ap (λ z. is_blocked (s.kernel.pcbs z).state) e ∙ h)
      | inr n ↦ rw n h
    ])

admit_readers-IsAwake :
    (f : ℕ) (s : RwState) (l i : ℕ) → IsAwake s.kernel i → IsAwake (admit_readers f s l).kernel i
unfolding admit_readers
admit_readers-IsAwake zero s l i h = h
admit_readers-IsAwake (suc f) s l i h = elim (Option-cases (pop (s.locks l).reader_waiters).1) [
  | inl n ↦ rw (admit_readers, n) h
  | inr (r, n) ↦
      let q = (pop (s.locks l).reader_waiters).0 in
      rw (admit_readers, n)
        (admit_readers-IsAwake f (admit_one s l r q) l i (admit_one-IsAwake s l r i q h))
]

admit_none :
    (s : RwState) (l : ℕ)
    → IsQueue (s.locks l).reader_waiters
    → (s.locks l).readers < 2 ^ 32
    → (pop (s.locks l).reader_waiters).1 ≡ none
    → (s.locks l).reader_waiters.count ≡ 0
    → Admitted
        (s.locks l)
        (set_lock s l (record (s.locks l) { reader_waiters = (pop (s.locks l).reader_waiters).0 }))
        l
admit_none s l v b e z =
    let x = s.locks l in
    let y : Rwlock = record x { reader_waiters = (pop x.reader_waiters).0 } in
    let at_l : update s.locks l y l ≡ y = update_self s.locks l y in
    record {
      none_wait = ap (λ o. o.reader_waiters.count) at_l ∙ pop-none x.reader_waiters v e;
      all_read = omega (arith, ap (λ o. o.readers) at_l);
      all_awake =
          subst (AllAwake s.kernel) (sym (nobody_waits x.reader_waiters v e)) AllAwake.empty;
      same_writer = ap (λ o. o.writer) at_l;
      same_waiters = ap (λ o. o.writer_waiters) at_l;
    }

-- The reader `r` that was first is awake after the loop, as are the others.
admitted-AllAwake :
    (f : ℕ) (s : RwState) (l r : ℕ)
    → IsQueue (s.locks l).reader_waiters
    → (pop (s.locks l).reader_waiters).1 ≡ some r
    → (let q = (pop (s.locks l).reader_waiters).0 in
        let t = admit_readers f (admit_one s l r q) l in
        AllAwake t.kernel (contents ((admit_one s l r q).locks l).reader_waiters)
        → AllAwake t.kernel (contents (s.locks l).reader_waiters))
unfolding admit_one
admitted-AllAwake f s l r v n a =
    let x = s.locks l in
    let q = (pop x.reader_waiters).0 in
    let one = admit_one s l r q in
    let t = admit_readers f one l in
    let others : AllAwake t.kernel (contents q) =
      subst (λ y. AllAwake t.kernel (contents y.reader_waiters)) (admit_one-lock s l r q) a in
    let first : IsAwake t.kernel r = admit_readers-IsAwake f one l r (scheduler_wake-awake _ r) in
    subst (AllAwake t.kernel) (sym (first_waits x.reader_waiters r v n))
      (AllAwake.more r (contents q) first others)

pub admit_readers-Admitted :
    (f : ℕ) (s : RwState) (l : ℕ)
    → IsQueue (s.locks l).reader_waiters
    → (s.locks l).readers < 2 ^ 32
    → (s.locks l).reader_waiters.count ≤ f
    → Admitted (s.locks l) (admit_readers f s l) l
unfolding admit_readers
admit_readers-Admitted zero s l v b h =
    let z : (s.locks l).reader_waiters.count ≡ 0 = omega (arith, h) in
    record {
      none_wait = z;
      all_read = omega arith;
      all_awake =
          subst (λ n. AllAwake s.kernel (slots_from (s.locks l).reader_waiters.slots 0 n)) (sym z)
            AllAwake.empty;
      same_writer = refl;
      same_waiters = refl;
    }
admit_readers-Admitted (suc f) s l v b h =
    let x = s.locks l in
    elim (Option-cases (pop x.reader_waiters).1) [
      | inl n ↦ rw (admit_readers, n) (admit_none s l v b n (popped_none x.reader_waiters v n))
      | inr (r, n) ↦
          let q = (pop x.reader_waiters).0 in
          let e = admit_one-lock s l r q in
          let count : ((admit_one s l r q).locks l).reader_waiters.count + 1
              ≡ x.reader_waiters.count =
            omega (
              arith,
              ap (λ y. y.reader_waiters.count) e,
              pop-count x.reader_waiters r n,
              pop-nonempty x.reader_waiters r n,
            ) in
          let readers : ((admit_one s l r q).locks l).readers ≡ u32 (x.readers + 1) =
            ap (λ y. y.readers) e in
          let rest =
            admit_readers-Admitted f (admit_one s l r q) l
              (subst (λ y. IsQueue y.reader_waiters) (sym e) (pop_cases x.reader_waiters v).0)
              (omega arith) (omega arith) in
          rw (admit_readers, n)
            (record {
              none_wait = rest.none_wait;
              all_read = omega (arith, rest.all_read);
              all_awake = admitted-AllAwake f s l r v n rest.all_awake;
              same_writer = rest.same_writer ∙ ap (λ y. y.writer) e;
              same_waiters = rest.same_waiters ∙ ap (λ y. y.writer_waiters) e;
            })
    ]

-- ===== src/Mutex/Lock.antt =====
-- Locking a mutex, on every branch, and that it keeps the invariant.
use seng21213_os.Prelude.{
  ℕ, ◌<◌, ◌≡◌, refl, sym, ◌∙◌, ap, ◌≢◌, ◌⊎◌, inl, inr, true, false, Option, none, some, arith, ltb,
  leb, ◌==◌, Bool-cases, Option-cases, update, update_self, find_first, subst,
}
use seng21213_os.Machine.{max_processes}
use seng21213_os.WaitQueue.{Outcome, WaitQueue, is_pcb, empty, add}
use seng21213_os.WaitQueue.Order.{empty-IsQueue, add_cases}
use seng21213_os.Mutex.{
  Mutex, MutexState, mutex_registry_size, process, mutex_init, take_mutex, start_waiting,
  lock_round, init_if_new, mutex_lock, lock_resume,
}
use seng21213_os.Mutex.Invariant.{
  IsMutex, AllMutexes, update-IsMutex, update-owner, boost_owner-mutexes,
}

start_waiting-mutexes :
    (s : MutexState) (c m : ℕ) (q : WaitQueue)
    → (start_waiting s c m q).mutexes ≡ update s.mutexes m (record (s.mutexes m) { waiters = q })
unfolding start_waiting
start_waiting-mutexes s c m q = boost_owner-mutexes _ c m

abbrev taken : MutexState → ℕ → ℕ → Mutex
taken s c m = record (s.mutexes m) { locked = true; owner = some c }

abbrev waited : MutexState → ℕ → ℕ → Mutex
waited s c m = record (s.mutexes m) { waiters = (add (s.mutexes m).waiters c).0 }

-- What a round of `mutex_lock` does to the mutexes.
pub data LockCase (s : MutexState) (c m : ℕ) : Type 0 where
  took :
      (s.mutexes m).locked ≡ false
      → (lock_round s c m).1 ≡ Outcome.returned
      → (lock_round s c m).0.mutexes ≡ update s.mutexes m (taken s c m)
      → LockCase s c m
  waits :
      (s.mutexes m).locked ≡ true
      → (lock_round s c m).1 ≡ Outcome.waiting
      → (lock_round s c m).0.mutexes ≡ update s.mutexes m (waited s c m)
      → LockCase s c m
  full :
      (s.mutexes m).locked ≡ true
      → (add (s.mutexes m).waiters c).1 ≡ false
      → lock_round s c m ≡ (s, Outcome.retry)
      → LockCase s c m

pub lock_round_case : (s : MutexState) (c m : ℕ) → LockCase s c m
unfolding lock_round take_mutex
lock_round_case s c m = elim (Bool-cases (s.mutexes m).locked) [
  | inl t ↦ elim (Bool-cases (add (s.mutexes m).waiters c).1) [
    | inl a ↦
        let q = (add (s.mutexes m).waiters c).0 in
        let e : lock_round s c m ≡ (start_waiting s c m q, Outcome.waiting) =
          rw (lock_round, t, a) in
        LockCase.waits t (ap (λ r. r.1) e) (ap (λ r. r.0.mutexes) e ∙ start_waiting-mutexes s c m q)
    | inr a ↦ LockCase.full t a (rw (lock_round, t, a))
  ]
  | inr f ↦ LockCase.took f (rw (lock_round, f)) (rw (lock_round, f))
]

taken-IsMutex :
    (s : MutexState) (c m : ℕ)
    → IsMutex (s.mutexes m)
    → (s.mutexes m).locked ≡ false
    → IsMutex (taken s c m)
taken-IsMutex s c m v f = record {
  queue = v.queue;
  held = λ t. (c, refl);
  free = λ g. absurd cc;
  apart = λ o i e l. absurd (omega (arith, (v.free f).1));
}

-- A queue of a mutex holds a process that does not wait yet apart from its owner.
abbrev Apart : ℕ → WaitQueue → Type 0
Apart o q = (i : ℕ) → i < q.count → q.slots i ≢ some o

some-inj : (a b : ℕ) → some a ≡ some b → a ≡ b
some-inj a b e = ap (λ o. elim o [ none ↦ 0 | some x ↦ x ]) e

add-Apart : (q : WaitQueue) (c o : ℕ) → c ≢ o → Apart o q → Apart o (add q c).0
unfolding add
add-Apart q c o ne h = elim (Bool-cases (leb max_processes q.count)) [
  | inl t ↦ rw (add, t) h
  | inr f ↦ elim (Option-cases (find_first (λ i. is_pcb (q.slots i) c) q.count 0)) [
    | inr (i, e) ↦ rw (add, f, e) h
    | inl e ↦
        rw (add, f, e)
          (λ i l. elim (Bool-cases (q.count == i)) [
            | inl t ↦ rw (t) (λ g. ne (some-inj c o g))
            | inr g ↦ rw (g) (h i (ground arith))
          ])
  ]
]

waited-IsMutex :
    (s : MutexState) (c m : ℕ)
    → IsMutex (s.mutexes m)
    → (s.mutexes m).owner ≢ some c
    → (s.mutexes m).locked ≡ true
    → IsMutex (waited s c m)
waited-IsMutex s c m v ne t = record {
  queue = (add_cases (s.mutexes m).waiters c v.queue).0;
  held = v.held;
  free = λ f. absurd (cc (f, t));
  apart = λ o i e l.
      add-Apart (s.mutexes m).waiters c o (λ g. ne (e ∙ ap some (sym g))) (λ j b. v.apart o j e b) i
        l;
}

-- A round of `mutex_lock` by a process that is not the owner keeps the invariant of all mutexes.
pub lock_round-AllMutexes :
    (s : MutexState) (c m : ℕ)
    → AllMutexes s
    → (s.mutexes m).owner ≢ some c
    → AllMutexes (lock_round s c m).0
lock_round-AllMutexes s c m v ne = elim (lock_round_case s c m) [
  | LockCase.took f r e ↦
      subst (λ a. (j : ℕ) → IsMutex (a j)) (sym e)
        (update-IsMutex s.mutexes m (taken s c m) v (taken-IsMutex s c m (v m) f))
  | LockCase.waits t r e ↦
      subst (λ a. (j : ℕ) → IsMutex (a j)) (sym e)
        (update-IsMutex s.mutexes m (waited s c m) v (waited-IsMutex s c m (v m) ne t))
  | LockCase.full t a e ↦ subst (λ r. AllMutexes r.0) (sym e) v
]

fresh-IsMutex :
    IsMutex (record { locked = false; initialized = true; owner = none; waiters = empty })
fresh-IsMutex = record {
  queue = empty-IsQueue;
  held = λ t. absurd cc;
  free = λ f. (refl, refl);
  apart = λ o i e l. absurd (omega arith);
}

pub mutex_init-AllMutexes : (s : MutexState) (m : ℕ) → AllMutexes s → AllMutexes (mutex_init s m)
unfolding mutex_init
mutex_init-AllMutexes s m v = elim (Bool-cases (ltb s.registry_used mutex_registry_size)) [
  | inl t ↦ elim (Option-cases (find_first (λ i. s.registry i == m) s.registry_used 0)) [
    | inl e ↦ rw (mutex_init, e, t) (update-IsMutex s.mutexes m _ v fresh-IsMutex)
    | inr (i, e) ↦ rw (mutex_init, e) (update-IsMutex s.mutexes m _ v fresh-IsMutex)
  ]
  | inr t ↦ elim (Option-cases (find_first (λ i. s.registry i == m) s.registry_used 0)) [
    | inl e ↦ rw (mutex_init, e, t) (update-IsMutex s.mutexes m _ v fresh-IsMutex)
    | inr (i, e) ↦ rw (mutex_init, e) (update-IsMutex s.mutexes m _ v fresh-IsMutex)
  ]
]

pub init_if_new-AllMutexes : (s : MutexState) (m : ℕ) → AllMutexes s → AllMutexes (init_if_new s m)
unfolding init_if_new
init_if_new-AllMutexes s m v = elim (Bool-cases (s.mutexes m).initialized) [
  | inl t ↦ rw (init_if_new, t) v
  | inr f ↦ rw (init_if_new, f) (mutex_init-AllMutexes s m v)
]

pub is_pcb_no : (o : Option ℕ) (c : ℕ) → is_pcb o c ≡ false → o ≢ some c
is_pcb_no o c f e = ground (arith, f, ap (λ x. is_pcb x c) e)

pub is_pcb_yes : (o : Option ℕ) (c : ℕ) → is_pcb o c ≡ true → o ≡ some c
is_pcb_yes none c h = cc
is_pcb_yes (some x) c h = ground arith

-- `mutex_lock` keeps the invariant of all mutexes, up to its first yield.
pub mutex_lock-AllMutexes :
    (s : MutexState) (m : Option ℕ) → AllMutexes s → AllMutexes (mutex_lock s m).0
unfolding mutex_lock
mutex_lock-AllMutexes s none v = v
mutex_lock-AllMutexes s (some m) v = elim (Option-cases s.kernel.current) [
  | inl e ↦ rw (mutex_lock, e) v
  | inr (c, e) ↦
      let t = init_if_new s m in
      elim (Bool-cases ((process s c).pid == 0)) [
        | inl z ↦ rw (mutex_lock, e, z) v
        | inr z ↦ elim (Bool-cases (is_pcb (t.mutexes m).owner c)) [
          | inl y ↦ rw (mutex_lock, e, z, y) (init_if_new-AllMutexes s m v)
          | inr n ↦
              rw (mutex_lock, e, z, n)
                (lock_round-AllMutexes t c m (init_if_new-AllMutexes s m v) (is_pcb_no _ _ n))
        ]
      ]
]

-- When the loop of `mutex_lock` returns at once or after a yield, the process is the owner; until
-- then every mutex keeps the owner that it has.
pub lock_resume_cases :
    (s : MutexState) (c m : ℕ)
    → AllMutexes s
    → AllMutexes (lock_resume s c m).0
      × ((((lock_resume s c m).1 ≡ Outcome.returned)
            × (((lock_resume s c m).0.mutexes m).owner ≡ some c))
          ⊎ ((((lock_resume s c m).1 ≢ Outcome.returned) × ((s.mutexes m).locked ≡ true))
              × ((j : ℕ) → ((lock_resume s c m).0.mutexes j).owner ≡ (s.mutexes j).owner)))
unfolding lock_resume
lock_resume_cases s c m v = elim (Bool-cases (is_pcb (s.mutexes m).owner c)) [
  | inl y ↦ rw (lock_resume, y) (v, inl (refl, is_pcb_yes _ _ y))
  | inr n ↦
      rw (lock_resume, n)
        (
          lock_round-AllMutexes s c m v (is_pcb_no _ _ n),
          elim (lock_round_case s c m) [
            | LockCase.took f r e ↦ inl (
              r,
              ap (λ a. (a m).owner) e ∙ ap (λ x. x.owner) (update_self s.mutexes m (taken s c m)),
            )
            | LockCase.waits t r e ↦ inr (
              (λ g. absurd (cc (g, r)), t),
              λ j. ap (λ a. (a j).owner) e ∙ update-owner s.mutexes m (waited s c m) j refl,
            )
            | LockCase.full t a e ↦
                inr (
                  (λ g. absurd (cc (ap (λ r. r.1) e, g)), t),
                  λ j. ap (λ r. (r.0.mutexes j).owner) e,
                )
          ],
        )
]

-- ===== src/Mutex/Priority.antt =====
-- Priority inheritance: the owner of a mutex becomes as urgent as the process that waits for it.
-- A lower number is more urgent.
use seng21213_os.Prelude.{
  ℕ, zero, suc, ◌≤◌, ◌≡◌, sym, ◌∙◌, ap, inl, inr, true, some, arith, ltb, leb, ◌==◌, Bool-cases,
  Option-cases, update_self, update_ne, subst,
}
use native.Mathlib.Decide.{ℕ_discrete}
use seng21213_os.Machine.{Kernel}
use seng21213_os.WaitQueue.{Outcome, WaitQueue, add}
use seng21213_os.Scheduler.{scheduler_block_forever}
use seng21213_os.Mutex.{
  MutexState, process, set_process, set_mutex, blocker, set_priority, propagate, propagate_priority,
  boost_owner, start_waiting, lock_round,
}

abbrev priority_of : MutexState → ℕ → ℕ
priority_of s p = (process s p).priority

set_priority_self : (s : MutexState) (p x : ℕ) → priority_of (set_priority s p x) p ≡ x
set_priority_self s p x = ap (λ y. y.priority) (update_self s.kernel.pcbs p _)

set_priority-lowers :
    (s : MutexState) (p x q : ℕ)
    → x ≤ priority_of s p
    → priority_of (set_priority s p x) q ≤ priority_of s q
set_priority-lowers s p x q h = elim (ℕ_discrete p q) [
  | yes e ↦ omega (
    arith,
    h,
    ap (priority_of s) e,
    ap (priority_of (set_priority s p x)) e,
    set_priority_self s p x,
  )
  | no ne ↦ omega (
    arith,
    ap (λ y. y.priority) (update_ne s.kernel.pcbs p q (record (process s p) { priority = x }) ne),
  )
]

propagate-lowers :
    (n : ℕ) (s : MutexState) (p q : ℕ) → priority_of (propagate n s p) q ≤ priority_of s q
unfolding propagate
propagate-lowers zero s p q = omega arith
propagate-lowers (suc n) s p q = elim (Option-cases (blocker s p)) [
  | inl e ↦ rw (propagate, e) (omega arith)
  | inr (o, e) ↦ elim (Bool-cases (leb (priority_of s o) (priority_of s p))) [
    | inl t ↦ rw (propagate, e, t) (omega arith)
    | inr f ↦
        rw (propagate, e, f)
          (omega (
            arith,
            propagate-lowers n (set_priority s o (priority_of s p)) o q,
            set_priority-lowers s o (priority_of s p) q (ground arith),
          ))
  ]
]

boost_owner-lowers :
    (s : MutexState) (c m o : ℕ)
    → (s.mutexes m).owner ≡ some o
    → (priority_of (boost_owner s c m) o ≤ priority_of s c)
      × ((q : ℕ) → priority_of (boost_owner s c m) q ≤ priority_of s q)
unfolding boost_owner propagate_priority
boost_owner-lowers s c m o e = elim (Bool-cases (ltb (priority_of s c) (priority_of s o))) [
  | inl t ↦
      let raised = set_priority s o (priority_of s c) in
      rw (boost_owner, e, t)
        (
          omega (arith, propagate-lowers 16 raised o o, set_priority_self s o (priority_of s c)),
          λ q. omega (
            arith,
            propagate-lowers 16 raised o q,
            set_priority-lowers s o (priority_of s c) q (ground arith),
          ),
        )
  | inr f ↦ rw (boost_owner, e, f) (ground arith, λ q. omega arith)
]

scheduler_block_forever-priority :
    (k : Kernel) (q : ℕ) → ((scheduler_block_forever k).pcbs q).priority ≡ (k.pcbs q).priority
unfolding scheduler_block_forever
scheduler_block_forever-priority k q = elim (Option-cases k.current) [
  | inl e ↦ rw (scheduler_block_forever, e)
  | inr (c, e) ↦ elim (Bool-cases ((k.pcbs c).pid == 0)) [
    | inl t ↦ rw (scheduler_block_forever, e, t)
    | inr f ↦ elim (Bool-cases (c == q)) [
      | inl t ↦
          let h : c ≡ q = ground arith in
          rw (scheduler_block_forever, e, f, t) (ap (λ i. (k.pcbs i).priority) h)
      | inr g ↦ rw (scheduler_block_forever, e, f, g)
    ]
  ]
]

-- The state in which `start_waiting` boosts the owner.
abbrev marked : MutexState → ℕ → ℕ → WaitQueue → MutexState
marked s c m q =
    set_process (set_mutex s m (record (s.mutexes m) { waiters = q })) c
      (record (process s c) { waiting_mutex = some m })

marked-priority :
    (s : MutexState) (c m : ℕ) (q : WaitQueue) (p : ℕ)
    → priority_of (marked s c m q) p ≡ priority_of s p
marked-priority s c m q p = elim (ℕ_discrete c p) [
  | yes e ↦
      ap (priority_of (marked s c m q)) (sym e)
      ∙ ap (λ y. y.priority) (update_self s.kernel.pcbs c _)
      ∙ ap (priority_of s) e
  | no ne ↦ ap (λ y. y.priority) (update_ne s.kernel.pcbs c p _ ne)
]

start_waiting-lowers :
    (s : MutexState) (c m o : ℕ) (q : WaitQueue)
    → (s.mutexes m).owner ≡ some o
    → (priority_of (start_waiting s c m q) o ≤ priority_of s c)
      × ((p : ℕ) → priority_of (start_waiting s c m q) p ≤ priority_of s p)
unfolding start_waiting
start_waiting-lowers s c m o q e =
    let own : ((marked s c m q).mutexes m).owner ≡ some o =
      ap (λ x. x.owner) (update_self s.mutexes m _) ∙ e in
    let (at_owner, at_all) = boost_owner-lowers (marked s c m q) c m o own in
    let boosted = boost_owner (marked s c m q) c m in
    (
      omega (
        arith,
        at_owner,
        marked-priority s c m q c,
        scheduler_block_forever-priority boosted.kernel o,
      ),
      λ p. omega (
        arith,
        at_all p,
        marked-priority s c m q p,
        scheduler_block_forever-priority boosted.kernel p,
      ),
    )

-- When a process starts to wait for a mutex in `mutex_lock`, the owner ends at least as urgent as
-- it, and no process ends less urgent than before.
pub lock_round_inherits :
    (s : MutexState) (c m o : ℕ)
    → (s.mutexes m).locked ≡ true
    → (s.mutexes m).owner ≡ some o
    → (lock_round s c m).1 ≡ Outcome.waiting
    → ((process (lock_round s c m).0 o).priority ≤ (process s c).priority)
      × ((q : ℕ) → (process (lock_round s c m).0 q).priority ≤ (process s q).priority)
unfolding lock_round start_waiting
lock_round_inherits s c m o l e w = elim (Bool-cases (add (s.mutexes m).waiters c).1) [
  | inl t ↦
      let r : lock_round s c m
          ≡ (start_waiting s c m (add (s.mutexes m).waiters c).0, Outcome.waiting) =
        rw (lock_round, l, t) in
      subst
        (λ z.
          (priority_of z.0 o ≤ priority_of s c) × ((q : ℕ) → priority_of z.0 q ≤ priority_of s q))
        (sym r) (start_waiting-lowers s c m o _ e)
  | inr f ↦ absurd (cc (rw (lock_round, l, f) at w))
]

-- ===== src/Mutex/Invariant.antt =====
-- What holds of every mutex of kernel/mutex.c, and the functions that leave the mutexes alone.
use seng21213_os.Prelude.{
  ℕ, zero, suc, ◌<◌, ◌≡◌, refl, ◌∙◌, ap, ◌≢◌, inl, inr, true, false, none, some, arith, ltb, leb,
  ◌==◌, Bool-cases, Option-cases, update,
}
use native.Mathlib.Decide.{ℕ_discrete}
use seng21213_os.WaitQueue.Order.{IsQueue}
use seng21213_os.Mutex.{
  Mutex, MutexState, process, blocker, set_priority, propagate, propagate_priority, boost_owner,
}

-- The queue is one of different processes, a mutex is locked if and only if it has an owner, no
-- process waits for a free mutex, and the owner does not wait for it.
pub record IsMutex (x : Mutex) : Type 0 where
  pub queue : IsQueue x.waiters
  pub held : x.locked ≡ true → (o : ℕ) × (x.owner ≡ some o)
  pub free : x.locked ≡ false → (x.owner ≡ none) × (x.waiters.count ≡ 0)
  pub apart : (o i : ℕ) → x.owner ≡ some o → i < x.waiters.count → x.waiters.slots i ≢ some o

abbrev pub AllMutexes : MutexState → Type 0
AllMutexes s = (m : ℕ) → IsMutex (s.mutexes m)

pub owned_locked : (x : Mutex) (o : ℕ) → IsMutex x → x.owner ≡ some o → x.locked ≡ true
owned_locked x o v e = elim (Bool-cases x.locked) [
  | inl t ↦ t
  | inr f ↦ absurd (cc (e, (v.free f).0))
]

pub update-IsMutex :
    (a : ℕ → Mutex) (m : ℕ) (x : Mutex)
    → ((j : ℕ) → IsMutex (a j))
    → IsMutex x
    → (j : ℕ) → IsMutex (update a m x j)
update-IsMutex a m x va vx j = elim (ℕ_discrete m j) [
  | yes e ↦ let t : m == j ≡ true = ground arith in rw t vx
  | no ne ↦ let f : m == j ≡ false = ground arith in rw f (va j)
]

propagate-mutexes : (n : ℕ) (s : MutexState) (p : ℕ) → (propagate n s p).mutexes ≡ s.mutexes
unfolding propagate
propagate-mutexes zero s p = refl
propagate-mutexes (suc n) s p = elim (Option-cases (blocker s p)) [
  | inl e ↦ rw (propagate, e)
  | inr (o, e) ↦
      let next = set_priority s o (process s p).priority in
      elim (Bool-cases (leb (process s o).priority (process s p).priority)) [
        | inl t ↦ rw (propagate, e, t)
        | inr f ↦ rw (propagate, e, f) (propagate-mutexes n next o)
      ]
]

pub boost_owner-mutexes : (s : MutexState) (c m : ℕ) → (boost_owner s c m).mutexes ≡ s.mutexes
unfolding boost_owner propagate_priority
boost_owner-mutexes s c m = elim (Option-cases (s.mutexes m).owner) [
  | inl e ↦ rw (boost_owner, e)
  | inr (o, e) ↦ elim (Bool-cases (ltb (process s c).priority (process s o).priority)) [
    | inl t ↦ rw (boost_owner, e, t) (propagate-mutexes _ _ _)
    | inr f ↦ rw (boost_owner, e, f)
  ]
]

pub update-owner :
    (a : ℕ → Mutex) (m : ℕ) (x : Mutex) (j : ℕ)
    → x.owner ≡ (a m).owner
    → (update a m x j).owner ≡ (a j).owner
update-owner a m x j h = elim (ℕ_discrete m j) [
  | yes e ↦ let t : m == j ≡ true = ground arith in rw t (h ∙ ap (λ k. (a k).owner) e)
  | no ne ↦ let f : m == j ≡ false = ground arith in rw f
]

-- ===== src/Mutex/Unlock.antt =====
-- Unlocking a mutex: the hand-over to the process that waits longest.
use seng21213_os.Prelude.{
  ℕ, zero, suc, ◌+◌, ◌≡◌, refl, sym, ◌∙◌, ap, ap₂, ◌≢◌, ◌⊎◌, inl, inr, true, false, Option, none,
  some, [], ◌∷◌, arith, ltb, ◌==◌, Bool-cases, Option-cases, update, update_self, update_ne, subst,
}
use seng21213_os.Machine.{Kernel, is_blocked, set_pcb}
use seng21213_os.WaitQueue.{WaitQueue, is_pcb, pop}
use seng21213_os.WaitQueue.Order.{contents, pop_cases, pop-apart, pop-none}
use seng21213_os.Scheduler.Awake.{scheduler_wake-awake}
use seng21213_os.Mutex.{
  Mutex, MutexState, process, set_process, owner_remove, lower_to, lower_to_waiters, lower_for,
  lower_for_owned, recompute_priority, hand_over, release, unlock_by, mutex_unlock,
}
use seng21213_os.Mutex.Invariant.{IsMutex, AllMutexes, update-IsMutex}
use seng21213_os.Mutex.Lock.{is_pcb_yes, is_pcb_no}

-- A kernel whose processes are in the same states as those of another.
abbrev SameStates : Kernel → Kernel → Type 0
SameStates k l = (i : ℕ) → (k.pcbs i).state ≡ (l.pcbs i).state

set_priority-SameStates :
    (k : Kernel) (p x : ℕ) → SameStates (set_pcb k p (record (k.pcbs p) { priority = x })) k
set_priority-SameStates k p x i = elim (Bool-cases (p == i)) [
  | inl t ↦ let e : p ≡ i = ground arith in rw t (ap (λ j. (k.pcbs j).state) e)
  | inr f ↦ rw f
]

lower_to-SameStates : (k : Kernel) (p : ℕ) (w : Option ℕ) → SameStates (lower_to k p w) k
unfolding lower_to
lower_to-SameStates k p none i = refl
lower_to-SameStates k p (some w) i =
    elim (Bool-cases (ltb (k.pcbs w).priority (k.pcbs p).priority)) [
      | inl t ↦ rw (lower_to, t) (set_priority-SameStates k p (k.pcbs w).priority i)
      | inr f ↦ rw (lower_to, f)
    ]

lower_to_waiters-SameStates :
    (n j : ℕ) (waiters : ℕ → Option ℕ) (k : Kernel) (p : ℕ)
    → SameStates (lower_to_waiters n j waiters k p) k
unfolding lower_to_waiters
lower_to_waiters-SameStates zero j waiters k p i = refl
lower_to_waiters-SameStates (suc n) j waiters k p i =
    lower_to_waiters-SameStates n (j + 1) waiters (lower_to k p (waiters j)) p i
    ∙ lower_to-SameStates k p (waiters j) i

lower_for-SameStates :
    (mutexes : ℕ → Mutex) (k : Kernel) (p : ℕ) (m : Option ℕ)
    → SameStates (lower_for mutexes k p m) k
unfolding lower_for
lower_for-SameStates mutexes k p none i = refl
lower_for-SameStates mutexes k p (some m) i = lower_to_waiters-SameStates _ _ _ _ _ i

lower_for_owned-SameStates :
    (n j : ℕ) (mutexes : ℕ → Mutex) (k : Kernel) (p : ℕ)
    → SameStates (lower_for_owned n j mutexes k p) k
unfolding lower_for_owned
lower_for_owned-SameStates zero j mutexes k p i = refl
lower_for_owned-SameStates (suc n) j mutexes k p i =
    lower_for_owned-SameStates n (j + 1) mutexes
      (lower_for mutexes k p ((k.pcbs p).owned_mutex_list j)) p i
    ∙ lower_for-SameStates mutexes k p ((k.pcbs p).owned_mutex_list j) i

pub recompute_priority-SameStates :
    (s : MutexState) (p : ℕ) → SameStates (recompute_priority s p).kernel s.kernel
unfolding recompute_priority
recompute_priority-SameStates s p i =
    lower_for_owned-SameStates _ _ _ _ _ i
    ∙ set_priority-SameStates s.kernel p (process s p).base_priority i

recompute_priority-mutexes : (s : MutexState) (p : ℕ) → (recompute_priority s p).mutexes ≡ s.mutexes
unfolding recompute_priority
recompute_priority-mutexes s p = refl

abbrev given : Mutex → ℕ → WaitQueue → Mutex
given x p q = record x { locked = true; owner = some p; waiters = q }

abbrev freed : Mutex → WaitQueue → Mutex
freed x q = record x { locked = false; owner = none; waiters = q }

given-IsMutex :
    (x : Mutex) (p : ℕ)
    → IsMutex x
    → (pop x.waiters).1 ≡ some p
    → IsMutex (given x p (pop x.waiters).0)
given-IsMutex x p v e = record {
  queue = (pop_cases x.waiters v.queue).0;
  held = λ t. (p, refl);
  free = λ f. absurd cc;
  apart =
      λ o i h l. subst (λ z. (pop x.waiters).0.slots i ≢ z) h (pop-apart x.waiters p i v.queue e l);
}

freed-IsMutex :
    (x : Mutex) → IsMutex x → (pop x.waiters).1 ≡ none → IsMutex (freed x (pop x.waiters).0)
freed-IsMutex x v e = record {
  queue = (pop_cases x.waiters v.queue).0;
  held = λ t. absurd cc;
  free = λ f. (refl, pop-none x.waiters v.queue e);
  apart = λ o i h l. absurd cc;
}

-- What `release` does to the mutex: it is free, or it belongs to the first waiter, who is awake.
pub data ReleaseCase (s : MutexState) (m : ℕ) : Type 0 where
  passed :
      (p : ℕ)
      → (pop (s.mutexes m).waiters).1 ≡ some p
      → (release s m).mutexes
        ≡ update s.mutexes m (given (s.mutexes m) p (pop (s.mutexes m).waiters).0)
      → is_blocked (process (release s m) p).state ≡ false
      → ReleaseCase s m
  left :
      (pop (s.mutexes m).waiters).1 ≡ none
      → (release s m).mutexes
        ≡ update s.mutexes m (freed (s.mutexes m) (pop (s.mutexes m).waiters).0)
      → ReleaseCase s m

pub release_case : (s : MutexState) (m : ℕ) → ReleaseCase s m
unfolding release hand_over
release_case s m = elim (Option-cases (pop (s.mutexes m).waiters).1) [
  | inl e ↦
      let r : release s m ≡ record s {
        mutexes = update s.mutexes m (freed (s.mutexes m) (pop (s.mutexes m).waiters).0);
      } =
        rw (release, e) in
      ReleaseCase.left e (ap (λ t. t.mutexes) r)
  | inr (p, e) ↦
      let r : release s m ≡ hand_over s m p (pop (s.mutexes m).waiters).0 = rw (release, e) in
      ReleaseCase.passed p e (ap (λ t. t.mutexes) r)
        (ap (λ t. is_blocked (process t p).state) r ∙ scheduler_wake-awake _ p)
]

-- The state of the mutexes after `mutex_unlock` by the owner `c`.
abbrev unlocked : MutexState → ℕ → ℕ → MutexState
unlocked s m c = recompute_priority (release (set_process s c (owner_remove (process s c) m)) m) c

abbrev Passed : MutexState → MutexState → ℕ → Type 0
Passed s t m =
    ((contents (s.mutexes m).waiters ≡ []) × ((t.mutexes m).locked ≡ false))
    ⊎ ((p : ℕ) × (contents (s.mutexes m).waiters ≡ some p ∷ contents (t.mutexes m).waiters)
        × ((t.mutexes m).owner ≡ some p)
        × (is_blocked (process t p).state ≡ false))

unlocked-Passed :
    (s : MutexState) (m c : ℕ)
    → AllMutexes s
    → AllMutexes (unlocked s m c)
      × Passed s (unlocked s m c) m
      × ((j : ℕ) → m ≢ j → (unlocked s m c).mutexes j ≡ s.mutexes j)
unfolding recompute_priority
unlocked-Passed s m c v =
    let r = set_process s c (owner_remove (process s c) m) in
    let q = (s.mutexes m).waiters in
    elim (release_case r m) [
      | ReleaseCase.left e h ↦ (
        subst (λ a. (j : ℕ) → IsMutex (a j)) (sym h)
            (update-IsMutex s.mutexes m _ v (freed-IsMutex (s.mutexes m) (v m) e)),
        elim (pop_cases q (v m).queue).1 [
          | inl (z, g) ↦
              inl (z, ap (λ a. (a m).locked) h ∙ ap (λ x. x.locked) (update_self s.mutexes m _))
          | inr (p, z, g) ↦ absurd (cc (e, g))
        ],
        λ j ne. ap (λ a. a j) h ∙ update_ne s.mutexes m j _ ne,
      )
      | ReleaseCase.passed p e h w ↦ (
        subst (λ a. (j : ℕ) → IsMutex (a j)) (sym h)
            (update-IsMutex s.mutexes m _ v (given-IsMutex (s.mutexes m) p (v m) e)),
        elim (pop_cases q (v m).queue).1 [
          | inl (z, g) ↦ absurd (cc (sym e ∙ ap (λ x. x.1) g))
          | inr (x, z, g) ↦
              let at_m = ap (λ a. a m) h ∙ update_self s.mutexes m _ in
              inr (
                p,
                z ∙ ap₂ ◌∷◌ (sym g ∙ e) (sym (ap (λ x. contents x.waiters) at_m)),
                ap (λ x. x.owner) at_m,
                ap is_blocked (recompute_priority-SameStates (release r m) c p) ∙ w,
              )
        ],
        λ j ne. ap (λ a. a j) h ∙ update_ne s.mutexes m j _ ne,
      )
    ]

-- `mutex_unlock` by another process than the owner changes nothing. By the owner it frees a mutex
-- for which nobody waits; otherwise the process that waits longest owns it, awake, and the others
-- wait on in their order. No other mutex changes, and the invariant of all mutexes is kept.
pub mutex_unlock_cases :
    (s : MutexState) (m c : ℕ)
    → AllMutexes s
    → s.kernel.current ≡ some c
    → (((s.mutexes m).owner ≢ some c) × (mutex_unlock s (some m) ≡ s))
      ⊎ (((s.mutexes m).owner ≡ some c)
          × AllMutexes (mutex_unlock s (some m))
          × (((contents (s.mutexes m).waiters ≡ [])
                × (((mutex_unlock s (some m)).mutexes m).locked ≡ false))
              ⊎ ((p : ℕ) × (contents (s.mutexes m).waiters
                    ≡ some p ∷ contents ((mutex_unlock s (some m)).mutexes m).waiters)
                  × (((mutex_unlock s (some m)).mutexes m).owner ≡ some p)
                  × (is_blocked (process (mutex_unlock s (some m)) p).state ≡ false)))
          × ((j : ℕ) → m ≢ j → (mutex_unlock s (some m)).mutexes j ≡ s.mutexes j))
unfolding mutex_unlock unlock_by
mutex_unlock_cases s m c v e = elim (Bool-cases (is_pcb (s.mutexes m).owner c)) [
  | inl y ↦
      let by_owner : unlock_by s m (some c) ≡ unlocked s m c = rw (unlock_by, y) in
      let r : mutex_unlock s (some m) ≡ unlocked s m c = ap (unlock_by s m) e ∙ by_owner in
      let (all, passes, others) = unlocked-Passed s m c v in
      inr (
        is_pcb_yes _ _ y,
        subst AllMutexes (sym r) all,
        subst (λ t. Passed s t m) (sym r) passes,
        subst (λ t. (j : ℕ) → m ≢ j → t.mutexes j ≡ s.mutexes j) (sym r) others,
      )
  | inr n ↦
      let other : unlock_by s m (some c) ≡ s = rw (unlock_by, n) in
      inl (is_pcb_no _ _ n, ap (unlock_by s m) e ∙ other)
]

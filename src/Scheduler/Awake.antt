-- ===== src/Scheduler/Awake.antt =====
-- `scheduler_wake` of kernel/scheduler.c: the process is not blocked afterwards, nor is any that was
-- not blocked before.
use seng21213_os.Prelude.{ℕ, ◌≡◌, ap, inl, inr, false, ◌==◌, Bool-cases, update_self}
use seng21213_os.Machine.{Kernel, is_blocked}
use seng21213_os.Scheduler.{scheduler_wake}

-- The process does not wait.
abbrev pub IsAwake : Kernel → ℕ → Type 0
IsAwake k i = is_blocked (k.pcbs i).state ≡ false

pub scheduler_wake-awake :
    (k : Kernel) (i : ℕ) → is_blocked ((scheduler_wake k i).pcbs i).state ≡ false
unfolding scheduler_wake
scheduler_wake-awake k i = elim (Bool-cases (is_blocked (k.pcbs i).state)) [
  | inl t ↦ rw (scheduler_wake, t) (ap (λ p. is_blocked p.state) (update_self k.pcbs i _))
  | inr f ↦ rw (scheduler_wake, f) f
]

pub scheduler_wake-IsAwake : (k : Kernel) (p i : ℕ) → IsAwake k i → IsAwake (scheduler_wake k p) i
unfolding scheduler_wake
scheduler_wake-IsAwake k p i h = elim (Bool-cases (is_blocked (k.pcbs p).state)) [
  | inl t ↦ elim (Bool-cases (p == i)) [
    | inl y ↦ rw (scheduler_wake, t, y)
    | inr n ↦ rw (scheduler_wake, t, n) h
  ]
  | inr f ↦ rw (scheduler_wake, f) h
]

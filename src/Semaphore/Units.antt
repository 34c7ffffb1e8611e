-- ===== src/Semaphore/Units.antt =====
-- The units of a semaphore of kernel/semaphore.c over any interleaving of waits and signals.
use seng21213_os.Prelude.{
  ℕ, ◌+◌, ◌-◌, ◌^◌, ◌<◌, ◌≡◌, sym, ap, inl, inr, true, false, ◌&&◌, Option, none, some, arith, ltb,
  Bool-cases, Option-cases, update, update_self, subst, not, if◌then◌else◌,
}
use seng21213_os.Machine.{Kernel, max_processes, is_blocked, u32}
use seng21213_os.Scheduler.{scheduler_wake}
use seng21213_os.Scheduler.Awake.{scheduler_wake-awake}
use seng21213_os.WaitQueue.{Outcome, add, pop}
use seng21213_os.WaitQueue.Order.{IsQueue, add_cases, pop_cases, pop-none, pop-nonempty}
use seng21213_os.Semaphore.{Semaphore, SemState, wait_round, give_unit, sem_signal, init_if_new}

-- The queue is one of different processes, the count is not negative, and while processes wait
-- there is no unit to take.
pub record IsSemaphore (x : Semaphore) : Type 0 where
  pub ready : x.initialized ≡ true
  pub queue : IsQueue x.waiters
  pub positive : x.count < 2 ^ 31
  pub none_left : 0 < x.waiters.count → x.count ≡ 0

-- Whether a call of `sem_wait` got a unit at once.
abbrev pub granted : Outcome → ℕ
granted Outcome.returned = 1
granted _ = 0

-- Whether `sem_signal` woke the waiter that it took off the queue: he was blocked before and is not
-- afterwards.
abbrev pub woken : Kernel → Kernel → Option ℕ → ℕ
woken before after none = 0
woken before after (some p) =
    if is_blocked (before.pcbs p).state && not (is_blocked (after.pcbs p).state) then 1 else 0

-- Whether the process that `sem_signal` took off the queue did not wait any more.
abbrev pub missed : Kernel → Option ℕ → ℕ
missed before none = 0
missed before (some p) = if is_blocked (before.pcbs p).state then 0 else 1

woken-or-missed :
    (k : Kernel) (p : ℕ) → woken k (scheduler_wake k p) (some p) + missed k (some p) ≡ 1
woken-or-missed k p = elim (Bool-cases (is_blocked (k.pcbs p).state)) [
  | inl t ↦ rw (t, scheduler_wake-awake k p)
  | inr f ↦ rw f
]

-- `x` keeps the invariant and has `g` units less than `n`.
abbrev After : ℕ → Semaphore → ℕ → Type 0
After n x g = IsSemaphore x × (n ≡ x.count + g)

take_unit :
    (x : Semaphore)
    → IsSemaphore x
    → 0 < x.count
    → After x.count (record x { count = x.count - 1 }) 1
take_unit x v h = (
  record {
    ready = v.ready;
    queue = v.queue;
    positive = omega (arith, v.positive);
    none_left = λ l. absurd (omega (arith, v.none_left l));
  },
  omega arith,
)

queue_up :
    (x : Semaphore) (c : ℕ)
    → IsSemaphore x
    → x.count ≡ 0
    → After x.count (record x { waiters = (add x.waiters c).0 }) 0
queue_up x c v z = (
  record {
    ready = v.ready;
    queue = (add_cases x.waiters c v.queue).0;
    positive = v.positive;
    none_left = λ l. z;
  },
  omega arith,
)

-- A round of `sem_wait` keeps the invariant, and the count loses what the caller gets.
pub wait_round-units :
    (s : SemState) (c i : ℕ)
    → IsSemaphore (s.sems i)
    → After (s.sems i).count ((wait_round s c i).0.sems i) (granted (wait_round s c i).1)
unfolding wait_round
wait_round-units s c i v =
    let x = s.sems i in
    elim (Bool-cases (ltb 0 x.count)) [
      | inl t ↦
          let both : ltb 0 x.count && ltb x.count (2 ^ 31) ≡ true = ground (arith, v.positive) in
          rw (wait_round, both)
            (subst (λ y. After x.count y 1) (sym (update_self s.sems i _))
              (take_unit x v (ground arith)))
      | inr f ↦
          let z : x.count ≡ 0 = ground arith in
          let no : ltb 0 x.count && ltb x.count (2 ^ 31) ≡ false = ground arith in
          elim (Bool-cases (ltb x.waiters.count max_processes)) [
            | inl t ↦
                rw (wait_round, no, t)
                  (subst (λ y. After x.count y 0) (sym (update_self s.sems i _)) (queue_up x c v z))
            | inr g ↦ rw (wait_round, no, g) (v, omega arith)
          ]
    ]

add_unit :
    (x : Semaphore)
    → IsSemaphore x
    → x.count + 1 < 2 ^ 31
    → (pop x.waiters).1 ≡ none
    → After (x.count + 1) (record x { waiters = (pop x.waiters).0; count = u32 (x.count + 1) }) 0
add_unit x v h e = (
  record {
    ready = v.ready;
    queue = (pop_cases x.waiters v.queue).0;
    positive = omega arith;
    none_left = λ l. absurd (omega (arith, pop-none x.waiters v.queue e));
  },
  omega arith,
)

pass_unit :
    (x : Semaphore) (p : ℕ)
    → IsSemaphore x
    → (pop x.waiters).1 ≡ some p
    → After (x.count + 1) (record x { waiters = (pop x.waiters).0 }) 1
pass_unit x p v e = (
  record {
    ready = v.ready;
    queue = (pop_cases x.waiters v.queue).0;
    positive = v.positive;
    none_left = λ l. v.none_left (pop-nonempty x.waiters p e);
  },
  omega arith,
)

signal_new :
    (s : SemState) (i : ℕ) → (s.sems i).initialized ≡ true → sem_signal s (some i) ≡ give_unit s i
unfolding sem_signal init_if_new
signal_new s i t = let e : init_if_new s i ≡ s = rw (init_if_new, t) in ap (λ r. give_unit r i) e

-- What the signal `sem_signal s (some i)` gave away.
abbrev pub given : SemState → ℕ → ℕ
given s i = woken s.kernel (sem_signal s (some i)).kernel (pop (s.sems i).waiters).1

abbrev pub lost : SemState → ℕ → ℕ
lost s i = missed s.kernel (pop (s.sems i).waiters).1

give_unit-units :
    (s : SemState) (i : ℕ)
    → IsSemaphore (s.sems i)
    → (s.sems i).count + 1 < 2 ^ 31
    → After
        ((s.sems i).count + 1)
        ((give_unit s i).sems i)
        (woken s.kernel (give_unit s i).kernel (pop (s.sems i).waiters).1 + lost s i)
unfolding give_unit
give_unit-units s i v h =
    let x = s.sems i in
    elim (Option-cases (pop x.waiters).1) [
      | inl e ↦
          rw (give_unit, e)
            (subst (λ y. After (x.count + 1) y 0) (sym (update_self s.sems i _)) (add_unit x v h e))
      | inr (p, e) ↦
          let y : Semaphore = record x { waiters = (pop x.waiters).0 } in
          rw (give_unit, e)
            (subst (After (x.count + 1) (update s.sems i y i)) (sym (woken-or-missed s.kernel p)) (
              subst (λ z. After (x.count + 1) z 1) (sym (update_self s.sems i y))
                (pass_unit x p v e)))
    ]

-- `sem_signal` keeps the invariant; it adds a unit, or takes a process off the queue for it.
pub sem_signal-units :
    (s : SemState) (i : ℕ)
    → IsSemaphore (s.sems i)
    → (s.sems i).count + 1 < 2 ^ 31
    → After ((s.sems i).count + 1) ((sem_signal s (some i)).sems i) (given s i + lost s i)
sem_signal-units s i v h =
    subst
      (λ t.
        After ((s.sems i).count + 1) (t.sems i)
          (woken s.kernel t.kernel (pop (s.sems i).waiters).1 + lost s i))
      (sym (signal_new s i v.ready)) (give_unit-units s i v h)

-- A run of calls on the semaphore `i`, with what else the kernel does between them: how many
-- signals there were, how many calls of `sem_wait` got a unit, at once or when they were woken, and
-- how many units went to a process of the queue that did not wait any more.
pub data Run (i : ℕ) : SemState → SemState → ℕ → ℕ → ℕ → Type 0 where
  start : {s : SemState} → Run i s s 0 0 0
  wait :
      {s t : SemState} {signals grants losses : ℕ} (c : ℕ)
      → Run i s t signals grants losses
      → Run i s (wait_round t c i).0 signals (grants + granted (wait_round t c i).1) losses
  signal :
      {s t : SemState} {signals grants losses : ℕ}
      → Run i s t signals grants losses
      → Run i s (sem_signal t (some i)) (signals + 1) (grants + given t i) (losses + lost t i)
  elsewhere :
      {s t : SemState} {signals grants losses : ℕ} (k : Kernel)
      → Run i s t signals grants losses
      → Run i s (record t { kernel = k }) signals grants losses

-- In any run of waits and signals of an initialised semaphore the units are kept: the first count
-- and the signals are the last count, the units that callers got at once or by being woken, and
-- the units that went to a process of the queue that was not blocked any more. Nobody gets a unit
-- that is not there, a signal with a blocked process at the head of the queue wakes it, and while
-- somebody waits none is left. The count and the signals stay below the bound of `int32_t`.
pub run-units :
    (i : ℕ) {s t : SemState} {signals grants losses : ℕ}
    → Run i s t signals grants losses
    → IsSemaphore (s.sems i)
    → (s.sems i).count + signals < 2 ^ 31
    → IsSemaphore (t.sems i) × ((s.sems i).count + signals ≡ (t.sems i).count + grants + losses)
run-units i Run.start v h = (v, omega arith)
run-units i (Run.wait {t = t} c r) v h =
    let (w, e) = run-units i r v h in let (x, g) = wait_round-units t c i w in (x, omega arith)
run-units i (Run.signal {t = t} r) v h =
    let (w, e) = run-units i r v (omega arith) in
    let (x, g) = sem_signal-units t i w (omega arith) in (x, omega arith)
run-units i (Run.elsewhere k r) v h = run-units i r v h

-- ===== src/Scheduler/Running.antt =====
-- `dispatch`: one process runs, it is the best of the table, and levels stay in range.
use seng21213_os.Prelude.{
  ℕ, zero, suc, ◌+◌, ◌%◌, ◌^◌, ◌≤◌, ◌<◌, ◌≡◌, refl, sym, ◌∙◌, ap, ◌⊎◌, inl, inr, Bool, true, false,
  Option, none, some, arith, ◌==◌, Bool-cases, Option-cases,
}
use native.Mathlib.Decide.{ℕ_discrete, dec_lt}
use seng21213_os.Machine.{Kernel, Pcb, ProcState, max_processes, is_running, set_pcb}
use seng21213_os.Scheduler.{
  mlfq_levels, runnable_at, sleep_queue_remove, wake_one, wake_loop, wake_sleepers, charge,
  save_context, save_current, advance_clock, stay, before_choice, at_choice, choose, preempt,
  switch_to, dispatch, pick_next, current_index, not_due,
}
use seng21213_os.Scheduler.Choice.{Picked, pick_next_cases}

-- No process but the current one is marked as running.
abbrev pub OneRunning : Kernel → Type 0
OneRunning k = (i : ℕ) → is_running (k.pcbs i).state ≡ true → k.current ≡ some i

-- Every level is one of the three.
abbrev pub IsLevels : Kernel → Type 0
IsLevels k = (i : ℕ) → (k.pcbs i).priority < mlfq_levels

-- `r` has the running marks and the current process of `k`, and levels no worse than allowed.
record Keeps (k r : Kernel) : Type 0 where
  marks : (i : ℕ) → is_running (r.pcbs i).state ≡ is_running (k.pcbs i).state
  same_current : r.current ≡ k.current
  levels : IsLevels k → IsLevels r

Keeps-refl : (k : Kernel) → Keeps k k
Keeps-refl k = record { marks = λ i. refl; same_current = refl; levels = λ h. h }

Keeps-trans : {k m r : Kernel} → Keeps k m → Keeps m r → Keeps k r
Keeps-trans p q = record {
  marks = λ i. q.marks i ∙ p.marks i;
  same_current = q.same_current ∙ p.same_current;
  levels = λ h. q.levels (p.levels h);
}

wake_one-Keeps : (k : Kernel) (i : ℕ) → Keeps k (wake_one k i)
unfolding wake_one
wake_one-Keeps k i = record {
  marks = λ j. ground arith;
  same_current = ground arith;
  levels = λ h j. ground (arith, h j);
}

sleep_queue_remove-Keeps : (k : Kernel) (i : ℕ) → Keeps k (sleep_queue_remove k i)
unfolding sleep_queue_remove
sleep_queue_remove-Keeps k i = record {
  marks = λ j. ground arith;
  same_current = ground arith;
  levels = λ h j. ground (arith, h j);
}

wake_loop-Keeps : (f : ℕ) (k : Kernel) → Keeps k (wake_loop f k)
unfolding wake_loop
wake_loop-Keeps zero k = Keeps-refl k
wake_loop-Keeps (suc f) k = elim (Bool-cases (k.sleep_queue_count == 0)) [
  | inl t ↦ rw (t, wake_loop) (Keeps-refl k)
  | inr e ↦
      rw (e, wake_loop)
        (elim (Bool-cases (not_due k (k.sleep_queue 0))) [
          | inl t ↦ rw t (Keeps-refl k)
          | inr n ↦ rw n (
              Keeps-trans (Keeps-trans (sleep_queue_remove-Keeps k _) (wake_one-Keeps _ _))
                (wake_loop-Keeps f _))
        ])
]

charge_level : (t : Bool) (p : Pcb) → p.priority < mlfq_levels → (charge t p).priority < mlfq_levels
unfolding charge
charge_level t p h = ground arith

charge_state : (t : Bool) (p : Pcb) → (charge t p).state ≡ p.state
unfolding charge
charge_state t p = ground arith

save_context_state :
    (t : Bool) (k : Kernel) (esp : ℕ) (p : Pcb) → (save_context t k esp p).state ≡ p.state
unfolding save_context
save_context_state t k esp p = ground (
  arith,
  charge_state t p,
  charge_state t (record p { esp = esp; eip = k.memory ((esp + 32) % 2 ^ 32) }),
)

save_context_level :
    (t : Bool) (k : Kernel) (esp : ℕ) (p : Pcb)
    → p.priority < mlfq_levels
    → (save_context t k esp p).priority < mlfq_levels
unfolding save_context
save_context_level t k esp p h = ground (
  arith,
  charge_level t p,
  charge_level t (record p { esp = esp; eip = k.memory ((esp + 32) % 2 ^ 32) }),
)

save-Keeps :
    (k : Kernel) (c esp : ℕ) (t : Bool) → Keeps k (set_pcb k c (save_context t k esp (k.pcbs c)))
save-Keeps k c esp t = record {
  marks = λ i. ground (arith, save_context_state t k esp (k.pcbs c));
  same_current = refl;
  levels = λ h i. ground (arith, h i, h c, save_context_level t k esp (k.pcbs c));
}

advance_clock-Keeps : (k : Kernel) (t : Bool) → Keeps k (advance_clock k t)
unfolding advance_clock wake_sleepers
advance_clock-Keeps k true =
    let later : Kernel = record k { tick_count = (k.tick_count + 1) % 2 ^ 32 } in
    let p : Keeps later (wake_loop k.sleep_queue_count later) =
      wake_loop-Keeps k.sleep_queue_count later in
    record { marks = p.marks; same_current = p.same_current; levels = p.levels }
advance_clock-Keeps k false = Keeps-refl k

save_current-Keeps :
    (k : Kernel) (esp : ℕ) (t : Bool) (o : Option ℕ) → Keeps k (save_current k esp t o)
unfolding save_current
save_current-Keeps k esp t none = Keeps-refl k
save_current-Keeps k esp t (some c) = elim (Bool-cases (esp == 0)) [
  | inl z ↦ rw z (Keeps-refl k)
  | inr nz ↦ rw nz (save-Keeps k c esp t)
]

before_choice-Keeps : (k : Kernel) (esp : ℕ) (t : Bool) → Keeps k (before_choice k esp t)
unfolding before_choice
before_choice-Keeps k esp t =
    Keeps-trans (advance_clock-Keeps k t) (save_current-Keeps (advance_clock k t) esp t k.current)

at_choice-Keeps : (k : Kernel) (esp : ℕ) (t : Bool) → Keeps k (at_choice k esp t)
unfolding at_choice
at_choice-Keeps k esp t =
    let p : Keeps k (before_choice k esp t) = before_choice-Keeps k esp t in
    record { marks = p.marks; same_current = p.same_current; levels = p.levels }

-- After `preempt` only the next process can be marked as running.
preempt_marks :
    (k : Kernel) (next : ℕ) (o : Option ℕ)
    → ((i : ℕ) → is_running (k.pcbs i).state ≡ true → o ≡ some i)
    → (i : ℕ) → is_running ((preempt k next o).pcbs i).state ≡ true
    → i ≡ next
unfolding preempt
preempt_marks k next none h i r = cc (h i r)
preempt_marks k next (some c) h i r = ground (arith, h i)

preempt-IsLevels : (k : Kernel) (next : ℕ) (o : Option ℕ) → IsLevels k → IsLevels (preempt k next o)
unfolding preempt
preempt-IsLevels k next none h i = h i
preempt-IsLevels k next (some c) h i = ground (arith, h i, h c)

switch_to-OneRunning : (k : Kernel) (next : ℕ) → OneRunning k → OneRunning (switch_to k next).0
unfolding switch_to
switch_to-OneRunning k next h i r = elim (ℕ_discrete next i) [
  | yes e ↦ ap some e
  | no ne ↦ absurd (ne (sym (preempt_marks k next k.current h i (ground arith))))
]

switch_to-IsLevels : (k : Kernel) (next : ℕ) → IsLevels k → IsLevels (switch_to k next).0
unfolding switch_to
switch_to-IsLevels k next h i =
    ground (arith, preempt-IsLevels k next k.current h i, preempt-IsLevels k next k.current h next)

Keeps-OneRunning : {k r : Kernel} → Keeps k r → OneRunning k → OneRunning r
Keeps-OneRunning p h i e = p.same_current ∙ h i (sym (p.marks i) ∙ e)

-- Whichever process the timer or a yield finds, afterwards no process but the current one is
-- marked as running, if that was so before.
pub dispatch-OneRunning :
    (k : Kernel) (esp : ℕ) (t : Bool) → OneRunning k → OneRunning (dispatch k esp t).0
unfolding dispatch
dispatch-OneRunning k esp t h =
    let ready : Kernel = at_choice k esp t in
    let v : OneRunning ready = Keeps-OneRunning (at_choice-Keeps k esp t) h in
    elim (Option-cases (choose ready)) [
      | inl e ↦ rw (e, dispatch) v
      | inr (next, e) ↦ rw (e, dispatch) (switch_to-OneRunning ready next v)
    ]

-- A dispatch leaves every level below the number of levels, also after a demotion or a wake-up.
pub dispatch-IsLevels :
    (k : Kernel) (esp : ℕ) (t : Bool) → IsLevels k → IsLevels (dispatch k esp t).0
unfolding dispatch
dispatch-IsLevels k esp t h =
    let ready : Kernel = at_choice k esp t in
    let v : IsLevels ready = (at_choice-Keeps k esp t).levels h in
    elim (Option-cases (choose ready)) [
      | inl e ↦ rw (e, dispatch) v
      | inr (next, e) ↦ rw (e, dispatch) (switch_to-IsLevels ready next v)
    ]

-- What a dispatch that found a process to run has done.
pub record Dispatched (ready : Kernel) (start : ℕ) (result : Kernel × ℕ) : Type 0 where
  pub next : ℕ
  pub picked : Picked ready start next
  pub now_current : result.0.current ≡ some next
  pub now_running : (result.0.pcbs next).state ≡ ProcState.running
  pub resumes : result.1 ≡ (ready.pcbs next).esp
  pub cursor : result.0.rr_cursor ≡ (next + 1) % max_processes

switch_to-Dispatched :
    (k : Kernel) (start next : ℕ) → Picked k start next → Dispatched k start (switch_to k next)
unfolding switch_to
switch_to-Dispatched k start next p = record {
  next = next;
  picked = p;
  now_current = refl;
  now_running = ground arith;
  resumes = refl;
  cursor = refl;
}

choose-Picked :
    (k : Kernel) (start next : ℕ)
    → start ≡ (current_index k.current + 1) % max_processes
    → pick_next k start ≡ some next
    → choose k ≡ some next
unfolding choose
choose-Picked k start next e h = rw (choose, ← e, h)

stay-none : (k : Kernel) (o : Option ℕ) → ((i : ℕ) → runnable_at k i ≡ false) → stay k o ≡ none
unfolding stay
stay-none k none h = refl
stay-none k (some c) h = rw (h (c + c))

choose-none :
    (k : Kernel) (start : ℕ)
    → start ≡ (current_index k.current + 1) % max_processes
    → pick_next k start ≡ none
    → ((i : ℕ) → runnable_at k i ≡ false)
    → choose k ≡ none
unfolding choose
choose-none k start e h idle = rw (choose, ← e, h) (stay-none k k.current idle)

nobody :
    (k : Kernel)
    → IsLevels k
    → ((j : ℕ) → j < max_processes → runnable_at k j ≡ true → mlfq_levels ≤ (k.pcbs j).priority)
    → (i : ℕ) → i < max_processes
    → runnable_at k i ≡ false
nobody k h n i l = ground (arith, h i, n i l)

-- With all levels in range, and no runnable process read from behind the table, a dispatch either
-- switches to the best process, round robin from the one after the current, or finds that nothing
-- in the table is runnable and goes on with the context it was given.
pub dispatch_cases :
    (k : Kernel) (esp : ℕ) (t : Bool)
    → IsLevels k
    → ((i : ℕ) → max_processes ≤ i → runnable_at (at_choice k esp t) i ≡ false)
    → Dispatched
        (at_choice k esp t)
        ((current_index k.current + 1) % max_processes)
        (dispatch k esp t)
      ⊎ (((i : ℕ) → i < max_processes → runnable_at (at_choice k esp t) i ≡ false)
          × (dispatch k esp t ≡ (at_choice k esp t, esp)))
unfolding dispatch
dispatch_cases k esp t h behind =
    let ready : Kernel = at_choice k esp t in
    let p : Keeps k ready = at_choice-Keeps k esp t in
    let start : ℕ = (current_index k.current + 1) % max_processes in
    let same : start ≡ (current_index ready.current + 1) % max_processes =
      ap (λ o. (current_index o + 1) % max_processes) (sym p.same_current) in
    elim (pick_next_cases ready start) [
      | inl (next, e, q) ↦ inl (
          rw (choose-Picked ready start next same e, dispatch)
            (switch_to-Dispatched ready start next q))
      | inr (e, left) ↦
          let idle : (i : ℕ) → i < max_processes → runnable_at ready i ≡ false =
            nobody ready (p.levels h) left in
          inr (
            idle,
            rw (
              choose-none ready start same e (λ i. elim (dec_lt i max_processes) [
                | yes l ↦ idle i l
                | no n ↦ behind i (omega arith)
              ]),
              dispatch,
            ),
          )
    ]

-- ===== src/Scheduler/Wake.antt =====
-- `wake_sleepers`: every sleeper whose time has come is woken, and the rest sleep on.
use seng21213_os.Prelude.{
  shift_down, shift_down_lem, ℕ, zero, suc, ◌-◌, ◌≤◌, ◌<◌, ◌≡◌, refl, ◌≢◌, inl, inr, true, false,
  ◌||◌, arith, ◌==◌, Bool-cases, ap, sym, ◌∙◌, find_first_head,
}
use native.Mathlib.Decide.{dec_lt}
use seng21213_os.Machine.{Kernel, ProcState, is_blocked}
use seng21213_os.Scheduler.{
  sleep_queue_remove, wake_of, wake_one, wake_loop, wake_sleepers, not_due,
}
use seng21213_os.Scheduler.Sleep.{IsQueue}

-- Taking off the head moves the others up by one.
remove_head :
    (k : Kernel)
    → 0 < k.sleep_queue_count
    → sleep_queue_remove k (k.sleep_queue 0) ≡ record k {
      sleep_queue = shift_down (k.sleep_queue_count - 1) 0 k.sleep_queue;
      sleep_queue_count = k.sleep_queue_count - 1;
    }
unfolding sleep_queue_remove
remove_head k h =
    rw
      (
        find_first_head (λ i. k.sleep_queue i == k.sleep_queue 0) k.sleep_queue_count 0 h
            (ground arith),
        sleep_queue_remove,
      )
      (ground arith)

-- One round of the loop, on a queue that is not empty.
abbrev round : Kernel → Kernel
round k = wake_one (sleep_queue_remove k (k.sleep_queue 0)) (k.sleep_queue 0)

-- What a round leaves, read off entry by entry.
record Rounded (k r : Kernel) : Type 0 where
  shorter : r.sleep_queue_count ≡ k.sleep_queue_count - 1
  moved : (j : ℕ) → j < k.sleep_queue_count - 1 → r.sleep_queue j ≡ k.sleep_queue (suc j)
  others : (i : ℕ) → i ≢ k.sleep_queue 0 → r.pcbs i ≡ k.pcbs i
  woken : (r.pcbs (k.sleep_queue 0)).state ≡ ProcState.ready
  same_time : r.tick_count ≡ k.tick_count

round-Rounded :
    (k : Kernel)
    → 0 < k.sleep_queue_count
    → is_blocked (k.pcbs (k.sleep_queue 0)).state ≡ true
    → Rounded k (round k)
unfolding wake_one
round-Rounded k h b =
    let head : ℕ = k.sleep_queue 0 in
    rw (remove_head k h) (record {
      shorter = ground arith;
      moved = λ j l. ground (arith, shift_down_lem (k.sleep_queue_count - 1) 0 k.sleep_queue j);
      others = λ i ne. ground arith;
      woken = ground arith;
      same_time = ground arith;
    })

same_pcb :
    {k r : Kernel}
    → IsQueue k
    → Rounded k r
    → (j : ℕ) → j < r.sleep_queue_count
    → r.pcbs (r.sleep_queue j) ≡ k.pcbs (k.sleep_queue (suc j))
same_pcb {k} {r} q d j l =
    ap r.pcbs (d.moved j (omega (arith, d.shorter)))
    ∙ d.others (k.sleep_queue (suc j)) (λ e. absurd (
        omega (
          arith,
          d.shorter,
          q.distinct (suc j) 0 (omega (arith, d.shorter)) (omega (arith, d.shorter)) e,
        )))

Rounded-IsQueue : {k r : Kernel} → IsQueue k → Rounded k r → IsQueue r
Rounded-IsQueue {k} {r} q d = record {
  sorted = λ i j a b.
      rw (wake_of, same_pcb q d i (omega arith), same_pcb q d j b)
        (q.sorted (suc i) (suc j) (omega arith) (omega (arith, d.shorter)));
  distinct = λ i j a b e. omega (
    arith,
    q.distinct (suc i) (suc j) (omega (arith, d.shorter)) (omega (arith, d.shorter))
        (sym (d.moved i (omega (arith, d.shorter))) ∙ e ∙ d.moved j (omega (arith, d.shorter))),
  );
  asleep = λ i a. rw (same_pcb q d i a) (q.asleep (suc i) (omega (arith, d.shorter)));
  timed = λ i a. rw (wake_of, same_pcb q d i a) (q.timed (suc i) (omega (arith, d.shorter)));
}

-- The state `r` after waking, for the queue of `k`: the queue keeps its promise and holds no sleeper
-- that is due; who was due is ready; who was not, and who was not in the queue, is untouched.
pub record Woken (k r : Kernel) : Type 0 where
  pub queue : IsQueue r
  pub same_time : r.tick_count ≡ k.tick_count
  pub waiting :
      (j : ℕ) → j < r.sleep_queue_count → k.tick_count < (r.pcbs (r.sleep_queue j)).wake_tick
  pub due :
      (i : ℕ)
      → i < k.sleep_queue_count
      → (k.pcbs (k.sleep_queue i)).wake_tick ≤ k.tick_count
      → (r.pcbs (k.sleep_queue i)).state ≡ ProcState.ready
  pub not_due :
      (i : ℕ)
      → i < k.sleep_queue_count
      → k.tick_count < (k.pcbs (k.sleep_queue i)).wake_tick
      → r.pcbs (k.sleep_queue i) ≡ k.pcbs (k.sleep_queue i)
  pub others :
      (p : ℕ) → ((i : ℕ) → i < k.sleep_queue_count → k.sleep_queue i ≢ p) → r.pcbs p ≡ k.pcbs p

-- Nothing to wake.
stopped-Woken :
    {k : Kernel}
    → IsQueue k
    → ((j : ℕ) → j < k.sleep_queue_count → k.tick_count < wake_of k (k.sleep_queue j))
    → Woken k k
stopped-Woken q h = record {
  queue = q;
  same_time = refl;
  waiting = h;
  due = λ i l e. absurd (omega (arith, h i l));
  not_due = λ i l e. refl;
  others = λ p n. refl;
}

Rounded-Woken :
    {k m r : Kernel}
    → 0 < k.sleep_queue_count
    → IsQueue k
    → wake_of k (k.sleep_queue 0) ≤ k.tick_count
    → Rounded k m
    → Woken m r
    → Woken k r
Rounded-Woken {k} {m} {r} h q w d v = record {
  queue = v.queue;
  same_time = v.same_time ∙ d.same_time;
  waiting = λ j l. rw (← d.same_time) (v.waiting j l);
  due = due;
  not_due = not_due;
  others = λ p n.
      v.others p (λ i l e.
        n (suc i) (omega (arith, d.shorter)) (sym (d.moved i (omega (arith, d.shorter))) ∙ e))
      ∙ d.others p (λ e. n 0 h (sym e));
}
  where
    head_kept : r.pcbs (k.sleep_queue 0) ≡ m.pcbs (k.sleep_queue 0)
    head_kept = v.others (k.sleep_queue 0) (λ i l e. absurd (
        omega (
          arith,
          q.distinct (suc i) 0 (omega (arith, d.shorter)) h
              (sym (d.moved i (omega (arith, d.shorter))) ∙ e),
        )))

    due :
        (i : ℕ)
        → i < k.sleep_queue_count
        → (k.pcbs (k.sleep_queue i)).wake_tick ≤ k.tick_count
        → (r.pcbs (k.sleep_queue i)).state ≡ ProcState.ready
    due zero l e = rw head_kept d.woken
    due (suc i) l e = rw (← d.moved i (omega arith)) (
        v.due i (omega (arith, d.shorter))
          (rw (same_pcb q d i (omega (arith, d.shorter)), d.same_time) e))

    not_due :
        (i : ℕ)
        → i < k.sleep_queue_count
        → k.tick_count < (k.pcbs (k.sleep_queue i)).wake_tick
        → r.pcbs (k.sleep_queue i) ≡ k.pcbs (k.sleep_queue i)
    not_due zero l e = absurd (omega arith)
    not_due (suc i) l e =
        ap r.pcbs (sym (d.moved i (omega arith)))
        ∙ v.not_due i (omega (arith, d.shorter))
            (rw (same_pcb q d i (omega (arith, d.shorter)), d.same_time) e)
        ∙ same_pcb q d i (omega (arith, d.shorter))

-- Where the head stops the loop, nobody in the queue is due.
head_first :
    {k : Kernel}
    → IsQueue k
    → 0 < k.sleep_queue_count
    → not_due k (k.sleep_queue 0) ≡ true
    → (j : ℕ) → j < k.sleep_queue_count
    → k.tick_count < wake_of k (k.sleep_queue j)
head_first {k} q h t j l =
    let timed : wake_of k (k.sleep_queue 0) ≢ 0 = q.timed 0 h in
    let least : wake_of k (k.sleep_queue 0) ≤ wake_of k (k.sleep_queue j) =
      q.sorted 0 j (omega arith) l in
    ground arith

wake_loop_stop :
    (f : ℕ) (k : Kernel)
    → k.sleep_queue_count == 0 || not_due k (k.sleep_queue 0) ≡ true
    → wake_loop (suc f) k ≡ k
unfolding wake_loop
wake_loop_stop f k h = elim (Bool-cases (k.sleep_queue_count == 0)) [
  | inl t ↦ rw t
  | inr e ↦ rw (e, wake_loop, (rw e at h))
]

wake_loop-round :
    (f : ℕ) (k : Kernel)
    → k.sleep_queue_count == 0 ≡ false
    → not_due k (k.sleep_queue 0) ≡ false
    → wake_loop (suc f) k ≡ wake_loop f (round k)
unfolding wake_loop
wake_loop-round f k e n = rw (e, wake_loop, n)

wake_loop-Woken :
    (f : ℕ) (k : Kernel) → k.sleep_queue_count ≤ f → IsQueue k → Woken k (wake_loop f k)
wake_loop-Woken zero k l q = unfold wake_loop in stopped-Woken q (λ j b. absurd (omega arith))
wake_loop-Woken (suc f) k l q = elim (dec_lt 0 k.sleep_queue_count) [
  | no e ↦ rw (wake_loop_stop f k (ground arith)) (stopped-Woken q (λ j b. absurd (omega arith)))
  | yes h ↦ elim (Bool-cases (not_due k (k.sleep_queue 0))) [
    | inl t ↦ rw (wake_loop_stop f k (ground arith)) (stopped-Woken q (head_first q h t))
    | inr n ↦
        let d : Rounded k (round k) = round-Rounded k h (q.asleep 0 h) in
        rw (wake_loop-round f k (ground arith) n) (
          Rounded-Woken h q (ground arith) d
            (wake_loop-Woken f (round k) (omega (arith, d.shorter)) (Rounded-IsQueue q d)))
  ]
]

-- With a queue that keeps its promise, one call of `wake_sleepers` readies exactly the sleepers
-- whose time has come, and ends.
pub wake_sleepers-Woken : (k : Kernel) → IsQueue k → Woken k (wake_sleepers k)
unfolding wake_sleepers
wake_sleepers-Woken k q = wake_loop-Woken k.sleep_queue_count k (omega arith) q

-- ===== src/Scheduler/Choice.antt =====
-- `pick_next`: the best level first, and round robin inside it.
use seng21213_os.Prelude.{
  ℕ, zero, suc, ◌+◌, ◌-◌, ◌%◌, ◌≤◌, ◌<◌, ◌≡◌, refl, ◌≢◌, ◌⊎◌, inl, inr, Bool, true, false, ◌&&◌,
  none, some, arith, ltb, ◌==◌, Bool-cases, Option-cases, find_first, Found, find_first-Found,
  find_first-none,
}
use native.Mathlib.Decide.{ℕ_discrete}
use seng21213_os.Machine.{Kernel, max_processes, u8}
use seng21213_os.Scheduler.{mlfq_levels, runnable_at, best_level, pick_next}

abbrev priority_of : Kernel → ℕ → ℕ
priority_of k i = (k.pcbs i).priority

-- What `best_level` says of the `n` entries from `i` on.
record Best (k : Kernel) (n i best b : ℕ) : Type 0 where
  low : b ≤ best
  least : (j : ℕ) → i ≤ j → j < i + n → runnable_at k j ≡ true → b ≤ priority_of k j
  held :
      (b ≡ best)
      ⊎ ((j : ℕ) × (i ≤ j) × (j < i + n) × (runnable_at k j ≡ true) × (priority_of k j ≡ b))

best_level-Best :
    (k : Kernel) (n i best : ℕ) → best ≤ mlfq_levels → Best k n i best (best_level k n i best)
unfolding best_level
best_level-Best k zero i best h = record {
  low = omega arith;
  least = λ j a b r. absurd (omega arith);
  held = inl refl;
}
best_level-Best k (suc n) i best h =
    elim (Bool-cases (runnable_at k i && ltb (priority_of k i) (u8 best))) [
      | inl t ↦
          let p : Best k n (i + 1) (priority_of k i) (best_level k n (i + 1) (priority_of k i)) =
            best_level-Best k n (i + 1) (priority_of k i) (ground arith) in
          rw (t, best_level)
            (record {
              low = ground (arith, p.low);
              least = λ j a b r. elim (ℕ_discrete j i) [
                | yes e ↦ rw e p.low
                | no ne ↦ p.least j (omega arith) (omega arith) r
              ];
              held = elim p.held [
                | inl e ↦ inr (i, omega arith, omega arith, ground arith, ground arith)
                | inr (j, a, b, r, e) ↦ inr (j, omega arith, omega arith, r, e)
              ];
            })
      | inr f ↦
          let p : Best k n (i + 1) best (best_level k n (i + 1) best) =
            best_level-Best k n (i + 1) best h in
          rw (f, best_level)
            (record {
              low = p.low;
              least = λ j a b r. elim (ℕ_discrete j i) [
                | yes e ↦ ground (arith, p.low)
                | no ne ↦ p.least j (omega arith) (omega arith) r
              ];
              held = elim p.held [
                | inl e ↦ inl e
                | inr (j, a, b, r, e) ↦ inr (j, omega arith, omega arith, r, e)
              ];
            })
    ]

-- Entry `i` is runnable, no runnable process has a better level, and it is the first of its level
-- when one goes round the table from `start`: any runnable entry passed over has a worse level.
pub record Picked (k : Kernel) (start i : ℕ) : Type 0 where
  pub in_table : i < max_processes
  pub runs : runnable_at k i ≡ true
  pub known : (k.pcbs i).priority < mlfq_levels
  pub best :
      (j : ℕ)
      → j < max_processes
      → runnable_at k j ≡ true
      → (k.pcbs i).priority ≤ (k.pcbs j).priority
  pub distance : ℕ
  pub reached : i ≡ (start + distance) % max_processes
  pub passed_over :
      (d : ℕ)
      → d < distance
      → runnable_at k ((start + d) % max_processes) ≡ true
      → (k.pcbs i).priority < (k.pcbs ((start + d) % max_processes)).priority

-- The test of the second loop.
abbrev at_level : Kernel → ℕ → ℕ → ℕ → Bool
at_level k start b pass =
    runnable_at k ((start + pass) % max_processes)
    && priority_of k ((start + pass) % max_processes) == u8 b

Found-Picked :
    (k : Kernel) (start b pass : ℕ)
    → Best k max_processes 0 mlfq_levels b
    → b ≢ mlfq_levels
    → Found (at_level k start b) max_processes 0 pass
    → Picked k start ((start + pass) % max_processes)
Found-Picked k start b pass p ne f =
    let small : b < mlfq_levels = omega (arith, p.low) in
    let level : priority_of k ((start + pass) % max_processes) ≡ b = ground (arith, f.passes) in
    record {
      in_table = omega arith;
      runs = ground (arith, f.passes);
      known = omega arith;
      best = λ j l r. omega (arith, level, p.least j (omega arith) (omega arith) r);
      distance = pass;
      reached = refl;
      passed_over = λ d l r. ground (
        arith,
        level,
        small,
        f.first d (omega arith) l,
        p.least ((start + d) % max_processes) (omega arith) (omega arith) r,
      );
    }

some_pass :
    (k : Kernel) (start b j : ℕ)
    → b < mlfq_levels
    → j < max_processes
    → runnable_at k j ≡ true
    → priority_of k j ≡ b
    → find_first (at_level k start b) max_processes 0 ≢ none
some_pass k start b j s l r e h =
    let pass : ℕ = (j + max_processes - start % max_processes) % max_processes in
    let there : (start + pass) % max_processes ≡ j = omega arith in
    let missed : at_level k start b pass ≡ false =
      find_first-none (at_level k start b) max_processes 0 h pass (omega arith) (omega arith) in
    ground (arith, there, missed)

-- Either the choice is such an entry, or there is none, and then no runnable process has one of
-- the three levels.
pub pick_next_cases :
    (k : Kernel) (start : ℕ)
    → ((i : ℕ) × (pick_next k start ≡ some i) × Picked k start i)
      ⊎ ((pick_next k start ≡ none)
          × ((j : ℕ)
              → j < max_processes
              → runnable_at k j ≡ true
              → mlfq_levels ≤ (k.pcbs j).priority))
unfolding pick_next
pick_next_cases k start = elim (ℕ_discrete b mlfq_levels) [
  | yes e ↦
      inr (ground (arith, e), (λ j l r. omega (arith, e, p.least j (omega arith) (omega arith) r)))
  | no ne ↦ elim (Option-cases (find_first (at_level k start b) max_processes 0)) [
    | inl h ↦ absurd (elim p.held [
      | inl e ↦ ne e
      | inr (j, _, l, r, e) ↦ some_pass k start b j (omega (arith, p.low)) (omega arith) r e h
    ])
    | inr (pass, h) ↦ inl (
      (start + pass) % max_processes,
      ground (arith, ne, h),
      Found-Picked k start b pass p ne (find_first-Found _ _ _ _ h),
    )
  ]
]
  where
    b : ℕ
    b = best_level k max_processes 0 mlfq_levels

    p : Best k max_processes 0 mlfq_levels b
    p = best_level-Best k max_processes 0 mlfq_levels (omega arith)

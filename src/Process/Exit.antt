-- ===== src/Process/Exit.antt =====
-- Ending and finding processes, against the invariant of the table.
use seng21213_os.Prelude.{
  ℕ, ◌+◌, ◌<◌, ◌≡◌, refl, sym, ◌∙◌, ap, subst, ◌≢◌, inl, inr, Bool, true, false, ◌&&◌, none, some,
  arith, ◌==◌, Option-cases, Found, find_first-Found, find_first-none, count_pos,
}
use seng21213_os.Machine.{Kernel, max_processes, is_live}
use seng21213_os.Process.{exit_pcb, process_exit, exit_from, process_get, process_decrement_count}
use seng21213_os.Process.Table.{IsTable, Ended, Ended-IsTable}

exit_pcb-Ended : (k : Kernel) (c : ℕ) → k.process_total ≢ 0 → Ended k (exit_pcb k c) c
unfolding exit_pcb process_decrement_count
exit_pcb-Ended k c pos = record {
  others = λ j ne. ground arith;
  dead = ground arith;
  no_stack = ground arith;
  next = ground arith;
  total = ground arith;
}

pub live_counted :
    {k : Kernel} (c : ℕ) → IsTable k → c < max_processes → is_live k c ≡ true → k.process_total ≢ 0
live_counted {k} c v l a z = omega (arith, v.counted, count_pos (is_live k) max_processes c l a)

ended :
    {k : Kernel} (c : ℕ)
    → IsTable k
    → c < max_processes
    → is_live k c ≡ true
    → (k.pcbs c).pid ≢ 0
    → IsTable (exit_from k (some c))
      × (is_live (exit_from k (some c)) c ≡ false)
      × (((exit_from k (some c)).pcbs c).has_stack ≡ false)
      × ((exit_from k (some c)).process_total + 1 ≡ k.process_total)
unfolding exit_from
ended {k} c v l a ne =
    let test : (k.pcbs c).pid == 0 ≡ false = ground arith in
    let pos : k.process_total ≢ 0 = live_counted c v l a in
    let s : Ended k (exit_pcb k c) c = exit_pcb-Ended k c pos in
    rw (exit_from, test)
      (
        Ended-IsTable c v (ground (arith, v.shell.1, ne)) l a s,
        s.dead,
        s.no_stack,
        omega (arith, s.total),
      )

-- The running process, alive and not the shell, ends: the table stays well formed, with one live
-- entry fewer.
pub process_exit-IsTable :
    {k : Kernel} (c : ℕ)
    → IsTable k
    → k.current ≡ some c
    → c < max_processes
    → is_live k c ≡ true
    → (k.pcbs c).pid ≢ 0
    → IsTable (process_exit k)
      × (is_live (process_exit k) c ≡ false)
      × (((process_exit k).pcbs c).has_stack ≡ false)
      × ((process_exit k).process_total + 1 ≡ k.process_total)
unfolding process_exit
process_exit-IsTable {k} c v e l a ne =
    subst
      (λ o.
        IsTable (exit_from k o)
        × (is_live (exit_from k o) c ≡ false)
        × (((exit_from k o).pcbs c).has_stack ≡ false)
        × ((exit_from k o).process_total + 1 ≡ k.process_total))
      (sym e) (ended c v l a ne)

-- The test of `process_get`.
abbrev has_pid : Kernel → ℕ → ℕ → Bool
has_pid k pid i = (k.pcbs i).pid == pid && is_live k i

pub process_get-live :
    (k : Kernel) (pid i : ℕ)
    → process_get k pid ≡ some i
    → (i < max_processes) × (is_live k i ≡ true) × ((k.pcbs i).pid ≡ pid)
unfolding process_get
process_get-live k pid i h =
    let f : Found (has_pid k pid) max_processes 0 i = find_first-Found _ _ _ _ h in
    (omega (arith, f.below), ground (arith, f.passes), ground (arith, f.passes))

not_found :
    (k : Kernel) (pid i : ℕ)
    → i < max_processes
    → process_get k pid ≡ none
    → (k.pcbs i).pid ≡ pid
    → is_live k i ≡ false
unfolding process_get
not_found k pid i l h e =
    ground (arith, find_first-none (has_pid k pid) max_processes 0 h i (omega arith) (omega arith))

-- In a well-formed table a lookup of a live process's pid finds that process.
pub process_get_finds :
    {k : Kernel} (i : ℕ)
    → IsTable k
    → i < max_processes
    → is_live k i ≡ true
    → process_get k (k.pcbs i).pid ≡ some i
process_get_finds {k} i v l a = elim (Option-cases (process_get k (k.pcbs i).pid)) [
  | inl h ↦ cc (missed h, a)
  | inr (j, h) ↦
      let (b, c, e) = process_get-live k (k.pcbs i).pid j h in
      h ∙ ap some (v.pids_distinct j i b l c a e)
]
  where
    missed : process_get k (k.pcbs i).pid ≡ none → is_live k i ≡ false
    missed h = not_found k (k.pcbs i).pid i l h refl

-- ===== src/Scheduler/Kill.antt =====
-- `scheduler_kill` against the invariant of the process table.
use seng21213_os.Prelude.{
  ℕ, ◌+◌, ◌<◌, ◌≡◌, refl, ◌≢◌, ◌⊎◌, inl, inr, true, false, none, some, arith, ◌==◌, Option-cases,
}
use seng21213_os.Machine.{Kernel, max_processes, is_live}
use seng21213_os.Process.{process_get, process_decrement_count}
use seng21213_os.Process.Table.{IsTable, Ended, Ended-IsTable}
use seng21213_os.Process.Exit.{process_get_finds, live_counted}
use seng21213_os.Scheduler.{sleep_queue_remove}
use seng21213_os.Scheduler.Fork.{slot, minus_one, set_result, terminate, is_current, scheduler_kill}

remove_same :
    (k : Kernel) (i : ℕ)
    → let r = sleep_queue_remove k i in
      (r.pcbs ≡ k.pcbs) × (r.next_pid ≡ k.next_pid) × (r.process_total ≡ k.process_total)
unfolding sleep_queue_remove
remove_same k i = ground arith

terminate-Ended : (k : Kernel) (t : ℕ) → k.process_total ≢ 0 → Ended k (terminate k t) t
unfolding terminate process_decrement_count
terminate-Ended k t pos =
    let (p, n, m) = remove_same k t in
    record {
      others = λ j ne. ground (arith, p);
      dead = ground arith;
      no_stack = ground arith;
      next = ground (arith, n);
      total = ground (arith, m);
    }

kill_eq :
    (k : Kernel) (esp i pid : ℕ)
    → process_get k pid ≡ some i
    → pid ≢ 0
    → is_current k.current i ≡ false
    → scheduler_kill k esp pid ≡ (set_result (terminate k i) esp 0, esp)
unfolding scheduler_kill
kill_eq k esp i pid found ne other =
    let test : pid == 0 ≡ false = ground arith in rw (scheduler_kill, found, test, other)

killed-Ended :
    (k : Kernel) (esp t : ℕ) → k.process_total ≢ 0 → Ended k (set_result (terminate k t) esp 0) t
unfolding set_result
killed-Ended k esp t pos =
    let s : Ended k (terminate k t) t = terminate-Ended k t pos in
    record {
      others = s.others;
      dead = s.dead;
      no_stack = s.no_stack;
      next = s.next;
      total = s.total;
    }

result_written : (k : Kernel) (esp v : ℕ) → (set_result k esp v).memory (slot esp 7) ≡ v
unfolding set_result
result_written k esp v = ground arith

-- Killing a live process other than the shell and the caller ends that process alone, keeps the
-- table well formed, and returns 0 in the caller's frame.
pub scheduler_kill_other :
    {k : Kernel} (context_esp i : ℕ)
    → IsTable k
    → i < max_processes
    → is_live k i ≡ true
    → (k.pcbs i).pid ≢ 0
    → is_current k.current i ≡ false
    → let r = scheduler_kill k context_esp (k.pcbs i).pid in
      IsTable r.0
      × (is_live r.0 i ≡ false)
      × ((j : ℕ) → j ≢ i → r.0.pcbs j ≡ k.pcbs j)
      × (r.0.process_total + 1 ≡ k.process_total)
      × (r.0.memory (slot context_esp 7) ≡ 0)
      × (r.1 ≡ context_esp)
scheduler_kill_other {k} esp i v l a ne other =
    let pos : k.process_total ≢ 0 = live_counted i v l a in
    let s : Ended k (set_result (terminate k i) esp 0) i = killed-Ended k esp i pos in
    rw (kill_eq k esp i (k.pcbs i).pid (process_get_finds i v l a) ne other) (
      Ended-IsTable i v (ground (arith, v.shell.1, ne)) l a s,
      s.dead,
      s.others,
      omega (arith, s.total),
      result_written (terminate k i) esp 0,
      refl,
    )

-- A pid that no live process has, or that of the shell, is refused with -1, and only the result in
-- the caller's frame changes.
pub scheduler_kill_refused :
    (k : Kernel) (context_esp pid : ℕ)
    → (process_get k pid ≡ none) ⊎ (pid ≡ 0)
    → scheduler_kill k context_esp pid ≡ (set_result k context_esp minus_one, context_esp)
unfolding scheduler_kill
scheduler_kill_refused k esp pid (inl h) = rw (scheduler_kill, h)
scheduler_kill_refused k esp pid (inr z) = elim (Option-cases (process_get k pid)) [
  | inl h ↦ rw (scheduler_kill, h)
  | inr (i, h) ↦ let test : pid == 0 ≡ true = ground arith in rw (scheduler_kill, h, test)
]

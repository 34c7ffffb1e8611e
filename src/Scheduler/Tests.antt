-- ===== src/Scheduler/Tests.antt =====
-- The scheduler with the shell running, two sleepers and one ready process.
use seng21213_os.Prelude.{
  shift_down, ℕ, zero, suc, ◌+◌, ◌≤◌, ◌<◌, ◌≡◌, refl, ◌≢◌, ◌⊎◌, true, false, none, some, arith,
  find_first, get_bit,
}
use seng21213_os.Machine.{Kernel, ProcState, max_processes, is_live, is_blocked}
use seng21213_os.Process.{
  process_init, reset_pcb, shell_pcb, process_create_named, find_slot, new_process, attach_stack,
  give_stack, build_initial_context, push_zeroes,
}
use seng21213_os.Process.Init.{process_init-IsTable}
use seng21213_os.Process.Create.{process_create_named-IsTable}
use seng21213_os.Pmm.{alloc_frame, first_free, bit_test}
use seng21213_os.Process.Table.{IsTable}
use seng21213_os.Scheduler.{
  mlfq_levels, runnable_at, pick_next, wake_sleepers, wake_loop, wake_one, sleep_queue_remove,
  sleep_queue_insert, dispatch, at_choice, before_choice, advance_clock, save_current, save_context,
  charge, best_level, choose, switch_to, preempt,
}
use seng21213_os.Scheduler.Choice.{Picked, pick_next_cases}
use seng21213_os.Scheduler.Sleep.{IsQueue, sleep_queue_insert-IsQueue}
use seng21213_os.Scheduler.Wake.{Woken, wake_sleepers-Woken}
use seng21213_os.Scheduler.Running.{
  OneRunning, IsLevels, Dispatched, dispatch-OneRunning, dispatch-IsLevels, dispatch_cases,
}
use seng21213_os.Scheduler.Fork.{slot, is_current, scheduler_kill}
use seng21213_os.Scheduler.Kill.{scheduler_kill_other}
use seng21213_os.Fixtures.{sleepy, booted, blank}

sleepy-IsQueue : IsQueue sleepy
sleepy-IsQueue = record {
  sorted = sorted;
  distinct = λ i j a b e. omega arith;
  asleep = asleep;
  timed = timed;
}
  where
    sorted :
        (i j : ℕ)
        → i ≤ j
        → j < 2
        → (sleepy.pcbs (i + 1)).wake_tick ≤ (sleepy.pcbs (j + 1)).wake_tick
    sorted zero zero a b = omega arith
    sorted zero (suc zero) a b = omega arith
    sorted (suc zero) (suc zero) a b = omega arith
    sorted (suc (suc i)) j a b = absurd (omega arith)
    sorted i (suc (suc j)) a b = absurd (omega arith)
    sorted (suc i) zero a b = absurd (omega arith)

    asleep : (i : ℕ) → i < 2 → is_blocked (sleepy.pcbs (i + 1)).state ≡ true
    asleep zero a = refl
    asleep (suc zero) a = refl
    asleep (suc (suc i)) a = absurd (omega arith)

    timed : (i : ℕ) → i < 2 → (sleepy.pcbs (i + 1)).wake_tick ≢ 0
    timed zero a = omega arith
    timed (suc zero) a = omega arith
    timed (suc (suc i)) a = absurd (omega arith)

sleepy-IsLevels : IsLevels sleepy
sleepy-IsLevels zero = omega arith
sleepy-IsLevels (suc zero) = omega arith
sleepy-IsLevels (suc (suc zero)) = omega arith
sleepy-IsLevels (suc (suc (suc zero))) = omega arith
sleepy-IsLevels (suc (suc (suc (suc i)))) = omega arith

sleepy-OneRunning : OneRunning sleepy
sleepy-OneRunning zero e = refl
sleepy-OneRunning (suc zero) e = cc
sleepy-OneRunning (suc (suc zero)) e = cc
sleepy-OneRunning (suc (suc (suc zero))) e = cc
sleepy-OneRunning (suc (suc (suc (suc i)))) e = cc

-- At tick 9 both sleepers are due, and the one after the shell is next.
tick_wakes :
    ((dispatch sleepy 0x7000 true).0.current ≡ some 1)
    × (((dispatch sleepy 0x7000 true).0.pcbs 2).state ≡ ProcState.ready)
    × ((dispatch sleepy 0x7000 true).1 ≡ 0x9000)
unfolding dispatch at_choice before_choice advance_clock wake_sleepers wake_loop wake_one
    sleep_queue_remove shift_down find_first save_current save_context charge choose pick_next
    best_level switch_to preempt
tick_wakes = (refl, refl, refl)

pick_next_cases_example :
    ((i : ℕ) × (pick_next sleepy 1 ≡ some i) × Picked sleepy 1 i)
    ⊎ ((pick_next sleepy 1 ≡ none)
        × ((j : ℕ)
            → j < max_processes
            → runnable_at sleepy j ≡ true
            → mlfq_levels ≤ (sleepy.pcbs j).priority))
pick_next_cases_example = pick_next_cases sleepy 1

wake_sleepers-Woken_example : Woken sleepy (wake_sleepers sleepy)
wake_sleepers-Woken_example = wake_sleepers-Woken sleepy sleepy-IsQueue

-- The shell's neighbour, also blocked with a time, but not yet queued.
abbrev drowsy : Kernel
drowsy = record sleepy { sleep_queue_count = 1 }

drowsy-IsQueue : IsQueue drowsy
drowsy-IsQueue = record {
  sorted = λ i j a b. sleepy-IsQueue.sorted i j a (omega arith);
  distinct = λ i j a b e. omega arith;
  asleep = λ i a. sleepy-IsQueue.asleep i (omega arith);
  timed = λ i a. sleepy-IsQueue.timed i (omega arith);
}

sleep_queue_insert-IsQueue_example : IsQueue (sleep_queue_insert drowsy 2)
sleep_queue_insert-IsQueue_example =
    sleep_queue_insert-IsQueue 2 drowsy-IsQueue refl (omega arith) (λ i l. omega arith)

dispatch-OneRunning_example : OneRunning (dispatch sleepy 0x7000 true).0
dispatch-OneRunning_example = dispatch-OneRunning sleepy 0x7000 true sleepy-OneRunning

dispatch-IsLevels_example : IsLevels (dispatch sleepy 0x7000 true).0
dispatch-IsLevels_example = dispatch-IsLevels sleepy 0x7000 true sleepy-IsLevels

abbrev after_yield : Kernel
after_yield = at_choice sleepy 0x7000 false

behind_idle : (i : ℕ) → max_processes ≤ i → runnable_at after_yield i ≡ false
unfolding at_choice before_choice advance_clock save_current save_context charge
behind_idle zero l = absurd (omega arith)
behind_idle (suc zero) l = refl
behind_idle (suc (suc zero)) l = refl
behind_idle (suc (suc (suc zero))) l = absurd (omega arith)
behind_idle (suc (suc (suc (suc i)))) l = ground arith

dispatch_cases_example :
    Dispatched after_yield 1 (dispatch sleepy 0x7000 false)
    ⊎ (((i : ℕ) → i < max_processes → runnable_at after_yield i ≡ false)
        × (dispatch sleepy 0x7000 false ≡ (after_yield, 0x7000)))
dispatch_cases_example = dispatch_cases sleepy 0x7000 false sleepy-IsLevels behind_idle

abbrev bootstrap : ℕ
bootstrap = 0x10400

abbrev with_worker : Kernel
with_worker = (process_create_named bootstrap booted 0x5000 none).0

frame_left : ((alloc_frame booted.pmm).1 ≡ 0x100000) × (booted.next_pid ≡ 1)
unfolding process_init alloc_frame first_free find_first bit_test get_bit
frame_left = (refl, refl)

with_worker-IsTable : IsTable with_worker
with_worker-IsTable =
    (process_create_named-IsTable bootstrap 0x5000 none (process_init-IsTable blank)
      (omega (arith, frame_left)) (omega (arith, frame_left))).0

worker_lives :
    (is_live with_worker 1 ≡ true)
    × ((with_worker.pcbs 1).pid ≡ 1)
    × (is_current with_worker.current 1 ≡ false)
unfolding process_create_named find_slot process_init reset_pcb shell_pcb find_first alloc_frame
    first_free bit_test get_bit new_process attach_stack give_stack build_initial_context
    push_zeroes
worker_lives = (refl, refl, refl)

scheduler_kill_other_example :
    let r = scheduler_kill with_worker 0x7000 (with_worker.pcbs 1).pid in
    IsTable r.0
    × (is_live r.0 1 ≡ false)
    × ((j : ℕ) → j ≢ 1 → r.0.pcbs j ≡ with_worker.pcbs j)
    × (r.0.process_total + 1 ≡ with_worker.process_total)
    × (r.0.memory (slot 0x7000 7) ≡ 0)
    × (r.1 ≡ 0x7000)
scheduler_kill_other_example =
    scheduler_kill_other 0x7000 1 with_worker-IsTable (omega arith) worker_lives.0
      (omega (arith, worker_lives.1)) worker_lives.2

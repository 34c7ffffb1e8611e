-- ===== src/Fixtures.antt =====
-- Concrete states for the tests: a frame manager with three free frames at 1 MiB, one with none,
-- and a machine that has just booted.
use seng21213_os.Prelude.{ℕ, zero, suc, ◌+◌, true, false, none, some, ◌==◌, if◌then◌else◌}
use seng21213_os.Pmm.{Pmm}
use seng21213_os.Machine.{Pcb, ProcState, Kernel}
use seng21213_os.Process.{process_init}

abbrev pub three_frames : Pmm
three_frames = record {
  bitmap = λ i. if i == 32 then 0xf8 else 0xff;
  frame_count = 259;
  total_frames = 3;
  used_frames = 0;
  reserved_end = 0x30000;
}

abbrev pub no_frames : Pmm
no_frames = record three_frames { bitmap = λ i. 0xff; total_frames = 0 }

-- An entry of the table before `process_init`.
abbrev pub blank_pcb : Pcb
blank_pcb = record {
  pid = 0;
  state = ProcState.ready;
  esp = 0;
  eip = 0;
  stack_base = 0;
  stack_top = 0;
  wake_tick = 0;
  priority = 0;
  base_priority = 0;
  quantum_ticks = 0;
  ticks_used = 0;
  has_stack = false;
  is_thread = false;
  tid = 0;
  parent = none;
  thread_entry = 0;
  thread_arg = 0;
  owned_mutex_list = λ i. none;
  owned_mutexes = 0;
  waiting_mutex = none;
  rw_read_locks = 0;
  entry = 0;
  name = λ i. 0;
}

abbrev pub blank : Kernel
blank = record {
  pcbs = λ i. blank_pcb;
  next_pid = 0;
  next_tid = 0;
  process_total = 0;
  current = none;
  pmm = three_frames;
  memory = λ a. 0;
  tick_count = 0;
  rr_cursor = 0;
  timer_started = false;
  sleep_queue = λ i. 0;
  sleep_queue_count = 0;
}

abbrev pub booted : Kernel
booted = process_init blank

abbrev pub exhausted : Kernel
exhausted = process_init (record blank { pmm = no_frames })

-- The shell runs; process 1 sleeps until tick 7, process 2 until tick 9, process 3 is ready.
abbrev sleeper : ℕ → ℕ → Pcb
sleeper pid wake = record blank_pcb {
  pid = pid;
  state = ProcState.blocked;
  wake_tick = wake;
  has_stack = true;
  esp = 0x9000;
  quantum_ticks = 4;
}

abbrev sleepy_pcbs : ℕ → Pcb
sleepy_pcbs zero = record blank_pcb { state = ProcState.running }
sleepy_pcbs (suc zero) = sleeper 1 7
sleepy_pcbs (suc (suc zero)) = sleeper 2 9
sleepy_pcbs (suc (suc (suc zero))) = record (sleeper 3 0) { state = ProcState.ready }
sleepy_pcbs _ = record blank_pcb { state = ProcState.terminated }

abbrev pub sleepy : Kernel
sleepy = record blank {
  pcbs = sleepy_pcbs;
  next_pid = 4;
  process_total = 4;
  current = some 0;
  tick_count = 8;
  timer_started = true;
  sleep_queue = λ i. i + 1;
  sleep_queue_count = 2;
}

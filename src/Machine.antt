-- ===== src/Machine.antt =====
-- The state that the process code shares: the process table and counters of kernel/process.c, the
-- clock and sleep queue of kernel/scheduler.c, the frames of kernel/pmm.c, and the memory that
-- holds the stacks. A `pcb_t *` is an index into the table, with `none` for NULL; a `mutex_t *` is
-- the number of a mutex; a function pointer is its address, with 0 for NULL; a flag is a Bool.
use seng21213_os.Prelude.{ℕ, ◌%◌, ◌^◌, Bool, true, false, Option, if◌then◌else◌, update, CString}
use seng21213_os.Pmm.{Pmm}

abbrev pub max_processes : ℕ
max_processes = 16

abbrev pub stack_size : ℕ
stack_size = 4096

abbrev pub process_name_len : ℕ
process_name_len = 16

-- `proc_state_t`
pub data ProcState : Type 0 where
  ready running blocked terminated : ProcState

abbrev pub is_terminated : ProcState → Bool
is_terminated ProcState.terminated = true
is_terminated _ = false

abbrev pub is_blocked : ProcState → Bool
is_blocked ProcState.blocked = true
is_blocked _ = false

abbrev pub is_running : ProcState → Bool
is_running ProcState.running = true
is_running _ = false

abbrev pub is_runnable : ProcState → Bool
is_runnable ProcState.ready = true
is_runnable ProcState.running = true
is_runnable _ = false

-- `pcb_t`
pub record Pcb : Type 0 where
  pub pid : ℕ
  pub state : ProcState
  pub esp : ℕ
  pub eip : ℕ
  pub stack_base : ℕ
  pub stack_top : ℕ
  pub wake_tick : ℕ
  pub priority : ℕ
  pub base_priority : ℕ
  pub quantum_ticks : ℕ
  pub ticks_used : ℕ
  pub has_stack : Bool
  pub is_thread : Bool
  pub tid : ℕ
  pub parent : Option ℕ
  pub thread_entry : ℕ
  pub thread_arg : ℕ
  pub owned_mutex_list : ℕ → Option ℕ
  pub owned_mutexes : ℕ
  pub waiting_mutex : Option ℕ
  pub rw_read_locks : ℕ
  pub entry : ℕ
  pub name : CString

-- The static variables of the files named above. `memory` holds the 32-bit word at each address
-- that is a multiple of four.
pub record Kernel : Type 0 where
  pub pcbs : ℕ → Pcb
  pub next_pid : ℕ
  pub next_tid : ℕ
  pub process_total : ℕ
  pub current : Option ℕ
  pub pmm : Pmm
  pub memory : ℕ → ℕ
  pub tick_count : ℕ
  pub rr_cursor : ℕ
  pub timer_started : Bool
  pub sleep_queue : ℕ → ℕ
  pub sleep_queue_count : ℕ

-- `pcbs[i] = p`
abbrev pub set_pcb : Kernel → ℕ → Pcb → Kernel
set_pcb k i p = record k { pcbs = update k.pcbs i p }

abbrev pub is_live : Kernel → ℕ → Bool
is_live k i = if is_terminated (k.pcbs i).state then false else true

abbrev pub u32 : ℕ → ℕ
u32 n = n % 2 ^ 32

abbrev pub u8 : ℕ → ℕ
u8 n = n % 2 ^ 8

-- ===== src/Process.antt =====
-- kernel/process.c: creating, finding and ending processes and threads.
-- A creating function returns the new state and the `pcb_t *` that it returns.
-- `bootstrap` is the address of `process_bootstrap`, which the linker chooses.
pub mod Table
pub mod Init
pub mod Create
pub mod Exit
mod Tests
use seng21213_os.Prelude.{
  ℕ, zero, suc, ◌+◌, ◌-◌, ◌*◌, ◌%◌, ◌^◌, ◌≡◌, Bool, true, false, not, ◌&&◌, ◌||◌, Option, none,
  some, ltb, ◌==◌, if◌then◌else◌, update, find_first, CString, literal, copy_from,
}
use seng21213_os.Machine.{
  Pcb, ProcState, Kernel, max_processes, stack_size, process_name_len, is_terminated, is_live,
  set_pcb, u32,
}
use seng21213_os.Pmm.{Pmm, alloc_frame, free_frame}

-- `k_name`: at most fifteen characters and the end; "process" for NULL.
unfoldable pub k_name : CString → Option CString → CString
k_name dst none = copy_from (process_name_len - 1) 0 dst (literal "process")
k_name dst (some src) = copy_from (process_name_len - 1) 0 dst src

-- A push of one word: `*(--sp) = word`.
abbrev push_word : (ℕ → ℕ) × ℕ → ℕ → (ℕ → ℕ) × ℕ
push_word (mem, sp) word = let sp' = u32 (sp + 2 ^ 32 - 4) in (update mem sp' word, sp')

-- Eight zeroes: the registers that POPAD will load.
unfoldable pub push_zeroes : ℕ → (ℕ → ℕ) × ℕ → (ℕ → ℕ) × ℕ
push_zeroes zero s = s
push_zeroes (suc n) s = push_zeroes n (push_word s 0)

-- `build_initial_context`: EFLAGS, CS and EIP for IRET, then the registers.
unfoldable pub build_initial_context : ℕ → Kernel → ℕ → Kernel
build_initial_context bootstrap k i =
    let p = k.pcbs i in
    let frame =
      push_word (push_word (push_word (k.memory, p.stack_top) 0x00000202) 0x00000008) bootstrap in
    let (mem, sp) = push_zeroes 8 frame in
    record k { memory = mem; pcbs = update k.pcbs i (record p { esp = sp; eip = bootstrap }) }

-- The body of the first loop of `process_init`.
unfoldable pub reset_pcb : Pcb → Pcb
reset_pcb p = record p {
  pid = 0;
  state = ProcState.terminated;
  esp = 0;
  eip = 0;
  stack_base = 0;
  stack_top = 0;
  wake_tick = 0;
  priority = 0;
  base_priority = 0;
  quantum_ticks = 0;
  ticks_used = 0;
  has_stack = false;
  is_thread = false;
  tid = 0;
  parent = none;
  thread_entry = 0;
  thread_arg = 0;
  owned_mutexes = 0;
  waiting_mutex = none;
  rw_read_locks = 0;
  entry = 0;
  name = update p.name 0 0;
}

-- The entry of the shell, which runs already.
unfoldable pub shell_pcb : Pcb → Pcb
shell_pcb p = record p {
  pid = 0;
  state = ProcState.running;
  priority = 0;
  base_priority = 0;
  quantum_ticks = 4;
  is_thread = false;
  tid = 0;
  parent = none;
  entry = 0;
  name = k_name p.name (some (literal "shell"));
}

-- The loop runs over the whole table, an entry at a time.
unfoldable pub process_init : Kernel → Kernel
process_init k =
    let cleared = λ (i : ℕ). if ltb i max_processes then reset_pcb (k.pcbs i) else k.pcbs i in
    record k {
      pcbs = update cleared 0 (shell_pcb (cleared 0));
      current = some 0;
      process_total = 1;
      next_pid = 1;
      next_tid = 1;
    }

abbrev pub is_unused : Kernel → ℕ → Bool
is_unused k i = is_terminated (k.pcbs i).state && not (k.pcbs i).has_stack

-- The search of `process_create_named`, `thread_create_named` and `scheduler_fork`: from 1 on.
unfoldable pub find_slot : Kernel → Option ℕ
find_slot k = find_first (is_unused k) (max_processes - 1) 1

-- `p->stack_base = 0` when there is no frame.
unfoldable pub no_stack : Kernel → ℕ → Pmm → Kernel
no_stack k i m = record k { pmm = m; pcbs = update k.pcbs i (record (k.pcbs i) { stack_base = 0 }) }

unfoldable pub give_stack : Kernel → ℕ → Pmm → ℕ → Option CString → Kernel
give_stack k i m base name = record k {
  pmm = m;
  pcbs = update k.pcbs i (record (k.pcbs i) {
    stack_base = base;
    stack_top = u32 (base + stack_size);
    has_stack = true;
    name = k_name (k.pcbs i).name name;
  });
}

abbrev pub count_new : Kernel → Kernel
count_new k = record k { process_total = u32 (k.process_total + 1) }

-- What both creating functions do from `pmm_alloc_frame` on. When there is no frame they return
-- NULL with the entry as it is by then.
unfoldable pub attach_stack : ℕ → Kernel → ℕ → Option CString → Kernel × Option ℕ
attach_stack bootstrap k i name =
    let (m, base) = alloc_frame k.pmm in
    if base == 0
    then (no_stack k i m, none)
    else (count_new (build_initial_context bootstrap (give_stack k i m base name) i), some i)

-- The fields that `process_create_named` sets before it asks for a stack.
unfoldable pub new_process : Kernel → ℕ → ℕ → Kernel
new_process k i entry = record k {
  next_pid = u32 (k.next_pid + 1);
  pcbs = update k.pcbs i (record (k.pcbs i) {
    pid = k.next_pid;
    state = ProcState.ready;
    priority = 0;
    base_priority = 0;
    quantum_ticks = 4;
    ticks_used = 0;
    wake_tick = 0;
    entry = entry;
    is_thread = false;
    tid = 0;
    parent = none;
    thread_entry = 0;
    thread_arg = 0;
    owned_mutexes = 0;
    waiting_mutex = none;
    rw_read_locks = 0;
  });
}

unfoldable pub process_create_named : ℕ → Kernel → ℕ → Option CString → Kernel × Option ℕ
process_create_named bootstrap k entry name = if entry == 0 then (k, none) else elim (find_slot k) [
  | none ↦ (k, none)
  | some i ↦ attach_stack bootstrap (new_process k i entry) i name
]

unfoldable pub create_process : ℕ → Kernel → ℕ → Kernel × Option ℕ
create_process bootstrap k entry = process_create_named bootstrap k entry (some (literal "process"))

-- The fields that `thread_create_named` sets, from the entry of the running process.
unfoldable pub new_thread : Kernel → ℕ → ℕ → ℕ → ℕ → Kernel
new_thread k i parent entry arg = record k {
  next_pid = u32 (k.next_pid + 1);
  next_tid = u32 (k.next_tid + 1);
  pcbs = update k.pcbs i (record (k.pcbs i) {
    pid = k.next_pid;
    tid = k.next_tid;
    state = ProcState.ready;
    priority = (k.pcbs parent).priority;
    base_priority = (k.pcbs parent).base_priority;
    quantum_ticks = 4;
    ticks_used = 0;
    wake_tick = 0;
    entry = 0;
    is_thread = true;
    parent = some parent;
    thread_entry = entry;
    thread_arg = arg;
    owned_mutexes = 0;
    waiting_mutex = none;
    rw_read_locks = 0;
  });
}

-- `thread_create_named` with `parent`, the running process; "thread" stands for a NULL name.
unfoldable pub thread_create_from :
    ℕ → Kernel → Option ℕ → ℕ → ℕ → Option CString → Kernel × Option ℕ
thread_create_from bootstrap k none entry arg name = (k, none)
thread_create_from bootstrap k (some parent) entry arg name =
    if entry == 0 then (k, none) else elim (find_slot k) [
      | none ↦ (k, none)
      | some i ↦
          attach_stack bootstrap (new_thread k i parent entry arg) i
            (elim name [ none ↦ some (literal "thread") | some s ↦ some s ])
    ]

unfoldable pub thread_create_named : ℕ → Kernel → ℕ → ℕ → Option CString → Kernel × Option ℕ
thread_create_named bootstrap k entry arg name =
    thread_create_from bootstrap k k.current entry arg name

-- `thread_create` of kernel/thread.c
unfoldable pub thread_create : ℕ → Kernel → ℕ → ℕ → Kernel × Option ℕ
thread_create bootstrap k entry arg =
    thread_create_named bootstrap k entry arg (some (literal "thread"))

unfoldable pub process_decrement_count : Kernel → Kernel
process_decrement_count k =
    if k.process_total == 0 then k else record k { process_total = k.process_total - 1 }

unfoldable pub process_increment_count : Kernel → Kernel
process_increment_count k =
    if ltb k.process_total max_processes
    then record k { process_total = k.process_total + 1 }
    else k

-- What `process_exit` does to the entry of the running process.
unfoldable pub exit_pcb : Kernel → ℕ → Kernel
exit_pcb k c =
    let p = k.pcbs c in
    process_decrement_count (record k {
      pmm = if p.has_stack then free_frame k.pmm p.stack_base else k.pmm;
      pcbs = update k.pcbs c (record p {
        state = ProcState.terminated;
        entry = 0;
        thread_entry = 0;
        thread_arg = 0;
        waiting_mutex = none;
        stack_base = 0;
        stack_top = 0;
        esp = 0;
        eip = 0;
        has_stack = false;
      });
    })

-- `process_exit`, with the value of `current`.
unfoldable pub exit_from : Kernel → Option ℕ → Kernel
exit_from k none = k
exit_from k (some c) = if (k.pcbs c).pid == 0 then k else exit_pcb k c

unfoldable pub process_exit : Kernel → Kernel
process_exit k = exit_from k k.current

-- `process_get`: the first live entry with that pid.
unfoldable pub process_get : Kernel → ℕ → Option ℕ
process_get k pid = find_first (λ i. (k.pcbs i).pid == pid && is_live k i) max_processes 0

-- `process_allocate_pid`: the new state and the pid.
unfoldable pub process_allocate_pid : Kernel → Kernel × ℕ
process_allocate_pid k = (record k { next_pid = u32 (k.next_pid + 1) }, k.next_pid)

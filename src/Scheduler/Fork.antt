-- ===== src/Scheduler/Fork.antt =====
-- `scheduler_fork` and `scheduler_kill` of kernel/scheduler.c, the handlers of interrupts 0x31 and
-- 0x32. Slot 7 of a PUSHAD frame is EAX, the result that the interrupted code sees.
use seng21213_os.Prelude.{
  ℕ, zero, suc, ◌+◌, ◌-◌, ◌*◌, ◌/◌, ◌^◌, Bool, true, false, ◌&&◌, Option, none, some, ltb, leb,
  ◌==◌, if◌then◌else◌, update, CString,
}
use seng21213_os.Machine.{Pcb, ProcState, Kernel, process_name_len, stack_size, set_pcb, u32}
use seng21213_os.Process.{
  find_slot, process_get, process_allocate_pid, process_increment_count, process_decrement_count,
}
use seng21213_os.Pmm.{alloc_frame, free_frame}
use seng21213_os.Scheduler.{sleep_queue_remove, dispatch}

-- The address of slot `i` of a frame, and (uint32_t)-1.
abbrev pub slot : ℕ → ℕ → ℕ
slot context_esp i = u32 (context_esp + 4 * i)

abbrev pub minus_one : ℕ
minus_one = 2 ^ 32 - 1

unfoldable pub set_result : Kernel → ℕ → ℕ → Kernel
set_result k context_esp v = record k { memory = update k.memory (slot context_esp 7) v }

-- `child->name[at] = c`. The array has sixteen entries and is the last field: index 16 is the low
-- byte of the next entry's pid.
unfoldable pub write_name : Kernel → ℕ → ℕ → ℕ → Kernel
write_name k child at c =
    let p = k.pcbs child in
    let next = k.pcbs (child + 1) in
    if ltb at process_name_len
    then set_pcb k child (record p { name = update p.name at c })
    else set_pcb k (child + 1) (record next { pid = next.pid / 2 ^ 8 * 2 ^ 8 + c })

-- The first loop over the name, with `n` rounds left before `i` reaches fifteen: the new state and
-- the final `i`.
unfoldable pub copy_name : ℕ → ℕ → Kernel → ℕ → CString → Kernel × ℕ
copy_name zero i k child src = (k, i)
copy_name (suc n) i k child src =
    let rest = copy_name n (i + 1) (write_name k child i (src i)) child src in
    if src i == 0 then (k, i) else rest

-- The name of the child: that of the parent, with "-c" where it is short enough.
unfoldable pub name_child : Kernel → ℕ → CString → Kernel
name_child k child src =
    let (copied, i) = copy_name (process_name_len - 1) 0 k child src in
    let ended = write_name copied child i 0 in
    let marked =
      write_name (write_name (write_name ended child i b'-') child (i + 1) b'c') child (i + 2) 0 in
    if ltb i (process_name_len - 1) then marked else ended

-- The byte copy of a whole stack, a word at each address.
unfoldable pub copy_stack : (ℕ → ℕ) → ℕ → ℕ → ℕ → ℕ
copy_stack memory src dst a =
    if leb dst a && ltb a (dst + stack_size) then memory (src + (a - dst)) else memory a

-- The registers of the saved frame, `n` of them from slot `i` on: one that points into the parent's
-- stack is moved along.
unfoldable pub relocate : ℕ → ℕ → (ℕ → ℕ) → ℕ → Pcb → ℕ → ℕ → ℕ
relocate zero i memory child_ctx parent delta = memory
relocate (suc n) i memory child_ctx parent delta =
    let v = memory (slot child_ctx i) in
    relocate n (i + 1)
      (if leb parent.stack_base v && ltb v parent.stack_top
        then update memory (slot child_ctx i) (u32 (v + delta))
        else memory)
      child_ctx parent delta

-- The child's entry before its name and stack are copied.
unfoldable pub new_child : Kernel → ℕ → ℕ → ℕ → Kernel
new_child k parent child base =
    let q = k.pcbs parent in
    let (numbered, pid) = process_allocate_pid k in
    set_pcb numbered child (record (k.pcbs child) {
      stack_base = base;
      stack_top = u32 (base + stack_size);
      has_stack = true;
      state = ProcState.ready;
      entry = q.entry;
      priority = q.priority;
      quantum_ticks = q.quantum_ticks;
      ticks_used = 0;
      wake_tick = 0;
      pid = pid;
    })

-- From the allocated stack on.
unfoldable pub clone : Kernel → ℕ → ℕ → ℕ → ℕ → Kernel
clone k context_esp parent child base =
    let q = k.pcbs parent in
    let named = name_child (new_child k parent child base) child q.name in
    let delta = u32 (base + 2 ^ 32 - q.stack_base) in
    let child_ctx = u32 (context_esp + delta) in
    let moved = relocate 8 0 (copy_stack named.memory q.stack_base base) child_ctx q delta in
    let mem = update moved (slot child_ctx 7) 0 in
    let built =
      set_pcb (record named { memory = mem }) child
        (record (named.pcbs child) { esp = child_ctx; eip = mem (slot child_ctx 8) }) in
    set_result (process_increment_count built) context_esp (built.pcbs child).pid

-- With the parent's entry and a free one.
unfoldable pub fork_into : Kernel → ℕ → ℕ → ℕ → Kernel
fork_into k context_esp parent child =
    let (m, base) = alloc_frame k.pmm in
    let asked = record (set_pcb k child (record (k.pcbs child) { pid = 0; stack_base = base })) {
      pmm = m;
    } in
    if base == 0
    then set_result asked context_esp minus_one
    else clone asked context_esp parent child base

unfoldable pub fork_from : Kernel → ℕ → ℕ → Kernel
fork_from k context_esp parent = elim (find_slot k) [
  | none ↦ set_result k context_esp minus_one
  | some child ↦ fork_into k context_esp parent child
]

-- `scheduler_fork`: the new state and the stack pointer to continue with, which is the given one.
unfoldable pub scheduler_fork : Kernel → ℕ → Kernel × ℕ
scheduler_fork k context_esp =
    let refused = if context_esp == 0 then k else set_result k context_esp minus_one in
    elim k.current [
      | none ↦ (refused, context_esp)
      | some parent ↦
          if (k.pcbs parent).has_stack
          then (fork_from k context_esp parent, context_esp)
          else (refused, context_esp)
    ]

-- The part of `scheduler_kill` that ends the target.
unfoldable pub terminate : Kernel → ℕ → Kernel
terminate k target =
    let awake = sleep_queue_remove k target in
    let p = awake.pcbs target in
    process_decrement_count (record awake {
      pmm = if p.has_stack then free_frame awake.pmm p.stack_base else awake.pmm;
      pcbs = update awake.pcbs target (record p {
        stack_base = 0;
        stack_top = 0;
        state = ProcState.terminated;
        esp = 0;
        eip = 0;
        wake_tick = 0;
        entry = 0;
        has_stack = false;
      });
    })

abbrev pub is_current : Option ℕ → ℕ → Bool
is_current none i = false
is_current (some c) i = c == i

-- `scheduler_kill`: the new state and the stack pointer to continue with.
unfoldable pub scheduler_kill : Kernel → ℕ → ℕ → Kernel × ℕ
scheduler_kill k context_esp pid = elim (process_get k pid) [
  | none ↦ (set_result k context_esp minus_one, context_esp)
  | some target ↦
      let killed = set_result (terminate k target) context_esp 0 in
      if pid == 0
      then (set_result k context_esp minus_one, context_esp)
      else if is_current k.current target
      then dispatch killed context_esp false
      else (killed, context_esp)
]

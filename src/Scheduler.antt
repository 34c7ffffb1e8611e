-- ===== src/Scheduler.antt =====
-- kernel/scheduler.c without the port and descriptor-table setup: the sleep queue, the choice of
-- the next process, and `dispatch`. A saved context is the address of a PUSHAD frame in `memory`,
-- with 0 for NULL; its word 8 is the interrupted EIP.
pub mod Fork
pub mod Kill
pub mod Sleep
pub mod Wake
pub mod Awake
pub mod Choice
pub mod Running
mod Tests
use seng21213_os.Prelude.{
  ℕ, zero, suc, ◌+◌, ◌-◌, ◌*◌, ◌/◌, ◌%◌, ◌^◌, Bool, true, false, ◌&&◌, ◌||◌, Option, none, some,
  ltb, leb, ◌==◌, if◌then◌else◌, update, shift_down, find_first,
}
use seng21213_os.Machine.{
  Pcb, ProcState, Kernel, max_processes, is_terminated, is_blocked, is_running, is_runnable,
  set_pcb, u8, u32,
}

abbrev pub mlfq_levels : ℕ
mlfq_levels = 3

-- `quantum`; no entry is read past the third.
abbrev pub quantum : ℕ → ℕ
quantum zero = 4
quantum (suc zero) = 8
quantum (suc (suc zero)) = 16
quantum _ = 0

-- `scheduler_init` after the hardware is set up.
unfoldable pub reset_clock : Kernel → Kernel
reset_clock k = record k {
  tick_count = 0;
  rr_cursor = 0;
  timer_started = false;
  sleep_queue_count = 0;
}

unfoldable pub scheduler_start : Kernel → Kernel
scheduler_start k = record k { timer_started = true }

-- The loop of `sleep_queue_insert` from position `pos` down: later entries move up by one.
unfoldable pub insert_from : (ℕ → ℕ) → ℕ → (ℕ → ℕ) → ℕ → ℕ → ℕ
insert_from wake zero q index = update q 0 index
insert_from wake (suc pos) q index =
    let rest = insert_from wake pos (update q (suc pos) (q pos)) index in
    if leb (wake (q pos)) (wake index) then update q (suc pos) index else rest

abbrev pub wake_of : Kernel → ℕ → ℕ
wake_of k i = (k.pcbs i).wake_tick

unfoldable pub sleep_queue_insert : Kernel → ℕ → Kernel
sleep_queue_insert k index = if leb max_processes k.sleep_queue_count then k else record k {
  sleep_queue = insert_from (wake_of k) k.sleep_queue_count k.sleep_queue index;
  sleep_queue_count = k.sleep_queue_count + 1;
}

-- `scheduler_block_current`; the search for the entry of the running process finds its index.
unfoldable pub scheduler_block_current : Kernel → ℕ → Kernel
scheduler_block_current k wake_tick = elim k.current [
  | none ↦ k
  | some c ↦
      let p = record (k.pcbs c) { wake_tick = wake_tick; state = ProcState.blocked } in
      if (k.pcbs c).pid == 0 || leb max_processes c then k else sleep_queue_insert (set_pcb k c p) c
]

unfoldable pub scheduler_block_forever : Kernel → Kernel
scheduler_block_forever k = elim k.current [
  | none ↦ k
  | some c ↦
      let p = record (k.pcbs c) { wake_tick = 0; state = ProcState.blocked } in
      if (k.pcbs c).pid == 0 then k else set_pcb k c p
]

-- `scheduler_wake` on the entry of a waiter.
unfoldable pub scheduler_wake : Kernel → ℕ → Kernel
scheduler_wake k i =
    let p = k.pcbs i in
    if is_blocked p.state
    then set_pcb k i (record p {
      state = ProcState.ready;
      wake_tick = 0;
      ticks_used = 0;
      quantum_ticks = if p.quantum_ticks == 0 then 4 else p.quantum_ticks;
    })
    else k

unfoldable pub sleep_queue_remove : Kernel → ℕ → Kernel
sleep_queue_remove k index =
    elim (find_first (λ i. k.sleep_queue i == index) k.sleep_queue_count 0) [
      | none ↦ k
      | some i ↦ record k {
        sleep_queue = shift_down (k.sleep_queue_count - (i + 1)) i k.sleep_queue;
        sleep_queue_count = k.sleep_queue_count - 1;
      }
    ]

-- The end of one round of `wake_sleepers`: a blocked process becomes ready, at the top level.
unfoldable pub wake_one : Kernel → ℕ → Kernel
wake_one k i =
    let p = k.pcbs i in
    if is_blocked p.state
    then set_pcb k i (record p {
      state = ProcState.ready;
      wake_tick = 0;
      priority = 0;
      ticks_used = 0;
      quantum_ticks = quantum 0;
    })
    else k

-- Whether the head of the queue stops the loop.
abbrev pub not_due : Kernel → ℕ → Bool
not_due k i = (k.pcbs i).wake_tick == 0 || ltb k.tick_count (k.pcbs i).wake_tick

-- The loop of `wake_sleepers`, on fuel: each round takes one entry off the queue.
unfoldable pub wake_loop : ℕ → Kernel → Kernel
wake_loop zero k = k
wake_loop (suc f) k =
    let index = k.sleep_queue 0 in
    let rest = wake_loop f (wake_one (sleep_queue_remove k index) index) in
    if k.sleep_queue_count == 0 then k else if not_due k index then k else rest

unfoldable pub wake_sleepers : Kernel → Kernel
wake_sleepers k = wake_loop k.sleep_queue_count k

abbrev pub runnable_at : Kernel → ℕ → Bool
runnable_at k i = is_runnable (k.pcbs i).state

-- The first loop of `pick_next`, for `n` entries from `i` on.
unfoldable pub best_level : Kernel → ℕ → ℕ → ℕ → ℕ
best_level k zero i best = best
best_level k (suc n) i best =
    best_level k n (i + 1)
      (if runnable_at k i && ltb (k.pcbs i).priority (u8 best) then (k.pcbs i).priority else best)

-- Its second loop: the first runnable entry of that level, round from `start`.
unfoldable pub pick_next : Kernel → ℕ → Option ℕ
pick_next k start =
    let best = best_level k max_processes 0 mlfq_levels in
    let at_pass = λ (pass : ℕ). (start + pass) % max_processes in
    if best == mlfq_levels
    then none
    else elim (find_first
        (λ pass. runnable_at k (at_pass pass) && (k.pcbs (at_pass pass)).priority == u8 best)
        max_processes 0) [ none ↦ none | some pass ↦ some (at_pass pass) ]

-- What one call charges to the running process.
unfoldable pub charge : Bool → Pcb → Pcb
charge count_tick p =
    let used = u8 (p.ticks_used + 1) in
    let level = if ltb (p.priority + 1) mlfq_levels then p.priority + 1 else p.priority in
    if p.pid == 0
    then record p { priority = 0; quantum_ticks = quantum 0; ticks_used = 0 }
    else if count_tick && leb p.quantum_ticks used
    then record p { priority = level; ticks_used = 0; quantum_ticks = quantum level }
    else record p { ticks_used = used }

-- The interrupted context goes into the entry of the running process, unless it has ended.
unfoldable pub save_context : Bool → Kernel → ℕ → Pcb → Pcb
save_context count_tick k context_esp p =
    let saved = record p { esp = context_esp; eip = k.memory (u32 (context_esp + 32)) } in
    let kept = if is_terminated p.state then p else saved in
    if is_running p.state then charge count_tick kept else kept

abbrev pub current_index : Option ℕ → ℕ
current_index none = 0
current_index (some c) = c

-- `if (cur && context_esp)`: the context goes into the entry of the running process.
unfoldable pub save_current : Kernel → ℕ → Bool → Option ℕ → Kernel
save_current k context_esp count_tick none = k
save_current k context_esp count_tick (some c) =
    if context_esp == 0 then k else set_pcb k c (save_context count_tick k context_esp (k.pcbs c))

-- The tick and the wake-ups, on the timer's calls only.
unfoldable pub advance_clock : Kernel → Bool → Kernel
advance_clock k count_tick =
    if count_tick then wake_sleepers (record k { tick_count = u32 (k.tick_count + 1) }) else k

-- The part of `dispatch` before the choice.
unfoldable pub before_choice : Kernel → ℕ → Bool → Kernel
before_choice k context_esp count_tick =
    save_current (advance_clock k count_tick) context_esp count_tick k.current

-- `if (!next && cur && runnable_at(cur, cur_index)) next = cur;` reads the entry that stands
-- `cur_index` entries after the running one.
unfoldable pub stay : Kernel → Option ℕ → Option ℕ
stay k none = none
stay k (some c) = if runnable_at k (c + c) then some c else none

unfoldable pub choose : Kernel → Option ℕ
choose k = elim (pick_next k ((current_index k.current + 1) % max_processes)) [
  | some i ↦ some i
  | none ↦ stay k k.current
]

-- A running process that is not the next one goes back to ready.
unfoldable pub preempt : Kernel → ℕ → Option ℕ → Kernel
preempt k next none = k
preempt k next (some c) =
    if c == next
    then k
    else if is_running (k.pcbs c).state
    then set_pcb k c (record (k.pcbs c) { state = ProcState.ready })
    else k

unfoldable pub switch_to : Kernel → ℕ → Kernel × ℕ
switch_to k next =
    let p = preempt k next k.current in
    (
      record p {
        pcbs = update p.pcbs next (record (p.pcbs next) { state = ProcState.running });
        current = some next;
        rr_cursor = (next + 1) % max_processes;
      },
      (k.pcbs next).esp,
    )

-- The state in which `dispatch` chooses, with the cursor moved past the running process.
unfoldable pub at_choice : Kernel → ℕ → Bool → Kernel
at_choice k context_esp count_tick = record (before_choice k context_esp count_tick) {
  rr_cursor = (current_index k.current + 1) % max_processes;
}

-- `dispatch`: the new state and the stack pointer to continue with.
unfoldable pub dispatch : Kernel → ℕ → Bool → Kernel × ℕ
dispatch k context_esp count_tick =
    let ready = at_choice k context_esp count_tick in
    elim (choose ready) [ none ↦ (ready, context_esp) | some next ↦ switch_to ready next ]

unfoldable pub scheduler_tick : Kernel → ℕ → Kernel × ℕ
scheduler_tick k context_esp =
    if k.timer_started then dispatch k context_esp true else (k, context_esp)

unfoldable pub scheduler_yield : Kernel → ℕ → Kernel × ℕ
scheduler_yield k context_esp = dispatch k context_esp false

-- `sleep` of kernel/process.c, up to the interrupt that yields, and whether it yields.
unfoldable pub sleep : Kernel → ℕ → Kernel × Bool
sleep k ms =
    let ticks = u32 (ms + 9) / 10 in
    elim k.current [
      | none ↦ (k, false)
      | some c ↦
          let wake = u32 (k.tick_count + ticks) in
          if (k.pcbs c).pid == 0 || ticks == 0 then (k, false) else (
            scheduler_block_current (set_pcb k c (record (k.pcbs c) { wake_tick = wake })) wake,
            true,
          )
    ]

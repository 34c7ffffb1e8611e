-- ===== src/Process/Tests.antt =====
-- Processes created and ended on a machine that has just booted.
use seng21213_os.Prelude.{
  ℕ, ◌+◌, ◌-◌, ◌≡◌, refl, true, false, none, some, arith, find_first, get_bit, literal,
}
use seng21213_os.Machine.{Kernel, ProcState, is_live}
use seng21213_os.Pmm.{alloc_frame, first_free, bit_test}
use seng21213_os.Process.{
  process_init, reset_pcb, shell_pcb, process_create_named, find_slot, process_exit, new_process,
  attach_stack, give_stack, build_initial_context, push_zeroes,
}
use seng21213_os.Process.Table.{IsTable}
use seng21213_os.Process.Init.{process_init-IsTable}
use seng21213_os.Process.Create.{Creation, process_create_named-IsTable, create_without_memory}
use seng21213_os.Process.Exit.{process_exit-IsTable}
use seng21213_os.Fixtures.{blank, booted, exhausted}

abbrev bootstrap : ℕ
bootstrap = 0x10400

abbrev with_worker : Kernel
with_worker = (process_create_named bootstrap booted 0x5000 (some (literal "worker"))).0

-- The machine that runs the worker.
abbrev running_worker : Kernel
running_worker = record with_worker { current = some 1 }

frame_left : (alloc_frame booted.pmm).1 ≡ 0x100000
unfolding process_init alloc_frame first_free find_first bit_test get_bit
frame_left = refl

no_frame_left : (alloc_frame exhausted.pmm).1 ≡ 0
unfolding process_init alloc_frame first_free find_first bit_test get_bit
no_frame_left = refl

first_pid : booted.next_pid ≡ 1
unfolding process_init
first_pid = refl

first_slot : find_slot exhausted ≡ some 1
unfolding find_slot process_init reset_pcb shell_pcb find_first
first_slot = refl

worker_runs :
    ((running_worker.pcbs 1).pid ≡ 1)
    × (is_live running_worker 1 ≡ true)
    × ((running_worker.pcbs 1).esp ≡ 0x101000 - 44)
unfolding process_create_named find_slot process_init reset_pcb shell_pcb find_first alloc_frame
    first_free bit_test get_bit new_process attach_stack give_stack build_initial_context
    push_zeroes
worker_runs = (refl, refl, refl)

with_worker-IsTable : IsTable with_worker
with_worker-IsTable =
    (process_create_named-IsTable bootstrap 0x5000 (some (literal "worker"))
      (process_init-IsTable blank) (omega (arith, first_pid)) (omega (arith, frame_left))).0

running_worker-IsTable : IsTable running_worker
running_worker-IsTable = record {
  shell = with_worker-IsTable.shell;
  stacks = with_worker-IsTable.stacks;
  counted = with_worker-IsTable.counted;
  pids_below = with_worker-IsTable.pids_below;
  pids_distinct = with_worker-IsTable.pids_distinct;
}

process_create_named-IsTable_example :
    IsTable (process_create_named bootstrap booted 0x5000 (some (literal "worker"))).0
    × Creation booted (process_create_named bootstrap booted 0x5000 (some (literal "worker")))
process_create_named-IsTable_example =
    process_create_named-IsTable bootstrap 0x5000 (some (literal "worker"))
      (process_init-IsTable blank) (omega (arith, first_pid)) (omega (arith, frame_left))

create_without_memory_example :
    let r = process_create_named bootstrap exhausted 0x5000 none in
    (r.1 ≡ none)
    × ((r.0.pcbs 1).state ≡ ProcState.ready)
    × ((r.0.pcbs 1).has_stack ≡ false)
    × (¬ IsTable r.0)
create_without_memory_example =
    create_without_memory exhausted bootstrap 0x5000 1 none (omega arith) first_slot no_frame_left

process_exit-IsTable_example :
    IsTable (process_exit running_worker)
    × (is_live (process_exit running_worker) 1 ≡ false)
    × (((process_exit running_worker).pcbs 1).has_stack ≡ false)
    × ((process_exit running_worker).process_total + 1 ≡ running_worker.process_total)
process_exit-IsTable_example =
    process_exit-IsTable 1 running_worker-IsTable refl (omega arith) worker_runs.1
      (omega (arith, worker_runs.0))

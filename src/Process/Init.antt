-- ===== src/Process/Init.antt =====
-- `process_init` establishes the invariant of the table.
use seng21213_os.Prelude.{
  ℕ, ◌<◌, ◌≡◌, refl, sym, ◌∙◌, true, false, arith, count, count_upper, count_one,
}
use native.Mathlib.Decide.{ℕ_discrete}
use seng21213_os.Machine.{Kernel, max_processes, is_live}
use seng21213_os.Process.{process_init, reset_pcb, shell_pcb}
use seng21213_os.Process.Table.{IsTable}

cleared_dead : (k : Kernel) (j : ℕ) → 0 < j → j < max_processes → is_live (process_init k) j ≡ false
unfolding process_init reset_pcb
cleared_dead k j a b = ground arith

cleared_stack :
    (k : Kernel) (j : ℕ) → 0 < j → j < max_processes → ((process_init k).pcbs j).has_stack ≡ false
unfolding process_init reset_pcb
cleared_stack k j a b = ground arith

shell_alive :
    (k : Kernel) → (is_live (process_init k) 0 ≡ true) × (((process_init k).pcbs 0).pid ≡ 0)
unfolding process_init shell_pcb
shell_alive k = (refl, refl)

next_pid-process_init : (k : Kernel) → (process_init k).next_pid ≡ 1
unfolding process_init
next_pid-process_init k = refl

total-process_init : (k : Kernel) → (process_init k).process_total ≡ 1
unfolding process_init
total-process_init k = refl

shell_counts : (k : Kernel) → count (is_live (process_init k)) 1 ≡ 1
shell_counts k = rw (count_one (is_live (process_init k)), (shell_alive k).0)

-- Initialisation leaves the shell alone alive.
pub process_init-IsTable : (k : Kernel) → IsTable (process_init k)
process_init-IsTable k = record {
  shell = shell_alive k;
  stacks = λ i a b. cleared_dead k i a b ∙ sym (cleared_stack k i a b);
  counted = omega (
    arith,
    total-process_init k,
    count_upper (is_live (process_init k)) 1 15 max_processes refl
        (λ j a b. cleared_dead k j (omega arith) b),
    shell_counts k,
  );
  pids_below = λ i l h. elim (ℕ_discrete i 0) [
    | yes e ↦ ground (arith, e, shell_alive k, next_pid-process_init k)
    | no ne ↦ cc (cleared_dead k i (omega arith) l)
  ];
  pids_distinct = λ i j a b h g e. elim (ℕ_discrete i 0) [
    | yes z ↦ elim (ℕ_discrete j 0) [
      | yes y ↦ z ∙ sym y
      | no ny ↦ cc (cleared_dead k j (omega arith) b)
    ]
    | no nz ↦ cc (cleared_dead k i (omega arith) a)
  ];
}

-- ===== src/Process/Table.antt =====
-- The invariant of the process table, and the operations that keep it.
use seng21213_os.Prelude.{
  ℕ, ◌+◌, ◌-◌, ◌<◌, ◌≡◌, sym, ◌∙◌, ap, ◌≢◌, true, false, arith, if◌then◌else◌, count, count_flip,
}
use native.Mathlib.Decide.{ℕ_discrete}
use seng21213_os.Machine.{Kernel, max_processes, is_terminated, is_live}

-- Entry 0 is the shell, which lives. Every other entry lives exactly when it has a stack, the count
-- is that of the live entries, and live entries have different pids, all of them given out.
pub record IsTable (k : Kernel) : Type 0 where
  pub shell : (is_live k 0 ≡ true) × ((k.pcbs 0).pid ≡ 0)
  pub stacks : (i : ℕ) → 0 < i → i < max_processes → is_live k i ≡ (k.pcbs i).has_stack
  pub counted : k.process_total ≡ count (is_live k) max_processes
  pub pids_below : (i : ℕ) → i < max_processes → is_live k i ≡ true → (k.pcbs i).pid < k.next_pid
  pub pids_distinct :
      (i j : ℕ)
      → i < max_processes
      → j < max_processes
      → is_live k i ≡ true
      → is_live k j ≡ true
      → (k.pcbs i).pid ≡ (k.pcbs j).pid
      → i ≡ j

-- `r` is `k` with a new live entry `i`, which has a stack and the next pid.
pub record Spawned (k r : Kernel) (i : ℕ) : Type 0 where
  pub others : (j : ℕ) → j ≢ i → r.pcbs j ≡ k.pcbs j
  pub live : is_live r i ≡ true
  pub stack : (r.pcbs i).has_stack ≡ true
  pub pid : (r.pcbs i).pid ≡ k.next_pid
  pub next : r.next_pid ≡ k.next_pid + 1
  pub total : r.process_total ≡ k.process_total + 1

pub live_other : (k r : Kernel) (j : ℕ) → r.pcbs j ≡ k.pcbs j → is_live r j ≡ is_live k j
live_other k r j e = ap (λ p. if is_terminated p.state then false else true) e

pub Spawned-IsTable :
    {k r : Kernel} (i : ℕ)
    → IsTable k
    → 0 < i
    → i < max_processes
    → is_live k i ≡ false
    → Spawned k r i
    → IsTable r
Spawned-IsTable {k} {r} i v pos l dead s = record {
  shell = (
    live_other k r 0 (same 0 (omega arith)) ∙ v.shell.0,
    ap (λ p. p.pid) (same 0 (omega arith)) ∙ v.shell.1,
  );
  stacks = λ j a b. elim (ℕ_discrete j i) [
    | yes e ↦ rw e (s.live ∙ sym s.stack)
    | no ne ↦
        live_other k r j (same j ne) ∙ v.stacks j a b ∙ sym (ap (λ p. p.has_stack) (same j ne))
  ];
  counted = omega (
    arith,
    s.total,
    v.counted,
    count_flip (is_live r) (is_live k) max_processes i l s.live dead
        (λ j ne. live_other k r j (same j ne)),
  );
  pids_below = below;
  pids_distinct = λ a b la lb ra rb e. elim (ℕ_discrete a i) [
    | yes ea ↦ elim (ℕ_discrete b i) [
      | yes eb ↦ ea ∙ sym eb
      | no nb ↦ absurd (
          omega (
            arith,
            s.pid,
            old b nb lb rb,
            ap (λ p. (r.pcbs p).pid) ea,
            ap (λ p. p.pid) (same b nb),
          ))
    ]
    | no na ↦ elim (ℕ_discrete b i) [
      | yes eb ↦ absurd (
          omega (
            arith,
            s.pid,
            old a na la ra,
            ap (λ p. (r.pcbs p).pid) eb,
            ap (λ p. p.pid) (same a na),
          ))
      | no nb ↦
          v.pids_distinct a b la lb (sym (live_other k r a (same a na)) ∙ ra)
            (sym (live_other k r b (same b nb)) ∙ rb)
            (sym (ap (λ p. p.pid) (same a na)) ∙ e ∙ ap (λ p. p.pid) (same b nb))
    ]
  ];
}
  where
    same : (j : ℕ) → j ≢ i → r.pcbs j ≡ k.pcbs j
    same = s.others

    old : (j : ℕ) → j ≢ i → j < max_processes → is_live r j ≡ true → (k.pcbs j).pid < k.next_pid
    old j ne b h = v.pids_below j b (sym (live_other k r j (same j ne)) ∙ h)

    below : (j : ℕ) → j < max_processes → is_live r j ≡ true → (r.pcbs j).pid < r.next_pid
    below j b h = elim (ℕ_discrete j i) [
      | yes e ↦ omega (arith, s.pid, s.next, ap (λ p. (r.pcbs p).pid) e)
      | no ne ↦ omega (arith, s.next, old j ne b h, ap (λ p. p.pid) (same j ne))
    ]

-- `r` is `k` with the live entry `i` ended.
pub record Ended (k r : Kernel) (i : ℕ) : Type 0 where
  pub others : (j : ℕ) → j ≢ i → r.pcbs j ≡ k.pcbs j
  pub dead : is_live r i ≡ false
  pub no_stack : (r.pcbs i).has_stack ≡ false
  pub next : r.next_pid ≡ k.next_pid
  pub total : r.process_total ≡ k.process_total - 1

pub Ended-IsTable :
    {k r : Kernel} (i : ℕ)
    → IsTable k
    → 0 < i
    → i < max_processes
    → is_live k i ≡ true
    → Ended k r i
    → IsTable r
Ended-IsTable {k} {r} i v pos l live s = record {
  shell = (
    live_other k r 0 (same 0 (omega arith)) ∙ v.shell.0,
    ap (λ p. p.pid) (same 0 (omega arith)) ∙ v.shell.1,
  );
  stacks = λ j a b. elim (ℕ_discrete j i) [
    | yes e ↦ rw e (s.dead ∙ sym s.no_stack)
    | no ne ↦
        live_other k r j (same j ne) ∙ v.stacks j a b ∙ sym (ap (λ p. p.has_stack) (same j ne))
  ];
  counted = omega (
    arith,
    s.total,
    v.counted,
    count_flip (is_live k) (is_live r) max_processes i l live s.dead
        (λ j ne. sym (live_other k r j (same j ne))),
  );
  pids_below = λ j b h.
      omega (arith, s.next, ap (λ p. p.pid) (same j (alive j h)), v.pids_below j b (was j h));
  pids_distinct = λ a b la lb ra rb e.
      v.pids_distinct a b la lb (was a ra) (was b rb)
        (sym (ap (λ p. p.pid) (same a (alive a ra))) ∙ e ∙ ap (λ p. p.pid) (same b (alive b rb)));
}
  where
    same : (j : ℕ) → j ≢ i → r.pcbs j ≡ k.pcbs j
    same = s.others

    alive : (j : ℕ) → is_live r j ≡ true → j ≢ i
    alive j h e = cc (ap (is_live r) e, s.dead)

    was : (j : ℕ) → is_live r j ≡ true → is_live k j ≡ true
    was j h = sym (live_other k r j (same j (alive j h))) ∙ h

-- ===== src/Process/Create.antt =====
-- Creating processes and threads, against the invariant of the table.
use seng21213_os.Prelude.{
  ℕ, ◌+◌, ◌-◌, ◌%◌, ◌^◌, ◌<◌, ◌≡◌, refl, ◌∙◌, ap, ◌≢◌, inl, inr, true, false, Option, none, some,
  arith, ◌==◌, if◌then◌else◌, Bool-cases, Option-cases, Found, find_first-Found, count-lt, CString,
  literal,
}
use seng21213_os.Machine.{Kernel, ProcState, max_processes, is_terminated, is_live}
use seng21213_os.Process.{
  process_create_named, thread_create_named, attach_stack, new_process, new_thread, find_slot,
  is_unused, thread_create_from, build_initial_context, no_stack, give_stack, count_new,
}
use seng21213_os.Process.Table.{IsTable, Spawned, Spawned-IsTable}
use seng21213_os.Pmm.{Pmm, alloc_frame}

find_slot-unused :
    (k : Kernel) (i : ℕ)
    → find_slot k ≡ some i
    → (0 < i) × (i < max_processes) × (is_live k i ≡ false) × ((k.pcbs i).has_stack ≡ false)
unfolding find_slot
find_slot-unused k i h =
    let f : Found (is_unused k) (max_processes - 1) 1 i = find_first-Found _ _ _ _ h in
    (
      omega (arith, f.above),
      omega (arith, f.below),
      ground (arith, f.passes),
      ground (arith, f.passes),
    )

-- `build_initial_context` sets two fields of one entry, and the memory.
build_others :
    (b : ℕ) (k : Kernel) (i j : ℕ) → j ≢ i → (build_initial_context b k i).pcbs j ≡ k.pcbs j
unfolding build_initial_context
build_others b k i j ne = ground arith

record Built (k r : Kernel) (i : ℕ) : Type 0 where
  state : (r.pcbs i).state ≡ (k.pcbs i).state
  stack : (r.pcbs i).has_stack ≡ (k.pcbs i).has_stack
  pid : (r.pcbs i).pid ≡ (k.pcbs i).pid
  next : r.next_pid ≡ k.next_pid
  total : r.process_total ≡ k.process_total

build-Built : (b : ℕ) (k : Kernel) (i : ℕ) → Built k (build_initial_context b k i) i
unfolding build_initial_context
build-Built b k i = ground arith

-- `r` is `k` with entry `i` prepared for a new process that has no stack yet.
record Prepared (k r : Kernel) (i : ℕ) : Type 0 where
  others : (j : ℕ) → j ≢ i → r.pcbs j ≡ k.pcbs j
  state : (r.pcbs i).state ≡ ProcState.ready
  no_stack : (r.pcbs i).has_stack ≡ (k.pcbs i).has_stack
  pid : (r.pcbs i).pid ≡ k.next_pid
  next : r.next_pid ≡ (k.next_pid + 1) % 2 ^ 32
  total : r.process_total ≡ k.process_total
  frames : r.pmm ≡ k.pmm

new_process-Prepared : (k : Kernel) (i entry : ℕ) → Prepared k (new_process k i entry) i
unfolding new_process
new_process-Prepared k i entry = record {
  others = λ j ne. ground arith;
  state = ground arith;
  no_stack = ground arith;
  pid = ground arith;
  next = refl;
  total = refl;
  frames = refl;
}

new_thread-Prepared :
    (k : Kernel) (i parent entry arg : ℕ) → Prepared k (new_thread k i parent entry arg) i
unfolding new_thread
new_thread-Prepared k i parent entry arg = record {
  others = λ j ne. ground arith;
  state = ground arith;
  no_stack = ground arith;
  pid = ground arith;
  next = refl;
  total = refl;
  frames = refl;
}

record Given (k r : Kernel) (i : ℕ) : Type 0 where
  others : (j : ℕ) → j ≢ i → r.pcbs j ≡ k.pcbs j
  state : (r.pcbs i).state ≡ (k.pcbs i).state
  stack : (r.pcbs i).has_stack ≡ true
  pid : (r.pcbs i).pid ≡ (k.pcbs i).pid
  next : r.next_pid ≡ k.next_pid
  total : r.process_total ≡ k.process_total

give_stack-Given :
    (k : Kernel) (i : ℕ) (m : Pmm) (base : ℕ) (name : Option CString)
    → Given k (give_stack k i m base name) i
unfolding give_stack
give_stack-Given k i m base name = record {
  others = λ j ne. ground arith;
  state = ground arith;
  stack = ground arith;
  pid = ground arith;
  next = refl;
  total = refl;
}

Given-Spawned :
    {k r g : Kernel} (b i : ℕ)
    → Prepared k r i
    → Given r g i
    → k.next_pid + 1 < 2 ^ 32
    → k.process_total < max_processes
    → Spawned k (count_new (build_initial_context b g i)) i
Given-Spawned {k} {r} {g} b i p q room few =
    let t : Built g (build_initial_context b g i) i = build-Built b g i in
    record {
      others = λ j ne. build_others b g i j ne ∙ q.others j ne ∙ p.others j ne;
      live = ap (λ s. if is_terminated s then false else true) (t.state ∙ q.state ∙ p.state);
      stack = t.stack ∙ q.stack;
      pid = t.pid ∙ q.pid ∙ p.pid;
      next = omega (arith, t.next, q.next, p.next);
      total = omega (arith, t.total, q.total, p.total);
    }

-- With a frame for the stack, the prepared process lives.
attach_stack-Spawned :
    {k r : Kernel} (b i : ℕ) (name : Option CString)
    → Prepared k r i
    → k.next_pid + 1 < 2 ^ 32
    → k.process_total < max_processes
    → (alloc_frame k.pmm).1 ≢ 0
    → Spawned k (attach_stack b r i name).0 i × ((attach_stack b r i name).1 ≡ some i)
unfolding attach_stack
attach_stack-Spawned {k} {r} b i name p room few frame =
    let a : Pmm × ℕ = alloc_frame r.pmm in
    let test : a.1 == 0 ≡ false = ground (arith, p.frames, frame) in
    rw (attach_stack, test) (Given-Spawned b i p (give_stack-Given r i a.0 a.1 name) room few, refl)

-- Without one, the entry is left ready to run, with no stack.
attach_stack_fails :
    {k r : Kernel} (b i : ℕ) (name : Option CString)
    → Prepared k r i
    → (alloc_frame k.pmm).1 ≡ 0
    → ((attach_stack b r i name).1 ≡ none)
      × (((attach_stack b r i name).0.pcbs i).state ≡ ProcState.ready)
      × (((attach_stack b r i name).0.pcbs i).has_stack ≡ (k.pcbs i).has_stack)
unfolding attach_stack no_stack
attach_stack_fails {k} {r} b i name p frame =
    let a : Pmm × ℕ = alloc_frame r.pmm in
    let test : a.1 == 0 ≡ true = ground (arith, p.frames, frame) in
    rw (attach_stack, test) (refl, ground (arith, p.state), ground (arith, p.no_stack))

-- What a creating function may do, where a frame is there for the stack: refuse and change nothing,
-- or add one live process and return it.
pub data Creation (k : Kernel) (r : Kernel × Option ℕ) : Type 0 where
  refused : r ≡ (k, none) → Creation k r
  created :
      (i : ℕ)
      → Spawned k r.0 i
      → r.1 ≡ some i
      → 0 < i
      → i < max_processes
      → is_live k i ≡ false
      → Creation k r

Creation-IsTable : {k : Kernel} {r : Kernel × Option ℕ} → Creation k r → IsTable k → IsTable r.0
Creation-IsTable (refused e) v = rw e v
Creation-IsTable (created i s e a b d) v = Spawned-IsTable i v a b d s

few_live :
    {k : Kernel} (i : ℕ)
    → IsTable k
    → i < max_processes
    → is_live k i ≡ false
    → k.process_total < max_processes
few_live {k} i v l d = omega (arith, v.counted, count-lt (is_live k) max_processes i l d)

process_create_named-Creation :
    {k : Kernel} (b entry : ℕ) (name : Option CString)
    → IsTable k
    → k.next_pid + 1 < 2 ^ 32
    → (alloc_frame k.pmm).1 ≢ 0
    → Creation k (process_create_named b k entry name)
unfolding process_create_named
process_create_named-Creation {k} b entry name v room frame = elim (Bool-cases (entry == 0)) [
  | inl z ↦ rw (process_create_named, z) (refused refl)
  | inr nz ↦ elim (Option-cases (find_slot k)) [
    | inl h ↦ rw (process_create_named, nz, h) (refused refl)
    | inr (i, h) ↦
        let (pos, low, dead, _) = find_slot-unused k i h in
        let (s, e) =
          attach_stack-Spawned b i name (new_process-Prepared k i entry) room
            (few_live i v low dead) frame in
        rw (process_create_named, nz, h) (created i s e pos low dead)
  ]
]

thread_create_from-Creation :
    {k : Kernel} (b : ℕ) (o : Option ℕ) (entry arg : ℕ) (name : Option CString)
    → IsTable k
    → k.next_pid + 1 < 2 ^ 32
    → (alloc_frame k.pmm).1 ≢ 0
    → Creation k (thread_create_from b k o entry arg name)
unfolding thread_create_from
thread_create_from-Creation b none entry arg name v room frame = refused refl
thread_create_from-Creation {k} b (some parent) entry arg name v room frame =
    elim (Bool-cases (entry == 0)) [
      | inl z ↦ rw (thread_create_from, z) (refused refl)
      | inr nz ↦ elim (Option-cases (find_slot k)) [
        | inl h ↦ rw (thread_create_from, nz, h) (refused refl)
        | inr (i, h) ↦
            let (pos, low, dead, _) = find_slot-unused k i h in
            let (s, e) =
              attach_stack-Spawned b i
                (elim name [ none ↦ some (literal "thread") | some s ↦ some s ])
                (new_thread-Prepared k i parent entry arg) room (few_live i v low dead) frame in
            rw (thread_create_from, nz, h) (created i s e pos low dead)
      ]
    ]

thread_create_named-Creation :
    {k : Kernel} (b entry arg : ℕ) (name : Option CString)
    → IsTable k
    → k.next_pid + 1 < 2 ^ 32
    → (alloc_frame k.pmm).1 ≢ 0
    → Creation k (thread_create_named b k entry arg name)
unfolding thread_create_named
thread_create_named-Creation {k} b entry arg name v room frame =
    thread_create_from-Creation b k.current entry arg name v room frame

-- Creating a process keeps the invariant, while pids have not run out and there is a frame for the
-- stack; the call either changes nothing and returns NULL, or returns the one new live entry.
pub process_create_named-IsTable :
    {k : Kernel} (b entry : ℕ) (name : Option CString)
    → IsTable k
    → k.next_pid + 1 < 2 ^ 32
    → (alloc_frame k.pmm).1 ≢ 0
    → IsTable (process_create_named b k entry name).0
      × Creation k (process_create_named b k entry name)
process_create_named-IsTable b entry name v room frame =
    let c = process_create_named-Creation b entry name v room frame in (Creation-IsTable c v, c)

-- So does creating a thread.
pub thread_create_named-IsTable :
    {k : Kernel} (b entry arg : ℕ) (name : Option CString)
    → IsTable k
    → k.next_pid + 1 < 2 ^ 32
    → (alloc_frame k.pmm).1 ≢ 0
    → IsTable (thread_create_named b k entry arg name).0
      × Creation k (thread_create_named b k entry arg name)
thread_create_named-IsTable b entry arg name v room frame =
    let c = thread_create_named-Creation b entry arg name v room frame in (Creation-IsTable c v, c)

-- The flaw: when no frame is left, `process_create_named` returns NULL but leaves the entry ready,
-- with no stack, so the table is no longer well formed and the scheduler may choose the entry.
pub create_without_memory :
    (k : Kernel) (b entry i : ℕ) (name : Option CString)
    → entry ≢ 0
    → find_slot k ≡ some i
    → (alloc_frame k.pmm).1 ≡ 0
    → let r = process_create_named b k entry name in
      (r.1 ≡ none)
      × ((r.0.pcbs i).state ≡ ProcState.ready)
      × ((r.0.pcbs i).has_stack ≡ false)
      × (¬ IsTable r.0)
unfolding process_create_named
create_without_memory k b entry i name ne h frame =
    let nz : entry == 0 ≡ false = ground arith in
    let (pos, low, dead, bare) = find_slot-unused k i h in
    let (e, s, t) = attach_stack_fails b i name (new_process-Prepared k i entry) frame in
    rw (process_create_named, nz, h)
      (
        e,
        s,
        t ∙ bare,
        λ v. cc (v.stacks i pos low, t, bare, ap (λ s. if is_terminated s then false else true) s),
      )

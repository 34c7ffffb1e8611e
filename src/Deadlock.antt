-- ===== src/Deadlock.antt =====
-- kernel/deadlock.c: the search for a cycle among the registered mutexes. A search by address for
-- the entry of a process is its index, or none from sixteen on.
pub mod Wait
mod Tests
use seng21213_os.Prelude.{
  ℕ, zero, suc, ◌+◌, ◌-◌, Bool, true, false, not, ◌&&◌, ◌||◌, Option, none, some, List, [], ◌∷◌,
  ◌++◌, ltb, leb, ◌==◌, if◌then◌else◌, update, find_first,
}
use seng21213_os.Machine.{Pcb, max_processes, is_terminated}
use seng21213_os.WaitQueue.{is_pcb}
use seng21213_os.Mutex.{Mutex, MutexState, mutex_registry_get}

-- `visiting` and `done`
pub record Marks : Type 0 where
  pub visiting : ℕ → Bool
  pub done : ℕ → Bool

-- The index that the loops over the table find for a `pcb_t *`.
abbrev pub index_of : Option ℕ → List ℕ
index_of none = []
index_of (some p) = if ltb p max_processes then p ∷ [] else []

-- The processes that wait for the mutex, from the `n` entries from `j` on.
unfoldable pub waiters_from : Mutex → ℕ → ℕ → List ℕ
waiters_from x zero j = []
waiters_from x (suc n) j = index_of (x.waiters.slots j) ++ waiters_from x n (j + 1)

-- The processes that `dfs` goes on to for one mutex: its waiters, if `node` owns it.
abbrev pub waiters_on : MutexState → ℕ → Option ℕ → List ℕ
waiters_on s node none = []
waiters_on s node (some m) =
    let x = s.mutexes m in if is_pcb x.owner node then waiters_from x x.waiters.count 0 else []

-- All of them, for `n` registered mutexes from `i` on.
unfoldable pub waiters_of : MutexState → ℕ → ℕ → ℕ → List ℕ
waiters_of s node zero i = []
waiters_of s node (suc n) i =
    waiters_on s node (mutex_registry_get s i) ++ waiters_of s node n (i + 1)

-- Calls in order until one answers true.
unfoldable pub first_found : (ℕ → Marks → Bool × Marks) → List ℕ → Marks → Bool × Marks
first_found search [] m = (false, m)
first_found search (w ∷ ws) m =
    let (found, next) = search w m in
    let rest = first_found search ws next in if found then (true, next) else rest

-- `dfs`, on fuel: each call below another marks one process more.
unfoldable pub dfs : ℕ → MutexState → ℕ → Marks → Bool × Marks
dfs zero s node m = (false, m)
dfs (suc f) s node m =
    let entered = record m { visiting = update m.visiting node true } in
    let (found, left) = first_found (dfs f s) (waiters_of s node s.registry_used 0) entered in
    if m.visiting node
    then (true, m)
    else if m.done node
    then (false, m)
    else if found
    then (true, left)
    else (
      false,
      record { visiting = update left.visiting node false; done = update left.done node true },
    )

-- The owner, once for each entry of the queue that is the process.
unfoldable pub owners_from : Mutex → ℕ → ℕ → ℕ → List ℕ
owners_from x p zero j = []
owners_from x p (suc n) j =
    (if is_pcb (x.waiters.slots j) p then index_of x.owner else []) ++ owners_from x p n (j + 1)

abbrev pub owners_on : MutexState → ℕ → Option ℕ → List ℕ
owners_on s p none = []
owners_on s p (some m) = owners_from (s.mutexes m) p (s.mutexes m).waiters.count 0

-- The owners of the mutexes for which `p` waits, for `n` registered ones from `i` on.
unfoldable pub owners_of : MutexState → ℕ → ℕ → ℕ → List ℕ
owners_of s p zero i = []
owners_of s p (suc n) i = owners_on s p (mutex_registry_get s i) ++ owners_of s p n (i + 1)

-- More calls than processes cannot be open at once.
abbrev pub depth : ℕ
depth = max_processes + 1

-- The loop of `deadlock_detect`, for `n` processes from `i` on.
unfoldable pub detect_from : MutexState → ℕ → ℕ → Marks → Bool
detect_from s zero i m = false
detect_from s (suc n) i m =
    let entered = record m { visiting = update m.visiting i true } in
    let (found, left) = first_found (dfs depth s) (owners_of s i s.registry_used 0) entered in
    let skipped = detect_from s n (i + 1) m in
    let rest =
      detect_from s n (i + 1)
        (record { visiting = update left.visiting i false; done = update left.done i true }) in
    if is_terminated (s.kernel.pcbs i).state || m.visiting i || m.done i
    then skipped
    else if found
    then true
    else rest

unfoldable pub deadlock_detect : MutexState → Bool
deadlock_detect s =
    detect_from s max_processes 0 (record { visiting = λ i. false; done = λ i. false })

-- The graph of `deadlock_demo`.
abbrev pub graph : ℕ → ℕ → Bool
graph a b = (a == 0 && b == 1) || (a == 1 && b == 2) || (a == 2 && b == 0)

-- The inner loops of `deadlock_demo`, on fuel: whether a cycle is found, and the marks. Each round
-- pushes a new node or takes one off, at most six in all, and one sees the empty stack.
unfoldable pub demo_search : ℕ → (ℕ → ℕ) → List ℕ → Bool × (ℕ → ℕ)
demo_search zero state stack = (false, state)
demo_search (suc f) state [] = (false, state)
demo_search (suc f) state (node ∷ below) =
    let entered = update state node 1 in
    elim (find_first (λ next. graph node next && (entered next == 1 || entered next == 0)) 3 0) [
      | none ↦ demo_search f (update entered node 2) below
      | some next ↦
          let rest = demo_search f entered (next ∷ node ∷ below) in
          if entered next == 1 then (true, entered) else rest
    ]

-- The outer loop, for `n` nodes from `start` on.
unfoldable pub demo_from : ℕ → ℕ → (ℕ → ℕ) → Bool
demo_from zero start state = false
demo_from (suc n) start state =
    let (found, next) = demo_search 7 state (start ∷ []) in
    let skipped = demo_from n (start + 1) state in
    let rest = demo_from n (start + 1) next in
    if not (state start == 0) then skipped else if found then true else rest

unfoldable pub deadlock_demo : Bool
deadlock_demo = demo_from 3 0 (λ i. 0)

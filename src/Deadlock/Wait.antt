-- ===== src/Deadlock/Wait.antt =====
-- What kernel/deadlock.c reports of a single wait, which is no deadlock.
use seng21213_os.Prelude.{
  ℕ, zero, suc, ◌+◌, ◌≤◌, ◌<◌, ◌≡◌, refl, sym, ◌∙◌, ap, inl, inr, true, false, some, [], ◌∷◌, arith,
  ltb, ◌==◌, if◌then◌else◌, Bool-cases, update, ==_iff,
}
use native.Mathlib.Decide.{ℕ_discrete}
use seng21213_os.Machine.{max_processes, is_terminated}
use seng21213_os.Mutex.{MutexState, mutex_registry_get}
use seng21213_os.Deadlock.{
  Marks, waiters_from, waiters_of, first_found, dfs, owners_from, owners_of, depth, detect_from,
  deadlock_detect,
}

-- One mutex is registered; `o` owns it, and only `w` waits for it.
pub record SingleWait (s : MutexState) (o w : ℕ) : Type 0 where
  pub one : s.registry_used ≡ 1
  pub owned : (s.mutexes (s.registry 0)).owner ≡ some o
  pub one_waits : (s.mutexes (s.registry 0)).waiters.count ≡ 1
  pub waits : (s.mutexes (s.registry 0)).waiters.slots 0 ≡ some w
  pub owner_in : o < max_processes
  pub waiter_in : w < max_processes

owners_single :
    (s : MutexState) (o w p : ℕ)
    → SingleWait s o w
    → owners_of s p s.registry_used 0 ≡ (if w == p then o ∷ [] else [])
unfolding owners_of owners_from mutex_registry_get
owners_single s o w p v =
    let t : ltb o max_processes ≡ true = ground (arith, v.owner_in) in
    rw (v.one, owners_of, mutex_registry_get, v.one, v.one_waits, owners_from, v.waits, v.owned, t)
      (elim (Bool-cases (w == p)) [ inl g ↦ rw g refl | inr g ↦ rw g refl ])

waiters_single :
    (s : MutexState) (o w : ℕ) → SingleWait s o w → waiters_of s o s.registry_used 0 ≡ w ∷ []
unfolding waiters_of waiters_from mutex_registry_get
waiters_single s o w v =
    let t : ltb w max_processes ≡ true = ground (arith, v.waiter_in) in
    let g : (o == o) ≡ true = (==_iff _ _).1 refl in
    rw (
      v.one, waiters_of, mutex_registry_get, v.one, v.owned, g, v.one_waits, waiters_from, v.waits,
      t,
    )

-- A search that meets a process on the path answers true.
dfs_visiting :
    (f : ℕ) (s : MutexState) (p : ℕ) (m : Marks)
    → m.visiting p ≡ true
    → dfs (suc f) s p m ≡ (true, m)
unfolding dfs
dfs_visiting f s p m h = rw (dfs, h)

-- The owner leads back to the waiter, which is marked.
dfs_owner :
    (f : ℕ) (s : MutexState) (o w : ℕ) (m : Marks)
    → SingleWait s o w
    → m.visiting o ≡ false
    → m.done o ≡ false
    → m.visiting w ≡ true
    → (dfs (suc (suc f)) s o m).0 ≡ true
unfolding dfs first_found
dfs_owner f s o w m v a b c =
    let entered = record m { visiting = update m.visiting o true } in
    let marked : entered.visiting w ≡ true = ground (arith, c) in
    let found : first_found (dfs (suc f) s) (w ∷ []) entered ≡ (true, entered) =
      rw (first_found, dfs_visiting f s w entered marked) refl in
    let all : first_found (dfs (suc f) s) (waiters_of s o s.registry_used 0) entered
        ≡ (true, entered) =
      ap (λ l. first_found (dfs (suc f) s) l entered) (waiters_single s o w v) ∙ found in
    rw (dfs, a, b, all) refl

-- The loop of `deadlock_detect` gets to the waiter with the marks of the processes before it done.
detect_single :
    (n i : ℕ) (s : MutexState) (o w : ℕ) (m : Marks)
    → SingleWait s o w
    → w < o
    → is_terminated (s.kernel.pcbs w).state ≡ false
    → i ≤ w
    → w < i + n
    → ((q : ℕ) → m.visiting q ≡ false)
    → ((q : ℕ) → i ≤ q → m.done q ≡ false)
    → detect_from s n i m ≡ true
unfolding detect_from first_found
detect_single zero i s o w m v lt live le end a b = absurd (omega arith)
detect_single (suc n) i s o w m v lt live le end a b =
    let entered = record m { visiting = update m.visiting i true } in
    elim (ℕ_discrete i w) [
      | yes e ↦
          let g : (w == i) ≡ true = (==_iff _ _).1 (sym e) in
          let own : owners_of s i s.registry_used 0 ≡ o ∷ [] =
            owners_single s o w i v ∙ rw g refl in
          let marked : entered.visiting w ≡ true = ground (arith, e) in
          let open_o : entered.visiting o ≡ false = ground (arith, a o) in
          let leads : (dfs depth s o entered).0 ≡ true =
            dfs_owner 15 s o w entered v open_o (b o (omega arith)) marked in
          let one : (first_found (dfs depth s) (o ∷ []) entered).0 ≡ true =
            rw (first_found, leads) refl in
          let found : (first_found (dfs depth s) (owners_of s i s.registry_used 0) entered).0
              ≡ true =
            ap (λ l. (first_found (dfs depth s) l entered).0) own ∙ one in
          let runs : is_terminated (s.kernel.pcbs i).state ≡ false =
            ap (λ j. is_terminated (s.kernel.pcbs j).state) e ∙ live in
          rw (detect_from, runs, a i, b i (omega arith), found) refl
      | no ne ↦
          let g : (w == i) ≡ false = ground (arith, ne) in
          let own : owners_of s i s.registry_used 0 ≡ [] = owners_single s o w i v ∙ rw g refl in
          let nothing : first_found (dfs depth s) (owners_of s i s.registry_used 0) entered
              ≡ (false, entered) =
            ap (λ l. first_found (dfs depth s) l entered) own in
          let next =
            detect_single n (i + 1) s o w m v lt live (omega arith) (omega arith) a
              (λ q h. b q (omega arith)) in
          let left : Marks = record {
            visiting = update entered.visiting i false;
            done = update m.done i true;
          } in
          let later =
            detect_single n (i + 1) s o w left v lt live (omega arith) (omega arith)
              (λ q. ground (arith, a q)) (λ q h. ground (arith, b q (omega arith))) in
          elim (Bool-cases (is_terminated (s.kernel.pcbs i).state)) [
            | inl t ↦ rw (detect_from, t) next
            | inr f ↦ rw (detect_from, f, a i, b i (omega arith), nothing) later
          ]
    ]

-- `deadlock_detect` reports a deadlock when the only wait is that of a live process for a mutex
-- that a process with a larger index owns, although such a wait ends when the owner unlocks.
pub detect-SingleWait :
    (s : MutexState) (o w : ℕ)
    → SingleWait s o w
    → w < o
    → is_terminated (s.kernel.pcbs w).state ≡ false
    → deadlock_detect s ≡ true
unfolding deadlock_detect
detect-SingleWait s o w v lt live =
    detect_single 16 0 s o w _ v lt live (omega arith) (omega (arith, v.waiter_in)) (λ q. refl)
      (λ q h. refl)

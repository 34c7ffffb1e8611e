-- ===== src/Fs/File/Descriptors.antt =====
-- The table of descriptors of kernel/fs.c: which one `fs_open` gives, and what `fs_close` undoes.
use seng21213_os.Prelude.{
  ℕ, ◌≤◌, ◌<◌, ◌≡◌, refl, sym, ◌∙◌, ap, ◌≢◌, inl, inr, Bool, true, false, not, arith, ltb, ◌==◌,
  if◌then◌else◌, Bool-cases, Option-cases, update, update_self, ==_iff, find_first, Found,
  find_first-Found, find_first-none,
}
use seng21213_os.Fs.{Fs, FileDesc, Result, fs_max_fd}
use seng21213_os.Fs.File.{appends, set_fd, open_fd, is_open, fs_close}

-- What a table becomes when the inode is opened.
pub data Opened (s : Fs) (ino flags size : ℕ) : Fs → Result → Type 0 where
  full :
      ((i : ℕ) → i < fs_max_fd → (s.fds i).used ≡ true) → Opened s ino flags size s (Result.err 6)
  opens :
      (i : ℕ)
      → i < fs_max_fd
      → (s.fds i).used ≡ false
      → ((k : ℕ) → k < i → (s.fds k).used ≡ true)
      → Opened s ino flags size
          (set_fd s i (record {
            inode = ino;
            offset = if appends flags then size else 0;
            flags = flags;
            used = true;
          }))
          (Result.ok i)

not-true : (b : Bool) → not b ≡ true → b ≡ false
not-true true h = cc
not-true false h = refl

not-false : (b : Bool) → not b ≡ false → b ≡ true
not-false true h = refl
not-false false h = cc

-- The first descriptor that is not in use is given, with the inode and the offset that the flags
-- ask for; without one the table is as it was and the error is 6.
pub open_fd-Opened :
    (s : Fs) (ino flags size : ℕ)
    → Opened s ino flags size (open_fd s ino flags size).0 (open_fd s ino flags size).1
unfolding open_fd
open_fd-Opened s ino flags size =
    elim (Option-cases (find_first (λ i. not (s.fds i).used) fs_max_fd 0)) [
      | inl e ↦
          rw (open_fd, e)
            (Opened.full
              (λ i h. not-false _ (find_first-none _ _ _ e i (omega arith) (omega arith))))
      | inr (i, e) ↦
          let f : Found (λ i. not (s.fds i).used) fs_max_fd 0 i = find_first-Found _ _ _ _ e in
          rw (open_fd, e)
            (Opened.opens i f.below (not-true _ f.passes)
              (λ k h. not-false _ (f.first k (omega arith) h)))
    ]

-- What `fs_close` leaves of a table in which `i` was opened.
pub record Restored (s t : Fs) (i : ℕ) : Type 0 where
  pub in_use : (k : ℕ) → (t.fds k).used ≡ (s.fds k).used
  pub others : (k : ℕ) → i ≢ k → t.fds k ≡ s.fds k
  pub disk : t.disk ≡ s.disk

fs_close-set_fd :
    (s : Fs) (i : ℕ) (f : FileDesc)
    → i < fs_max_fd
    → (s.fds i).used ≡ false
    → f.used ≡ true
    → ((fs_close (set_fd s i f) i).1 ≡ Result.ok 0) × Restored s (fs_close (set_fd s i f) i).0 i
unfolding fs_close
fs_close-set_fd s i f l free u =
    let here : update s.fds i f i ≡ f = update_self s.fds i f in
    let bound : ltb i fs_max_fd ≡ true = ground (arith, l) in
    let now : is_open (set_fd s i f) i ≡ true = rw (bound, here) u in
    rw (fs_close, now)
      (
        refl,
        record {
          in_use = λ k. elim (Bool-cases (i == k)) [
            | inl t ↦
                let e : i ≡ k = (==_iff _ _).0 t in rw t (sym free ∙ ap (λ j. (s.fds j).used) e)
            | inr n ↦ rw n refl
          ];
          others = λ k ne. let n : (i == k) ≡ false = ground (arith, ne) in rw n refl;
          disk = refl;
        },
      )

Reopened : Fs → ℕ → Fs → Result → Type 0
Reopened s k t r =
    (i : ℕ) × (i ≤ k)
    × (r ≡ Result.ok i)
    × ((fs_close t i).1 ≡ Result.ok 0)
    × Restored s (fs_close t i).0 i

Opened-Reopened :
    (s : Fs) (ino flags size k : ℕ) (t : Fs) (r : Result)
    → k < fs_max_fd
    → (s.fds k).used ≡ false
    → Opened s ino flags size t r
    → Reopened s k t r
unfolding Reopened
Opened-Reopened s ino flags size k t r l free (Opened.full all) = absurd (cc (all k l, free))
Opened-Reopened s ino flags size k t r l free (Opened.opens i b f first) =
    let lowest : i ≤ k = elim (Bool-cases (ltb k i)) [
      | inl t ↦ absurd (cc (first k (ground (arith, t)), free))
      | inr n ↦ ground (arith, n)
    ] in
    let (closes, restored) = fs_close-set_fd s i _ b f refl in (i, lowest, refl, closes, restored)

-- While a descriptor is free, opening an inode gives one, no later than any free one, and closing
-- it succeeds and leaves the same descriptors in use, the others and the disk as they were.
pub open_fd-fs_close :
    (s : Fs) (ino flags size k : ℕ)
    → k < fs_max_fd
    → (s.fds k).used ≡ false
    → (i : ℕ) × (i ≤ k)
      × ((open_fd s ino flags size).1 ≡ Result.ok i)
      × ((fs_close (open_fd s ino flags size).0 i).1 ≡ Result.ok 0)
      × Restored s (fs_close (open_fd s ino flags size).0 i).0 i
unfolding Reopened
open_fd-fs_close s ino flags size k l free =
    Opened-Reopened s ino flags size k _ _ l free (open_fd-Opened s ino flags size)

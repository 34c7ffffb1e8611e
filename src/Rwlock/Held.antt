-- ===== src/Rwlock/Held.antt =====
-- Who holds the locks of kernel/rwlock.c for reading, which the code does not record: beside each
-- lock stands the list of the processes that have it, and its counter of readers is their number.
use seng21213_os.Prelude.{
  ℕ, zero, suc, ◌+◌, ◌^◌, ◌<◌, ◌≡◌, refl, sym, ◌∙◌, ap, inl, inr, true, false, ◌&&◌, Option, some,
  List, [], ◌∷◌, ◌++◌, arith, ◌==◌, Bool-cases, update, subst,
}
use native.Mathlib.Decide.{ℕ_discrete}
use seng21213_os.WaitQueue.{Outcome}
use seng21213_os.WaitQueue.Order.{IsQueue, slots_from, add_cases, empty-IsQueue}
use seng21213_os.Rwlock.{
  Rwlock, RwState, set_lock, is_null, rwlock_init, enter_reader, read_round, write_round,
}

abbrev pub length : List (Option ℕ) → ℕ
length [] = 0
length (a ∷ l) = suc (length l)

pub length-append_one :
    (a b : List (Option ℕ)) (o : Option ℕ) → length (a ++ o ∷ b) ≡ length (a ++ b) + 1
length-append_one [] b o = omega arith
length-append_one (x ∷ a) b o = omega (arith, length-append_one a b o)

length-zero : (l : List (Option ℕ)) → length l ≡ 0 → l ≡ []
length-zero [] h = refl
length-zero (a ∷ l) h = absurd (omega (arith, h))

pub length-slots_from : (s : ℕ → Option ℕ) (i n : ℕ) → length (slots_from s i n) ≡ n
length-slots_from s i zero = refl
length-slots_from s i (suc n) = ap suc (length-slots_from s (i + 1) n)

-- Who holds each lock for reading.
abbrev pub Holds : Type 0
Holds = ℕ → List (Option ℕ)

-- The counter is the number of the readers that hold the lock, and while a writer has it, none does.
pub record IsExclusive (x : Rwlock) (held : List (Option ℕ)) : Type 0 where
  pub counted : x.readers ≡ length held
  pub exclusive : (w : ℕ) → x.writer ≡ some w → held ≡ []
  pub readers_wait : IsQueue x.reader_waiters
  pub writers_wait : IsQueue x.writer_waiters

abbrev pub AllExclusive : RwState → Holds → Type 0
AllExclusive s h = (l : ℕ) → IsExclusive (s.locks l) (h l)

pub update_both :
    (s : RwState) (h : Holds) (l : ℕ) (x : Rwlock) (held : List (Option ℕ))
    → AllExclusive s h
    → IsExclusive x held
    → AllExclusive (set_lock s l x) (update h l held)
update_both s h l x held v e j = elim (ℕ_discrete l j) [
  | yes y ↦ let t : l == j ≡ true = ground (arith, y) in rw t e
  | no n ↦ let f : l == j ≡ false = ground (arith, n) in rw f (v j)
]

pub update_lock :
    (s : RwState) (h : Holds) (l : ℕ) (x : Rwlock)
    → AllExclusive s h
    → IsExclusive x (h l)
    → AllExclusive (set_lock s l x) h
update_lock s h l x v e j = elim (ℕ_discrete l j) [
  | yes y ↦ let t : l == j ≡ true = ground (arith, y) in rw t (subst (λ i. IsExclusive x (h i)) y e)
  | no n ↦ let f : l == j ≡ false = ground (arith, n) in rw f (v j)
]

-- A call that returns has the lock.
abbrev pub after_read : Outcome → Holds → ℕ → ℕ → Holds
after_read Outcome.returned h l c = update h l (some c ∷ h l)
after_read _ h l c = h

pub init-AllExclusive :
    (s : RwState) (h : Holds) (l : ℕ)
    → AllExclusive s h
    → h l ≡ []
    → AllExclusive (rwlock_init s l) h
unfolding rwlock_init
init-AllExclusive s h l v e = update_lock s h l _ v (record {
  counted = sym (ap length e);
  exclusive = λ w n. absurd cc;
  readers_wait = empty-IsQueue;
  writers_wait = empty-IsQueue;
})

pub read_round-AllExclusive :
    (s : RwState) (h : Holds) (c l : ℕ)
    → AllExclusive s h
    → length (h l) + 1 < 2 ^ 32
    → AllExclusive (read_round s c l).0 (after_read (read_round s c l).1 h l c)
unfolding read_round enter_reader
read_round-AllExclusive s h c l v b =
    let x = s.locks l in
    let e = v l in
    elim (Bool-cases (is_null x.writer && x.writer_waiters.count == 0)) [
      | inl t ↦
          let free : is_null x.writer ≡ true = ground arith in
          rw (read_round, t)
            (update_both s h l _ _ v (record {
              counted = omega (arith, e.counted);
              exclusive = λ w n. absurd (cc (free, ap is_null n));
              readers_wait = e.readers_wait;
              writers_wait = e.writers_wait;
            }))
      | inr f ↦
          rw (read_round, f)
            (update_lock s h l _ v (record {
              counted = e.counted;
              exclusive = e.exclusive;
              readers_wait = (add_cases x.reader_waiters c e.readers_wait).0;
              writers_wait = e.writers_wait;
            }))
    ]

pub write_round-AllExclusive :
    (s : RwState) (h : Holds) (c l : ℕ) → AllExclusive s h → AllExclusive (write_round s c l).0 h
unfolding write_round
write_round-AllExclusive s h c l v =
    let x = s.locks l in
    let e = v l in
    elim (Bool-cases (is_null x.writer && x.readers == 0)) [
      | inl t ↦
          let z : x.readers ≡ 0 = ground arith in
          rw (write_round, t)
            (update_lock s h l _ v (record {
              counted = e.counted;
              exclusive = λ w n. length-zero (h l) (sym e.counted ∙ z);
              readers_wait = e.readers_wait;
              writers_wait = e.writers_wait;
            }))
      | inr f ↦
          rw (write_round, f)
            (update_lock s h l _ v (record {
              counted = e.counted;
              exclusive = e.exclusive;
              readers_wait = e.readers_wait;
              writers_wait = (add_cases x.writer_waiters c e.writers_wait).0;
            }))
    ]

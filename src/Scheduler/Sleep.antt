-- ===== src/Scheduler/Sleep.antt =====
-- The sleep queue: sorted by wake-up time, and woken in that order.
use seng21213_os.Prelude.{
  ℕ, zero, suc, ◌+◌, ◌-◌, ◌≤◌, ◌<◌, ◌≡◌, ◌≢◌, ◌⊎◌, inl, inr, true, arith, leb, Bool-cases, update,
  ap, sym, subst, ◌∙◌,
}
use native.Mathlib.Decide.{ℕ_discrete, dec_lt}
use seng21213_os.Machine.{Kernel, max_processes, is_blocked}
use seng21213_os.Scheduler.{insert_from, sleep_queue_insert, wake_of}

abbrev IsSorted : (ℕ → ℕ) → (ℕ → ℕ) → ℕ → Type 0
IsSorted wake q n = (i j : ℕ) → i ≤ j → j < n → wake (q i) ≤ wake (q j)

-- Where `insert_from` puts the new entry among the first `n`, and what moves.
record Placed (wake q : ℕ → ℕ) (n x : ℕ) (r : ℕ → ℕ) : Type 0 where
  place : ℕ
  inside : place ≤ n
  below : (i : ℕ) → i < place → r i ≡ q i
  here : r place ≡ x
  moved : (i : ℕ) → place ≤ i → i < n → r (suc i) ≡ q i
  above : (i : ℕ) → n < i → r i ≡ q i
  not_later : (i : ℕ) → suc i ≡ place → wake (q i) ≤ wake x
  later : (i : ℕ) → place ≤ i → i < n → wake x < wake (q i)

insert_from-Placed :
    (wake : ℕ → ℕ) (n : ℕ) (q : ℕ → ℕ) (x : ℕ) → Placed wake q n x (insert_from wake n q x)
unfolding insert_from
insert_from-Placed wake zero q x = record {
  place = 0;
  inside = omega arith;
  below = λ i l. absurd (omega arith);
  here = ground arith;
  moved = λ i a b. absurd (omega arith);
  above = λ i l. ground arith;
  not_later = λ i e. absurd (omega arith);
  later = λ i a b. absurd (omega arith);
}
insert_from-Placed wake (suc n) q x = elim (Bool-cases (leb (wake (q n)) (wake x))) [
  | inl t ↦
      rw (t, insert_from)
        (record {
          place = suc n;
          inside = omega arith;
          below = λ i l. ground arith;
          here = ground arith;
          moved = λ i a b. absurd (omega arith);
          above = λ i l. ground arith;
          not_later = λ i e. ground arith;
          later = λ i a b. absurd (omega arith);
        })
  | inr f ↦
      let q' : ℕ → ℕ = update q (suc n) (q n) in
      let p : Placed wake q' n x (insert_from wake n q' x) = insert_from-Placed wake n q' x in
      rw (f, insert_from)
        (record {
          place = p.place;
          inside = omega (arith, p.inside);
          below = λ i l. ground (arith, p.below i l, p.inside);
          here = p.here;
          moved = λ i a b. elim (ℕ_discrete i n) [
            | yes e ↦ rw e (ground (arith, p.above (suc n) (omega arith)))
            | no ne ↦ ground (arith, p.moved i a (omega arith))
          ];
          above = λ i l. ground (arith, p.above i (omega arith));
          not_later = λ i e. ground (arith, p.not_later i e, p.inside);
          later = λ i a b. elim (ℕ_discrete i n) [
            | yes e ↦ rw e (ground arith)
            | no ne ↦ ground (arith, p.later i a (omega arith))
          ];
        })
]

-- Each position of the new queue, in terms of the old one.
abbrev Position : (ℕ → ℕ) → ℕ → ℕ → (ℕ → ℕ) → ℕ → ℕ → Type 0
Position q n x r place i =
    ((i < place) × (r i ≡ q i))
    ⊎ (((i ≡ place) × (r i ≡ x)) ⊎ ((m : ℕ) × (i ≡ suc m) × (place ≤ m) × (m < n) × (r i ≡ q m)))

Placed-Position :
    {wake q : ℕ → ℕ} {n x : ℕ} {r : ℕ → ℕ} (p : Placed wake q n x r) (i : ℕ)
    → i < n + 1
    → Position q n x r p.place i
Placed-Position {r = r} p i l = elim (dec_lt i p.place) [
  | yes b ↦ inl (b, p.below i b)
  | no nb ↦ elim (ℕ_discrete i p.place) [
    | yes e ↦ inr (inl (e, rw e p.here))
    | no ne ↦
        let e : i ≡ suc (i - 1) = omega arith in
        inr (
          inr (
            i - 1,
            e,
            omega arith,
            omega arith,
            ap r e ∙ p.moved (i - 1) (omega arith) (omega arith),
          ))
  ]
]

below_le :
    {wake q : ℕ → ℕ} {n x : ℕ} {r : ℕ → ℕ} (p : Placed wake q n x r)
    → IsSorted wake q n
    → (i : ℕ) → i < p.place
    → wake (q i) ≤ wake x
below_le p s i l = omega (
  arith,
  p.inside,
  s i (p.place - 1) (omega arith) (omega (arith, p.inside)),
  p.not_later (p.place - 1) (omega arith),
)

-- Insertion keeps the queue sorted.
Placed-IsSorted :
    {wake q : ℕ → ℕ} {n x : ℕ} {r : ℕ → ℕ}
    → Placed wake q n x r
    → IsSorted wake q n
    → IsSorted wake r (n + 1)
Placed-IsSorted {wake} {q} {n} {x} {r} p s i j a b =
    pair (Placed-Position p i (omega arith)) (Placed-Position p j b)
  where
    pair : Position q n x r p.place i → Position q n x r p.place j → wake (r i) ≤ wake (r j)
    pair (inl (l, e)) (inl (l', e')) = rw (e, e') (s i j a (omega (arith, p.inside)))
    pair (inl (l, e)) (inr (inl (l', e'))) = rw (e, e') (below_le p s i l)
    pair (inl (l, e)) (inr (inr (m, l', c, d, e'))) = rw (e, e') (s i m (omega arith) d)
    pair (inr (inl (l, e))) (inl (l', e')) = absurd (omega arith)
    pair (inr (inl (l, e))) (inr (inl (l', e'))) = rw (e, e') (omega arith)
    pair (inr (inl (l, e))) (inr (inr (m, l', c, d, e'))) =
        rw (e, e') (omega (arith, p.later m c d))
    pair (inr (inr (m, l, c, d, e))) (inl (l', e')) = absurd (omega arith)
    pair (inr (inr (m, l, c, d, e))) (inr (inl (l', e'))) = absurd (omega arith)
    pair (inr (inr (m, l, c, d, e))) (inr (inr (m', l', c', d', e'))) =
        rw (e, e') (s m m' (omega arith) d')

Placed-all :
    {wake q : ℕ → ℕ} {n x : ℕ} {r : ℕ → ℕ} (p : Placed wake q n x r) (P : ℕ → Type 0)
    → P x
    → ((m : ℕ) → m < n → P (q m))
    → (i : ℕ) → i < n + 1
    → P (r i)
Placed-all p P at_x at_q i l = elim (Placed-Position p i l) [
  | inl (b, e) ↦ subst P (sym e) (at_q i (omega (arith, p.inside)))
  | inr (inl (b, e)) ↦ subst P (sym e) at_x
  | inr (inr (m, b, c, d, e)) ↦ subst P (sym e) (at_q m d)
]

Placed-distinct :
    {wake q : ℕ → ℕ} {n x : ℕ} {r : ℕ → ℕ} (p : Placed wake q n x r)
    → ((i j : ℕ) → i < n → j < n → q i ≡ q j → i ≡ j)
    → ((i : ℕ) → i < n → q i ≢ x)
    → (i j : ℕ) → i < n + 1
    → j < n + 1
    → r i ≡ r j
    → i ≡ j
Placed-distinct {wake} {q} {n} {x} {r} p old new i j a b same =
    pair (Placed-Position p i a) (Placed-Position p j b)
  where
    pair : Position q n x r p.place i → Position q n x r p.place j → i ≡ j
    pair (inl (l, e)) (inl (l', e')) =
        old i j (omega (arith, p.inside)) (omega (arith, p.inside)) (sym e ∙ same ∙ e')
    pair (inl (l, e)) (inr (inl (l', e'))) =
        absurd (new i (omega (arith, p.inside)) (sym e ∙ same ∙ e'))
    pair (inl (l, e)) (inr (inr (m, l', c, d, e'))) =
        absurd (omega (arith, old i m (omega (arith, p.inside)) d (sym e ∙ same ∙ e')))
    pair (inr (inl (l, e))) (inl (l', e')) =
        absurd (new j (omega (arith, p.inside)) (sym e' ∙ sym same ∙ e))
    pair (inr (inl (l, e))) (inr (inl (l', e'))) = omega arith
    pair (inr (inl (l, e))) (inr (inr (m, l', c, d, e'))) = absurd (new m d (sym e' ∙ sym same ∙ e))
    pair (inr (inr (m, l, c, d, e))) (inl (l', e')) =
        absurd (omega (arith, old m j d (omega (arith, p.inside)) (sym e ∙ same ∙ e')))
    pair (inr (inr (m, l, c, d, e))) (inr (inl (l', e'))) = absurd (new m d (sym e ∙ same ∙ e'))
    pair (inr (inr (m, l, c, d, e))) (inr (inr (m', l', c', d', e'))) =
        omega (arith, old m m' d d' (sym e ∙ same ∙ e'))

-- What the sleep queue promises: sorted by wake-up time, no entry twice, and every entry names a
-- blocked process with a wake-up time.
pub record IsQueue (k : Kernel) : Type 0 where
  pub sorted : IsSorted (wake_of k) k.sleep_queue k.sleep_queue_count
  pub distinct :
      (i j : ℕ)
      → i < k.sleep_queue_count
      → j < k.sleep_queue_count
      → k.sleep_queue i ≡ k.sleep_queue j
      → i ≡ j
  pub asleep :
      (i : ℕ) → i < k.sleep_queue_count → is_blocked (k.pcbs (k.sleep_queue i)).state ≡ true
  pub timed : (i : ℕ) → i < k.sleep_queue_count → wake_of k (k.sleep_queue i) ≢ 0

-- Inserting a blocked process with a wake-up time that is not in the queue keeps the promise.
pub sleep_queue_insert-IsQueue :
    {k : Kernel} (index : ℕ)
    → IsQueue k
    → is_blocked (k.pcbs index).state ≡ true
    → wake_of k index ≢ 0
    → ((i : ℕ) → i < k.sleep_queue_count → k.sleep_queue i ≢ index)
    → IsQueue (sleep_queue_insert k index)
unfolding sleep_queue_insert
sleep_queue_insert-IsQueue {k} index v b w new =
    elim (Bool-cases (leb max_processes k.sleep_queue_count)) [
      | inl t ↦ rw (t, sleep_queue_insert) v
      | inr f ↦
          rw (f, sleep_queue_insert)
            (record {
              sorted = Placed-IsSorted p v.sorted;
              distinct = Placed-distinct p v.distinct new;
              asleep = Placed-all p (λ e. is_blocked (k.pcbs e).state ≡ true) b v.asleep;
              timed = Placed-all p (λ e. wake_of k e ≢ 0) w v.timed;
            })
    ]
  where
    p :
        Placed
          (wake_of k)
          k.sleep_queue
          k.sleep_queue_count
          index
          (insert_from (wake_of k) k.sleep_queue_count k.sleep_queue index)
    p = insert_from-Placed (wake_of k) k.sleep_queue_count k.sleep_queue index

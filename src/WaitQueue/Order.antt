-- ===== src/WaitQueue/Order.antt =====
-- The wait queue is a bounded queue without repetition: `add` appends, `pop` takes the oldest.
use seng21213_os.Prelude.{
  ℕ, zero, suc, ◌+◌, ◌-◌, ◌≤◌, ◌<◌, ◌≡◌, refl, sym, ◌∙◌, ap, ap₂, ◌≢◌, ◌⊎◌, inl, inr, true, false,
  Option, none, some, List, [], ◌∷◌, ◌++◌, arith, leb, ◌==◌, Bool-cases, Option-cases, update,
  shift_down, shift_down_lem, find_first, Found, find_first-Found, find_first-none,
}
use native.Mathlib.Decide.{ℕ_discrete}
use seng21213_os.Machine.{max_processes}
use seng21213_os.WaitQueue.{WaitQueue, is_pcb, empty, add, pop}

-- The `n` slots from `i` on.
abbrev pub slots_from : (ℕ → Option ℕ) → ℕ → ℕ → List (Option ℕ)
slots_from s i zero = []
slots_from s i (suc n) = s i ∷ slots_from s (i + 1) n

-- The abstract queue: who waits, in the order of arrival.
abbrev pub contents : WaitQueue → List (Option ℕ)
contents q = slots_from q.slots 0 q.count

slots_from_ext :
    (s t : ℕ → Option ℕ) (i j n : ℕ)
    → ((d : ℕ) → d < n → s (i + d) ≡ t (j + d))
    → slots_from s i n ≡ slots_from t j n
slots_from_ext s t i j zero h = refl
slots_from_ext s t i j (suc n) h =
    ap₂ ◌∷◌ (ap s (omega arith) ∙ h 0 (omega arith) ∙ ap t (omega arith)) (
      slots_from_ext s t (i + 1) (j + 1) n
        (λ d l. ap s (omega arith) ∙ h (suc d) (omega arith) ∙ ap t (omega arith)))

slots_from-snoc :
    (s : ℕ → Option ℕ) (i n : ℕ) → slots_from s i (suc n) ≡ slots_from s i n ++ s (i + n) ∷ []
slots_from-snoc s i zero = ap (λ k. s k ∷ []) (omega arith)
slots_from-snoc s i (suc n) =
    ap (◌∷◌ (s i))
      (slots_from-snoc s (i + 1) n ∙ ap (λ k. slots_from s (i + 1) n ++ s k ∷ []) (omega arith))

-- At most sixteen processes wait, each once.
pub record IsQueue (q : WaitQueue) : Type 0 where
  pub bounded : q.count ≤ max_processes
  pub filled : (i : ℕ) → i < q.count → (p : ℕ) × (q.slots i ≡ some p)
  pub distinct : (i j : ℕ) → i < q.count → j < q.count → q.slots i ≡ q.slots j → i ≡ j

pub empty-IsQueue : IsQueue empty
empty-IsQueue = record {
  bounded = omega arith;
  filled = λ i l. absurd (omega arith);
  distinct = λ i j a b e. absurd (omega arith);
}

is_pcb-some : (o : Option ℕ) (p : ℕ) → is_pcb o p ≡ true → o ≡ some p
is_pcb-some none p h = cc
is_pcb-some (some x) p h = ground arith

waiting : WaitQueue → ℕ → Option ℕ
waiting q p = find_first (λ i. is_pcb (q.slots i) p) q.count 0

waiting_slot :
    (q : WaitQueue) (p i : ℕ) → waiting q p ≡ some i → (i < q.count) × (q.slots i ≡ some p)
unfolding waiting
waiting_slot q p i h =
    let f : Found (λ i. is_pcb (q.slots i) p) q.count 0 i = find_first-Found _ _ _ _ h in
    (omega (arith, f.below), is_pcb-some (q.slots i) p f.passes)

not_waiting :
    (q : WaitQueue) (p : ℕ) → waiting q p ≡ none → (i : ℕ) → i < q.count → q.slots i ≢ some p
unfolding waiting
not_waiting q p h i l e =
    let miss : is_pcb (q.slots i) p ≡ false =
      find_first-none (λ i. is_pcb (q.slots i) p) q.count 0 h i (omega arith) (omega arith) in
    ground (arith, ap (λ o. is_pcb o p) e, miss)

abbrev appended : WaitQueue → ℕ → WaitQueue
appended q p = record { slots = update q.slots q.count (some p); count = q.count + 1 }

contents-appended : (q : WaitQueue) (p : ℕ) → contents (appended q p) ≡ contents q ++ some p ∷ []
contents-appended q p =
    let e : q.count + 1 ≡ suc q.count = omega arith in
    ap (slots_from (update q.slots q.count (some p)) 0) e
    ∙ slots_from-snoc (update q.slots q.count (some p)) 0 q.count
    ∙ ap₂ (λ l o. l ++ o ∷ [])
        (slots_from_ext (update q.slots q.count (some p)) q.slots 0 0 q.count (λ d l. ground arith))
        (ground arith)

appended-IsQueue :
    (q : WaitQueue) (p : ℕ)
    → IsQueue q
    → q.count < max_processes
    → ((i : ℕ) → i < q.count → q.slots i ≢ some p)
    → IsQueue (appended q p)
appended-IsQueue q p v room new = record {
  bounded = omega arith;
  filled = λ i l. elim (ℕ_discrete i q.count) [
    | yes e ↦ (p, ground arith)
    | no ne ↦ let (x, h) = v.filled i (omega arith) in (x, ground (arith, h))
  ];
  distinct = λ i j a b e. elim (ℕ_discrete i q.count) [
    | yes ei ↦ elim (ℕ_discrete j q.count) [
      | yes ej ↦ ei ∙ sym ej
      | no nj ↦ absurd (new j (omega arith) (ground (arith, e)))
    ]
    | no ni ↦ elim (ℕ_discrete j q.count) [
      | yes ej ↦ absurd (new i (omega arith) (ground (arith, e)))
      | no nj ↦ v.distinct i j (omega arith) (omega arith) (ground (arith, e))
    ]
  ];
}

-- `add` refuses a full queue, leaves alone a queue in which the process waits already, and
-- otherwise appends it; the queue stays one of at most sixteen different processes.
pub add_cases :
    (q : WaitQueue) (p : ℕ)
    → IsQueue q
    → IsQueue (add q p).0
      × (((q.count ≡ max_processes) × (add q p ≡ (q, false)))
          ⊎ ((((i : ℕ) × (i < q.count) × (q.slots i ≡ some p)) × (add q p ≡ (q, true)))
              ⊎ ((contents (add q p).0 ≡ contents q ++ some p ∷ []) × ((add q p).1 ≡ true))))
unfolding add waiting
add_cases q p v = elim (Bool-cases (leb max_processes q.count)) [
  | inl t ↦ rw (add, t) (v, inl (ground (arith, v.bounded), refl))
  | inr f ↦ elim (Option-cases (waiting q p)) [
    | inl h ↦
        rw (add, f, h)
          (
            appended-IsQueue q p v (ground arith) (not_waiting q p h),
            inr (inr (contents-appended q p, refl)),
          )
    | inr (i, h) ↦
        let (l, e) = waiting_slot q p i h in rw (add, f, h) (v, inr (inl ((i, l, e), refl)))
  ]
]

abbrev popped : WaitQueue → WaitQueue
popped q = record {
  slots = update (shift_down (q.count - 1) 0 q.slots) (q.count - 1) none;
  count = q.count - 1;
}

popped_slot : (q : WaitQueue) (i : ℕ) → i < q.count - 1 → (popped q).slots i ≡ q.slots (suc i)
popped_slot q i l = ground (arith, shift_down_lem (q.count - 1) 0 q.slots i, ap q.slots (next i))
  where
    next : (i : ℕ) → i + 1 ≡ suc i
    next i = omega arith

popped-IsQueue : (q : WaitQueue) → IsQueue q → IsQueue (popped q)
popped-IsQueue q v = record {
  bounded = omega (arith, v.bounded);
  filled = λ i l. let (p, e) = v.filled (suc i) (omega arith) in (p, popped_slot q i l ∙ e);
  distinct = λ i j a b e. omega (
    arith,
    v.distinct (suc i) (suc j) (omega arith) (omega arith)
        (sym (popped_slot q i a) ∙ e ∙ popped_slot q j b),
  );
}

contents-popped : (q : WaitQueue) → 0 < q.count → contents q ≡ q.slots 0 ∷ contents (popped q)
contents-popped q h =
    let e : q.count ≡ suc (q.count - 1) = omega arith in
    ap (slots_from q.slots 0) e
    ∙ ap (◌∷◌ (q.slots 0)) (
        slots_from_ext q.slots (popped q).slots 1 0 (q.count - 1) (λ d l.
          ap q.slots (omega arith) ∙ sym (popped_slot q d l) ∙ ap (popped q).slots (omega arith)))

-- `pop` gives NULL on the empty queue only; otherwise it gives the process that waits longest and
-- leaves the others in order.
pub pop_cases :
    (q : WaitQueue)
    → IsQueue q
    → IsQueue (pop q).0
      × (((contents q ≡ []) × (pop q ≡ (q, none)))
          ⊎ ((p : ℕ) × (contents q ≡ some p ∷ contents (pop q).0) × ((pop q).1 ≡ some p)))
unfolding pop
pop_cases q v = elim (ℕ_discrete q.count 0) [
  | yes z ↦
      let t : q.count == 0 ≡ true = ground arith in
      rw (pop, t) (v, inl (ap (slots_from q.slots 0) z, refl))
  | no nz ↦
      let f : q.count == 0 ≡ false = ground arith in
      let (p, e) = v.filled 0 (omega arith) in
      rw (pop, f)
        (
          popped-IsQueue q v,
          inr (p, contents-popped q (omega arith) ∙ ap (λ o. o ∷ contents (popped q)) e, e),
        )
]

-- The process that `pop` gives is not in the queue that it leaves.
pub pop-apart :
    (q : WaitQueue) (p i : ℕ)
    → IsQueue q
    → (pop q).1 ≡ some p
    → i < (pop q).0.count
    → (pop q).0.slots i ≢ some p
unfolding pop
pop-apart q p i v e = elim (ℕ_discrete q.count 0) [
  | yes z ↦ let t : q.count == 0 ≡ true = ground arith in absurd (cc (rw (pop, t) at e))
  | no nz ↦
      let f : q.count == 0 ≡ false = ground arith in
      let first : q.slots 0 ≡ some p = rw (pop, f) at e in
      rw (pop, f)
        (λ l g. omega (
          arith,
          v.distinct 0 (suc i) (omega arith) (omega arith) (first ∙ sym g ∙ popped_slot q i l),
        ))
]

pub pop-none : (q : WaitQueue) → IsQueue q → (pop q).1 ≡ none → (pop q).0.count ≡ 0
unfolding pop
pop-none q v e = elim (ℕ_discrete q.count 0) [
  | yes z ↦ let t : q.count == 0 ≡ true = ground arith in rw (pop, t) z
  | no nz ↦
      let f : q.count == 0 ≡ false = ground arith in
      let (p, h) = v.filled 0 (omega arith) in absurd (cc (sym h ∙ (rw (pop, f) at e)))
]

pub pop-nonempty : (q : WaitQueue) (p : ℕ) → (pop q).1 ≡ some p → 0 < q.count
unfolding pop
pop-nonempty q p e = elim (Bool-cases (q.count == 0)) [
  | inl t ↦ absurd (cc (rw (pop, t) at e))
  | inr f ↦ ground arith
]

pub popped_none : (q : WaitQueue) → IsQueue q → (pop q).1 ≡ none → q.count ≡ 0
unfolding pop
popped_none q v e = elim (ℕ_discrete q.count 0) [
  | yes z ↦ z
  | no nz ↦
      let f : q.count == 0 ≡ false = ground arith in
      let (p, h) = v.filled 0 (omega arith) in absurd (cc (sym h ∙ (rw (pop, f) at e)))
]

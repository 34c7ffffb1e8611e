-- ===== src/Prelude/Arrays.antt =====
-- C arrays as functions of the index: a write at one index, and how many entries pass a test.
use Prim.Native.Nat.{ℕ, zero, suc, ◌+◌, ◌≤◌, ◌<◌}
use mathlib.Core.Path.{◌≡◌, refl, ap}
use mathlib.Core.Logic.{◌≢◌}
use mathlib.Core.Bool.{Bool, true, false, ◌&&◌}
use native.Mathlib.Omega.{arith}
use native.Mathlib.Decide.{ℕ_discrete}
use seng21213_os.Prelude.Tests.{◌==◌, ltb, leb, if◌then◌else◌}

-- `a[i] = v`
abbrev pub update {ℓ} : {A : Type ℓ} → (ℕ → A) → ℕ → A → ℕ → A
update a i v j = if i == j then v else a j

pub update_self {ℓ} : {A : Type ℓ} (a : ℕ → A) (i : ℕ) (v : A) → update a i v i ≡ v
update_self a i v = ground arith

pub update_ne {ℓ} : {A : Type ℓ} (a : ℕ → A) (i j : ℕ) (v : A) → i ≢ j → update a i v j ≡ a j
update_ne a i j v h = ground arith

-- How many indices below `n` pass the test.
pub count : (ℕ → Bool) → ℕ → ℕ
count p zero = 0
count p (suc n) = count p n + (if p n then 1 else 0)

pub count-le : (p : ℕ → Bool) (n : ℕ) → count p n ≤ n
unfolding count
count-le p zero = omega arith
count-le p (suc n) = ground (arith, count-le p n)

pub count_ext : (p q : ℕ → Bool) (n : ℕ) → ((j : ℕ) → j < n → p j ≡ q j) → count p n ≡ count q n
unfolding count
count_ext p q zero h = refl
count_ext p q (suc n) h =
    ground (arith, h n (omega arith), count_ext p q n (λ j l. h j (omega arith)))

-- One index below `n` that passes one test and not the other makes the difference.
pub count_flip :
    (p q : ℕ → Bool) (n i : ℕ)
    → i < n
    → p i ≡ true
    → q i ≡ false
    → ((j : ℕ) → j ≢ i → p j ≡ q j)
    → count p n ≡ count q n + 1
unfolding count
count_flip p q zero i l t f h = absurd (omega arith)
count_flip p q (suc n) i l t f h = elim (ℕ_discrete n i) [
  | yes e ↦ ground (arith, count_ext p q n (λ j b. h j (omega arith)))
  | no e ↦ ground (arith, h n e, count_flip p q n i (omega arith) t f h)
]

pub count_none : (p : ℕ → Bool) (n : ℕ) → ((j : ℕ) → j < n → p j ≡ false) → count p n ≡ 0
unfolding count
count_none p zero h = refl
count_none p (suc n) h =
    ground (arith, h n (omega arith), count_none p n (λ j l. h j (omega arith)))

-- Indices from `m` on that fail the test do not count.
pub count_upper :
    (p : ℕ → Bool) (m d k : ℕ)
    → k ≡ m + d
    → ((j : ℕ) → m ≤ j → j < k → p j ≡ false)
    → count p k ≡ count p m
unfolding count
count_upper p m zero k e h = ap (count p) (omega arith)
count_upper p m (suc d) zero e h = absurd (omega arith)
count_upper p m (suc d) (suc k) e h = ground (
  arith,
  h k (omega arith) (omega arith),
  count_upper p m d k (omega arith) (λ j a b. h j a (omega arith)),
)

pub count_one : (p : ℕ → Bool) → count p 1 ≡ (if p 0 then 1 else 0)
unfolding count
count_one p = ground arith

pub count-lt : (p : ℕ → Bool) (n i : ℕ) → i < n → p i ≡ false → count p n < n
unfolding count
count-lt p zero i l f = absurd (omega arith)
count-lt p (suc n) i l f = elim (ℕ_discrete n i) [
  | yes e ↦ ground (arith, ap p e, count-le p n)
  | no ne ↦ ground (arith, count-lt p n i (omega arith) f)
]

pub count_pos : (p : ℕ → Bool) (n i : ℕ) → i < n → p i ≡ true → 0 < count p n
unfolding count
count_pos p zero i l t = absurd (omega arith)
count_pos p (suc n) i l t = elim (ℕ_discrete n i) [
  | yes e ↦ ground (arith, ap p e)
  | no ne ↦ ground (arith, count_pos p n i (omega arith) t)
]

-- `for (; i + 1 < count; i++) a[i] = a[i + 1];` for `n` rounds.
unfoldable pub shift_down {ℓ} : {A : Type ℓ} → ℕ → ℕ → (ℕ → A) → ℕ → A
shift_down zero i a = a
shift_down (suc n) i a = shift_down n (i + 1) (update a i (a (i + 1)))

pub shift_down_lem {ℓ} :
    {A : Type ℓ} (n i : ℕ) (a : ℕ → A) (j : ℕ)
    → shift_down n i a j ≡ (if leb i j && ltb j (i + n) then a (j + 1) else a j)
unfolding shift_down
shift_down_lem zero i a j = ground arith
shift_down_lem (suc n) i a j = ground (arith, shift_down_lem n (i + 1) (update a i (a (i + 1))) j)

-- A write of a value with the property keeps an array whose entries all have it.
pub update_all {ℓ ℓ'} :
    {A : Type ℓ} (P : A → Type ℓ') (a : ℕ → A) (i : ℕ) (v : A)
    → ((j : ℕ) → P (a j))
    → P v
    → (j : ℕ) → P (update a i v j)
update_all P a i v h hv j = elim (ℕ_discrete i j) [
  | yes e ↦ let t : i == j ≡ true = ground arith in rw t hv
  | no ne ↦ let f : i == j ≡ false = ground arith in rw f (h j)
]

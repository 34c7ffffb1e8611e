-- ===== src/Prelude/Search.antt =====
-- `for (i = lo; i < hi; i++) if (test(i)) return i;` and what its result says.
use Prim.Native.Nat.{ℕ, zero, suc, ◌+◌, ◌≤◌, ◌<◌}
use mathlib.Core.Path.{◌≡◌, refl, ap, ◌∙◌}
use mathlib.Core.Logic.{inl, inr, ◌≢◌}
use mathlib.Core.Bool.{Bool, true, false}
use mathlib.Core.Option.{Option, none, some}
use native.Mathlib.Omega.{arith}
use native.Mathlib.Decide.{ℕ_discrete}
use seng21213_os.Prelude.Tests.{if◌then◌else◌, Bool-cases}

-- The first of the `n` indices from `i` on that passes.
unfoldable pub find_first : (ℕ → Bool) → ℕ → ℕ → Option ℕ
find_first p zero i = none
find_first p (suc n) i = let rest = find_first p n (i + 1) in if p i then some i else rest

pub record Found (p : ℕ → Bool) (n i k : ℕ) : Type 0 where
  pub passes : p k ≡ true
  pub above : i ≤ k
  pub below : k < i + n
  pub first : (j : ℕ) → i ≤ j → j < k → p j ≡ false

pub find_first-Found : (p : ℕ → Bool) (n i k : ℕ) → find_first p n i ≡ some k → Found p n i k
unfolding find_first
find_first-Found p zero i k h = cc
find_first-Found p (suc n) i k h = elim (Bool-cases (p i)) [
  | inl t ↦ record {
    passes = ground arith;
    above = ground arith;
    below = ground arith;
    first = λ j a b. absurd (ground arith);
  }
  | inr f ↦
      let r : Found p n (i + 1) k = find_first-Found p n (i + 1) k (rw f at h) in
      record {
        passes = r.passes;
        above = omega (arith, r.above);
        below = omega (arith, r.below);
        first =
            λ j a b. elim (ℕ_discrete j i) [ yes e ↦ rw e f | no e ↦ r.first j (omega arith) b ];
      }
]

pub find_first-none :
    (p : ℕ → Bool) (n i : ℕ) → find_first p n i ≡ none → (j : ℕ) → i ≤ j → j < i + n → p j ≡ false
unfolding find_first
find_first-none p zero i h j a b = absurd (omega arith)
find_first-none p (suc n) i h j a b = elim (Bool-cases (p i)) [
  | inl t ↦ absurd (ground arith)
  | inr f ↦ elim (ℕ_discrete j i) [
    | yes e ↦ rw e f
    | no e ↦ find_first-none p n (i + 1) (rw f at h) j (omega arith) (omega arith)
  ]
]

-- The search finds an index if some index passes.
pub find_first_total :
    (p : ℕ → Bool) (n i j : ℕ)
    → i ≤ j
    → j < i + n
    → p j ≡ true
    → (k : ℕ) × (find_first p n i ≡ some k)
find_first_total p n i j a b t = go (find_first p n i) refl
  where
    go : (o : Option ℕ) → find_first p n i ≡ o → (k : ℕ) × (find_first p n i ≡ some k)
    go none e = absurd (ground (arith, find_first-none p n i e j a b))
    go (some k) e = (k, e)

pub find_first_head : (p : ℕ → Bool) (n i : ℕ) → 0 < n → p i ≡ true → find_first p n i ≡ some i
unfolding find_first
find_first_head p zero i h t = absurd (omega arith)
find_first_head p (suc n) i h t = rw t

pub find_first_ext :
    (p q : ℕ → Bool) (n i : ℕ)
    → ((j : ℕ) → i ≤ j → j < i + n → p j ≡ q j)
    → find_first p n i ≡ find_first q n i
unfolding find_first
find_first_ext p q zero i h = refl
find_first_ext p q (suc n) i h =
    let here = h i (omega arith) (omega arith) in
    let rest = find_first_ext p q n (i + 1) (λ j a b. h j (omega arith) (omega arith)) in
    rw (find_first, here, rest) refl

-- The only index that passes is found.
pub find_first_only :
    (p : ℕ → Bool) (n i k : ℕ)
    → i ≤ k
    → k < i + n
    → p k ≡ true
    → ((j : ℕ) → i ≤ j → j < i + n → j ≢ k → p j ≡ false)
    → find_first p n i ≡ some k
find_first_only p n i k a b t others =
    let (j, e) = find_first_total p n i k a b t in
    let f : Found p n i j = find_first-Found p n i j e in
    elim (ℕ_discrete j k) [
      | yes g ↦ e ∙ ap some g
      | no ne ↦ absurd (cc (others j f.above f.below ne, f.passes))
    ]

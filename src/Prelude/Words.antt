-- ===== src/Prelude/Words.antt =====
-- A 32-bit word as four bytes of an array, the low byte first.
use Prim.Native.Nat.{◌≤◌, ℕ, ◌+◌, ◌*◌, ◌/◌, ◌%◌, ◌^◌, ◌<◌}
use mathlib.Core.Path.{◌≡◌}
use mathlib.Core.Logic.{◌≢◌, ◌⊎◌, inl, inr}
use native.Mathlib.Omega.{arith}
use seng21213_os.Prelude.Tests.{ltb, Bool-cases}
use seng21213_os.Prelude.Arrays.{update}

-- `*(uint32_t *)(a + i)`
unfoldable pub word_at : (ℕ → ℕ) → ℕ → ℕ
word_at a i = a i + a (i + 1) * 2 ^ 8 + a (i + 2) * 2 ^ 16 + a (i + 3) * 2 ^ 24

-- `*(uint32_t *)(a + i) = v`
unfoldable pub put_word : (ℕ → ℕ) → ℕ → ℕ → ℕ → ℕ
put_word a i v =
    let low = update (update a i (v % 2 ^ 8)) (i + 1) (v / 2 ^ 8 % 2 ^ 8) in
    update (update low (i + 2) (v / 2 ^ 16 % 2 ^ 8)) (i + 3) (v / 2 ^ 24 % 2 ^ 8)

pub word_at-put_word : (a : ℕ → ℕ) (i v : ℕ) → v < 2 ^ 32 → word_at (put_word a i v) i ≡ v
unfolding word_at put_word
word_at-put_word a i v h = ground arith

pub word_at-put_word_ne :
    (a : ℕ → ℕ) (i j v : ℕ)
    → 4 * i ≢ 4 * j
    → word_at (put_word a (4 * i) v) (4 * j) ≡ word_at a (4 * j)
unfolding word_at put_word
word_at-put_word_ne a i j v h = ground arith

pub word_at-put_word_apart :
    (a : ℕ → ℕ) (i j v : ℕ) → (i + 4 ≤ j) ⊎ (j + 4 ≤ i) → word_at (put_word a i v) j ≡ word_at a j
unfolding word_at put_word
word_at-put_word_apart a i j v (inl h) = ground (arith, h)
word_at-put_word_apart a i j v (inr h) = ground (arith, h)

-- The other bytes stay.
pub put_word_outside : (a : ℕ → ℕ) (i v j : ℕ) → (j < i) ⊎ (i + 4 ≤ j) → put_word a i v j ≡ a j
unfolding put_word
put_word_outside a i v j (inl h) = ground (arith, h)
put_word_outside a i v j (inr h) = ground (arith, h)

-- The bytes that are written are bytes.
pub put_word-lt : (a : ℕ → ℕ) (i v j : ℕ) → a j < 256 → put_word a i v j < 256
unfolding put_word
put_word-lt a i v j h = ground (arith, h)

-- A word of four bytes fits in 32 bits.
pub word_at-lt :
    (a : ℕ → ℕ) (i : ℕ) → ((j : ℕ) → i ≤ j → j < i + 4 → a j < 256) → word_at a i < 2 ^ 32
unfolding word_at
word_at-lt a i h = omega (
  arith,
  h i (omega arith) (omega arith),
  h (i + 1) (omega arith) (omega arith),
  h (i + 2) (omega arith) (omega arith),
  h (i + 3) (omega arith) (omega arith),
)

pub word_at_ext :
    (a b : ℕ → ℕ) (i : ℕ) → ((j : ℕ) → i ≤ j → j < i + 4 → a j ≡ b j) → word_at a i ≡ word_at b i
unfolding word_at
word_at_ext a b i h = omega (
  arith,
  h i (omega arith) (omega arith),
  h (i + 1) (omega arith) (omega arith),
  h (i + 2) (omega arith) (omega arith),
  h (i + 3) (omega arith) (omega arith),
)

-- Different words of an array of words do not overlap.
pub words_apart :
    (off k j : ℕ) → k ≢ j → (off + 4 * k + 4 ≤ off + 4 * j) ⊎ (off + 4 * j + 4 ≤ off + 4 * k)
words_apart off k j ne = elim (Bool-cases (ltb k j)) [
  | inl t ↦ inl (ground (arith, t))
  | inr f ↦ inr (ground (arith, f, ne))
]

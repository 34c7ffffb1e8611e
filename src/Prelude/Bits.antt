-- ===== src/Prelude/Bits.antt =====
-- The bits of a byte: reading, setting and clearing one of the eight, as the bitmaps do.
use Prim.Native.Nat.{ℕ, ◌-◌, ◌/◌, ◌%◌, ◌^◌, ◌<◌, bit_and, bit_or}
use mathlib.Core.Path.{◌≡◌, refl}
use mathlib.Core.Bool.{Bool, true, false, not, ◌&&◌}
use native.Mathlib.Omega.{arith}
use mathlib.Core.Option.{Option, none, some}
use seng21213_os.Prelude.Search.{find_first, find_first-none}
use seng21213_os.Prelude.Tests.{◌==◌, ltb, if◌then◌else◌, ==_iff, ltb→lt}

-- `(b >> k) & 1u`
unfoldable pub get_bit : ℕ → ℕ → ℕ
get_bit b k = b / 2 ^ k % 2

-- `b | (uint8_t)(1u << k)`
unfoldable pub set_bit : ℕ → ℕ → ℕ
set_bit b k = bit_or b (2 ^ k)

-- `b & (uint8_t)~(1u << k)`
unfoldable pub clear_bit : ℕ → ℕ → ℕ
clear_bit b k = bit_and b (255 - 2 ^ k)

abbrev pub is_none : Option ℕ → Bool
is_none none = true
is_none (some x) = false

search_result : (o : Option ℕ) → is_none o ≡ true → o ≡ none
search_result none h = refl
search_result (some x) h = cc

-- No number below `n` fails the test, found out by looking at each.
unfoldable pub none_fails : (ℕ → Bool) → ℕ → Bool
none_fails p n = is_none (find_first (λ x. not (p x)) n 0)

pub passes_of_none_fails : (p : ℕ → Bool) (n x : ℕ) → none_fails p n ≡ true → x < n → p x ≡ true
unfolding none_fails
passes_of_none_fails p n x h l = ground (
  arith,
  find_first-none (λ x. not (p x)) n 0 (search_result (find_first (λ x. not (p x)) n 0) h) x
      (omega arith) (omega arith),
)

and_left : (a b : Bool) → a && b ≡ true → a ≡ true
and_left a b h = ground arith

and_right : (a b : Bool) → a && b ≡ true → b ≡ true
and_right a b h = ground arith

module _ (f : ℕ → ℕ → ℕ) (v : ℕ) where
  -- `f b k` is a byte, with bit `k` equal to `v` and the other bits those of `b`.
  agrees : ℕ → ℕ → ℕ → Bool
  agrees b k j = ltb (f b k) 256 && get_bit (f b k) j == (if k == j then v else get_bit b j)

  table : Bool
  unfolding agrees get_bit none_fails find_first
  table = none_fails (λ b. none_fails (λ k. none_fails (agrees b k) 8) 8) 256

  agrees-parts :
      (b k j : ℕ)
      → agrees b k j ≡ true
      → (f b k < 256) × (get_bit (f b k) j ≡ (if k == j then v else get_bit b j))
  unfolding agrees
  agrees-parts b k j h =
      (ltb→lt _ _ (and_left _ _ h), (==_iff _ _).0 (and_right (ltb (f b k) 256) _ h))

  table_sound :
      (b k j : ℕ)
      → table ≡ true
      → b < 256
      → k < 8
      → j < 8
      → (f b k < 256) × (get_bit (f b k) j ≡ (if k == j then v else get_bit b j))
  unfolding table
  table_sound b k j h lb lk lj = agrees-parts b k j (
      passes_of_none_fails (agrees b k) 8 j
        (passes_of_none_fails (λ k. none_fails (agrees b k) 8) 8 k
          (passes_of_none_fails (λ b. none_fails (λ k. none_fails (agrees b k) 8) 8) 256 b h lb) lk)
        lj)

set_table : table set_bit 1 ≡ true
unfolding table set_bit
set_table = refl

clear_table : table clear_bit 0 ≡ true
unfolding table clear_bit
clear_table = refl

pub get_bit-set_bit :
    (b k j : ℕ)
    → b < 256
    → k < 8
    → j < 8
    → (set_bit b k < 256) × (get_bit (set_bit b k) j ≡ (if k == j then 1 else get_bit b j))
get_bit-set_bit b k j = table_sound set_bit 1 b k j set_table

pub get_bit-clear_bit :
    (b k j : ℕ)
    → b < 256
    → k < 8
    → j < 8
    → (clear_bit b k < 256) × (get_bit (clear_bit b k) j ≡ (if k == j then 0 else get_bit b j))
get_bit-clear_bit b k j = table_sound clear_bit 0 b k j clear_table

pub get_bit-lt : (b k : ℕ) → get_bit b k < 2
unfolding get_bit
get_bit-lt b k = omega arith

full_table : none_fails (λ k. get_bit 255 k == 1) 8 ≡ true
unfolding none_fails find_first get_bit
full_table = refl

pub get_bit-full : (k : ℕ) → k < 8 → get_bit 255 k ≡ 1
get_bit-full k h = (==_iff _ _).0 (passes_of_none_fails (λ k. get_bit 255 k == 1) 8 k full_table h)

empty_table : none_fails (λ k. get_bit 0 k == 0) 8 ≡ true
unfolding none_fails find_first get_bit
empty_table = refl

pub get_bit-empty : (k : ℕ) → k < 8 → get_bit 0 k ≡ 0
get_bit-empty k h = (==_iff _ _).0 (passes_of_none_fails (λ k. get_bit 0 k == 0) 8 k empty_table h)

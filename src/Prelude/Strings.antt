-- ===== src/Prelude/Strings.antt =====
-- C strings: arrays of character codes that end at the first 0.
use Prim.Native.Nat.{ℕ, zero, suc, ◌+◌, ◌≤◌}
use Prim.Native.Char.{code}
use Prim.Native.String.{String}
use mathlib.Core.Path.{◌≡◌}
use mathlib.Core.Logic.{inl, inr}
use native.Mathlib.Omega.{arith}
use seng21213_os.Prelude.Tests.{◌==◌, if◌then◌else◌, Bool-cases}
use seng21213_os.Prelude.Arrays.{update}

abbrev pub CString : Type 0
CString = ℕ → ℕ

-- A string literal, as the array that it initialises.
abbrev pub literal : String → CString
literal String.[] i = 0
literal (String.◌∷◌ c s) zero = code c
literal (String.◌∷◌ c s) (suc i) = literal s i

-- `while (i < max && src[i]) { dst[i] = src[i]; i++; } dst[i] = 0;` with `n` rounds left before
-- `i` reaches `max`.
unfoldable pub copy_from : ℕ → ℕ → CString → CString → CString
copy_from zero i dst src = update dst i 0
copy_from (suc n) i dst src =
    let rest = copy_from n (i + 1) (update dst i (src i)) src in
    if src i == 0 then update dst i 0 else rest

-- The copy ends inside its array.
pub copy_from_ends :
    (n i : ℕ) (dst src : CString) → (k : ℕ) × (i ≤ k) × (k ≤ i + n) × (copy_from n i dst src k ≡ 0)
unfolding copy_from
copy_from_ends zero i dst src = (i, omega arith, omega arith, ground arith)
copy_from_ends (suc n) i dst src = elim (Bool-cases (src i == 0)) [
  | inl t ↦ (i, omega arith, omega arith, ground arith)
  | inr f ↦
      let (k, a, b, e) = copy_from_ends n (i + 1) (update dst i (src i)) src in
      (k, omega arith, omega arith, rw (f, copy_from) e)
]

-- ===== src/Vga/Print/Digits.antt =====
-- The digits that `print_uint` of kernel/vga.c prints, read as a number.
use seng21213_os.Prelude.{
  ℕ, zero, suc, ◌+◌, ◌-◌, ◌*◌, ◌/◌, ◌%◌, ◌^◌, ◌≤◌, ◌<◌, ◌≡◌, refl, sym, ◌∙◌, ap, ◌⊎◌, inl, inr,
  arith, ltb, ◌==◌, if◌then◌else◌, Bool-cases, List, [], ◌∷◌, ==_iff,
}
use seng21213_os.Vga.{Vga}
use seng21213_os.Vga.Ansi.{length}
use seng21213_os.Vga.Print.{digit, digits_from, put_all, print_uint}

-- The value of a digit.
abbrev pub digit_value : ℕ → ℕ
digit_value c = if ltb c 58 then c - 48 else c - 87

-- The number that the digits give after those of `n`.
unfoldable pub value_from : ℕ → ℕ → List ℕ → ℕ
value_from base n [] = n
value_from base n (c ∷ s) = value_from base (n * base + digit_value c) s

-- The bases that the kernel prints in.
abbrev pub IsBase : ℕ → Type 0
IsBase base = (base ≡ 10) ⊎ (base ≡ 16)

digit_value-digit : (r : ℕ) → r < 16 → digit_value (digit r) ≡ r
digit_value-digit r h = ground (arith, h)

last_digit :
    (n base : ℕ)
    → IsBase base
    → (n / base * base + n % base ≡ n) × (n / base ≤ n / 2) × (n % base < 16)
last_digit n base (inl e) = rw e (omega arith, omega arith, omega arith)
last_digit n base (inr e) = rw e (omega arith, omega arith, omega arith)

half-lt : (n f : ℕ) → n < 2 ^ suc f → n / 2 < 2 ^ f
half-lt n f h = omega (arith, h)

digits_from-value :
    (f n base : ℕ) (buf : List ℕ)
    → IsBase base
    → n < 2 ^ f
    → value_from base 0 (digits_from f n base buf) ≡ value_from base n buf
unfolding digits_from value_from
digits_from-value zero n base buf b h = let z : n ≡ 0 = omega (arith, h) in rw z refl
digits_from-value (suc f) n base buf b h = elim (Bool-cases (n == 0)) [
  | inl t ↦
      let z : n ≡ 0 = (==_iff _ _).0 t in
      rw (digits_from, t) (ap (λ k. value_from base k buf) (sym z))
  | inr more ↦
      let (whole, halved, small) = last_digit n base b in
      let below = half-lt n f h in
      let rest =
        digits_from-value f (n / base) base (digit (n % base) ∷ buf) b
          (omega (arith, halved, below)) in
      rw (digits_from, more)
        (rest
          ∙ ap (λ k. value_from base k buf)
              (ap (λ d. n / base * base + d) (digit_value-digit (n % base) small) ∙ whole))
]

digits_from-length :
    (f n base : ℕ) (buf : List ℕ) → length (digits_from f n base buf) ≤ length buf + f
unfolding digits_from length
digits_from-length zero n base buf = omega arith
digits_from-length (suc f) n base buf = elim (Bool-cases (n == 0)) [
  | inl t ↦ rw (digits_from, t) (omega arith)
  | inr more ↦
      let rest = digits_from-length f (n / base) base (digit (n % base) ∷ buf) in
      rw (digits_from, more) (omega (arith, rest))
]

-- What `print_uint` puts on the screen is, for every word and both bases of the kernel, a row of
-- digits whose value is the word; they fit in the buffer of 32.
pub print_uint-digits :
    (s : Vga) (n base : ℕ)
    → IsBase base
    → n < 2 ^ 32
    → (digits : List ℕ) × (print_uint s n base ≡ put_all s digits)
      × (value_from base 0 digits ≡ n)
      × (length digits ≤ 32)
unfolding print_uint put_all value_from length
print_uint-digits s n base b h = elim (Bool-cases (n == 0)) [
  | inl t ↦
      let z : n ≡ 0 = (==_iff _ _).0 t in
      (48 ∷ [], rw (print_uint, t) refl, omega (arith, z), omega arith)
  | inr more ↦ (
    digits_from 32 n base [],
    rw (print_uint, more) refl,
    digits_from-value 32 n base [] b h,
    digits_from-length 32 n base [],
  )
]

-- ===== src/Vga/Ansi/Ends.antt =====
-- When the loop over the parameters of a colour sequence ends.
use seng21213_os.Prelude.{
  ℕ, zero, suc, ◌+◌, ◌-◌, ◌*◌, ◌≤◌, ◌<◌, ◌≡◌, refl, sym, ◌∙◌, ap, inl, inr, Bool, true, false, ◌&&◌,
  ◌||◌, arith, ◌==◌, Bool-cases, Option, none, some, List, [], ◌∷◌,
}
use seng21213_os.Vga.Ansi.{is_digit, ansi_value, skip_semicolon, ansi_from, length}

abbrev pub is_parameter : ℕ → Bool
is_parameter c = is_digit c || c == 59

-- Every character is a digit or a semicolon.
unfoldable pub all_parameters : List ℕ → Bool
all_parameters [] = true
all_parameters (c ∷ s) = is_parameter c && all_parameters s

-- What is left after a number is no longer, and has only parameters just when the string has.
record Passes (s t : List ℕ) : Type 0 where
  shorter : length t ≤ length s
  same : all_parameters t ≡ all_parameters s

ansi_value-Passes : (value : ℕ) (s : List ℕ) → Passes s (ansi_value value s).1
unfolding ansi_value all_parameters length
ansi_value-Passes value [] = record { shorter = omega arith; same = refl }
ansi_value-Passes value (c ∷ s) = elim (Bool-cases (is_digit c)) [
  | inl t ↦
      let rest = ansi_value-Passes (value * 10 + (c - 48)) s in
      rw (ansi_value, t)
        (record { shorter = omega (arith, rest.shorter); same = rest.same ∙ sym (rw t refl) })
  | inr f ↦ rw (ansi_value, f) (record { shorter = omega arith; same = refl })
]

drops_semicolon :
    (c : ℕ) (s : List ℕ) → (c == 59) ≡ true → all_parameters (c ∷ s) ≡ all_parameters s
unfolding all_parameters
drops_semicolon c s t = elim (Bool-cases (is_digit c)) [
  | inl d ↦ rw d refl
  | inr d ↦ rw (d, t) refl
]

is_digit_first :
    (c : ℕ) (s : List ℕ) → (c == 59) ≡ false → all_parameters (c ∷ s) ≡ true → is_digit c ≡ true
unfolding all_parameters
is_digit_first c s n h = elim (Bool-cases (is_digit c)) [
  | inl d ↦ d
  | inr d ↦ absurd (cc (rw (d, n) at h))
]

skip_semicolon-Passes : (s : List ℕ) → Passes s (skip_semicolon s)
unfolding all_parameters length
skip_semicolon-Passes [] = record { shorter = omega arith; same = refl }
skip_semicolon-Passes (c ∷ s) = elim (Bool-cases (c == 59)) [
  | inl t ↦ rw t (record { shorter = omega arith; same = sym (drops_semicolon c s t) })
  | inr f ↦ rw f (record { shorter = omega arith; same = refl })
]

abbrev pub returns {ℓ} : {A : Type ℓ} → Option A → Bool
returns none = false
returns (some a) = true

-- A first character that is no semicolon.
first-Passes :
    (c : ℕ) (s : List ℕ)
    → (is_digit c ≡ true)
    → length (skip_semicolon (ansi_value 0 (c ∷ s)).1) ≤ length s
unfolding ansi_value length
first-Passes c s t =
    let rest = ansi_value-Passes (0 * 10 + (c - 48)) s in
    let skip = skip_semicolon-Passes (ansi_value (0 * 10 + (c - 48)) s).1 in
    rw (ansi_value, t) (omega (arith, rest.shorter, skip.shorter))

ansi_from-none :
    (f : ℕ) (seq : List ℕ) (had : Bool) (colours : ℕ × ℕ)
    → all_parameters seq ≡ false
    → ansi_from f seq had colours ≡ none
unfolding ansi_from all_parameters
ansi_from-none zero seq had colours h = refl
ansi_from-none (suc f) [] had colours h = absurd (cc h)
ansi_from-none (suc f) (c ∷ s) had colours h = elim (Bool-cases (c == 59)) [
  | inl t ↦ rw (ansi_from, t) (ansi_from-none f s had colours (sym (drops_semicolon c s t) ∙ h))
  | inr n ↦
      let value = ansi_value-Passes 0 (c ∷ s) in
      let skip = skip_semicolon-Passes (ansi_value 0 (c ∷ s)).1 in
      rw (ansi_from, n) (ansi_from-none f _ true _ (skip.same ∙ value.same ∙ h))
]

ansi_from-some :
    (f : ℕ) (seq : List ℕ) (had : Bool) (colours : ℕ × ℕ)
    → all_parameters seq ≡ true
    → length seq < f
    → returns (ansi_from f seq had colours) ≡ true
unfolding ansi_from all_parameters length
ansi_from-some zero seq had colours h l = absurd (omega arith)
ansi_from-some (suc f) [] had colours h l = refl
ansi_from-some (suc f) (c ∷ s) had colours h l = elim (Bool-cases (c == 59)) [
  | inl t ↦
      rw (ansi_from, t)
        (ansi_from-some f s had colours (sym (drops_semicolon c s t) ∙ h) (omega (arith, l)))
  | inr n ↦
      let value = ansi_value-Passes 0 (c ∷ s) in
      let skip = skip_semicolon-Passes (ansi_value 0 (c ∷ s)).1 in
      let short = first-Passes c s (is_digit_first c s n h) in
      rw (ansi_from, n)
        (ansi_from-some f _ true _ (skip.same ∙ value.same ∙ h) (omega (arith, short, l)))
]

-- The loop of `ansi_apply` returns just when every character of the parameters is a digit or a
-- semicolon, whatever the fuel beyond their length; with another character, as in ESC [ ? 2 5 m, it
-- goes on for ever.
pub ansi_from-returns :
    (f : ℕ) (seq : List ℕ) (had : Bool) (colours : ℕ × ℕ)
    → length seq < f
    → returns (ansi_from f seq had colours) ≡ all_parameters seq
ansi_from-returns f seq had colours l = elim (Bool-cases (all_parameters seq)) [
  | inl t ↦ ansi_from-some f seq had colours t l ∙ sym t
  | inr n ↦ ap returns (ansi_from-none f seq had colours n) ∙ sym n
]

-- ===== src/Vga/Ansi.antt =====
-- Strings with colour sequences: ESC [ parameters m.
pub mod Ends
use seng21213_os.Prelude.{
  ℕ, zero, suc, ◌+◌, ◌-◌, ◌*◌, Bool, true, false, not, ◌&&◌, ◌||◌, Option, none, some, List, [],
  ◌∷◌, ltb, leb, ◌==◌, if◌then◌else◌,
}
use seng21213_os.Vga.{
  Vga, vga_black, vga_light_grey, vga_attr, vga_set_color, vga_get_fg, vga_get_bg, vga_putchar,
}

abbrev pub is_digit : ℕ → Bool
is_digit c = leb 48 c && leb c 57

-- `ansi_value`, from the value of the digits before: the value and what follows.
unfoldable pub ansi_value : ℕ → List ℕ → ℕ × List ℕ
ansi_value value [] = (value, [])
ansi_value value (c ∷ s) =
    let rest = ansi_value (value * 10 + (c - 48)) s in if is_digit c then rest else (value, c ∷ s)

abbrev pub within : ℕ → ℕ → ℕ → Bool
within lo hi code = leb lo code && leb code hi

abbrev pub ansi_fg : ℕ → ℕ
ansi_fg code = if within 30 37 code then code - 30 else code - 90 + 8

abbrev pub ansi_bg : ℕ → ℕ
ansi_bg code = if within 40 47 code then code - 40 else code - 100 + 8

-- The two colours after one parameter.
unfoldable pub ansi_code : ℕ × ℕ → ℕ → ℕ × ℕ
ansi_code (fg, bg) code =
    if code == 0
    then (vga_light_grey, vga_black)
    else if within 30 37 code || within 90 97 code
    then (ansi_fg code, bg)
    else if within 40 47 code || within 100 107 code
    then (fg, ansi_bg code)
    else (fg, bg)

-- `if (i < end && seq[i] == ';') i++;`
abbrev pub skip_semicolon : List ℕ → List ℕ
skip_semicolon [] = []
skip_semicolon (c ∷ s) = if c == 59 then s else c ∷ s

-- The loop of `ansi_apply`, on fuel, for what is left of the parameters: the colours, and whether
-- there was a parameter; `none` when the fuel ends. A character that is neither a digit nor a
-- semicolon is not passed, and the loop goes on for ever.
unfoldable pub ansi_from : ℕ → List ℕ → Bool → ℕ × ℕ → Option (Bool × (ℕ × ℕ))
ansi_from zero seq had colours = none
ansi_from (suc f) [] had colours = some (had, colours)
ansi_from (suc f) (c ∷ s) had colours =
    let (code, rest) = ansi_value 0 (c ∷ s) in
    let next = ansi_from f (skip_semicolon rest) true (ansi_code colours code) in
    let skipped = ansi_from f s had colours in if c == 59 then skipped else next

unfoldable pub length : List ℕ → ℕ
length [] = 0
length (c ∷ s) = suc (length s)

-- `ansi_apply`, with `none` when it does not return.
unfoldable pub ansi_apply : Vga → List ℕ → Option Vga
ansi_apply s seq = elim (ansi_from (suc (length seq)) seq false (vga_get_fg s, vga_get_bg s)) [
  | none ↦ none
  | some (had, (fg, bg)) ↦
      some (if had then vga_set_color s fg bg else vga_set_color s vga_light_grey vga_black)
]

-- The loop that looks for the end of a sequence: the parameters, and the final character with what
-- follows it; `none` at the end of the string.
unfoldable pub sequence_end : List ℕ → List ℕ × Option (ℕ × List ℕ)
sequence_end [] = ([], none)
sequence_end (c ∷ s) =
    let (seq, end) = sequence_end s in if within 64 126 c then ([], some (c, s)) else (c ∷ seq, end)

-- The parameters of the colour sequence at the start of the string, and what follows it.
unfoldable pub colour_sequence : List ℕ → Option (List ℕ × List ℕ)
colour_sequence [] = none
colour_sequence (e ∷ []) = none
colour_sequence (e ∷ b ∷ s) =
    let (seq, end) = sequence_end s in
    if e == 0x1B && b == 91
    then elim end [ none ↦ none | some (c, rest) ↦ if c == 109 then some (seq, rest) else none ]
    else none

-- The loop of `vga_puts`, on fuel; `none` when it does not return.
unfoldable pub puts_from : ℕ → Vga → List ℕ → Option Vga
puts_from zero s str = none
puts_from (suc f) s [] = some s
puts_from (suc f) s (c ∷ str) = elim (colour_sequence (c ∷ str)) [
  | none ↦ puts_from f (vga_putchar s c) str
  | some (seq, rest) ↦ elim (ansi_apply s seq) [ none ↦ none | some t ↦ puts_from f t rest ]
]

-- `vga_puts`, for a string that is not NULL.
unfoldable pub vga_puts : Vga → List ℕ → Option Vga
vga_puts s str = puts_from (suc (length str)) s str

unfoldable pub vga_puts_color : Vga → List ℕ → ℕ → ℕ → Option Vga
vga_puts_color s str fg bg = elim (vga_puts (vga_set_color s fg bg) str) [
  | none ↦ none
  | some t ↦ some (record t { cur_attr = s.cur_attr })
]

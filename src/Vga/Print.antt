-- ===== src/Vga/Print.antt =====
-- Numbers and formats.
pub mod Digits
use seng21213_os.Prelude.{
  ℕ, zero, suc, ◌+◌, ◌-◌, ◌*◌, ◌/◌, ◌%◌, ◌^◌, Bool, true, false, not, ◌||◌, Option, none, some,
  List, [], ◌∷◌, ltb, leb, ◌==◌, if◌then◌else◌,
}
use seng21213_os.Machine.{u32, u8}
use seng21213_os.Vga.{Vga, vga_putchar}
use seng21213_os.Vga.Ansi.{vga_puts}

-- The character of a digit.
abbrev pub digit : ℕ → ℕ
digit r = if ltb r 10 then 48 + r else 97 + r - 10

-- The first loop of `print_uint`, on fuel: the digits of `n`, the last of them first, put in front
-- of those that `buf` holds.
unfoldable pub digits_from : ℕ → ℕ → ℕ → List ℕ → List ℕ
digits_from zero n base buf = buf
digits_from (suc f) n base buf =
    let rest = digits_from f (n / base) base (digit (n % base) ∷ buf) in
    if n == 0 then buf else rest

-- The second loop.
unfoldable pub put_all : Vga → List ℕ → Vga
put_all s [] = s
put_all s (c ∷ buf) = put_all (vga_putchar s c) buf

-- `print_uint`, whose buffer has room for 32 digits.
unfoldable pub print_uint : Vga → ℕ → ℕ → Vga
print_uint s n base = if n == 0 then vga_putchar s 48 else put_all s (digits_from 32 n base [])

-- An argument of `vga_printf`: a string, or a word of 32 bits.
pub data Arg : Type 0 where
  text : List ℕ → Arg
  word : ℕ → Arg

-- `%d`
unfoldable pub print_int : Vga → ℕ → Vga
print_int s n =
    if leb (2 ^ 31) n then print_uint (vga_putchar s 45) (2 ^ 32 - n) 10 else print_uint s n 10

-- A conversion that takes a word.
unfoldable pub print_word : Vga → ℕ → ℕ → Option Vga
print_word s c n =
    if c == 99
    then some (vga_putchar s (u8 n))
    else if c == 100
    then some (print_int s n)
    else if c == 117
    then some (print_uint s n 10)
    else if c == 120
    then some (print_uint s n 16)
    else none

-- The letters of conversions that take an argument.
abbrev pub takes_word : ℕ → Bool
takes_word c =
    if c == 99 then true else if c == 100 then true else if c == 117 then true else c == 120

-- `vga_printf`. It is `none` when it does not return, and where the behaviour of C is undefined: a
-- format that ends in `%`, and an argument that is missing or of the other kind.
unfoldable pub vga_printf : Vga → List ℕ → List Arg → Option Vga
vga_printf s [] args = some s
vga_printf s (c ∷ []) args = if c == 37 then none else some (vga_putchar s c)
vga_printf s (c ∷ d ∷ fmt) [] =
    let plain = vga_printf (vga_putchar s c) (d ∷ fmt) [] in
    let literal = vga_printf (vga_putchar s d) fmt [] in
    if not (c == 37) then plain else if takes_word d || d == 115 then none else literal
vga_printf s (c ∷ d ∷ fmt) (Arg.text str ∷ args) =
    let plain = vga_printf (vga_putchar s c) (d ∷ fmt) (Arg.text str ∷ args) in
    let literal = vga_printf (vga_putchar s d) fmt (Arg.text str ∷ args) in
    let put : Option Vga = elim (vga_puts s str) [ none ↦ none | some t ↦ vga_printf t fmt args ] in
    if not (c == 37)
    then plain
    else if d == 115
    then put
    else if takes_word d
    then none
    else literal
vga_printf s (c ∷ d ∷ fmt) (Arg.word n ∷ args) =
    let plain = vga_printf (vga_putchar s c) (d ∷ fmt) (Arg.word n ∷ args) in
    let literal = vga_printf (vga_putchar s d) fmt (Arg.word n ∷ args) in
    let put : Option Vga = elim (print_word s d n) [
      | none ↦ none
      | some t ↦ vga_printf t fmt args
    ] in
    if not (c == 37)
    then plain
    else if takes_word d
    then put
    else if d == 115
    then none
    else literal

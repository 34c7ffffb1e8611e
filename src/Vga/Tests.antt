-- ===== src/Vga/Tests.antt =====
-- The properties of the screen on one that has just been started.
use seng21213_os.Prelude.{ℕ, ◌≤◌, ◌≡◌, refl, inr, true, false, List, [], ◌∷◌, arith, ◌<◌}
use seng21213_os.Vga.{put_plain, Vga, vga_init, vga_putchar, cursor_shows}
use seng21213_os.Vga.Ansi.{ansi_from, length}
use seng21213_os.Vga.Ansi.Ends.{returns, all_parameters, ansi_from-returns}
use seng21213_os.Vga.Print.{print_uint, put_all}
use seng21213_os.Vga.Print.Digits.{value_from, print_uint-digits}
use seng21213_os.Vga.Cursor.{ℤ, vga_set_cursor}
use seng21213_os.Vga.Valid.{IsScreen}
use seng21213_os.Vga.View.{Shows, EndsWithCursor, vga_putchar-Shows}
use seng21213_os.Vga.Text.{Typed, put_plain-Typed}
use seng21213_os.Vga.Steps.{Step, Steps, vga_init-Steps}

abbrev off : Vga
off = record {
  text_buffer = λ l c. 0;
  cursor_line = 0;
  cursor_col = 0;
  first_line = 0;
  line_count = 1;
  view_top = 0;
  follow_tail = true;
  cur_attr = 7;
  screen = λ i. 0;
  crtc = λ i. 0;
}

-- A letter, and the cursor to the last row.
two_calls :
    Steps (vga_init off) (vga_set_cursor (vga_putchar (vga_init off) 65) (ℤ.pos 30) (ℤ.negsuc 4))
two_calls =
    Steps.then _ _ _ (Step.puts_char 65)
      (Steps.then _ _ _ (Step.moves (ℤ.pos 30) (ℤ.negsuc 4)) (Steps.done _))

vga_init-Steps_example :
    IsScreen (vga_set_cursor (vga_putchar (vga_init off) 65) (ℤ.pos 30) (ℤ.negsuc 4))
vga_init-Steps_example =
    vga_init-Steps off (vga_set_cursor (vga_putchar (vga_init off) 65) (ℤ.pos 30) (ℤ.negsuc 4))
      two_calls

started : IsScreen (vga_init off)
started = vga_init-Steps off (vga_init off) (Steps.done (vga_init off))

vga_putchar-Shows_example :
    Shows (vga_putchar (vga_init off) 65)
    × (cursor_shows (vga_putchar (vga_init off) 65) ≡ true)
    × EndsWithCursor (vga_putchar (vga_init off) 65)
vga_putchar-Shows_example = vga_putchar-Shows (vga_init off) 65 started

print_uint-digits_example :
    (digits : List ℕ) × (print_uint off 48879 16 ≡ put_all off digits)
    × (value_from 16 0 digits ≡ 48879)
    × (length digits ≤ 32)
print_uint-digits_example = print_uint-digits off 48879 16 (inr refl) (omega arith)

below_nine : length (63 ∷ 50 ∷ 53 ∷ []) < 9
unfolding length
below_nine = omega arith

-- "?25" is not passed.
ansi_from-returns_example :
    returns (ansi_from 9 (63 ∷ 50 ∷ 53 ∷ []) false (7, 0)) ≡ all_parameters (63 ∷ 50 ∷ 53 ∷ [])
ansi_from-returns_example = ansi_from-returns 9 (63 ∷ 50 ∷ 53 ∷ []) false (7, 0) below_nine

-- At the end of the only line.
abbrev at_end : Vga
at_end = record off { cursor_col = 79 }

at_end-IsScreen : IsScreen at_end
at_end-IsScreen = record {
  ring = record {
    some_line = omega arith;
    in_ring = omega arith;
    not_before = omega arith;
    not_after = omega arith;
  };
  column = omega arith;
  view = record { kept = omega arith; full = omega arith };
}

put_plain-Typed_example : Typed at_end 65 (put_plain at_end 65)
put_plain-Typed_example = put_plain-Typed at_end 65 at_end-IsScreen (omega arith)

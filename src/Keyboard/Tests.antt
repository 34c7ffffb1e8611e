-- ===== src/Keyboard/Tests.antt =====
-- The properties of the keyboard on one with a line in its history.
use seng21213_os.Prelude.{
  ℕ, ◌-◌, ◌<◌, ◌≡◌, ◌≢◌, refl, ◌⊎◌, true, false, some, List, [], ◌∷◌, arith, update, ◌==◌,
  if◌then◌else◌,
}
use seng21213_os.Vga.{Vga}
use seng21213_os.Keyboard.{
  Keyboard, history_add, history_get, kb_getchar, scan, entry, sc_ascii, sc_ascii_shift,
}
use seng21213_os.Keyboard.History.{IsHistory, Pushed, history_add_cases}
use seng21213_os.Keyboard.Line.{readline_from, kb_readline}
use seng21213_os.Vga.Ansi.{length}
use seng21213_os.Keyboard.Readline.{Kept, kb_readline-Kept}

abbrev quiet : Keyboard
quiet = record {
  shift_held = false;
  caps_lock = false;
  ctrl_held = false;
  alt_held = false;
  altgr_held = false;
  extended_code = false;
  history = λ i. if i == 0 then 108 ∷ 115 ∷ [] else [];
  history_count = 1;
  history_next = 1;
}

quiet-IsHistory : IsHistory quiet
quiet-IsHistory = record { count = omega arith; next = omega arith }

-- Shift and q.
shifted_q : (kb_getchar quiet (0x2A ∷ 0x10 ∷ [])).1 ≡ some (81, [])
unfolding kb_getchar scan seng21213_os.Keyboard.key_press seng21213_os.Keyboard.key_char entry
    seng21213_os.Keyboard.altgr_translate seng21213_os.Keyboard.apply_caps_shift
shifted_q = refl

abbrev line_p : List ℕ
line_p = 112 ∷ []

history_add_cases_example :
    ((history_add quiet line_p ≡ quiet)
      × ((line_p ≡ []) ⊎ (history_get quiet (quiet.history_count - 1) ≡ some line_p)))
    ⊎ ((line_p ≢ [])
        × (history_get quiet (quiet.history_count - 1) ≢ some line_p)
        × Pushed quiet (history_add quiet line_p) line_p)
history_add_cases_example = history_add_cases quiet line_p quiet-IsHistory

abbrev blank : Vga
blank = record {
  text_buffer = λ l c. 0;
  cursor_line = 0;
  cursor_col = 0;
  first_line = 0;
  line_count = 1;
  view_top = 0;
  follow_tail = true;
  cur_attr = 7;
  screen = λ i. 0;
  crtc = λ i. 0;
}

abbrev nines : ℕ → ℕ
nines i = 9

kb_readline-Kept_example :
    Kept nines 4 (kb_readline quiet blank nines 4 (0x1E ∷ 0xE0 ∷ 0x48 ∷ 0x1C ∷ []))
    × ((f : ℕ)
        → length (0x1E ∷ 0xE0 ∷ 0x48 ∷ 0x1C ∷ []) < f
        → readline_from f
            (record {
              keyboard = quiet;
              vga = blank;
              buf = update nines 0 0;
              i = 0;
              history_pos = 1;
            })
            4
            (0x1E ∷ 0xE0 ∷ 0x48 ∷ 0x1C ∷ [])
          ≡ kb_readline quiet blank nines 4 (0x1E ∷ 0xE0 ∷ 0x48 ∷ 0x1C ∷ []))
kb_readline-Kept_example =
    kb_readline-Kept quiet blank nines 4 (0x1E ∷ 0xE0 ∷ 0x48 ∷ 0x1C ∷ []) (omega arith)

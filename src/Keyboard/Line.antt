-- ===== src/Keyboard/Line.antt =====
-- Reading a line, with the keys that move through the history.
use seng21213_os.Prelude.{
  ℕ, zero, suc, ◌+◌, ◌-◌, not, ◌&&◌, ◌||◌, none, some, List, [], ◌∷◌, ltb, leb, ◌==◌, if◌then◌else◌,
  update,
}
use seng21213_os.Vga.{Vga, vga_putchar}
use seng21213_os.Vga.Ansi.{length, vga_puts}
use seng21213_os.Vga.Cursor.{ℤ, vga_scroll_page}
use seng21213_os.Keyboard.{
  Keyboard, kb_key_up, kb_key_down, kb_key_left, kb_key_right, kb_key_pgup, kb_key_pgdn, k_strlen,
  history_add, history_get, kb_getchar,
}

-- The local variables of `kb_readline`, with the keyboard and the screen.
pub record Reader : Type 0 where
  pub keyboard : Keyboard
  pub vga : Vga
  pub buf : ℕ → ℕ
  pub i : ℕ
  pub history_pos : ℕ

unfoldable pub erase_input : ℕ → Vga → Vga
erase_input zero s = s
erase_input (suc count) s = erase_input count (vga_putchar s 8)

-- `for (int i = 0; i < n; i++) buf[i] = src[i];` from place `i` on.
unfoldable pub copy_line : ℕ → ℕ → (ℕ → ℕ) → List ℕ → ℕ → ℕ
copy_line zero i buf src = buf
copy_line (suc n) i buf [] = buf
copy_line (suc n) i buf (c ∷ src) = copy_line n (i + 1) (update buf i c) src

unfoldable pub copy_history_to_buffer : Keyboard → (ℕ → ℕ) → ℕ → ℕ → (ℕ → ℕ) × ℕ
copy_history_to_buffer k buf len position = elim (history_get k position) [
  | none ↦ (buf, 0)
  | some src ↦
      let n = if leb len (k_strlen src) then len - 1 else k_strlen src in
      (update (copy_line n 0 buf src) n 0, n)
]

-- The string in the buffer, of at most `n` characters from place `i` on.
unfoldable pub string_in : ℕ → (ℕ → ℕ) → ℕ → List ℕ
string_in zero buf i = []
string_in (suc n) buf i =
    let rest = string_in n buf (i + 1) in if buf i == 0 then [] else buf i ∷ rest

-- How a round of the loop ends: it goes on, it breaks, or `vga_puts` does not return.
pub data Round : Type 0 where
  goes_on breaks : Reader → Round
  hangs : Round

-- `vga_puts(buf)`
abbrev pub show_buffer : Reader → ℕ → Round
show_buffer s len = elim (vga_puts s.vga (string_in len s.buf 0)) [
  | none ↦ Round.hangs
  | some v ↦ Round.goes_on (record s { vga = v })
]

-- The line of the history at `history_pos`, in place of the input.
unfoldable pub recall : Reader → ℕ → ℕ → Round
recall s len pos =
    let (buf, n) = copy_history_to_buffer s.keyboard s.buf len pos in
    show_buffer (record s { vga = erase_input s.i s.vga; buf = buf; i = n; history_pos = pos }) len

unfoldable pub key_up : Reader → ℕ → Round
key_up s len =
    let recalled = recall s len (s.history_pos - 1) in
    if ltb 0 s.keyboard.history_count && ltb 0 s.history_pos then recalled else Round.goes_on s

unfoldable pub key_down : Reader → ℕ → Round
key_down s len =
    let pos = s.history_pos + 1 in
    let cleared =
      show_buffer
        (record s { vga = erase_input s.i s.vga; buf = update s.buf 0 0; i = 0; history_pos = pos })
        len in
    let recalled = recall s len pos in
    if not (ltb s.history_pos s.keyboard.history_count)
    then Round.goes_on s
    else if pos == s.keyboard.history_count
    then cleared
    else recalled

unfoldable pub key_enter : Reader → ℕ → Round
key_enter s len =
    let buf = update s.buf s.i 0 in
    Round.breaks (record s {
      buf = buf;
      keyboard = history_add s.keyboard (string_in len buf 0);
      vga = vga_putchar s.vga 10;
    })

unfoldable pub key_backspace : Reader → Round
key_backspace s = Round.goes_on (
    if ltb 0 s.i
    then record s { i = s.i - 1; buf = update s.buf (s.i - 1) 0; vga = vga_putchar s.vga 8 }
    else s)

unfoldable pub key_plain : Reader → ℕ → Round
key_plain s c = Round.goes_on (record s {
  buf = update (update s.buf s.i c) (s.i + 1) 0;
  i = s.i + 1;
  vga = vga_putchar s.vga c;
  history_pos = s.keyboard.history_count;
})

-- What the loop does with a character.
unfoldable pub key : Reader → ℕ → ℕ → Round
key s len c =
    let up = key_up s len in
    let down = key_down s len in
    if c == kb_key_up
    then up
    else if c == kb_key_down
    then down
    else if c == kb_key_pgup
    then Round.goes_on (record s { vga = vga_scroll_page s.vga (ℤ.negsuc 0) })
    else if c == kb_key_pgdn
    then Round.goes_on (record s { vga = vga_scroll_page s.vga (ℤ.pos 1) })
    else if c == kb_key_left || c == kb_key_right
    then Round.goes_on s
    else if c == 10 || c == 13
    then key_enter s len
    else if c == 8
    then key_backspace s
    else if ltb c 32
    then Round.goes_on s
    else key_plain s c

-- What `kb_readline` comes to: it returns, it waits for more codes, or it never returns.
pub data Reading : Type 0 where
  returns : Reader → List ℕ → Reading
  waits : Reader → Reading
  never : Reading

-- The loop and the end, on fuel: each round takes a code.
unfoldable pub readline_from : ℕ → Reader → ℕ → List ℕ → Reading
readline_from zero s len codes = Reading.waits s
readline_from (suc f) s len codes =
    let (k, got) = kb_getchar s.keyboard codes in
    let t = record s { keyboard = k } in
    if leb len (s.i + 1)
    then Reading.returns (record s { buf = update s.buf s.i 0 }) codes
    else elim got [
      | none ↦ Reading.waits t
      | some (c, rest) ↦ elim (key t len c) [
        | Round.goes_on u ↦ readline_from f u len rest
        | Round.breaks u ↦ Reading.returns (record u { buf = update u.buf u.i 0 }) rest
        | Round.hangs ↦ Reading.never
      ]
    ]

-- `kb_readline`, for a buffer with room for `len` characters, of which there is one at least; what
-- it returns is `i`.
unfoldable pub kb_readline : Keyboard → Vga → (ℕ → ℕ) → ℕ → List ℕ → Reading
kb_readline k v buf len codes =
    readline_from (suc (length codes))
      (record { keyboard = k; vga = v; buf = update buf 0 0; i = 0; history_pos = k.history_count })
      len codes

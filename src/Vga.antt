-- ===== src/Vga.antt =====
-- kernel/vga.c: the text screen, with the last 200 lines kept in a ring. Line numbers only grow;
-- line `n` is in slot `n % 200`. The text memory of the adapter and the registers of its cursor
-- are part of the state. A `char` is its byte.
pub mod Ansi
pub mod Cursor
pub mod Print
pub mod Box
pub mod Valid
pub mod Moves
pub mod View
pub mod Steps
pub mod Text
mod Tests
use seng21213_os.Prelude.{
  ℕ, zero, suc, ◌+◌, ◌-◌, ◌*◌, ◌/◌, ◌%◌, ◌^◌, Bool, true, false, not, ◌&&◌, ◌||◌, ltb, leb, ◌==◌,
  if◌then◌else◌, update,
}
use seng21213_os.Machine.{u8}

abbrev pub scrollback_lines : ℕ
scrollback_lines = 200

abbrev pub vga_cols : ℕ
vga_cols = 80

abbrev pub vga_rows : ℕ
vga_rows = 25

abbrev pub vga_black : ℕ
vga_black = 0

abbrev pub vga_light_grey : ℕ
vga_light_grey = 7

-- `VGA_ATTR`, of two colours below 16.
abbrev pub vga_attr : ℕ → ℕ → ℕ
vga_attr fg bg = u8 (bg * 16 + fg)

-- `(attr << 8) | c`
abbrev pub cell : ℕ → ℕ → ℕ
cell attr c = attr * 256 + u8 c

-- The static variables; `screen` is the memory at `VGA_ADDR` and `crtc` the registers of the
-- adapter that are written through ports 0x3D4 and 0x3D5.
pub record Vga : Type 0 where
  pub text_buffer : ℕ → ℕ → ℕ
  pub cursor_line : ℕ
  pub cursor_col : ℕ
  pub first_line : ℕ
  pub line_count : ℕ
  pub view_top : ℕ
  pub follow_tail : Bool
  pub cur_attr : ℕ
  pub screen : ℕ → ℕ
  pub crtc : ℕ → ℕ

abbrev pub last_line : Vga → ℕ
last_line s = s.first_line + s.line_count - 1

-- `line_slot`, for a line that is not negative.
abbrev pub line_slot : ℕ → ℕ
line_slot line = line % scrollback_lines

-- `outb(0x3D4, register); outb(0x3D5, value);`
abbrev pub out_register : (ℕ → ℕ) → ℕ → ℕ → ℕ → ℕ
out_register crtc register value = update crtc register value

abbrev pub enable_hw_cursor : (ℕ → ℕ) → ℕ → ℕ
enable_hw_cursor crtc = out_register (out_register crtc 0x0A 0x0E) 0x0B 0x0F

abbrev pub disable_hw_cursor : (ℕ → ℕ) → ℕ → ℕ
disable_hw_cursor crtc = out_register crtc 0x0A 0x20

-- Whether the cursor is in a row of the view.
abbrev pub cursor_shows : Vga → Bool
cursor_shows s =
    s.follow_tail && leb s.view_top s.cursor_line && ltb (s.cursor_line - s.view_top) vga_rows

-- The place of the cursor in the view.
abbrev pub cursor_pos : Vga → ℕ
cursor_pos s = ((s.cursor_line - s.view_top) * vga_cols + s.cursor_col) % 2 ^ 16

abbrev pub update_hw_cursor : Vga → Vga
update_hw_cursor s =
    let low = out_register (enable_hw_cursor s.crtc) 0x0F (cursor_pos s % 256) in
    let high = out_register low 0x0E (cursor_pos s / 256 % 256) in
    record s { crtc = if cursor_shows s then high else disable_hw_cursor s.crtc }

-- The loop of `fill_line`, for `n` cells from column `c` on.
unfoldable pub fill_cells : ℕ → ℕ → ℕ → (ℕ → ℕ) → ℕ → ℕ
fill_cells zero c v row = row
fill_cells (suc n) c v row = fill_cells n (c + 1) v (update row c v)

abbrev pub fill_line : Vga → ℕ → ℕ → Vga
fill_line s line attr =
    let slot = line_slot line in
    record s {
      text_buffer =
          update s.text_buffer slot (fill_cells vga_cols 0 (cell attr 32) (s.text_buffer slot));
    }

-- What `render_view` shows in column `c` of a line.
abbrev pub shown : Vga → ℕ → ℕ → ℕ
shown s line c =
    if leb s.first_line line && leb line (last_line s)
    then s.text_buffer (line_slot line) c
    else cell s.cur_attr 32

-- The inner loop of `render_view` for row `r`, for `n` columns from `c` on.
unfoldable pub render_cells : ℕ → ℕ → ℕ → Vga → (ℕ → ℕ) → ℕ → ℕ
render_cells zero c r s screen = screen
render_cells (suc n) c r s screen =
    render_cells n (c + 1) r s (update screen (r * vga_cols + c) (shown s (s.view_top + r) c))

-- The outer loop, for `n` rows from `r` on.
unfoldable pub render_rows : ℕ → ℕ → Vga → (ℕ → ℕ) → ℕ → ℕ
render_rows zero r s screen = screen
render_rows (suc n) r s screen = render_rows n (r + 1) s (render_cells vga_cols 0 r s screen)

abbrev pub render_view : Vga → Vga
render_view s = update_hw_cursor (record s { screen = render_rows vga_rows 0 s s.screen })

abbrev pub ensure_tail_view : Vga → Vga
ensure_tail_view s = record s {
  view_top =
      if ltb s.cursor_line (s.first_line + (vga_rows - 1))
      then s.first_line
      else s.cursor_line - (vga_rows - 1);
}

unfoldable pub new_line : Vga → Vga
new_line s =
    let t = record s { cursor_line = s.cursor_line + 1; cursor_col = 0 } in
    let u =
      if ltb t.line_count scrollback_lines
      then record t { line_count = t.line_count + 1 }
      else record t { first_line = t.first_line + 1 } in
    let v = fill_line u u.cursor_line u.cur_attr in if v.follow_tail then ensure_tail_view v else v

unfoldable pub vga_write_current : Vga → ℕ → Vga
vga_write_current s c =
    let slot = line_slot s.cursor_line in
    record s {
      text_buffer =
          update s.text_buffer slot (update (s.text_buffer slot) s.cursor_col (cell s.cur_attr c));
    }

-- `fill_line` for `n` lines from `r` on.
unfoldable pub fill_lines : ℕ → ℕ → Vga → Vga
fill_lines zero r s = s
fill_lines (suc n) r s = fill_lines n (r + 1) (fill_line s r s.cur_attr)

abbrev pub restarted : Vga → ℕ → Vga
restarted s attr = record s {
  cur_attr = attr;
  cursor_line = 0;
  cursor_col = 0;
  first_line = 0;
  line_count = 1;
  view_top = 0;
  follow_tail = true;
}

unfoldable pub vga_init : Vga → Vga
vga_init s =
    render_view (fill_lines scrollback_lines 0 (restarted s (vga_attr vga_light_grey vga_black)))

unfoldable pub vga_clear : Vga → ℕ → Vga
vga_clear s bg =
    render_view (fill_lines scrollback_lines 0 (restarted s (vga_attr vga_light_grey bg)))

abbrev pub vga_set_color : Vga → ℕ → ℕ → Vga
vga_set_color s fg bg = record s { cur_attr = vga_attr fg bg }

abbrev pub vga_get_fg : Vga → ℕ
vga_get_fg s = s.cur_attr % 16

abbrev pub vga_get_bg : Vga → ℕ
vga_get_bg s = s.cur_attr / 16 % 16

-- `\t`: to the next multiple of eight.
unfoldable pub put_tab : Vga → Vga
put_tab s =
    let next = (s.cursor_col + 8) / 8 * 8 in
    if leb vga_cols next then new_line s else record s { cursor_col = next }

-- `\b`
unfoldable pub put_backspace : Vga → Vga
put_backspace s =
    if ltb 0 s.cursor_col
    then vga_write_current (record s { cursor_col = s.cursor_col - 1 }) 32
    else s

-- Any other character.
unfoldable pub put_plain : Vga → ℕ → Vga
put_plain s c =
    let t = vga_write_current (if leb vga_cols s.cursor_col then new_line s else s) c in
    let u = record t { cursor_col = t.cursor_col + 1 } in
    if leb vga_cols u.cursor_col then new_line u else u

unfoldable pub put_char : Vga → ℕ → Vga
put_char s c =
    if c == 10
    then new_line s
    else if c == 13
    then record s { cursor_col = 0 }
    else if c == 9
    then put_tab s
    else if c == 8
    then put_backspace s
    else put_plain s c

unfoldable pub vga_putchar : Vga → ℕ → Vga
vga_putchar s c =
    let t = if s.follow_tail then s else ensure_tail_view (record s { follow_tail = true }) in
    let u = put_char t c in render_view (if u.follow_tail then ensure_tail_view u else u)

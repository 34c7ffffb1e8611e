-- ===== src/Vga/Cursor.antt =====
-- Moving the cursor and the view.
use seng21213_os.Prelude.{ℕ, zero, suc, ◌+◌, ◌-◌, true, false, ◌&&◌, ltb, leb, ◌==◌, if◌then◌else◌}
use seng21213_os.Vga.{
  Vga, scrollback_lines, vga_cols, vga_rows, last_line, fill_line, render_view, ensure_tail_view,
}

-- An `int`.
pub data ℤ : Type 0 where
  pos negsuc : ℕ → ℤ

-- The first loop of `ensure_line_exists`, on fuel.
unfoldable pub add_lines : ℕ → Vga → ℕ → Vga
add_lines zero s line = s
add_lines (suc f) s line =
    let t = fill_line s (s.first_line + s.line_count) s.cur_attr in
    let rest = add_lines f (record t { line_count = t.line_count + 1 }) line in
    if ltb (last_line s) line && ltb s.line_count scrollback_lines then rest else s

-- The second loop, on fuel.
unfoldable pub drop_lines : ℕ → Vga → ℕ → Vga
drop_lines zero s line = s
drop_lines (suc f) s line =
    let t = record s { first_line = s.first_line + 1 } in
    let rest = drop_lines f (fill_line t (last_line t) t.cur_attr) line in
    if ltb (last_line s) line then rest else s

unfoldable pub ensure_line_exists : Vga → ℕ → Vga
ensure_line_exists s line =
    let t = add_lines scrollback_lines s line in
    if ltb line s.first_line then s else drop_lines (line - last_line t) t line

-- `if (x < 0) x = 0; if (x >= n) x = n - 1;`
abbrev pub clamp : ℤ → ℕ → ℕ
clamp (ℤ.pos x) n = if leb n x then n - 1 else x
clamp (ℤ.negsuc x) n = 0

unfoldable pub vga_set_cursor : Vga → ℤ → ℤ → Vga
vga_set_cursor s row col =
    let line = s.view_top + clamp row vga_rows in
    let t = record s { cursor_line = if ltb line s.first_line then s.first_line else line } in
    let u = ensure_line_exists t t.cursor_line in
    render_view
      (ensure_tail_view (record u { cursor_col = clamp col vga_cols; follow_tail = true }))

-- The last place of the view: the end of the text, or its start if it is short.
abbrev pub max_top : Vga → ℕ
max_top s =
    if ltb (last_line s) (s.first_line + (vga_rows - 1))
    then s.first_line
    else last_line s - (vga_rows - 1)

abbrev pub scroll_up : Vga → Vga
scroll_up s =
    let top =
      if ltb s.view_top (s.first_line + (vga_rows - 1))
      then s.first_line
      else s.view_top - (vga_rows - 1) in
    record s { view_top = top; follow_tail = top == max_top s }

abbrev pub scroll_down : Vga → Vga
scroll_down s =
    let top = s.view_top + (vga_rows - 1) in
    if leb (max_top s) top
    then record s { view_top = max_top s; follow_tail = true }
    else record s { view_top = top; follow_tail = false }

unfoldable pub vga_scroll_page : Vga → ℤ → Vga
vga_scroll_page s (ℤ.negsuc n) = render_view (scroll_up s)
vga_scroll_page s (ℤ.pos n) = render_view (if n == 0 then s else scroll_down s)

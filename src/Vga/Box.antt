-- ===== src/Vga/Box.antt =====
-- Boxes, at a place that is not negative.
use seng21213_os.Prelude.{ℕ, zero, suc, ◌+◌, ◌-◌, ◌&&◌, ltb, leb, ◌==◌, if◌then◌else◌, update}
use seng21213_os.Vga.{Vga, vga_cols, vga_black, vga_attr, cell, last_line, line_slot, render_view}
use seng21213_os.Vga.Cursor.{ensure_line_exists}

-- A cell of a line that is kept; another line is left out.
abbrev pub put_cell : Vga → ℕ → ℕ → ℕ → Vga
put_cell s line col c =
    let slot = line_slot line in
    if leb s.first_line line && leb line (last_line s)
    then record s {
      text_buffer = update s.text_buffer slot (update (s.text_buffer slot) col (cell s.cur_attr c));
    }
    else s

-- The corner at the left, the one at the right, or the border between.
abbrev pub corner : ℕ → ℕ → ℕ → ℕ → ℕ
corner left right c width = if c == 0 then left else if c + 1 == width then right else 0xCD

-- The loop over the columns, for `n` of them from `c` on; `end` is the line after the box. The last
-- line is before line 0 when the box has no line.
unfoldable pub draw_columns : ℕ → ℕ → Vga → ℕ → ℕ → ℕ → ℕ → Vga
draw_columns zero c s top end col width = s
draw_columns (suc n) c s top end col width =
    let t = put_cell s top (col + c) (corner 0xC9 0xBB c width) in
    let u = if end == 0 then t else put_cell t (end - 1) (col + c) (corner 0xC8 0xBC c width) in
    let rest = draw_columns n (c + 1) u top end col width in
    if leb vga_cols (col + c) then s else rest

-- The loop over the rows between, for `n` of them from line `line` on.
unfoldable pub draw_rows : ℕ → ℕ → Vga → ℕ → ℕ → Vga
draw_rows zero line s col width = s
draw_rows (suc n) line s col width =
    let t = if ltb col vga_cols then put_cell s line col 0xBA else s in
    let u =
      if ltb 0 (col + width) && leb (col + width) vga_cols
      then put_cell t line (col + width - 1) 0xBA
      else t in
    draw_rows n (line + 1) u col width

unfoldable pub vga_draw_box : Vga → ℕ → ℕ → ℕ → ℕ → ℕ → Vga
vga_draw_box s row col height width color =
    let top = s.view_top + row in
    let end = top + height in
    let t = if end == 0 then s else ensure_line_exists s (end - 1) in
    let u =
      draw_columns width 0 (record t { cur_attr = vga_attr color vga_black }) top end col width in
    let v = draw_rows (height - 2) (top + 1) u col width in
    render_view (record v { cur_attr = s.cur_attr })

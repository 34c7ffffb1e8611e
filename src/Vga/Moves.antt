-- ===== src/Vga/Moves.antt =====
-- Moving the cursor and the view of kernel/vga.c keeps both among the lines that are kept.
use seng21213_os.Prelude.{
  ℕ, zero, suc, ◌+◌, ◌-◌, ◌≤◌, ◌<◌, ◌≡◌, refl, inl, inr, false, ◌&&◌, arith, ltb, leb, ◌==◌,
  Bool-cases,
}
use seng21213_os.Vga.{Vga, vga_rows, vga_cols, scrollback_lines, last_line, fill_line}
use seng21213_os.Vga.Cursor.{
  ℤ, add_lines, drop_lines, ensure_line_exists, clamp, vga_set_cursor, max_top, vga_scroll_page,
}
use seng21213_os.Vga.Valid.{IsRing, IsScreen, tail-IsView}

-- A line within a view's height of a kept line is made without dropping one.
pub record IsExtended (s t : Vga) (line : ℕ) : Type 0 where
  pub first : t.first_line ≡ s.first_line
  pub more : s.line_count ≤ t.line_count
  pub most : t.line_count ≤ scrollback_lines
  pub reached : line < t.first_line + t.line_count
  pub cursor : t.cursor_line ≡ s.cursor_line
  pub top : t.view_top ≡ s.view_top
  pub col : t.cursor_col ≡ s.cursor_col

add_lines-IsExtended :
    (f : ℕ) (s : Vga) (line : ℕ)
    → 0 < s.line_count
    → s.line_count ≤ scrollback_lines
    → line < s.first_line + scrollback_lines
    → scrollback_lines ≤ s.line_count + f
    → IsExtended s (add_lines f s line) line
unfolding add_lines
add_lines-IsExtended zero s line p m l h = record {
  first = refl;
  more = omega arith;
  most = m;
  reached = omega (arith, l, h);
  cursor = refl;
  top = refl;
  col = refl;
}
add_lines-IsExtended (suc f) s line p m l h =
    elim (Bool-cases (ltb (last_line s) line && ltb s.line_count scrollback_lines)) [
      | inl t ↦
          let u = record (fill_line s (s.first_line + s.line_count) s.cur_attr) {
            line_count = s.line_count + 1;
          } in
          let rest : IsExtended u (add_lines f u line) line =
            add_lines-IsExtended f u line (omega arith) (ground (arith, t)) l (omega (arith, h)) in
          rw (add_lines, t)
            (record {
              first = rest.first;
              more = omega (arith, rest.more);
              most = rest.most;
              reached = rest.reached;
              cursor = rest.cursor;
              top = rest.top;
              col = rest.col;
            })
      | inr n ↦
          rw (add_lines, n)
            (record {
              first = refl;
              more = omega arith;
              most = m;
              reached = ground (arith, n, l, p, m);
              cursor = refl;
              top = refl;
              col = refl;
            })
    ]

pub ensure_line_exists-IsExtended :
    (s : Vga) (line : ℕ)
    → 0 < s.line_count
    → s.line_count ≤ scrollback_lines
    → s.first_line ≤ line
    → line < s.first_line + scrollback_lines
    → IsExtended s (ensure_line_exists s line) line
unfolding ensure_line_exists drop_lines
ensure_line_exists-IsExtended s line p m above l =
    let w = add_lines-IsExtended 200 s line p m l (omega arith) in
    let kept : ltb line s.first_line ≡ false = ground (arith, above) in
    let none_left : line - last_line (add_lines scrollback_lines s line) ≡ 0 =
      omega (arith, w.reached) in
    rw (ensure_line_exists, kept, none_left) w

clamp-lt : (x : ℤ) (n : ℕ) → 0 < n → clamp x n < n
clamp-lt (ℤ.pos x) n h = ground (arith, h)
clamp-lt (ℤ.negsuc x) n h = h

pub vga_set_cursor-IsScreen :
    (s : Vga) (row col : ℤ) → IsScreen s → IsScreen (vga_set_cursor s row col)
unfolding vga_set_cursor
vga_set_cursor-IsScreen s row col w =
    let below = clamp-lt row vga_rows (omega arith) in
    let line = s.view_top + clamp row vga_rows in
    let kept : ltb line s.first_line ≡ false = ground (arith, w.view.kept) in
    let t = record s { cursor_line = line } in
    let e : IsExtended t (ensure_line_exists t line) line =
      ensure_line_exists-IsExtended t line w.ring.some_line w.ring.in_ring
        (omega (arith, w.view.kept)) (omega (arith, below, w.view.full, w.ring.in_ring)) in
    let u = ensure_line_exists t line in
    let ring : IsRing u.cursor_line u.first_line u.line_count = record {
      some_line = omega (arith, w.ring.some_line, e.more);
      in_ring = e.most;
      not_before = omega (arith, e.cursor, e.first, w.view.kept);
      not_after = omega (arith, e.cursor, e.reached);
    } in
    rw (vga_set_cursor, kept)
      (record {
        ring = ring;
        column = clamp-lt col vga_cols (omega arith);
        view = tail-IsView _ _ _ ring;
      })

pub vga_scroll_page-IsScreen :
    (s : Vga) (direction : ℤ) → IsScreen s → IsScreen (vga_scroll_page s direction)
unfolding vga_scroll_page
vga_scroll_page-IsScreen s (ℤ.negsuc n) w = record {
  ring = w.ring;
  column = w.column;
  view = record {
    kept = ground (arith, w.view.kept);
    full = ground (arith, w.view.full, w.view.kept);
  };
}
vga_scroll_page-IsScreen s (ℤ.pos n) w = elim (Bool-cases (n == 0)) [
  | inl t ↦ rw (vga_scroll_page, t) w
  | inr f ↦ elim (Bool-cases (leb (max_top s) (s.view_top + (vga_rows - 1)))) [
    | inl t ↦
        rw (vga_scroll_page, f, t)
          (record {
            ring = w.ring;
            column = w.column;
            view = record { kept = ground (arith); full = ground (arith, w.ring.some_line) };
          })
    | inr g ↦
        rw (vga_scroll_page, f, g)
          (record {
            ring = w.ring;
            column = w.column;
            view = record {
              kept = omega (arith, w.view.kept);
              full = ground (arith, g, w.ring.some_line);
            };
          })
  ]
]

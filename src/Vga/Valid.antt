-- ===== src/Vga/Valid.antt =====
-- The cursor and the view of kernel/vga.c stay among the lines that are kept, whatever is typed.
use seng21213_os.Prelude.{
  ℕ, zero, suc, ◌+◌, ◌-◌, ◌*◌, ◌/◌, ◌≤◌, ◌<◌, ◌≡◌, refl, inl, inr, true, false, arith, ltb, leb,
  ◌==◌, if◌then◌else◌, Bool-cases,
}
use seng21213_os.Vga.{
  Vga, vga_rows, vga_cols, scrollback_lines, fill_line, fill_lines, vga_attr, vga_light_grey,
  vga_black, restarted, ensure_tail_view, new_line, vga_write_current, vga_init, vga_clear, put_tab,
  put_backspace, put_plain, put_char, vga_putchar,
}

-- The cursor is in a line that is kept, of which there are one to 200.
pub record IsRing (line first count : ℕ) : Type 0 where
  pub some_line : 0 < count
  pub in_ring : count ≤ scrollback_lines
  pub not_before : first ≤ line
  pub not_after : line < first + count

-- The view starts at the first line, or high enough to be full.
pub record IsView (first count top : ℕ) : Type 0 where
  pub kept : first ≤ top
  pub full : top ≤ first + (count - vga_rows)

pub record IsPlace (line col first count top : ℕ) : Type 0 where
  pub ring : IsRing line first count
  pub column : col < vga_cols
  pub view : IsView first count top

abbrev pub IsScreen : Vga → Type 0
IsScreen s = IsPlace s.cursor_line s.cursor_col s.first_line s.line_count s.view_top

abbrev Ring : Vga → Type 0
Ring s = IsRing s.cursor_line s.first_line s.line_count

pub tail-IsView :
    (line first count : ℕ)
    → IsRing line first count
    → IsView first count
        (if ltb line (first + (vga_rows - 1)) then first else line - (vga_rows - 1))
tail-IsView line first count w = record { kept = ground arith; full = ground (arith, w.not_after) }

ensure_tail_view-IsScreen :
    (s : Vga) → Ring s → s.cursor_col < vga_cols → IsScreen (ensure_tail_view s)
ensure_tail_view-IsScreen s w l = record {
  ring = w;
  column = l;
  view = tail-IsView s.cursor_line s.first_line s.line_count w;
}

abbrev pub Following : Vga → Type 0
Following s = IsScreen s × (s.follow_tail ≡ true)

new_line-Following : (s : Vga) → s.follow_tail ≡ true → Ring s → Following (new_line s)
unfolding new_line
new_line-Following s f w = elim (Bool-cases (ltb s.line_count scrollback_lines)) [
  | inl t ↦
      let ring : IsRing (s.cursor_line + 1) s.first_line (s.line_count + 1) = record {
        some_line = omega arith;
        in_ring = ground (arith, t);
        not_before = omega (arith, w.not_before);
        not_after = omega (arith, w.not_after);
      } in
      rw (new_line, t, f)
        (record { ring = ring; column = omega arith; view = tail-IsView _ _ _ ring }, refl)
  | inr n ↦
      let ring : IsRing (s.cursor_line + 1) (s.first_line + 1) s.line_count = record {
        some_line = w.some_line;
        in_ring = w.in_ring;
        not_before = omega (arith, w.not_before);
        not_after = omega (arith, w.not_after);
      } in
      rw (new_line, n, f)
        (record { ring = ring; column = omega arith; view = tail-IsView _ _ _ ring }, refl)
]

put_tab-Following : (s : Vga) → Following s → Following (put_tab s)
unfolding put_tab
put_tab-Following s (w, f) = elim (Bool-cases (leb vga_cols ((s.cursor_col + 8) / 8 * 8))) [
  | inl t ↦ rw (put_tab, t) (new_line-Following s f w.ring)
  | inr n ↦ rw (put_tab, n) (record { ring = w.ring; column = ground (arith, n); view = w.view }, f)
]

put_backspace-Following : (s : Vga) → Following s → Following (put_backspace s)
unfolding put_backspace vga_write_current
put_backspace-Following s (w, f) = elim (Bool-cases (ltb 0 s.cursor_col)) [
  | inl t ↦
      rw (put_backspace, t)
        (record { ring = w.ring; column = omega (arith, w.column); view = w.view }, f)
  | inr n ↦ rw (put_backspace, n) (w, f)
]

put_plain-Following : (s : Vga) (c : ℕ) → Following s → Following (put_plain s c)
unfolding put_plain vga_write_current
put_plain-Following s c (w, f) =
    let room : leb vga_cols s.cursor_col ≡ false = ground (arith, w.column) in
    let t = record (vga_write_current s c) { cursor_col = s.cursor_col + 1 } in
    elim (Bool-cases (leb vga_cols (s.cursor_col + 1))) [
      | inl full ↦ rw (put_plain, room, full) (new_line-Following t f w.ring)
      | inr n ↦
          rw (put_plain, room, n)
            (record { ring = w.ring; column = ground (arith, n); view = w.view }, f)
    ]

put_char-Following : (s : Vga) (c : ℕ) → Following s → Following (put_char s c)
unfolding put_char
put_char-Following s c w = elim (Bool-cases (c == 10)) [
  | inl t ↦ rw (put_char, t) (new_line-Following s w.1 w.0.ring)
  | inr a ↦ elim (Bool-cases (c == 13)) [
    | inl t ↦
        rw (put_char, a, t) (record { ring = w.0.ring; column = omega arith; view = w.0.view }, w.1)
    | inr b ↦ elim (Bool-cases (c == 9)) [
      | inl t ↦ rw (put_char, a, b, t) (put_tab-Following s w)
      | inr d ↦ elim (Bool-cases (c == 8)) [
        | inl t ↦ rw (put_char, a, b, d, t) (put_backspace-Following s w)
        | inr e ↦ rw (put_char, a, b, d, e) (put_plain-Following s c w)
      ]
    ]
  ]
]

-- The state in which `vga_putchar` puts its character.
abbrev pub following_tail : Vga → Vga
following_tail s = if s.follow_tail then s else ensure_tail_view (record s { follow_tail = true })

pub put_char-following_tail :
    (s : Vga) (c : ℕ) → IsScreen s → Following (put_char (following_tail s) c)
put_char-following_tail s c w =
    put_char-Following (following_tail s) c (elim (Bool-cases s.follow_tail) [
      | inl t ↦ rw t (w, refl)
      | inr n ↦
          rw n (ensure_tail_view-IsScreen (record s { follow_tail = true }) w.ring w.column, refl)
    ])

pub vga_putchar-Following : (s : Vga) (c : ℕ) → IsScreen s → Following (vga_putchar s c)
unfolding vga_putchar
vga_putchar-Following s c w =
    let (v, f) = put_char-following_tail s c w in
    rw (vga_putchar, f)
      (ensure_tail_view-IsScreen (put_char (following_tail s) c) v.ring v.column, refl)

fill_lines-IsScreen : (n r : ℕ) (s : Vga) → IsScreen s → IsScreen (fill_lines n r s)
unfolding fill_lines
fill_lines-IsScreen zero r s w = w
fill_lines-IsScreen (suc n) r s w = fill_lines-IsScreen n (r + 1) (fill_line s r s.cur_attr) w

restarted-IsScreen : (s : Vga) (attr : ℕ) → IsScreen (restarted s attr)
restarted-IsScreen s attr = record {
  ring = record {
    some_line = omega arith;
    in_ring = omega arith;
    not_before = omega arith;
    not_after = omega arith;
  };
  column = omega arith;
  view = record { kept = omega arith; full = omega arith };
}

pub vga_init-IsScreen : (s : Vga) → IsScreen (vga_init s)
unfolding vga_init
vga_init-IsScreen s =
    fill_lines-IsScreen 200 0 _ (restarted-IsScreen s (vga_attr vga_light_grey vga_black))

pub vga_clear-IsScreen : (s : Vga) (bg : ℕ) → IsScreen (vga_clear s bg)
unfolding vga_clear
vga_clear-IsScreen s bg =
    fill_lines-IsScreen 200 0 _ (restarted-IsScreen s (vga_attr vga_light_grey bg))

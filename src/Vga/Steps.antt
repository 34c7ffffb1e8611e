-- ===== src/Vga/Steps.antt =====
-- Any sequence of calls of kernel/vga.c.
use seng21213_os.Prelude.{
  ℕ, zero, suc, ◌+◌, ◌-◌, ◌/◌, ◌%◌, ◌^◌, ◌≤◌, ◌<◌, ◌≡◌, refl, subst, inl, inr, Bool, true, false,
  not, ◌&&◌, ◌||◌, arith, ltb, leb, ◌==◌, if◌then◌else◌, Option-cases, none, some, Option, List, [],
  ◌∷◌,
}
use seng21213_os.Vga.{
  Vga, vga_rows, vga_cols, vga_attr, vga_black, vga_light_grey, vga_set_color, vga_init, vga_clear,
  vga_putchar, last_line,
}
use seng21213_os.Vga.Ansi.{
  colour_sequence, ansi_from, ansi_apply, puts_from, vga_puts, vga_puts_color, length,
}
use seng21213_os.Vga.Print.{
  Arg, digits_from, put_all, print_uint, print_int, print_word, takes_word, vga_printf,
}
use seng21213_os.Vga.Cursor.{ℤ, ensure_line_exists, vga_set_cursor, vga_scroll_page}
use seng21213_os.Vga.Box.{put_cell, draw_columns, draw_rows, vga_draw_box, corner}
use seng21213_os.Vga.Valid.{IsScreen, vga_putchar-Following, vga_init-IsScreen, vga_clear-IsScreen}
use seng21213_os.Vga.Moves.{
  IsExtended, ensure_line_exists-IsExtended, vga_set_cursor-IsScreen, vga_scroll_page-IsScreen,
}

-- A call that returns leaves a screen.
abbrev Returns : Option Vga → Type 0
Returns o = (t : Vga) → o ≡ some t → IsScreen t

some_Vga : {s t : Vga} → some s ≡ some t → s ≡ t
some_Vga h = cc

no_Vga : {t : Vga} → ¬ (none ≡ some t)
no_Vga h = cc

some-Returns : (s : Vga) → IsScreen s → Returns (some s)
some-Returns s w t h = subst IsScreen (some_Vga h) w

none-Returns : Returns none
none-Returns t h = absurd (no_Vga h)

putchar-IsScreen : (s : Vga) (c : ℕ) → IsScreen s → IsScreen (vga_putchar s c)
putchar-IsScreen s c w = (vga_putchar-Following s c w).0

choose-Returns :
    (b : Bool) (x y : Option Vga) → Returns x → Returns y → Returns (if b then x else y)
choose-Returns true x y v w = v
choose-Returns false x y v w = w

bind-Returns :
    (o : Option Vga) (k : Vga → Option Vga)
    → Returns o
    → ((t : Vga) → IsScreen t → Returns (k t))
    → Returns (elim o [ none ↦ none | some t ↦ k t ])
bind-Returns none k v w = none-Returns
bind-Returns (some s) k v w = w s (v s refl)

choose-IsScreen : (b : Bool) (s t : Vga) → IsScreen s → IsScreen t → IsScreen (if b then s else t)
choose-IsScreen true s t v w = v
choose-IsScreen false s t v w = w

ansi_apply-Returns : (s : Vga) (seq : List ℕ) → IsScreen s → Returns (ansi_apply s seq)
unfolding ansi_apply
ansi_apply-Returns s seq w =
    elim (Option-cases
      (ansi_from (suc (length seq)) seq false (s.cur_attr % 16, s.cur_attr / 16 % 16))) [
        | inl e ↦ rw (ansi_apply, e) none-Returns
        | inr ((had, (fg, bg)), e) ↦
            rw (ansi_apply, e)
              (some-Returns _ (
                choose-IsScreen had (vga_set_color s fg bg)
                  (vga_set_color s vga_light_grey vga_black) w w))
      ]

puts_from-Returns : (f : ℕ) (s : Vga) (str : List ℕ) → IsScreen s → Returns (puts_from f s str)
unfolding puts_from
puts_from-Returns zero s str w = none-Returns
puts_from-Returns (suc f) s [] w = some-Returns s w
puts_from-Returns (suc f) s (c ∷ str) w = elim (Option-cases (colour_sequence (c ∷ str))) [
  | inl e ↦ rw (puts_from, e) (puts_from-Returns f (vga_putchar s c) str (putchar-IsScreen s c w))
  | inr ((seq, rest), e) ↦
      rw (puts_from, e)
        (bind-Returns (ansi_apply s seq) (λ t. puts_from f t rest) (ansi_apply-Returns s seq w)
          (λ t. puts_from-Returns f t rest))
]

vga_puts-Returns : (s : Vga) (str : List ℕ) → IsScreen s → Returns (vga_puts s str)
unfolding vga_puts
vga_puts-Returns s str = puts_from-Returns (suc (length str)) s str

vga_puts_color-Returns :
    (s : Vga) (str : List ℕ) (fg bg : ℕ) → IsScreen s → Returns (vga_puts_color s str fg bg)
unfolding vga_puts_color
vga_puts_color-Returns s str fg bg w =
    bind-Returns (vga_puts (vga_set_color s fg bg) str)
      (λ t. some (record t { cur_attr = s.cur_attr }))
      (vga_puts-Returns (vga_set_color s fg bg) str w) (λ t v. some-Returns _ v)

put_all-IsScreen : (buf : List ℕ) (s : Vga) → IsScreen s → IsScreen (put_all s buf)
unfolding put_all
put_all-IsScreen [] s w = w
put_all-IsScreen (c ∷ buf) s w = put_all-IsScreen buf (vga_putchar s c) (putchar-IsScreen s c w)

print_uint-IsScreen : (s : Vga) (n base : ℕ) → IsScreen s → IsScreen (print_uint s n base)
unfolding print_uint
print_uint-IsScreen s n base w =
    choose-IsScreen (n == 0) (vga_putchar s 48) (put_all s (digits_from 32 n base []))
      (putchar-IsScreen s 48 w) (put_all-IsScreen (digits_from 32 n base []) s w)

print_int-IsScreen : (s : Vga) (n : ℕ) → IsScreen s → IsScreen (print_int s n)
unfolding print_int
print_int-IsScreen s n w =
    choose-IsScreen (leb (2 ^ 31) n) (print_uint (vga_putchar s 45) (2 ^ 32 - n) 10)
      (print_uint s n 10)
      (print_uint-IsScreen (vga_putchar s 45) (2 ^ 32 - n) 10 (putchar-IsScreen s 45 w))
      (print_uint-IsScreen s n 10 w)

print_word-Returns : (s : Vga) (c n : ℕ) → IsScreen s → Returns (print_word s c n)
unfolding print_word
print_word-Returns s c n w =
    choose-Returns (c == 99) _ _ (some-Returns _ (putchar-IsScreen s (n % 2 ^ 8) w)) (
      choose-Returns (c == 100) _ _ (some-Returns _ (print_int-IsScreen s n w)) (
        choose-Returns (c == 117) _ _ (some-Returns _ (print_uint-IsScreen s n 10 w)) (
          choose-Returns (c == 120) _ _ (some-Returns _ (print_uint-IsScreen s n 16 w))
            none-Returns)))

vga_printf-Returns :
    (s : Vga) (fmt : List ℕ) (args : List Arg) → IsScreen s → Returns (vga_printf s fmt args)
unfolding vga_printf
vga_printf-Returns s [] args w = some-Returns s w
vga_printf-Returns s (c ∷ []) args w =
    choose-Returns (c == 37) _ _ none-Returns (some-Returns _ (putchar-IsScreen s c w))
vga_printf-Returns s (c ∷ d ∷ fmt) [] w =
    choose-Returns (not (c == 37)) _ _
      (vga_printf-Returns (vga_putchar s c) (d ∷ fmt) [] (putchar-IsScreen s c w))
      (choose-Returns (takes_word d || d == 115) _ _ none-Returns
        (vga_printf-Returns (vga_putchar s d) fmt [] (putchar-IsScreen s d w)))
vga_printf-Returns s (c ∷ d ∷ fmt) (Arg.text str ∷ args) w =
    choose-Returns (not (c == 37)) _ _
      (vga_printf-Returns (vga_putchar s c) (d ∷ fmt) (Arg.text str ∷ args)
        (putchar-IsScreen s c w))
      (choose-Returns (d == 115) _ _
        (bind-Returns (vga_puts s str) (λ t. vga_printf t fmt args) (vga_puts-Returns s str w)
          (λ t. vga_printf-Returns t fmt args))
        (choose-Returns (takes_word d) _ _ none-Returns (
          vga_printf-Returns (vga_putchar s d) fmt (Arg.text str ∷ args) (putchar-IsScreen s d w))))
vga_printf-Returns s (c ∷ d ∷ fmt) (Arg.word n ∷ args) w =
    choose-Returns (not (c == 37)) _ _
      (vga_printf-Returns (vga_putchar s c) (d ∷ fmt) (Arg.word n ∷ args) (putchar-IsScreen s c w))
      (choose-Returns (takes_word d) _ _
        (bind-Returns (print_word s d n) (λ t. vga_printf t fmt args) (print_word-Returns s d n w)
          (λ t. vga_printf-Returns t fmt args))
        (choose-Returns (d == 115) _ _ none-Returns
          (vga_printf-Returns (vga_putchar s d) fmt (Arg.word n ∷ args) (putchar-IsScreen s d w))))

put_cell-IsScreen : (s : Vga) (line col c : ℕ) → IsScreen s → IsScreen (put_cell s line col c)
put_cell-IsScreen s line col c w =
    choose-IsScreen (leb s.first_line line && leb line (last_line s)) _ s w w

draw_columns-IsScreen :
    (n c : ℕ) (s : Vga) (top end col width : ℕ)
    → IsScreen s
    → IsScreen (draw_columns n c s top end col width)
unfolding draw_columns
draw_columns-IsScreen zero c s top end col width w = w
draw_columns-IsScreen (suc n) c s top end col width w =
    let t = put_cell s top (col + c) (corner 0xC9 0xBB c width) in
    let v : IsScreen t = put_cell-IsScreen s top (col + c) (corner 0xC9 0xBB c width) w in
    choose-IsScreen (leb vga_cols (col + c)) s _ w (
      draw_columns-IsScreen n (c + 1)
        (if end == 0 then t else put_cell t (end - 1) (col + c) (corner 0xC8 0xBC c width)) top end
        col width
        (choose-IsScreen (end == 0) t _ v
          (put_cell-IsScreen t (end - 1) (col + c) (corner 0xC8 0xBC c width) v)))

draw_rows-IsScreen :
    (n line : ℕ) (s : Vga) (col width : ℕ) → IsScreen s → IsScreen (draw_rows n line s col width)
unfolding draw_rows
draw_rows-IsScreen zero line s col width w = w
draw_rows-IsScreen (suc n) line s col width w =
    let t = if ltb col vga_cols then put_cell s line col 0xBA else s in
    let v : IsScreen t =
      choose-IsScreen (ltb col vga_cols) (put_cell s line col 0xBA) s
        (put_cell-IsScreen s line col 0xBA w) w in
    draw_rows-IsScreen n (line + 1) _ col width (
      choose-IsScreen (ltb 0 (col + width) && leb (col + width) vga_cols)
        (put_cell t line (col + width - 1) 0xBA) t
        (put_cell-IsScreen t line (col + width - 1) 0xBA v) v)

extended-IsScreen : (s t : Vga) (line : ℕ) → IsScreen s → IsExtended s t line → IsScreen t
extended-IsScreen s t line w e = record {
  ring = record {
    some_line = omega (arith, w.ring.some_line, e.more);
    in_ring = e.most;
    not_before = omega (arith, w.ring.not_before, e.first, e.cursor);
    not_after = omega (arith, w.ring.not_after, e.more, e.first, e.cursor);
  };
  column = omega (arith, w.column, e.col);
  view = record {
    kept = omega (arith, w.view.kept, e.first, e.top);
    full = omega (arith, w.view.full, e.first, e.more, e.top);
  };
}

-- A box within the view drops no line.
box_line-IsScreen :
    (s : Vga) (end : ℕ)
    → s.view_top < end
    → end ≤ s.view_top + vga_rows
    → IsScreen s
    → IsScreen (ensure_line_exists s (end - 1))
box_line-IsScreen s end lo hi w = extended-IsScreen s _ (end - 1) w (
    ensure_line_exists-IsExtended s (end - 1) w.ring.some_line w.ring.in_ring
      (omega (arith, lo, w.view.kept)) (omega (arith, lo, hi, w.view.full, w.ring.in_ring)))

vga_draw_box-IsScreen :
    (s : Vga) (row col height width color : ℕ)
    → 0 < height
    → row + height ≤ vga_rows
    → IsScreen s
    → IsScreen (vga_draw_box s row col height width color)
unfolding vga_draw_box
vga_draw_box-IsScreen s row col height width color some_row fits w =
    let top = s.view_top + row in
    let end = top + height in
    let t = if end == 0 then s else ensure_line_exists s (end - 1) in
    let v : IsScreen t =
      choose-IsScreen (end == 0) s (ensure_line_exists s (end - 1)) w
        (box_line-IsScreen s end (omega (arith, some_row)) (omega (arith, fits)) w) in
    draw_rows-IsScreen (height - 2) (top + 1) _ col width (
      draw_columns-IsScreen width 0 (record t { cur_attr = vga_attr color vga_black }) top end col
        width v)

-- A call of the driver that returns; a box is one within the screen.
pub data Step (s : Vga) : Vga → Type 0 where
  starts : Step s (vga_init s)
  clears : (bg : ℕ) → Step s (vga_clear s bg)
  colours : (fg bg : ℕ) → Step s (vga_set_color s fg bg)
  puts_char : (c : ℕ) → Step s (vga_putchar s c)
  puts : (str : List ℕ) (t : Vga) → vga_puts s str ≡ some t → Step s t
  puts_in_color :
      (str : List ℕ) (fg bg : ℕ) (t : Vga) → vga_puts_color s str fg bg ≡ some t → Step s t
  prints : (fmt : List ℕ) (args : List Arg) (t : Vga) → vga_printf s fmt args ≡ some t → Step s t
  moves : (row col : ℤ) → Step s (vga_set_cursor s row col)
  scrolls : (direction : ℤ) → Step s (vga_scroll_page s direction)
  draws :
      (row col height width color : ℕ)
      → 0 < height
      → row + height ≤ vga_rows
      → Step s (vga_draw_box s row col height width color)

pub data Steps : Vga → Vga → Type 0 where
  done : (s : Vga) → Steps s s
  then : (s t u : Vga) → Step s t → Steps t u → Steps s u

Step-IsScreen : (s t : Vga) → IsScreen s → Step s t → IsScreen t
Step-IsScreen s t w Step.starts = vga_init-IsScreen s
Step-IsScreen s t w (Step.clears bg) = vga_clear-IsScreen s bg
Step-IsScreen s t w (Step.colours fg bg) = w
Step-IsScreen s t w (Step.puts_char c) = putchar-IsScreen s c w
Step-IsScreen s t w (Step.puts str _ h) = vga_puts-Returns s str w t h
Step-IsScreen s t w (Step.puts_in_color str fg bg _ h) = vga_puts_color-Returns s str fg bg w t h
Step-IsScreen s t w (Step.prints fmt args _ h) = vga_printf-Returns s fmt args w t h
Step-IsScreen s t w (Step.moves row col) = vga_set_cursor-IsScreen s row col w
Step-IsScreen s t w (Step.scrolls direction) = vga_scroll_page-IsScreen s direction w
Step-IsScreen s t w (Step.draws row col height width color p fits) =
    vga_draw_box-IsScreen s row col height width color p fits w

after-IsScreen : (s t : Vga) → IsScreen s → Steps s t → IsScreen t
after-IsScreen s t w (Steps.done _) = w
after-IsScreen s t w (Steps.then _ u _ step rest) =
    after-IsScreen u t (Step-IsScreen s u w step) rest

-- After `vga_init` and any sequence of calls that return, with the boxes within the screen, the
-- cursor is in one of the at most 200 lines that are kept and in a column, and the view starts at
-- a kept line, at the first one unless a screen of lines follows.
pub vga_init-Steps : (s t : Vga) → Steps (vga_init s) t → IsScreen t
vga_init-Steps s t h = after-IsScreen (vga_init s) t (vga_init-IsScreen s) h

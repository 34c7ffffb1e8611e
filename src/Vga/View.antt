-- ===== src/Vga/View.antt =====
-- What the text memory of the adapter shows after `render_view`.
use seng21213_os.Prelude.{
  ℕ, zero, suc, ◌+◌, ◌-◌, ◌*◌, ◌≤◌, ◌<◌, ◌≡◌, refl, sym, ◌∙◌, ap, ap₂, subst, inl, inr, Bool, true,
  false, ◌&&◌, arith, ltb, leb, ◌==◌, if◌then◌else◌, Bool-cases, update, ==_iff,
}
use seng21213_os.Vga.{
  Vga, vga_rows, vga_cols, shown, cursor_shows, render_cells, render_rows, render_view, put_char,
  ensure_tail_view, vga_putchar,
}
use seng21213_os.Vga.Valid.{IsScreen, following_tail, put_char-following_tail}

render_cells_lem :
    (n c r : ℕ) (s : Vga) (screen : ℕ → ℕ) (i : ℕ)
    → render_cells n c r s screen i ≡ (
        if leb (r * vga_cols + c) i && ltb i (r * vga_cols + c + n)
        then shown s (s.view_top + r) (i - r * vga_cols)
        else screen i)
unfolding render_cells
render_cells_lem zero c r s screen i = ground arith
render_cells_lem (suc n) c r s screen i =
    let rest =
      render_cells_lem n (c + 1) r s (update screen (r * vga_cols + c) (shown s (s.view_top + r) c))
        i in
    rest ∙ elim (Bool-cases (r * vga_cols + c == i)) [
      | inl t ↦
          let e : c ≡ i - r * vga_cols = ground (arith, t) in
          ground (arith, t, ap (shown s (s.view_top + r)) e)
      | inr f ↦ ground (arith, f)
    ]

render_rows_lem :
    (n r : ℕ) (s : Vga) (screen : ℕ → ℕ) (k c : ℕ)
    → c < vga_cols
    → render_rows n r s screen (k * vga_cols + c)
      ≡ (if leb r k && ltb k (r + n) then shown s (s.view_top + k) c else screen (k * vga_cols + c))
unfolding render_rows
render_rows_lem zero r s screen k c l = ground arith
render_rows_lem (suc n) r s screen k c l =
    let rest = render_rows_lem n (r + 1) s (render_cells vga_cols 0 r s screen) k c l in
    let row = render_cells_lem vga_cols 0 r s screen (k * vga_cols + c) in
    rest ∙ elim (Bool-cases (r == k)) [
      | inl t ↦
          let e : r ≡ k = (==_iff _ _).0 t in
          let inside : (leb (r * vga_cols + 0) (k * vga_cols + c)
                && ltb (k * vga_cols + c) (r * vga_cols + 0 + vga_cols))
              ≡ true =
            ground (arith, e, l) in
          let there : render_cells vga_cols 0 r s screen (k * vga_cols + c)
              ≡ shown s (s.view_top + k) c =
            row ∙ rw inside (ap₂ (shown s) (ap (λ j. s.view_top + j) e) (omega (arith, e))) in
          ground (arith, t, there)
      | inr f ↦
          let outside : (leb (r * vga_cols + 0) (k * vga_cols + c)
                && ltb (k * vga_cols + c) (r * vga_cols + 0 + vga_cols))
              ≡ false =
            ground (arith, f, l) in
          let there : render_cells vga_cols 0 r s screen (k * vga_cols + c)
              ≡ screen (k * vga_cols + c) =
            row ∙ rw outside refl in
          ground (arith, f, there)
    ]

-- The screen is the view of the kept lines, and the registers put the cursor in its place or turn
-- it off.
pub record Shows (s : Vga) : Type 0 where
  pub cells :
      (r c : ℕ)
      → r < vga_rows
      → c < vga_cols
      → s.screen (r * vga_cols + c) ≡ shown s (s.view_top + r) c
  pub cursor_on :
      cursor_shows s ≡ true
      → (s.crtc 0x0A ≡ 0x0E)
        × (s.crtc 0x0E * 256 + s.crtc 0x0F ≡ (s.cursor_line - s.view_top) * vga_cols + s.cursor_col)
  pub cursor_off : cursor_shows s ≡ false → s.crtc 0x0A ≡ 0x20

render_view-Shows : (s : Vga) → s.cursor_col < vga_cols → Shows (render_view s)
render_view-Shows s l = record {
  cells = λ r c hr hc.
      let inside : (leb 0 r && ltb r (0 + vga_rows)) ≡ true = ground (arith, hr) in
      render_rows_lem vga_rows 0 s s.screen r c hc ∙ rw inside refl;
  cursor_on = λ on.
      let row : s.cursor_line - s.view_top < vga_rows = ground (arith, on) in
      rw on (refl, omega (arith, l, row));
  cursor_off = λ off. rw off refl;
}

and_true : (a b c : Bool) → a ≡ true → (b && c) ≡ true → (a && b && c) ≡ true
and_true a b c g h = rw g h

if_true : (b : Bool) (s t : Vga) → b ≡ true → (if b then s else t) ≡ s
if_true b s t h = rw h refl

tail_shows :
    (line first : ℕ)
    → first ≤ line
    → (leb (if ltb line (first + (vga_rows - 1)) then first else line - (vga_rows - 1)) line
        && ltb
            (line - (if ltb line (first + (vga_rows - 1)) then first else line - (vga_rows - 1)))
            vga_rows)
      ≡ true
tail_shows line first h = ground (arith, h)

-- The view ends with the line of the cursor, unless there are fewer lines up to it than rows: then
-- it starts with the first line.
pub data EndsWithCursor (s : Vga) : Type 0 where
  full : s.view_top + (vga_rows - 1) ≡ s.cursor_line → EndsWithCursor s
  short :
      s.view_top ≡ s.first_line → s.cursor_line < s.first_line + (vga_rows - 1) → EndsWithCursor s

ensure_tail_view-EndsWithCursor : (s : Vga) → EndsWithCursor (ensure_tail_view s)
ensure_tail_view-EndsWithCursor s =
    elim (Bool-cases (ltb s.cursor_line (s.first_line + (vga_rows - 1)))) [
      | inl t ↦ EndsWithCursor.short (rw t refl) (ground (arith, t))
      | inr f ↦ EndsWithCursor.full (ground (arith, f))
    ]

render_view-EndsWithCursor : (s : Vga) → EndsWithCursor s → EndsWithCursor (render_view s)
render_view-EndsWithCursor s (EndsWithCursor.full h) = EndsWithCursor.full h
render_view-EndsWithCursor s (EndsWithCursor.short h l) = EndsWithCursor.short h l

-- With the cursor and the view among the kept lines, after a character the screen shows the view,
-- and the cursor is on and in its place. The view ends with the line of the cursor, or starts with
-- the first line when there are fewer lines up to the cursor than rows.
pub vga_putchar-Shows :
    (s : Vga) (c : ℕ)
    → IsScreen s
    → Shows (vga_putchar s c)
      × (cursor_shows (vga_putchar s c) ≡ true)
      × EndsWithCursor (vga_putchar s c)
unfolding vga_putchar
vga_putchar-Shows s c w =
    let (v, f) = put_char-following_tail s c w in
    let u = put_char (following_tail s) c in
    let e : vga_putchar s c ≡ render_view (ensure_tail_view u) =
      ap render_view (if_true _ (ensure_tail_view u) u f) in
    let on : cursor_shows (ensure_tail_view u) ≡ true =
      and_true _ _ _ f (tail_shows u.cursor_line u.first_line v.ring.not_before) in
    subst (λ t. Shows t × (cursor_shows t ≡ true) × EndsWithCursor t) (sym e)
      (
        render_view-Shows (ensure_tail_view u) v.column,
        on,
        render_view-EndsWithCursor (ensure_tail_view u) (ensure_tail_view-EndsWithCursor u),
      )

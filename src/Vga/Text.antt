-- ===== src/Vga/Text.antt =====
-- Typing at the end of the text: the character goes to its place, and the other lines that are kept
-- stay, though all lines share a ring of 200.
use seng21213_os.Prelude.{
  ℕ, zero, suc, ◌+◌, ◌*◌, ◌%◌, ◌≤◌, ◌<◌, ◌≡◌, refl, sym, ◌∙◌, ap, ◌≢◌, ◌⊎◌, inl, inr, Bool, true,
  false, ◌&&◌, arith, ltb, leb, ◌==◌, if◌then◌else◌, Bool-cases, update, update_self, update_ne,
  ==_iff,
}
use seng21213_os.Vga.{
  Vga, vga_cols, scrollback_lines, line_slot, cell, fill_cells, fill_line, ensure_tail_view,
  new_line, vga_write_current, put_plain,
}
use seng21213_os.Vga.Valid.{IsScreen}

-- The text of a line.
abbrev pub text : Vga → ℕ → ℕ → ℕ
text s line c = s.text_buffer (line_slot line) c

slots_apart : (a b : ℕ) → a < b → b < a + 200 → a % 200 ≢ b % 200
slots_apart a b l h e = omega (arith, l, h, e)

fill_cells_lem :
    (n c v : ℕ) (row : ℕ → ℕ) (k : ℕ)
    → fill_cells n c v row k ≡ (if leb c k && ltb k (c + n) then v else row k)
unfolding fill_cells
fill_cells_lem zero c v row k = ground arith
fill_cells_lem (suc n) c v row k = ground (arith, fill_cells_lem n (c + 1) v (update row c v) k)

-- What a new line leaves when the cursor is in the last line.
record Started (s t : Vga) : Type 0 where
  line : t.cursor_line ≡ s.cursor_line + 1
  column : t.cursor_col ≡ 0
  at_end : t.cursor_line + 1 ≡ t.first_line + t.line_count
  size : t.line_count ≤ scrollback_lines
  first : t.first_line ≤ s.cursor_line
  blank : (k : ℕ) → k < vga_cols → text t (s.cursor_line + 1) k ≡ cell s.cur_attr 32
  kept : (line k : ℕ) → t.first_line ≤ line → line ≤ s.cursor_line → text t line k ≡ text s line k

text-fill_line :
    (s : Vga) (line attr k : ℕ) → k < vga_cols → text (fill_line s line attr) line k ≡ cell attr 32
text-fill_line s line attr k h =
    let row = fill_cells vga_cols 0 (cell attr 32) (s.text_buffer (line_slot line)) in
    let inside : (leb 0 k && ltb k (0 + vga_cols)) ≡ true = ground (arith, h) in
    ap (λ r. r k) (update_self s.text_buffer (line_slot line) row)
    ∙ fill_cells_lem vga_cols 0 (cell attr 32) (s.text_buffer (line_slot line)) k
    ∙ rw inside refl

-- The cursor in a new line, with other bounds of the ring.
abbrev filled : Vga → ℕ → ℕ → Vga
filled s first count =
    fill_line
      (record s {
        cursor_line = s.cursor_line + 1;
        cursor_col = 0;
        line_count = count;
        first_line = first;
      })
      (s.cursor_line + 1) s.cur_attr

filled-Started :
    (s : Vga) (first count : ℕ)
    → 1 < count
    → count ≤ scrollback_lines
    → s.cursor_line + 2 ≡ first + count
    → Started s (filled s first count)
filled-Started s first count two c e = record {
  first = omega (arith, e, two);
  line = refl;
  column = refl;
  at_end = omega (arith, e);
  size = c;
  blank = λ k h. text-fill_line s (s.cursor_line + 1) s.cur_attr k h;
  kept = λ line k lo hi.
      ap (λ r. r k)
        (update_ne s.text_buffer (line_slot (s.cursor_line + 1)) (line_slot line) _ (λ h.
          slots_apart line (s.cursor_line + 1) (omega (arith, hi)) (omega (arith, lo, e, c))
            (sym h)));
}

choose-Started :
    (b : Bool) (s t : Vga) → Started s t → Started s (if b then ensure_tail_view t else t)
choose-Started true s t w = record {
  line = w.line;
  column = w.column;
  at_end = w.at_end;
  size = w.size;
  first = w.first;
  blank = w.blank;
  kept = w.kept;
}
choose-Started false s t w = w

new_line-Started :
    (s : Vga)
    → 0 < s.line_count
    → s.line_count ≤ scrollback_lines
    → s.cursor_line + 1 ≡ s.first_line + s.line_count
    → Started s (new_line s)
unfolding new_line
new_line-Started s p c e = elim (Bool-cases (ltb s.line_count scrollback_lines)) [
  | inl t ↦
      rw (new_line, t)
        (choose-Started s.follow_tail s (filled s s.first_line (s.line_count + 1)) (
          filled-Started s s.first_line (s.line_count + 1) (omega (arith, p)) (ground (arith, t))
            (omega (arith, e))))
  | inr n ↦
      rw (new_line, n)
        (choose-Started s.follow_tail s (filled s (s.first_line + 1) s.line_count) (
          filled-Started s (s.first_line + 1) s.line_count (ground (arith, n)) c
            (omega (arith, e))))
]

-- What typing a character leaves.
pub record Typed (s : Vga) (c : ℕ) (t : Vga) : Type 0 where
  pub written : text t s.cursor_line s.cursor_col ≡ cell s.cur_attr c
  pub kept :
      (line k : ℕ)
      → t.first_line ≤ line
      → line ≤ s.cursor_line
      → k < vga_cols
      → (line ≢ s.cursor_line) ⊎ (k ≢ s.cursor_col)
      → text t line k ≡ text s line k
  pub at_end : t.cursor_line + 1 ≡ t.first_line + t.line_count
  pub moves :
      (t.cursor_line * vga_cols + t.cursor_col ≡ s.cursor_line * vga_cols + s.cursor_col + 1)
      × (t.cursor_col < vga_cols)

text-write :
    (s : Vga) (c : ℕ) → text (vga_write_current s c) s.cursor_line s.cursor_col ≡ cell s.cur_attr c
unfolding vga_write_current
text-write s c =
    ap (λ r. r s.cursor_col) (update_self s.text_buffer (line_slot s.cursor_line) _)
    ∙ update_self (s.text_buffer (line_slot s.cursor_line)) s.cursor_col (cell s.cur_attr c)

text-write_other :
    (s : Vga) (c line k : ℕ)
    → line ≤ s.cursor_line
    → s.cursor_line < line + 200
    → (line ≢ s.cursor_line) ⊎ (k ≢ s.cursor_col)
    → text (vga_write_current s c) line k ≡ text s line k
unfolding vga_write_current
text-write_other s c line k lo hi (inl h) =
    ap (λ r. r k)
      (update_ne s.text_buffer (line_slot s.cursor_line) (line_slot line) _
        (λ e. slots_apart line s.cursor_line (omega (arith, lo, h)) hi (sym e)))
text-write_other s c line k lo hi (inr h) =
    elim (Bool-cases (line_slot s.cursor_line == line_slot line)) [
      | inl t ↦
          let e : line_slot s.cursor_line ≡ line_slot line = (==_iff _ _).0 t in
          rw t (
            update_ne (s.text_buffer (line_slot s.cursor_line)) s.cursor_col k _ (λ f. h (sym f))
            ∙ ap (λ i. s.text_buffer i k) e)
      | inr f ↦ rw f refl
    ]

-- Where the cursor is in the last line, a character goes to its place there; every other cell of
-- the lines that stay is as it was, although the lines share a ring; the cursor goes on by one
-- cell, to a new line at the end of one, and is in the last line again.
pub put_plain-Typed :
    (s : Vga) (c : ℕ)
    → IsScreen s
    → s.cursor_line + 1 ≡ s.first_line + s.line_count
    → Typed s c (put_plain s c)
unfolding put_plain vga_write_current
put_plain-Typed s c w e =
    let room : leb vga_cols s.cursor_col ≡ false = ground (arith, w.column) in
    let t = record (vga_write_current s c) { cursor_col = s.cursor_col + 1 } in
    let u : Started t (new_line t) = new_line-Started t w.ring.some_line w.ring.in_ring e in
    elim (Bool-cases (leb vga_cols (s.cursor_col + 1))) [
      | inl full ↦
          let last : s.cursor_col + 1 ≡ vga_cols = ground (arith, full, w.column) in
          rw (put_plain, room, full)
            (record {
              written = u.kept s.cursor_line s.cursor_col u.first (omega arith) ∙ text-write s c;
              kept = λ line k lo hi l other.
                  u.kept line k lo hi
                  ∙ text-write_other s c line k hi (omega (arith, lo, u.at_end, u.line, u.size))
                      other;
              at_end = u.at_end;
              moves = (omega (arith, u.line, u.column, last), omega (arith, u.column));
            })
      | inr n ↦
          rw (put_plain, room, n)
            (record {
              written = text-write s c;
              kept = λ line k lo hi l other.
                  text-write_other s c line k hi (omega (arith, lo, e, w.ring.in_ring)) other;
              at_end = e;
              moves = (omega arith, ground (arith, n));
            })
    ]

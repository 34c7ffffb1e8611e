-- ===== src/Keyboard/Bounds.antt =====
-- The keys of `kb_readline` of kernel/keyboard.c write in its buffer only.
use seng21213_os.Prelude.{
  ℕ, zero, suc, ◌+◌, ◌-◌, ◌≤◌, ◌<◌, ◌≡◌, refl, ◌∙◌, inl, inr, Bool, true, false, not, ◌&&◌, ◌||◌,
  arith, List, [], ◌∷◌, ltb, leb, ◌==◌, if◌then◌else◌, Bool-cases, Option-cases, update, update_ne,
}
use seng21213_os.Vga.{Vga}
use seng21213_os.Vga.Ansi.{vga_puts}
use seng21213_os.Vga.Cursor.{ℤ, vga_scroll_page}
use seng21213_os.Keyboard.{
  Keyboard, kb_key_up, kb_key_down, kb_key_left, kb_key_right, kb_key_pgup, kb_key_pgdn, k_strlen,
  history_get,
}
use seng21213_os.Keyboard.Line.{
  Reader, Round, erase_input, copy_line, copy_history_to_buffer, string_in, show_buffer, recall,
  key_up, key_down, key_enter, key_backspace, key_plain, key,
}

-- The place is in the buffer, and what follows the buffer is as it was.
pub record IsWithin (orig : ℕ → ℕ) (len : ℕ) (s : Reader) : Type 0 where
  pub place : s.i < len
  pub beyond : (j : ℕ) → len ≤ j → s.buf j ≡ orig j

pub data Safe (orig : ℕ → ℕ) (len : ℕ) : Round → Type 0 where
  goes_on : {s : Reader} → IsWithin orig len s → Safe orig len (Round.goes_on s)
  breaks : {s : Reader} → IsWithin orig len s → Safe orig len (Round.breaks s)
  hangs : Safe orig len Round.hangs

copy_line_beyond :
    (n i : ℕ) (buf : ℕ → ℕ) (src : List ℕ) (j : ℕ) → i + n ≤ j → copy_line n i buf src j ≡ buf j
unfolding copy_line
copy_line_beyond zero i buf src j h = refl
copy_line_beyond (suc n) i buf [] j h = refl
copy_line_beyond (suc n) i buf (c ∷ src) j h =
    copy_line_beyond n (i + 1) (update buf i c) src j (omega arith)
    ∙ update_ne buf i j c (λ e. omega (arith, e))

choose-Safe :
    (orig : ℕ → ℕ) (len : ℕ) (b : Bool) (x y : Round)
    → Safe orig len x
    → Safe orig len y
    → Safe orig len (if b then x else y)
choose-Safe orig len true x y v w = v
choose-Safe orig len false x y v w = w

show_buffer-Safe :
    (orig : ℕ → ℕ) (len : ℕ) (s : Reader) → IsWithin orig len s → Safe orig len (show_buffer s len)
show_buffer-Safe orig len s w = elim (Option-cases (vga_puts s.vga (string_in len s.buf 0))) [
  | inl e ↦ rw (show_buffer, e) Safe.hangs
  | inr (v, e) ↦ rw (show_buffer, e) (Safe.goes_on (record { place = w.place; beyond = w.beyond }))
]

-- A line that is copied is cut to the buffer.
copy_history-IsWithin :
    (orig : ℕ → ℕ) (len : ℕ) (k : Keyboard) (v : Vga) (buf : ℕ → ℕ) (pos : ℕ)
    → 0 < len
    → ((j : ℕ) → len ≤ j → buf j ≡ orig j)
    → IsWithin orig len (record {
      keyboard = k;
      vga = v;
      buf = (copy_history_to_buffer k buf len pos).0;
      i = (copy_history_to_buffer k buf len pos).1;
      history_pos = pos;
    })
unfolding copy_history_to_buffer
copy_history-IsWithin orig len k v buf pos some_room same =
    elim (Option-cases (history_get k pos)) [
      | inl e ↦ rw (copy_history_to_buffer, e) (record { place = some_room; beyond = same })
      | inr (src, e) ↦
          let n = if leb len (k_strlen src) then len - 1 else k_strlen src in
          let cut : n < len = ground (arith, some_room) in
          rw (copy_history_to_buffer, e)
            (record {
              place = cut;
              beyond = λ j h.
                  update_ne (copy_line n 0 buf src) n j 0 (λ f. omega (arith, f, h, cut))
                  ∙ copy_line_beyond n 0 buf src j (omega (arith, h, cut))
                  ∙ same j h;
            })
    ]

recall-Safe :
    (orig : ℕ → ℕ) (len : ℕ) (s : Reader) (pos : ℕ)
    → IsWithin orig len s
    → Safe orig len (recall s len pos)
unfolding recall
recall-Safe orig len s pos w = show_buffer-Safe orig len _ (
    copy_history-IsWithin orig len s.keyboard (erase_input s.i s.vga) s.buf pos
      (omega (arith, w.place)) w.beyond)

-- A byte written in the buffer.
pub stored :
    (orig : ℕ → ℕ) (len i c : ℕ) (buf : ℕ → ℕ)
    → i < len
    → ((j : ℕ) → len ≤ j → buf j ≡ orig j)
    → (j : ℕ) → len ≤ j
    → update buf i c j ≡ orig j
stored orig len i c buf l same j h = update_ne buf i j c (λ e. omega (arith, e, l, h)) ∙ same j h

key_down-Safe :
    (orig : ℕ → ℕ) (len : ℕ) (s : Reader) → IsWithin orig len s → Safe orig len (key_down s len)
unfolding key_down
key_down-Safe orig len s w =
    choose-Safe orig len (not (ltb s.history_pos s.keyboard.history_count)) _ _ (Safe.goes_on w) (
      choose-Safe orig len (s.history_pos + 1 == s.keyboard.history_count) _ _
        (show_buffer-Safe orig len _ (record {
          place = omega (arith, w.place);
          beyond = stored orig len 0 0 s.buf (omega (arith, w.place)) w.beyond;
        }))
        (recall-Safe orig len s (s.history_pos + 1) w))

key_backspace-Safe :
    (orig : ℕ → ℕ) (len : ℕ) (s : Reader) → IsWithin orig len s → Safe orig len (key_backspace s)
unfolding key_backspace
key_backspace-Safe orig len s w = elim (Bool-cases (ltb 0 s.i)) [
  | inl t ↦ rw t (
      Safe.goes_on (record {
        place = omega (arith, w.place);
        beyond = stored orig len (s.i - 1) 0 s.buf (omega (arith, w.place)) w.beyond;
      }))
  | inr f ↦ rw f (Safe.goes_on w)
]

key_plain-Safe :
    (orig : ℕ → ℕ) (len : ℕ) (s : Reader) (c : ℕ)
    → s.i + 1 < len
    → IsWithin orig len s
    → Safe orig len (key_plain s c)
unfolding key_plain
key_plain-Safe orig len s c room w = Safe.goes_on (record {
  place = room;
  beyond =
      stored orig len (s.i + 1) 0 (update s.buf s.i c) room
        (stored orig len s.i c s.buf w.place w.beyond);
})

pub key-Safe :
    (orig : ℕ → ℕ) (len : ℕ) (s : Reader) (c : ℕ)
    → s.i + 1 < len
    → IsWithin orig len s
    → Safe orig len (key s len c)
unfolding key key_up key_enter
key-Safe orig len s c room w =
    let kept : (v : Vga) → IsWithin orig len (record s { vga = v }) =
      λ v. record { place = w.place; beyond = w.beyond } in
    choose-Safe orig len (c == kb_key_up) _ _
      (choose-Safe orig len (ltb 0 s.keyboard.history_count && ltb 0 s.history_pos) _ _
        (recall-Safe orig len s (s.history_pos - 1) w) (Safe.goes_on w))
      (choose-Safe orig len (c == kb_key_down) _ _ (key_down-Safe orig len s w) (
        choose-Safe orig len (c == kb_key_pgup) _ _
          (Safe.goes_on (kept (vga_scroll_page s.vga (ℤ.negsuc 0))))
          (choose-Safe orig len (c == kb_key_pgdn) _ _
            (Safe.goes_on (kept (vga_scroll_page s.vga (ℤ.pos 1))))
            (choose-Safe orig len (c == kb_key_left || c == kb_key_right) _ _ (Safe.goes_on w) (
              choose-Safe orig len (c == 10 || c == 13) _ _
                (Safe.breaks (record {
                  place = w.place;
                  beyond = stored orig len s.i 0 s.buf w.place w.beyond;
                }))
                (choose-Safe orig len (c == 8) _ _ (key_backspace-Safe orig len s w) (
                  choose-Safe orig len (ltb c 32) _ _ (Safe.goes_on w)
                    (key_plain-Safe orig len s c room w))))))))

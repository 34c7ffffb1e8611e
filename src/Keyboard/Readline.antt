-- ===== src/Keyboard/Readline.antt =====
-- `kb_readline` of kernel/keyboard.c stays in its buffer and ends the string in it.
use seng21213_os.Prelude.{
  ℕ, zero, suc, ◌+◌, ◌≤◌, ◌<◌, ◌≡◌, refl, ◌⊎◌, inl, inr, Option, none, some, arith, List, [], ◌∷◌,
  leb, Bool-cases, Option-cases, update, update_self, subst,
}
use seng21213_os.Vga.{Vga}
use seng21213_os.Keyboard.{Keyboard, scan, kb_getchar}
use seng21213_os.Keyboard.Line.{Reader, Round, Reading, key, readline_from, kb_readline}
use seng21213_os.Vga.Ansi.{length}
use seng21213_os.Keyboard.Bounds.{IsWithin, Safe, stored, key-Safe}

-- What `kb_readline` leaves when it returns.
pub data Kept (orig : ℕ → ℕ) (len : ℕ) : Reading → Type 0 where
  returned :
      (s : Reader) (codes : List ℕ)
      → s.i < len
      → s.buf s.i ≡ 0
      → ((j : ℕ) → len ≤ j → s.buf j ≡ orig j)
      → Kept orig len (Reading.returns s codes)
  waiting : (s : Reader) → ((j : ℕ) → len ≤ j → s.buf j ≡ orig j) → Kept orig len (Reading.waits s)
  never : Kept orig len Reading.never

ended-Kept :
    (orig : ℕ → ℕ) (len : ℕ) (s : Reader) (codes : List ℕ)
    → IsWithin orig len s
    → Kept orig len (Reading.returns (record s { buf = update s.buf s.i 0 }) codes)
ended-Kept orig len s codes w =
    Kept.returned _ codes w.place (update_self s.buf s.i 0)
      (stored orig len s.i 0 s.buf w.place w.beyond)

got_length : Option (ℕ × List ℕ) → ℕ
got_length none = 0
got_length (some (c, rest)) = suc (length rest)

kb_getchar-length :
    (k : Keyboard) (codes : List ℕ) → got_length (kb_getchar k codes).1 ≤ length codes
unfolding kb_getchar length got_length
kb_getchar-length k [] = omega arith
kb_getchar-length k (sc ∷ codes) = elim (Option-cases (scan k sc).1) [
  | inl e ↦
      let rest = kb_getchar-length (scan k sc).0 codes in rw (kb_getchar, e) (omega (arith, rest))
  | inr (c, e) ↦ rw (kb_getchar, e) (omega arith)
]

Round-cases :
    (r : Round)
    → ((s : Reader) × (r ≡ Round.goes_on s))
      ⊎ ((s : Reader) × (r ≡ Round.breaks s))
      ⊎ (r ≡ Round.hangs)
Round-cases (Round.goes_on s) = inl (s, refl)
Round-cases (Round.breaks s) = inr (inl (s, refl))
Round-cases Round.hangs = inr (inr refl)

goes_on-IsWithin :
    (orig : ℕ → ℕ) (len : ℕ) (s : Reader) → Safe orig len (Round.goes_on s) → IsWithin orig len s
goes_on-IsWithin orig len s (Safe.goes_on w) = w

breaks-IsWithin :
    (orig : ℕ → ℕ) (len : ℕ) (s : Reader) → Safe orig len (Round.breaks s) → IsWithin orig len s
breaks-IsWithin orig len s (Safe.breaks w) = w

readline_from-Kept :
    (f : ℕ) (orig : ℕ → ℕ) (s : Reader) (len : ℕ) (codes : List ℕ)
    → IsWithin orig len s
    → Kept orig len (readline_from f s len codes)
unfolding readline_from
readline_from-Kept zero orig s len codes w = Kept.waiting s w.beyond
readline_from-Kept (suc f) orig s len codes w = elim (Bool-cases (leb len (s.i + 1))) [
  | inl full ↦ rw (readline_from, full) (ended-Kept orig len s codes w)
  | inr room ↦ elim (Option-cases (kb_getchar s.keyboard codes).1) [
    | inl e ↦ rw (readline_from, room, e) (Kept.waiting _ w.beyond)
    | inr ((c, rest), e) ↦
        let t = record s { keyboard = (kb_getchar s.keyboard codes).0 } in
        let safe : Safe orig len (key t len c) =
          key-Safe orig len t c (ground (arith, room))
            (record { place = w.place; beyond = w.beyond }) in
        elim (Round-cases (key t len c)) [
          | inl (u, r) ↦
              rw (readline_from, room, e, r)
                (readline_from-Kept f orig u len rest
                  (goes_on-IsWithin orig len u (subst (Safe orig len) r safe)))
          | inr (inl (u, r)) ↦
              rw (readline_from, room, e, r)
                (ended-Kept orig len u rest
                  (breaks-IsWithin orig len u (subst (Safe orig len) r safe)))
          | inr (inr r) ↦ rw (readline_from, room, e, r) Kept.never
        ]
  ]
]

-- More fuel than there are codes changes nothing.
readline_from_fuel :
    (f g : ℕ) (s : Reader) (len : ℕ) (codes : List ℕ)
    → length codes < f
    → length codes < g
    → readline_from f s len codes ≡ readline_from g s len codes
unfolding readline_from got_length
readline_from_fuel zero g s len codes h l = absurd (omega (arith, h))
readline_from_fuel (suc f) zero s len codes h l = absurd (omega (arith, l))
readline_from_fuel (suc f) (suc g) s len codes h l = elim (Bool-cases (leb len (s.i + 1))) [
  | inl full ↦ rw (readline_from, full) refl
  | inr room ↦ elim (Option-cases (kb_getchar s.keyboard codes).1) [
    | inl e ↦ rw (readline_from, room, e) refl
    | inr ((c, rest), e) ↦
        let t = record s { keyboard = (kb_getchar s.keyboard codes).0 } in
        let shorter : suc (length rest) ≤ length codes =
          subst (λ o. got_length o ≤ length codes) e (kb_getchar-length s.keyboard codes) in
        elim (Round-cases (key t len c)) [
          | inl (u, r) ↦
              rw (readline_from, room, e, r)
                (readline_from_fuel f g u len rest (omega (arith, h, shorter))
                  (omega (arith, l, shorter)))
          | inr (inl (u, r)) ↦ rw (readline_from, room, e, r) refl
          | inr (inr r) ↦ rw (readline_from, room, e, r) refl
        ]
  ]
]

-- With room for a character, `kb_readline` writes nothing after its buffer, whatever keys are
-- pressed; when it returns, the string ends at the place it returns, which is in the buffer. The
-- codes are fuel enough.
pub kb_readline-Kept :
    (k : Keyboard) (v : Vga) (buf : ℕ → ℕ) (len : ℕ) (codes : List ℕ)
    → 0 < len
    → Kept buf len (kb_readline k v buf len codes)
      × ((f : ℕ)
          → length codes < f
          → readline_from f
              (record {
                keyboard = k;
                vga = v;
                buf = update buf 0 0;
                i = 0;
                history_pos = k.history_count;
              })
              len
              codes
            ≡ kb_readline k v buf len codes)
unfolding kb_readline
kb_readline-Kept k v buf len codes h =
    let s : Reader = record {
      keyboard = k;
      vga = v;
      buf = update buf 0 0;
      i = 0;
      history_pos = k.history_count;
    } in
    (
      readline_from-Kept (suc (length codes)) buf s len codes
          (record { place = h; beyond = stored buf len 0 0 buf h (λ j l. refl) }),
      λ f l. readline_from_fuel f (suc (length codes)) s len codes l (omega arith),
    )

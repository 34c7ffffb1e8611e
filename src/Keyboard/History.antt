-- ===== src/Keyboard/History.antt =====
-- The ring of the history as a list of lines, of which it keeps the last twenty.
use seng21213_os.Prelude.{
  ℕ, ◌+◌, ◌-◌, ◌%◌, ◌≤◌, ◌<◌, ◌≡◌, refl, sym, ◌∙◌, ap, ◌≢◌, ◌⊎◌, inl, inr, Bool, true, false, ◌&&◌,
  none, some, arith, List, [], ◌∷◌, ltb, leb, ◌==◌, Bool-cases, update, update_self, update_ne,
  ==_iff, ap₂,
}
use seng21213_os.Keyboard.{
  Keyboard, history_size, push_line, newest, is_empty_line, k_streq, history_add, history_get,
}

pub record IsHistory (s : Keyboard) : Type 0 where
  pub count : s.history_count ≤ history_size
  pub next : s.history_next < history_size

-- The line goes to the end, and the oldest is lost when there are twenty.
pub record Pushed (s t : Keyboard) (line : List ℕ) : Type 0 where
  pub is_history : IsHistory t
  pub last : history_get t (t.history_count - 1) ≡ some line
  pub room :
      s.history_count < history_size
      → (t.history_count ≡ s.history_count + 1)
        × ((p : ℕ) → p < s.history_count → history_get t p ≡ history_get s p)
  pub full :
      s.history_count ≡ history_size
      → (t.history_count ≡ history_size)
        × ((p : ℕ) → p + 1 < history_size → history_get t p ≡ history_get s (p + 1))

get_at :
    (s : Keyboard) (p slot : ℕ)
    → p < s.history_count
    → ((s.history_next + history_size - s.history_count) % history_size + p) % history_size ≡ slot
    → history_get s p ≡ some (s.history slot)
unfolding history_get
get_at s p slot l e =
    let f : leb s.history_count p ≡ false = ground (arith, l) in
    rw (history_get, f) (ap (λ i. some (s.history i)) e)

-- The slot of a place in the list.
abbrev slot : Keyboard → ℕ → ℕ
slot s p = ((s.history_next + history_size - s.history_count) % history_size + p) % history_size

-- With the line in the next slot, and `count` lines.
abbrev pushed : Keyboard → List ℕ → ℕ → Keyboard
pushed s line count = record s {
  history = update s.history s.history_next line;
  history_next = (s.history_next + 1) % history_size;
  history_count = count;
}

pushed_last :
    (s : Keyboard) (line : List ℕ) (count : ℕ)
    → s.history_next < history_size
    → 0 < count
    → count ≤ history_size
    → history_get (pushed s line count) (count - 1) ≡ some line
pushed_last s line count n pos c =
    get_at (pushed s line count) (count - 1) s.history_next (omega arith) (omega arith)
    ∙ ap some (update_self s.history s.history_next line)

pushed_other :
    (s : Keyboard) (line : List ℕ) (count p q : ℕ)
    → p < count
    → q < s.history_count
    → slot (pushed s line count) p ≡ slot s q
    → s.history_next ≢ slot s q
    → history_get (pushed s line count) p ≡ history_get s q
pushed_other s line count p q hp hq e ne =
    get_at (pushed s line count) p (slot s q) hp e
    ∙ ap some (update_ne s.history s.history_next (slot s q) line ne)
    ∙ sym (get_at s q (slot s q) hq refl)

pushed-IsHistory :
    (s : Keyboard) (line : List ℕ) (count : ℕ)
    → count ≤ history_size
    → IsHistory (pushed s line count)
pushed-IsHistory s line count c = record { count = c; next = omega arith }

push_line-Pushed : (s : Keyboard) (line : List ℕ) → IsHistory s → Pushed s (push_line s line) line
push_line-Pushed s line w = elim (Bool-cases (ltb s.history_count history_size)) [
  | inl t ↦
      let small : s.history_count < history_size = ground (arith, t) in
      rw t (record {
        is_history = pushed-IsHistory s line (s.history_count + 1) (omega (arith, small));
        last = pushed_last s line (s.history_count + 1) w.next (omega arith) (omega (arith, small));
        room = λ h. (
          refl,
          λ p l.
              pushed_other s line (s.history_count + 1) p p (omega (arith, l)) l
                (omega (arith, l, small, w.next)) (λ e. omega (arith, e, l, small, w.next)),
        );
        full = λ e. absurd (omega (arith, e, small));
      })
  | inr f ↦
      let all : s.history_count ≡ history_size = ground (arith, f, w.count) in
      rw f (record {
        is_history = pushed-IsHistory s line s.history_count w.count;
        last = pushed_last s line s.history_count w.next (omega (arith, all)) w.count;
        room = λ h. absurd (omega (arith, h, all));
        full = λ e. (
          all,
          λ p l.
              pushed_other s line s.history_count p (p + 1) (omega (arith, l, all))
                (omega (arith, l, all)) (omega (arith, l, all, w.next))
                (λ h. omega (arith, h, l, all, w.next)),
        );
      })
]

and_left : (a b : Bool) → (a && b) ≡ true → a ≡ true
and_left true b h = refl
and_left false b h = cc

and_right : (a b : Bool) → (a && b) ≡ true → b ≡ true
and_right true b h = h
and_right false b h = cc

k_streq_sound : (a b : List ℕ) → k_streq a b ≡ true → a ≡ b
unfolding k_streq
k_streq_sound [] [] h = refl
k_streq_sound [] (d ∷ b) h = cc
k_streq_sound (c ∷ a) [] h = cc
k_streq_sound (c ∷ a) (d ∷ b) h = elim (Bool-cases (c == d)) [
  | inl e ↦ ap₂ ◌∷◌ ((==_iff _ _).0 e) (k_streq_sound a b (rw e at h))
  | inr f ↦ absurd (cc (rw f at h))
]

is_empty_line_no : (s : List ℕ) → is_empty_line s ≡ false → s ≢ []
is_empty_line_no s h e = cc (ap is_empty_line e, h)

some_line : {a b : List ℕ} → some a ≡ some b → a ≡ b
some_line h = cc

no_line : {a : List ℕ} → ¬ (none ≡ some a)
no_line h = cc

is_empty_line_sound : (s : List ℕ) → is_empty_line s ≡ true → s ≡ []
is_empty_line_sound [] h = refl
is_empty_line_sound (c ∷ s) h = cc

newest_at :
    (s : Keyboard)
    → IsHistory s
    → 0 < s.history_count
    → history_get s (s.history_count - 1) ≡ some (newest s)
newest_at s w pos =
    get_at s (s.history_count - 1) ((s.history_next + history_size - 1) % history_size)
      (omega (arith, pos)) (omega (arith, pos, w.count, w.next))

k_streq_refl : (a : List ℕ) → k_streq a a ≡ true
unfolding k_streq
k_streq_refl [] = refl
k_streq_refl (c ∷ a) =
    let e : (c == c) ≡ true = (==_iff _ _).1 refl in rw (k_streq, e) (k_streq_refl a)

-- Before the first line there is none to repeat.
newest_other :
    (s : Keyboard) (line : List ℕ)
    → IsHistory s
    → (ltb 0 s.history_count && k_streq (newest s) line) ≡ false
    → history_get s (s.history_count - 1) ≢ some line
unfolding history_get
newest_other s line w f h = elim (Bool-cases (ltb 0 s.history_count)) [
  | inl t ↦
      let at : some (newest s) ≡ some line = sym (newest_at s w (ground (arith, t))) ∙ h in
      let same : newest s ≡ line = some_line at in
      let yes : k_streq (newest s) line ≡ true =
        ap (k_streq (newest s)) (sym same) ∙ k_streq_refl (newest s) in
      cc (rw (t, yes) at f)
  | inr n ↦
      let past : leb s.history_count (s.history_count - 1) ≡ true = ground (arith, n) in
      no_line (sym (rw (history_get, past) refl) ∙ h)
]

-- An empty line, and one equal to the newest, is left out. Any other line becomes the newest: with
-- fewer than twenty lines the others keep their places, and with twenty they move up by one and
-- the oldest is lost.
pub history_add_cases :
    (s : Keyboard) (line : List ℕ)
    → IsHistory s
    → ((history_add s line ≡ s) × ((line ≡ []) ⊎ (history_get s (s.history_count - 1) ≡ some line)))
      ⊎ ((line ≢ [])
          × (history_get s (s.history_count - 1) ≢ some line)
          × Pushed s (history_add s line) line)
unfolding history_add
history_add_cases s line w = elim (Bool-cases (is_empty_line line)) [
  | inl e ↦ inl (rw (history_add, e) refl, inl (is_empty_line_sound line e))
  | inr more ↦ elim (Bool-cases (ltb 0 s.history_count && k_streq (newest s) line)) [
    | inl t ↦
        let some_line : ltb 0 s.history_count ≡ true = and_left _ _ t in
        let same : newest s ≡ line = k_streq_sound (newest s) line (and_right _ _ t) in
        inl (
          rw (history_add, more, t) refl,
          inr (newest_at s w (ground (arith, some_line)) ∙ ap some same),
        )
    | inr f ↦ inr (
      is_empty_line_no line more,
      newest_other s line w f,
      rw (history_add, more, f) (push_line-Pushed s line w),
    )
  ]
]

-- ===== src/Fs/Path/Fuel.antt =====
-- The loops over the components of a path end: each round leaves a shorter path.
use seng21213_os.Prelude.{
  ℕ, zero, suc, ◌≤◌, ◌<◌, ◌≡◌, refl, ap, ◌⊎◌, inl, inr, false, Option, none, some, [], ◌∷◌, arith,
  ◌==◌, Bool-cases, Option-cases, subst,
}
use seng21213_os.Fs.{Fs, String, fs_name_max, str_len}
use seng21213_os.Fs.Path.{
  slash, skip_slashes, take_part, Component, next_component, starts_at, enter_part, resolve_from,
  resolve_path,
}

skip_slashes-str_len : (p : String) → str_len (skip_slashes p) ≤ str_len p
unfolding skip_slashes str_len
skip_slashes-str_len [] = omega arith
skip_slashes-str_len (c ∷ p) = ground (arith, skip_slashes-str_len p)

abbrev head : String → ℕ
head [] = 0
head (c ∷ s) = c

skip_slashes_first :
    (p : String) (c : ℕ) (s : String) → skip_slashes p ≡ c ∷ s → (c == slash) ≡ false
unfolding skip_slashes
skip_slashes_first [] c s h = cc
skip_slashes_first (d ∷ p) c s h = elim (Bool-cases (d == slash)) [
  | inl t ↦ skip_slashes_first p c s (rw t at h)
  | inr f ↦ let g = ap head (rw f at h) in subst (λ k. (k == slash) ≡ false) g f
]

abbrev left : Option (String × String) → ℕ
left none = 0
left (some (name, rest)) = str_len rest

take_part-str_len : (n : ℕ) (s : String) → left (take_part n s) ≤ str_len s
unfolding take_part str_len
take_part-str_len n [] = omega arith
take_part-str_len zero (c ∷ s) = elim (Bool-cases (c == slash)) [
  | inl t ↦ rw t (omega arith)
  | inr f ↦ rw f (omega arith)
]
take_part-str_len (suc n) (c ∷ s) = elim (Bool-cases (c == slash)) [
  | inl t ↦ rw t (omega arith)
  | inr f ↦ elim (Option-cases (take_part n s)) [
    | inl e ↦ rw (f, e) (omega arith)
    | inr ((part, rest), e) ↦
        let h : str_len rest ≤ str_len s =
          subst (λ o. left o ≤ str_len s) e (take_part-str_len n s) in
        rw (f, e) (omega (arith, h))
  ]
]

pub String-cases : (s : String) → (s ≡ []) ⊎ ((c : ℕ) × (rest : String) × (s ≡ c ∷ rest))
String-cases [] = inl refl
String-cases (c ∷ s) = inr (c, s, refl)

-- What a component takes off the path, with the slash or the character that begins it.
abbrev pub after : Component → ℕ
after Component.finished = 0
after Component.too_long = 0
after (Component.part name rest) = suc (str_len rest)

-- The first character is no slash, so a component takes one at least.
take_part-str_len_more :
    (n c : ℕ) (s : String) → (c == slash) ≡ false → left (take_part (suc n) (c ∷ s)) ≤ str_len s
unfolding take_part
take_part-str_len_more n c s f = elim (Option-cases (take_part n s)) [
  | inl e ↦ rw (f, e) (omega arith)
  | inr ((part, rest), e) ↦
      let h : str_len rest ≤ str_len s =
        subst (λ o. left o ≤ str_len s) e (take_part-str_len n s) in
      rw (f, e) h
]

pub next_component-after : (p : String) → after (next_component p) ≤ str_len p
unfolding next_component str_len
next_component-after p = elim (String-cases (skip_slashes p)) [
  | inl e ↦ rw (next_component, e) (omega arith)
  | inr (c, s, e) ↦
      let first = take_part-str_len_more 26 c s (skip_slashes_first p c s e) in
      let all : suc (str_len s) ≤ str_len p =
        subst (λ q. str_len q ≤ str_len p) e (skip_slashes-str_len p) in
      elim (Option-cases (take_part fs_name_max (c ∷ s))) [
        | inl f ↦ rw (next_component, e, f) (omega arith)
        | inr ((part, rest), f) ↦
            let h : str_len rest ≤ str_len s = subst (λ o. left o ≤ str_len s) f first in
            rw (next_component, e, f) (omega (arith, h, all))
      ]
]

-- The rounds of `resolve_path`, as many as there are.
pub data Walk : Fs → String → ℕ → Fs → Option ℕ → Type 0 where
  arrives :
      (s : Fs) (p : String) (cur : ℕ)
      → next_component p ≡ Component.finished
      → Walk s p cur s (some cur)
  refuses :
      (s : Fs) (p : String) (cur : ℕ) → next_component p ≡ Component.too_long → Walk s p cur s none
  misses :
      (s : Fs) (p : String) (cur : ℕ) (name rest : String)
      → next_component p ≡ Component.part name rest
      → (enter_part s cur name).1 ≡ none
      → Walk s p cur (enter_part s cur name).0 none
  enters :
      (s : Fs) (p : String) (cur : ℕ) (name rest : String) (child : ℕ) (t : Fs) (r : Option ℕ)
      → next_component p ≡ Component.part name rest
      → (enter_part s cur name).1 ≡ some child
      → Walk (enter_part s cur name).0 rest child t r
      → Walk s p cur t r

Component-cases :
    (c : Component)
    → (c ≡ Component.finished)
      ⊎ (c ≡ Component.too_long)
      ⊎ ((name : String) × (rest : String) × (c ≡ Component.part name rest))
Component-cases Component.finished = inl refl
Component-cases Component.too_long = inr (inl refl)
Component-cases (Component.part name rest) = inr (inr (name, rest, refl))

pub resolve_from-Walk :
    (f : ℕ) (s : Fs) (p : String) (cur : ℕ)
    → str_len p < f
    → Walk s p cur (resolve_from f s p cur).0 (resolve_from f s p cur).1
unfolding resolve_from
resolve_from-Walk zero s p cur h = absurd (omega arith)
resolve_from-Walk (suc f) s p cur h = elim (Component-cases (next_component p)) [
  | inl e ↦ rw (resolve_from, e) (Walk.arrives s p cur e)
  | inr (inl e) ↦ rw (resolve_from, e) (Walk.refuses s p cur e)
  | inr (inr (name, rest, e)) ↦
      let shorter : suc (str_len rest) ≤ str_len p =
        subst (λ c. after c ≤ str_len p) e (next_component-after p) in
      elim (Option-cases (enter_part s cur name).1) [
        | inl n ↦ rw (resolve_from, e, n) (Walk.misses s p cur name rest e n)
        | inr (child, k) ↦
            let t = (enter_part s cur name).0 in
            rw (resolve_from, e, k)
              (Walk.enters s p cur name rest child _ _ e k
                (resolve_from-Walk f t rest child (omega (arith, shorter, h))))
      ]
]

-- The loop of `resolve_path` ends: the fuel is enough for every round that there is, so the result
-- is the one of the rounds, whatever the disk holds.
pub resolve_path-Walk :
    (s : Fs) (c : ℕ) (p : String) (start : ℕ)
    → Walk s
        (c ∷ p)
        (starts_at (c ∷ p) start)
        (resolve_path s (c ∷ p) start).0
        (resolve_path s (c ∷ p) start).1
unfolding resolve_path
resolve_path-Walk s c p start =
    resolve_from-Walk (suc (str_len (c ∷ p))) s (c ∷ p) (starts_at (c ∷ p) start) (omega arith)

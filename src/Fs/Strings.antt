-- ===== src/Fs/Strings.antt =====
-- What the string functions of kernel/fs.c do on a buffer.
use seng21213_os.Prelude.{
  ℕ, zero, suc, ◌+◌, ◌-◌, ◌≤◌, ◌<◌, ◌≡◌, refl, ◌∙◌, ap, ap₂, ◌≢◌, ◌⊎◌, inl, inr, true, false, [],
  ◌∷◌, arith, ltb, leb, ◌&&◌, ◌==◌, if◌then◌else◌, Bool-cases, update, update_self, ==_iff,
}
use seng21213_os.Ramdisk.{Block}
use seng21213_os.Fs.{String, mem_zero, mem_copy, str_eq, str_copy_n, str_len, same_string}

-- The characters of a string are bytes, and none ends it.
pub data IsText : String → Type 0 where
  empty : IsText []
  more : (c : ℕ) (s : String) → c ≢ 0 → c < 256 → IsText s → IsText (c ∷ s)

pub mem_zero_lem :
    (n i : ℕ) (buf : Block) (j : ℕ)
    → mem_zero n i buf j ≡ (if leb i j && ltb j (i + n) then 0 else buf j)
unfolding mem_zero
mem_zero_lem zero i buf j = ground arith
mem_zero_lem (suc n) i buf j = ground (arith, mem_zero_lem n (i + 1) (update buf i 0) j)

pub mem_copy_lem :
    (n i k : ℕ) (dst src : Block) (j : ℕ)
    → mem_copy n i k dst src j ≡ (if leb i j && ltb j (i + n) then src (k + (j - i)) else dst j)
unfolding mem_copy
mem_copy_lem zero i k dst src j = ground arith
mem_copy_lem (suc n) i k dst src j =
    mem_copy_lem n (i + 1) (k + 1) (update dst i (src k)) src j ∙ elim (Bool-cases (i == j)) [
      | inl t ↦ let e : k ≡ k + (j - i) = ground (arith, t) in ground (arith, t, ap src e)
      | inr f ↦ elim (Bool-cases (ltb i j)) [
        | inl t ↦
            let e : k + 1 + (j - (i + 1)) ≡ k + (j - i) = ground (arith, t) in
            ground (arith, t, ap src e)
        | inr g ↦ ground (arith, f, g)
      ]
    ]

pub str_copy_n_outside :
    (n i : ℕ) (buf : Block) (s : String) (j : ℕ)
    → (j < i) ⊎ (i + n < j)
    → str_copy_n n i buf s j ≡ buf j
unfolding str_copy_n
str_copy_n_outside zero i buf s j (inl h) = ground (arith, h)
str_copy_n_outside zero i buf s j (inr h) = ground (arith, h)
str_copy_n_outside (suc n) i buf [] j (inl h) = ground (arith, h)
str_copy_n_outside (suc n) i buf [] j (inr h) = ground (arith, h)
str_copy_n_outside (suc n) i buf (c ∷ s) j (inl h) =
    ground (arith, h, str_copy_n_outside n (i + 1) (update buf i c) s j (inl (omega arith)))
str_copy_n_outside (suc n) i buf (c ∷ s) j (inr h) =
    ground (arith, h, str_copy_n_outside n (i + 1) (update buf i c) s j (inr (omega arith)))

-- A name that fits, copied, is the name that is there.
pub str_eq-str_copy_n :
    (n i : ℕ) (buf : Block) (s t : String)
    → IsText s
    → str_len s ≤ n
    → str_eq (str_copy_n n i buf s) i t ≡ same_string s t
unfolding str_copy_n str_eq same_string str_len
str_eq-str_copy_n zero i buf [] [] w h = ground arith
str_eq-str_copy_n zero i buf [] (d ∷ t) w h = ground arith
str_eq-str_copy_n zero i buf (c ∷ s) t w h = absurd (omega arith)
str_eq-str_copy_n (suc n) i buf [] [] w h = ground arith
str_eq-str_copy_n (suc n) i buf [] (d ∷ t) w h = ground arith
str_eq-str_copy_n (suc n) i buf (c ∷ s) [] (IsText.more _ _ nz small w) h =
    let first = str_copy_n_outside n (i + 1) (update buf i c) s i (inl (omega arith)) in
    ground (arith, first, nz, update_self buf i c)
str_eq-str_copy_n (suc n) i buf (c ∷ s) (d ∷ t) (IsText.more _ _ nz small w) h =
    let first = str_copy_n_outside n (i + 1) (update buf i c) s i (inl (omega arith)) in
    let here : str_copy_n n (i + 1) (update buf i c) s i ≡ c = first ∙ update_self buf i c in
    let rest = str_eq-str_copy_n n (i + 1) (update buf i c) s t w (omega arith) in
    let z : (c == 0) ≡ false = ground (arith, nz) in rw (str_eq, here, z, rest) refl

pub str_eq_ext :
    (a b : Block) (i : ℕ) (s : String)
    → ((j : ℕ) → i ≤ j → j ≤ i + str_len s → a j ≡ b j)
    → str_eq a i s ≡ str_eq b i s
unfolding str_eq str_len
str_eq_ext a b i [] h = ap (λ x. x == 0) (h i (omega arith) (omega arith))
str_eq_ext a b i (c ∷ s) h =
    let here = h i (omega arith) (omega arith) in
    let rest = str_eq_ext a b (i + 1) s (λ j lo hi. h j (omega arith) (omega arith)) in
    rw (here, rest) refl

pub same_string_refl : (s : String) → same_string s s ≡ true
unfolding same_string
same_string_refl [] = refl
same_string_refl (c ∷ s) =
    let e : (c == c) ≡ true = (==_iff _ _).1 refl in rw (same_string, e) (same_string_refl s)

pub same_string_sound : (s t : String) → same_string s t ≡ true → s ≡ t
unfolding same_string
same_string_sound [] [] h = refl
same_string_sound [] (d ∷ t) h = cc
same_string_sound (c ∷ s) [] h = cc
same_string_sound (c ∷ s) (d ∷ t) h = elim (Bool-cases (c == d)) [
  | inl e ↦ ap₂ ◌∷◌ ((==_iff _ _).0 e) (same_string_sound s t (rw e at h))
  | inr f ↦ absurd (cc (rw f at h))
]

-- The characters that are copied are bytes.
pub str_copy_n-lt :
    (n i : ℕ) (buf : Block) (s : String) (j : ℕ)
    → IsText s
    → buf j < 256
    → str_copy_n n i buf s j < 256
unfolding str_copy_n
str_copy_n-lt zero i buf s j w h = ground (arith, h)
str_copy_n-lt (suc n) i buf [] j w h = ground (arith, h)
str_copy_n-lt (suc n) i buf (c ∷ s) j (IsText.more _ _ nz small w) h =
    str_copy_n-lt n (i + 1) (update buf i c) s j w (ground (arith, h, small))

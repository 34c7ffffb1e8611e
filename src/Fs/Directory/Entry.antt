-- ===== src/Fs/Directory/Entry.antt =====
-- An entry of a directory block of kernel/fs.c that is set anew: what the block gives for a name.
use seng21213_os.Prelude.{
  ℕ, ◌+◌, ◌*◌, ◌^◌, ◌≤◌, ◌<◌, ◌≡◌, refl, sym, ◌∙◌, ap, ◌≢◌, ◌⊎◌, inl, inr, true, false, none, some,
  arith, ltb, if◌then◌else◌, Bool-cases, Option-cases, word_at-put_word, put_word_outside,
  put_word-lt, find_first, Found, find_first-Found, find_first-none, find_first_ext,
  find_first_only,
}
use native.Mathlib.Decide.{ℕ_discrete}
use seng21213_os.Ramdisk.{Block}
use seng21213_os.Fs.{
  String, dir_entry_size, dir_entries, fs_invalid_inode, fs_name_max, mem_zero, str_eq, str_copy_n,
  str_len, same_string,
}
use seng21213_os.Fs.Strings.{
  IsText, mem_zero_lem, str_copy_n_outside, str_eq-str_copy_n, str_eq_ext, str_copy_n-lt,
  same_string_sound,
}
use seng21213_os.Fs.Directory.{entry_inode, is_free_entry, entry_matches, set_entry}
use seng21213_os.Fs.Directory.Lookup.{
  lookup_in, entry_at, SameEntry, entry_inode_ext, entry_matches_ext,
}

set_entry_outside :
    (buf : Block) (i : ℕ) (name : String) (child j : ℕ)
    → (j < i * 32) ⊎ (i * 32 + 32 ≤ j)
    → set_entry buf i name child j ≡ buf j
unfolding set_entry
set_entry_outside buf i name child j (inl h) =
    let zeroed = mem_zero dir_entry_size (i * 32) buf in
    put_word_outside _ (i * 32 + 28) child j (inl (omega arith))
    ∙ str_copy_n_outside 27 (i * 32) zeroed name j (inl h)
    ∙ ground (arith, h, mem_zero_lem dir_entry_size (i * 32) buf j)
set_entry_outside buf i name child j (inr h) =
    let zeroed = mem_zero dir_entry_size (i * 32) buf in
    put_word_outside _ (i * 32 + 28) child j (inr (omega arith))
    ∙ str_copy_n_outside 27 (i * 32) zeroed name j (inr (omega arith))
    ∙ ground (arith, h, mem_zero_lem dir_entry_size (i * 32) buf j)

set_entry-SameEntry :
    (buf : Block) (i k : ℕ) (name : String) (child : ℕ)
    → k ≢ i
    → SameEntry (set_entry buf i name child) buf k
set_entry-SameEntry buf i k name child ne j lo hi = elim (Bool-cases (ltb k i)) [
  | inl t ↦ set_entry_outside buf i name child j (inl (ground (arith, t, hi)))
  | inr f ↦ set_entry_outside buf i name child j (inr (ground (arith, f, ne, lo)))
]

entry_inode-set_entry :
    (buf : Block) (i : ℕ) (name : String) (child : ℕ)
    → child < 2 ^ 32
    → entry_inode (set_entry buf i name child) i ≡ child
unfolding set_entry
entry_inode-set_entry buf i name child l = word_at-put_word _ (i * 32 + 28) child l

str_eq-set_entry :
    (buf : Block) (i : ℕ) (name other : String) (child : ℕ)
    → IsText name
    → str_len name ≤ fs_name_max
    → str_len other ≤ fs_name_max
    → str_eq (set_entry buf i name child) (i * 32) other ≡ same_string name other
unfolding set_entry
str_eq-set_entry buf i name other child w l lo =
    let zeroed = mem_zero dir_entry_size (i * 32) buf in
    str_eq_ext _ (str_copy_n 27 (i * 32) zeroed name) (i * 32) other
      (λ j a b. put_word_outside _ (i * 32 + 28) child j (inl (omega arith)))
    ∙ str_eq-str_copy_n 27 (i * 32) zeroed name other w l

-- The new entry has the name if the two are the same.
set_entry_matches :
    (buf : Block) (i : ℕ) (name other : String) (child : ℕ)
    → IsText name
    → str_len name ≤ fs_name_max
    → str_len other ≤ fs_name_max
    → child < fs_invalid_inode
    → entry_matches (set_entry buf i name child) other i ≡ same_string name other
unfolding entry_matches
set_entry_matches buf i name other child w l lo small =
    let e = entry_inode-set_entry buf i name child (omega (arith, small)) in
    let s = str_eq-set_entry buf i name other child w l lo in ground (arith, e, s, small)

nothing_matches :
    (buf : Block) (name : String)
    → lookup_in buf name ≡ none
    → (j : ℕ) → j < dir_entries
    → entry_matches buf name j ≡ false
nothing_matches buf name h j l =
    elim (Option-cases (find_first (entry_matches buf name) dir_entries 0)) [
      | inl e ↦ find_first-none (entry_matches buf name) dir_entries 0 e j (omega arith) l
      | inr (i, e) ↦ absurd (cc (sym h ∙ ap (entry_at buf) e))
    ]

free_matches :
    (buf : Block) (name : String) (i : ℕ)
    → is_free_entry buf i ≡ true
    → entry_matches buf name i ≡ false
unfolding entry_matches
free_matches buf name i h = rw h refl

-- A new entry with a new name changes what the block gives for that name only.
pub lookup_in-set_entry :
    (buf : Block) (i : ℕ) (name other : String) (child : ℕ)
    → i < dir_entries
    → is_free_entry buf i ≡ true
    → lookup_in buf name ≡ none
    → IsText name
    → str_len name ≤ fs_name_max
    → str_len other ≤ fs_name_max
    → child < fs_invalid_inode
    → lookup_in (set_entry buf i name child) other
      ≡ (if same_string name other then some child else lookup_in buf other)
lookup_in-set_entry buf i name other child li free new w l lo small =
    let t = set_entry buf i name child in
    let here = set_entry_matches buf i name other child w l lo small in
    let there : (k : ℕ) → k ≢ i → entry_matches t other k ≡ entry_matches buf other k =
      λ k ne. entry_matches_ext t buf other k lo (set_entry-SameEntry buf i k name child ne) in
    elim (Bool-cases (same_string name other)) [
      | inl s ↦
          let none_before : lookup_in buf other ≡ none =
            ap (lookup_in buf) (sym (same_string_sound name other s)) ∙ new in
          let only : find_first (entry_matches t other) dir_entries 0 ≡ some i =
            find_first_only (entry_matches t other) dir_entries 0 i (omega arith) li (here ∙ s)
              (λ k a b ne. there k ne ∙ nothing_matches buf other none_before k b) in
          rw s (
            ap (entry_at t) only
            ∙ ap some (entry_inode-set_entry buf i name child (omega (arith, small))))
      | inr n ↦
          let first : find_first (entry_matches t other) dir_entries 0
              ≡ find_first (entry_matches buf other) dir_entries 0 =
            find_first_ext (entry_matches t other) (entry_matches buf other) dir_entries 0 (λ k a b.
              elim (ℕ_discrete k i) [
                | yes e ↦
                    ap (entry_matches t other) e
                    ∙ here
                    ∙ n
                    ∙ sym (ap (entry_matches buf other) e ∙ free_matches buf other i free)
                | no ne ↦ there k ne
              ]) in
          rw n (
            ap (entry_at t) first
            ∙ elim (Option-cases (find_first (entry_matches buf other) dir_entries 0)) [
              | inl e ↦ rw e refl
              | inr (k, e) ↦
                  let f : Found (entry_matches buf other) dir_entries 0 k =
                    find_first-Found _ _ _ _ e in
                  rw e (
                    ap some (
                      entry_inode_ext t buf k (
                        set_entry-SameEntry buf i k name child (λ g. cc (
                          f.passes,
                          ap (entry_matches buf other) g,
                          free_matches buf other i free,
                        )))))
            ])
    ]

pub set_entry-lt :
    (buf : Block) (i : ℕ) (name : String) (child j : ℕ)
    → IsText name
    → buf j < 256
    → set_entry buf i name child j < 256
unfolding set_entry
set_entry-lt buf i name child j w h =
    let zeroed = mem_zero dir_entry_size (i * 32) buf in
    let small : zeroed j < 256 = ground (arith, h, mem_zero_lem dir_entry_size (i * 32) buf j) in
    put_word-lt _ (i * 32 + 28) child j (str_copy_n-lt 27 (i * 32) zeroed name j w small)

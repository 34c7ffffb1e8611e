-- ===== src/Fs/Path.antt =====
-- Paths of kernel/fs.c: the components of a path, and the inode that it leads to.
pub mod Fuel
pub mod Leads
use seng21213_os.Prelude.{
  ℕ, zero, suc, ◌+◌, Bool, true, false, not, ◌&&◌, ◌||◌, Option, none, some, List, [], ◌∷◌, ltb,
  leb, ◌==◌, if◌then◌else◌,
}
use seng21213_os.Fs.{Fs, String, fs_name_max, fs_path_max, str_len, same_string, dot, dot_dot}
use seng21213_os.Fs.Directory.{dir_find, found_inode}

-- `/`
abbrev pub slash : ℕ
slash = 47

unfoldable pub skip_slashes : String → String
skip_slashes [] = []
skip_slashes (c ∷ s) = let rest = skip_slashes s in if c == slash then rest else c ∷ s

-- The loop that takes the characters up to the next slash, with room for `n`: the component and
-- what follows; `none` is -2, a component that is too long.
unfoldable pub take_part : ℕ → String → Option (String × String)
take_part n [] = some ([], [])
take_part zero (c ∷ s) = if c == slash then some ([], c ∷ s) else none
take_part (suc n) (c ∷ s) =
    let rest : Option (String × String) = elim (take_part n s) [
      | none ↦ none
      | some (part, t) ↦ some (c ∷ part, t)
    ] in
    if c == slash then some ([], c ∷ s) else rest

-- What `next_component` returns: 0, -2, or 1 with the component and the rest of the path.
pub data Component : Type 0 where
  finished too_long : Component
  part : String → String → Component

unfoldable pub next_component : String → Component
next_component p = elim (skip_slashes p) [
  | [] ↦ finished
  | c ∷ s ↦ elim (take_part fs_name_max (c ∷ s)) [
    | none ↦ too_long
    | some (name, rest) ↦ part name rest
  ]
]

abbrev pub starts_at : String → ℕ → ℕ
starts_at [] start = start
starts_at (c ∷ p) start = if c == slash then 0 else start

-- One round of the loop of `resolve_path`, for a component.
unfoldable pub enter_part : Fs → ℕ → String → Fs × Option ℕ
enter_part s cur name =
    let (t, found) = dir_find s cur name in
    if same_string name dot then (s, some cur) else (t, found_inode found)

-- The loop, on fuel: each round takes characters off the path.
unfoldable pub resolve_from : ℕ → Fs → String → ℕ → Fs × Option ℕ
resolve_from zero s p cur = (s, none)
resolve_from (suc f) s p cur = elim (next_component p) [
  | finished ↦ (s, some cur)
  | too_long ↦ (s, none)
  | part name rest ↦
      let (t, found) = enter_part s cur name in
      elim found [ none ↦ (t, none) | some child ↦ resolve_from f t rest child ]
]

-- `resolve_path`, with `none` for -1.
unfoldable pub resolve_path : Fs → String → ℕ → Fs × Option ℕ
resolve_path s [] start = (s, none)
resolve_path s (c ∷ p) start =
    resolve_from (suc (str_len (c ∷ p))) s (c ∷ p) (starts_at (c ∷ p) start)

-- The loop of `split_parent`, on fuel: the inode where the path ends, and its last name.
unfoldable pub split_from : ℕ → Fs → String → ℕ → Fs × Option (ℕ × String)
split_from zero s p cur = (s, none)
split_from (suc f) s p cur = elim (next_component p) [
  | finished ↦ (s, none)
  | too_long ↦ (s, none)
  | part name rest ↦
      let (t, found) = dir_find s cur name in
      let inner : Fs × Option (ℕ × String) = elim (found_inode found) [
        | none ↦ (t, none)
        | some child ↦ split_from f t rest child
      ] in
      let skipped = split_from f s rest cur in
      let more : Bool = elim (next_component rest) [ part next after ↦ true | _ ↦ false ] in
      if same_string name dot
      then skipped
      else if same_string name dot_dot || more
      then inner
      else (s, some (cur, name))
]

-- `split_parent`, with `none` for -1.
unfoldable pub split_parent : Fs → String → Fs × Option (ℕ × String)
split_parent s [] = (s, none)
split_parent s (c ∷ p) =
    if ltb fs_path_max (str_len (c ∷ p))
    then (s, none)
    else split_from (suc (str_len (c ∷ p))) s (c ∷ p) (starts_at (c ∷ p) s.cwd_inode)

-- ===== src/Fs/Path/Leads.antt =====
-- A path followed through the directories of the disk, each a function from names to inodes.
use seng21213_os.Prelude.{
  ℕ, zero, suc, ◌≤◌, ◌<◌, ◌≡◌, refl, sym, ◌∙◌, ap, ◌≢◌, inl, inr, true, false, Option, none, some,
  [], ◌∷◌, arith, ◌==◌, Bool-cases, Option-cases, subst, find_first, Found, find_first-Found,
}
use seng21213_os.Ramdisk.{Block, Disk, journal_block}
use seng21213_os.Fs.{Fs, String, fs_name_max, fs_max_inodes, dir_entries, str_len, same_string, dot}
use seng21213_os.Fs.Strings.{same_string_refl, same_string_sound}
use seng21213_os.Fs.InodeTable.Encoding.{inode_of}
use seng21213_os.Fs.Directory.{entry_inode, is_free_entry, entry_matches, is_dir}
use seng21213_os.Fs.Directory.Lookup.{entry_at, lookup_in, lookup, dir_find-lookup, disk-dir_find}
use seng21213_os.Fs.Path.{
  slash, skip_slashes, take_part, Component, next_component, starts_at, enter_part, resolve_path,
}
use seng21213_os.Fs.Path.Fuel.{Walk, resolve_path-Walk, String-cases}

-- Every inode has its first block on the disk, and the entries of every directory are free or have
-- an inode of the table.
pub record IsTree (d : Disk) : Type 0 where
  pub blocks : (ino : ℕ) → ino < fs_max_inodes → (inode_of d ino).direct 0 < journal_block
  pub entries :
      (ino i : ℕ)
      → ino < fs_max_inodes
      → is_dir (inode_of d ino) ≡ true
      → i < dir_entries
      → is_free_entry (d ((inode_of d ino).direct 0)) i ≡ false
      → entry_inode (d ((inode_of d ino).direct 0)) i < fs_max_inodes

-- Where a path leads from the inode `cur`.
pub data Leads (d : Disk) : String → ℕ → Option ℕ → Type 0 where
  arrives :
      (p : String) (cur : ℕ) → next_component p ≡ Component.finished → Leads d p cur (some cur)
  refuses : (p : String) (cur : ℕ) → next_component p ≡ Component.too_long → Leads d p cur none
  stays :
      (p : String) (cur : ℕ) (rest : String) (r : Option ℕ)
      → next_component p ≡ Component.part dot rest
      → Leads d rest cur r
      → Leads d p cur r
  misses :
      (p : String) (cur : ℕ) (name rest : String)
      → next_component p ≡ Component.part name rest
      → name ≢ dot
      → lookup d cur name ≡ none
      → Leads d p cur none
  enters :
      (p : String) (cur : ℕ) (name rest : String) (child : ℕ) (r : Option ℕ)
      → next_component p ≡ Component.part name rest
      → name ≢ dot
      → lookup d cur name ≡ some child
      → Leads d rest child r
      → Leads d p cur r

abbrev part_len : Component → ℕ
part_len Component.finished = 0
part_len Component.too_long = 0
part_len (Component.part name rest) = str_len name

abbrev taken_len : Option (String × String) → ℕ
taken_len none = 0
taken_len (some (name, rest)) = str_len name

take_part_fits : (n : ℕ) (s : String) → taken_len (take_part n s) ≤ n
unfolding take_part str_len
take_part_fits n [] = omega arith
take_part_fits zero (c ∷ s) = elim (Bool-cases (c == slash)) [
  | inl t ↦ rw t (omega arith)
  | inr f ↦ rw f (omega arith)
]
take_part_fits (suc n) (c ∷ s) = elim (Bool-cases (c == slash)) [
  | inl t ↦ rw t (omega arith)
  | inr f ↦ elim (Option-cases (take_part n s)) [
    | inl e ↦ rw (f, e) (omega arith)
    | inr ((part, rest), e) ↦
        let h : str_len part ≤ n = subst (λ o. taken_len o ≤ n) e (take_part_fits n s) in
        rw (f, e) (omega (arith, h))
  ]
]

next_component_fits : (p : String) → part_len (next_component p) ≤ fs_name_max
unfolding next_component
next_component_fits p = elim (String-cases (skip_slashes p)) [
  | inl e ↦ rw (next_component, e) (omega arith)
  | inr (c, s, e) ↦ elim (Option-cases (take_part fs_name_max (c ∷ s))) [
    | inl f ↦ rw (next_component, e, f) (omega arith)
    | inr ((part, rest), f) ↦
        let h : str_len part ≤ fs_name_max =
          subst (λ o. taken_len o ≤ fs_name_max) f (take_part_fits fs_name_max (c ∷ s)) in
        rw (next_component, e, f) h
  ]
]

none_ne : {x : ℕ} → ¬ (none ≡ some x)
none_ne h = cc

some_inj : {x y : ℕ} → some x ≡ some y → x ≡ y
some_inj h = cc

matches-used :
    (buf : Block) (name : String) (i : ℕ)
    → entry_matches buf name i ≡ true
    → is_free_entry buf i ≡ false
unfolding entry_matches
matches-used buf name i h = elim (Bool-cases (is_free_entry buf i)) [
  | inl t ↦ absurd (cc (rw t at h))
  | inr f ↦ f
]

lookup_in-lt :
    (buf : Block) (name : String) (child : ℕ)
    → ((i : ℕ) → i < dir_entries → is_free_entry buf i ≡ false → entry_inode buf i < fs_max_inodes)
    → lookup_in buf name ≡ some child
    → child < fs_max_inodes
unfolding entry_matches
lookup_in-lt buf name child small h =
    elim (Option-cases (find_first (entry_matches buf name) dir_entries 0)) [
      | inl e ↦ absurd (none_ne (ap (entry_at buf) (sym e) ∙ h))
      | inr (i, e) ↦
          let f : Found (entry_matches buf name) dir_entries 0 i = find_first-Found _ _ _ _ e in
          let used : is_free_entry buf i ≡ false = matches-used buf name i f.passes in
          let at : entry_inode buf i ≡ child = some_inj (ap (entry_at buf) (sym e) ∙ h) in
          let bound = small i f.below used in omega (arith, at, bound)
    ]

-- A name leads to an inode of the table.
lookup-lt :
    (d : Disk) (ino child : ℕ) (name : String)
    → IsTree d
    → ino < fs_max_inodes
    → lookup d ino name ≡ some child
    → child < fs_max_inodes
lookup-lt d ino child name w l h = elim (Bool-cases (is_dir (inode_of d ino))) [
  | inl t ↦
      lookup_in-lt (d ((inode_of d ino).direct 0)) name child (λ i. w.entries ino i l t) (rw t at h)
  | inr f ↦ absurd (none_ne (rw f at h))
]

-- A round for `.` stays, and another one looks the name up.
data Round (s : Fs) (cur : ℕ) (name : String) : Type 0 where
  stays : name ≡ dot → enter_part s cur name ≡ (s, some cur) → Round s cur name
  looks :
      name ≢ dot
      → (enter_part s cur name).0.disk ≡ s.disk
      → (enter_part s cur name).1 ≡ lookup s.disk cur name
      → Round s cur name

enter_part-Round :
    (s : Fs) (cur : ℕ) (name : String)
    → IsTree s.disk
    → cur < fs_max_inodes
    → str_len name ≤ fs_name_max
    → Round s cur name
unfolding enter_part
enter_part-Round s cur name w l h = elim (Bool-cases (same_string name dot)) [
  | inl t ↦ Round.stays (same_string_sound name dot t) (rw (enter_part, t) refl)
  | inr f ↦
      let differs : name ≢ dot = λ e. cc (same_string_refl dot, ap (λ n. same_string n dot) e, f) in
      Round.looks differs (rw (enter_part, f) (disk-dir_find s cur name))
        (rw (enter_part, f) (dir_find-lookup s cur name l (w.blocks cur l) h))
]

Walk-Leads :
    (s : Fs) (p : String) (cur : ℕ) (t : Fs) (r : Option ℕ)
    → IsTree s.disk
    → cur < fs_max_inodes
    → Walk s p cur t r
    → Leads s.disk p cur r × (t.disk ≡ s.disk)
Walk-Leads s p cur t r w l (Walk.arrives _ _ _ e) = (Leads.arrives p cur e, refl)
Walk-Leads s p cur t r w l (Walk.refuses _ _ _ e) = (Leads.refuses p cur e, refl)
Walk-Leads s p cur t r w l (Walk.misses _ _ _ name rest e m) =
    let h : str_len name ≤ fs_name_max =
      subst (λ c. part_len c ≤ fs_name_max) e (next_component_fits p) in
    elim (enter_part-Round s cur name w l h) [
      | Round.stays d k ↦ absurd (none_ne (sym m ∙ ap (λ x. x.1) k))
      | Round.looks d k f ↦ (Leads.misses p cur name rest e d (sym f ∙ m), k)
    ]
Walk-Leads s p cur t r w l (Walk.enters _ _ _ name rest child _ _ e m k) =
    let h : str_len name ≤ fs_name_max =
      subst (λ c. part_len c ≤ fs_name_max) e (next_component_fits p) in
    elim (enter_part-Round s cur name w l h) [
      | Round.stays d f ↦
          let state : (enter_part s cur name).0 ≡ s = ap (λ x. x.0) f in
          let same : child ≡ cur = sym (some_inj (sym (ap (λ x. x.1) f) ∙ m)) in
          let (leads, kept) =
            Walk-Leads (enter_part s cur name).0 rest child t r
              (subst (λ u. IsTree u.disk) (sym state) w) (omega (arith, l, same)) k in
          (
            Leads.stays p cur rest r (e ∙ ap (λ n. Component.part n rest) d) (
                subst (λ c. Leads s.disk rest c r) same
                  (subst (λ u. Leads u.disk rest child r) state leads)),
            kept ∙ ap (λ u. u.disk) state,
          )
      | Round.looks d f g ↦
          let at : lookup s.disk cur name ≡ some child = sym g ∙ m in
          let (leads, same) =
            Walk-Leads (enter_part s cur name).0 rest child t r (subst IsTree (sym f) w)
              (lookup-lt s.disk cur child name w l at) k in
          (
            Leads.enters p cur name rest child r e d at (subst (λ x. Leads x rest child r) f leads),
            same ∙ f,
          )
    ]

-- On a disk whose inodes and directory entries stay within the tables, and from an inode of the
-- table, `resolve_path` gives the inode to which the path leads through the directories on the
-- disk, and changes no block.
pub resolve_path-Leads :
    (s : Fs) (c : ℕ) (p : String) (start : ℕ)
    → IsTree s.disk
    → start < fs_max_inodes
    → Leads s.disk (c ∷ p) (starts_at (c ∷ p) start) (resolve_path s (c ∷ p) start).1
      × ((resolve_path s (c ∷ p) start).0.disk ≡ s.disk)
resolve_path-Leads s c p start w l =
    let bound : starts_at (c ∷ p) start < fs_max_inodes = ground (arith, l) in
    Walk-Leads s (c ∷ p) (starts_at (c ∷ p) start) _ _ w bound (resolve_path-Walk s c p start)

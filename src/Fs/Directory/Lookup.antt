-- ===== src/Fs/Directory/Lookup.antt =====
-- A directory on the disk as a function from names to inodes.
use seng21213_os.Prelude.{
  ℕ, ◌+◌, ◌*◌, ◌≤◌, ◌<◌, ◌≡◌, refl, ◌∙◌, ap, ap₂, inl, inr, true, false, not, ◌&&◌, Option, none,
  some, arith, ◌==◌, if◌then◌else◌, Bool-cases, Option-cases, word_at_ext, find_first, Found,
  find_first-Found, find_first_ext,
}
use seng21213_os.Ramdisk.{Block, Disk, ramdisk_block_size, journal_block}
use seng21213_os.Ramdisk.Roundtrip.{read_in_range}
use seng21213_os.Fs.{
  Fs, String, read_buf, fs_max_inodes, dir_entries, fs_invalid_inode, fs_name_max, inode_dir,
  str_len,
}
use seng21213_os.Fs.Strings.{str_eq_ext}
use seng21213_os.Fs.InodeTable.{inode_read}
use seng21213_os.Fs.InodeTable.Encoding.{inode_of, Same, inode_read-Same, disk-inode_read}
use seng21213_os.Fs.Directory.{entry_inode, entry_matches, is_dir, dir_find, located, found_inode}

abbrev pub entry_at : Block → Option ℕ → Option ℕ
entry_at buf none = none
entry_at buf (some i) = some (entry_inode buf i)

-- The inode that a block of entries gives for a name.
abbrev pub lookup_in : Block → String → Option ℕ
lookup_in buf name = entry_at buf (find_first (entry_matches buf name) dir_entries 0)

found_inode-located : (buf : Block) (o : Option ℕ) → found_inode (located buf o) ≡ entry_at buf o
unfolding located
found_inode-located buf none = refl
found_inode-located buf (some i) = refl

-- The inode that the directory `dir` gives for a name.
abbrev pub lookup : Disk → ℕ → String → Option ℕ
lookup d dir name =
    let x = inode_of d dir in if is_dir x then lookup_in (d (x.direct 0)) name else none

-- Two blocks of entries with the same bytes in them.
abbrev pub SameEntry : Block → Block → ℕ → Type 0
SameEntry a b i = (j : ℕ) → i * 32 ≤ j → j < i * 32 + 32 → a j ≡ b j

pub entry_inode_ext : (a b : Block) (i : ℕ) → SameEntry a b i → entry_inode a i ≡ entry_inode b i
entry_inode_ext a b i h = word_at_ext a b (i * 32 + 28) (λ j lo hi. h j (omega arith) (omega arith))

pub entry_matches_ext :
    (a b : Block) (name : String) (i : ℕ)
    → str_len name ≤ fs_name_max
    → SameEntry a b i
    → entry_matches a name i ≡ entry_matches b name i
unfolding entry_matches
entry_matches_ext a b name i l h =
    ap₂ (λ x y. not (x == fs_invalid_inode) && y) (entry_inode_ext a b i h)
      (str_eq_ext a b (i * 32) name (λ j lo hi. h j lo (omega arith)))

pub lookup_in_ext :
    (a b : Block) (name : String)
    → str_len name ≤ fs_name_max
    → ((j : ℕ) → j < ramdisk_block_size → a j ≡ b j)
    → lookup_in a name ≡ lookup_in b name
lookup_in_ext a b name l h =
    let same : (i : ℕ) → i < dir_entries → SameEntry a b i = λ i hi j lo hj. h j (omega arith) in
    let first =
      find_first_ext (entry_matches a name) (entry_matches b name) dir_entries 0
        (λ i lo hi. entry_matches_ext a b name i l (same i hi)) in
    ap (entry_at a) first ∙ elim (Option-cases (find_first (entry_matches b name) dir_entries 0)) [
      | inl e ↦ rw e refl
      | inr (i, e) ↦
          let f : Found (entry_matches b name) dir_entries 0 i = find_first-Found _ _ _ _ e in
          rw e (ap some (entry_inode_ext a b i (same i f.below)))
    ]

pub disk-dir_find : (s : Fs) (dir : ℕ) (name : String) → (dir_find s dir name).0.disk ≡ s.disk
unfolding dir_find
disk-dir_find s dir name = elim (Bool-cases (is_dir (inode_read s dir).1)) [
  | inl t ↦ rw (dir_find, t) (disk-inode_read s dir)
  | inr f ↦ rw (dir_find, f) (disk-inode_read s dir)
]

-- `dir_find` gives what the directory on the disk gives.
pub dir_find-lookup :
    (s : Fs) (dir : ℕ) (name : String)
    → dir < fs_max_inodes
    → (inode_of s.disk dir).direct 0 < journal_block
    → str_len name ≤ fs_name_max
    → found_inode (dir_find s dir name).1 ≡ lookup s.disk dir name
unfolding dir_find
dir_find-lookup s dir name l hb hn =
    let x = (inode_read s dir).1 in
    let y = inode_of s.disk dir in
    let same : Same x y = inode_read-Same s dir l in
    let b : x.direct 0 ≡ y.direct 0 = same.direct 0 (omega arith) in
    let d : is_dir x ≡ is_dir y = ap₂ (λ m k. m == inode_dir && not (k == 0)) same.mode b in
    let t = (inode_read s dir).0 in
    let u = read_buf t (x.direct 0) in
    let in_block : found_inode
          (located u.block_buf (find_first (entry_matches u.block_buf name) dir_entries 0))
        ≡ lookup_in (s.disk (y.direct 0)) name =
      found_inode-located u.block_buf (find_first (entry_matches u.block_buf name) dir_entries 0)
      ∙ lookup_in_ext u.block_buf (s.disk (y.direct 0)) name hn (λ j hj.
        read_in_range t.disk (x.direct 0) t.block_buf j (omega (arith, b)) hj
        ∙ ap (λ k. k (x.direct 0) j) (disk-inode_read s dir)
        ∙ ap (λ c. s.disk c j) b) in
    elim (Bool-cases (is_dir y)) [
      | inl h ↦ let hx : is_dir x ≡ true = d ∙ h in rw (dir_find, hx, h) in_block
      | inr f ↦ let fx : is_dir x ≡ false = d ∙ f in rw (dir_find, fx, f) refl
    ]

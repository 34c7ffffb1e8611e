-- ===== src/Fs/Directory/Add.antt =====
-- Adding a name to a directory of kernel/fs.c: a new name, and no other changes.
use seng21213_os.Prelude.{
  ℕ, ◌≤◌, ◌<◌, ◌≡◌, refl, sym, ◌∙◌, ap, ap₂, ◌≢◌, ◌⊎◌, inl, inr, Bool, true, false, not, ◌&&◌, ◌||◌,
  none, some, arith, ltb, ◌==◌, if◌then◌else◌, Bool-cases, Option-cases, subst, ==_iff, find_first,
  Found, find_first-Found, find_first-none,
}
use native.Mathlib.Decide.{ℕ_discrete}
use seng21213_os.Ramdisk.{
  Block, Disk, ramdisk_block_size, journal_block, ramdisk_read_block, ramdisk_write_block,
}
use seng21213_os.Ramdisk.Roundtrip.{read_in_range, Stored, write_block-Stored}
use seng21213_os.Fs.{
  Fs, String, fs_max_inodes, inode_table_start, dir_entries, fs_invalid_inode, fs_name_max,
  inode_dir, str_len, same_string,
}
use seng21213_os.Fs.Strings.{IsText}
use seng21213_os.Fs.Bitmap.Alloc.{IsBytes}
use seng21213_os.Fs.InodeTable.{inode_read, inode_block, inode_offset, get_inode}
use seng21213_os.Fs.InodeTable.Encoding.{inode_of, Same, inode_read-Same, disk-inode_read}
use seng21213_os.Fs.Directory.{
  is_free_entry, is_dir, dir_find, found_inode, set_entry, add_entry, dir_add,
}
use seng21213_os.Fs.Directory.Lookup.{
  lookup_in, lookup, entry_inode_ext, lookup_in_ext, dir_find-lookup, disk-dir_find,
}
use seng21213_os.Fs.Directory.Entry.{lookup_in-set_entry, set_entry-lt}

-- The disk `e` is `d` with the name given to `child` in the directory `dir`, whose block is `b`.
pub record Named (d e : Disk) (dir b : ℕ) (name : String) (child : ℕ) : Type 0 where
  pub names :
      (other : String)
      → str_len other ≤ fs_name_max
      → lookup e dir other ≡ (if same_string name other then some child else lookup d dir other)
  pub others : (c : ℕ) → c < journal_block → c ≢ b → e c ≡ d c
  pub bytes : IsBytes e

-- What the code needs of the disk to add a name: the directory has a block that is neither of the
-- journal nor of the inode table.
pub record HasBlock (d : Disk) (dir b : ℕ) : Type 0 where
  pub bytes : IsBytes d
  pub in_table : dir < fs_max_inodes
  pub block : (inode_of d dir).direct 0 ≡ b
  pub is_directory : is_dir (inode_of d dir) ≡ true
  pub below : b < journal_block
  pub apart : b ≢ inode_table_start

lookup_dir :
    (f : Disk) (dir : ℕ) (other : String)
    → is_dir (inode_of f dir) ≡ true
    → lookup f dir other ≡ lookup_in (f ((inode_of f dir).direct 0)) other
lookup_dir f dir other h = rw h refl

Stored-Named :
    (d e : Disk) (dir b i : ℕ) (name : String) (child : ℕ) (buf : Block)
    → HasBlock d dir b
    → ((j : ℕ) → j < ramdisk_block_size → buf j ≡ d b j)
    → Stored d b (set_entry buf i name child) (e, true)
    → i < dir_entries
    → is_free_entry buf i ≡ true
    → lookup d dir name ≡ none
    → IsText name
    → str_len name ≤ fs_name_max
    → child < fs_invalid_inode
    → Named d e dir b name child
Stored-Named d e dir b i name child buf v old w li free new t l small =
    let table : inode_of e dir ≡ inode_of d dir =
      ap (λ (c : Block). get_inode c (inode_offset dir))
        (w.others (inode_block dir) (omega (arith, v.in_table))
          (λ g. v.apart (sym g ∙ omega (arith, v.in_table)))) in
    let at_dir : (f : Disk)
        → inode_of f dir ≡ inode_of d dir
        → (other : String) → lookup f dir other ≡ lookup_in (f b) other =
      λ f g other.
        lookup_dir f dir other (ap is_dir g ∙ v.is_directory)
        ∙ ap (λ k. lookup_in (f k) other) (ap (λ x. x.direct 0) g ∙ v.block) in
    let before : (other : String)
        → str_len other ≤ fs_name_max
        → lookup_in buf other ≡ lookup d dir other =
      λ other lo. lookup_in_ext buf (d b) other lo old ∙ sym (at_dir d refl other) in
    record {
      names = λ other lo.
          at_dir e table other
          ∙ lookup_in_ext (e b) (set_entry buf i name child) other lo w.target
          ∙ lookup_in-set_entry buf i name other child li free (before name l ∙ new) t l lo small
          ∙ ap (λ x. if same_string name other then some child else x) (before other lo);
      others = w.others;
      bytes = λ c j hc hj. elim (ℕ_discrete c b) [
        | yes g ↦
            subst (λ x. x < 256) (sym (ap (λ k. e k j) g ∙ w.target j hj))
              (set_entry-lt buf i name child j t
                (subst (λ x. x < 256) (sym (old j hj)) (v.bytes b j v.below hj)))
        | no ne ↦ subst (λ x. x < 256) (sym (ap (λ k. k j) (w.others c hc ne))) (v.bytes c j hc hj)
      ];
    }

-- What `dir_add` does on a disk where the directory has a block: it refuses, and changes nothing,
-- a name that is empty or too long, or that the directory has already, or when no entry is free;
-- otherwise the directory has the name, and nothing else changes.
pub data Adding (d : Disk) (dir b : ℕ) (name : String) (child : ℕ) : Disk → Bool → Type 0 where
  refuses :
      (e : Disk)
      → e ≡ d
      → (str_len name ≡ 0)
        ⊎ (fs_name_max < str_len name)
        ⊎ (lookup d dir name ≢ none)
        ⊎ ((i : ℕ) → i < dir_entries → is_free_entry (d b) i ≡ false)
      → Adding d dir b name child e false
  adds :
      (e : Disk)
      → lookup d dir name ≡ none
      → Named d e dir b name child
      → Adding d dir b name child e true

add_entry-Adding :
    (s : Fs) (dir b : ℕ) (name : String) (child : ℕ)
    → HasBlock s.disk dir b
    → lookup s.disk dir name ≡ none
    → IsText name
    → str_len name ≤ fs_name_max
    → child < fs_invalid_inode
    → Adding s.disk dir b name child (add_entry s b name child).0.disk (add_entry s b name child).1
unfolding add_entry
add_entry-Adding s dir b name child v new t l small =
    let buf = ramdisk_read_block s.disk b s.block_buf in
    let old : (j : ℕ) → j < ramdisk_block_size → buf j ≡ s.disk b j =
      λ j hj. read_in_range s.disk b s.block_buf j (omega (arith, v.below)) hj in
    elim (Option-cases (find_first (is_free_entry buf) dir_entries 0)) [
      | inl e ↦
          rw (add_entry, e)
            (Adding.refuses s.disk refl (
              inr (
                inr (
                  inr (λ i li.
                    ap (λ k. k == fs_invalid_inode)
                      (sym (entry_inode_ext buf (s.disk b) i (λ j lo hi. old j (omega arith))))
                    ∙ find_first-none (is_free_entry buf) dir_entries 0 e i (omega arith) li)))))
      | inr (i, e) ↦
          let f : Found (is_free_entry buf) dir_entries 0 i = find_first-Found _ _ _ _ e in
          let new_buf = set_entry buf i name child in
          let w = write_block-Stored s.disk b new_buf v.below in
          let done : Stored s.disk b new_buf
              ((ramdisk_write_block s.disk b (some new_buf)).0, true) =
            record { succeeds = refl; target = w.target; others = w.others } in
          rw (add_entry, e, w.succeeds)
            (Adding.adds _ new (
              Stored-Named s.disk _ dir b i name child buf v old done f.below f.passes new t l
                small))
    ]

bad_name :
    (name : String) {A : Type 0}
    → (str_len name == 0 || ltb fs_name_max (str_len name)) ≡ true
    → (str_len name ≡ 0) ⊎ (fs_name_max < str_len name) ⊎ A
bad_name name h = elim (Bool-cases (str_len name == 0)) [
  | inl z ↦ inl ((==_iff _ _).0 z)
  | inr n ↦ inr (inl (ground (arith, n)))
]

-- On a disk of bytes, for a directory with a block of its own and a child that is an inode,
-- `dir_add` either refuses and leaves the disk as it is (an empty name, one of more than 27
-- characters, one that the directory has, or no free entry), or the directory gives the child for
-- the name and what it gave before for every other name, and no other block changes.
pub dir_add-Adding :
    (s : Fs) (dir b : ℕ) (name : String) (child : ℕ)
    → HasBlock s.disk dir b
    → IsText name
    → child < fs_invalid_inode
    → Adding s.disk dir b name child (dir_add s dir name child).0.disk (dir_add s dir name child).1
unfolding dir_add
dir_add-Adding s dir b name child v w small =
    let t = (inode_read s dir).0 in
    let x = (inode_read s dir).1 in
    let same : Same x (inode_of s.disk dir) = inode_read-Same s dir v.in_table in
    let block : x.direct 0 ≡ b = same.direct 0 (omega arith) ∙ v.block in
    let hx : is_dir x ≡ true =
      ap₂ (λ m k. m == inode_dir && not (k == 0)) same.mode (same.direct 0 (omega arith))
      ∙ v.is_directory in
    let u = (dir_find t dir name).0 in
    let kept : u.disk ≡ s.disk = disk-dir_find t dir name ∙ disk-inode_read s dir in
    elim (Bool-cases (str_len name == 0 || ltb fs_name_max (str_len name))) [
      | inl bad ↦ rw (dir_add, bad) (Adding.refuses s.disk refl (bad_name name bad))
      | inr fine ↦
          let l : str_len name ≤ fs_name_max = ground (arith, fine) in
          let found : found_inode (dir_find t dir name).1 ≡ lookup s.disk dir name =
            dir_find-lookup t dir name v.in_table
              (subst (λ k. (inode_of k dir).direct 0 < journal_block) (sym (disk-inode_read s dir))
                (omega (arith, v.block, v.below)))
              l
            ∙ ap (λ k. lookup k dir name) (disk-inode_read s dir) in
          elim (Option-cases (dir_find t dir name).1) [
            | inl e ↦
                let new : lookup s.disk dir name ≡ none = sym found ∙ ap found_inode e in
                rw (dir_add, fine, hx, e, block)
                  (subst
                    (λ k.
                      Adding k dir b name child (add_entry u b name child).0.disk
                        (add_entry u b name child).1)
                    kept
                    (add_entry-Adding u dir b name child
                      (subst (λ k. HasBlock k dir b) (sym kept) v)
                      (subst (λ k. lookup k dir name ≡ none) (sym kept) new) w l small))
            | inr (y, e) ↦
                rw (dir_add, fine, hx, e)
                  (Adding.refuses u.disk kept
                    (inr (inr (inl (λ n. absurd (cc (sym n ∙ sym found ∙ ap found_inode e)))))))
          ]
    ]

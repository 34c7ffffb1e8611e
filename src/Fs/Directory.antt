-- ===== src/Fs/Directory.antt =====
-- Directories of kernel/fs.c: a block of 128 entries, each a name of 28 bytes and an inode.
pub mod Lookup
pub mod Entry
pub mod Add
use seng21213_os.Prelude.{
  ℕ, zero, suc, ◌+◌, ◌*◌, Bool, true, false, not, ◌&&◌, ◌||◌, Option, none, some, List, [], ◌∷◌,
  ltb, leb, ◌==◌, if◌then◌else◌, update, word_at, put_word, find_first,
}
use seng21213_os.Ramdisk.{Block}
use seng21213_os.Fs.{
  Fs, Inode, String, read_buf, write_out, dir_entry_size, dir_entries, inode_dir, fs_invalid_inode,
  fs_name_max, mem_zero, str_eq, str_copy_n, str_len,
}
use seng21213_os.Fs.InodeTable.{inode_read}

-- `e->inode` of entry `i`, and the test of its name.
abbrev pub entry_inode : Block → ℕ → ℕ
entry_inode buf i = word_at buf (i * dir_entry_size + 28)

abbrev pub is_free_entry : Block → ℕ → Bool
is_free_entry buf i = entry_inode buf i == fs_invalid_inode

unfoldable pub entry_matches : Block → String → ℕ → Bool
entry_matches buf name i = not (is_free_entry buf i) && str_eq buf (i * dir_entry_size) name

abbrev pub is_dir : Inode → Bool
is_dir x = x.mode == inode_dir && not (x.direct 0 == 0)

-- The position of an entry with its inode.
unfoldable pub located : Block → Option ℕ → Option (ℕ × ℕ)
located buf none = none
located buf (some i) = some (i, entry_inode buf i)

-- `dir_find`: the position of the entry and its inode, with `none` for -1.
unfoldable pub dir_find : Fs → ℕ → String → Fs × Option (ℕ × ℕ)
dir_find s dir_ino name =
    let (t, dir) = inode_read s dir_ino in
    let u = read_buf t (dir.direct 0) in
    if is_dir dir
    then (u, located u.block_buf (find_first (entry_matches u.block_buf name) dir_entries 0))
    else (t, none)

-- The inode that `dir_find` gives, without the position.
abbrev pub found_inode : Option (ℕ × ℕ) → Option ℕ
found_inode none = none
found_inode (some (i, ino)) = some ino

-- Entry `i` gets the name and the inode.
unfoldable pub set_entry : Block → ℕ → String → ℕ → Block
set_entry buf i name child =
    let e = i * dir_entry_size in
    put_word (str_copy_n 27 e (mem_zero dir_entry_size e buf) name) (e + 28) child

-- The end of `dir_add`: the first free entry of the directory's block.
unfoldable pub add_entry : Fs → ℕ → String → ℕ → Fs × Bool
add_entry s block name child =
    let t = read_buf s block in
    elim (find_first (is_free_entry t.block_buf) dir_entries 0) [
      | none ↦ (t, false)
      | some i ↦
          let u = record t { block_buf = set_entry t.block_buf i name child } in
          write_out u block u.block_buf
    ]

-- `dir_add`: whether it returns 0.
unfoldable pub dir_add : Fs → ℕ → String → ℕ → Fs × Bool
dir_add s dir_ino name child =
    let (t, dir) = inode_read s dir_ino in
    let (u, found) = dir_find t dir_ino name in
    if str_len name == 0 || ltb fs_name_max (str_len name)
    then (s, false)
    else if is_dir dir
    then elim found [ none ↦ add_entry u (dir.direct 0) name child | some e ↦ (u, false) ]
    else (t, false)

unfoldable pub clear_entry : Block → ℕ → Block
clear_entry buf i =
    let e = i * dir_entry_size in update (put_word buf (e + 28) fs_invalid_inode) e 0

-- `dir_remove`: whether it returns 0.
unfoldable pub dir_remove : Fs → ℕ → String → Fs × Bool
dir_remove s dir_ino name =
    let (t, dir) = inode_read s dir_ino in
    let (u, found) = dir_find t dir_ino name in
    if is_dir dir
    then elim found [
      | none ↦ (u, false)
      | some (i, ino) ↦
          let v = read_buf u (dir.direct 0) in
          let w = record v { block_buf = clear_entry v.block_buf i } in
          write_out w (dir.direct 0) w.block_buf
    ]
    else (t, false)

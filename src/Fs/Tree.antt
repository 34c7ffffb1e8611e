-- ===== src/Fs/Tree.antt =====
-- Removing, changing the directory, listing and naming it.
use seng21213_os.Prelude.{
  ℕ, zero, suc, ◌+◌, ◌-◌, ◌*◌, Bool, true, false, not, ◌&&◌, ◌||◌, Option, none, some, List, [],
  ◌∷◌, ◌++◌, ltb, leb, ◌==◌, if◌then◌else◌, find_first,
}
use seng21213_os.Ramdisk.{Block}
use seng21213_os.Fs.{
  Fs, Inode, Result, String, read_buf, read_buf2, fs_max_inodes, inode_file, inode_dir,
  dir_entry_size, dir_entries, fs_invalid_inode, str_eq, str_len, string_at, dot, dot_dot,
}
use seng21213_os.Fs.Bitmap.{free_inode}
use seng21213_os.Fs.InodeTable.{inode_read, inode_write, no_inode, release_inode_blocks}
use seng21213_os.Fs.Directory.{dir_find, found_inode, dir_remove, entry_inode, is_free_entry}
use seng21213_os.Fs.Path.{resolve_path, split_parent}

-- Whether a directory has an entry after the first two.
abbrev pub is_empty : Block → Bool
is_empty buf = elim (find_first (λ i. not (is_free_entry buf i)) (dir_entries - 2) 2) [
  | none ↦ true
  | some i ↦ false
]

-- The end of `fs_unlink`, once the entry is out of the directory.
unfoldable pub drop_inode : Block → Fs → ℕ → Inode → Fs × Result
drop_inode old s ino x =
    let (t, y) = release_inode_blocks old s x in
    let u = free_inode (inode_write t ino no_inode) ino in
    (if u.cwd_inode == ino then record u { cwd_inode = 0 } else u, Result.ok 0)

-- `fs_unlink` from the inode on.
unfoldable pub unlink_inode : Block → Fs → ℕ → String → ℕ → Fs × Result
unlink_inode old s parent name ino =
    let (t, x) = inode_read s ino in
    let u = if x.mode == inode_dir then read_buf t (x.direct 0) else t in
    let (v, removed) = dir_remove u parent name in
    if x.mode == inode_dir && not (is_empty u.block_buf)
    then (u, Result.err 5)
    else if not removed
    then (v, Result.err 6)
    else drop_inode old v ino x

unfoldable pub fs_unlink : Block → Fs → String → Fs × Result
fs_unlink old s path =
    let (t, split) = split_parent s path in
    if not s.fs_ready then (s, Result.err 1) else elim split [
      | none ↦ (t, Result.err 2)
      | some (parent, name) ↦
          let (u, found) = dir_find t parent name in
          elim (found_inode found) [
            | none ↦ (u, Result.err 3)
            | some ino ↦
                let rest = unlink_inode old u parent name ino in
                if ino == 0 then (u, Result.err 4) else rest
          ]
    ]

unfoldable pub fs_chdir : Fs → String → Fs × Result
fs_chdir s path =
    let (t, found) = resolve_path s path s.cwd_inode in
    if not s.fs_ready then (s, Result.err 1) else elim found [
      | none ↦ (t, Result.err 1)
      | some ino ↦
          let (u, x) = inode_read t ino in
          if x.mode == inode_dir
          then (record u { cwd_inode = ino }, Result.ok 0)
          else (u, Result.err 2)
    ]

-- What `fs_list` prints of one entry.
pub record Listed : Type 0 where
  pub name : String
  pub is_directory : Bool
  pub size : ℕ

-- The loop of `fs_list`, for `n` entries from `i` on.
unfoldable pub list_from : ℕ → ℕ → Fs → Fs × List Listed
list_from zero i s = (s, [])
list_from (suc n) i s =
    let ino = entry_inode s.block_buf2 i in
    let (t, child) = inode_read s ino in
    let line : Listed = record {
      name = string_at dir_entry_size s.block_buf2 (i * dir_entry_size);
      is_directory = child.mode == inode_dir;
      size = child.size;
    } in
    let skipped = list_from n (i + 1) s in
    let unshown = list_from n (i + 1) t in
    if ino == fs_invalid_inode || leb fs_max_inodes ino
    then skipped
    else if child.mode == inode_file || child.mode == inode_dir
    then (unshown.0, line ∷ unshown.1)
    else unshown

unfoldable pub list_inode : Fs → ℕ → Fs × Result × List Listed
list_inode s ino =
    let (t, x) = inode_read s ino in
    let (u, lines) = list_from dir_entries 0 (read_buf2 t (x.direct 0)) in
    if x.mode == inode_dir then (u, Result.ok 0, lines) else (t, Result.err 3, [])

-- `fs_list`: what it returns and prints; a NULL path is an empty one.
unfoldable pub fs_list : Fs → String → Fs × Result × List Listed
fs_list s path =
    let (t, found) = resolve_path s path s.cwd_inode in
    if not s.fs_ready then (s, Result.err 1, []) else elim path [
      | [] ↦ list_inode s s.cwd_inode
      | c ∷ p ↦ elim found [ none ↦ (t, Result.err 2, []) | some ino ↦ list_inode t ino ]
    ]

-- Whether an entry names the inode, and is neither "." nor "..".
abbrev pub names_inode : Block → ℕ → ℕ → Bool
names_inode buf ino i =
    entry_inode buf i == ino
    && not (str_eq buf (i * dir_entry_size) dot)
    && not (str_eq buf (i * dir_entry_size) dot_dot)

-- The name of an inode in its parent directory.
unfoldable pub name_in : Fs → ℕ → ℕ → Fs × String
name_in s parent ino =
    let (t, pd) = inode_read s parent in
    let u = read_buf t (pd.direct 0) in
    elim (find_first (names_inode u.block_buf ino) dir_entries 0) [
      | none ↦ (u, [])
      | some i ↦ (u, string_at 27 u.block_buf (i * dir_entry_size))
    ]

-- `buf` with one more component, unless it has no room; `none` is -1.
unfoldable pub append_part : String → String → ℕ → Option String
append_part buf name len =
    let slashed = if ltb 1 (str_len buf) then buf ++ 47 ∷ [] else buf in
    if leb len (str_len buf + str_len name + 1) then none else some (slashed ++ name)

-- `pwd_rec`, on fuel for the depth of the tree; the buffer is the string that it holds, and
-- `none` is -1.
unfoldable pub pwd_rec : ℕ → Fs → ℕ → ℕ → Fs × Option String
pwd_rec zero s ino len = (s, none)
pwd_rec (suc f) s ino len =
    let (t, dir) = inode_read s ino in
    let (u, up) = dir_find t ino dot_dot in
    if ino == 0 then (s, if leb len 1 then none else some (47 ∷ [])) else elim (found_inode up) [
      | none ↦ (u, none)
      | some parent ↦
          let (v, self) = dir_find u parent dot in
          elim (found_inode self) [
            | none ↦ (v, none)
            | some i ↦
                let (w, name) = name_in (read_buf2 v (dir.direct 0)) parent ino in
                let (z, above) = pwd_rec f w parent len in
                elim name [
                  | [] ↦ (w, none)
                  | c ∷ rest ↦ elim above [
                    | none ↦ (z, none)
                    | some buf ↦ (z, append_part buf (c ∷ rest) len)
                  ]
                ]
          ]
    ]

-- `fs_pwd`, for a tree of at most as many levels as there are inodes.
unfoldable pub fs_pwd : Fs → ℕ → Fs × Option String
fs_pwd s len = if ltb len 2 then (s, none) else pwd_rec (fs_max_inodes + 1) s s.cwd_inode len

-- `fs_stat`: `none` is -1.
unfoldable pub fs_stat : Fs → String → Fs × Option Inode
fs_stat s path =
    let (t, found) = resolve_path s path s.cwd_inode in
    elim found [ none ↦ (t, none) | some ino ↦ let (u, x) = inode_read t ino in (u, some x) ]

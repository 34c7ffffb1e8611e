-- ===== src/Fs/Create.antt =====
-- Making a file or a directory.
use seng21213_os.Prelude.{ℕ, not, ◌||◌, none, some, ◌==◌, if◌then◌else◌, update}
use seng21213_os.Fs.{Fs, Inode, Result, String, write_out, inode_dir, dot, dot_dot, same_string}
use seng21213_os.Fs.Bitmap.{alloc_block, free_block, alloc_inode, free_inode}
use seng21213_os.Fs.InodeTable.{inode_write, no_inode}
use seng21213_os.Fs.Directory.{dir_find, dir_add}
use seng21213_os.Fs.Path.{split_parent}
use seng21213_os.Fs.Format.{empty_directory, add_dots}

-- The inode of a new file or directory whose first block is `b`.
abbrev pub new_inode : ℕ → ℕ → Inode
new_inode mode b = record no_inode { mode = mode; direct = update (λ k. 0) 0 b }

-- The part of `create_inode` from the new inode on: its block, and the entry in the parent.
unfoldable pub link_inode : Fs → ℕ → String → ℕ → ℕ → ℕ → Fs × Result
link_inode s parent name mode ino b =
    let t = inode_write s ino (new_inode mode b) in
    let empty = empty_directory t.block_buf in
    let buf = if mode == inode_dir then add_dots empty ino parent else empty in
    let (u, wrote) = write_out (record t { block_buf = buf }) b buf in
    let (v, added) = dir_add u parent name ino in
    if not wrote
    then (free_inode (free_block u b) ino, Result.err 5)
    else if not added
    then (free_inode (free_block v b) ino, Result.err 5)
    else (v, Result.ok ino)

-- `create_inode`, with the new inode where it returns 0.
unfoldable pub create_inode : Fs → ℕ → String → ℕ → Fs × Result
create_inode s parent name mode =
    let (t, found) = dir_find s parent name in
    let (u, ino) = alloc_inode t in
    let (v, block) = alloc_block u in
    elim found [
      | some e ↦ (t, Result.err 2)
      | none ↦ elim ino [
        | none ↦ (u, Result.err 3)
        | some i ↦ elim block [
          | none ↦ (free_inode v i, Result.err 4)
          | some b ↦ link_inode v parent name mode i b
        ]
      ]
    ]

abbrev zero_if_ok : Result → Result
zero_if_ok (Result.ok n) = Result.ok 0
zero_if_ok (Result.err n) = Result.err n

-- `fs_mkdir`; a NULL path is an empty one.
unfoldable pub fs_mkdir : Fs → String → Fs × Result
fs_mkdir s path =
    let (t, split) = split_parent s path in
    if not s.fs_ready then (s, Result.err 1) else elim split [
      | none ↦ (t, Result.err 1)
      | some (parent, name) ↦
          let (u, r) = create_inode t parent name inode_dir in
          if same_string name dot || same_string name dot_dot
          then (t, Result.err 2)
          else (u, zero_if_ok r)
    ]

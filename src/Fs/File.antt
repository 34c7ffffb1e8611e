-- ===== src/Fs/File.antt =====
-- Files: opening, reading, writing and closing.
pub mod Descriptors
pub mod Transfer
use seng21213_os.Prelude.{
  ℕ, zero, suc, ◌+◌, ◌-◌, ◌*◌, ◌/◌, ◌%◌, ◌^◌, Bool, true, false, not, ◌&&◌, ◌||◌, Option, none,
  some, ltb, leb, ◌==◌, if◌then◌else◌, update, get_bit, find_first,
}
use seng21213_os.Ramdisk.{Block}
use seng21213_os.Machine.{u32}
use seng21213_os.Fs.{
  Fs, Inode, FileDesc, Result, String, read_buf2, write_out, fs_block_size, fs_max_fd, inode_file,
  fs_max_file_blocks, mem_copy,
}
use seng21213_os.Fs.InodeTable.{inode_read, inode_write, block_for_inode, release_inode_blocks}
use seng21213_os.Fs.Path.{resolve_path, split_parent}
use seng21213_os.Fs.Create.{create_inode}

-- `flags & FS_O_CREATE`, `FS_O_TRUNC` and `FS_O_APPEND`, and `(flags & 3u) == FS_O_RDONLY`.
abbrev pub creates : ℕ → Bool
creates flags = get_bit flags 8 == 1

abbrev pub truncates : ℕ → Bool
truncates flags = get_bit flags 9 == 1

abbrev pub appends : ℕ → Bool
appends flags = get_bit flags 10 == 1

abbrev pub is_read_only : ℕ → Bool
is_read_only flags = flags % 4 == 0

abbrev pub set_fd : Fs → ℕ → FileDesc → Fs
set_fd s fd f = record s { fds = update s.fds fd f }

-- The last loop of `fs_open`: the first descriptor that is not in use.
unfoldable pub open_fd : Fs → ℕ → ℕ → ℕ → Fs × Result
open_fd s ino flags size = elim (find_first (λ i. not (s.fds i).used) fs_max_fd 0) [
  | none ↦ (s, Result.err 6)
  | some i ↦ (
    set_fd s i (record {
      inode = ino;
      offset = if appends flags then size else 0;
      flags = flags;
      used = true;
    }),
    Result.ok i,
  )
]

-- `fs_open` from the inode on.
unfoldable pub open_inode : Block → Fs → ℕ → ℕ → Fs × Result
open_inode old s ino flags =
    let (t, x) = inode_read s ino in
    let (u, y) = release_inode_blocks old t x in
    let emptied = inode_write u ino (record y { size = 0 }) in
    if not (x.mode == inode_file)
    then (t, Result.err 5)
    else if truncates flags
    then open_fd emptied ino flags 0
    else open_fd t ino flags x.size

-- The inode that the path names, made if the flags ask for it.
unfoldable pub find_or_create : Fs → String → ℕ → Fs × Result
find_or_create s path flags =
    let (t, found) = resolve_path s path s.cwd_inode in
    let (u, split) = split_parent t path in
    elim found [
      | some ino ↦ (t, Result.ok ino)
      | none ↦ if not (creates flags) then (t, Result.err 2) else elim split [
        | none ↦ (u, Result.err 3)
        | some (parent, name) ↦
            let (v, r) = create_inode u parent name inode_file in
            elim r [ Result.ok ino ↦ (v, Result.ok ino) | Result.err n ↦ (v, Result.err 4) ]
      ]
    ]

-- `fs_open`; `old` is what the stack held where the pointers of an indirect block are read.
unfoldable pub fs_open : Block → Fs → String → ℕ → Fs × Result
fs_open old s path flags =
    let (t, r) = find_or_create s path flags in
    if not s.fs_ready
    then (s, Result.err 1)
    else elim r [ Result.err n ↦ (t, Result.err n) | Result.ok ino ↦ open_inode old t ino flags ]

abbrev pub is_open : Fs → ℕ → Bool
is_open s fd = ltb fd fs_max_fd && (s.fds fd).used

abbrev pub set_offset : Fs → ℕ → ℕ → Fs
set_offset s fd offset = set_fd s fd (record (s.fds fd) { offset = offset })

-- `b <= 0`, where `b` is an `int`
abbrev pub none_or_negative : ℕ → Bool
none_or_negative b = b == 0 || leb (2 ^ 31) b

-- How many bytes one round moves: to the end of the block, and no more than are left.
abbrev pub chunk : ℕ → ℕ → ℕ
chunk offset left =
    let room = fs_block_size - offset % fs_block_size in if ltb left room then left else room

-- The loop of `fs_read`, on fuel, with `done` bytes in `buf`: each round moves a byte at least.
unfoldable pub read_loop : ℕ → Block → Fs → Inode → ℕ → ℕ → ℕ → Block → Fs × Block × ℕ
read_loop zero old s x fd count done buf = (s, buf, done)
read_loop (suc f) old s x fd count done buf =
    let offset = (s.fds fd).offset in
    let (t, y, b) = block_for_inode old s x (offset / fs_block_size) false in
    if leb count done then (s, buf, done) else elim b [
      | none ↦ (t, buf, done)
      | some b ↦
          let u = read_buf2 t b in
          let take = chunk offset (count - done) in
          let moved = mem_copy take done (offset % fs_block_size) buf u.block_buf2 in
          let rest =
            read_loop f old (set_offset u fd (u32 (offset + take))) y fd count (done + take)
              moved in
          if none_or_negative b then (t, buf, done) else rest
    ]

-- `fs_read`: the buffer and what it returns.
unfoldable pub fs_read : Block → Fs → ℕ → Block → ℕ → Fs × Block × Result
fs_read old s fd buf count =
    let (t, x) = inode_read s (s.fds fd).inode in
    let offset = (s.fds fd).offset in
    let most = if ltb (x.size - offset) count then x.size - offset else count in
    let (u, moved, done) = read_loop most old t x fd most 0 buf in
    if not (is_open s fd)
    then (s, buf, Result.err 1)
    else if not (x.mode == inode_file)
    then (t, buf, Result.err 1)
    else if leb x.size offset
    then (t, buf, Result.ok 0)
    else (u, moved, Result.ok done)

-- One round of the loop of `fs_write`, from the block `b` on, which holds the offset.
unfoldable pub write_chunk : Fs → ℕ → ℕ → Block → ℕ → ℕ → Fs × Bool
write_chunk s b offset buf done take =
    let t = read_buf2 s b in
    let moved = mem_copy take (offset % fs_block_size) done t.block_buf2 buf in
    write_out (record t { block_buf2 = moved }) b moved

abbrev pub grow : Inode → ℕ → Inode
grow x offset = if ltb x.size offset then record x { size = offset } else x

-- The loop of `fs_write`, on fuel: each round moves a byte at least.
unfoldable pub write_loop : ℕ → Block → Fs → Inode → ℕ → ℕ → ℕ → Block → Fs × Inode × ℕ
write_loop zero old s x fd count done buf = (s, x, done)
write_loop (suc f) old s x fd count done buf =
    let offset = (s.fds fd).offset in
    let (t, y, b) = block_for_inode old s x (offset / fs_block_size) true in
    if leb count done || leb fs_max_file_blocks (offset / fs_block_size)
    then (s, x, done)
    else elim b [
      | none ↦ (t, y, done)
      | some b ↦
          let take = chunk offset (count - done) in
          let (u, wrote) = write_chunk t b offset buf done take in
          let next = u32 (offset + take) in
          let rest =
            write_loop f old (set_offset u fd next) (grow y next) fd count (done + take) buf in
          if none_or_negative b then (t, y, done) else if wrote then rest else (u, y, done)
    ]

-- `fs_write`
unfoldable pub fs_write : Block → Fs → ℕ → Block → ℕ → Fs × Result
fs_write old s fd buf count =
    let (t, x) = inode_read s (s.fds fd).inode in
    let (u, y, done) = write_loop count old t x fd count 0 buf in
    if not (is_open s fd) || is_read_only (s.fds fd).flags
    then (s, Result.err 1)
    else if not (x.mode == inode_file)
    then (t, Result.err 1)
    else (inode_write u (u.fds fd).inode y, Result.ok done)

unfoldable pub fs_close : Fs → ℕ → Fs × Result
fs_close s fd =
    if not (is_open s fd)
    then (s, Result.err 1)
    else (set_fd s fd (record (s.fds fd) { used = false }), Result.ok 0)

-- ===== src/Fs/Format.antt =====
-- Formatting the disk and mounting it.
use seng21213_os.Prelude.{
  ℕ, zero, suc, ◌+◌, ◌-◌, ◌*◌, Bool, true, false, not, ◌&&◌, ◌==◌, if◌then◌else◌, update, word_at,
  put_word,
}
use seng21213_os.Ramdisk.{Block, ramdisk_init}
use seng21213_os.Fs.{
  Fs, Inode, FileDesc, Result, read_buf, write_out, fs_block_size, fs_block_count, fs_max_inodes,
  root_dir_block, block_bitmap_block, inode_bitmap_block, inode_table_start, data_start_block,
  journal_start, inode_dir, fs_invalid_inode, dir_entry_size, dir_entries, mem_zero, str_copy_n,
  dot, dot_dot,
}
use seng21213_os.Fs.Bitmap.{bitmap_set}
use seng21213_os.Fs.InodeTable.{inode_write, no_inode}

-- `FS_MAGIC`
abbrev pub fs_magic : ℕ
fs_magic = 0x53465334

abbrev pub fs_version : ℕ
fs_version = 1

abbrev pub super_block : ℕ
super_block = 0

-- The ten words of a `superblock_t` at the start of a buffer.
unfoldable pub put_superblock : Block → Block
put_superblock buf =
    let two = put_word (put_word buf 0 fs_magic) 4 fs_version in
    let four = put_word (put_word two 8 fs_block_count) 12 fs_max_inodes in
    let six = put_word (put_word four 16 block_bitmap_block) 20 inode_bitmap_block in
    let eight = put_word (put_word six 24 inode_table_start) 28 0 in
    put_word (put_word eight 32 data_start_block) 36 journal_start

-- `for (i = lo; i < hi; i++) bitmap_set(block, i, 1);` for `n` bits from `i` on.
unfoldable pub mark_bits : ℕ → ℕ → ℕ → Fs → Fs
mark_bits block zero i s = s
mark_bits block (suc n) i s = mark_bits block n (i + 1) (bitmap_set s block i 1)

-- `for (i = 0; i < DIR_ENTRIES; i++) buf[i].inode = FS_INVALID_INODE;`
unfoldable pub free_entries : ℕ → ℕ → Block → Block
free_entries zero i buf = buf
free_entries (suc n) i buf =
    free_entries n (i + 1) (put_word buf (i * dir_entry_size + 28) fs_invalid_inode)

unfoldable pub empty_directory : Block → Block
empty_directory buf = free_entries dir_entries 0 (mem_zero fs_block_size 0 buf)

-- The entries "." and ".." of a new directory.
unfoldable pub add_dots : Block → ℕ → ℕ → Block
add_dots buf self parent =
    let first = put_word (str_copy_n 27 0 buf dot) 28 self in
    put_word (str_copy_n 27 dir_entry_size first dot_dot) (dir_entry_size + 28) parent

-- The inode of the root directory.
abbrev pub root_inode : Inode
root_inode = record no_inode { mode = inode_dir; direct = update (λ k. 0) 0 root_dir_block }

-- The bitmaps and the inode of the root, on a disk that has its superblock.
unfoldable pub format_tables : Fs → Fs
format_tables s =
    let blocks = mark_bits block_bitmap_block data_start_block 0 s in
    let journal =
      mark_bits block_bitmap_block (fs_block_count - journal_start) journal_start blocks in
    inode_write (bitmap_set journal inode_bitmap_block 0 1) 0 root_inode

-- The block of the root directory.
unfoldable pub format_root : Fs → Fs × Bool
format_root s =
    let buf = add_dots (empty_directory s.block_buf) 0 0 in
    write_out (record s { block_buf = buf }) root_dir_block buf

unfoldable pub fs_format : Fs → Fs × Result
fs_format s =
    let buf = put_superblock (mem_zero fs_block_size 0 s.block_buf) in
    let zeroed = record s { disk = λ b i. 0; block_buf = buf } in
    let (headed, first) = write_out zeroed super_block buf in
    let (rooted, second) = format_root (format_tables headed) in
    if not first
    then (headed, Result.err 1)
    else if not second
    then (rooted, Result.err 1)
    else (record rooted { cwd_inode = 0; fs_ready = true }, Result.ok 0)

abbrev pub no_file : FileDesc
no_file = record { inode = 0; offset = 0; flags = 0; used = false }

-- Whether the superblock in the buffer is one of this file system.
abbrev pub is_mountable : Block → Bool
is_mountable buf =
    word_at buf 0 == fs_magic
    && word_at buf 4 == fs_version
    && word_at buf 8 == fs_block_count
    && word_at buf 12 == fs_max_inodes

unfoldable pub fs_init : Fs → Fs
fs_init s =
    let t = read_buf (record s { disk = ramdisk_init s.disk }) super_block in
    let mounted =
      if is_mountable t.block_buf
      then record t { cwd_inode = word_at t.block_buf 28; fs_ready = true }
      else (fs_format t).0 in
    record mounted { fds = λ i. no_file }

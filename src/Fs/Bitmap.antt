-- ===== src/Fs/Bitmap.antt =====
-- The two bitmaps of kernel/fs.c: which blocks and which inodes are in use.
pub mod Alloc
use seng21213_os.Prelude.{
  ℕ, zero, suc, ◌+◌, ◌-◌, ◌/◌, ◌%◌, Bool, true, false, ◌&&◌, Option, none, some, ltb, leb, ◌==◌,
  if◌then◌else◌, update, get_bit, set_bit, clear_bit,
}
use seng21213_os.Ramdisk.{ramdisk_zero_block}
use seng21213_os.Fs.{
  Fs, read_buf, write_out, fs_max_inodes, block_bitmap_block, inode_bitmap_block, data_start_block,
  journal_start,
}

unfoldable pub bitmap_get : Fs → ℕ → ℕ → Fs × ℕ
bitmap_get s block bit = let t = read_buf s block in (t, get_bit (t.block_buf (bit / 8)) (bit % 8))

unfoldable pub bitmap_set : Fs → ℕ → ℕ → ℕ → Fs
bitmap_set s block bit value =
    let t = read_buf s block in
    let byte = t.block_buf (bit / 8) in
    let changed = if value == 0 then clear_bit byte (bit % 8) else set_bit byte (bit % 8) in
    let u = record t { block_buf = update t.block_buf (bit / 8) changed } in
    (write_out u block u.block_buf).0

-- The loop of `alloc_block`, for `n` blocks from `b` on; `none` is -1.
unfoldable pub alloc_block_from : ℕ → ℕ → Fs → Fs × Option ℕ
alloc_block_from zero b s = (s, none)
alloc_block_from (suc n) b s =
    let (t, used) = bitmap_get s block_bitmap_block b in
    let u = bitmap_set t block_bitmap_block b 1 in
    let rest = alloc_block_from n (b + 1) t in
    if used == 0 then (record u { disk = ramdisk_zero_block u.disk b }, some b) else rest

unfoldable pub alloc_block : Fs → Fs × Option ℕ
alloc_block s = alloc_block_from (journal_start - data_start_block) data_start_block s

unfoldable pub free_block : Fs → ℕ → Fs
free_block s b =
    if leb data_start_block b && ltb b journal_start then bitmap_set s block_bitmap_block b 0 else s

-- The loop of `alloc_inode`, for `n` inodes from `i` on; `none` is -1.
unfoldable pub alloc_inode_from : ℕ → ℕ → Fs → Fs × Option ℕ
alloc_inode_from zero i s = (s, none)
alloc_inode_from (suc n) i s =
    let (t, used) = bitmap_get s inode_bitmap_block i in
    let rest = alloc_inode_from n (i + 1) t in
    if used == 0 then (bitmap_set t inode_bitmap_block i 1, some i) else rest

unfoldable pub alloc_inode : Fs → Fs × Option ℕ
alloc_inode s = alloc_inode_from fs_max_inodes 0 s

unfoldable pub free_inode : Fs → ℕ → Fs
free_inode s ino = if ltb ino fs_max_inodes then bitmap_set s inode_bitmap_block ino 0 else s

-- The loop of `fs_free_blocks` and of `fs_free_inodes`: the clear bits among `n` from `i` on.
unfoldable pub count_free : ℕ → ℕ → ℕ → Fs → ℕ → Fs × ℕ
count_free block zero i s free_count = (s, free_count)
count_free block (suc n) i s free_count =
    let (t, used) = bitmap_get s block i in
    count_free block n (i + 1) t (if used == 0 then free_count + 1 else free_count)

unfoldable pub fs_free_blocks : Fs → Fs × ℕ
fs_free_blocks s =
    count_free block_bitmap_block (journal_start - data_start_block) data_start_block s 0

unfoldable pub fs_free_inodes : Fs → Fs × ℕ
fs_free_inodes s = count_free inode_bitmap_block fs_max_inodes 0 s 0

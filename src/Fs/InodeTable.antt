-- ===== src/Fs/InodeTable.antt =====
-- The inode table of kernel/fs.c, and the blocks of an inode.
pub mod Encoding
use seng21213_os.Prelude.{
  ℕ, zero, suc, ◌+◌, ◌-◌, ◌*◌, ◌/◌, ◌%◌, Bool, true, false, not, ◌&&◌, Option, none, some, ltb, leb,
  ◌==◌, if◌then◌else◌, update, word_at, put_word,
}
use seng21213_os.Machine.{u32}
use seng21213_os.Ramdisk.{Block, ramdisk_read_block}
use seng21213_os.Fs.{
  Fs, Inode, read_buf, write_out, fs_block_size, inode_table_start, ptrs_per_block, mem_zero,
}
use seng21213_os.Fs.Bitmap.{alloc_block, free_block}

-- `sizeof(inode_t)`
abbrev pub inode_bytes : ℕ
inode_bytes = 44

-- The eleven words of an `inode_t` at `buf + off`, to and from a record.
unfoldable pub get_inode : Block → ℕ → Inode
get_inode buf off = record {
  size = word_at buf (off + 4 * 0);
  mode = word_at buf (off + 4 * 1);
  direct = λ k. word_at buf (off + 4 * (k + 2));
  indirect = word_at buf (off + 4 * 10);
}

-- Word `k` of an `inode_t`.
abbrev pub inode_word : Inode → ℕ → ℕ
inode_word x k =
    if k == 0
    then x.size
    else if k == 1
    then x.mode
    else if k == 10
    then x.indirect
    else x.direct (k - 2)

-- The words `f k`, `f (k + 1)` and so on, `n` of them, to `buf + off + 4 * k` on.
unfoldable pub put_words : ℕ → ℕ → Block → ℕ → (ℕ → ℕ) → Block
put_words zero k buf off f = buf
put_words (suc n) k buf off f = put_words n (k + 1) (put_word buf (off + 4 * k) (f k)) off f

unfoldable pub put_inode : Block → ℕ → Inode → Block
put_inode buf off x = put_words 11 0 buf off (inode_word x)

abbrev pub inode_block : ℕ → ℕ
inode_block ino = inode_table_start + u32 (ino * inode_bytes) / fs_block_size

abbrev pub inode_offset : ℕ → ℕ
inode_offset ino = u32 (ino * inode_bytes) % fs_block_size

unfoldable pub inode_read : Fs → ℕ → Fs × Inode
inode_read s ino =
    let t = read_buf s (inode_block ino) in (t, get_inode t.block_buf (inode_offset ino))

unfoldable pub inode_write : Fs → ℕ → Inode → Fs
inode_write s ino x =
    let t = read_buf s (inode_block ino) in
    let u = record t { block_buf = put_inode t.block_buf (inode_offset ino) x } in
    (write_out u (inode_block ino) u.block_buf).0

-- A zeroed `inode_t`.
abbrev pub no_inode : Inode
no_inode = record { size = 0; mode = 0; direct = λ k. 0; indirect = 0 }

abbrev pub set_direct : Inode → ℕ → ℕ → Inode
set_direct x k b = record x { direct = update x.direct k b }

-- `block_for_inode` for one of the direct blocks. The result is the number that it returns, with
-- `none` for -1.
unfoldable pub direct_block : Fs → Inode → ℕ → Bool → Fs × Inode × Option ℕ
direct_block s x logical allocate =
    let (t, b) = alloc_block s in
    if x.direct logical == 0 && allocate
    then elim b [ none ↦ (t, x, none) | some b ↦ (t, set_direct x logical b, some b) ]
    else (s, x, some (x.direct logical))

-- The local array `ptrs`, which the code leaves as it is when the block is past the end.
abbrev pub pointers : Fs → ℕ → Block → Block
pointers s b old = ramdisk_read_block s.disk b old

-- `in->indirect`, given a block if it has none.
unfoldable pub add_indirect : Fs → Inode → Fs × Inode × Bool
add_indirect s x =
    let (t, b) = alloc_block s in
    if x.indirect == 0
    then elim b [
      | none ↦ (t, x, false)
      | some b ↦ let (u, done) = write_out t b (λ i. 0) in (u, record x { indirect = b }, done)
    ]
    else (s, x, true)

-- The end of `block_for_inode`, for entry `k` of the indirect block; `old` is what `ptrs` held.
unfoldable pub indirect_entry : Fs → Inode → ℕ → Bool → Block → Fs × Inode × Option ℕ
indirect_entry s x k allocate old =
    let ptrs = pointers s x.indirect old in
    let (t, b) = alloc_block s in
    if word_at ptrs (4 * k) == 0 && allocate
    then elim b [
      | none ↦ (t, x, none)
      | some b ↦
          let (u, done) = write_out t x.indirect (put_word ptrs (4 * k) b) in
          (u, x, if done then some b else none)
    ]
    else (s, x, some (word_at ptrs (4 * k)))

unfoldable pub indirect_block : Fs → Inode → ℕ → Bool → Block → Fs × Inode × Option ℕ
indirect_block s x k allocate old =
    let (t, y, done) = add_indirect s x in
    let rest = indirect_entry t y k allocate (if x.indirect == 0 then (λ i. 0) else old) in
    if leb ptrs_per_block k
    then (s, x, none)
    else if x.indirect == 0 && not allocate
    then (s, x, some 0)
    else if done
    then rest
    else (t, y, none)

-- `block_for_inode`; `old` is what the stack held where `ptrs` is.
unfoldable pub block_for_inode : Block → Fs → Inode → ℕ → Bool → Fs × Inode × Option ℕ
block_for_inode old s x logical allocate =
    if ltb logical 8
    then direct_block s x logical allocate
    else indirect_block s x (logical - 8) allocate old

-- The first loop of `release_inode_blocks`, for `n` blocks from `i` on.
unfoldable pub release_direct : ℕ → ℕ → Fs → Inode → Fs × Inode
release_direct zero i s x = (s, x)
release_direct (suc n) i s x =
    release_direct n (i + 1) (if x.direct i == 0 then s else free_block s (x.direct i))
      (set_direct x i 0)

-- The loop over the entries of the indirect block.
unfoldable pub release_pointers : ℕ → ℕ → Block → Fs → Fs
release_pointers zero i ptrs s = s
release_pointers (suc n) i ptrs s =
    release_pointers n (i + 1) ptrs
      (if word_at ptrs (4 * i) == 0 then s else free_block s (word_at ptrs (4 * i)))

unfoldable pub release_inode_blocks : Block → Fs → Inode → Fs × Inode
release_inode_blocks old s x =
    let (t, y) = release_direct 8 0 s x in
    let ptrs = pointers t y.indirect old in
    if y.indirect == 0 then (t, y) else (
      free_block (release_pointers ptrs_per_block 0 ptrs t) y.indirect,
      record y { indirect = 0 },
    )

-- ===== src/Ramdisk.antt =====
-- kernel/ramdisk.c: a disk of 256 blocks in memory, with a journal of one before-image. A block is
-- a function of the offset; the journal's header is the first four words of block 254.
pub mod Recovery
pub mod Atomic
pub mod Roundtrip
mod Tests
use Prim.Native.Nat.{bit_xor}
use seng21213_os.Prelude.{
  ℕ, zero, suc, ◌+◌, ◌*◌, ◌%◌, ◌^◌, Bool, true, false, not, ◌||◌, Option, none, some, ltb, leb,
  ◌==◌, if◌then◌else◌, update, word_at, put_word,
}
use seng21213_os.Machine.{u32}

abbrev pub ramdisk_block_size : ℕ
ramdisk_block_size = 4096

abbrev pub ramdisk_blocks : ℕ
ramdisk_blocks = 256

abbrev pub journal_magic : ℕ
journal_magic = 0x4A4E4C31

abbrev pub journal_block : ℕ
journal_block = 254

abbrev pub journal_data_block : ℕ
journal_data_block = 255

abbrev pub Block : Type 0
Block = ℕ → ℕ

abbrev pub Disk : Type 0
Disk = ℕ → Block

-- The words of `journal_header_t`, by their number.
abbrev pub magic : ℕ
magic = 0

abbrev pub target_block : ℕ
target_block = 1

abbrev pub checksum : ℕ
checksum = 2

abbrev pub committed : ℕ
committed = 3

abbrev pub field : Disk → ℕ → ℕ
field d f = word_at (d journal_block) (4 * f)

abbrev pub set_field : Disk → ℕ → ℕ → Disk
set_field d f v = update d journal_block (put_word (d journal_block) (4 * f) v)

-- The loop of `checksum32`, for `n` bytes from `i` on.
unfoldable pub checksum_from : ℕ → ℕ → Block → ℕ → ℕ
checksum_from zero i p h = h
checksum_from (suc n) i p h = checksum_from n (i + 1) p (u32 (bit_xor h (p i) * 16777619))

unfoldable pub checksum32 : Block → ℕ → ℕ
checksum32 p n = checksum_from n 0 p 2166136261

-- The loop of `copy_bytes`, for `n` bytes from `i` on.
unfoldable pub copy_bytes : ℕ → ℕ → Block → Block → Block
copy_bytes zero i dst src = dst
copy_bytes (suc n) i dst src = copy_bytes n (i + 1) (update dst i (src i)) src

unfoldable pub journal_clear : Disk → Disk
journal_clear d =
    set_field (set_field (set_field (set_field d magic 0) target_block 0) checksum 0) committed 0

-- Whether the header is that of a transaction.
abbrev pub has_transaction : Disk → Bool
has_transaction d = not (
    not (field d magic == journal_magic)
    || leb ramdisk_blocks (field d target_block)
    || field d target_block == journal_block
    || field d target_block == journal_data_block)

-- The target of a transaction that is not committed gets its before-image back.
unfoldable pub restore : Disk → Disk
restore d =
    let t = field d target_block in
    if field d committed == 0
    then update d t (copy_bytes ramdisk_block_size 0 (d t) (d journal_data_block))
    else d

unfoldable pub journal_recover : Disk → Disk
journal_recover d =
    if has_transaction d
    then if checksum32 (d journal_data_block) ramdisk_block_size == field d checksum
      then journal_clear (restore d)
      else journal_clear d
    else d

unfoldable pub ramdisk_init : Disk → Disk
ramdisk_init d = journal_recover d

-- `ramdisk_read_block`: the buffer after it.
unfoldable pub ramdisk_read_block : Disk → ℕ → Block → Block
ramdisk_read_block d block buf =
    if leb ramdisk_blocks block then buf else copy_bytes ramdisk_block_size 0 buf (d block)

-- The before-image and the header, before the target changes.
unfoldable pub save_image : Disk → ℕ → Disk
save_image d block =
    update d journal_data_block (copy_bytes ramdisk_block_size 0 (d journal_data_block) (d block))

unfoldable pub open_journal : Disk → ℕ → Disk
open_journal d block =
    let marked = set_field d magic journal_magic in
    let aimed = set_field marked target_block block in
    let summed = set_field aimed checksum (checksum32 (d journal_data_block) ramdisk_block_size) in
    set_field summed committed 0

-- The first `n` bytes of the target are written.
unfoldable pub write_target : ℕ → Disk → ℕ → Block → Disk
write_target n d block src = update d block (copy_bytes n 0 (d block) src)

unfoldable pub commit : Disk → Disk
commit d = set_field d committed 1

abbrev pub refused : ℕ → Bool
refused block = leb ramdisk_blocks block || block == journal_block || block == journal_data_block

-- `ramdisk_write_block`: the disk after it, and whether it returns 0. `none` is a NULL buffer.
unfoldable pub ramdisk_write_block : Disk → ℕ → Option Block → Disk × Bool
ramdisk_write_block d block none = (d, false)
ramdisk_write_block d block (some src) =
    let opened = open_journal (save_image d block) block in
    if refused block
    then (d, false)
    else (journal_clear (commit (write_target ramdisk_block_size opened block src)), true)

unfoldable pub ramdisk_zero_block : Disk → ℕ → Disk
ramdisk_zero_block d block = (ramdisk_write_block d block (some (λ i. 0))).0

-- ===== src/Fs.antt =====
-- kernel/fs.c: the file system on the disk of kernel/ramdisk.c. A `const char *` that is only read
-- is the list of its characters before the end; an `inode_t` or a `dirent_t` in a buffer is read
-- and written word by word. The two static buffers are in the state, since a read of a block past
-- the end leaves a buffer as it was.
pub mod Strings
pub mod Bitmap
pub mod InodeTable
pub mod Directory
pub mod Path
pub mod Format
pub mod Create
pub mod File
pub mod Tree
pub mod Vfs
mod Tests
use seng21213_os.Prelude.{
  ℕ, zero, suc, ◌+◌, ◌*◌, ◌/◌, ◌%◌, Bool, true, false, Option, none, some, List, [], ◌∷◌, ltb, ◌==◌,
  if◌then◌else◌, update, word_at, put_word,
}
use seng21213_os.Ramdisk.{Block, Disk, ramdisk_read_block, ramdisk_write_block}

abbrev pub fs_block_size : ℕ
fs_block_size = 4096

abbrev pub fs_block_count : ℕ
fs_block_count = 256

abbrev pub fs_max_inodes : ℕ
fs_max_inodes = 64

abbrev pub fs_max_fd : ℕ
fs_max_fd = 16

abbrev pub fs_name_max : ℕ
fs_name_max = 27

abbrev pub fs_path_max : ℕ
fs_path_max = 255

abbrev pub root_dir_block : ℕ
root_dir_block = 1

abbrev pub block_bitmap_block : ℕ
block_bitmap_block = 2

abbrev pub inode_bitmap_block : ℕ
inode_bitmap_block = 3

abbrev pub inode_table_start : ℕ
inode_table_start = 4

abbrev pub data_start_block : ℕ
data_start_block = 6

abbrev pub journal_start : ℕ
journal_start = 254

abbrev pub inode_file : ℕ
inode_file = 1

abbrev pub inode_dir : ℕ
inode_dir = 2

abbrev pub fs_invalid_inode : ℕ
fs_invalid_inode = 0xffffffff

abbrev pub fs_max_file_blocks : ℕ
fs_max_file_blocks = 248

abbrev pub dir_entry_size : ℕ
dir_entry_size = 32

abbrev pub dir_entries : ℕ
dir_entries = 128

abbrev pub ptrs_per_block : ℕ
ptrs_per_block = 1024

abbrev pub String : Type 0
String = List ℕ

-- `inode_t`
pub record Inode : Type 0 where
  pub size : ℕ
  pub mode : ℕ
  pub direct : ℕ → ℕ
  pub indirect : ℕ

-- `file_desc_t`
pub record FileDesc : Type 0 where
  pub inode : ℕ
  pub offset : ℕ
  pub flags : ℕ
  pub used : Bool

-- The static variables of kernel/fs.c, and the disk.
pub record Fs : Type 0 where
  pub disk : Disk
  pub block_buf : Block
  pub block_buf2 : Block
  pub fds : ℕ → FileDesc
  pub cwd_inode : ℕ
  pub fs_ready : Bool

-- What a function returns: `err n` is the number -n.
pub data Result : Type 0 where
  ok err : ℕ → Result

-- `ramdisk_read_block(block, block_buf)`, and the same for the second buffer.
abbrev pub read_buf : Fs → ℕ → Fs
read_buf s b = record s { block_buf = ramdisk_read_block s.disk b s.block_buf }

abbrev pub read_buf2 : Fs → ℕ → Fs
read_buf2 s b = record s { block_buf2 = ramdisk_read_block s.disk b s.block_buf2 }

-- `ramdisk_write_block(block, buf)`: whether it returns 0.
abbrev pub write_out : Fs → ℕ → Block → Fs × Bool
write_out s b buf =
    let (d, done) = ramdisk_write_block s.disk b (some buf) in (record s { disk = d }, done)

-- `mem_zero(buf + i, n)`
unfoldable pub mem_zero : ℕ → ℕ → Block → Block
mem_zero zero i buf = buf
mem_zero (suc n) i buf = mem_zero n (i + 1) (update buf i 0)

-- `mem_copy(dst + i, src + j, n)`
unfoldable pub mem_copy : ℕ → ℕ → ℕ → Block → Block → Block
mem_copy zero i j dst src = dst
mem_copy (suc n) i j dst src = mem_copy n (i + 1) (j + 1) (update dst i (src j)) src

-- `str_eq(buf + i, name)`
unfoldable pub str_eq : Block → ℕ → String → Bool
str_eq buf i [] = buf i == 0
str_eq buf i (c ∷ name) =
    let rest = str_eq buf (i + 1) name in
    if buf i == 0 then false else if buf i == c then rest else false

-- `str_copy_n(buf + i, name, n + 1)`
unfoldable pub str_copy_n : ℕ → ℕ → Block → String → Block
str_copy_n zero i buf name = update buf i 0
str_copy_n (suc n) i buf [] = update buf i 0
str_copy_n (suc n) i buf (c ∷ name) = str_copy_n n (i + 1) (update buf i c) name

unfoldable pub str_len : String → ℕ
str_len [] = 0
str_len (c ∷ name) = suc (str_len name)

-- Equality of two strings in memory.
unfoldable pub same_string : String → String → Bool
same_string [] [] = true
same_string [] (d ∷ b) = false
same_string (c ∷ a) [] = false
same_string (c ∷ a) (d ∷ b) = let rest = same_string a b in if c == d then rest else false

-- The string at `buf + i`, of at most `n` characters.
unfoldable pub string_at : ℕ → Block → ℕ → String
string_at zero buf i = []
string_at (suc n) buf i =
    let rest = string_at n buf (i + 1) in if buf i == 0 then [] else buf i ∷ rest

abbrev pub dot : String
dot = 46 ∷ []

abbrev pub dot_dot : String
dot_dot = 46 ∷ 46 ∷ []

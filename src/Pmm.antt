-- ===== src/Pmm.antt =====
-- kernel/pmm.c: the physical frame manager, one bit of `frame_bitmap` for each 4 KiB frame. A set
-- bit is a frame that is taken or not usable. The static variables are the fields of `Pmm`.
-- The BIOS memory map at 0x8000 and the linker's `_kernel_end` are arguments of `init`.
pub mod Frames
pub mod Alloc
pub mod Free
pub mod Init
mod Tests
use seng21213_os.Prelude.{
  ℕ, zero, suc, ◌+◌, ◌-◌, ◌*◌, ◌/◌, ◌%◌, ◌^◌, Bool, true, false, not, ◌&&◌, ◌||◌, Option, none,
  some, ltb, leb, ◌==◌, if◌then◌else◌, update, find_first, get_bit, set_bit, clear_bit,
}

abbrev pub page_size : ℕ
page_size = 4096

abbrev pub max_memory : ℕ
max_memory = 0x08000000

abbrev pub max_frames : ℕ
max_frames = max_memory / page_size

abbrev pub low_memory : ℕ
low_memory = 0x00100000

abbrev e820_max_entries : ℕ
e820_max_entries = 128

-- `frame_bitmap`, a byte at each index
abbrev pub Bitmap : Type 0
Bitmap = ℕ → ℕ

pub record Pmm : Type 0 where
  pub bitmap : Bitmap
  pub frame_count : ℕ
  pub total_frames : ℕ
  pub used_frames : ℕ
  pub reserved_end : ℕ

-- `e820_entry_t`; its last word is not read.
pub record E820Entry : Type 0 where
  pub base : ℕ
  pub len : ℕ
  pub kind : ℕ

unfoldable pub bit_set : Bitmap → ℕ → Bitmap
bit_set m frame = update m (frame / 8) (set_bit (m (frame / 8)) (frame % 8))

unfoldable pub bit_clear : Bitmap → ℕ → Bitmap
bit_clear m frame = update m (frame / 8) (clear_bit (m (frame / 8)) (frame % 8))

unfoldable pub bit_test : Bitmap → ℕ → Bool
bit_test m frame = get_bit (m (frame / 8)) (frame % 8) == 1

-- A uint32_t sum, rounded down to a multiple of the page size.
unfoldable pub align_up_page : ℕ → ℕ
align_up_page value = (value + (page_size - 1)) % 2 ^ 32 / page_size * page_size

-- What the loop over the memory map changes.
pub record Scan : Type 0 where
  pub bits : Bitmap
  pub usable : ℕ
  pub max_end : ℕ

-- One round of the loop over the frames of a region.
unfoldable pub release_frame : Scan → ℕ → Scan
release_frame s f =
    if bit_test s.bits f then record s { bits = bit_clear s.bits f; usable = s.usable + 1 } else s

-- The `n` frames from `f` on.
unfoldable pub release_frames : ℕ → ℕ → Scan → Scan
release_frames zero f s = s
release_frames (suc n) f s = release_frames n (f + 1) (release_frame s f)

-- The frames from byte address `start` to `end`, neither yet rounded to pages.
unfoldable pub scan_region : ℕ → ℕ → Scan → Scan
scan_region start end s =
    let first = align_up_page start / page_size in
    let last = end / page_size in
    release_frames (last - first) first
      (if ltb s.max_end end then record s { max_end = end } else s)

-- One entry of the memory map: the guards, the clamp to `PMM_MAX_MEMORY`, the region.
unfoldable pub scan_entry : E820Entry → Scan → Scan
scan_entry e s =
    let sum = (e.base + e.len) % 2 ^ 64 in
    let end = if ltb max_memory sum then max_memory else sum in
    if not (e.kind == 1) || e.len == 0 || leb max_memory e.base
    then s
    else if leb end e.base
    then s
    else scan_region e.base end s

unfoldable pub scan_entries : (ℕ → E820Entry) → ℕ → ℕ → Scan → Scan
scan_entries entries zero i s = s
scan_entries entries (suc n) i s = scan_entries entries n (i + 1) (scan_entry (entries i) s)

-- What the last loop of `pmm_init` changes.
pub record Reserved : Type 0 where
  pub bits : Bitmap
  pub used : ℕ

unfoldable pub reserve_frame : ℕ → Reserved → ℕ → Reserved
reserve_frame kernel_end r i =
    let addr = i * page_size % 2 ^ 32 in
    if not (bit_test r.bits i) && (ltb addr kernel_end || ltb addr low_memory)
    then record { bits = bit_set r.bits i; used = r.used + 1 }
    else r

unfoldable pub reserve_frames : ℕ → ℕ → ℕ → Reserved → Reserved
reserve_frames kernel_end zero i r = r
reserve_frames kernel_end (suc n) i r =
    reserve_frames kernel_end n (i + 1) (reserve_frame kernel_end r i)

-- Every byte is 0xFF at first.
unfoldable pub scan_start : Scan
scan_start = record { bits = λ i. 0xff; usable = 0; max_end = 0 }

unfoldable pub scan_map : ℕ → (ℕ → E820Entry) → Scan
scan_map entry_count entries =
    scan_entries entries
      (if ltb entry_count e820_max_entries then entry_count else e820_max_entries) 0 scan_start

-- `pmm_init`, with the linker's end of the kernel, the map's count and its entries.
unfoldable pub init : ℕ → ℕ → (ℕ → E820Entry) → Pmm
init kernel_symbol entry_count entries =
    let kernel_end = align_up_page kernel_symbol in
    let s = scan_map entry_count entries in
    let frames = s.max_end / page_size in
    let r = reserve_frames kernel_end frames 0 (record { bits = s.bits; used = 0 }) in
    record {
      bitmap = r.bits;
      frame_count = frames;
      total_frames = s.usable;
      used_frames = r.used;
      reserved_end = kernel_end;
    }

-- The first frame whose bit is clear.
unfoldable pub first_free : Pmm → Option ℕ
first_free m = find_first (λ i. not (bit_test m.bitmap i)) m.frame_count 0

unfoldable pub take_frame : Pmm → ℕ → Pmm
take_frame m i = record m {
  bitmap = bit_set m.bitmap i;
  used_frames = (m.used_frames + 1) % 2 ^ 32;
}

-- `pmm_alloc_frame`: the state after it, and the address that it returns (0 if there is none).
unfoldable pub alloc_frame : Pmm → Pmm × ℕ
alloc_frame m = elim (first_free m) [
  | none ↦ (m, 0)
  | some i ↦ (take_frame m i, i * page_size % 2 ^ 32)
]

unfoldable pub free_frame : Pmm → ℕ → Pmm
free_frame m addr =
    let frame = addr / page_size in
    if leb m.frame_count frame || not (addr % page_size == 0)
    then m
    else if ltb addr m.reserved_end || ltb addr low_memory
    then m
    else if not (bit_test m.bitmap frame)
    then m
    else record m {
      bitmap = bit_clear m.bitmap frame;
      used_frames = if ltb 0 m.used_frames then m.used_frames - 1 else m.used_frames;
    }

-- `pmm_free_frames` and the byte counts, in uint32_t.
unfoldable pub free_frames : Pmm → ℕ
free_frames m = (m.total_frames + 2 ^ 32 - m.used_frames) % 2 ^ 32

unfoldable pub total_bytes : Pmm → ℕ
total_bytes m = m.total_frames * page_size % 2 ^ 32

unfoldable pub used_bytes : Pmm → ℕ
used_bytes m = m.used_frames * page_size % 2 ^ 32

unfoldable pub free_bytes : Pmm → ℕ
free_bytes m = free_frames m * page_size % 2 ^ 32

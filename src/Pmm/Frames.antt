-- ===== src/Pmm/Frames.antt =====
-- The bits of the frame bitmap, and the invariant of the frame manager.
use seng21213_os.Prelude.{
  ℕ, ◌+◌, ◌*◌, ◌/◌, ◌%◌, ◌≤◌, ◌<◌, ◌≡◌, Bool, true, false, not, arith, ◌==◌, if◌then◌else◌, count,
  count_flip, get_bit-set_bit, get_bit-clear_bit,
}
use seng21213_os.Pmm.{Bitmap, Pmm, page_size, max_frames, low_memory, bit_set, bit_clear, bit_test}

-- Every entry is a byte.
abbrev pub IsBytes : Bitmap → Type 0
IsBytes m = (i : ℕ) → m i < 256

abbrev pub is_free : Bitmap → ℕ → Bool
is_free m i = not (bit_test m i)

pub bit_set-IsBytes : (m : Bitmap) (f : ℕ) → IsBytes m → IsBytes (bit_set m f)
unfolding bit_set
bit_set-IsBytes m f h i =
    ground
      (arith, h i, get_bit-set_bit (m (f / 8)) (f % 8) 0 (h (f / 8)) (omega arith) (omega arith))

pub bit_clear-IsBytes : (m : Bitmap) (f : ℕ) → IsBytes m → IsBytes (bit_clear m f)
unfolding bit_clear
bit_clear-IsBytes m f h i =
    ground
      (arith, h i, get_bit-clear_bit (m (f / 8)) (f % 8) 0 (h (f / 8)) (omega arith) (omega arith))

pub bit_test-bit_set :
    (m : Bitmap) (f g : ℕ)
    → IsBytes m
    → bit_test (bit_set m f) g ≡ (if f == g then true else bit_test m g)
unfolding bit_set bit_test
bit_test-bit_set m f g h =
    ground
      (arith, get_bit-set_bit (m (f / 8)) (f % 8) (g % 8) (h (f / 8)) (omega arith) (omega arith))

pub bit_test-bit_clear :
    (m : Bitmap) (f g : ℕ)
    → IsBytes m
    → bit_test (bit_clear m f) g ≡ (if f == g then false else bit_test m g)
unfolding bit_clear bit_test
bit_test-bit_clear m f g h =
    ground
      (arith, get_bit-clear_bit (m (f / 8)) (f % 8) (g % 8) (h (f / 8)) (omega arith) (omega arith))

-- The bits are bytes, the counters add up with the clear bits, and nothing below the end of the
-- kernel or the first megabyte is free.
pub record IsValid (m : Pmm) : Type 0 where
  pub bytes : IsBytes m.bitmap
  pub small : m.frame_count ≤ max_frames
  pub counted : count (is_free m.bitmap) m.frame_count + m.used_frames ≡ m.total_frames
  pub total_small : m.total_frames ≤ max_frames
  pub low : (i : ℕ) → i * page_size < low_memory → i < m.frame_count → bit_test m.bitmap i ≡ true
  pub kernel :
      (i : ℕ) → i * page_size < m.reserved_end → i < m.frame_count → bit_test m.bitmap i ≡ true

pub count-bit_set :
    (m : Bitmap) (n f : ℕ)
    → IsBytes m
    → f < n
    → bit_test m f ≡ false
    → count (is_free m) n ≡ count (is_free (bit_set m f)) n + 1
count-bit_set m n f h l e =
    count_flip (is_free m) (is_free (bit_set m f)) n f l (ground arith)
      (ground (arith, bit_test-bit_set m f f h)) (λ j ne. ground (arith, bit_test-bit_set m f j h))

pub count-bit_clear :
    (m : Bitmap) (n f : ℕ)
    → IsBytes m
    → f < n
    → bit_test m f ≡ true
    → count (is_free (bit_clear m f)) n ≡ count (is_free m) n + 1
count-bit_clear m n f h l e =
    count_flip (is_free (bit_clear m f)) (is_free m) n f l
      (ground (arith, bit_test-bit_clear m f f h)) (ground arith)
      (λ j ne. ground (arith, bit_test-bit_clear m f j h))

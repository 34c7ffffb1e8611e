-- ===== src/Pmm/Alloc.antt =====
-- Allocation: the frame that `alloc_frame` hands out, and what it leaves alone.
use seng21213_os.Prelude.{
  refl, ℕ, ◌+◌, ◌*◌, ◌/◌, ◌%◌, ◌^◌, ◌≤◌, ◌<◌, ◌≡◌, ◌≢◌, ◌⊎◌, inl, inr, true, false, none, some,
  arith, Option-cases, count, count_none, Found, find_first-Found, find_first-none,
}
use seng21213_os.Pmm.{Pmm, page_size, low_memory, bit_test, first_free, take_frame, alloc_frame}
use seng21213_os.Pmm.Frames.{IsValid, is_free, bit_set-IsBytes, bit_test-bit_set, count-bit_set}

first_free-Found :
    (m : Pmm) (i : ℕ) → first_free m ≡ some i → Found (is_free m.bitmap) m.frame_count 0 i
unfolding first_free
first_free-Found m i h = find_first-Found (is_free m.bitmap) m.frame_count 0 i h

-- A free frame of a valid state lies above the kernel and above the first megabyte.
pub free_frame_above :
    {m : Pmm} (i : ℕ)
    → IsValid m
    → i < m.frame_count
    → bit_test m.bitmap i ≡ false
    → (low_memory ≤ i * page_size) × (m.reserved_end ≤ i * page_size) × (i * page_size < 2 ^ 32)
free_frame_above {m} i v l e = ground (arith, v.low i, v.kernel i, v.small)

take_frame-IsValid :
    {m : Pmm} (i : ℕ)
    → IsValid m
    → i < m.frame_count
    → bit_test m.bitmap i ≡ false
    → IsValid (take_frame m i)
unfolding take_frame
take_frame-IsValid {m} i v l e = record {
  bytes = bit_set-IsBytes m.bitmap i v.bytes;
  small = v.small;
  counted =
      ground (arith, v.counted, v.total_small, count-bit_set m.bitmap m.frame_count i v.bytes l e);
  total_small = v.total_small;
  low = λ j a b. ground (arith, v.low j a b, bit_test-bit_set m.bitmap i j v.bytes);
  kernel = λ j a b. ground (arith, v.kernel j a b, bit_test-bit_set m.bitmap i j v.bytes);
}

-- Allocation keeps the invariant of the frame manager.
pub alloc_frame-IsValid : {m : Pmm} → IsValid m → IsValid (alloc_frame m).0
unfolding alloc_frame
alloc_frame-IsValid {m} v = elim (Option-cases (first_free m)) [
  | inl e ↦ rw (e, alloc_frame) v
  | inr (i, e) ↦
      let f : Found (is_free m.bitmap) m.frame_count 0 i = first_free-Found m i e in
      rw (e, alloc_frame)
        (take_frame-IsValid i v (omega (arith, f.below)) (ground (arith, f.passes)))
]

-- What a successful call did: the frame was free, is taken, and no other bit changed.
pub record Taken (m : Pmm) (r : Pmm × ℕ) : Type 0 where
  pub aligned : r.1 % page_size ≡ 0
  pub in_range : r.1 / page_size < m.frame_count
  pub above_low : low_memory ≤ r.1
  pub above_kernel : m.reserved_end ≤ r.1
  pub was_free : bit_test m.bitmap (r.1 / page_size) ≡ false
  pub now_taken : bit_test r.0.bitmap (r.1 / page_size) ≡ true
  pub others : (j : ℕ) → j ≢ r.1 / page_size → bit_test r.0.bitmap j ≡ bit_test m.bitmap j
  pub lowest : (j : ℕ) → j < r.1 / page_size → bit_test m.bitmap j ≡ true
  pub used_more : r.0.used_frames ≡ m.used_frames + 1
  pub same_count : r.0.frame_count ≡ m.frame_count
  pub same_total : r.0.total_frames ≡ m.total_frames
  pub same_reserved : r.0.reserved_end ≡ m.reserved_end

take_frame-Taken :
    {m : Pmm} (i : ℕ)
    → IsValid m
    → Found (is_free m.bitmap) m.frame_count 0 i
    → Taken m (take_frame m i, i * page_size % 2 ^ 32)
unfolding take_frame
take_frame-Taken {m} i v f =
    let clear : bit_test m.bitmap i ≡ false = ground (arith, f.passes) in
    let inside : i < m.frame_count = omega (arith, f.below) in
    let above : (low_memory ≤ i * page_size)
        × (m.reserved_end ≤ i * page_size)
        × (i * page_size < 2 ^ 32) =
      free_frame_above i v inside clear in
    let index : i * page_size % 2 ^ 32 / page_size ≡ i = omega arith in
    record {
      aligned = omega arith;
      in_range = omega arith;
      above_low = omega arith;
      above_kernel = omega arith;
      was_free = rw index clear;
      now_taken = rw index (ground (arith, bit_test-bit_set m.bitmap i i v.bytes));
      others = λ j ne. ground (arith, index, bit_test-bit_set m.bitmap i j v.bytes);
      lowest = λ j b. ground (arith, f.first j (omega arith) (omega arith));
      same_count = refl;
      same_total = refl;
      same_reserved = refl;
      used_more = omega (
        arith,
        v.counted,
        v.total_small,
        count-bit_set m.bitmap m.frame_count i v.bytes inside clear,
      );
    }

no_free_frame : (m : Pmm) → first_free m ≡ none → count (is_free m.bitmap) m.frame_count ≡ 0
unfolding first_free
no_free_frame m h =
    count_none (is_free m.bitmap) m.frame_count
      (λ j l. find_first-none (is_free m.bitmap) m.frame_count 0 h j (omega arith) (omega arith))

-- In a valid state a call either returns 0 and changes nothing, and then every frame is taken, or
-- it takes the lowest free frame, which lies above the kernel and the first megabyte.
pub alloc_frame_cases :
    {m : Pmm}
    → IsValid m
    → ((alloc_frame m ≡ (m, 0)) × (m.used_frames ≡ m.total_frames)) ⊎ Taken m (alloc_frame m)
unfolding alloc_frame
alloc_frame_cases {m} v = elim (Option-cases (first_free m)) [
  | inl e ↦ inl (rw (e, alloc_frame), omega (arith, no_free_frame m e, v.counted))
  | inr (i, e) ↦ inr (rw (e, alloc_frame) (take_frame-Taken i v (first_free-Found m i e)))
]

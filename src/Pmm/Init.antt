-- ===== src/Pmm/Init.antt =====
-- `pmm_init`: every memory map leads to a valid state.
use seng21213_os.Prelude.{
  ℕ, zero, suc, ◌+◌, ◌-◌, ◌*◌, ◌/◌, ◌%◌, ◌^◌, ◌≤◌, ◌<◌, ◌≡◌, ◌⊎◌, inl, inr, Bool, true, false, not,
  ◌&&◌, ◌||◌, subst, arith, count, count_upper, count_none, ltb, if◌then◌else◌, Bool-cases,
  get_bit-full, count-le,
}
use native.Mathlib.Decide.{ℕ_discrete}
use seng21213_os.Pmm.{
  Bitmap, Scan, E820Entry, Reserved, page_size, low_memory, max_memory, max_frames, bit_test,
  align_up_page, release_frame, release_frames, scan_region, scan_entry, scan_entries, scan_start,
  scan_map, reserve_frame, reserve_frames, init,
}
use seng21213_os.Pmm.Frames.{
  IsValid, IsBytes, is_free, bit_clear-IsBytes, bit_test-bit_clear, count-bit_clear,
  bit_set-IsBytes, bit_test-bit_set, count-bit_set,
}

-- Between two rounds of the scan: the clear bits are counted, and lie below `max_end`.
record IsScan (s : Scan) : Type 0 where
  bytes : IsBytes s.bits
  counted : count (is_free s.bits) max_frames ≡ s.usable
  within : (i : ℕ) → bit_test s.bits i ≡ false → i < s.max_end / page_size
  small : s.max_end ≤ max_memory

release_frame-IsScan :
    {s : Scan} (f : ℕ) → IsScan s → f < s.max_end / page_size → IsScan (release_frame s f)
unfolding release_frame
release_frame-IsScan {s} f v l = elim (Bool-cases (bit_test s.bits f)) [
  | inl t ↦ rw t (record {
    bytes = bit_clear-IsBytes s.bits f v.bytes;
    counted =
        omega (
          arith,
          v.counted,
          count-bit_clear s.bits max_frames f v.bytes (omega (arith, v.small)) t,
        );
    within = λ i e. ground (arith, v.within i, bit_test-bit_clear s.bits f i v.bytes);
    small = v.small;
  })
  | inr e ↦ rw e v
]

max_end-release_frame : (s : Scan) (f : ℕ) → (release_frame s f).max_end ≡ s.max_end
unfolding release_frame
max_end-release_frame s f = ground arith

release_frames-IsScan :
    (n f : ℕ) {s : Scan} → IsScan s → n ≤ s.max_end / page_size - f → IsScan (release_frames n f s)
unfolding release_frames
release_frames-IsScan zero f v l = v
release_frames-IsScan (suc n) f {s} v l =
    release_frames-IsScan n (f + 1) (release_frame-IsScan f v (omega arith))
      (omega (arith, max_end-release_frame s f))

widen-IsScan :
    {s : Scan} (end : ℕ)
    → IsScan s
    → s.max_end ≤ end
    → end ≤ max_memory
    → IsScan (record s { max_end = end })
widen-IsScan end v a b = record {
  bytes = v.bytes;
  counted = v.counted;
  within = λ i e. omega (arith, v.within i e);
  small = b;
}

scan_region-IsScan :
    {s : Scan} (start end : ℕ) → IsScan s → end ≤ max_memory → IsScan (scan_region start end s)
unfolding scan_region
scan_region-IsScan {s} start end v l = elim (Bool-cases (ltb s.max_end end)) [
  | inl t ↦
      rw (t, scan_region)
        (release_frames-IsScan _ _ (widen-IsScan end v (ground arith) l) (omega arith))
  | inr e ↦
      let wide : end ≤ s.max_end = ground arith in
      rw (e, scan_region) (release_frames-IsScan _ _ v (omega arith))
]

-- The end of a region as the code clamps it.
abbrev clamped : E820Entry → ℕ
clamped e =
    if ltb max_memory ((e.base + e.len) % 2 ^ 64) then max_memory else (e.base + e.len) % 2 ^ 64

clamped-le : (e : E820Entry) → clamped e ≤ max_memory
clamped-le e = ground arith

scan_entry-IsScan : {s : Scan} (e : E820Entry) → IsScan s → IsScan (scan_entry e s)
unfolding scan_entry
scan_entry-IsScan {s} e v =
    ground (arith, scan_region-IsScan {s = s} e.base (clamped e) v (clamped-le e))

scan_entries-IsScan :
    (entries : ℕ → E820Entry) (n i : ℕ) {s : Scan} → IsScan s → IsScan (scan_entries entries n i s)
unfolding scan_entries
scan_entries-IsScan entries zero i v = v
scan_entries-IsScan entries (suc n) i v =
    scan_entries-IsScan entries n (i + 1) (scan_entry-IsScan (entries i) v)

all_taken : (i : ℕ) → bit_test scan_start.bits i ≡ true
unfolding scan_start bit_test
all_taken i = ground (arith, get_bit-full (i % 8) (omega arith))

scan_start-IsScan : IsScan scan_start
unfolding scan_start
scan_start-IsScan = record {
  bytes = λ i. omega arith;
  counted = count_none _ max_frames (λ j l. ground (arith, all_taken j));
  within = λ i e. absurd (ground (arith, all_taken i));
  small = omega arith;
}

-- Between two rounds of the last loop of `pmm_init`, which has dealt with the frames below `i`.
record IsReserving (total frames kernel_end i : ℕ) (r : Reserved) : Type 0 where
  bytes : IsBytes r.bits
  counted : count (is_free r.bits) frames + r.used ≡ total
  done :
      (j : ℕ)
      → j < i
      → (j * page_size < low_memory) ⊎ (j * page_size < kernel_end)
      → bit_test r.bits j ≡ true

-- The test of the loop.
abbrev reserves : ℕ → Bitmap → ℕ → Bool
reserves kernel_end bits i =
    not (bit_test bits i)
    && (ltb (i * page_size % 2 ^ 32) kernel_end || ltb (i * page_size % 2 ^ 32) low_memory)

reserves-free :
    (kernel_end : ℕ) (bits : Bitmap) (i : ℕ)
    → reserves kernel_end bits i ≡ true
    → bit_test bits i ≡ false
reserves-free kernel_end bits i h = ground arith

not_reserved :
    (kernel_end : ℕ) (bits : Bitmap) (i : ℕ)
    → i < max_frames
    → reserves kernel_end bits i ≡ false
    → (i * page_size < low_memory) ⊎ (i * page_size < kernel_end)
    → bit_test bits i ≡ true
not_reserved kernel_end bits i l h c = ground arith

reserve_frame-IsReserving :
    {total frames kernel_end : ℕ} (i : ℕ) {r : Reserved}
    → frames ≤ max_frames
    → IsReserving total frames kernel_end i r
    → i < frames
    → IsReserving total frames kernel_end (i + 1) (reserve_frame kernel_end r i)
unfolding reserve_frame
reserve_frame-IsReserving {total} {frames} {kernel_end} i {r} few v l =
    elim (Bool-cases (reserves kernel_end r.bits i)) [
      | inl t ↦
          rw (t, reserve_frame)
            (record {
              bytes = bit_set-IsBytes r.bits i v.bytes;
              counted = omega (
                arith,
                v.counted,
                count-bit_set r.bits frames i v.bytes l (reserves-free kernel_end r.bits i t),
              );
              done = λ j b c. ground (arith, bit_test-bit_set r.bits i j v.bytes, v.done j);
            })
      | inr f ↦
          rw (f, reserve_frame)
            (record {
              bytes = v.bytes;
              counted = v.counted;
              done = λ j b c. elim (ℕ_discrete j i) [
                | yes e ↦ rw e (not_reserved kernel_end r.bits i (omega arith) f (rw e at c))
                | no e ↦ v.done j (omega arith) c
              ];
            })
    ]

reserve_frames-IsReserving :
    {total frames kernel_end : ℕ} (n i : ℕ) {r : Reserved}
    → frames ≤ max_frames
    → IsReserving total frames kernel_end i r
    → i + n ≡ frames
    → IsReserving total frames kernel_end frames (reserve_frames kernel_end n i r)
unfolding reserve_frames
reserve_frames-IsReserving {total} {frames} {kernel_end} zero i {r} few v e =
    let at_end : i ≡ frames = omega arith in
    subst (λ k. IsReserving total frames kernel_end k r) at_end v
reserve_frames-IsReserving (suc n) i few v e =
    reserve_frames-IsReserving n (i + 1) few (reserve_frame-IsReserving i few v (omega arith))
      (omega arith)

scan_map-IsScan : (n : ℕ) (entries : ℕ → E820Entry) → IsScan (scan_map n entries)
unfolding scan_map
scan_map-IsScan n entries = scan_entries-IsScan entries _ 0 scan_start-IsScan

IsReserving-start :
    {kernel_end : ℕ} (s : Scan)
    → IsScan s
    → IsReserving s.usable (s.max_end / page_size) kernel_end 0 (record { bits = s.bits; used = 0 })
IsReserving-start s v = record {
  bytes = v.bytes;
  counted = omega (
    arith,
    v.counted,
    count_upper (is_free s.bits) (s.max_end / page_size) (max_frames - s.max_end / page_size)
        max_frames (omega (arith, v.small)) (λ j a b. ground (arith, v.within j)),
  );
  done = λ j b c. absurd (omega arith);
}

-- Whatever the memory map and the size of the kernel, initialisation leads to a valid state.
pub init-IsValid :
    (kernel_symbol entry_count : ℕ) (entries : ℕ → E820Entry)
    → IsValid (init kernel_symbol entry_count entries)
unfolding init
init-IsValid kernel_symbol entry_count entries =
    let kernel_end : ℕ = align_up_page kernel_symbol in
    let s : Scan = scan_map entry_count entries in
    let frames : ℕ = s.max_end / page_size in
    let v : IsScan s = scan_map-IsScan entry_count entries in
    let few : frames ≤ max_frames = omega (arith, v.small) in
    let r : IsReserving s.usable frames kernel_end frames
        (reserve_frames kernel_end frames 0 (record { bits = s.bits; used = 0 })) =
      reserve_frames-IsReserving frames 0 few (IsReserving-start s v) (omega arith) in
    record {
      bytes = r.bytes;
      small = few;
      counted = r.counted;
      total_small = omega (arith, v.counted, count-le (is_free s.bits) max_frames);
      low = λ i a b. r.done i b (inl a);
      kernel = λ i a b. r.done i b (inr a);
    }

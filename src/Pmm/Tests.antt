-- ===== src/Pmm/Tests.antt =====
-- The frame manager on a map of one usable region of three frames at 1 MiB.
use seng21213_os.Prelude.{ℕ, ◌≡◌, refl, ◌⊎◌, arith, find_first, get_bit, set_bit, clear_bit}
use seng21213_os.Pmm.{
  Pmm, E820Entry, init, alloc_frame, free_frame, bit_test, scan_map, scan_entries, scan_entry,
  scan_region, release_frames, release_frame, scan_start, align_up_page, reserve_frames,
  reserve_frame, bit_set, bit_clear, first_free, take_frame,
}
use seng21213_os.Pmm.Frames.{IsValid}
use seng21213_os.Pmm.Alloc.{Taken, alloc_frame_cases}
use seng21213_os.Pmm.Free.{free_frame-alloc_frame}
use seng21213_os.Pmm.Init.{init-IsValid}

abbrev region : E820Entry
region = record { base = 0x100000; len = 0x3000; kind = 1 }

abbrev small : Pmm
small = init 0x20000 1 (λ i. region)

abbrev alloc_once : Pmm
alloc_once = (alloc_frame small).0

small_counts :
    (small.frame_count ≡ 259)
    × (small.total_frames ≡ 3)
    × (small.used_frames ≡ 0)
    × ((alloc_frame small).1 ≡ 0x100000)
    × (alloc_once.used_frames ≡ 1)
unfolding init scan_map scan_entries scan_entry scan_region release_frames release_frame scan_start
    align_up_page reserve_frames reserve_frame bit_set bit_clear bit_test get_bit set_bit clear_bit
    alloc_frame first_free take_frame find_first
small_counts = (refl, refl, refl, refl, refl)

small-IsValid : IsValid small
small-IsValid = init-IsValid 0x20000 1 (λ i. region)

init-IsValid_example : IsValid small
init-IsValid_example = init-IsValid 0x20000 1 (λ i. region)

alloc_frame_cases_example :
    ((alloc_frame small ≡ (small, 0)) × (small.used_frames ≡ small.total_frames))
    ⊎ Taken small (alloc_frame small)
alloc_frame_cases_example = alloc_frame_cases small-IsValid

free_frame-alloc_frame_example :
    let back = free_frame alloc_once (alloc_frame small).1 in
    ((j : ℕ) → bit_test back.bitmap j ≡ bit_test small.bitmap j)
    × (back.used_frames ≡ small.used_frames)
    × (back.frame_count ≡ small.frame_count)
    × (back.total_frames ≡ small.total_frames)
free_frame-alloc_frame_example = free_frame-alloc_frame small-IsValid (omega (arith, small_counts))

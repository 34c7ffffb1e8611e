-- ===== src/Buddy/Tests.antt =====
-- The allocator on a fresh pool.
use seng21213_os.Prelude.{ℕ, ◌≤◌, ◌<◌, ◌≡◌, refl, ◌⊎◌, true, false, find_first}
use seng21213_os.Fixtures.{three_frames}
use seng21213_os.Buddy.{
  Buddy, pool_order, buddy_max_blocks, add_block, split_once, split, buddy_alloc,
}
use seng21213_os.Buddy.Alloc.{buddy_alloc_cases}

abbrev pool : Buddy
pool = record {
  pmm = three_frames;
  blocks = λ i. record { addr = 0x200000; order = 8; free = true };
  block_count = 1;
  pool_base = 0x200000;
  initialized = true;
}

abbrev wanted : ℕ
wanted = 6

split_twice : (buddy_alloc pool wanted).0.block_count ≡ 3
unfolding buddy_alloc split split_once add_block find_first
split_twice = refl

buddy_alloc_cases_example :
    (((true ≡ false)
        ⊎ (pool_order < wanted)
        ⊎ ((i : ℕ)
            → i < pool.block_count
            → (pool.blocks i).free ≡ true
            → (pool.blocks i).order < wanted))
      × (buddy_alloc pool wanted ≡ (pool, 0)))
    ⊎ ((true ≡ true)
        × (wanted ≤ pool_order)
        × (i : ℕ) × (i < pool.block_count)
        × ((pool.blocks i).free ≡ true)
        × (wanted ≤ (pool.blocks i).order)
        × ((j : ℕ) → j < i → (pool.blocks j).free ≡ true → (pool.blocks j).order < wanted)
        × ((((buddy_alloc pool wanted).1 ≡ 0)
              × (buddy_max_blocks ≤ (buddy_alloc pool wanted).0.block_count))
            ⊎ (((buddy_alloc pool wanted).1 ≡ (pool.blocks i).addr)
                × (((buddy_alloc pool wanted).0.blocks i).order ≡ wanted)
                × (((buddy_alloc pool wanted).0.blocks i).free ≡ false))))
buddy_alloc_cases_example = buddy_alloc_cases pool wanted

-- ===== src/Buddy.antt =====
-- kernel/buddy.c: blocks of 2^order frames in one pool of 256 frames, kept in a table that grows.
-- The state holds the frames of kernel/pmm.c, from which the pool is taken.
pub mod Alloc
mod Tests
use Prim.Native.Nat.{bit_xor}
use seng21213_os.Prelude.{
  ℕ, zero, suc, ◌+◌, ◌-◌, ◌*◌, ◌%◌, ◌^◌, Bool, true, false, not, ◌&&◌, ◌||◌, Option, none, some,
  ltb, leb, ◌==◌, if◌then◌else◌, update, find_first,
}
use seng21213_os.Machine.{u32}
use seng21213_os.Pmm.{Pmm, page_size, alloc_frame, free_frame}

abbrev pub pool_order : ℕ
pool_order = 8

abbrev pub pool_frames : ℕ
pool_frames = 256

abbrev pub pool_size : ℕ
pool_size = pool_frames * page_size

abbrev pub buddy_max_blocks : ℕ
buddy_max_blocks = 1024

-- `buddy_block_t`
pub record BuddyBlock : Type 0 where
  pub addr : ℕ
  pub order : ℕ
  pub free : Bool

pub record Buddy : Type 0 where
  pub pmm : Pmm
  pub blocks : ℕ → BuddyBlock
  pub block_count : ℕ
  pub pool_base : ℕ
  pub initialized : Bool

abbrev pub set_block : Buddy → ℕ → BuddyBlock → Buddy
set_block b i x = record b { blocks = update b.blocks i x }

unfoldable pub block_size : ℕ → ℕ
block_size order = u32 (page_size * 2 ^ order)

unfoldable pub find_free_block : Buddy → ℕ → ℕ → Option ℕ
find_free_block b addr order =
    find_first (λ i. (b.blocks i).free && (b.blocks i).addr == addr && (b.blocks i).order == order)
      b.block_count 0

-- `add_block`: whether there was room.
unfoldable pub add_block : Buddy → ℕ → ℕ → Buddy × Bool
add_block b addr order = if leb buddy_max_blocks b.block_count then (b, false) else (
  record b {
    blocks = update b.blocks b.block_count (record { addr = addr; order = order; free = true });
    block_count = b.block_count + 1;
  },
  true,
)

abbrev pub use_block : Buddy → ℕ → Buddy
use_block b i = set_block b i (record (b.blocks i) { free = false })

unfoldable pub mark_used : Buddy → ℕ → ℕ → Buddy
mark_used b addr order = elim (find_free_block b addr order) [ none ↦ b | some i ↦ use_block b i ]

-- The frames number 1 to `n` after `first` are given back.
unfoldable pub give_back : ℕ → ℕ → ℕ → Pmm → Pmm
give_back zero j first m = m
give_back (suc n) j first m = give_back n (j + 1) first (free_frame m (u32 (first + j * page_size)))

-- The loop of `find_contiguous_pool`, for `n` frames from number `i` on; 0 when one is not next to
-- the one before.
unfoldable pub take_pool : ℕ → ℕ → ℕ → Pmm → Pmm × ℕ
take_pool zero i first m = (m, first)
take_pool (suc n) i first m =
    let (taken, addr) = alloc_frame m in
    let back = give_back (i - 1) 1 first (free_frame taken first) in
    let rest = take_pool n (i + 1) first taken in
    if addr == u32 (first + i * page_size)
    then rest
    else if addr == 0
    then (back, 0)
    else (free_frame back addr, 0)

unfoldable pub find_contiguous_pool : Pmm → Pmm × ℕ
find_contiguous_pool m =
    let (taken, first) = alloc_frame m in
    if first == 0 then (taken, 0) else take_pool (pool_frames - 1) 1 first taken

unfoldable pub buddy_init : Buddy → Buddy
buddy_init b =
    let (m, base) = find_contiguous_pool b.pmm in
    let reset = record b { pmm = m; block_count = 0; pool_base = base; initialized = false } in
    if base == 0 then reset else record (add_block reset base pool_order).0 { initialized = true }

-- One round of the loop of `buddy_alloc`: the block becomes its first half.
unfoldable pub split_once : Buddy → ℕ → Buddy × Bool
split_once b i =
    let x = b.blocks i in
    let lower = x.order - 1 in
    let second = u32 (x.addr + block_size lower) in
    add_block (set_block b i (record x { order = lower })) second lower

-- The loop, for the `d` orders that the block is too large.
unfoldable pub split : ℕ → Buddy → ℕ → Buddy × Bool
split zero b i = (b, true)
split (suc d) b i =
    let (halved, room) = split_once b i in
    let rest = split d halved i in if room then rest else (halved, false)

-- `buddy_alloc`: the address, or 0.
unfoldable pub buddy_alloc : Buddy → ℕ → Buddy × ℕ
buddy_alloc b order =
    if not b.initialized || ltb pool_order order
    then (b, 0)
    else elim (find_first (λ i. (b.blocks i).free && leb order (b.blocks i).order) b.block_count
        0) [
          | none ↦ (b, 0)
          | some i ↦
              let (s, room) = split ((b.blocks i).order - order) b i in
              if room then (use_block s i, (s.blocks i).addr) else (s, 0)
        ]

abbrev pub in_pool : Buddy → ℕ → Bool
in_pool b addr = leb b.pool_base addr && ltb addr (u32 (b.pool_base + pool_size))

-- The loop of `buddy_free`, for the `n` orders up to the pool's: merge while the buddy is free.
unfoldable pub merge : ℕ → Buddy → ℕ → ℕ → Buddy × ℕ × ℕ
merge zero b addr order = (b, addr, order)
merge (suc n) b addr order =
    let buddy = bit_xor addr (block_size order) in
    elim (find_free_block b buddy order) [
      | none ↦ (b, addr, order)
      | some i ↦
          let rest = merge n (use_block b i) (if ltb buddy addr then buddy else addr) (order + 1) in
          if in_pool b buddy then rest else (b, addr, order)
    ]

unfoldable pub buddy_free : Buddy → ℕ → ℕ → Buddy
buddy_free b addr order =
    let (merged, base, last) = merge (pool_order - order) b addr order in
    if not b.initialized || not (in_pool b addr) || ltb pool_order order
    then b
    else (add_block merged base last).0

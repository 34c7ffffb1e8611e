-- ===== src/Slab.antt =====
-- kernel/slab.c: four caches of objects of one size each. An address is a number, with 0 for NULL;
-- `memory` holds the byte at each address; the first four of a free object are the pointer to the
-- next.
-- `slab_memory` is the address of the four pages, which the linker chooses.
pub mod FreeList
pub mod Objects
mod Tests
use seng21213_os.Prelude.{
  ℕ, zero, suc, ◌+◌, ◌-◌, ◌*◌, ◌/◌, ◌%◌, ◌^◌, Bool, true, false, not, ◌&&◌, ◌||◌, Option, none,
  some, ltb, leb, ◌==◌, if◌then◌else◌, update, find_first, word_at, put_word,
}
use seng21213_os.Pmm.{page_size}
use seng21213_os.Machine.{u32}

abbrev pub cache_count : ℕ
cache_count = 4

abbrev pub cache_sizes : ℕ → ℕ
cache_sizes i = 32 * 2 ^ i

-- `slab_t` without the pointer to another slab, which is never followed.
pub record Slab : Type 0 where
  pub addr : ℕ
  pub object_size : ℕ
  pub free_count : ℕ
  pub free_list : ℕ

pub record SlabState : Type 0 where
  pub slabs : ℕ → Slab
  pub memory : ℕ → ℕ
  pub slab_initialized : Bool

abbrev pub set_slab : SlabState → ℕ → Slab → SlabState
set_slab s i x = record s { slabs = update s.slabs i x }

-- The first cache whose objects are large enough.
unfoldable pub cache_index : ℕ → Option ℕ
cache_index size = find_first (λ i. leb size (cache_sizes i)) cache_count 0

-- `object->next = free_list; free_list = object;`
unfoldable pub push_object : SlabState → ℕ → ℕ → SlabState
push_object s i object =
    let x = s.slabs i in
    record (set_slab s i (record x { free_list = object })) {
      memory = put_word s.memory object x.free_list;
    }

-- The loop of `create_slab`, for `n` objects from number `k` on.
unfoldable pub push_objects : ℕ → ℕ → SlabState → ℕ → SlabState
push_objects zero k s i = s
push_objects (suc n) k s i =
    let x = s.slabs i in push_objects n (k + 1) (push_object s i (x.addr + k * x.object_size)) i

unfoldable pub create_slab : ℕ → SlabState → ℕ → SlabState
create_slab slab_memory s index =
    let count = page_size / cache_sizes index in
    push_objects count 0
      (set_slab s index (record {
        addr = u32 (slab_memory + index * page_size);
        object_size = cache_sizes index;
        free_count = count;
        free_list = 0;
      }))
      index

-- The loop of `slab_init`, for `n` caches from `i` on.
unfoldable pub create_slabs : ℕ → ℕ → ℕ → SlabState → SlabState
create_slabs slab_memory zero i s = s
create_slabs slab_memory (suc n) i s =
    create_slabs slab_memory n (i + 1) (create_slab slab_memory s i)

unfoldable pub slab_init : ℕ → SlabState → SlabState
slab_init slab_memory s = record (create_slabs slab_memory cache_count 0 s) {
  slab_initialized = true;
}

-- The first object of the free list of a cache.
unfoldable pub take_object : SlabState → ℕ → SlabState × ℕ
take_object s i =
    let x = s.slabs i in
    if x.free_list == 0 then (s, 0) else (
      set_slab s i
          (record x { free_list = word_at s.memory x.free_list; free_count = x.free_count - 1 }),
      x.free_list,
    )

unfoldable pub kmalloc : SlabState → ℕ → SlabState × ℕ
kmalloc s size =
    if not s.slab_initialized || size == 0
    then (s, 0)
    else elim (cache_index size) [ none ↦ (s, 0) | some i ↦ take_object s i ]

abbrev pub in_page : SlabState → ℕ → ℕ → Bool
in_page s p i = leb (s.slabs i).addr p && ltb p (u32 ((s.slabs i).addr + page_size))

unfoldable pub give_object : SlabState → ℕ → ℕ → SlabState
give_object s i p =
    let t = push_object s i p in
    set_slab t i (record (t.slabs i) { free_count = u32 ((t.slabs i).free_count + 1) })

unfoldable pub kfree : SlabState → ℕ → SlabState
kfree s p =
    if not s.slab_initialized || p == 0
    then s
    else elim (find_first (in_page s p) cache_count 0) [ none ↦ s | some i ↦ give_object s i p ]

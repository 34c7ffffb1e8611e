-- ===== src/Buddy/Alloc.antt =====
-- What kernel/buddy.c allocates.
use seng21213_os.Prelude.{
  ℕ, zero, suc, ◌-◌, ◌≤◌, ◌<◌, ◌≡◌, refl, ◌∙◌, ap, ◌⊎◌, inl, inr, Bool, true, false, not, ◌&&◌,
  ◌||◌, arith, ltb, leb, Bool-cases, Option-cases, update, update_self, update_ne, find_first,
  Found, find_first-Found, find_first-none,
}
use seng21213_os.Buddy.{
  BuddyBlock, Buddy, pool_order, buddy_max_blocks, add_block, use_block, split_once, split,
  buddy_alloc,
}

-- The block number `i` of `t` is that of `s` made smaller by `d` orders; it is still in the table.
pub record IsSplit (s t : Buddy) (i d : ℕ) : Type 0 where
  pub same_addr : (t.blocks i).addr ≡ (s.blocks i).addr
  pub smaller : (t.blocks i).order ≡ (s.blocks i).order - d
  pub inside : i < t.block_count

split_once-IsSplit : (b : Buddy) (i : ℕ) → i < b.block_count → IsSplit b (split_once b i).0 i 1
unfolding split_once add_block
split_once-IsSplit b i l =
    let x = b.blocks i in
    let y : BuddyBlock = record x { order = x.order - 1 } in
    let here : update b.blocks i y i ≡ y = update_self b.blocks i y in
    elim (Bool-cases (leb buddy_max_blocks b.block_count)) [
      | inl t ↦
          rw (split_once, add_block, t)
            (record {
              same_addr = ap (λ z. z.addr) here;
              smaller = ap (λ z. z.order) here;
              inside = l;
            })
      | inr f ↦
          let there = update_ne (update b.blocks i y) b.block_count i _ (λ e. omega (arith, e)) in
          rw (split_once, add_block, f)
            (record {
              same_addr = ap (λ z. z.addr) there ∙ ap (λ z. z.addr) here;
              smaller = ap (λ z. z.order) there ∙ ap (λ z. z.order) here;
              inside = omega arith;
            })
    ]

split-IsSplit :
    (d : ℕ) (b : Buddy) (i : ℕ)
    → i < b.block_count
    → (split d b i).1 ≡ true
    → IsSplit b (split d b i).0 i d
unfolding split
split-IsSplit zero b i l h = record { same_addr = refl; smaller = omega arith; inside = l }
split-IsSplit (suc d) b i l h =
    let once = split_once-IsSplit b i l in
    elim (Bool-cases (split_once b i).1) [
      | inr f ↦ absurd (cc (rw (split, f) at h))
      | inl t ↦
          let r = split-IsSplit d (split_once b i).0 i once.inside (rw (split, t) at h) in
          rw (split, t)
            (record {
              same_addr = r.same_addr ∙ once.same_addr;
              smaller = omega (arith, r.smaller, once.smaller);
              inside = r.inside;
            })
    ]

split_once-full :
    (b : Buddy) (i : ℕ)
    → (split_once b i).1 ≡ false
    → buddy_max_blocks ≤ (split_once b i).0.block_count
unfolding split_once add_block
split_once-full b i h = elim (Bool-cases (leb buddy_max_blocks b.block_count)) [
  | inl t ↦ rw (split_once, add_block, t) (ground arith)
  | inr f ↦ absurd (cc (rw (split_once, add_block, f) at h))
]

split-full :
    (d : ℕ) (b : Buddy) (i : ℕ)
    → (split d b i).1 ≡ false
    → buddy_max_blocks ≤ (split d b i).0.block_count
unfolding split
split-full zero b i h = absurd cc
split-full (suc d) b i h = elim (Bool-cases (split_once b i).1) [
  | inr f ↦ rw (split, f) (split_once-full b i f)
  | inl t ↦ rw (split, t) (split-full d (split_once b i).0 i (rw (split, t) at h))
]

abbrev large_enough : Buddy → ℕ → ℕ → Bool
large_enough b order i = (b.blocks i).free && leb order (b.blocks i).order

ready :
    (b : Buddy) (order : ℕ)
    → (not b.initialized || ltb pool_order order) ≡ false
    → b.initialized ≡ true
ready b order h = elim (Bool-cases b.initialized) [ inl t ↦ t | inr f ↦ absurd (cc (rw f at h)) ]

fits :
    (b : Buddy) (order : ℕ)
    → (not b.initialized || ltb pool_order order) ≡ false
    → order ≤ pool_order
fits b order h = elim (Bool-cases (ltb pool_order order)) [
  | inl t ↦ absurd (cc (rw (t, ready b order h) at h))
  | inr f ↦ ground (arith, f)
]

-- `buddy_alloc` gives 0 and changes nothing when there is no pool, the order is too large or no
-- free block is large enough. Otherwise it uses the first free block that is: it gives 0 when the
-- table is full before the block is small enough, else the address of the block, which then has the
-- order asked for and is not free.
pub buddy_alloc_cases :
    (b : Buddy) (order : ℕ)
    → (((b.initialized ≡ false)
          ⊎ (pool_order < order)
          ⊎ ((i : ℕ) → i < b.block_count → (b.blocks i).free ≡ true → (b.blocks i).order < order))
        × (buddy_alloc b order ≡ (b, 0)))
      ⊎ ((b.initialized ≡ true)
          × (order ≤ pool_order)
          × (i : ℕ) × (i < b.block_count)
          × ((b.blocks i).free ≡ true)
          × (order ≤ (b.blocks i).order)
          × ((j : ℕ) → j < i → (b.blocks j).free ≡ true → (b.blocks j).order < order)
          × ((((buddy_alloc b order).1 ≡ 0)
                × (buddy_max_blocks ≤ (buddy_alloc b order).0.block_count))
              ⊎ (((buddy_alloc b order).1 ≡ (b.blocks i).addr)
                  × (((buddy_alloc b order).0.blocks i).order ≡ order)
                  × (((buddy_alloc b order).0.blocks i).free ≡ false))))
unfolding buddy_alloc
buddy_alloc_cases b order = elim (Bool-cases (not b.initialized || ltb pool_order order)) [
  | inl t ↦ inl (
    elim (Bool-cases b.initialized) [ inr f ↦ inl f | inl y ↦ inr (inl (ground arith)) ],
    rw (buddy_alloc, t),
  )
  | inr z ↦ elim (Option-cases (find_first (large_enough b order) b.block_count 0)) [
    | inl e ↦ inl (
      inr (
          inr (λ i l h. ground (
            arith,
            h,
            find_first-none (large_enough b order) b.block_count 0 e i (omega arith) (omega arith),
          ))),
      rw (buddy_alloc, z, e),
    )
    | inr (i, e) ↦
        let g : Found (large_enough b order) b.block_count 0 i = find_first-Found _ _ _ _ e in
        let l : i < b.block_count = omega (arith, g.below) in
        let d = (b.blocks i).order - order in
        inr (
          ready b order z,
          fits b order z,
          i,
          l,
          ground (arith, g.passes),
          ground (arith, g.passes),
          λ j h u. ground (arith, u, g.first j (omega arith) h),
          elim (Bool-cases (split d b i).1) [
            | inr f ↦ inl (rw (buddy_alloc, z, e, f) (refl, split-full d b i f))
            | inl t ↦
                let s = split-IsSplit d b i l t in
                let y : BuddyBlock = record ((split d b i).0.blocks i) { free = false } in
                let here : (use_block (split d b i).0 i).blocks i ≡ y =
                  update_self (split d b i).0.blocks i y in
                let large : order ≤ (b.blocks i).order = ground (arith, g.passes) in
                inr (
                  rw (buddy_alloc, z, e, t)
                    (
                      s.same_addr,
                      omega (arith, ap (λ x. x.order) here, s.smaller, large),
                      ap (λ x. x.free) here,
                    ))
          ],
        )
  ]
]

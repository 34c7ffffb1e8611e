-- ===== src/Pmm/Free.antt =====
-- Freeing a frame: what is refused, and that it undoes an allocation.
use seng21213_os.Prelude.{
  ℕ, ◌-◌, ◌/◌, ◌%◌, ◌≤◌, ◌<◌, ◌≡◌, ◌≢◌, ◌⊎◌, inl, inr, Bool, true, ◌&&◌, ap, arith, ltb, leb, ◌==◌,
  Bool-cases,
}
use seng21213_os.Pmm.{Pmm, page_size, low_memory, bit_clear, bit_test, alloc_frame, free_frame}
use seng21213_os.Pmm.Frames.{
  IsValid, IsBytes, bit_clear-IsBytes, bit_test-bit_clear, count-bit_clear,
}
use seng21213_os.Pmm.Alloc.{Taken, alloc_frame_cases, alloc_frame-IsValid}

-- The conditions under which a call has an effect.
pub record Frees (m : Pmm) (addr : ℕ) : Type 0 where
  pub aligned : addr % page_size ≡ 0
  pub in_range : addr / page_size < m.frame_count
  pub above_kernel : m.reserved_end ≤ addr
  pub above_low : low_memory ≤ addr
  pub taken : bit_test m.bitmap (addr / page_size) ≡ true

-- The state after a call that has an effect.
abbrev pub freed : Pmm → ℕ → Pmm
freed m addr = record m {
  bitmap = bit_clear m.bitmap (addr / page_size);
  used_frames = m.used_frames - 1;
}

-- The tests of the code, in one.
accepted : Pmm → ℕ → Bool
accepted m addr =
    ltb (addr / page_size) m.frame_count
    && addr % page_size == 0
    && leb m.reserved_end addr
    && leb low_memory addr
    && bit_test m.bitmap (addr / page_size)

accepted-Frees : (m : Pmm) (addr : ℕ) → accepted m addr ≡ true → Frees m addr
unfolding accepted
accepted-Frees m addr h = ground arith

Frees-accepted : (m : Pmm) (addr : ℕ) → Frees m addr → accepted m addr ≡ true
unfolding accepted
Frees-accepted m addr h = ground arith

-- A call clears the bit of a taken, aligned frame that lies above the kernel and the first
-- megabyte, and counts it as free; any other call changes nothing.
pub free_frame_cases :
    (m : Pmm) (addr : ℕ)
    → (Frees m addr × (free_frame m addr ≡ freed m addr))
      ⊎ ((¬ Frees m addr) × (free_frame m addr ≡ m))
unfolding free_frame accepted
free_frame_cases m addr = elim (Bool-cases (accepted m addr)) [
  | inl t ↦ inl (accepted-Frees m addr t, ground arith)
  | inr f ↦ inr (λ h. cc (Frees-accepted m addr h), ground arith)
]

freed-IsValid :
    {m : Pmm} {addr : ℕ} → 0 < m.used_frames → IsValid m → Frees m addr → IsValid (freed m addr)
freed-IsValid {m} {addr} pos v h =
    let frame : ℕ = addr / page_size in
    record {
      bytes = bit_clear-IsBytes m.bitmap frame v.bytes;
      small = v.small;
      counted = omega (
        arith,
        v.counted,
        pos,
        count-bit_clear m.bitmap m.frame_count frame v.bytes h.in_range h.taken,
      );
      total_small = v.total_small;
      low = λ j a b.
          ground (arith, v.low j a b, h.above_low, bit_test-bit_clear m.bitmap frame j v.bytes);
      kernel = λ j a b. ground (
        arith,
        v.kernel j a b,
        h.above_kernel,
        h.aligned,
        bit_test-bit_clear m.bitmap frame j v.bytes,
      );
    }

-- While some frame counts as used, freeing keeps the invariant, whatever address is given.
pub free_frame-IsValid :
    {m : Pmm} (addr : ℕ) → 0 < m.used_frames → IsValid m → IsValid (free_frame m addr)
free_frame-IsValid {m} addr pos v = elim (free_frame_cases m addr) [
  | inl (h, e) ↦ rw e (freed-IsValid pos v h)
  | inr (_, e) ↦ rw e v
]

free_frame-freed :
    (m : Pmm) (addr : ℕ) → IsBytes m.bitmap → free_frame (freed m addr) addr ≡ freed m addr
free_frame-freed m addr h = elim (free_frame_cases (freed m addr) addr) [
  | inl (f, _) ↦
      absurd (
        ground
          (arith, f.taken, bit_test-bit_clear m.bitmap (addr / page_size) (addr / page_size) h))
  | inr (_, e) ↦ e
]

-- A second call on one address has no effect.
pub free_frame_twice :
    {m : Pmm} (addr : ℕ) → IsValid m → free_frame (free_frame m addr) addr ≡ free_frame m addr
free_frame_twice {m} addr v = elim (free_frame_cases m addr) [
  | inl (h, e) ↦ rw e (free_frame-freed m addr v.bytes)
  | inr (_, e) ↦ rw (e, e)
]

free_frame-Taken :
    {m : Pmm}
    → IsValid m
    → (r : Pmm × ℕ) → Taken m r
    → IsBytes r.0.bitmap
    → let back = free_frame r.0 r.1 in
      ((j : ℕ) → bit_test back.bitmap j ≡ bit_test m.bitmap j)
      × (back.used_frames ≡ m.used_frames)
      × (back.frame_count ≡ m.frame_count)
      × (back.total_frames ≡ m.total_frames)
free_frame-Taken {m} v (n, addr) t bytes = elim (free_frame_cases n addr) [
  | inl (h, e) ↦ rw e (
    (λ j.
        ground
          (arith, t.others j, t.was_free, bit_test-bit_clear n.bitmap (addr / page_size) j bytes)),
    omega (arith, t.used_more),
    t.same_count,
    t.same_total,
  )
  | inr (no_effect, _) ↦ absurd (
      no_effect (record {
        aligned = t.aligned;
        in_range = omega (arith, t.in_range, t.same_count);
        above_kernel = omega (arith, t.above_kernel, t.same_reserved);
        above_low = t.above_low;
        taken = t.now_taken;
      }))
]

-- Freeing the frame that a call of `pmm_alloc_frame` returned gives back every bit and the counters.
pub free_frame-alloc_frame :
    {m : Pmm}
    → IsValid m
    → (alloc_frame m).1 ≢ 0
    → let back = free_frame (alloc_frame m).0 (alloc_frame m).1 in
      ((j : ℕ) → bit_test back.bitmap j ≡ bit_test m.bitmap j)
      × (back.used_frames ≡ m.used_frames)
      × (back.frame_count ≡ m.frame_count)
      × (back.total_frames ≡ m.total_frames)
free_frame-alloc_frame {m} v ne = elim (alloc_frame_cases v) [
  | inl (e, _) ↦ absurd (ne (ap (λ (r : Pmm × ℕ). r.1) e))
  | inr t ↦ free_frame-Taken v (alloc_frame m) t (alloc_frame-IsValid v).bytes
]

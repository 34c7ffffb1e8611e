-- ===== src/Fs/Bitmap/Alloc.antt =====
-- The bitmaps of kernel/fs.c as sets of bits on the disk, and what is allocated.
use seng21213_os.Prelude.{
  ℕ, zero, suc, ◌+◌, ◌/◌, ◌%◌, ◌≤◌, ◌<◌, ◌≡◌, refl, sym, ◌∙◌, ap, ◌≢◌, inl, inr, true, false,
  Option, none, some, arith, ◌==◌, if◌then◌else◌, Bool-cases, update, update_self, update_ne, subst,
  ==_iff, get_bit, set_bit, clear_bit, get_bit-set_bit, get_bit-clear_bit,
}
use native.Mathlib.Decide.{ℕ_discrete}
use seng21213_os.Ramdisk.{
  Block, Disk, ramdisk_block_size, journal_block, ramdisk_read_block, ramdisk_write_block,
  ramdisk_zero_block,
}
use seng21213_os.Ramdisk.Roundtrip.{read_in_range, Stored, write_block-Stored}
use seng21213_os.Fs.{Fs, read_buf, data_start_block, journal_start, block_bitmap_block}
use seng21213_os.Fs.Bitmap.{bitmap_get, bitmap_set, alloc_block_from, alloc_block}

-- The blocks outside the journal hold bytes.
abbrev pub IsBytes : Disk → Type 0
IsBytes d = (b i : ℕ) → b < journal_block → i < ramdisk_block_size → d b i < 256

-- Bit `bit` of the bitmap in block `block`.
abbrev pub bit_of : Disk → ℕ → ℕ → ℕ
bit_of d block bit = get_bit (d block (bit / 8)) (bit % 8)

-- How many bits a block has.
abbrev pub block_bits : ℕ
block_bits = 32768

pub bitmap_get_lem :
    (s : Fs) (block bit : ℕ)
    → block < journal_block
    → bit < block_bits
    → (bitmap_get s block bit).1 ≡ bit_of s.disk block bit
unfolding bitmap_get
bitmap_get_lem s block bit l h =
    ap (λ x. get_bit x (bit % 8))
      (read_in_range s.disk block s.block_buf (bit / 8) (omega arith) (omega arith))

-- `e` is the disk `d` with one bit of a bitmap set to `v`.
pub record IsBitSet (d e : Disk) (block bit v : ℕ) : Type 0 where
  pub bits :
      (j : ℕ) → j < block_bits → bit_of e block j ≡ (if bit == j then v else bit_of d block j)
  pub others : (c : ℕ) → c < journal_block → c ≢ block → e c ≡ d c
  pub bytes : IsBytes e

-- 0 for 0, and 1 for another number.
abbrev pub flag : ℕ → ℕ
flag value = if value == 0 then 0 else 1

abbrev changed : ℕ → ℕ → ℕ → ℕ
changed byte k value = if value == 0 then clear_bit byte k else set_bit byte k

changed_bits :
    (byte k j value : ℕ)
    → byte < 256
    → k < 8
    → j < 8
    → (changed byte k value < 256)
      × (get_bit (changed byte k value) j ≡ (if k == j then flag value else get_bit byte j))
changed_bits byte k j value b hk hj = elim (Bool-cases (value == 0)) [
  | inl t ↦ rw t (get_bit-clear_bit byte k j b hk hj)
  | inr f ↦ rw f (get_bit-set_bit byte k j b hk hj)
]

same_byte :
    (x y bit j v : ℕ)
    → bit / 8 ≡ j / 8
    → x ≡ y
    → (if bit % 8 == j % 8 then v else get_bit x (j % 8))
      ≡ (if bit == j then v else get_bit y (j % 8))
same_byte x y bit j v e h = elim (ℕ_discrete bit j) [
  | yes g ↦
      let a : (bit == j) ≡ true = ground (arith, g) in
      let b : (bit % 8 == j % 8) ≡ true = ground (arith, g) in rw (a, b) refl
  | no ne ↦
      let a : (bit == j) ≡ false = ground (arith, ne) in
      let b : (bit % 8 == j % 8) ≡ false = ground (arith, e, ne) in
      rw (a, b) (ap (λ z. get_bit z (j % 8)) h)
]

pub bitmap_set-IsBitSet :
    (s : Fs) (block bit value : ℕ)
    → IsBytes s.disk
    → block < journal_block
    → bit < block_bits
    → IsBitSet s.disk (bitmap_set s block bit value).disk block bit (flag value)
unfolding bitmap_set
bitmap_set-IsBitSet s block bit value v l h =
    let buf = ramdisk_read_block s.disk block s.block_buf in
    let byte = buf (bit / 8) in
    let new = update buf (bit / 8) (changed byte (bit % 8) value) in
    let w : Stored s.disk block new (ramdisk_write_block s.disk block (some new)) =
      write_block-Stored s.disk block new l in
    let old : (i : ℕ) → i < ramdisk_block_size → buf i ≡ s.disk block i =
      λ i hi. read_in_range s.disk block s.block_buf i (omega arith) hi in
    let small : byte < 256 =
      subst (λ x. x < 256) (sym (old (bit / 8) (omega arith)))
        (v block (bit / 8) l (omega arith)) in
    record {
      bits = λ j hj.
          ap (λ x. get_bit x (j % 8)) (w.target (j / 8) (omega arith))
          ∙ elim (ℕ_discrete (bit / 8) (j / 8)) [
            | yes e ↦
                ap (λ i. get_bit (new i) (j % 8)) (sym e)
                ∙ ap (λ x. get_bit x (j % 8)) (update_self buf (bit / 8) _)
                ∙ (changed_bits byte (bit % 8) (j % 8) value small (omega arith) (omega arith)).1
                ∙ same_byte byte (s.disk block (j / 8)) bit j (flag value) e
                    (old (bit / 8) (omega arith) ∙ ap (s.disk block) e)
            | no ne ↦
                let f : (bit == j) ≡ false = ground (arith, ne) in
                ap (λ x. get_bit x (j % 8))
                  (update_ne buf (bit / 8) (j / 8) _ ne ∙ old (j / 8) (omega arith))
                ∙ rw f refl
          ];
      others = w.others;
      bytes = λ b i hb hi. elim (ℕ_discrete b block) [
        | yes e ↦
            subst (λ x. x < 256)
              (sym
                (ap (λ c. (ramdisk_write_block s.disk block (some new)).0 c i) e ∙ w.target i hi))
              (elim (ℕ_discrete (bit / 8) i) [
                | yes g ↦
                    subst (λ x. x < 256) (sym (ap new (sym g) ∙ update_self buf (bit / 8) _))
                      (changed_bits byte (bit % 8) 0 value small (omega arith) (omega arith)).0
                | no ne ↦
                    subst (λ x. x < 256) (sym (update_ne buf (bit / 8) i _ ne ∙ old i hi))
                      (v block i l hi)
              ])
        | no ne ↦ subst (λ x. x < 256) (sym (ap (λ c. c i) (w.others b hb ne))) (v b i hb hi)
      ];
    }

-- What `alloc_block` does on the disk `d`: it finds all data blocks in use and changes nothing, or
-- gives the first free one, marked as used and cleared, and changes no other.
pub data Allocated (d e : Disk) : Option ℕ → Type 0 where
  nothing_free :
      ((b : ℕ) → data_start_block ≤ b → b < journal_start → bit_of d block_bitmap_block b ≢ 0)
      → e ≡ d
      → Allocated d e none
  first_free :
      (b : ℕ)
      → data_start_block ≤ b
      → b < journal_start
      → bit_of d block_bitmap_block b ≡ 0
      → ((j : ℕ) → data_start_block ≤ j → j < b → bit_of d block_bitmap_block j ≢ 0)
      → ((j : ℕ)
          → j < block_bits
          → bit_of e block_bitmap_block j ≡ (if b == j then 1 else bit_of d block_bitmap_block j))
      → ((i : ℕ) → i < ramdisk_block_size → e b i ≡ 0)
      → ((c : ℕ) → c < journal_block → c ≢ b → c ≢ block_bitmap_block → e c ≡ d c)
      → IsBytes e
      → Allocated d e (some b)

-- The step of `alloc_block` that finds the free block `b`.
took_block :
    (s : Fs) (b : ℕ)
    → IsBytes s.disk
    → data_start_block ≤ b
    → b < journal_start
    → bit_of s.disk block_bitmap_block b ≡ 0
    → ((j : ℕ) → data_start_block ≤ j → j < b → bit_of s.disk block_bitmap_block j ≢ 0)
    → Allocated s.disk (ramdisk_zero_block (bitmap_set s block_bitmap_block b 1).disk b) (some b)
unfolding ramdisk_zero_block
took_block s b v lo hi free before =
    let u = (bitmap_set s block_bitmap_block b 1).disk in
    let set : IsBitSet s.disk u block_bitmap_block b 1 =
      bitmap_set-IsBitSet s block_bitmap_block b 1 v (omega arith) (omega arith) in
    let w : Stored u b (λ i. 0) (ramdisk_write_block u b (some (λ i. 0))) =
      write_block-Stored u b (λ i. 0) hi in
    Allocated.first_free b lo hi free before
      (λ j hj.
        ap (λ (x : Block). get_bit (x (j / 8)) (j % 8))
          (w.others block_bitmap_block (omega arith) (λ e. omega (arith, e)))
        ∙ set.bits j hj)
      w.target (λ c hc nb nt. w.others c hc nb ∙ set.others c hc nt)
      (λ c i hc hi2. elim (ℕ_discrete c b) [
        | yes e ↦
            subst (λ x. x < 256)
              (sym (ap (λ k. (ramdisk_write_block u b (some (λ i. 0))).0 k i) e ∙ w.target i hi2))
              (omega arith)
        | no ne ↦
            subst (λ x. x < 256) (sym (ap (λ k. k i) (w.others c hc ne))) (set.bytes c i hc hi2)
      ])

alloc_block_from-Allocated :
    (n b : ℕ) (s : Fs)
    → b + n ≡ journal_start
    → data_start_block ≤ b
    → IsBytes s.disk
    → ((j : ℕ) → data_start_block ≤ j → j < b → bit_of s.disk block_bitmap_block j ≢ 0)
    → Allocated s.disk (alloc_block_from n b s).0.disk (alloc_block_from n b s).1
unfolding alloc_block_from bitmap_get
alloc_block_from-Allocated zero b s e lo v before =
    Allocated.nothing_free (λ j l h. before j l (omega arith)) refl
alloc_block_from-Allocated (suc n) b s e lo v before =
    let t = read_buf s block_bitmap_block in
    let get = bitmap_get_lem s block_bitmap_block b (omega arith) (omega arith) in
    elim (Bool-cases ((bitmap_get s block_bitmap_block b).1 == 0)) [
      | inl z ↦
          rw (alloc_block_from, z)
            (took_block t b v lo (omega arith) (sym get ∙ (==_iff _ _).0 z) before)
      | inr z ↦
          let used : bit_of s.disk block_bitmap_block b ≢ 0 =
            λ g. cc (sym z ∙ (==_iff _ _).1 (get ∙ g)) in
          rw (alloc_block_from, z)
            (alloc_block_from-Allocated n (b + 1) t (omega arith) (omega arith) v (λ j l h.
              elim (ℕ_discrete j b) [
                | yes g ↦ λ k. used (ap (bit_of s.disk block_bitmap_block) (sym g) ∙ k)
                | no ne ↦ before j l (omega arith)
              ]))
    ]

-- On a disk of bytes `alloc_block` gives the first data block that the bitmap has as free, marks
-- it and clears it, and changes no other block and no other bit; it gives -1 and changes nothing
-- only when all data blocks are in use. A block of the tables or of the journal is never given.
pub alloc_block-Allocated :
    (s : Fs) → IsBytes s.disk → Allocated s.disk (alloc_block s).0.disk (alloc_block s).1
unfolding alloc_block
alloc_block-Allocated s v =
    alloc_block_from-Allocated 248 6 s (omega arith) (omega arith) v (λ j l h. absurd (omega arith))

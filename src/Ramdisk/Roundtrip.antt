-- ===== src/Ramdisk/Roundtrip.antt =====
-- A block that is read after a write.
use seng21213_os.Prelude.{
  ℕ, ◌<◌, ◌≡◌, sym, ◌∙◌, ap, ◌≢◌, refl, Bool, true, false, some, arith, leb, ◌==◌, if◌then◌else◌,
  Bool-cases, update, update_self, update_ne, ==_iff, ◌⊎◌, inl, inr,
}
use seng21213_os.Ramdisk.{
  Block, Disk, ramdisk_block_size, ramdisk_blocks, journal_magic, journal_block, journal_data_block,
  magic, target_block, checksum, committed, set_field, checksum32, copy_bytes, journal_clear,
  save_image, open_journal, write_target, commit, refused, ramdisk_read_block, ramdisk_write_block,
}
use seng21213_os.Ramdisk.Recovery.{copied, block_set, journal_clear-block}

pub read_in_range :
    (d : Disk) (b : ℕ) (buf : Block) (j : ℕ)
    → b < ramdisk_blocks
    → j < ramdisk_block_size
    → ramdisk_read_block d b buf j ≡ d b j
unfolding ramdisk_read_block
read_in_range d b buf j h l =
    let f : leb ramdisk_blocks b ≡ false = ground arith in
    rw (ramdisk_read_block, f) (copied ramdisk_block_size buf (d b) j l)

open_journal-block : (d : Disk) (block b : ℕ) → journal_block ≢ b → open_journal d block b ≡ d b
unfolding open_journal
open_journal-block d block b h =
    let sum = checksum32 (d journal_data_block) ramdisk_block_size in
    let one = set_field d magic journal_magic in
    let two = set_field one target_block block in
    let three = set_field two checksum sum in
    block_set three committed 0 b h
    ∙ block_set two checksum sum b h
    ∙ block_set one target_block block b h
    ∙ block_set d magic journal_magic b h

abbrev final : Disk → ℕ → Block → Disk
final d block src =
    journal_clear
      (commit (write_target ramdisk_block_size (open_journal (save_image d block) block) block src))

final_target :
    (d : Disk) (block : ℕ) (src : Block) (j : ℕ)
    → journal_block ≢ block
    → j < ramdisk_block_size
    → final d block src block j ≡ src j
unfolding commit write_target
final_target d block src j h l =
    let o = open_journal (save_image d block) block in
    let w = update o block (copy_bytes ramdisk_block_size 0 (o block) src) in
    ap (λ (b : Block). b j)
      (journal_clear-block (set_field w committed 1) block h
        ∙ block_set w committed 1 block h
        ∙ update_self o block (copy_bytes ramdisk_block_size 0 (o block) src))
    ∙ copied ramdisk_block_size (o block) src j l

final_other :
    (d : Disk) (block : ℕ) (src : Block) (b : ℕ)
    → journal_block ≢ b
    → journal_data_block ≢ b
    → block ≢ b
    → final d block src b ≡ d b
unfolding commit write_target save_image
final_other d block src b h g ne =
    let o = open_journal (save_image d block) block in
    let w = update o block (copy_bytes ramdisk_block_size 0 (o block) src) in
    journal_clear-block (set_field w committed 1) b h
    ∙ block_set w committed 1 b h
    ∙ update_ne o block b _ ne
    ∙ open_journal-block (save_image d block) block b h
    ∙ update_ne d journal_data_block b _ g

-- A write to a block outside the journal succeeds; a read of that block then gives what was
-- written, and a read of any other block outside the journal gives what it gave before. A write to
-- a block of the journal, or past the end, fails and changes nothing.
pub read_block-write_block :
    (d : Disk) (block : ℕ) (src buf : Block) (b j : ℕ)
    → b < ramdisk_blocks
    → b ≢ journal_block
    → b ≢ journal_data_block
    → j < ramdisk_block_size
    → ((refused block ≡ true) × (ramdisk_write_block d block (some src) ≡ (d, false)))
      ⊎ ((refused block ≡ false)
          × ((ramdisk_write_block d block (some src)).1 ≡ true)
          × (ramdisk_read_block (ramdisk_write_block d block (some src)).0 b buf j
              ≡ (if block == b then src j else ramdisk_read_block d b buf j)))
unfolding ramdisk_write_block
read_block-write_block d block src buf b j lb nh nd lj = elim (Bool-cases (refused block)) [
  | inl t ↦ inl (t, rw (ramdisk_write_block, t))
  | inr f ↦
      let e : ramdisk_write_block d block (some src) ≡ (final d block src, true) =
        rw (ramdisk_write_block, f) in
      let r : ramdisk_read_block (final d block src) b buf j ≡ final d block src b j =
        read_in_range (final d block src) b buf j lb lj in
      inr (
        f,
        ap (λ x. x.1) e,
        ap (λ x. ramdisk_read_block x.0 b buf j) e ∙ r ∙ elim (Bool-cases (block == b)) [
          | inl t ↦
              let g : block ≡ b = (==_iff _ _).0 t in
              rw t (
                ap (λ i. final d block src i j) (sym g)
                ∙ final_target d block src j (λ i. nh (sym (i ∙ g))) lj)
          | inr n ↦ rw n (
              ap (λ (x : Block). x j)
                (final_other d block src b (λ i. nh (sym i)) (λ i. nd (sym i))
                  (λ i. cc (sym n ∙ (==_iff _ _).1 i)))
              ∙ sym (read_in_range d b buf j lb lj))
        ],
      )
]

-- The result `r` of writing `src` to the block `b`: it succeeds, the block holds `src`, and the
-- other blocks outside the journal are as they were.
pub record Stored (d : Disk) (b : ℕ) (src : Block) (r : Disk × Bool) : Type 0 where
  pub succeeds : r.1 ≡ true
  pub target : (j : ℕ) → j < ramdisk_block_size → r.0 b j ≡ src j
  pub others : (c : ℕ) → c < journal_block → c ≢ b → r.0 c ≡ d c

pub write_block-Stored :
    (d : Disk) (b : ℕ) (src : Block)
    → b < journal_block
    → Stored d b src (ramdisk_write_block d b (some src))
unfolding ramdisk_write_block
write_block-Stored d b src l =
    let f : refused b ≡ false = ground (arith, l) in
    rw (ramdisk_write_block, f)
      (record {
        succeeds = refl;
        target = λ j h. final_target d b src j (λ e. omega (arith, e)) h;
        others = λ c h ne.
            final_other d b src c (λ e. omega (arith, e)) (λ e. omega (arith, e)) (λ e. ne (sym e));
      })

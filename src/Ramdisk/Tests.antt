-- ===== src/Ramdisk/Tests.antt =====
-- The properties of the disk on one that is zero but for the flag of an old transaction.
use seng21213_os.Prelude.{
  ◌≡◌, refl, ◌⊎◌, inr, true, false, some, arith, ◌==◌, if◌then◌else◌, ◌&&◌, word_at,
}
use seng21213_os.Ramdisk.{
  Block, Disk, magic, committed, field, refused, ramdisk_init, ramdisk_read_block,
  ramdisk_write_block,
}
use seng21213_os.Ramdisk.Atomic.{Point, interrupted, AllOrNothing, IsIdle, write_block_atomic}
use seng21213_os.Ramdisk.Roundtrip.{read_block-write_block}

abbrev old_disk : Disk
old_disk b i = if b == 254 && i == 12 then 1 else 0

abbrev sevens : Block
sevens i = 7

old_magic : field old_disk magic ≡ 0
unfolding word_at
old_magic = refl

old_committed : field old_disk committed ≡ 1
unfolding word_at
old_committed = refl

old_disk-IsIdle : IsIdle old_disk 9
old_disk-IsIdle = record {
  unmarked = λ e. omega (arith, e, old_magic);
  stale = inr (λ e. omega (arith, e, old_committed));
}

write_block_atomic_example :
    AllOrNothing old_disk 9 sevens (ramdisk_init (interrupted old_disk 9 sevens (Point.target 100)))
write_block_atomic_example =
    write_block_atomic old_disk 9 sevens (Point.target 100) old_disk-IsIdle refl

read_block-write_block_example :
    ((refused 9 ≡ true) × (ramdisk_write_block old_disk 9 (some sevens) ≡ (old_disk, false)))
    ⊎ ((refused 9 ≡ false)
        × ((ramdisk_write_block old_disk 9 (some sevens)).1 ≡ true)
        × (ramdisk_read_block (ramdisk_write_block old_disk 9 (some sevens)).0 9 sevens 5
            ≡ (if 9 == 9 then sevens 5 else ramdisk_read_block old_disk 9 sevens 5)))
read_block-write_block_example =
    read_block-write_block old_disk 9 sevens sevens 9 5 (omega arith) (λ e. omega (arith, e))
      (λ e. omega (arith, e)) (omega arith)

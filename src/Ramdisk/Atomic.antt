-- ===== src/Ramdisk/Atomic.antt =====
-- A write to the disk is all or nothing, wherever it is interrupted.
use seng21213_os.Prelude.{
  ℕ, zero, suc, ◌*◌, ◌^◌, ◌<◌, ◌≡◌, refl, sym, ◌∙◌, ap, ◌≢◌, ◌⊎◌, inl, inr, true, false, some,
  arith, ◌==◌, update, update_self, update_ne, word_at, ==_iff,
}
use native.Mathlib.Decide.{ℕ_discrete}
use seng21213_os.Ramdisk.{
  Block, Disk, ramdisk_block_size, journal_magic, journal_block, journal_data_block, magic,
  target_block, checksum, committed, field, set_field, checksum32, copy_bytes, journal_clear,
  journal_recover, save_image, open_journal, write_target, commit, refused, ramdisk_init,
  ramdisk_write_block,
}
use seng21213_os.Ramdisk.Recovery.{
  copied, checksum32_ext, checksum32-lt, field_self, field_ne, block_set, image_sum, Settled,
  Opened, recover-Settled, recover-Opened,
}

-- The first `k` of the four stores of `journal_clear`.
abbrev clear_upto : ℕ → Disk → Disk
clear_upto zero d = d
clear_upto (suc zero) d = set_field d magic 0
clear_upto (suc (suc zero)) d = set_field (set_field d magic 0) target_block 0
clear_upto (suc (suc (suc zero))) d =
    set_field (set_field (set_field d magic 0) target_block 0) checksum 0
clear_upto _ d = journal_clear d

-- The first `k` of the four stores of the header.
abbrev open_upto : ℕ → Disk → ℕ → Disk
open_upto zero d block = d
open_upto (suc zero) d block = set_field d magic journal_magic
open_upto (suc (suc zero)) d block = set_field (set_field d magic journal_magic) target_block block
open_upto (suc (suc (suc zero))) d block =
    set_field (set_field (set_field d magic journal_magic) target_block block) checksum
      (image_sum d)
open_upto _ d block = open_journal d block

-- Where `ramdisk_write_block` may stop, its stores done in the order of the source: within the
-- before-image, the header, the target, or the clearing of the header.
pub data Point : Type 0 where
  image header target clearing : ℕ → Point

abbrev opened : Disk → ℕ → Disk
opened d block = open_journal (save_image d block) block

abbrev written : Disk → ℕ → Block → Disk
written d block src = write_target ramdisk_block_size (opened d block) block src

-- The disk when the write of `src` to `block` has stopped.
pub interrupted : Disk → ℕ → Block → Point → Disk
interrupted d block src (Point.image n) =
    update d journal_data_block (copy_bytes n 0 (d journal_data_block) (d block))
interrupted d block src (Point.header k) = open_upto k (save_image d block) block
interrupted d block src (Point.target n) = write_target n (opened d block) block src
interrupted d block src (Point.clearing k) = clear_upto k (commit (written d block src))

-- The last point is the end of the write.
interrupted_last :
    (d : Disk) (block : ℕ) (src : Block)
    → refused block ≡ false
    → ramdisk_write_block d block (some src) ≡ (interrupted d block src (Point.clearing 4), true)
unfolding interrupted ramdisk_write_block
interrupted_last d block src r = rw (ramdisk_write_block, r)

-- What the disk may be after a write of `src` to `block` that started on `d`.
pub record AllOrNothing (d : Disk) (block : ℕ) (src : Block) (r : Disk) : Type 0 where
  pub others : (b : ℕ) → b ≢ journal_block → b ≢ journal_data_block → b ≢ block → r b ≡ d b
  pub whole :
      ((j : ℕ) → j < ramdisk_block_size → r block j ≡ d block j)
      ⊎ ((j : ℕ) → j < ramdisk_block_size → r block j ≡ src j)

-- The header of an idle disk: not marked as a transaction, and such that the next mark alone does
-- not make it one for `block`.
pub record IsIdle (d : Disk) (block : ℕ) : Type 0 where
  pub unmarked : field d magic ≢ journal_magic
  pub stale : (checksum32 (d block) ramdisk_block_size ≢ field d checksum) ⊎ (field d committed ≢ 0)

refused_not :
    (block : ℕ) → refused block ≡ false → (journal_block ≢ block) × (journal_data_block ≢ block)
refused_not block r = (ground arith, ground arith)

module _ (d : Disk) (block : ℕ) (src : Block) (idle : IsIdle d block)
    (ok : refused block ≡ false) where
  saved : Disk
  saved = save_image d block

  saved_block : (b : ℕ) → journal_data_block ≢ b → saved b ≡ d b
  unfolding saved save_image
  saved_block b h = update_ne d journal_data_block b _ h

  saved_image : (j : ℕ) → j < ramdisk_block_size → saved journal_data_block j ≡ d block j
  unfolding saved save_image
  saved_image j l =
      let image = copy_bytes ramdisk_block_size 0 (d journal_data_block) (d block) in
      ap (λ (b : Block). b j) (update_self d journal_data_block image)
      ∙ copied ramdisk_block_size (d journal_data_block) (d block) j l

  saved-field : (f : ℕ) → field saved f ≡ field d f
  saved-field f = ap (λ b. word_at b (4 * f)) (saved_block journal_block (λ e. omega (arith, e)))

  saved_sum : image_sum saved ≡ checksum32 (d block) ramdisk_block_size
  saved_sum = checksum32_ext (saved journal_data_block) (d block) ramdisk_block_size saved_image

  -- A disk whose blocks are those of `saved`, but for the header's and the target's.
  Same : Disk → Type 0
  Same x = (b : ℕ) → journal_block ≢ b → block ≢ b → x b ≡ saved b

  abbrev AtBlock : Disk → Block → Type 0
  AtBlock x c = (j : ℕ) → j < ramdisk_block_size → x block j ≡ c j

  -- Nothing was done to the target, or everything, and recovery has nothing to undo.
  settled :
      (x : Disk)
      → Same x
      → AtBlock x (d block) ⊎ AtBlock x src
      → Settled x
      → AllOrNothing d block src (journal_recover x)
  unfolding Same
  settled x s w h =
      let kept = recover-Settled x block h (refused_not block ok).0 in
      record {
        others = λ b e f g.
            recover-Settled x b h (λ i. e (sym i))
            ∙ s b (λ i. e (sym i)) (λ i. g (sym i))
            ∙ saved_block b (λ i. f (sym i));
        whole = elim w [
          | inl y ↦ inl (λ j l. ap (λ (b : Block). b j) kept ∙ y j l)
          | inr y ↦ inr (λ j l. ap (λ (b : Block). b j) kept ∙ y j l)
        ];
      }

  -- Recovery undoes what was done to the target.
  undone :
      (x : Disk)
      → Same x
      → Opened x block
      → field x committed ≡ 0
      → AllOrNothing d block src (journal_recover x)
  unfolding Same
  undone x s o c = record {
    others = λ b e f g.
        let ne : (block == b) ≡ false = ground (arith, g) in
        (recover-Opened x block b o ok c (λ i. e (sym i)) ∙ rw ne refl)
        ∙ s b (λ i. e (sym i)) (λ i. g (sym i))
        ∙ saved_block b (λ i. f (sym i));
    whole = inl (λ j l.
        let same : (block == block) ≡ true = (==_iff _ _).1 refl in
        let image = copy_bytes ramdisk_block_size 0 (x block) (x journal_data_block) in
        let r : journal_recover x block ≡ image =
          recover-Opened x block block o ok c (refused_not block ok).0 ∙ rw same refl in
        ap (λ (b : Block). b j) r
        ∙ copied ramdisk_block_size (x block) (x journal_data_block) j l
        ∙ ap (λ (b : Block). b j)
            (s journal_data_block (λ e. omega (arith, e)) (λ e. (refused_not block ok).1 (sym e)))
        ∙ saved_image j l);
  }

  Same-sum : (x : Disk) → Same x → image_sum x ≡ image_sum saved
  unfolding Same
  Same-sum x s =
      ap (λ b. checksum32 b ramdisk_block_size)
        (s journal_data_block (λ e. omega (arith, e)) (λ e. (refused_not block ok).1 (sym e)))

  set_field-Same : (x : Disk) (f v : ℕ) → Same x → Same (set_field x f v)
  unfolding Same
  set_field-Same x f v s b h g = block_set x f v b h ∙ s b h g

  saved-Same : Same saved
  unfolding Same
  saved-Same b h g = refl

  -- The stores of the header before the checksum leave the old one.
  stale-Settled :
      (x : Disk)
      → Same x
      → field x checksum ≡ field d checksum
      → field x committed ≡ field d committed
      → Settled x
  stale-Settled x s e c = elim idle.stale [
    | inl ne ↦ inr (inl (λ g. ne (sym saved_sum ∙ sym (Same-sum x s) ∙ g ∙ e)))
    | inr ne ↦ inr (inr (λ g. ne (sym c ∙ g)))
  ]

  abbrev marked : Disk
  marked = set_field saved magic journal_magic

  abbrev aimed : Disk
  aimed = set_field marked target_block block

  abbrev summed : Disk
  summed = set_field aimed checksum (image_sum saved)

  abbrev header_done : Disk
  header_done = set_field summed committed 0

  summed-Same : Same summed
  summed-Same = set_field-Same aimed checksum (image_sum saved) (
      set_field-Same marked target_block block
        (set_field-Same saved magic journal_magic saved-Same))

  block-lt : block < 2 ^ 32
  block-lt = ground (arith, ok)

  summed-Opened : Opened summed block
  summed-Opened = record {
    is_marked =
        field_ne aimed checksum magic (image_sum saved) (λ e. omega (arith, e))
        ∙ field_ne marked target_block magic block (λ e. omega (arith, e))
        ∙ field_self saved magic journal_magic (omega arith);
    aimed =
        field_ne aimed checksum target_block (image_sum saved) (λ e. omega (arith, e))
        ∙ field_self marked target_block block block-lt;
    summed =
        field_self aimed checksum (image_sum saved) (checksum32-lt _ _)
        ∙ sym (Same-sum summed summed-Same);
  }

  header_done-Same : Same header_done
  header_done-Same = set_field-Same summed committed 0 summed-Same

  header_done-Opened : Opened header_done block
  header_done-Opened = record {
    is_marked = field_ne summed committed magic 0 (λ e. omega (arith, e)) ∙ summed-Opened.is_marked;
    aimed = field_ne summed committed target_block 0 (λ e. omega (arith, e)) ∙ summed-Opened.aimed;
    summed =
        field_ne summed committed checksum 0 (λ e. omega (arith, e))
        ∙ summed-Opened.summed
        ∙ Same-sum summed summed-Same
        ∙ sym (Same-sum header_done header_done-Same);
  }

  header_done-committed : field header_done committed ≡ 0
  header_done-committed = field_self summed committed 0 (omega arith)

  untouched : (x : Disk) → ((b : ℕ) → journal_block ≢ b → x b ≡ saved b) → AtBlock x (d block)
  untouched x s j l =
      ap (λ (b : Block). b j)
        (s block (refused_not block ok).0 ∙ saved_block block (refused_not block ok).1)

  saved_untouched : AtBlock saved (d block)
  saved_untouched = untouched saved (λ b h. refl)

  header_case : (k : ℕ) → AllOrNothing d block src (journal_recover (open_upto k saved block))
  unfolding open_journal
  header_case zero =
      settled saved saved-Same (inl saved_untouched)
        (inl (λ e. idle.unmarked (sym (saved-field magic) ∙ e)))
  header_case (suc zero) =
      let s = set_field-Same saved magic journal_magic saved-Same in
      settled marked s (inl (untouched marked (λ b h. block_set saved magic journal_magic b h))) (
        stale-Settled marked s
          (field_ne saved magic checksum journal_magic (λ e. omega (arith, e))
            ∙ saved-field checksum)
          (field_ne saved magic committed journal_magic (λ e. omega (arith, e))
            ∙ saved-field committed))
  header_case (suc (suc zero)) =
      let s =
        set_field-Same marked target_block block
          (set_field-Same saved magic journal_magic saved-Same) in
      settled aimed s
        (inl (
          untouched aimed (λ b h.
            block_set marked target_block block b h ∙ block_set saved magic journal_magic b h)))
        (stale-Settled aimed s
          (field_ne marked target_block checksum block (λ e. omega (arith, e))
            ∙ field_ne saved magic checksum journal_magic (λ e. omega (arith, e))
            ∙ saved-field checksum)
          (field_ne marked target_block committed block (λ e. omega (arith, e))
            ∙ field_ne saved magic committed journal_magic (λ e. omega (arith, e))
            ∙ saved-field committed))
  header_case (suc (suc (suc zero))) = elim (ℕ_discrete (field summed committed) 0) [
    | yes z ↦ undone summed summed-Same summed-Opened z
    | no nz ↦
        settled summed summed-Same
          (inl (
            untouched summed (λ b h.
              block_set aimed checksum (image_sum saved) b h
              ∙ block_set marked target_block block b h
              ∙ block_set saved magic journal_magic b h)))
          (inr (inr nz))
  ]
  header_case (suc (suc (suc (suc k)))) =
      undone header_done header_done-Same header_done-Opened header_done-committed

  -- Only the target differs from the disk at the end of the header.
  partly : ℕ → Disk
  partly n = write_target n header_done block src

  partly-block : (n b : ℕ) → block ≢ b → partly n b ≡ header_done b
  unfolding partly write_target
  partly-block n b h = update_ne header_done block b _ h

  field-partly : (n f : ℕ) → field (partly n) f ≡ field header_done f
  field-partly n f =
      ap (λ b. word_at b (4 * f))
        (partly-block n journal_block (λ e. (refused_not block ok).0 (sym e)))

  partly-Same : (n : ℕ) → Same (partly n)
  unfolding Same
  partly-Same n b h g = partly-block n b g ∙ header_done-Same b h g

  partly-Opened : (n : ℕ) → Opened (partly n) block
  partly-Opened n = record {
    is_marked = field-partly n magic ∙ header_done-Opened.is_marked;
    aimed = field-partly n target_block ∙ header_done-Opened.aimed;
    summed =
        field-partly n checksum
        ∙ header_done-Opened.summed
        ∙ Same-sum header_done header_done-Same
        ∙ sym (Same-sum (partly n) (partly-Same n));
  }

  target_case : (n : ℕ) → AllOrNothing d block src (journal_recover (partly n))
  target_case n =
      undone (partly n) (partly-Same n) (partly-Opened n)
        (field-partly n committed ∙ header_done-committed)

  abbrev finished : Disk
  finished = commit (partly ramdisk_block_size)

  finished-Same : Same finished
  unfolding commit
  finished-Same = set_field-Same _ committed 1 (partly-Same ramdisk_block_size)

  finished_block : AtBlock finished src
  unfolding commit partly write_target
  finished_block j l =
      let new = copy_bytes ramdisk_block_size 0 (header_done block) src in
      ap (λ (b : Block). b j)
        (block_set (partly ramdisk_block_size) committed 1 block (refused_not block ok).0
          ∙ update_self header_done block new)
      ∙ copied ramdisk_block_size (header_done block) src j l

  -- A store in the header changes neither the blocks nor the target.
  cleared :
      (x : Disk) (f : ℕ)
      → Same x × AtBlock x src
      → Same (set_field x f 0) × AtBlock (set_field x f 0) src
  cleared x f (s, w) = (
    set_field-Same x f 0 s,
    λ j l. ap (λ (b : Block). b j) (block_set x f 0 block (refused_not block ok).0) ∙ w j l,
  )

  abbrev clear_1 : Disk
  clear_1 = set_field finished magic 0

  abbrev clear_2 : Disk
  clear_2 = set_field clear_1 target_block 0

  abbrev clear_3 : Disk
  clear_3 = set_field clear_2 checksum 0

  abbrev clear_4 : Disk
  clear_4 = set_field clear_3 committed 0

  magic_1 : field clear_1 magic ≡ 0
  magic_1 = field_self finished magic 0 (omega arith)

  magic_2 : field clear_2 magic ≡ 0
  magic_2 = field_ne clear_1 target_block magic 0 (λ e. omega (arith, e)) ∙ magic_1

  magic_3 : field clear_3 magic ≡ 0
  magic_3 = field_ne clear_2 checksum magic 0 (λ e. omega (arith, e)) ∙ magic_2

  magic_4 : field clear_4 magic ≡ 0
  magic_4 = field_ne clear_3 committed magic 0 (λ e. omega (arith, e)) ∙ magic_3

  unmarked_done :
      (x : Disk)
      → Same x × AtBlock x src
      → field x magic ≡ 0
      → AllOrNothing d block src (journal_recover x)
  unmarked_done x (s, w) z = settled x s (inr w) (inl (λ e. omega (arith, e, z)))

  finished_written : Same finished × AtBlock finished src
  finished_written = (finished-Same, finished_block)

  clearing_case : (k : ℕ) → AllOrNothing d block src (journal_recover (clear_upto k finished))
  unfolding journal_clear commit
  clearing_case zero =
      settled finished finished-Same (inr finished_block)
        (inr (inr (λ e. omega (arith, e, field_self (partly 4096) committed 1 (omega arith)))))
  clearing_case (suc zero) = unmarked_done clear_1 (cleared _ magic finished_written) magic_1
  clearing_case (suc (suc zero)) =
      unmarked_done clear_2 (cleared _ target_block (cleared _ magic finished_written)) magic_2
  clearing_case (suc (suc (suc zero))) =
      unmarked_done clear_3
        (cleared _ checksum (cleared _ target_block (cleared _ magic finished_written))) magic_3
  clearing_case (suc (suc (suc (suc k)))) =
      unmarked_done clear_4
        (cleared _ committed
          (cleared _ checksum (cleared _ target_block (cleared _ magic finished_written))))
        magic_4

  image_case :
      (n : ℕ)
      → AllOrNothing d block src (
          journal_recover
            (update d journal_data_block (copy_bytes n 0 (d journal_data_block) (d block))))
  image_case n =
      let x = update d journal_data_block (copy_bytes n 0 (d journal_data_block) (d block)) in
      let same : (b : ℕ) → journal_data_block ≢ b → x b ≡ d b =
        λ b h. update_ne d journal_data_block b _ h in
      let quiet : Settled x = inl (λ e.
        idle.unmarked
          (ap (λ b. word_at b 0) (sym (same journal_block (λ g. omega (arith, g)))) ∙ e)) in
      record {
        others = λ b e f g. recover-Settled x b quiet (λ i. e (sym i)) ∙ same b (λ i. f (sym i));
        whole = inl (λ j l.
            ap (λ (b : Block). b j)
              (recover-Settled x block quiet (refused_not block ok).0
                ∙ same block (refused_not block ok).1));
      }

-- Wherever a write to an idle disk is interrupted, `ramdisk_init` finds the old block or the new
-- one whole, and the other blocks that are not the journal's as they were.
pub write_block_atomic :
    (d : Disk) (block : ℕ) (src : Block) (point : Point)
    → IsIdle d block
    → refused block ≡ false
    → AllOrNothing d block src (ramdisk_init (interrupted d block src point))
unfolding interrupted ramdisk_init saved partly open_journal
write_block_atomic d block src (Point.image n) idle ok = image_case d block src idle ok n
write_block_atomic d block src (Point.header k) idle ok = header_case d block src idle ok k
write_block_atomic d block src (Point.target n) idle ok = target_case d block src idle ok n
write_block_atomic d block src (Point.clearing k) idle ok = clearing_case d block src idle ok k

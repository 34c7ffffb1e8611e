-- ===== src/Ramdisk/Recovery.antt =====
-- What `journal_recover` does to the blocks of the disk, from the words of the journal's header.
use seng21213_os.Prelude.{
  ℕ, zero, suc, ◌+◌, ◌*◌, ◌^◌, ◌<◌, ◌≡◌, refl, sym, ◌∙◌, ap, ◌≢◌, ◌⊎◌, inl, inr, true, false, ◌&&◌,
  arith, ltb, leb, ◌==◌, if◌then◌else◌, Bool-cases, update, update_self, update_ne, word_at,
  word_at-put_word, word_at-put_word_ne, ==_iff,
}
use Prim.Native.Nat.{bit_xor}
use seng21213_os.Machine.{u32}
use seng21213_os.Ramdisk.{
  Block, Disk, ramdisk_block_size, journal_magic, journal_block, journal_data_block, magic,
  target_block, checksum, committed, field, set_field, checksum_from, checksum32, copy_bytes,
  journal_clear, has_transaction, restore, journal_recover, refused,
}

pub copy_bytes_lem :
    (n i : ℕ) (dst src : Block) (j : ℕ)
    → copy_bytes n i dst src j ≡ (if leb i j && ltb j (i + n) then src j else dst j)
unfolding copy_bytes
copy_bytes_lem zero i dst src j = ground arith
copy_bytes_lem (suc n) i dst src j =
    ground (arith, copy_bytes_lem n (i + 1) (update dst i (src i)) src j)

pub copied : (n : ℕ) (dst src : Block) (j : ℕ) → j < n → copy_bytes n 0 dst src j ≡ src j
copied n dst src j l = ground (arith, copy_bytes_lem n 0 dst src j)

checksum_from_ext :
    (n i : ℕ) (p q : Block) (h : ℕ)
    → ((j : ℕ) → j < i + n → p j ≡ q j)
    → checksum_from n i p h ≡ checksum_from n i q h
unfolding checksum_from
checksum_from_ext zero i p q h e = refl
checksum_from_ext (suc n) i p q h e =
    ap (λ b. checksum_from n (i + 1) p (u32 (bit_xor h b * 16777619))) (e i (omega arith))
    ∙ checksum_from_ext n (i + 1) p q _ (λ j l. e j (omega arith))

pub checksum32_ext :
    (p q : Block) (n : ℕ) → ((j : ℕ) → j < n → p j ≡ q j) → checksum32 p n ≡ checksum32 q n
unfolding checksum32
checksum32_ext p q n e = checksum_from_ext n 0 p q _ (λ j l. e j (omega arith))

checksum_from-lt : (n i : ℕ) (p : Block) (h : ℕ) → h < 2 ^ 32 → checksum_from n i p h < 2 ^ 32
unfolding checksum_from
checksum_from-lt zero i p h l = l
checksum_from-lt (suc n) i p h l = checksum_from-lt n (i + 1) p _ (omega arith)

pub checksum32-lt : (p : Block) (n : ℕ) → checksum32 p n < 2 ^ 32
unfolding checksum32
checksum32-lt p n = checksum_from-lt n 0 p _ (omega arith)

pub field_self : (d : Disk) (f v : ℕ) → v < 2 ^ 32 → field (set_field d f v) f ≡ v
field_self d f v h =
    ap (λ b. word_at b (4 * f)) (update_self d journal_block _)
    ∙ word_at-put_word (d journal_block) (4 * f) v h

pub field_ne : (d : Disk) (f g v : ℕ) → f ≢ g → field (set_field d f v) g ≡ field d g
field_ne d f g v h =
    ap (λ b. word_at b (4 * g)) (update_self d journal_block _)
    ∙ word_at-put_word_ne (d journal_block) f g v (λ e. h (omega arith))

pub block_set : (d : Disk) (f v b : ℕ) → journal_block ≢ b → set_field d f v b ≡ d b
block_set d f v b h = update_ne d journal_block b _ h

pub journal_clear-block : (d : Disk) (b : ℕ) → journal_block ≢ b → journal_clear d b ≡ d b
unfolding journal_clear
journal_clear-block d b h =
    let one = set_field d magic 0 in
    let two = set_field one target_block 0 in
    let three = set_field two checksum 0 in
    block_set three committed 0 b h
    ∙ block_set two checksum 0 b h
    ∙ block_set one target_block 0 b h
    ∙ block_set d magic 0 b h

-- The checksum of the before-image.
abbrev pub image_sum : Disk → ℕ
image_sum d = checksum32 (d journal_data_block) ramdisk_block_size

-- Recovery has nothing to undo.
abbrev pub Settled : Disk → Type 0
Settled d =
    (field d magic ≢ journal_magic) ⊎ (image_sum d ≢ field d checksum) ⊎ (field d committed ≢ 0)

recover_cases :
    (d : Disk)
    → ((has_transaction d ≡ false) × (journal_recover d ≡ d))
      ⊎ ((has_transaction d ≡ true)
          × (image_sum d ≢ field d checksum)
          × (journal_recover d ≡ journal_clear d))
      ⊎ ((has_transaction d ≡ true)
          × (image_sum d ≡ field d checksum)
          × (journal_recover d ≡ journal_clear (restore d)))
unfolding journal_recover
recover_cases d = elim (Bool-cases (has_transaction d)) [
  | inr f ↦ inl (f, rw (journal_recover, f))
  | inl t ↦ elim (Bool-cases (image_sum d == field d checksum)) [
    | inl e ↦ inr (inr (t, (==_iff _ _).0 e, rw (journal_recover, t, e)))
    | inr e ↦ inr (inl (t, (λ g. cc (sym e ∙ (==_iff _ _).1 g)), rw (journal_recover, t, e)))
  ]
]

restore-committed : (d : Disk) → field d committed ≢ 0 → restore d ≡ d
unfolding restore
restore-committed d h = let f : field d committed == 0 ≡ false = ground arith in rw (restore, f)

has_transaction-magic : (d : Disk) → has_transaction d ≡ true → field d magic ≡ journal_magic
has_transaction-magic d h = ground arith

-- If there is nothing to undo, recovery changes no block but that of the header.
pub recover-Settled : (d : Disk) (b : ℕ) → Settled d → journal_block ≢ b → journal_recover d b ≡ d b
recover-Settled d b s h = elim (recover_cases d) [
  | inl (f, e) ↦ ap (λ x. x b) e
  | inr (inl (t, ne, e)) ↦ ap (λ x. x b) e ∙ journal_clear-block d b h
  | inr (inr (t, eq, e)) ↦ elim s [
    | inl ne ↦ absurd (ne (has_transaction-magic d t))
    | inr (inl ne) ↦ absurd (ne eq)
    | inr (inr ne) ↦
        ap (λ x. x b) e
        ∙ journal_clear-block (restore d) b h
        ∙ ap (λ x. x b) (restore-committed d ne)
  ]
]

-- The header is that of a transaction on `block` whose before-image is whole.
pub record Opened (d : Disk) (block : ℕ) : Type 0 where
  pub is_marked : field d magic ≡ journal_magic
  pub aimed : field d target_block ≡ block
  pub summed : field d checksum ≡ image_sum d

Opened-transaction :
    (d : Disk) (block : ℕ) → Opened d block → refused block ≡ false → has_transaction d ≡ true
Opened-transaction d block o r = ground (arith, o.is_marked, o.aimed)

-- Recovery of a transaction that is not committed gives the target its before-image back and
-- leaves the other blocks.
pub recover-Opened :
    (d : Disk) (block b : ℕ)
    → Opened d block
    → refused block ≡ false
    → field d committed ≡ 0
    → journal_block ≢ b
    → journal_recover d b ≡ (
        if block == b
        then copy_bytes ramdisk_block_size 0 (d block) (d journal_data_block)
        else d b)
unfolding journal_recover restore
recover-Opened d block b o r c h =
    let t = Opened-transaction d block o r in
    let s : (image_sum d == field d checksum) ≡ true = (==_iff _ _).1 (sym o.summed) in
    let z : (field d committed == 0) ≡ true = (==_iff _ _).1 c in
    let e : journal_recover d ≡ journal_clear (restore d) = rw (journal_recover, t, s) in
    let u : restore d
        ≡ update d (field d target_block)
            (copy_bytes ramdisk_block_size 0 (d (field d target_block)) (d journal_data_block)) =
      rw (restore, z) in
    ap (λ x. x b) (e)
    ∙ journal_clear-block (restore d) b h
    ∙ ap (λ x. x b) u
    ∙ ap (λ t. update d t (copy_bytes ramdisk_block_size 0 (d t) (d journal_data_block)) b) o.aimed

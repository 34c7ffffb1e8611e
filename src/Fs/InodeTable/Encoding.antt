-- ===== src/Fs/InodeTable/Encoding.antt =====
-- The inode table on the disk as a function from the number of an inode to the inode.
use seng21213_os.Prelude.{
  ℕ, zero, suc, ◌+◌, ◌*◌, ◌^◌, ◌≤◌, ◌<◌, ◌≡◌, refl, sym, ◌∙◌, ap, ◌≢◌, ◌⊎◌, inl, inr, ◌&&◌, some,
  arith, ltb, leb, if◌then◌else◌, Bool-cases, subst, word_at, put_word, word_at-put_word,
  word_at-put_word_apart, put_word_outside, put_word-lt, word_at_ext, words_apart,
}
use native.Mathlib.Decide.{ℕ_discrete}
use seng21213_os.Ramdisk.{
  Block, Disk, ramdisk_block_size, journal_block, ramdisk_read_block, ramdisk_write_block,
}
use seng21213_os.Ramdisk.Roundtrip.{read_in_range, Stored, write_block-Stored}
use seng21213_os.Fs.{Fs, Inode, fs_max_inodes, inode_table_start}
use seng21213_os.Fs.Bitmap.Alloc.{IsBytes}
use seng21213_os.Fs.InodeTable.{
  get_inode, put_words, put_inode, inode_word, inode_block, inode_offset, inode_read, inode_write,
}

put_words_at :
    (n k : ℕ) (buf : Block) (off : ℕ) (f : ℕ → ℕ) (j : ℕ)
    → f j < 2 ^ 32
    → word_at (put_words n k buf off f) (off + 4 * j)
      ≡ (if leb k j && ltb j (k + n) then f j else word_at buf (off + 4 * j))
unfolding put_words
put_words_at zero k buf off f j l = ground arith
put_words_at (suc n) k buf off f j l =
    put_words_at n (k + 1) (put_word buf (off + 4 * k) (f k)) off f j l ∙ elim (ℕ_discrete k j) [
      | yes e ↦ ground (
        arith,
        e,
        word_at-put_word buf (off + 4 * j) (f j) l,
        ap (λ i. word_at (put_word buf (off + 4 * i) (f i)) (off + 4 * j)) e,
      )
      | no ne ↦ ground (
        arith,
        ne,
        word_at-put_word_apart buf (off + 4 * k) (off + 4 * j) (f k) (words_apart off k j ne),
      )
    ]

put_words_outside :
    (n k : ℕ) (buf : Block) (off : ℕ) (f : ℕ → ℕ) (j : ℕ)
    → (j < off + 4 * k) ⊎ (off + 4 * (k + n) ≤ j)
    → put_words n k buf off f j ≡ buf j
unfolding put_words
put_words_outside zero k buf off f j h = refl
put_words_outside (suc n) k buf off f j (inl h) =
    put_words_outside n (k + 1) (put_word buf (off + 4 * k) (f k)) off f j (inl (omega arith))
    ∙ put_word_outside buf (off + 4 * k) (f k) j (inl h)
put_words_outside (suc n) k buf off f j (inr h) =
    put_words_outside n (k + 1) (put_word buf (off + 4 * k) (f k)) off f j (inr (omega arith))
    ∙ put_word_outside buf (off + 4 * k) (f k) j (inr (omega arith))

put_words-lt :
    (n k : ℕ) (buf : Block) (off : ℕ) (f : ℕ → ℕ) (j : ℕ)
    → buf j < 256
    → put_words n k buf off f j < 256
unfolding put_words
put_words-lt zero k buf off f j h = h
put_words-lt (suc n) k buf off f j h =
    put_words-lt n (k + 1) (put_word buf (off + 4 * k) (f k)) off f j
      (put_word-lt buf (off + 4 * k) (f k) j h)

-- Two inodes with the same fields.
pub record Same (x y : Inode) : Type 0 where
  pub size : x.size ≡ y.size
  pub mode : x.mode ≡ y.mode
  pub direct : (k : ℕ) → k < 8 → x.direct k ≡ y.direct k
  pub indirect : x.indirect ≡ y.indirect

-- The fields fit in their words.
pub record Fits (x : Inode) : Type 0 where
  pub size : x.size < 2 ^ 32
  pub mode : x.mode < 2 ^ 32
  pub direct : (k : ℕ) → k < 8 → x.direct k < 2 ^ 32
  pub indirect : x.indirect < 2 ^ 32

-- The inode number `ino` on the disk.
abbrev pub inode_of : Disk → ℕ → Inode
inode_of d ino = get_inode (d (inode_block ino)) (inode_offset ino)

get_inode_ext :
    (a b : Block) (off : ℕ)
    → ((j : ℕ) → off ≤ j → j < off + 44 → a j ≡ b j)
    → Same (get_inode a off) (get_inode b off)
unfolding get_inode
get_inode_ext a b off h =
    let word : (k : ℕ) → k < 11 → word_at a (off + 4 * k) ≡ word_at b (off + 4 * k) =
      λ k l. word_at_ext a b (off + 4 * k) (λ j lo hi. h j (omega arith) (omega arith)) in
    record {
      size = word 0 (omega arith);
      mode = word 1 (omega arith);
      direct = λ k l. word (k + 2) (omega arith);
      indirect = word 10 (omega arith);
    }

get_inode-put_inode :
    (buf : Block) (off : ℕ) (x : Inode) → Fits x → Same (get_inode (put_inode buf off x) off) x
unfolding get_inode put_inode
get_inode-put_inode buf off x f = record {
  size = put_words_at 11 0 buf off (inode_word x) 0 f.size;
  mode = put_words_at 11 0 buf off (inode_word x) 1 f.mode;
  direct = λ k l. direct_word buf off x k l (f.direct k l);
  indirect = put_words_at 11 0 buf off (inode_word x) 10 f.indirect;
}
  where
    direct_word :
        (buf : Block) (off : ℕ) (x : Inode) (k : ℕ)
        → k < 8
        → x.direct k < 2 ^ 32
        → word_at (put_words 11 0 buf off (inode_word x)) (off + 4 * (k + 2)) ≡ x.direct k
    direct_word buf off x k l b =
        let e : inode_word x (k + 2) ≡ x.direct k = ground (arith, l) in
        ground (
          arith,
          l,
          e,
          put_words_at 11 0 buf off (inode_word x) (k + 2) (subst (λ z. z < 2 ^ 32) (sym e) b),
        )

Same-sym : (x y : Inode) → Same x y → Same y x
Same-sym x y s = record {
  size = sym s.size;
  mode = sym s.mode;
  direct = λ k l. sym (s.direct k l);
  indirect = sym s.indirect;
}

pub Same-trans : (x y z : Inode) → Same x y → Same y z → Same x z
Same-trans x y z s t = record {
  size = s.size ∙ t.size;
  mode = s.mode ∙ t.mode;
  direct = λ k l. s.direct k l ∙ t.direct k l;
  indirect = s.indirect ∙ t.indirect;
}

pub disk-inode_read : (s : Fs) (ino : ℕ) → (inode_read s ino).0.disk ≡ s.disk
unfolding inode_read
disk-inode_read s ino = refl

-- `inode_read` gives the inode on the disk.
pub inode_read-Same :
    (s : Fs) (ino : ℕ) → ino < fs_max_inodes → Same (inode_read s ino).1 (inode_of s.disk ino)
unfolding inode_read
inode_read-Same s ino l =
    get_inode_ext _ _ (inode_offset ino)
      (λ j lo hi. read_in_range s.disk (inode_block ino) s.block_buf j (omega arith) (omega arith))

-- The disk `e` is `d` with the inode number `ino` replaced by `x`.
pub record Written (d e : Disk) (ino : ℕ) (x : Inode) : Type 0 where
  pub here : Same (inode_of e ino) x
  pub elsewhere : (j : ℕ) → j < fs_max_inodes → ino ≢ j → Same (inode_of e j) (inode_of d j)
  pub others : (c : ℕ) → c < journal_block → c ≢ inode_table_start → e c ≡ d c
  pub bytes : IsBytes e

inodes_apart :
    (ino j i : ℕ)
    → ino < fs_max_inodes
    → j < fs_max_inodes
    → ino ≢ j
    → inode_offset j ≤ i
    → i < inode_offset j + 44
    → (i < inode_offset ino + 0) ⊎ (inode_offset ino + 44 ≤ i)
inodes_apart ino j i l hj ne lo hi = elim (Bool-cases (ltb j ino)) [
  | inl t ↦ let less : j < ino = ground (arith, t) in inl (omega (arith, less))
  | inr f ↦ let more : ino < j = ground (arith, f, ne) in inr (omega (arith, more))
]

-- On a disk of bytes, for an inode of the table whose fields fit in words, `inode_write` replaces
-- that inode and changes nothing else outside the journal.
pub inode_write-Written :
    (s : Fs) (ino : ℕ) (x : Inode)
    → IsBytes s.disk
    → ino < fs_max_inodes
    → Fits x
    → Written s.disk (inode_write s ino x).disk ino x
unfolding inode_write put_inode
inode_write-Written s ino x v l f =
    let block : inode_block ino ≡ inode_table_start = omega arith in
    let buf = ramdisk_read_block s.disk (inode_block ino) s.block_buf in
    let new = put_inode buf (inode_offset ino) x in
    let w : Stored s.disk (inode_block ino) new
        (ramdisk_write_block s.disk (inode_block ino) (some new)) =
      write_block-Stored s.disk (inode_block ino) new (omega arith) in
    let old : (i : ℕ) → i < ramdisk_block_size → buf i ≡ s.disk (inode_block ino) i =
      λ i hi. read_in_range s.disk (inode_block ino) s.block_buf i (omega arith) hi in
    record {
      here =
          Same-trans _ _ _
            (get_inode_ext _ new (inode_offset ino) (λ j lo hi. w.target j (omega arith)))
            (get_inode-put_inode buf (inode_offset ino) x f);
      elsewhere = λ j hj ne.
          let same : inode_block j ≡ inode_block ino = omega arith in
          get_inode_ext _ _ (inode_offset j) (λ i lo hi.
            ap (λ c. (ramdisk_write_block s.disk (inode_block ino) (some new)).0 c i) same
            ∙ w.target i (omega arith)
            ∙ put_words_outside 11 0 buf (inode_offset ino) (inode_word x) i
                (inodes_apart ino j i l hj ne lo hi)
            ∙ old i (omega arith)
            ∙ ap (λ c. s.disk c i) (sym same));
      others = λ c hc ne. w.others c hc (λ e. ne (e ∙ block));
      bytes = λ b i hb hi. elim (ℕ_discrete b (inode_block ino)) [
        | yes e ↦
            subst (λ z. z < 256)
              (sym (
                ap (λ c. (ramdisk_write_block s.disk (inode_block ino) (some new)).0 c i) e
                ∙ w.target i hi))
              (put_words-lt 11 0 buf (inode_offset ino) (inode_word x) i
                (subst (λ z. z < 256) (sym (old i hi)) (v (inode_block ino) i (omega arith) hi)))
        | no ne ↦ subst (λ z. z < 256) (sym (ap (λ c. c i) (w.others b hb ne))) (v b i hb hi)
      ];
    }

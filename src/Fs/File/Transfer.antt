-- ===== src/Fs/File/Transfer.antt =====
-- `fs_read` of kernel/fs.c on a file in the direct blocks of its inode: the bytes on the disk.
use seng21213_os.Prelude.{
  ℕ, zero, suc, ◌+◌, ◌-◌, ◌/◌, ◌%◌, ◌≤◌, ◌<◌, ◌≡◌, refl, sym, ◌∙◌, ap, ap₂, ◌≢◌, inl, inr, true,
  false, ◌&&◌, some, arith, ltb, leb, ◌==◌, if◌then◌else◌, Bool-cases, update, update_self,
  update_ne, ==_iff,
}
use seng21213_os.Machine.{u32}
use seng21213_os.Ramdisk.{Block, Disk, ramdisk_blocks, ramdisk_read_block}
use seng21213_os.Ramdisk.Roundtrip.{read_in_range}
use seng21213_os.Fs.{Fs, Inode, Result, read_buf2, fs_max_inodes, fs_max_fd, inode_file, mem_copy}
use seng21213_os.Fs.Strings.{mem_copy_lem}
use seng21213_os.Fs.InodeTable.{inode_read, direct_block, block_for_inode}
use seng21213_os.Fs.InodeTable.Encoding.{inode_of, Same, inode_read-Same}
use seng21213_os.Fs.File.{set_offset, is_open, none_or_negative, chunk, read_loop, fs_read}

-- The byte of a file at the offset `o`.
abbrev pub content : Disk → Inode → ℕ → ℕ
content d x o = d (x.direct (o / 4096)) (o % 4096)

-- The bytes from `a` up to `b` are in direct blocks that are on the disk.
pub record IsBacked (x : Inode) (a b : ℕ) : Type 0 where
  pub direct_only : b ≤ 32768
  pub given : (o : ℕ) → a ≤ o → o < b → x.direct (o / 4096) ≢ 0
  pub on_disk : (o : ℕ) → a ≤ o → o < b → x.direct (o / 4096) < ramdisk_blocks

IsBacked-narrow : (x : Inode) (a b c d : ℕ) → a ≤ c → d ≤ b → IsBacked x a b → IsBacked x c d
IsBacked-narrow x a b c d lo hi w = record {
  direct_only = omega (arith, w.direct_only);
  given = λ o l h. w.given o (omega arith) (omega arith);
  on_disk = λ o l h. w.on_disk o (omega arith) (omega arith);
}

offset-set_offset : (s : Fs) (fd o : ℕ) → ((set_offset s fd o).fds fd).offset ≡ o
offset-set_offset s fd o =
    ap (λ g. g.offset) (update_self s.fds fd (record (s.fds fd) { offset = o }))

-- What the loop of `fs_read` leaves, when it has `done` of `count` bytes.
pub record Reading (s : Fs) (x : Inode) (fd count done : ℕ) (buf : Block) (r : Fs × Block × ℕ)
    : Type 0 where
  pub all : r.2 ≡ count
  pub bytes :
      (j : ℕ) → done ≤ j → j < count → r.1 j ≡ content s.disk x ((s.fds fd).offset + (j - done))
  pub before : (j : ℕ) → j < done → r.1 j ≡ buf j
  pub after : (j : ℕ) → count ≤ j → r.1 j ≡ buf j
  pub offset : (r.0.fds fd).offset ≡ (s.fds fd).offset + (count - done)
  pub others : (k : ℕ) → fd ≢ k → r.0.fds k ≡ s.fds k
  pub disk : r.0.disk ≡ s.disk

in_one_block :
    (o k : ℕ) → k < 4096 - o % 4096 → ((o + k) / 4096 ≡ o / 4096) × ((o + k) % 4096 ≡ o % 4096 + k)
in_one_block o k h = (omega arith, omega arith)

block_for_inode_held :
    (old : Block) (s : Fs) (x : Inode) (k : ℕ)
    → k < 8
    → block_for_inode old s x k false ≡ (s, x, some (x.direct k))
unfolding block_for_inode direct_block
block_for_inode_held old s x k h = elim (Bool-cases (x.direct k == 0)) [
  | inl t ↦ ground (arith, t)
  | inr f ↦ ground (arith, f)
]

chunk_bounds :
    (o left : ℕ)
    → 0 < left
    → (0 < chunk o left) × (chunk o left ≤ left) × (chunk o left ≤ 4096 - o % 4096)
chunk_bounds o left h = (ground arith, ground arith, ground arith)

moved_byte :
    (d : Disk) (x : Inode) (o take done : ℕ) (buf held : Block) (j : ℕ)
    → take ≤ 4096 - o % 4096
    → x.direct (o / 4096) < ramdisk_blocks
    → done ≤ j
    → j < done + take
    → mem_copy take done (o % 4096) buf (ramdisk_read_block d (x.direct (o / 4096)) held) j
      ≡ content d x (o + (j - done))
moved_byte d x o take done buf held j l b lo hi =
    let src = ramdisk_read_block d (x.direct (o / 4096)) held in
    let inside : (leb done j && ltb j (done + take)) ≡ true = ground (arith, lo, hi) in
    let copied : mem_copy take done (o % 4096) buf src j ≡ src (o % 4096 + (j - done)) =
      mem_copy_lem take done (o % 4096) buf src j ∙ rw inside refl in
    let (same_block, same_place) = in_one_block o (j - done) (omega arith) in
    copied
    ∙ read_in_range d (x.direct (o / 4096)) held (o % 4096 + (j - done)) b (omega arith)
    ∙ ap₂ (λ k i. d (x.direct k) i) (sym same_block) (sym same_place)

-- One round before the rest.
Reading-round :
    (s : Fs) (x : Inode) (fd count done take : ℕ) (buf : Block) (r : Fs × Block × ℕ)
    → 0 < take
    → take ≤ 4096 - (s.fds fd).offset % 4096
    → done + take ≤ count
    → (s.fds fd).offset + (count - done) ≤ 32768
    → x.direct ((s.fds fd).offset / 4096) < ramdisk_blocks
    → Reading
        (set_offset
          (read_buf2 s (x.direct ((s.fds fd).offset / 4096)))
          fd
          (u32 ((s.fds fd).offset + take)))
        x
        fd
        count
        (done + take)
        (mem_copy take done
          ((s.fds fd).offset % 4096)
          buf
          (ramdisk_read_block s.disk (x.direct ((s.fds fd).offset / 4096)) s.block_buf2))
        r
    → Reading s x fd count done buf r
Reading-round s x fd count done take buf r pos l most small b rest =
    let o = (s.fds fd).offset in
    let f = s.fds fd in
    let src = ramdisk_read_block s.disk (x.direct (o / 4096)) s.block_buf2 in
    let next : (update s.fds fd (record f { offset = u32 (o + take) }) fd).offset ≡ o + take =
      offset-set_offset s fd (u32 (o + take)) ∙ omega arith in
    record {
      all = rest.all;
      bytes = λ j lo hi. elim (Bool-cases (ltb j (done + take))) [
        | inl t ↦
            rest.before j (ground (arith, t))
            ∙ moved_byte s.disk x o take done buf s.block_buf2 j l b lo (ground (arith, t))
        | inr n ↦
            rest.bytes j (ground (arith, n)) hi
            ∙ ap (content s.disk x)
                (let lo2 : done + take ≤ j = ground (arith, n) in omega (arith, next, lo2))
      ];
      before = λ j h.
          rest.before j (omega arith)
          ∙ mem_copy_lem take done (o % 4096) buf src j
          ∙ ground (arith, h);
      after =
          λ j h. rest.after j h ∙ mem_copy_lem take done (o % 4096) buf src j ∙ ground (arith, h);
      offset = rest.offset ∙ omega (arith, next);
      others = λ k ne. rest.others k ne ∙ update_ne s.fds fd k _ ne;
      disk = rest.disk;
    }

Reading-done :
    (s : Fs) (x : Inode) (fd count done : ℕ) (buf : Block)
    → count ≡ done
    → Reading s x fd count done buf (s, buf, done)
Reading-done s x fd count done buf e = record {
  all = sym e;
  bytes = λ j lo hi. absurd (omega (arith, lo, hi, e));
  before = λ j h. refl;
  after = λ j h. refl;
  offset = omega (arith, e);
  others = λ k ne. refl;
  disk = refl;
}

pub read_loop-Reading :
    (f : ℕ) (old : Block) (s : Fs) (x : Inode) (fd count done : ℕ) (buf : Block)
    → done ≤ count
    → count ≤ done + f
    → IsBacked x (s.fds fd).offset ((s.fds fd).offset + (count - done))
    → Reading s x fd count done buf (read_loop f old s x fd count done buf)
unfolding read_loop
read_loop-Reading zero old s x fd count done buf a b w =
    Reading-done s x fd count done buf (omega (arith, a, b))
read_loop-Reading (suc f) old s x fd count done buf a b w =
    let o = (s.fds fd).offset in
    elim (Bool-cases (leb count done)) [
      | inl stop ↦
          rw (read_loop, stop) (Reading-done s x fd count done buf (ground (arith, a, stop)))
      | inr go ↦
          let more : done < count = ground (arith, go) in
          let k : o / 4096 < 8 = omega (arith, w.direct_only, more) in
          let held = block_for_inode_held old s x (o / 4096) k in
          let held_block = ap (λ r. r.2) held in
          let b2 = w.on_disk o (omega arith) (omega (arith, more)) in
          let there : none_or_negative (x.direct (o / 4096)) ≡ false =
            ground (arith, b2, w.given o (omega arith) (omega (arith, more))) in
          let (pos, fits, room) = chunk_bounds o (count - done) (omega (arith, more)) in
          let take = chunk o (count - done) in
          let t = set_offset (read_buf2 s (x.direct (o / 4096))) fd (u32 (o + take)) in
          let next : (t.fds fd).offset ≡ o + take =
            offset-set_offset (read_buf2 s (x.direct (o / 4096))) fd (u32 (o + take))
            ∙ omega (arith, w.direct_only, fits) in
          rw (read_loop, go, held_block, there, held)
            (Reading-round s x fd count done take buf _ pos room (omega (arith, fits, a))
              w.direct_only b2
              (read_loop-Reading f old t x fd count (done + take) _ (omega (arith, fits, a))
                (omega (arith, pos, b))
                (IsBacked-narrow x o (o + (count - done)) _ _ (omega (arith, next))
                  (omega (arith, next, fits, more)) w)))
    ]

-- A file that can be read from the offset of its descriptor on.
pub record Readable (s : Fs) (fd : ℕ) : Type 0 where
  pub in_range : fd < fs_max_fd
  pub is_used : (s.fds fd).used ≡ true
  pub in_table : (s.fds fd).inode < fs_max_inodes
  pub is_file : (inode_of s.disk (s.fds fd).inode).mode ≡ inode_file
  pub not_past : (s.fds fd).offset < (inode_of s.disk (s.fds fd).inode).size
  pub backed :
      IsBacked
        (inode_of s.disk (s.fds fd).inode)
        (s.fds fd).offset
        (inode_of s.disk (s.fds fd).inode).size

-- How many bytes are asked for or left.
abbrev pub available : Fs → ℕ → ℕ → ℕ
available s fd count =
    let left = (inode_of s.disk (s.fds fd).inode).size - (s.fds fd).offset in
    if ltb left count then left else count

pub record Read (s : Fs) (fd count : ℕ) (buf : Block) (r : Fs × Block × Result) : Type 0 where
  pub all : r.2 ≡ Result.ok (available s fd count)
  pub bytes :
      (j : ℕ)
      → j < available s fd count
      → r.1 j ≡ content s.disk (inode_of s.disk (s.fds fd).inode) ((s.fds fd).offset + j)
  pub after : (j : ℕ) → available s fd count ≤ j → r.1 j ≡ buf j
  pub offset : (r.0.fds fd).offset ≡ (s.fds fd).offset + available s fd count
  pub others : (k : ℕ) → fd ≢ k → r.0.fds k ≡ s.fds k
  pub disk : r.0.disk ≡ s.disk

IsBacked-same :
    (x y : Inode) (a b : ℕ)
    → ((k : ℕ) → k < 8 → x.direct k ≡ y.direct k)
    → IsBacked y a b
    → IsBacked x a b
IsBacked-same x y a b same w = record {
  direct_only = w.direct_only;
  given = λ o l h e.
      let below : o / 4096 < 8 = omega (arith, w.direct_only, h) in
      w.given o l h (sym (same (o / 4096) below) ∙ e);
  on_disk = λ o l h.
      let below : o / 4096 < 8 = omega (arith, w.direct_only, h) in
      let e = same (o / 4096) below in let bound = w.on_disk o l h in omega (arith, e, bound);
}

smaller : (left count : ℕ) → (if ltb left count then left else count) ≤ left
smaller left count = ground arith

-- On a file in the direct blocks, `fs_read` moves as many bytes as are asked for and left, the
-- bytes of the file from the offset on; the rest of the buffer, the other descriptors and the disk
-- stay, and the offset is after the bytes.
pub fs_read-Read :
    (old : Block) (s : Fs) (fd count : ℕ) (buf : Block)
    → Readable s fd
    → Read s fd count buf (fs_read old s fd buf count)
unfolding fs_read inode_read
fs_read-Read old s fd count buf w =
    let f = s.fds fd in
    let t = (inode_read s f.inode).0 in
    let x = (inode_read s f.inode).1 in
    let y = inode_of s.disk f.inode in
    let most = available s fd count in
    let same : Same x y = inode_read-Same s f.inode w.in_table in
    let opened : is_open s fd ≡ true = rw w.is_used (ground (arith, w.in_range)) in
    let file : (x.mode == inode_file) ≡ true = (==_iff _ _).1 (same.mode ∙ w.is_file) in
    let begun : leb x.size f.offset ≡ false = ground (arith, same.size, w.not_past) in
    let size : (if ltb (x.size - f.offset) count then x.size - f.offset else count) ≡ most =
      rw same.size refl in
    let below : most ≤ y.size - f.offset = smaller (y.size - f.offset) count in
    let within : f.offset + (most - 0) ≤ y.size = omega (arith, below, w.not_past) in
    let loop : Reading t x fd most 0 buf (read_loop most old t x fd most 0 buf) =
      read_loop-Reading most old t x fd most 0 buf (omega arith) (omega arith) (
        IsBacked-narrow x f.offset y.size f.offset (f.offset + (most - 0)) (omega arith) within
          (IsBacked-same x y f.offset y.size same.direct w.backed)) in
    rw (fs_read, opened, file, begun, size)
      (record {
        all = ap Result.ok loop.all;
        bytes = λ j h.
            let bound : (f.offset + j) / 4096 < 8 =
              omega (arith, h, below, w.not_past, w.backed.direct_only) in
            loop.bytes j (omega arith) h
            ∙ ap (λ i. content s.disk x (f.offset + i)) (omega arith)
            ∙ ap (λ b. s.disk b ((f.offset + j) % 4096))
                (same.direct ((f.offset + j) / 4096) bound);
        after = loop.after;
        offset = loop.offset ∙ omega arith;
        others = loop.others;
        disk = loop.disk;
      })

-- ===== src/Fs/Tests.antt =====
-- The properties of the file system on a disk with the root directory and one file, "a".
use seng21213_os.Prelude.{
  ℕ, ◌+◌, ◌/◌, ◌%◌, ◌≤◌, ◌<◌, ◌≡◌, refl, sym, ◌∙◌, inl, inr, ==_iff, Bool, true, false, not, ◌&&◌,
  ◌||◌, [], ◌∷◌, arith, ltb, leb, ◌==◌, if◌then◌else◌, word_at, find_first, none_fails,
  passes_of_none_fails, Bool-cases, ap, subst,
}
use seng21213_os.Ramdisk.{Block, Disk, journal_block}
use seng21213_os.Fs.{Fs, FileDesc, Result, String, fs_max_inodes, dir_entries, inode_file}
use seng21213_os.Fs.Strings.{IsText}
use seng21213_os.Fs.Bitmap.{alloc_block}
use seng21213_os.Fs.Bitmap.Alloc.{IsBytes, Allocated, alloc_block-Allocated}
use seng21213_os.Fs.InodeTable.{get_inode, inode_write, no_inode}
use seng21213_os.Fs.InodeTable.Encoding.{inode_of, Fits, Written, inode_write-Written}
use seng21213_os.Fs.Directory.{entry_inode, is_free_entry, is_dir, dir_add}
use seng21213_os.Fs.Directory.Add.{HasBlock, Adding, dir_add-Adding}
use seng21213_os.Fs.Path.{resolve_path}
use seng21213_os.Fs.Path.Fuel.{Walk, resolve_path-Walk}
use seng21213_os.Fs.Path.Leads.{IsTree, Leads, resolve_path-Leads}
use seng21213_os.Fs.File.{open_fd, fs_read, fs_close}
use seng21213_os.Fs.File.Descriptors.{Restored, open_fd-fs_close}
use seng21213_os.Fs.File.Transfer.{Readable, Read, fs_read-Read}

-- The entries ".", ".." and "a", and no more.
abbrev root_block : Block
root_block i =
    if i == 0 || i == 32 || i == 33
    then 46
    else if i == 64
    then 97
    else if i == 92
    then 1
    else if leb 96 i && leb 28 (i % 32)
    then 255
    else 0

-- The root directory and a file of ten bytes in block 6.
abbrev table_block : Block
table_block i =
    if i == 4
    then 2
    else if i == 8 || i == 48
    then 1
    else if i == 44
    then 10
    else if i == 52
    then 6
    else 0

abbrev small_disk : Disk
small_disk b i =
    if b == 1
    then root_block i
    else if b == 2
    then (if i == 0 then 127 else if i == 31 then 192 else 0)
    else if b == 3
    then (if i == 0 then 3 else 0)
    else if b == 4
    then table_block i
    else if b == 6 && ltb i 10
    then 65 + i
    else 0

abbrev zeros : Block
zeros i = 0

abbrev closed_file : FileDesc
closed_file = record { inode = 0; offset = 0; flags = 0; used = false }

abbrev open_file : FileDesc
open_file = record { inode = 1; offset = 3; flags = 0; used = true }

-- With the file open at offset 3 as descriptor 0.
abbrev small_fs : Fs
small_fs = record {
  disk = small_disk;
  block_buf = zeros;
  block_buf2 = zeros;
  fds = λ i. if i == 0 then open_file else closed_file;
  cwd_inode = 0;
  fs_ready = true;
}

small_disk-IsBytes : IsBytes small_disk
small_disk-IsBytes b i hb hi = ground arith

alloc_block-Allocated_example :
    Allocated small_disk (alloc_block small_fs).0.disk (alloc_block small_fs).1
alloc_block-Allocated_example = alloc_block-Allocated small_fs small_disk-IsBytes

no_inode-Fits : Fits no_inode
no_inode-Fits = record {
  size = omega arith;
  mode = omega arith;
  direct = λ k h. omega arith;
  indirect = omega arith;
}

inode_write-Written_example : Written small_disk (inode_write small_fs 1 no_inode).disk 1 no_inode
inode_write-Written_example =
    inode_write-Written small_fs 1 no_inode small_disk-IsBytes (omega arith) no_inode-Fits

abbrev name_b : String
name_b = 98 ∷ []

name_b-IsText : IsText name_b
name_b-IsText = IsText.more 98 [] (λ e. omega (arith, e)) (omega arith) IsText.empty

root_is_dir : is_dir (inode_of small_disk 0) ≡ true
unfolding word_at get_inode
root_is_dir = refl

root_block_at : (inode_of small_disk 0).direct 0 ≡ 1
unfolding word_at get_inode
root_block_at = refl

root-HasBlock : HasBlock small_disk 0 1
root-HasBlock = record {
  bytes = small_disk-IsBytes;
  in_table = omega arith;
  block = root_block_at;
  is_directory = root_is_dir;
  below = omega arith;
  apart = λ e. omega (arith, e);
}

dir_add-Adding_example :
    Adding small_disk 0 1 name_b 5
      (dir_add small_fs 0 name_b 5).0.disk
      (dir_add small_fs 0 name_b 5).1
dir_add-Adding_example =
    dir_add-Adding small_fs 0 1 name_b 5 root-HasBlock name_b-IsText (omega arith)

open_fd-fs_close_example :
    (i : ℕ) × (i ≤ 4)
    × ((open_fd small_fs 1 2 10).1 ≡ Result.ok i)
    × ((fs_close (open_fd small_fs 1 2 10).0 i).1 ≡ Result.ok 0)
    × Restored small_fs (fs_close (open_fd small_fs 1 2 10).0 i).0 i
open_fd-fs_close_example = open_fd-fs_close small_fs 1 2 10 4 (omega arith) refl

file_size : (inode_of small_disk 1).size ≡ 10
unfolding word_at get_inode
file_size = refl

file_mode : (inode_of small_disk 1).mode ≡ inode_file
unfolding word_at get_inode
file_mode = refl

file_block : (inode_of small_disk 1).direct 0 ≡ 6
unfolding word_at get_inode
file_block = refl

blocks_table : none_fails (λ ino. ltb ((inode_of small_disk ino).direct 0) journal_block) 64 ≡ true
unfolding none_fails find_first word_at get_inode
blocks_table = refl

only_root : none_fails (λ ino. ino == 0 || not (is_dir (inode_of small_disk ino))) 64 ≡ true
unfolding none_fails find_first word_at get_inode
only_root = refl

abbrev fits_table : Block → ℕ → Bool
fits_table buf i = is_free_entry buf i || ltb (entry_inode buf i) fs_max_inodes

entries_table : none_fails (fits_table root_block) 128 ≡ true
unfolding none_fails find_first word_at get_inode
entries_table = refl

dir_is_root : (ino : ℕ) → ino < fs_max_inodes → is_dir (inode_of small_disk ino) ≡ true → ino ≡ 0
dir_is_root ino l h =
    let checked : (ino == 0 || not (is_dir (inode_of small_disk ino))) ≡ true =
      passes_of_none_fails (λ ino. ino == 0 || not (is_dir (inode_of small_disk ino))) 64 ino
        only_root l in
    elim (Bool-cases (ino == 0)) [
      | inl t ↦ (==_iff _ _).0 t
      | inr f ↦ absurd (cc (rw (f, h) at checked))
    ]

entry_fits :
    (i : ℕ)
    → i < dir_entries
    → is_free_entry root_block i ≡ false
    → entry_inode root_block i < fs_max_inodes
entry_fits i l h =
    let checked : fits_table root_block i ≡ true =
      passes_of_none_fails (fits_table root_block) 128 i entries_table l in
    let small : ltb (entry_inode root_block i) fs_max_inodes ≡ true = rw h at checked in
    ground (arith, small)

small-IsTree : IsTree small_disk
small-IsTree = record {
  blocks = λ ino l. ground (
    arith,
    passes_of_none_fails (λ ino. ltb ((inode_of small_disk ino).direct 0) journal_block) 64 ino
        blocks_table l,
  );
  entries = λ ino i l h li free.
      let b : (inode_of small_disk ino).direct 0 ≡ 1 =
        ap (λ k. (inode_of small_disk k).direct 0) (dir_is_root ino l h) ∙ root_block_at in
      subst
        (λ k. is_free_entry (small_disk k) i ≡ false → entry_inode (small_disk k) i < fs_max_inodes)
        (sym b) (entry_fits i li) free;
}

small-Readable : Readable small_fs 0
small-Readable = record {
  in_range = omega arith;
  is_used = refl;
  in_table = omega arith;
  is_file = file_mode;
  not_past = omega (arith, file_size);
  backed = record {
    direct_only = omega (arith, file_size);
    given = λ o l h e.
        let first : o / 4096 ≡ 0 = omega (arith, h, file_size) in
        omega (arith, sym (ap (λ k. (inode_of small_disk 1).direct k) first) ∙ e, file_block);
    on_disk = λ o l h.
        let first : o / 4096 ≡ 0 = omega (arith, h, file_size) in
        let b = ap (λ k. (inode_of small_disk 1).direct k) first ∙ file_block in omega (arith, b);
  };
}

fs_read-Read_example : Read small_fs 0 20 zeros (fs_read zeros small_fs 0 zeros 20)
fs_read-Read_example = fs_read-Read zeros small_fs 0 20 zeros small-Readable

-- "/./a"
abbrev path_to_a : String
path_to_a = 46 ∷ 47 ∷ 97 ∷ []

resolve_path-Leads_example :
    Leads small_disk (47 ∷ path_to_a) 0 (resolve_path small_fs (47 ∷ path_to_a) 0).1
    × ((resolve_path small_fs (47 ∷ path_to_a) 0).0.disk ≡ small_disk)
resolve_path-Leads_example = resolve_path-Leads small_fs 47 path_to_a 0 small-IsTree (omega arith)

resolve_path-Walk_example :
    Walk small_fs
      (47 ∷ path_to_a)
      0
      (resolve_path small_fs (47 ∷ path_to_a) 0).0
      (resolve_path small_fs (47 ∷ path_to_a) 0).1
resolve_path-Walk_example = resolve_path-Walk small_fs 47 path_to_a 0

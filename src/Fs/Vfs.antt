-- ===== src/Fs/Vfs.antt =====
-- The table of operations through which the shell may call the file system.
use seng21213_os.Prelude.{ℕ, Option, List}
use seng21213_os.Ramdisk.{Block}
use seng21213_os.Fs.{Fs, String, Result}
use seng21213_os.Fs.File.{fs_open, fs_read, fs_write, fs_close}
use seng21213_os.Fs.Create.{fs_mkdir}
use seng21213_os.Fs.Tree.{Listed, fs_unlink, fs_chdir, fs_list, fs_pwd}

-- `file_ops_t`, on the state of the file system.
pub record FileOps : Type 0 where
  pub open_op : Fs → String → ℕ → Fs × Result
  pub read_op : Fs → ℕ → Block → ℕ → Fs × Block × Result
  pub write_op : Fs → ℕ → Block → ℕ → Fs × Result
  pub close_op : Fs → ℕ → Fs × Result
  pub unlink_op : Fs → String → Fs × Result
  pub mkdir_op : Fs → String → Fs × Result
  pub chdir_op : Fs → String → Fs × Result
  pub list_op : Fs → String → Fs × Result × List Listed
  pub pwd_op : Fs → ℕ → Fs × Option String

-- `ramfs_ops`, which `vfs_root` returns; `old` is what the stack held.
abbrev pub ramfs_ops : Block → FileOps
ramfs_ops old = record {
  open_op = fs_open old;
  read_op = fs_read old;
  write_op = fs_write old;
  close_op = fs_close;
  unlink_op = fs_unlink old;
  mkdir_op = fs_mkdir;
  chdir_op = fs_chdir;
  list_op = fs_list;
  pwd_op = fs_pwd;
}

abbrev pub vfs_root : Block → FileOps
vfs_root old = ramfs_ops old

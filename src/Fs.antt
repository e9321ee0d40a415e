-- ===== src/Fs.antt =====
-- The virtual file system, kernel/fs: the structures of vfs.h and proc_file of proc/proc.h.
-- A pointer to a `vnode` is its place in the mount list; `none` is `NULL`. An `int` or `ssize_t` is
-- its 16-bit word.
pub mod Files
pub mod Mounts
pub mod Requests
pub mod Tmp
pub mod Tar
pub mod Rootfs
use pi_os.Common.{ℕ, Option, none, some, List}
use pi_os.Libc.Strings.{CString}

-- `struct inode`
pub record Inode : Type 0 where
  pub name : CString
  pub fid : ℕ
  pub size : ℕ
  pub vnode : Option ℕ
  pub kind : ℕ

abbrev pub inode_type_file : ℕ
inode_type_file = 1

abbrev pub inode_type_directory : ℕ
inode_type_directory = 2

-- `struct proc_file`
pub record ProcFile : Type 0 where
  pub inode : Option Inode
  pub offset : ℕ
  pub fcntl_flags : ℕ
  pub driver_data : ℕ

abbrev pub einval : ℕ
einval = 1

abbrev pub enotfound : ℕ
enotfound = 5

abbrev pub etoomanyfiles : ℕ
etoomanyfiles = 6

abbrev pub ebadfd : ℕ
ebadfd = 7

abbrev pub ewouldblock : ℕ
ewouldblock = 8

abbrev pub enosup : ℕ
enosup = 9

-- ===== src/Fs/Files.antt =====
-- kernel/fs/vfs.c: open files and the table of a process's descriptors.
pub mod Seek
pub mod Table
pub mod Tests
use pi_os.Common.{
  ℕ, zero, suc, ◌+◌, Bool, true, false, ◌||◌, ◌&&◌, not, Option, none, some, List, [], ◌∷◌, ltb,
  leb, ◌==◌, if◌then◌else◌, is_some,
}
use pi_os.Common.Word.{add16, neg16, is_neg16}
use pi_os.Fs.{Inode, ProcFile, einval, enotfound, etoomanyfiles, ebadfd, enosup}

unfoldable pub vfs_open : Option Inode → ProcFile → ℕ × ProcFile
vfs_open none target = (neg16 enotfound, target)
vfs_open (some inode) target =
    (0, record { inode = some inode; offset = 0; fcntl_flags = 0; driver_data = 0 })

unfoldable pub vfs_close : ProcFile → ℕ × ProcFile
vfs_close file =
    if is_some file.inode then (0, record file { inode = none }) else (neg16 ebadfd, file)

abbrev pub seek_set : ℕ
seek_set = 0

abbrev pub seek_cur : ℕ
seek_cur = 1

-- `file->offset + off` is an `unsigned` sum, which is compared with 0 as it is.
unfoldable pub vfs_seek : ProcFile → (off whence : ℕ) → ℕ × ProcFile
vfs_seek file off whence =
    if is_some file.inode
    then if whence == seek_set
      then if is_neg16 off then (neg16 einval, file) else (off, record file { offset = off })
      else if whence == seek_cur
      then if ltb (add16 file.offset off) 0
        then (neg16 einval, file)
        else (add16 file.offset off, record file { offset = add16 file.offset off })
      else (file.offset, file)
    else (neg16 ebadfd, file)

-- A driver's `fio_ctl` is a parameter, none for `NULL`; it gets the file and the process, or none.
abbrev pub ask_fio_ctl :
    Option (Inode → (kind number : ℕ) → Option (ProcFile × ℕ) → ℕ)
    → Inode
    → (kind number : ℕ) → Option (ProcFile × ℕ)
    → ℕ
ask_fio_ctl none inode kind number who = neg16 enosup
ask_fio_ctl (some fio_ctl) inode kind number who = fio_ctl inode kind number who

unfoldable pub vfs_fio_ctl :
    Option (Inode → (kind number : ℕ) → Option (ProcFile × ℕ) → ℕ)
    → ProcFile
    → (vpid kind number fdrel : ℕ) → ℕ
vfs_fio_ctl driver file vpid kind number fdrel = elim file.inode [
  | none ↦ neg16 ebadfd
  | some inode ↦
      ask_fio_ctl driver inode kind number (if fdrel == 0 then none else some (file, vpid))
]

abbrev pub proc_max_files : ℕ
proc_max_files = 16

-- The comparisons with `fd` are signed.
unfoldable pub validate_fd : ℕ → Bool
validate_fd fd = not ((not (is_neg16 fd) && ltb proc_max_files fd) || is_neg16 fd)

-- The list is what is left of the table, from index `i` on.
free_fd_from : ℕ → List ProcFile → ℕ
free_fd_from i [] = neg16 etoomanyfiles
free_fd_from i (file ∷ files) = if is_some file.inode then free_fd_from (i + 1) files else i

unfoldable pub proc_free_fd : List ProcFile → ℕ
unfolding free_fd_from
proc_free_fd open_files = free_fd_from 0 open_files

-- ===== src/Sys/Sysd/Files.antt =====
-- kernel/sys/sysd.c: the system calls on files. What `kmalloc` returns holds `junk`.
-- A driver that takes a buffer of the process gets its bytes, and what it leaves there is stored.
use pi_os.Common.{
  ℕ, Bool, true, false, ◌&&◌, not, Option, none, some, List, leb, ◌==◌, if◌then◌else◌, get_elem?,
  set, take, drop,
}
use pi_os.Common.Word.{neg16, is_neg16, slt16}
use pi_os.Libc.Strings.{CString, strlen}
use pi_os.Fs.{Inode, ProcFile, einval, ebadfd}
use pi_os.Fs.Files.{vfs_open, vfs_close, vfs_fio_ctl, validate_fd, proc_free_fd}
use pi_os.Fs.Mounts.{Vnode, vfs_vnode_for, vfs_find_inode}
use pi_os.Fs.Requests.{
  CallResult, returns, sleeps_on, sleeps_in_driver, fails, vfs_read_blocking, vfs_write_blocking,
}
use pi_os.Proc.{Proc}
use pi_os.Proc.Virtual.{memcpy_from_userspace, memcpy_to_userspace}
use pi_os.Sys.Sysd.{
  Drivers, Kernel, Call, sleeps_on_request, sleeps_in_call, reads_null, call_panics, reg,
  returns_word,
}

-- `F_FLAGS` and `F_DRIVER_CUSTOM_START`
abbrev pub f_flags : ℕ
f_flags = 0

abbrev pub f_driver_custom_start : ℕ
f_driver_custom_start = 0x100

module _ {S : Type 0} (drivers : Drivers S) where
  abbrev found_state : CString → S → Option Vnode → S
  found_state path s none = s
  found_state path s (some vnode) =
      (drivers.find_inode vnode (drop (strlen vnode.abs_mount_path) path) s).1

  -- What follows `vfs_open`.
  abbrev opened : Kernel S → Proc → (fd : ℕ) → ℕ × ProcFile → Call S
  opened k p fd (rc, file) =
      let p' : Proc = record p { open_files = set p.open_files fd file } in
      returns_word k p' (if is_neg16 rc then rc else fd)

  abbrev pub open_fd : Kernel S → Proc → (fd : ℕ) → Option ProcFile → Call S
  open_fd k p fd none = reads_null
  open_fd k p fd (some target) =
      let path = memcpy_from_userspace k.mem p (reg p 1) (reg p 2) in
      let s = k.driver_state in
      let inode = vfs_find_inode (λ v rest. (drivers.find_inode v rest s).0) k.mounts path in
      let s' = found_state path s (vfs_vnode_for k.mounts path) in
      opened (record k { driver_state = s' }) p fd (vfs_open inode target)

  unfoldable pub sys_open : Kernel S → Proc → Call S
  sys_open k p =
      let fd = proc_free_fd p.open_files in
      if is_neg16 fd then returns_word k p fd else open_fd k p fd (get_elem? p.open_files fd)

  -- The file of the descriptor in `regs[1]`, once it is valid. Past the table there is no file, and
  -- the source then reads what follows it.
  abbrev pub with_file : Kernel S → Proc → (ProcFile → Call S) → Call S
  with_file k p rest =
      if validate_fd (reg p 1)
      then elim (get_elem? p.open_files (reg p 1)) [ none ↦ reads_null | some file ↦ rest file ]
      else returns_word k p (neg16 ebadfd)

  abbrev closed : Kernel S → Proc → ℕ × ProcFile → Call S
  closed k p (r, file) =
      returns_word k (record p { open_files = set p.open_files (reg p 1) file }) r

  unfoldable pub sys_close : Kernel S → Proc → Call S
  sys_close k p = with_file k p λ file. closed k p (vfs_close file)

  -- What follows a read: `kernel_buffer` tells whether the bytes are in a buffer of the kernel.
  abbrev pub read_returns : Kernel S → Proc → (kernel_buffer : Bool) → CallResult S → Call S
  read_returns k p true (returns r bytes s) =
      let k' : Kernel S = record k { driver_state = s } in
      returns_word
        (if slt16 0 r
          then record k' { mem = memcpy_to_userspace k.mem p (reg p 2) (take r bytes) }
          else k')
        p r
  read_returns k p false (returns r bytes s) =
      returns_word
        (record k { mem = memcpy_to_userspace k.mem p (reg p 2) bytes; driver_state = s }) p r
  read_returns k p kernel_buffer (sleeps_on req s) =
      sleeps_on_request (record k { driver_state = s }) req
  read_returns k p kernel_buffer sleeps_in_driver = sleeps_in_call k
  read_returns k p kernel_buffer fails = call_panics

  abbrev pub read_vnode : Kernel S → Proc → (junk : List ℕ) → ProcFile → Option ℕ → Call S
  read_vnode k p junk file none = reads_null
  read_vnode k p junk file (some vnode) =
      let only = drivers.kernel_buffer_only vnode in
      let (id, res) =
        vfs_read_blocking S (drivers.async_request vnode) k.last_req_id 0 file
          (if only then 0 else p.pid)
          (if only then junk else memcpy_from_userspace k.mem p (reg p 2) (reg p 3)) (reg p 3)
          k.driver_state in
      read_returns (record k { last_req_id = id }) p only res

  -- `file->inode->vnode`
  abbrev pub with_vnode : ProcFile → (Option ℕ → Call S) → Call S
  with_vnode file rest = elim file.inode [ none ↦ reads_null | some inode ↦ rest inode.vnode ]

  unfoldable pub sys_read : (junk : List ℕ) → Kernel S → Proc → Call S
  sys_read junk k p = with_file k p λ file. with_vnode file (read_vnode k p junk file)

  abbrev pub write_returns : Kernel S → Proc → CallResult S → Call S
  write_returns k p (returns r bytes s) = returns_word (record k { driver_state = s }) p r
  write_returns k p (sleeps_on req s) = sleeps_on_request (record k { driver_state = s }) req
  write_returns k p sleeps_in_driver = sleeps_in_call k
  write_returns k p fails = call_panics

  abbrev pub write_vnode : Kernel S → Proc → ProcFile → Option ℕ → Call S
  write_vnode k p file none = reads_null
  write_vnode k p file (some vnode) =
      let (id, res) =
        vfs_write_blocking S (drivers.async_request vnode) k.last_req_id 0 file
          (if drivers.kernel_buffer_only vnode then 0 else p.pid)
          (memcpy_from_userspace k.mem p (reg p 2) (reg p 3)) (reg p 3) k.driver_state in
      write_returns (record k { last_req_id = id }) p res

  unfoldable pub sys_write : Kernel S → Proc → Call S
  sys_write k p = with_file k p λ file. with_vnode file (write_vnode k p file)

  -- `vfs_fio_ctl` finds the driver through the inode, and tells a closed file apart.
  abbrev pub fio_ctl_of : ProcFile → Option (Inode → (kind number : ℕ) → Option (ProcFile × ℕ) → ℕ)
  fio_ctl_of file = elim file.inode [
    | none ↦ none
    | some inode ↦ elim inode.vnode [ none ↦ none | some vnode ↦ drivers.fio_ctl vnode ]
  ]

  abbrev pub set_flags : Kernel S → Proc → ProcFile → Call S
  set_flags k p file =
      returns_word k (record p { open_files = set p.open_files (reg p 1) file }) file.fcntl_flags

  unfoldable pub sys_fcntl : Kernel S → Proc → Call S
  sys_fcntl k p = with_file k p λ file.
      if reg p 2 == f_flags
      then set_flags k p
          (if reg p 3 == neg16 1 then file else record file { fcntl_flags = reg p 3 })
      else if leb f_driver_custom_start (reg p 2) && not (is_neg16 (reg p 2))
      then returns_word k p (vfs_fio_ctl (fio_ctl_of file) file p.pid (reg p 2) (reg p 3) 1)
      else returns_word k p (neg16 einval)

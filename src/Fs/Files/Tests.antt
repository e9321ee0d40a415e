-- ===== src/Fs/Files/Tests.antt =====
-- vfs.c on a small descriptor table.
use pi_os.Common.{◌≡◌, refl, none, some, List, [], ◌∷◌}
use pi_os.Fs.{Inode, ProcFile}
use pi_os.Fs.Files.{proc_free_fd, free_fd_from}

abbrev note : Inode
note = record { name = b'n' ∷ []; fid = 3; size = 100; vnode = some 0; kind = 1 }

abbrev opened : ProcFile
opened = record { inode = some note; offset = 10; fcntl_flags = 0; driver_data = 0 }

abbrev shut : ProcFile
shut = record { inode = none; offset = 0; fcntl_flags = 0; driver_data = 0 }

abbrev table : List ProcFile
table = opened ∷ opened ∷ shut ∷ opened ∷ []

second_free : proc_free_fd table ≡ 2
unfolding proc_free_fd free_fd_from
second_free = refl

-- ===== src/Fs/Rootfs/Tests.antt =====
-- rootfs.c with the entries of the kernel.
use pi_os.Common.{◌≡◌, refl, none, some, [], ◌∷◌}
use pi_os.Libc.Strings.{CString, strcmp}
use pi_os.Fs.Rootfs.{Rootfs, rootfs_vfs_find_inode}

abbrev dev_prefix : CString
dev_prefix = b'd' ∷ b'/' ∷ []

abbrev root : Rootfs
root = record {
  in_list =
      record {
        full_path = dev_prefix;
        inode = record { name = dev_prefix; fid = 0; size = 0; vnode = some 0; kind = 2 };
      }
      ∷ [];
  ffid = 1;
}

no_tty : rootfs_vfs_find_inode 0 (b'd' ∷ b'/' ∷ b't' ∷ []) root.in_list ≡ none
unfolding rootfs_vfs_find_inode strcmp
no_tty = refl

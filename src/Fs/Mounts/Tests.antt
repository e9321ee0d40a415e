-- ===== src/Fs/Mounts/Tests.antt =====
-- The mount list of vfs.c with the file systems of the kernel.
use pi_os.Common.{arith, ℕ, ◌<◌, ◌≡◌, refl, ◌⊎◌, none, some, List, [], ◌∷◌}
use pi_os.Libc.Strings.{CString, strlen, strncmp, strchr, strcnt}
use pi_os.Fs.{Inode}
use pi_os.Fs.Mounts.{Vnode, full_match_len, mount_matches, visit, search_mounts, vfs_vnode_for}
use pi_os.Fs.Mounts.Under.{ArePlain, DeepestIs, IsFirst, vfs_vnode_for_lies_under}

abbrev root_path : CString
root_path = b'/' ∷ []

abbrev dev_path : CString
dev_path = b'/' ∷ b'd' ∷ b'/' ∷ b't' ∷ []

abbrev inside_dev : CString
inside_dev = b'/' ∷ b'd' ∷ b'/' ∷ b't' ∷ b'/' ∷ b'x' ∷ []

abbrev beside_dev : CString
beside_dev = b'/' ∷ b'd' ∷ b'/' ∷ b't' ∷ b't' ∷ []

abbrev some_dir : Inode
some_dir = record { name = []; fid = 0; size = 0; vnode = none; kind = 2 }

abbrev root_fs : Vnode
root_fs = record { vid = 0; reg = 1; abs_mount_path = root_path; mount_inode = some_dir }

abbrev dev_fs : Vnode
dev_fs = record { vid = 1; reg = 2; abs_mount_path = dev_path; mount_inode = some_dir }

abbrev both : List Vnode
both = root_fs ∷ dev_fs ∷ []

finds_inside : vfs_vnode_for both inside_dev ≡ some dev_fs
unfolding vfs_vnode_for search_mounts visit mount_matches full_match_len strlen strncmp strchr
    strcnt
finds_inside = refl

not_beside : vfs_vnode_for both beside_dev ≡ some root_fs
unfolding vfs_vnode_for search_mounts visit mount_matches full_match_len strlen strncmp strchr
    strcnt
not_beside = refl

both_plain : ArePlain both
both_plain = (
  (omega arith, tt),
  λ e. cc e,
  ((omega arith, (omega arith, (omega arith, (omega arith, tt)))), λ e. cc e, tt),
)

vfs_vnode_for_lies_under_example :
    ((vfs_vnode_for both inside_dev ≡ none) × DeepestIs inside_dev 0 both)
    ⊎ ((v : Vnode) × (d : ℕ) × (vfs_vnode_for both inside_dev ≡ some v)
        × (0 < d)
        × IsFirst inside_dev d v both
        × DeepestIs inside_dev d both)
vfs_vnode_for_lies_under_example =
    vfs_vnode_for_lies_under both inside_dev both_plain
      (omega arith, (omega arith, (omega arith, (omega arith, (omega arith, (omega arith, tt))))))

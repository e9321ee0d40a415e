-- ===== src/Fs/Mounts.antt =====
-- kernel/fs/vfs.c: the mount list, the search for the file system of a path, and `vfs_mount`.
pub mod Boundary
pub mod Under
pub mod Best
pub mod Tests
use pi_os.Common.{
  ℕ, zero, suc, ◌+◌, ◌-◌, Bool, true, false, ◌||◌, ◌&&◌, not, Option, none, some, List, [], ◌∷◌,
  ◌++◌, ltb, ◌==◌, if◌then◌else◌, length, drop,
}
use pi_os.Common.Int.{ℤ, pos, negsuc}
use pi_os.Common.Word.{add16}
use pi_os.Libc.Strings.{CString, strlen, strncmp, strchr, strcnt}
use pi_os.Fs.{Inode}

abbrev pub slash : ℕ
slash = b'/'

-- `struct vnode`; `reg` stands for the pointer to the file system's `vfs_reg`.
pub record Vnode : Type 0 where
  pub vid : ℕ
  pub reg : ℕ
  pub abs_mount_path : CString
  pub mount_inode : Inode

abbrev pub is_zero : ℤ → Bool
is_zero (pos n) = n == 0
is_zero (negsuc n) = false

abbrev pub segment_end : CString → Option CString → ℕ
segment_end path none = strlen path
segment_end path (some rest) = length path - length rest

-- `path_match_segment_end - path`: the place of the first slash of `path` from the last byte of the
-- mount path on, or the length of `path`.
unfoldable pub full_match_len : (mount_path path : CString) → ℕ
full_match_len mount_path path = segment_end path (strchr (drop (strlen mount_path - 1) path) slash)

-- The tests of the loop but the count of slashes.
unfoldable pub mount_matches : (mount_path path : CString) → Bool
mount_matches mount_path path =
    is_zero (strncmp mount_path path (strlen mount_path))
    && is_zero (strncmp mount_path path (full_match_len mount_path path))

-- One round: the best match so far, and its count of slashes.
unfoldable pub visit : CString → Option Vnode × ℕ → Vnode → Option Vnode × ℕ
visit path (best_match, match_slash_cnt) itv =
    if ltb match_slash_cnt (strcnt itv.abs_mount_path slash)
      && mount_matches itv.abs_mount_path path
    then (some itv, strcnt itv.abs_mount_path slash)
    else (best_match, match_slash_cnt)

unfoldable pub search_mounts : CString → Option Vnode × ℕ → List Vnode → Option Vnode × ℕ
search_mounts path best [] = best
search_mounts path best (itv ∷ mounts) = search_mounts path (visit path best itv) mounts

unfoldable pub vfs_vnode_for : List Vnode → CString → Option Vnode
vfs_vnode_for mounts path = (search_mounts path (none, 0) mounts).0

abbrev pub ask_driver : (Vnode → CString → Option Inode) → CString → Option Vnode → Option Inode
ask_driver find_inode path none = none
ask_driver find_inode path (some vnode) = find_inode vnode (drop (strlen vnode.abs_mount_path) path)

-- `vfs_find_inode` asks the file system of the path for what follows the mount path. A call of the
-- driver's `find_inode` is a parameter.
unfoldable pub vfs_find_inode :
    (find_inode : Vnode → CString → Option Inode) → List Vnode → CString → Option Inode
vfs_find_inode find_inode mounts path = ask_driver find_inode path (vfs_vnode_for mounts path)

-- `vfs_abs_path_alloc`, with the driver's `get_abs` as a parameter.
unfoldable pub vfs_abs_path_alloc :
    (get_abs : Inode → CString) → (vnode_path : Option CString) → Inode → CString
vfs_abs_path_alloc get_abs none inode = inode.name
vfs_abs_path_alloc get_abs (some vnode_mount) inode = vnode_mount ++ get_abs inode

pub record MountState : Type 0 where
  pub mount_list : List Vnode
  pub free_vid : ℕ

-- The mount path of the file system that an inode lies on.
unfoldable pub vnode_path : List Vnode → Option ℕ → Option CString
vnode_path mounts none = none
vnode_path [] (some vid) = none
vnode_path (v ∷ mounts) (some vid) =
    if v.vid == vid then some v.abs_mount_path else vnode_path mounts (some vid)

unfoldable pub vfs_mount :
    (get_abs : Inode → CString) → MountState → (reg : ℕ) → Inode → Vnode × MountState
vfs_mount get_abs s reg mount =
    let vnode : Vnode = record {
      vid = s.free_vid;
      reg = reg;
      abs_mount_path = vfs_abs_path_alloc get_abs (vnode_path s.mount_list mount.vnode) mount;
      mount_inode = mount;
    } in
    (vnode, record { mount_list = s.mount_list ++ (vnode ∷ []); free_vid = add16 s.free_vid 1 })

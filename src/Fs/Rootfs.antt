-- ===== src/Fs/Rootfs.antt =====
-- kernel/fs/rootfs.c: the entries of the root file system.
pub mod Entries
mod Tests
use pi_os.Common.{ℕ, ◌+◌, Option, none, some, List, [], ◌∷◌, ◌++◌, ◌==◌, if◌then◌else◌, take, drop}
use pi_os.Common.Word.{add16}
use pi_os.Libc.Strings.{CString, strlen, strcmp, strcpy}
use pi_os.Fs.{Inode}
use pi_os.Fs.Mounts.{is_zero}

-- `struct ent`
pub record Ent : Type 0 where
  pub full_path : CString
  pub inode : Inode

-- `in_list` and `ffid`
pub record Rootfs : Type 0 where
  pub in_list : List Ent
  pub ffid : ℕ

-- `junk` is what `kmalloc` returns for the path.
unfoldable pub full_path : (junk : List ℕ) → (path_prefix name : CString) → CString
full_path junk path_prefix name =
    let res = strcpy junk path_prefix in
    let n = strlen path_prefix in take n res ++ strcpy (drop n res) name

unfoldable pub rootfs_create_entry :
    (junk : List ℕ)
    → Rootfs
    → (self : ℕ) → (path_prefix name : CString) → (kind : ℕ) → Inode × Rootfs
rootfs_create_entry junk s self path_prefix name kind =
    let path = full_path junk path_prefix name in
    let inode : Inode = record {
      name = drop (strlen path_prefix) path;
      fid = s.ffid;
      size = 0;
      vnode = some self;
      kind = kind;
    } in
    (
      inode,
      record {
        in_list = s.in_list ++ (record { full_path = path; inode = inode } ∷ []);
        ffid = add16 s.ffid 1;
      },
    )

abbrev pub found_later : Ent → Option (Inode × List Ent) → Option (Inode × List Ent)
found_later ent none = none
found_later ent (some (inode, ents)) = some (inode, ent ∷ ents)

-- The entry that is found gets its `vnode`.
unfoldable pub rootfs_vfs_find_inode : (self : ℕ) → CString → List Ent → Option (Inode × List Ent)
rootfs_vfs_find_inode self path [] = none
rootfs_vfs_find_inode self path (ent ∷ ents) =
    if is_zero (strcmp path ent.full_path)
    then some (
      record ent.inode { vnode = some self },
      record ent { inode = record ent.inode { vnode = some self } } ∷ ents,
    )
    else found_later ent (rootfs_vfs_find_inode self path ents)

unfoldable pub rootfs_vfs_absolute_path : Inode → List Ent → Option CString
rootfs_vfs_absolute_path inode [] = none
rootfs_vfs_absolute_path inode (ent ∷ ents) =
    if ent.inode.fid == inode.fid then some ent.full_path else rootfs_vfs_absolute_path inode ents

-- ===== src/Fs/Tmp.antt =====
-- kernel/fs/tmp.c: the temporary file system, whose files are buffers in the heap.
-- The inodes are on the list `files` and found there by their `fid`, since an open file holds a
-- pointer to its inode. A buffer is the list of its bytes.
pub mod Files
pub mod ReadWrite
pub mod Calls
mod Tests
use pi_os.Common.{
  ℕ, ◌+◌, Bool, Option, none, some, List, [], ◌∷◌, ◌++◌, min, leb, ltb, ◌==◌, if◌then◌else◌, length,
}
use pi_os.Common.Int.{ℤ, pos}
use pi_os.Common.Word.{add16, neg16}
use pi_os.Libc.Strings.{CString, strcmp, strlen, strcpy, memcpy}
use pi_os.Libk.Semaphore.{semaphore_up, semaphore_down, Down, panics, sleeps, takes}
use pi_os.Fs.{Inode, ProcFile, enosup, inode_type_file}
use pi_os.Fs.Mounts.{is_zero}
use pi_os.Fs.Requests.{
  Request, Submitted, accepts, asserts, sleeps_inside, vfs_async_type_read, vfs_async_type_write,
  vfs_async_finalize,
}

abbrev pub max_files : ℕ
max_files = 64

-- `files`, `lock`, `fid` and `alloc_fid`, with the bytes that a pointer of it points to; none for `NULL`
pub record Tmp : Type 0 where
  pub files : List Inode
  pub lock : ℕ
  pub fid : ℕ
  pub alloc_fid : ℕ → List ℕ

abbrev pub tmp_init : ℕ → (ℕ → List ℕ) → Tmp
tmp_init fid alloc_fid = record {
  files = [];
  lock = semaphore_up 0;
  fid = fid;
  alloc_fid = alloc_fid;
}

abbrev pub update_file : (ℕ → List ℕ) → ℕ → List ℕ → ℕ → List ℕ
update_file alloc_fid i bytes j = if j == i then bytes else alloc_fid j

-- The loop: the inode that is found gets its `vnode`.
abbrev pub found_again : Inode → Option (Inode × List Inode) → Option (Inode × List Inode)
found_again inode none = none
found_again inode (some (res, files)) = some (res, inode ∷ files)

unfoldable pub find_name : (self : ℕ) → CString → List Inode → Option (Inode × List Inode)
find_name self path [] = none
find_name self path (inode ∷ files) =
    if is_zero (strcmp inode.name path)
    then some (record inode { vnode = some self }, record inode { vnode = some self } ∷ files)
    else found_again inode (find_name self path files)

-- `junk` is what `kmalloc(strlen(path)+1)` returns, its bytes not yet written.
abbrev pub new_inode : (self : ℕ) → CString → (junk : List ℕ) → (fid : ℕ) → Inode
new_inode self path junk fid = record {
  name = strcpy junk path;
  fid = fid;
  size = 0;
  vnode = some self;
  kind = inode_type_file;
}

abbrev pub create_file : (self : ℕ) → CString → (junk : List ℕ) → Tmp → Option Inode × Tmp
create_file self path junk s = if leb max_files s.fid then (none, s) else (
  some (new_inode self path junk s.fid),
  record s {
    files = s.files ++ (new_inode self path junk s.fid ∷ []);
    fid = add16 s.fid 1;
    alloc_fid = update_file s.alloc_fid s.fid [];
  },
)

abbrev pub or_create :
    (self : ℕ) → CString → (junk : List ℕ) → Tmp → Option (Inode × List Inode) → Option Inode × Tmp
or_create self path junk s none = create_file self path junk s
or_create self path junk s (some (inode, files)) = (some inode, record s { files = files })

unfoldable pub tmp_find_inode : (self : ℕ) → CString → (junk : List ℕ) → Tmp → Option Inode × Tmp
tmp_find_inode self path junk s = or_create self path junk s (find_name self path s.files)

abbrev pub fid_of : Option Inode → ℕ
fid_of none = 0
fid_of (some inode) = inode.fid

-- `inode->size`, read and written through the pointer that the open file holds
unfoldable pub size_of : List Inode → ℕ → ℕ
size_of [] fid = 0
size_of (inode ∷ files) fid = if inode.fid == fid then inode.size else size_of files fid

unfoldable pub set_size : List Inode → ℕ → ℕ → List Inode
set_size [] fid size = []
set_size (inode ∷ files) fid size =
    if inode.fid == fid
    then record inode { size = size } ∷ files
    else inode ∷ set_size files fid size

-- `junk` is what `kmalloc(req->size)` returns.
unfoldable pub tmp_write : (junk : List ℕ) → Tmp → Request → ℕ × Tmp
tmp_write junk s req =
    let fid = fid_of req.file.inode in
    let grows = ltb (size_of s.files fid) req.size in
    let buffer = if grows then junk else s.alloc_fid fid in
    (
      req.size,
      record s {
        files = if grows then set_size s.files fid req.size else s.files;
        alloc_fid = update_file s.alloc_fid fid (memcpy buffer req.vbuff req.size);
      },
    )

-- The result, and the bytes at `req->vbuff`
unfoldable pub tmp_read : Tmp → Request → ℕ × List ℕ
tmp_read s req =
    let fid = fid_of req.file.inode in
    let size = min req.size (size_of s.files fid) in (size, memcpy req.vbuff (s.alloc_fid fid) size)

abbrev pub unlock : Tmp → Tmp
unlock s = record s { lock = semaphore_up s.lock }

-- What it does with the lock held; the request is finalized before the lock is released.
abbrev pub serve : (junk : List ℕ) → Tmp → Request → Submitted Tmp
serve junk s req =
    let (rlen, bytes) = tmp_read s req in
    let (wlen, s') = tmp_write junk s req in
    if req.kind == vfs_async_type_read
    then accepts 0 (vfs_async_finalize (record req { vbuff = bytes }) rlen).0 (unlock s)
    else if req.kind == vfs_async_type_write
    then accepts 0 (vfs_async_finalize req wlen).0 (unlock s')
    else accepts (neg16 enosup) req s

abbrev pub serve_locked : (junk : List ℕ) → Tmp → Request → Down → Submitted Tmp
serve_locked junk s req panics = asserts
serve_locked junk s req sleeps = sleeps_inside
serve_locked junk s req (takes left) = serve junk (record s { lock = left }) req

unfoldable pub tmp_submit_req : (junk : List ℕ) → Request → Tmp → Submitted Tmp
tmp_submit_req junk req s = serve_locked junk s req (semaphore_down s.lock)

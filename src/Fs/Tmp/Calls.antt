-- ===== src/Fs/Tmp/Calls.antt =====
-- Blocking calls of vfs.c on files of the temporary file system.
use pi_os.Common.{ℕ, ◌≤◌, ◌≡◌, refl, sym, ap, ◌∙◌, true, some, List, ◌++◌, length, take, drop}
use pi_os.Common.Word.{add16}
use pi_os.Libk.Semaphore.{semaphore_down}
use pi_os.Fs.{Inode, ProcFile}
use pi_os.Fs.Requests.{
  Request, vfs_async_type_read, vfs_async_type_write, vfs_async_finalize, blocking_request, returns,
  vfs_read_blocking, vfs_write_blocking,
}
use pi_os.Fs.Tmp.{Tmp, tmp_read, tmp_write, tmp_submit_req, fid_of}
use pi_os.Fs.Tmp.ReadWrite.{IsValid, has_fid, tmp_read-tmp_write}

-- With the lock free, a blocking write to a temporary file returns what `tmp_write` does, and the lock
-- is free again.
vfs_write_blocking-tmp_write :
    (junk : List ℕ) (s : Tmp) (last_id res : ℕ) (file : ProcFile) (inode : Inode) (pid : ℕ)
    (buff : List ℕ) (size : ℕ)
    → s.lock ≡ 1
    → file.inode ≡ some inode
    → vfs_write_blocking Tmp (some (tmp_submit_req junk)) last_id res file pid buff size s ≡ (
        let w = blocking_request vfs_async_type_write (add16 last_id 1) res file pid buff size in
        let (wlen, s') = tmp_write junk s w in (add16 last_id 1, returns wlen buff s'))
unfolding vfs_write_blocking tmp_submit_req semaphore_down vfs_async_finalize blocking_request
    tmp_write
vfs_write_blocking-tmp_write junk s last_id res file inode pid buff size free opened =
    rw (opened, free) refl

vfs_read_blocking-tmp_read :
    (junk : List ℕ) (s : Tmp) (last_id res : ℕ) (file : ProcFile) (inode : Inode) (pid : ℕ)
    (buff : List ℕ) (size : ℕ)
    → s.lock ≡ 1
    → file.inode ≡ some inode
    → vfs_read_blocking Tmp (some (tmp_submit_req junk)) last_id res file pid buff size s ≡ (
        let r = blocking_request vfs_async_type_read (add16 last_id 1) res file pid buff size in
        let (rlen, bytes) = tmp_read s r in (add16 last_id 1, returns rlen bytes s))
unfolding vfs_read_blocking tmp_submit_req semaphore_down vfs_async_finalize blocking_request
    tmp_read
vfs_read_blocking-tmp_read junk s last_id res file inode pid buff size free opened =
    rw (opened, free) refl

tmp_write-lock : (junk : List ℕ) (s : Tmp) (w : Request) → (tmp_write junk s w).1.lock ≡ s.lock
unfolding tmp_write
tmp_write-lock junk s w = refl

abbrev write_request : ℕ → ℕ → ProcFile → ℕ → List ℕ → ℕ → Request
write_request last_id res file pid bytes size =
    blocking_request vfs_async_type_write (add16 last_id 1) res file pid bytes size

abbrev read_request : ℕ → ℕ → ProcFile → ℕ → List ℕ → ℕ → Request
read_request last_id res file pid buff n =
    blocking_request vfs_async_type_read (add16 last_id 1) res file pid buff n

-- What the request functions put into a request.
request_back :
    (junk : List ℕ) (s : Tmp) (last_id res : ℕ) (file file' : ProcFile) (inode : Inode)
    (pid pid' : ℕ) (bytes buff : List ℕ) (size n : ℕ)
    → IsValid s
    → file.inode ≡ some inode
    → file'.inode ≡ some inode
    → has_fid s.files inode.fid ≡ true
    → size ≤ length junk
    → size ≤ length bytes
    → n ≤ size
    → n ≤ length buff
    → let (wlen, s') = tmp_write junk s (write_request last_id res file pid bytes size) in
      (wlen ≡ size)
      × (tmp_read s' (read_request (add16 last_id 1) res file' pid' buff n)
          ≡ (n, take n bytes ++ drop n buff))
unfolding blocking_request
request_back junk s last_id res file file' inode pid pid' bytes buff size n v opened opened' known
      room src less dst =
    tmp_read-tmp_write junk s (write_request last_id res file pid bytes size)
      (read_request (add16 last_id 1) res file' pid' buff n) v
      (ap (λ i. has_fid s.files (fid_of i)) opened ∙ known)
      (ap fid_of opened' ∙ sym (ap fid_of opened)) room src less dst

-- On a temporary file whose lock is free, a blocking write of the virtual file system returns the
-- number of bytes, and a blocking read of no more bytes through any descriptor of the file then
-- returns those bytes; neither sleeps. It holds when `kmalloc` gives as many bytes as it was asked for.
pub vfs_read_blocking-vfs_write_blocking :
    (junk : List ℕ) (s : Tmp) (last_id res : ℕ) (file file' : ProcFile) (inode : Inode)
    (pid pid' : ℕ) (bytes buff : List ℕ) (size n : ℕ)
    → IsValid s
    → s.lock ≡ 1
    → file.inode ≡ some inode
    → file'.inode ≡ some inode
    → has_fid s.files inode.fid ≡ true
    → size ≤ length junk
    → size ≤ length bytes
    → n ≤ size
    → n ≤ length buff
    → (s' : Tmp) × (id : ℕ) × (vfs_write_blocking Tmp
          (some (tmp_submit_req junk))
          last_id
          res
          file
          pid
          bytes
          size
          s
        ≡ (id, returns size bytes s'))
      × (vfs_read_blocking Tmp (some (tmp_submit_req junk)) id res file' pid' buff n s'
          ≡ (add16 id 1, returns n (take n bytes ++ drop n buff) s'))
vfs_read_blocking-vfs_write_blocking junk s last_id res file file' inode pid pid' bytes buff size n
      v free opened opened' known room src less dst =
    let id = add16 last_id 1 in
    let w = write_request last_id res file pid bytes size in
    let s' = (tmp_write junk s w).1 in
    let (wlen, back) =
      request_back junk s last_id res file file' inode pid pid' bytes buff size n v opened opened'
        known room src less dst in
    (
      s',
      id,
      vfs_write_blocking-tmp_write junk s last_id res file inode pid bytes size free opened
          ∙ ap (λ k. (id, returns k bytes s')) wlen,
      vfs_read_blocking-tmp_read junk s' id res file' inode pid' buff n
            (tmp_write-lock junk s w ∙ free) opened'
          ∙ ap (λ r. (add16 id 1, returns r.0 r.1 s')) back,
    )

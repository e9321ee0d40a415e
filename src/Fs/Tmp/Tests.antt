-- ===== src/Fs/Tmp/Tests.antt =====
-- tmp.c with two files.
use pi_os.Common.{ℕ, zero, suc, ◌≤◌, ◌≡◌, refl, arith, none, some, List, [], ◌∷◌, length, replicate}
use pi_os.Libc.Strings.{CString, strcmp}
use pi_os.Fs.{Inode, ProcFile}
use pi_os.Common.Word.{add16}
use pi_os.Fs.Requests.{Request, returns, vfs_read_blocking, vfs_write_blocking}
use pi_os.Fs.Tmp.Calls.{vfs_read_blocking-vfs_write_blocking}
use pi_os.Fs.Tmp.{
  Tmp, new_inode, find_name, tmp_find_inode, size_of, tmp_write, tmp_read, tmp_submit_req,
}
use pi_os.Fs.Tmp.ReadWrite.{IsValid, tmp_read-tmp_write}
use pi_os.Fs.Tmp.Files.{IsNumbered}

abbrev a_path : CString
a_path = b'a' ∷ []

abbrev b_path : CString
b_path = b'b' ∷ []

abbrev a_inode : Inode
a_inode = record { name = a_path; fid = 0; size = 2; vnode = some 3; kind = 1 }

abbrev b_inode : Inode
b_inode = record { name = b_path; fid = 1; size = 0; vnode = some 3; kind = 1 }

abbrev bytes_of : ℕ → List ℕ
bytes_of zero = 5 ∷ 6 ∷ []
bytes_of (suc i) = []

abbrev both : Tmp
both = record { files = a_inode ∷ b_inode ∷ []; lock = 1; fid = 2; alloc_fid = bytes_of }

abbrev opened : ℕ → ProcFile
opened offset = record { inode = some a_inode; offset = offset; fcntl_flags = 0; driver_data = 0 }

abbrev request : Inode → List ℕ → ℕ → Request
request inode vbuff size = record {
  req_id = 1;
  file = record { inode = some inode; offset = 0; fcntl_flags = 0; driver_data = 0 };
  kind = 1;
  pid = 1;
  vbuff = vbuff;
  size = size;
  callback = none;
  fin_sema = none;
  res = 0;
  flags = 0;
}

both-IsValid : IsValid both
unfolding size_of
both-IsValid = record { fits = fits }
  where
    fits : (fid : ℕ) → size_of both.files fid ≤ length (bytes_of fid)
    fits zero = omega arith
    fits (suc zero) = omega arith
    fits (suc (suc i)) = ground arith

both-IsNumbered : IsNumbered both
both-IsNumbered = record { fids = (omega arith, (omega arith, omega arith)); slots = omega arith }

tmp_read-tmp_write_example :
    let (wlen, s') = tmp_write (replicate 3 0) both (request a_inode (7 ∷ 8 ∷ 9 ∷ []) 3) in
    (wlen ≡ 3) × (tmp_read s' (request a_inode (1 ∷ 1 ∷ 1 ∷ []) 2) ≡ (2, 7 ∷ 8 ∷ 1 ∷ []))
tmp_read-tmp_write_example =
    tmp_read-tmp_write (replicate 3 0) both (request a_inode (7 ∷ 8 ∷ 9 ∷ []) 3)
      (request a_inode (1 ∷ 1 ∷ 1 ∷ []) 2) both-IsValid refl refl (omega arith) (omega arith)
      (omega arith) (omega arith)

creates_c : tmp_find_inode 3 (b'c' ∷ []) (9 ∷ 9 ∷ []) both ≡ (
  some (new_inode 3 (b'c' ∷ []) (9 ∷ 9 ∷ []) 2),
  (tmp_find_inode 3 (b'c' ∷ []) (9 ∷ 9 ∷ []) both).1,
)
unfolding tmp_find_inode find_name strcmp
creates_c = refl

vfs_read_blocking-vfs_write_blocking_example :
    (s' : Tmp) × (id : ℕ) × (vfs_write_blocking Tmp
        (some (tmp_submit_req (replicate 3 0)))
        4
        0
        (opened 0)
        1
        (7 ∷ 8 ∷ 9 ∷ [])
        3
        both
      ≡ (id, returns 3 (7 ∷ 8 ∷ 9 ∷ []) s'))
    × (vfs_read_blocking Tmp
          (some (tmp_submit_req (replicate 3 0)))
          id
          0
          (opened 5)
          1
          (1 ∷ 1 ∷ 1 ∷ [])
          2
          s'
        ≡ (add16 id 1, returns 2 (7 ∷ 8 ∷ 1 ∷ []) s'))
vfs_read_blocking-vfs_write_blocking_example =
    vfs_read_blocking-vfs_write_blocking (replicate 3 0) both 4 0 (opened 0) (opened 5) a_inode 1 1
      (7 ∷ 8 ∷ 9 ∷ []) (1 ∷ 1 ∷ 1 ∷ []) 3 2 both-IsValid refl refl refl refl (omega arith)
      (omega arith) (omega arith) (omega arith)

-- ===== src/Fs/Tmp/ReadWrite.antt =====
-- What is written to a temporary file is read back, and no other file changes.
use pi_os.Common.{
  ℕ, zero, suc, ◌≤◌, ◌≡◌, ◌≢◌, refl, ap, ◌∙◌, arith, Bool, true, false, List, [], ◌∷◌, ◌++◌, min,
  ltb, ◌==◌, if◌then◌else◌, length, take, drop, length-append, length-take, Bool-cases, inl, inr,
  ne→==, eq→==, ==→eq, ==→ne,
}
use pi_os.Libc.Strings.{memcpy}
use pi_os.Libc.Strings.Copy.{memcpy-take, length-memcpy}
use pi_os.Fs.{Inode}
use pi_os.Fs.Requests.{Request}
use pi_os.Fs.Tmp.{Tmp, update_file, fid_of, size_of, set_size, tmp_write, tmp_read}

abbrev pub has_fid : List Inode → ℕ → Bool
has_fid [] fid = false
has_fid (inode ∷ files) fid = if inode.fid == fid then true else has_fid files fid

-- Every file's buffer holds its size.
pub record IsValid (s : Tmp) : Type 0 where
  pub fits : (fid : ℕ) → size_of s.files fid ≤ length (s.alloc_fid fid)

size_of-set_size :
    (files : List Inode) (fid n : ℕ)
    → has_fid files fid ≡ true
    → size_of (set_size files fid n) fid ≡ n
unfolding size_of set_size
size_of-set_size [] fid n h = absurd (cc h)
size_of-set_size (inode ∷ files) fid n h = elim (Bool-cases (inode.fid == fid)) [
  | inl e ↦ rw (e, e) refl
  | inr e ↦ rw (e, e) (size_of-set_size files fid n (ground (arith, h, e)))
]

size_of-set_size_ne :
    (files : List Inode) (fid n other : ℕ)
    → other ≢ fid
    → size_of (set_size files fid n) other ≡ size_of files other
unfolding size_of set_size
size_of-set_size_ne [] fid n other ne = refl
size_of-set_size_ne (inode ∷ files) fid n other ne =
    ground (arith, ne, size_of-set_size_ne files fid n other ne)

take-take_append :
    {A : Type 0} (k n : ℕ) (xs ys : List A)
    → k ≤ n
    → n ≤ length xs
    → take k (take n xs ++ ys) ≡ take k xs
take-take_append zero n xs ys a b = refl
take-take_append (suc k) zero xs ys a b = absurd (omega arith)
take-take_append (suc k) (suc n) [] ys a b = absurd (omega arith)
take-take_append (suc k) (suc n) (x ∷ xs) ys a b =
    ap (λ t. x ∷ t) (take-take_append k n xs ys (omega arith) (omega arith))

-- The room for a write: a new buffer, or the old one.
buffer-room :
    (junk : List ℕ) (s : Tmp) (fid n : ℕ)
    → IsValid s
    → n ≤ length junk
    → n ≤ length (if ltb (size_of s.files fid) n then junk else s.alloc_fid fid)
buffer-room junk s fid n v room = elim (Bool-cases (ltb (size_of s.files fid) n)) [
  | inl grows ↦ rw grows room
  | inr stays ↦ rw stays (ground (arith, stays, v.fits fid))
]

tmp_write-bytes :
    (junk : List ℕ) (s : Tmp) (w : Request)
    → IsValid s
    → w.size ≤ length junk
    → w.size ≤ length w.vbuff
    → (rest : List ℕ) × ((tmp_write junk s w).1.alloc_fid (fid_of w.file.inode)
        ≡ take w.size w.vbuff ++ rest)
unfolding tmp_write
tmp_write-bytes junk s w v room src =
    let fid = fid_of w.file.inode in
    let e = eq→== fid fid refl in
    let buffer = if ltb (size_of s.files fid) w.size then junk else s.alloc_fid fid in
    (
      drop w.size buffer,
      rw e (memcpy-take w.size buffer w.vbuff (buffer-room junk s fid w.size v room) src),
    )

tmp_write-size :
    (junk : List ℕ) (s : Tmp) (w : Request)
    → has_fid s.files (fid_of w.file.inode) ≡ true
    → w.size ≤ size_of (tmp_write junk s w).1.files (fid_of w.file.inode)
unfolding tmp_write
tmp_write-size junk s w known =
    let fid = fid_of w.file.inode in
    elim (Bool-cases (ltb (size_of s.files fid) w.size)) [
      | inl grows ↦ rw grows (omega (arith, size_of-set_size s.files fid w.size known))
      | inr stays ↦ rw stays (ground (arith, stays))
    ]

tmp_read-of_bytes :
    (s : Tmp) (r : Request) (fid : ℕ) (stored : List ℕ)
    → fid_of r.file.inode ≡ fid
    → s.alloc_fid fid ≡ stored
    → r.size ≤ size_of s.files fid
    → r.size ≤ length stored
    → r.size ≤ length r.vbuff
    → tmp_read s r ≡ (r.size, take r.size stored ++ drop r.size r.vbuff)
unfolding tmp_read
tmp_read-of_bytes s r fid stored e bytes size enough dst =
    let at : size_of s.files (fid_of r.file.inode) ≡ size_of s.files fid = ap (size_of s.files) e in
    let n : min r.size (size_of s.files (fid_of r.file.inode)) ≡ r.size = omega (arith, at, size) in
    let found : s.alloc_fid (fid_of r.file.inode) ≡ stored = ap s.alloc_fid e ∙ bytes in
    rw (n, found) (ap (λ b. (r.size, b)) (memcpy-take r.size r.vbuff stored dst enough))

tmp_write-result : (junk : List ℕ) (s : Tmp) (w : Request) → (tmp_write junk s w).0 ≡ w.size
unfolding tmp_write
tmp_write-result junk s w = refl

-- A read of a file that was just written, of no more bytes than the write, gives the bytes that were
-- written; the rest of the reader's buffer stays.
pub tmp_read-tmp_write :
    (junk : List ℕ) (s : Tmp) (w r : Request)
    → IsValid s
    → has_fid s.files (fid_of w.file.inode) ≡ true
    → fid_of r.file.inode ≡ fid_of w.file.inode
    → w.size ≤ length junk
    → w.size ≤ length w.vbuff
    → r.size ≤ w.size
    → r.size ≤ length r.vbuff
    → let (wlen, s') = tmp_write junk s w in
      (wlen ≡ w.size) × (tmp_read s' r ≡ (r.size, take r.size w.vbuff ++ drop r.size r.vbuff))
tmp_read-tmp_write junk s w r v known same room src less dst =
    let fid = fid_of w.file.inode in
    let (rest, bytes) = tmp_write-bytes junk s w v room src in
    let size = tmp_write-size junk s w known in
    let enough : r.size ≤ length (take w.size w.vbuff ++ rest) =
      omega (arith, length-append (take w.size w.vbuff) rest, length-take w.size w.vbuff) in
    (
      tmp_write-result junk s w,
      tmp_read-of_bytes _ r fid _ same bytes (omega (arith, size)) enough dst
          ∙ ap (λ b. (r.size, b ++ drop r.size r.vbuff))
              (take-take_append r.size w.size w.vbuff rest less src),
    )

-- The inodes and the buffer of a write.
abbrev files_after : Tmp → Request → List Inode
files_after s w =
    if ltb (size_of s.files (fid_of w.file.inode)) w.size
    then set_size s.files (fid_of w.file.inode) w.size
    else s.files

abbrev buffer_for : List ℕ → Tmp → Request → List ℕ
buffer_for junk s w =
    if ltb (size_of s.files (fid_of w.file.inode)) w.size
    then junk
    else s.alloc_fid (fid_of w.file.inode)

size_of-files_after :
    (s : Tmp) (w : Request) (other : ℕ)
    → other ≢ fid_of w.file.inode
    → size_of (files_after s w) other ≡ size_of s.files other
size_of-files_after s w other ne =
    elim (Bool-cases (ltb (size_of s.files (fid_of w.file.inode)) w.size)) [
      | inl grows ↦ rw grows (size_of-set_size_ne s.files (fid_of w.file.inode) w.size other ne)
      | inr stays ↦ rw stays refl
    ]

own_fits :
    (junk : List ℕ) (s : Tmp) (w : Request)
    → IsValid s
    → has_fid s.files (fid_of w.file.inode) ≡ true
    → w.size ≤ length junk
    → size_of (files_after s w) (fid_of w.file.inode)
      ≤ length (memcpy (buffer_for junk s w) w.vbuff w.size)
own_fits junk s w v known room =
    let fid = fid_of w.file.inode in
    elim (Bool-cases (ltb (size_of s.files fid) w.size)) [
      | inl grows ↦ rw grows (
          omega
            (arith, size_of-set_size s.files fid w.size known, length-memcpy junk w.vbuff w.size))
      | inr stays ↦
          rw stays (omega (arith, v.fits fid, length-memcpy (s.alloc_fid fid) w.vbuff w.size))
    ]

fits_after :
    (junk : List ℕ) (s : Tmp) (w : Request) (g : ℕ)
    → IsValid s
    → has_fid s.files (fid_of w.file.inode) ≡ true
    → w.size ≤ length junk
    → size_of (files_after s w) g
      ≤ length (
          update_file s.alloc_fid
            (fid_of w.file.inode)
            (memcpy (buffer_for junk s w) w.vbuff w.size)
            g)
fits_after junk s w g v known room = elim (Bool-cases (g == fid_of w.file.inode)) [
  | inl e ↦
      rw e (
        omega (arith, ap (size_of (files_after s w)) (==→eq _ _ e), own_fits junk s w v known room))
  | inr e ↦ rw e (omega (arith, size_of-files_after s w g (==→ne _ _ e), v.fits g))
]

-- A write keeps the buffers large enough, and changes neither the size nor the bytes of another file.
pub tmp_write-IsValid :
    (junk : List ℕ) (s : Tmp) (w : Request)
    → IsValid s
    → has_fid s.files (fid_of w.file.inode) ≡ true
    → w.size ≤ length junk
    → let (wlen, s') = tmp_write junk s w in
      IsValid s'
      × ((other : ℕ)
          → other ≢ fid_of w.file.inode
          → (size_of s'.files other ≡ size_of s.files other)
            × (s'.alloc_fid other ≡ s.alloc_fid other))
unfolding tmp_write
tmp_write-IsValid junk s w v known room =
    let fid = fid_of w.file.inode in
    (
      record { fits = λ g. fits_after junk s w g v known room },
      λ other ne. (size_of-files_after s w other ne, rw (ne→== other fid ne) refl),
    )

-- ===== src/Fs/Files/Seek.antt =====
-- Opening, closing and seeking in one file.
use pi_os.Common.{
  ℕ, ◌+◌, ◌-◌, ◌%◌, ◌≤◌, ◌<◌, ◌≡◌, ◌≢◌, ◌⊎◌, inl, inr, refl, arith, none, some, is_some, Bool-cases,
  false, ◌==◌, ==→eq, ltb, if◌then◌else◌,
}
use pi_os.Common.Word.{add16, neg16, is_neg16}
use pi_os.Fs.{Inode, ProcFile, einval, ebadfd}
use pi_os.Fs.Files.{vfs_open, vfs_close, vfs_seek, seek_set, seek_cur}

-- A file that was opened is at its start with no flags; closing it succeeds once, and a second
-- close reports a bad descriptor and changes nothing.
pub close-open :
    (inode : Inode) (target : ProcFile)
    → let (r, file) = vfs_open (some inode) target in
      let (c, closed) = vfs_close file in
      let (d, again) = vfs_close closed in
      (r ≡ 0)
      × (file.inode ≡ some inode)
      × (file.offset ≡ 0)
      × (file.fcntl_flags ≡ 0)
      × (c ≡ 0)
      × (closed.inode ≡ none)
      × (d ≡ neg16 ebadfd)
      × (again ≡ closed)
unfolding vfs_open vfs_close
close-open inode target = (refl, refl, refl, refl, refl, refl, refl, refl)

-- No word is below 0.
ltb-zero : (n : ℕ) → ltb n 0 ≡ false
ltb-zero n = ground arith

-- What a seek on an open file does: an absolute one sets the offset or refuses a negative one, a
-- relative one moves it by a word, and for another `whence` it tells the offset.
abbrev pub Sought : (file : ProcFile) (off whence : ℕ) → ℕ × ProcFile → Type 0
Sought file off whence (r, file') =
    ((whence ≡ seek_set) × (off < 0x8000) × (r ≡ off) × (file' ≡ record file { offset = off }))
    ⊎ ((whence ≡ seek_set) × (0x8000 ≤ off) × (r ≡ neg16 einval) × (file' ≡ file))
    ⊎ ((whence ≡ seek_cur)
        × (r ≡ (file.offset + off) % 0x1_0000)
        × (file' ≡ record file { offset = r }))
    ⊎ ((1 < whence) × (r ≡ file.offset) × (file' ≡ file))

-- A seek on a closed file reports a bad descriptor and changes nothing. On an open file it changes at
-- most the offset: an absolute seek sets it, or refuses a negative one; a relative one moves it by a
-- word; for another `whence` the result is the offset.
pub vfs_seek_branches :
    (file : ProcFile) (off whence : ℕ)
    → let (r, file') = vfs_seek file off whence in
      ((file.inode ≡ none) × (r ≡ neg16 ebadfd) × (file' ≡ file))
      ⊎ ((file.inode ≢ none) × Sought file off whence (r, file'))
unfolding vfs_seek
vfs_seek_branches file off whence = elim (Bool-cases (is_some file.inode)) [
  | inr shut ↦ rw shut (inl (ground (arith, shut), refl, refl))
  | inl opened ↦ rw opened (inr (ground (arith, opened), go))
]
  where
    go : Sought file off whence (
        if whence == seek_set
        then (if is_neg16 off then (neg16 einval, file) else (off, record file { offset = off }))
        else (if whence == seek_cur
            then (if ltb (add16 file.offset off) 0
                then (neg16 einval, file)
                else (add16 file.offset off, record file { offset = add16 file.offset off }))
            else (file.offset, file)))
    go = elim (Bool-cases (whence == seek_set)) [
      | inl set ↦ elim (Bool-cases (is_neg16 off)) [
        | inl neg ↦ rw (set, neg) (inr (inl (==→eq _ _ set, ground (arith, neg), refl, refl)))
        | inr fine ↦ rw (set, fine) (inl (==→eq _ _ set, ground (arith, fine), refl, refl))
      ]
      | inr not_set ↦ elim (Bool-cases (whence == seek_cur)) [
        | inl cur ↦
            rw (not_set, cur, ltb-zero (add16 file.offset off))
              (inr (inr (inl (==→eq _ _ cur, refl, refl))))
        | inr other ↦
            rw (not_set, other) (inr (inr (inr (ground (arith, not_set, other), refl, refl))))
      ]
    ]

-- A relative seek to before the start of an open file is not refused: the offset wraps round, and
-- lies past every position that the file had.
pub seek_cur_wraps :
    (file : ProcFile) (back : ℕ)
    → file.inode ≢ none
    → file.offset < back
    → back < 0x8000
    → let (r, file') = vfs_seek file (neg16 back) seek_cur in
      (r ≡ 0x1_0000 + file.offset - back) × (file'.offset ≡ r)
unfolding vfs_seek
seek_cur_wraps file back h lt small = ground arith

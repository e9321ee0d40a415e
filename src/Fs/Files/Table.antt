-- ===== src/Fs/Files/Table.antt =====
-- The descriptor table.
use pi_os.Common.{
  ℕ, zero, suc, ◌+◌, ◌≤◌, ◌<◌, ◌≡◌, refl, arith, Bool, true, false, List, [], ◌∷◌, is_some, length,
  ◌⊎◌, inl, inr, Bool-cases,
}
use pi_os.Common.Word.{neg16}
use pi_os.Fs.{ProcFile, etoomanyfiles}
use pi_os.Fs.Files.{validate_fd, proc_free_fd, free_fd_from, proc_max_files}

-- Whether descriptor `i` of a table is open.
abbrev pub is_open : List ProcFile → ℕ → Bool
is_open [] i = false
is_open (file ∷ files) zero = is_some file.inode
is_open (file ∷ files) (suc i) = is_open files i

-- The first `n` descriptors are open.
abbrev pub OpenBelow : ℕ → List ProcFile → Type 0
OpenBelow n files = (j : ℕ) → j < n → is_open files j ≡ true

OpenBelow-cons :
    (n : ℕ) (file : ProcFile) (files : List ProcFile)
    → is_some file.inode ≡ true
    → OpenBelow n files
    → OpenBelow (suc n) (file ∷ files)
OpenBelow-cons n file files e all zero h = e
OpenBelow-cons n file files e all (suc j) h = all j (omega arith)

abbrev FreeFrom : ℕ → List ProcFile → ℕ → Type 0
FreeFrom i files r =
    ((r ≡ neg16 etoomanyfiles) × OpenBelow (length files) files)
    ⊎ ((k : ℕ) × (r ≡ i + k) × (k < length files) × (is_open files k ≡ false) × OpenBelow k files)

free_fd_from-FreeFrom : (files : List ProcFile) (i : ℕ) → FreeFrom i files (free_fd_from i files)
unfolding free_fd_from
free_fd_from-FreeFrom [] i = inl (refl, λ j h. absurd (omega arith))
free_fd_from-FreeFrom (file ∷ files) i = elim (Bool-cases (is_some file.inode)) [
  | inr free ↦ rw free (inr (0, omega arith, omega arith, free, λ j h. absurd (omega arith)))
  | inl used ↦ rw used (more used (free_fd_from-FreeFrom files (i + 1)))
]
  where
    more :
        is_some file.inode ≡ true
        → FreeFrom (i + 1) files (free_fd_from (i + 1) files)
        → FreeFrom i (file ∷ files) (free_fd_from (i + 1) files)
    more u (inl (e, all)) = inl (e, OpenBelow-cons (length files) file files u all)
    more u (inr (k, e, lt, free, all)) =
        inr (suc k, omega arith, omega arith, free, OpenBelow-cons k file files u all)

-- `proc_free_fd` returns the least descriptor of the table that is not open, and -ETOOMANYFILES
-- exactly when all are open.
pub proc_free_fd_least :
    (files : List ProcFile)
    → ((proc_free_fd files ≡ neg16 etoomanyfiles) × OpenBelow (length files) files)
      ⊎ ((k : ℕ) × (proc_free_fd files ≡ k)
          × (k < length files)
          × (is_open files k ≡ false)
          × OpenBelow k files)
unfolding proc_free_fd
proc_free_fd_least files = elim (free_fd_from-FreeFrom files 0) [
  | inl full ↦ inl full
  | inr (k, e, lt, free, all) ↦ inr (k, omega (arith, e), lt, free, all)
]

-- `validate_fd` accepts just the words 0 to 16: one more than the descriptors of a table.
pub validate_fd_iff :
    (fd : ℕ)
    → fd < 0x1_0000
    → (validate_fd fd ≡ true → fd ≤ proc_max_files) × (fd ≤ proc_max_files → validate_fd fd ≡ true)
unfolding validate_fd
validate_fd_iff fd h = (λ e. ground arith, λ l. ground arith)

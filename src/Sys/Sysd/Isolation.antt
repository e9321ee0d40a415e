-- ===== src/Sys/Sysd/Isolation.antt =====
-- kernel/sys/sysd.c: what a system call can change outside its process.
use pi_os.Common.{
  ℕ, zero, suc, ◌+◌, ◌≡◌, ◌≢◌, refl, ap, sym, ◌∙◌, arith, Bool-cases, inl, inr, Option-cases, List,
  [], ◌∷◌, get_elem?, get_elem?-set_ne, length, ◌==◌, take, drop,
}
use pi_os.Common.Word.{add16}
use pi_os.Proc.{Proc}
use pi_os.Proc.Virtual.{
  Memory, phys_page, local_part, to_copy, poke, store_at, copy_to, memcpy_to_userspace,
}
use pi_os.Sys.Sysd.{
  Drivers, Kernel, Call, ends, sleeps_on_request, sleeps_in_call, enters_mq, reads_null,
  call_panics, reg, put,
}
use pi_os.Fs.{ProcFile}
use pi_os.Fs.Files.{validate_fd}
use pi_os.Sys.Sysd.Files.{with_file}

-- No virtual address of the process is in the physical page.
abbrev pub NotMapped : Proc → ℕ → Type 0
NotMapped p page = (u : ℕ) → phys_page u p.syscall_state.mem_pages ≢ page

store_at_other :
    (mem : Memory) (p r : ℕ) (xs : List ℕ) (page a : ℕ)
    → p ≢ page
    → store_at mem p r xs page a ≡ mem page a
unfolding store_at
store_at_other mem p r [] page a h = refl
store_at_other mem p r (x ∷ xs) page a h =
    store_at_other (poke mem p r x) p (r + 1) xs page a h ∙ ground (arith, h)

copy_to_other :
    (fuel : ℕ) (mem : Memory) (p : Proc) (u : ℕ) (xs : List ℕ) (page a : ℕ)
    → NotMapped p page
    → copy_to fuel mem p.syscall_state.mem_pages u xs page a ≡ mem page a
unfolding copy_to
copy_to_other zero mem p u xs page a h = refl
copy_to_other (suc fuel) mem p u xs page a h = elim (Bool-cases (length xs == 0)) [
  | inl done ↦ rw done refl
  | inr more ↦
      let pages = p.syscall_state.mem_pages in
      let n : ℕ = to_copy u (length xs) in
      let stored : Memory = store_at mem (phys_page u pages) (local_part u) (take n xs) in
      rw more (
        copy_to_other fuel stored p (add16 u n) (drop n xs) page a h
        ∙ store_at_other mem (phys_page u pages) (local_part u) (take n xs) page a (h u))
]

memcpy_to_userspace_other :
    (mem : Memory) (p : Proc) (u : ℕ) (xs : List ℕ) (page a : ℕ)
    → NotMapped p page
    → memcpy_to_userspace mem p u xs page a ≡ mem page a
unfolding memcpy_to_userspace
memcpy_to_userspace_other mem p u xs page a h = copy_to_other 17 mem p u xs page a h

module _ {S : Type 0} where
  -- The other processes are as they were, and so is the memory that the process `p` does not map.
  pub record Isolated (k : Kernel S) (p : Proc) (k' : Kernel S) : Type 0 where
    pub same_current : k'.current ≡ k.current
    pub others : (i : ℕ) → i ≢ k.current → get_elem? k'.procs i ≡ get_elem? k.procs i
    pub memory : (page a : ℕ) → NotMapped p page → k'.mem page a ≡ k.mem page a

  -- Wherever a call ends or waits, it has been so.
  abbrev pub IsolatedCall : Kernel S → Proc → Call S → Type 0
  IsolatedCall k p (ends k') = Isolated k p k'
  IsolatedCall k p (sleeps_on_request k' req) = Isolated k p k'
  IsolatedCall k p (sleeps_in_call k') = Isolated k p k'
  IsolatedCall k p (enters_mq k' thread) = Isolated k p k'
  IsolatedCall k p reads_null = Unit {0}
  IsolatedCall k p call_panics = Unit {0}

  pub unchanged : (k : Kernel S) (p : Proc) → Isolated k p k
  unchanged k p = record { same_current = refl; others = λ i h. refl; memory = λ page a h. refl }

  -- Changes to other variables of the kernel
  pub kept :
      (k : Kernel S) (p : Proc) (k' : Kernel S)
      → k'.current ≡ k.current
      → k'.procs ≡ k.procs
      → k'.mem ≡ k.mem
      → Isolated k p k'
  kept k p k' c ps m = record {
    same_current = c;
    others = λ i h. ap (λ t. get_elem? t i) ps;
    memory = λ page a h. ap (λ t. t page a) m;
  }

  -- A write to the current process, and one to its memory
  pub put-Isolated :
      (k : Kernel S) (p : Proc) (k' : Kernel S) (q : Proc)
      → Isolated k p k'
      → Isolated k p (put k' q)
  put-Isolated k p k' q h = record {
    same_current = h.same_current;
    others = λ i ne.
        get_elem?-set_ne k'.procs k'.current i q (λ e. ne (sym e ∙ h.same_current)) ∙ h.others i ne;
    memory = h.memory;
  }

  pub store-Isolated :
      (k : Kernel S) (p : Proc) (k' : Kernel S) (u : ℕ) (xs : List ℕ)
      → Isolated k p k'
      → Isolated k p (record k' { mem = memcpy_to_userspace k'.mem p u xs })
  store-Isolated k p k' u xs h = record {
    same_current = h.same_current;
    others = h.others;
    memory = λ page a n. memcpy_to_userspace_other k'.mem p u xs page a n ∙ h.memory page a n;
  }

  pub with_file-Isolated :
      (drivers : Drivers S) (k : Kernel S) (p : Proc) (rest : ProcFile → Call S)
      → ((file : ProcFile) → IsolatedCall k p (rest file))
      → IsolatedCall k p (with_file drivers k p rest)
  with_file-Isolated drivers k p rest h = elim (Bool-cases (validate_fd (reg p 1))) [
    | inl valid ↦ rw valid (elim (Option-cases (get_elem? p.open_files (reg p 1))) [
      | inl past ↦ rw past tt
      | inr (file, e) ↦ rw e (h file)
    ])
    | inr bad ↦ rw bad (put-Isolated k p k _ (unchanged k p))
  ]

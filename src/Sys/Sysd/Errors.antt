-- ===== src/Sys/Sysd/Errors.antt =====
-- kernel/sys/sysd.c: descriptors that no table has, and the clock.
use pi_os.Common.{
  ◌<◌, sym, subst, ◌⊎◌, inl, inr, set, get_or, ℕ, ◌*◌, ◌%◌, ◌≡◌, refl, ap, ◌∙◌, arith, false, some,
  List, get_elem?,
}
use pi_os.Common.Word.{neg16}
use pi_os.Fs.{ebadfd}
use pi_os.Fs.Files.{validate_fd}
use pi_os.Proc.{Proc}
use pi_os.Sys.Sysd.{Drivers, Kernel, ends, reg, set_reg, put, returns_word}
use pi_os.Sys.Sysd.Files.{sys_close, sys_read, sys_write, sys_fcntl}
use pi_os.Sys.Sysd.Processes.{sys_clockticks}
use pi_os.Sys.Sysd.Dispatch.{
  Sysno, sys_close_no, sys_read_no, sys_write_no, sys_fcntl_no, sys_exec_no, sys_clockticks_no,
  sysno_of, Loader, sys_exec, dispatch, process_syscall, process_syscall-dispatch,
}

-- The calls that are given a descriptor.
abbrev pub TakesDescriptor : Sysno → Type 0
TakesDescriptor sys_close_no = Unit {0}
TakesDescriptor sys_read_no = Unit {0}
TakesDescriptor sys_write_no = Unit {0}
TakesDescriptor sys_fcntl_no = Unit {0}
TakesDescriptor sys_exec_no = Unit {0}
TakesDescriptor other = ⊥

module _ {S : Type 0} (drivers : Drivers S) (elf_load : Loader S) (block : ℕ) (junk : List ℕ)
    (k : Kernel S) (p : Proc) where
  dispatch_bad_fd :
      (n : Sysno)
      → TakesDescriptor n
      → validate_fd (reg p 1) ≡ false
      → dispatch drivers elf_load block junk n k p ≡ returns_word k p (neg16 ebadfd)
  unfolding dispatch sys_close sys_read sys_write sys_fcntl sys_exec
  dispatch_bad_fd sys_close_no t bad = rw bad refl
  dispatch_bad_fd sys_read_no t bad = rw bad refl
  dispatch_bad_fd sys_write_no t bad = rw bad refl
  dispatch_bad_fd sys_fcntl_no t bad = rw bad refl
  dispatch_bad_fd sys_exec_no t bad = rw bad refl
  dispatch_bad_fd other t bad = absurd t

-- The numbers in `regs[0]` of close, read, write, fcntl and exec.
abbrev pub IsDescriptorCall : ℕ → Type 0
IsDescriptorCall n = (n ≡ 3) ⊎ (n ≡ 4) ⊎ (n ≡ 5) ⊎ (n ≡ 6) ⊎ (n ≡ 0x14)

IsDescriptorCall-TakesDescriptor : (n : ℕ) → IsDescriptorCall n → TakesDescriptor (sysno_of n)
unfolding sysno_of
IsDescriptorCall-TakesDescriptor n (inl e) = subst (λ m. TakesDescriptor (sysno_of m)) (sym e) tt
IsDescriptorCall-TakesDescriptor n (inr (inl e)) =
    subst (λ m. TakesDescriptor (sysno_of m)) (sym e) tt
IsDescriptorCall-TakesDescriptor n (inr (inr (inl e))) =
    subst (λ m. TakesDescriptor (sysno_of m)) (sym e) tt
IsDescriptorCall-TakesDescriptor n (inr (inr (inr (inl e)))) =
    subst (λ m. TakesDescriptor (sysno_of m)) (sym e) tt
IsDescriptorCall-TakesDescriptor n (inr (inr (inr (inr e)))) =
    subst (λ m. TakesDescriptor (sysno_of m)) (sym e) tt

validate_fd-large : (fd : ℕ) → 16 < fd → validate_fd fd ≡ false
unfolding validate_fd
validate_fd-large fd h = ground arith

-- When the current process makes the call of number 3, 4, 5, 6 or 0x14 (close, read, write, fcntl or
-- exec) on a descriptor above 16, as an unsigned word, so that the negative ones are among them, the
-- call ends, -EBADFD (0xFFF9) is in `regs[0]` of the process, and nothing else of the kernel has changed.
pub process_syscall_bad_fd :
    {S : Type 0} (drivers : Drivers S) (elf_load : Loader S) (block : ℕ) (junk : List ℕ)
    (k : Kernel S) (p : Proc)
    → get_elem? k.procs k.current ≡ some p
    → IsDescriptorCall (get_or p.syscall_state.regs 0 0)
    → 16 < get_or p.syscall_state.regs 1 0
    → process_syscall drivers elf_load block junk k
      ≡ ends (record k {
        procs = set k.procs k.current (record p {
          syscall_state = record p.syscall_state { regs = set p.syscall_state.regs 0 0xFFF9 };
        });
      })
process_syscall_bad_fd drivers elf_load block junk k p here call large =
    process_syscall-dispatch drivers elf_load block junk k p here
    ∙ dispatch_bad_fd drivers elf_load block junk k p (sysno_of (reg p 0))
        (IsDescriptorCall-TakesDescriptor (reg p 0) call) (validate_fd-large (reg p 1) large)

-- The clock tells the low word of the ticks in `regs[0]`, and always 0 as the high word in `regs[1]`.
pub process_syscall-clock :
    {S : Type 0} (drivers : Drivers S) (elf_load : Loader S) (block : ℕ) (junk : List ℕ)
    (k : Kernel S) (p : Proc)
    → get_elem? k.procs k.current ≡ some p
    → sysno_of (reg p 0) ≡ sys_clockticks_no
    → process_syscall drivers elf_load block junk k
      ≡ ends (put k (set_reg (set_reg p 0 (k.sys_ticks % 0x1_0000)) 1 0))
unfolding dispatch sys_clockticks
process_syscall-clock drivers elf_load block junk k p here n =
    let zero_high : ((k.sys_ticks * 0x1_0000) % 0x1_0000_0000) % 0x1_0000 ≡ 0 = omega arith in
    process_syscall-dispatch drivers elf_load block junk k p here
    ∙ ap (λ m. dispatch drivers elf_load block junk m k p) n
    ∙ ap (λ (w : ℕ). ends (put k (set_reg (set_reg p 0 (k.sys_ticks % 0x1_0000)) 1 w))) zero_high

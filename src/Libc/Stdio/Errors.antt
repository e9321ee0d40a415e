-- ===== src/Libc/Stdio/Errors.antt =====
-- stdio.c when the kernel refuses a write.
use pi_os.Common.{
  ℕ, ◌<◌, ◌≤◌, ◌≡◌, refl, arith, false, true, Bool-cases, inl, inr, ◌==◌, ==→eq, List, [], take,
}
use pi_os.Common.Word.{mul16, neg16, is_neg16}
use pi_os.Libc.Stdio.{file_buff_type_unbuff, File, Syscalls, writes_to_buff, fflush, fwrite}
use pi_os.Libc.Stdio.Stream.{pending, take-none}

-- The kernel refuses every write to the descriptor with the error `e`.
pub record Refuses {S : Type 0} (sys : Syscalls S) (fd e : ℕ) : Type 0 where
  pub res : (bytes : List ℕ) (s : S) → (sys.sys_write fd bytes s).0 ≡ neg16 e
  pub is_error : 0 < e
  pub small : e ≤ 0x8000

-- The write is refused: nothing is counted, the error is kept, and the buffer is empty.
pub record Refused {S : Type 0} (e : ℕ) (res : ℕ × File × S) : Type 0 where
  pub count : res.0 ≡ 0
  pub error : res.1.status ≡ e
  pub lost : pending res.1 ≡ []

-- When the kernel refuses the writes, a write that does not fit in the buffer, or that may not wait
-- there, returns 0 and leaves the error in the status; what waited in the buffer is lost.
pub fwrite-Refused :
    {S : Type 0} (sys : Syscalls S) (stream : File) (s : S) (buffer : List ℕ) (one_size nmemb e : ℕ)
    → Refuses sys stream.file_fd e
    → writes_to_buff stream buffer (mul16 one_size nmemb) ≡ false
    → Refused e (fwrite sys buffer one_size nmemb stream s)
unfolding fwrite fflush
fwrite-Refused sys stream s buffer one_size nmemb e r through =
    let neg : is_neg16 (neg16 e) ≡ true = ground (arith, r.is_error, r.small) in
    let back : neg16 (neg16 e) ≡ e = omega (arith, r.is_error, r.small) in
    simp through (elim (Bool-cases (stream.buff_type == file_buff_type_unbuff)) [
      | inl unbuff ↦
          simp (unbuff, r.res (take (mul16 one_size nmemb) buffer) s, neg)
            (record { count = refl; error = back; lost = simp unbuff refl })
      | inr buff ↦ simp buff (elim (Bool-cases (stream.buff_clen == 0)) [
        | inl none_waits ↦
            simp (none_waits, r.res (take (mul16 one_size nmemb) buffer) s, neg)
              (record {
                count = refl;
                error = back;
                lost = simp buff (take-none _ _ (==→eq _ _ none_waits));
              })
        | inr some_wait ↦
            simp (some_wait, r.res (take stream.buff_clen stream.buff) s, neg)
              (record { count = refl; error = back; lost = simp buff refl })
      ])
    ])

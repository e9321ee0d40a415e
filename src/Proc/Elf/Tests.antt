-- ===== src/Proc/Elf/Tests.antt =====
-- elf.c on a file of ten bytes.
use pi_os.Common.{
  ◌+◌, get_or, ℕ, ℕ, ◌≡◌, refl, arith, false, some, none, [], ◌∷◌, replicate, Option,
}
use pi_os.Proc.Virtual.Bytewise.{user_store}
use pi_os.Proc.Elf.{
  Loading, load_to_page, load_segment, load_one, load_loop, load_pages, phys_page_to_load, seek_to,
  is_executable,
}
use pi_os.Proc.Virtual.{store_at}
use pi_os.Proc.Elf.Segment.{Stored, load_segment-Stored}
use pi_os.Proc.Elf.Gaps.{load_segment_unaligned, load_one-load_segment}

abbrev file : Loading
file = record {
  contents = 10 ∷ 11 ∷ 12 ∷ 13 ∷ 14 ∷ 15 ∷ 16 ∷ 17 ∷ 18 ∷ 19 ∷ [];
  offset = 1;
  mem = λ page addr. 0xEE;
  mem_pages = replicate 16 0xFF;
  prog_pages = replicate 16 0xFF;
  first_free_page = 0x40;
  first_free_prog_page = 0x11;
}

load_segment-Stored_example :
    (st' : Loading) × (load_segment 0x2000 9 false file ≡ some st') × Stored file 2 9 st'
load_segment-Stored_example =
    load_segment-Stored 2 9 file (omega arith) (omega arith) (omega arith) (omega arith)

load_segment_unaligned_example :
    (st' : Loading) × (load_segment 0x2004 9 false file ≡ some st')
    × (st'.offset ≡ 6)
    × (st'.mem ≡ user_store file.mem st'.mem_pages 0x2004 (11 ∷ 12 ∷ 13 ∷ 14 ∷ 15 ∷ []))
    × ((b : ℕ)
        → st'.mem (get_or st'.mem_pages 2 0) (9 + b) ≡ file.mem (get_or st'.mem_pages 2 0) (9 + b))
load_segment_unaligned_example =
    load_segment_unaligned 2 4 9 file (omega arith) (omega arith) (omega arith) (omega arith)
      (omega arith)

load_one-load_segment_example :
    load_one
      (record {
        p_type = 1;
        p_offset = 2;
        p_vaddr = 0x2000;
        p_filesz = 5;
        p_memsz = 0x20;
        p_flags = 6;
      })
      file
    ≡ load_segment 0x2000 5 false (seek_to file 2)
load_one-load_segment_example =
    load_one-load_segment 2 5 0x20 2 1 6 file (omega arith) (omega arith) (omega arith)
      (omega arith) (omega arith) refl

abbrev loaded : Option Loading → (page addr : ℕ) → ℕ
loaded none page addr = 0
loaded (some st) page addr = st.mem page addr

segment_at_page : loaded (load_segment 0x2000 5 false file) 0x40 4 ≡ 15
unfolding load_segment load_to_page load_loop load_pages phys_page_to_load store_at
segment_at_page = refl

too_short : is_executable (0x7F ∷ 69 ∷ 76 ∷ 70 ∷ []) ≡ false
too_short = refl

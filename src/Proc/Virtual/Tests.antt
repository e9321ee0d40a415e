-- ===== src/Proc/Virtual/Tests.antt =====
-- virtual.c copying across a page boundary.
use pi_os.Common.{true, false, ◌+◌, ◌≡◌, refl, arith, none, [], ◌∷◌, replicate}
use pi_os.Proc.{ProcState, Proc}
use pi_os.Proc.Virtual.{Memory, memcpy_from_userspace, memcpy_to_userspace, copy_from, bytes_at}
use pi_os.Proc.Virtual.Mapped.{map_copy, with_page_zero, map_copy-with_page_zero}
use pi_os.Proc.Virtual.Bytewise.{
  user_bytes, user_store, memcpy_from_userspace-user_bytes, memcpy_to_userspace-user_store,
}

abbrev state : ProcState
state = record {
  regs = [];
  pc = 0;
  arith_flags = 0;
  mem_pages = 0x40 ∷ 0x50 ∷ replicate 14 0xFF;
  prog_pages = [];
}

abbrev proc : Proc
proc = record {
  pid = 1;
  state = 3;
  kind = 1;
  proc_state = state;
  syscall_state = state;
  name = [];
  kernel_stack_page = 0;
  open_files = [];
  parent = 0;
  sema_blocked = none;
  signal_queue = [];
  signals_hold = 0;
  sighandler = 0;
  signal_sema = 0;
  load_brk = 0;
  alarm_ticks = 0;
}

abbrev mem : Memory
mem page addr = page + addr

across :
    copy_from 2 mem proc.syscall_state.mem_pages 0xFFE 4
    ≡ (0x40 + 0xFFE) ∷ (0x40 + 0xFFF) ∷ 0x50 ∷ 0x51 ∷ []
unfolding copy_from bytes_at
across = refl

memcpy_from_userspace-user_bytes_example :
    memcpy_from_userspace mem proc 0xFFE 4 ≡ user_bytes mem proc.syscall_state.mem_pages 0xFFE 4
memcpy_from_userspace-user_bytes_example =
    memcpy_from_userspace-user_bytes mem proc 0xFFE 4 (omega arith) (omega arith)

memcpy_to_userspace-user_store_example :
    memcpy_to_userspace mem proc 0xFFF (1 ∷ 2 ∷ [])
    ≡ user_store mem proc.syscall_state.mem_pages 0xFFF (1 ∷ 2 ∷ [])
memcpy_to_userspace-user_store_example =
    memcpy_to_userspace-user_store mem proc 0xFFF (1 ∷ 2 ∷ []) (omega arith) (omega arith)

map_copy-with_page_zero_example :
    map_copy true false proc.syscall_state.mem_pages 0xFFE 4 proc ≡ with_page_zero proc 0x50
map_copy-with_page_zero_example =
    map_copy-with_page_zero proc.syscall_state.mem_pages 0xFFE 4 proc (omega arith) (omega arith)
      (omega arith) (omega arith)

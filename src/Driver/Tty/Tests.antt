-- ===== src/Driver/Tty/Tests.antt =====
-- tty.c with a small line and ring.
use pi_os.Common.{
  ℕ, ◌≤◌, ◌≡◌, ◌≢◌, refl, arith, true, false, none, some, List, [], ◌∷◌, ◌++◌, replicate,
  length-replicate,
}
use pi_os.Libk.Ringbuff.{Ringbuff, ringbuff_length}
use pi_os.Libk.Ringbuff.Inv.{IsValid}
use pi_os.Fs.Requests.{Request}
use pi_os.Driver.Tty.Console.{Console, vga_text_height, tty_putc}
use pi_os.Driver.Tty.Screen as Screen
use pi_os.Driver.Tty.Screen.{GoesAbove, HasSmallArgs, tty_putc-IsValid}
use pi_os.Driver.Tty.Line.{Typed}
use pi_os.Driver.Tty.Edit.{line, edits}
use pi_os.Driver.Tty.Lines.{Ends, submit_chars, submit_chars-edits}
use pi_os.Driver.Tty.Requests.{Queues, tty_submit_req}
use pi_os.Driver.Tty.Serve.{Serves, then_serve, tty_submit_req-served}

-- The cursor is in the first row, and `ESC [ 2` has come.
abbrev cursor : Console
cursor = record {
  row = 0;
  col = 5;
  esc_stage = 1;
  esc_arg0 = 2;
  esc_arg1 = 0;
  in_escape_code = true;
  calls = [];
}

tty_putc-IsValid_example :
    (¬ GoesAbove cursor b'A' → Screen.IsValid (tty_putc cursor b'A'))
    × (GoesAbove cursor b'A' → vga_text_height ≤ (tty_putc cursor b'A').row)
tty_putc-IsValid_example =
    tty_putc-IsValid cursor b'A'
      (record { row_in = omega arith; col_in = omega arith; stage_in = omega arith })
      (record { small0 = omega arith; small1 = omega arith })

cursor-GoesAbove : GoesAbove cursor b'A'
cursor-GoesAbove = record {
  in_code = refl;
  past_start = omega arith;
  is_up = refl;
  too_far = omega arith;
}

-- The ring holds `h` and `i`.
abbrev ring : Ringbuff
ring = record { head = 2; tail = 0; size = 256; buff = b'h' ∷ b'i' ∷ replicate 254 0 }

ring-IsValid : IsValid ring
ring-IsValid = record {
  storage = omega (arith, length-replicate {A = ℕ} 254 0);
  small = omega arith;
  head_in = omega arith;
  tail_in = omega arith;
}

abbrev typing : Typed
typing = record {
  console = record cursor { in_escape_code = false };
  line_buff = replicate 128 0;
  line_buff_len = 0;
  read_rb = ring;
  read_data_signal = 1;
}

abbrev keys : List ℕ
keys = b'l' ∷ b'x' ∷ 8 ∷ b's' ∷ []

submit_chars-edits_example :
    Ends typing (edits (line typing) keys ++ (10 ∷ [])) (submit_chars typing (keys ++ (10 ∷ [])))
submit_chars-edits_example =
    submit_chars-edits keys typing
      (record {
        whole = length-replicate {A = ℕ} 128 0;
        len_in = omega arith;
        binary = omega arith;
        ring = ring-IsValid;
      })
      (omega arith) (omega arith)

edits-keys : edits [] keys ≡ b'l' ∷ b's' ∷ []
edits-keys = refl

abbrev request : Request
request = record {
  req_id = 1;
  file = record { inode = none; offset = 0; fcntl_flags = 0; driver_data = 0 };
  kind = 1;
  pid = 1;
  vbuff = replicate 4 0;
  size = 300;
  callback = none;
  fin_sema = some 0;
  res = 0;
  flags = 0;
}

abbrev queues : Queues
queues = record {
  typed = typing;
  read_queue_buff = 0;
  insert_lock = 1;
  list_read_sema = 0;
  req_read_list = [];
  list_write_sema = 0;
  req_write_list = [];
}

ring-ne_empty : ringbuff_length ring ≢ 0
unfolding ringbuff_length
ring-ne_empty = omega arith

tty_submit_req-served_example : Serves request queues (then_serve (tty_submit_req request queues))
tty_submit_req-served_example =
    tty_submit_req-served request queues
      (record { lock_free = refl; none_counted = refl; none_waits = refl; ring = ring-IsValid })
      refl (omega arith) (omega arith) ring-ne_empty refl

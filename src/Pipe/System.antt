-- ===== src/Pipe/System.antt =====
-- Tasks that share a pipe: every step of a call of theirs, in any order, with any number of readers
-- and writers (the two ends are inherited by `fork`). A record keeps what has passed through.
use nyan_os.Base.{ℕ, true, Option, none, List, [], ◌++◌, ◌≡◌}
use nyan_os.Ring.{rb_init}
use nyan_os.Pipe.{
  Pipe, WritePc, read_step, write_step, pipe_close_reader, pipe_close_writer, pipe_check_ready,
}

-- `sent` is what the writers have put in, `received` what the readers have taken out, in order.
pub record System : Type 0 where
  pub pipe : Pipe
  pub sent : List ℕ
  pub received : List ℕ

-- `sys_pipe` of src/arch/syscall.c opens both ends of an empty buffer.
unfoldable pub start : System
start = record {
  pipe = record {
    buf = rb_init 0;
    reader_pid = none;
    writer_pid = none;
    read_open = true;
    write_open = true;
  };
  sent = [];
  received = [];
}

-- A call of a reader has read `got`, and a call of a writer has still to write `rest`: any lists
-- here, since calls of many tasks are under way. What a step moves is the difference.
pub data Step (s : System) : System → Type 0 where
  read :
      (curr : Option ℕ) (size : ℕ) (got new : List ℕ)
      → (read_step curr size s.pipe got).got ≡ got ++ new
      → Step s
          (record s { pipe = (read_step curr size s.pipe got).pipe; received = s.received ++ new })
  write :
      (pc : WritePc) (curr : Option ℕ) (rest new : List ℕ)
      → rest ≡ new ++ (write_step pc curr s.pipe rest).rest
      → Step s (record s { pipe = (write_step pc curr s.pipe rest).pipe; sent = s.sent ++ new })
  close_reader : Step s (record s { pipe = (pipe_close_reader s.pipe).0 })
  close_writer : Step s (record s { pipe = (pipe_close_writer s.pipe).0 })
  check_ready : (curr : Option ℕ) → Step s (record s { pipe = (pipe_check_ready curr s.pipe).0 })

pub data Reach : System → Type 0 where
  here : Reach start
  next : {s t : System} → Reach s → Step s t → Reach t

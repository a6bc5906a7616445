-- ===== src/Pipe/Fifo.antt =====
-- What holds of a pipe at every moment, whatever tasks use it and however their steps interleave.
use mathlib.Core.List.{append_cancel_left, append_cancel_right}
use nyan_os.Base.{ℕ, ◌≡◌, sym, ap, ◌∙◌, true, Option, List, [], ◌++◌, append_assoc, arith, length}
use nyan_os.Ring.Inv.{rb_init-IsValid, rb_init-contents}
use nyan_os.Ring.Queue.{room}
use nyan_os.Pipe.{WritePc, read_step, write_step, pipe_close_reader, pipe_close_writer}
use nyan_os.Pipe.System.{
  System, start, Step, read, write, close_reader, close_writer, check_ready, Reach, here, next,
}
use nyan_os.Pipe.Moves.{
  bytes, is_some, IsSafe, read_step-Took, write_step-Gave, pipe_close_reader-IsSafe,
  pipe_close_writer-IsSafe, pipe_check_ready-IsSafe,
}

record Inv (s : System) : Type 0 where
  safe : IsSafe s.pipe
  order : s.sent ≡ s.received ++ bytes s.pipe

start-Inv : Inv start
unfolding start
start-Inv = record {
  safe = record {
    ring = rb_init-IsValid 0;
    reader_waits = λ h. ground arith;
    writer_waits = λ h. ground arith;
  };
  order = sym (rb_init-contents 0 0);
}

read-Inv :
    (s : System) (curr : Option ℕ) (size : ℕ) (got new : List ℕ)
    → Inv s
    → (read_step curr size s.pipe got).got ≡ got ++ new
    → Inv (record s { pipe = (read_step curr size s.pipe got).pipe; received = s.received ++ new })
read-Inv s curr size got new v e =
    let t = read_step-Took curr size s.pipe got v.safe in
    let same : t.new ≡ new = append_cancel_left got t.new new (sym t.reads ∙ e) in
    record {
      safe = t.safe;
      order =
          v.order
          ∙ ap (λ xs. s.received ++ xs) t.order
          ∙ sym (append_assoc s.received t.new _)
          ∙ ap (λ xs. s.received ++ xs ++ bytes (read_step curr size s.pipe got).pipe) same;
    }

write-Inv :
    (s : System) (pc : WritePc) (curr : Option ℕ) (rest new : List ℕ)
    → Inv s
    → rest ≡ new ++ (write_step pc curr s.pipe rest).rest
    → Inv (record s { pipe = (write_step pc curr s.pipe rest).pipe; sent = s.sent ++ new })
write-Inv s pc curr rest new v e =
    let g = write_step-Gave pc curr s.pipe rest v.safe in
    let same : g.new ≡ new = append_cancel_right g.new new _ (sym g.writes ∙ e) in
    record {
      safe = g.safe;
      order =
          ap (λ xs. xs ++ new) v.order
          ∙ append_assoc s.received (bytes s.pipe) new
          ∙ ap (λ xs. s.received ++ (bytes s.pipe ++ xs)) (sym same)
          ∙ ap (λ xs. s.received ++ xs) (sym g.order);
    }

Step-Inv : {s t : System} → Inv s → Step s t → Inv t
Step-Inv {s} v (read curr size got new e) = read-Inv s curr size got new v e
Step-Inv {s} v (write pc curr rest new e) = write-Inv s pc curr rest new v e
Step-Inv {s} v close_reader = record {
  safe = pipe_close_reader-IsSafe s.pipe v.safe;
  order = unfold pipe_close_reader in v.order;
}
Step-Inv {s} v close_writer = record {
  safe = pipe_close_writer-IsSafe s.pipe v.safe;
  order = unfold pipe_close_writer in v.order;
}
Step-Inv {s} v (check_ready curr) =
    let polled = pipe_check_ready-IsSafe curr s.pipe v.safe in
    record { safe = polled.1; order = v.order ∙ ap (λ xs. s.received ++ xs) (sym polled.0) }

Reach-Inv : {s : System} → Reach s → Inv s
Reach-Inv here = start-Inv
Reach-Inv (next r st) = Step-Inv (Reach-Inv r) st

-- However the steps of any tasks interleave, the bytes that the readers have received are the
-- first ones that the writers have sent, in order: none is lost, repeated or reordered, and the
-- others are in the pipe, oldest first.
pub received-append-bytes : (s : System) → Reach s → s.sent ≡ s.received ++ bytes s.pipe
received-append-bytes s r = (Reach-Inv r).order

-- At every moment a registered reader stands before an empty pipe with an open write end, and a
-- registered writer before a pipe with 255 bytes and an open read end.
pub registered_waits :
    (s : System)
    → Reach s
    → (is_some s.pipe.reader_pid ≡ true → (bytes s.pipe ≡ []) × (s.pipe.write_open ≡ true))
      × (is_some s.pipe.writer_pid ≡ true
          → (length (bytes s.pipe) ≡ room) × (s.pipe.read_open ≡ true))
registered_waits s r = ((Reach-Inv r).safe.reader_waits, (Reach-Inv r).safe.writer_waits)

-- ===== src/Pipe.antt =====
-- The pipe of src/fs/pipe.c: a ring buffer of bytes, the open flags of its two ends, and the task
-- that waits at each end. Interrupts are off from `cli` to `sti`, so what stands between the two is
-- one step; the calls of several tasks interleave between such steps (`Pipe.System`).
pub mod System
pub mod Moves
pub mod Fifo
mod Tests
use nyan_os.Base.{
  ℕ, zero, suc, ◌+◌, Bool, true, false, not, ◌&&◌, Option, none, some, List, [], ◌∷◌, ◌++◌, ltb,
  if◌then◌else◌, length, get_or,
}
use nyan_os.Ring.{RingBuf, rb_push, rb_pop, rb_is_full, rb_is_empty}

-- `struct Pipe`. The pid -1 is `none`; the bits READ_OPEN and WRITE_OPEN of `flags` are two fields.
pub record Pipe : Type 0 where
  pub buf : RingBuf ℕ
  pub reader_pid : Option ℕ
  pub writer_pid : Option ℕ
  pub read_open : Bool
  pub write_open : Bool

-- What a step does with the task that makes it: it goes on, it is blocked by `sched_block` and goes
-- on when it is woken, or the function returns.
pub data Fate : Type 0 where
  goes_on blocks returns : Fate

-- A step of `pipe_read`: the pipe, the bytes in `buf` so far, the pid given to `sched_wake_pid`.
pub record ReadStep : Type 0 where
  pub pipe : Pipe
  pub got : List ℕ
  pub woken : Option ℕ
  pub fate : Fate

-- `get_curr_task()` is the argument `curr`: with no task the read returns, else the task waits.
pub wait_for_input : Option ℕ → Pipe → List ℕ → ReadStep
wait_for_input none p got = record { pipe = p; got = got; woken = none; fate = returns }
wait_for_input (some pid) p got = record {
  pipe = record p { reader_pid = some pid };
  got = got;
  woken = none;
  fate = blocks;
}

pub no_input : Option ℕ → Pipe → List ℕ → ReadStep
unfolding wait_for_input
no_input curr p got =
    if p.write_open && not (ltb 0 (length got))
    then wait_for_input curr p got
    else record { pipe = p; got = got; woken = none; fate = returns }

pub take_input : Option ℕ → Pipe → List ℕ → Option ℕ × RingBuf ℕ → ReadStep
unfolding no_input
take_input curr p got (none, buf') = no_input curr p got
take_input curr p got (some c, buf') = record {
  pipe = record p { buf = buf'; writer_pid = none };
  got = got ++ c ∷ [];
  woken = p.writer_pid;
  fate = goes_on;
}

-- One round of the loop of `pipe_read`, for a call that asks for `size` bytes.
pub read_step : Option ℕ → ℕ → Pipe → List ℕ → ReadStep
unfolding take_input
read_step curr size p got =
    if ltb (length got) size
    then take_input curr p got (rb_pop 0 p.buf)
    else record { pipe = p; got = got; woken = none; fate = returns }

-- Where a call of `pipe_write` stands: before the test of the loop, or in the critical section that
-- follows the test of READ_OPEN.
pub data WritePc : Type 0 where
  at_test inside : WritePc

-- `rest` is what is left of `buf[write_count..size)`.
pub record WriteStep : Type 0 where
  pub pipe : Pipe
  pub rest : List ℕ
  pub pc : WritePc
  pub woken : Option ℕ
  pub fate : Fate

-- The tests `write_count < size` and `flags & READ_OPEN`, made with interrupts on.
pub write_test : Pipe → List ℕ → WriteStep
write_test p [] = record { pipe = p; rest = []; pc = at_test; woken = none; fate = returns }
write_test p (c ∷ cs) =
    if p.read_open
    then record { pipe = p; rest = c ∷ cs; pc = inside; woken = none; fate = goes_on }
    else record { pipe = p; rest = c ∷ cs; pc = at_test; woken = none; fate = returns }

pub wait_for_room : Option ℕ → Pipe → List ℕ → WriteStep
wait_for_room none p rest = record {
  pipe = p;
  rest = rest;
  pc = inside;
  woken = none;
  fate = returns;
}
wait_for_room (some pid) p rest = record {
  pipe = record p { writer_pid = some pid };
  rest = rest;
  pc = inside;
  woken = none;
  fate = blocks;
}

-- The critical section. A woken writer tests again whether the buffer is full.
pub write_inside : Option ℕ → Pipe → List ℕ → WriteStep
unfolding wait_for_room
write_inside curr p [] = record { pipe = p; rest = []; pc = at_test; woken = none; fate = returns }
write_inside curr p (c ∷ cs) =
    if rb_is_full p.buf
    then if p.read_open
      then wait_for_room curr p (c ∷ cs)
      else record { pipe = p; rest = c ∷ cs; pc = inside; woken = none; fate = returns }
    else record {
      pipe = record p { buf = rb_push p.buf c; reader_pid = none };
      rest = cs;
      pc = at_test;
      woken = p.reader_pid;
      fate = goes_on;
    }

pub write_step : WritePc → Option ℕ → Pipe → List ℕ → WriteStep
unfolding write_test write_inside
write_step at_test curr p rest = write_test p rest
write_step inside curr p rest = write_inside curr p rest

-- Both return the pipe and the pid that is woken.
pub pipe_close_reader : Pipe → Pipe × Option ℕ
pipe_close_reader p = (record p { read_open = false; writer_pid = none }, p.writer_pid)

pub pipe_close_writer : Pipe → Pipe × Option ℕ
pipe_close_writer p = (record p { write_open = false; reader_pid = none }, p.reader_pid)

-- With neither input nor a closed end, the current task (if any) becomes the waiting reader.
pub register_reader : Option ℕ → Pipe → Pipe
register_reader none p = p
register_reader (some pid) p = record p { reader_pid = some pid }

pub pipe_check_ready : Option ℕ → Pipe → Pipe × Bool
unfolding register_reader
pipe_check_ready curr p =
    if not (rb_is_empty p.buf)
    then (p, true)
    else if not p.write_open
    then (p, true)
    else (register_reader curr p, false)

-- ===== src/Pipe/Tests.antt =====
-- The pipe on concrete runs.
use nyan_os.Base.{◌≡◌, refl, true, some, [], ◌∷◌, ◌++◌, length}
use nyan_os.Ring.{rb_init, rb_push, rb_pop, rb_is_full}
use nyan_os.Ring.Queue.{room}
use nyan_os.Pipe.{inside, read_step, write_step, write_inside, take_input}
use nyan_os.Pipe.System.{System, start, read, write, Reach, here, next}
use nyan_os.Pipe.Moves.{bytes, is_some}
use nyan_os.Pipe.Fifo.{received-append-bytes, registered_waits}

-- Task 3, which reads, finds the pipe empty and waits.
abbrev waiting : System
waiting = record start { pipe = (read_step (some 3) 1 start.pipe []).pipe; received = [] ++ [] }

waiting-Reach : Reach waiting
unfolding read_step take_input start rb_pop rb_init
waiting-Reach = next here (read (some 3) 1 [] [] refl)

-- Task 4 puts the first of its two bytes in.
abbrev written : System
written = record waiting {
  pipe = (write_step inside (some 4) waiting.pipe (7 ∷ 8 ∷ [])).pipe;
  sent = waiting.sent ++ (7 ∷ []);
}

written-Reach : Reach written
unfolding write_step write_inside read_step start rb_pop rb_is_full rb_push rb_init
written-Reach = next waiting-Reach (write inside (some 4) (7 ∷ 8 ∷ []) (7 ∷ []) refl)

received-append-bytes_example : written.sent ≡ written.received ++ bytes written.pipe
received-append-bytes_example = received-append-bytes written written-Reach

registered_waits_example :
    (is_some waiting.pipe.reader_pid ≡ true
      → (bytes waiting.pipe ≡ []) × (waiting.pipe.write_open ≡ true))
    × (is_some waiting.pipe.writer_pid ≡ true
        → (length (bytes waiting.pipe) ≡ room) × (waiting.pipe.read_open ≡ true))
registered_waits_example = registered_waits waiting waiting-Reach

-- ===== src/Ring.antt =====
-- The ring buffers: `RingBuf` of src/utils/ring_buf.h (bytes of a pipe or of the keyboard) and
-- `EventBuf` of src/event/event.h (events of a task). The two have the same code over another
-- element type, so it is written once, over the type of the elements.
pub mod Inv
pub mod Queue
pub mod Refine
mod Tests
use nyan_os.Base.{
  ℕ, ◌+◌, ◌%◌, Bool, Option, none, some, List, ◌==◌, if◌then◌else◌, set, get_or, replicate, [], ◌∷◌,
}
use Queue.{Op, put, get}

abbrev pub ring_buf_size : ℕ
ring_buf_size = 0x100

-- `head` and `tail` are `uint8_t`.
pub record RingBuf (A : Type 0) : Type 0 where
  pub buf : List A
  pub head : ℕ
  pub tail : ℕ

abbrev pub next_index : ℕ → ℕ
next_index i = (i + 1) % ring_buf_size

module _ {A : Type 0} where
  -- The argument is the element that every slot is set to.
  unfoldable pub rb_init : A → RingBuf A
  rb_init z = record { buf = replicate ring_buf_size z; head = 0; tail = 0 }

  -- A push onto a full ring drops the oldest element.
  unfoldable pub rb_push : RingBuf A → A → RingBuf A
  rb_push r c =
      let head' = next_index r.head in
      let tail' = if head' == r.tail then next_index r.tail else r.tail in
      record { buf = set r.buf r.head c; head = head'; tail = tail' }

  -- The result is what goes out through `c`; `none` is the 0 of an empty ring. The argument stands
  -- for what a slot out of range holds; no index is out of range (`Ring.Inv`).
  unfoldable pub rb_pop : A → RingBuf A → Option A × RingBuf A
  rb_pop d r =
      if r.head == r.tail
      then (none, r)
      else (some (get_or r.buf r.tail d), record r { tail = next_index r.tail })

  unfoldable pub rb_is_full : RingBuf A → Bool
  rb_is_full r = next_index r.head == r.tail

  unfoldable pub rb_is_empty : RingBuf A → Bool
  rb_is_empty r = r.head == r.tail

  -- What the clients of a buffer do with it, in any order: what the pops return, and what is left.
  pub run : A → RingBuf A → List (Op A) → List (Option A) × RingBuf A
  run d r [] = ([], r)
  run d r (put c ∷ ops) = run d (rb_push r c) ops
  run d r (get ∷ ops) =
      let (out, r') = rb_pop d r in let (outs, rest) = run d r' ops in (out ∷ outs, rest)

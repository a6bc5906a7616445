-- ===== src/Mq/System.antt =====
-- Tasks that share a message queue: any task sends or receives at any moment. A record keeps what has
-- passed through.
use nyan_os.Base.{ℕ, Bool, Option, none, some, List, [], ◌∷◌, ◌++◌}
use nyan_os.Mq.{Queue, new_queue, SendResult, send_blocks, sent, failed, mq_send, mq_receive}

-- `posted` is what calls of `mq_send` that returned 0 were given, `received` what calls of
-- `mq_receive` returned, and `asked` the `len` that they were given, all in order.
pub record System : Type 0 where
  pub queue : Queue
  pub posted : List (List ℕ)
  pub asked : List ℕ
  pub received : List (List ℕ)

unfoldable pub start : ℕ → List ℕ → System
start addr name = record { queue = new_queue addr name; posted = []; asked = []; received = [] }

abbrev pub with_posted : SendResult → List ℕ → System → System
with_posted sent data_bytes s = record s { posted = s.posted ++ data_bytes ∷ [] }
with_posted send_blocks data_bytes s = s
with_posted failed data_bytes s = s

abbrev pub with_received : Option (List ℕ) → ℕ → System → System
with_received none len s = s
with_received (some bytes) len s = record s {
  asked = s.asked ++ len ∷ [];
  received = s.received ++ bytes ∷ [];
}

pub data Step (s : System) : System → Type 0 where
  send :
      (curr : ℕ) (cell room : Bool) (data_bytes : List ℕ)
      → Step s (
          with_posted
            (mq_send curr cell room s.queue data_bytes).result
            data_bytes
            (record s { queue = (mq_send curr cell room s.queue data_bytes).queue }))
  receive :
      (curr len : ℕ)
      → Step s (
          with_received
            (mq_receive curr len s.queue).got
            len
            (record s { queue = (mq_receive curr len s.queue).queue }))

pub data Reach (addr : ℕ) (name : List ℕ) : System → Type 0 where
  here : Reach addr name (start addr name)
  next : {s t : System} → Reach addr name s → Step s t → Reach addr name t

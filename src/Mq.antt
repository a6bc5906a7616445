-- ===== src/Mq.antt =====
-- The message queues of src/ipc/mq.c. A queue is named by a string (here its bytes, without the NUL at
-- its end) and known to tasks by its address. Its list of messages, from `head` to `tail`, is a list
-- of their contents. What `kmalloc` gives is an argument. A call of `mq_send` or `mq_receive` runs
-- from its start, or from where `sched_block` let it go on, up to the next `sched_block` or to its
-- return; that is one step here. The source has no lock, and a timer interrupt that falls inside a
-- step, and lets another task run there, is not modelled.
pub mod Names
pub mod System
pub mod Fifo
mod Tests
use nyan_os.Base.{
  ℕ, zero, suc, ◌+◌, ◌-◌, Bool, true, false, ◌&&◌, Option, none, some, List, [], ◌∷◌, ◌++◌, leb,
  ◌==◌, if◌then◌else◌, take,
}

-- `struct MessageQueue`. The lists of waiting tasks hold pids.
pub record Queue : Type 0 where
  pub addr : ℕ
  pub name : List ℕ
  pub msgs : List (List ℕ)
  pub msg_count : ℕ
  pub max_msgs : ℕ
  pub waiting_receivers : List ℕ
  pub waiting_senders : List ℕ

-- `strcmp` gives 0.
unfoldable pub same_name : List ℕ → List ℕ → Bool
same_name [] [] = true
same_name [] (b ∷ bs) = false
same_name (a ∷ more) [] = false
same_name (a ∷ more) (b ∷ bs) = a == b && same_name more bs

pub find_queue : List ℕ → List Queue → Option Queue
unfolding same_name
find_queue name [] = none
find_queue name (q ∷ qs) = if same_name name q.name then some q else find_queue name qs

-- The name is cut to 31 bytes.
pub new_queue : ℕ → List ℕ → Queue
new_queue addr name = record {
  addr = addr;
  name = take 31 name;
  msgs = [];
  msg_count = 0;
  max_msgs = 10;
  waiting_receivers = [];
  waiting_senders = [];
}

pub make_queue : Option ℕ → List ℕ → List Queue → Option ℕ × List Queue
unfolding new_queue
make_queue none name table = (none, table)
make_queue (some addr) name table = (some addr, new_queue addr name ∷ table)

-- With what the search has found.
pub open_found : Option Queue → Option ℕ → List ℕ → List Queue → Option ℕ × List Queue
unfolding make_queue
open_found (some q) cell name table = (some q.addr, table)
open_found none cell name table = make_queue cell name table

-- The result is the address of the queue, `none` for NULL; `cell` is what `kmalloc` gives.
pub mq_open : Option ℕ → List ℕ → List Queue → Option ℕ × List Queue
unfolding find_queue open_found
mq_open cell name table = open_found (find_queue name table) cell name table

-- The Boolean is false for the result -1.
pub mq_unlink : List ℕ → List Queue → Bool × List Queue
unfolding same_name
mq_unlink name [] = (false, [])
mq_unlink name (q ∷ qs) =
    let (found, rest) = mq_unlink name qs in
    if same_name name q.name then (true, qs) else (found, q ∷ rest)

-- The first task of a list of waiting ones becomes ready.
pub first_waiting : List ℕ → Option ℕ
first_waiting [] = none
first_waiting (t ∷ ts) = some t

pub other_waiting : List ℕ → List ℕ
other_waiting [] = []
other_waiting (t ∷ ts) = ts

pub data SendResult : Type 0 where
  send_blocks sent failed : SendResult

pub record SendStep : Type 0 where
  pub queue : Queue
  pub woken : Option ℕ
  pub result : SendResult

-- `cell` and `room` say whether `kmalloc` gives the node and the copy of the data.
pub mq_send : ℕ → Bool → Bool → Queue → List ℕ → SendStep
unfolding first_waiting other_waiting
mq_send curr cell room q data_bytes =
    if leb q.max_msgs q.msg_count
    then record {
      queue = record q { waiting_senders = curr ∷ q.waiting_senders };
      woken = none;
      result = send_blocks;
    }
    else if cell && room
    then record {
      queue = record q {
        msgs = q.msgs ++ data_bytes ∷ [];
        msg_count = q.msg_count + 1;
        waiting_receivers = other_waiting q.waiting_receivers;
      };
      woken = first_waiting q.waiting_receivers;
      result = sent;
    }
    else record { queue = q; woken = none; result = failed }

-- `got` is what is written to `buf`, whose length is returned; `none` where the task is blocked.
pub record ReceiveStep : Type 0 where
  pub queue : Queue
  pub woken : Option ℕ
  pub got : Option (List ℕ)

pub receive_from : ℕ → ℕ → Queue → List (List ℕ) → ReceiveStep
unfolding first_waiting other_waiting
receive_from curr len q [] = record {
  queue = record q { waiting_receivers = curr ∷ q.waiting_receivers };
  woken = none;
  got = none;
}
receive_from curr len q (m ∷ ms) = record {
  queue = record q {
    msgs = ms;
    msg_count = q.msg_count - 1;
    waiting_senders = other_waiting q.waiting_senders;
  };
  woken = first_waiting q.waiting_senders;
  got = some (take len m);
}

pub mq_receive : ℕ → ℕ → Queue → ReceiveStep
unfolding receive_from
mq_receive curr len q = receive_from curr len q q.msgs

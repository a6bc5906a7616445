-- ===== src/Mq/Tests.antt =====
-- Message queues on concrete runs.
use nyan_os.Base.{
  ◌↔◌, ℕ, ◌≡◌, ◌≢◌, refl, arith, true, false, none, some, List, [], ◌∷◌, length, drop,
  if◌then◌else◌,
}
use nyan_os.Mq.{Queue, same_name, find_queue, new_queue, mq_open, mq_unlink, mq_send, mq_receive}
use nyan_os.Mq.System.{System, start, with_posted, with_received, send, receive, Reach, here, next}
use nyan_os.Mq.Names.{Distinct, mq_unlink-find_queue}
use nyan_os.Mq.Fifo.{cut, received-cut}

abbrev name_a : List ℕ
name_a = 97 ∷ []

abbrev name_b : List ℕ
name_b = 98 ∷ []

abbrev two_queues : List Queue
two_queues =
    record {
      addr = 0x1000;
      name = 97 ∷ [];
      msgs = [];
      msg_count = 0;
      max_msgs = 10;
      waiting_receivers = [];
      waiting_senders = [];
    }
    ∷ record {
      addr = 0x2000;
      name = 99 ∷ [];
      msgs = (1 ∷ 2 ∷ []) ∷ [];
      msg_count = 1;
      max_msgs = 10;
      waiting_receivers = [];
      waiting_senders = 5 ∷ [];
    }
    ∷ []

two_queues-Distinct : Distinct two_queues
unfolding find_queue same_name
two_queues-Distinct = (refl, (refl, tt))

opens_b : (mq_open (some 0x3000) name_b two_queues).0 ≢ none
unfolding mq_open find_queue same_name
opens_b e = ground arith

mq_unlink-find_queue_example :
    (((mq_unlink name_a two_queues).0 ≡ false) ↔ (find_queue name_a two_queues ≡ none))
    × ((other : List ℕ)
        → find_queue other (mq_unlink name_a two_queues).1
          ≡ (if same_name other name_a then none else find_queue other two_queues))
mq_unlink-find_queue_example = mq_unlink-find_queue name_a two_queues two_queues-Distinct

-- Task 3 sends three bytes, and task 4 takes two of them.
abbrev one_message : System
one_message =
    with_posted (mq_send 3 true true (start 0x3000 name_b).queue (7 ∷ 8 ∷ 9 ∷ [])).result
      (7 ∷ 8 ∷ 9 ∷ [])
      (record (start 0x3000 name_b) {
        queue = (mq_send 3 true true (start 0x3000 name_b).queue (7 ∷ 8 ∷ 9 ∷ [])).queue;
      })

one_message-Reach : Reach 0x3000 name_b one_message
one_message-Reach = next here (send 3 true true (7 ∷ 8 ∷ 9 ∷ []))

abbrev taken : System
taken =
    with_received (mq_receive 4 2 one_message.queue).got 2
      (record one_message { queue = (mq_receive 4 2 one_message.queue).queue })

taken-Reach : Reach 0x3000 name_b taken
taken-Reach = next one_message-Reach (receive 4 2)

taken-received : taken.received ≡ (7 ∷ 8 ∷ []) ∷ []
unfolding mq_send mq_receive start new_queue
taken-received = refl

received-cut_example :
    (taken.received ≡ cut taken.asked taken.posted)
    × (drop (length taken.asked) taken.posted ≡ taken.queue.msgs)
received-cut_example = received-cut 0x3000 name_b taken taken-Reach

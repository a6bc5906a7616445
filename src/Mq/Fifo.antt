-- ===== src/Mq/Fifo.antt =====
-- What holds of a message queue at every moment, whatever tasks use it.
use nyan_os.Base.{
  ℕ, zero, suc, ◌≡◌, ◌≤◌, refl, sym, ap, ◌∙◌, Bool, ◌&&◌, List, [], ◌∷◌, ◌++◌, append_assoc, arith,
  length, length-append, take, drop, leb, if_ind,
}
use nyan_os.Mq.{new_queue, SendStep, mq_send, ReceiveStep, receive_from, mq_receive}
use nyan_os.Mq.System.{System, start, with_posted, with_received, send, receive, Reach, here, next}

-- Each receive gets its own message, cut to the length it asked for.
unfoldable pub cut : List ℕ → List (List ℕ) → List (List ℕ)
cut [] ms = []
cut (n ∷ ns) [] = []
cut (n ∷ ns) (m ∷ ms) = take n m ∷ cut ns ms

record Inv (s : System) : Type 0 where
  taken : List (List ℕ)
  order : s.posted ≡ taken ++ s.queue.msgs
  each : length s.asked ≡ length taken
  cuts : s.received ≡ cut s.asked taken
  counts : s.queue.msg_count ≡ length s.queue.msgs
  bound : s.queue.msg_count ≤ 10
  most : s.queue.max_msgs ≡ 10

cut-snoc :
    (ns : List ℕ) (ms : List (List ℕ)) (n : ℕ) (m : List ℕ)
    → length ns ≡ length ms
    → cut (ns ++ n ∷ []) (ms ++ m ∷ []) ≡ cut ns ms ++ take n m ∷ []
unfolding cut
cut-snoc [] [] n m e = refl
cut-snoc [] (x ∷ ms) n m e = absurd (omega arith)
cut-snoc (k ∷ ns) [] n m e = absurd (omega arith)
cut-snoc (k ∷ ns) (x ∷ ms) n m e = ap (λ xs. take k x ∷ xs) (cut-snoc ns ms n m (omega arith))

cut-append :
    (ns : List ℕ) (ms more : List (List ℕ))
    → length ns ≡ length ms
    → cut ns (ms ++ more) ≡ cut ns ms
unfolding cut
cut-append [] ms more e = refl
cut-append (k ∷ ns) [] more e = absurd (omega arith)
cut-append (k ∷ ns) (x ∷ ms) more e = ap (λ xs. take k x ∷ xs) (cut-append ns ms more (omega arith))

drop-append : {A : Type 0} (n : ℕ) (xs ys : List A) → n ≡ length xs → drop n (xs ++ ys) ≡ ys
drop-append zero [] ys e = refl
drop-append zero (x ∷ xs) ys e = absurd (omega arith)
drop-append (suc n) [] ys e = absurd (omega arith)
drop-append (suc n) (x ∷ xs) ys e = drop-append n xs ys (omega arith)

start-Inv : (addr : ℕ) (name : List ℕ) → Inv (start addr name)
unfolding start new_queue cut
start-Inv addr name = record {
  taken = [];
  order = refl;
  each = refl;
  cuts = refl;
  counts = refl;
  bound = omega arith;
  most = refl;
}

abbrev after_send : System → List ℕ → SendStep → System
after_send s data_bytes st = with_posted st.result data_bytes (record s { queue = st.queue })

send-Inv :
    (s : System) (curr : ℕ) (cell room : Bool) (data_bytes : List ℕ)
    → Inv s
    → Inv (after_send s data_bytes (mq_send curr cell room s.queue data_bytes))
unfolding mq_send
send-Inv s curr cell room data_bytes v =
    if_ind (λ st. Inv (after_send s data_bytes st)) (leb s.queue.max_msgs s.queue.msg_count) _ _
      (λ full. record {
        taken = v.taken;
        order = v.order;
        each = v.each;
        cuts = v.cuts;
        counts = v.counts;
        bound = v.bound;
        most = v.most;
      })
      (λ space.
        if_ind (λ st. Inv (after_send s data_bytes st)) (cell && room) _ _
          (λ memory. record {
            taken = v.taken;
            order = ap (λ xs. xs ++ data_bytes ∷ []) v.order ∙ append_assoc v.taken s.queue.msgs _;
            each = v.each;
            cuts = v.cuts;
            counts = omega (arith, v.counts, length-append s.queue.msgs (data_bytes ∷ []));
            bound = ground (arith, v.most);
            most = v.most;
          })
          (λ no_memory. v))

abbrev after_receive : System → ℕ → ReceiveStep → System
after_receive s len st = with_received st.got len (record s { queue = st.queue })

receive-Inv :
    (s : System) (curr len : ℕ) (ms : List (List ℕ))
    → s.queue.msgs ≡ ms
    → Inv s
    → Inv (after_receive s len (receive_from curr len s.queue ms))
unfolding receive_from
receive-Inv s curr len [] e v = record {
  taken = v.taken;
  order = v.order;
  each = v.each;
  cuts = v.cuts;
  counts = v.counts;
  bound = v.bound;
  most = v.most;
}
receive-Inv s curr len (m ∷ ms) e v = record {
  taken = v.taken ++ m ∷ [];
  order = v.order ∙ ap (λ xs. v.taken ++ xs) e ∙ sym (append_assoc v.taken (m ∷ []) ms);
  each = omega (arith, v.each, length-append v.taken (m ∷ []), length-append s.asked (len ∷ []));
  cuts = ap (λ xs. xs ++ take len m ∷ []) v.cuts ∙ sym (cut-snoc s.asked v.taken len m v.each);
  counts = omega (arith, v.counts, ap length e);
  bound = omega (arith, v.bound);
  most = v.most;
}

Reach-Inv : (addr : ℕ) (name : List ℕ) {s : System} → Reach addr name s → Inv s
unfolding mq_receive
Reach-Inv addr name here = start-Inv addr name
Reach-Inv addr name (next {s} r (send curr cell room data_bytes)) =
    send-Inv s curr cell room data_bytes (Reach-Inv addr name r)
Reach-Inv addr name (next {s} r (receive curr len)) =
    receive-Inv s curr len s.queue.msgs refl (Reach-Inv addr name r)

-- Whatever tasks send and receive, in any order of steps, the n-th message received is the n-th one that
-- was sent, cut to the length that the receiver asked for, and the messages in the queue are the
-- others, in order.
pub received-cut :
    (addr : ℕ) (name : List ℕ) (s : System)
    → Reach addr name s
    → (s.received ≡ cut s.asked s.posted) × (drop (length s.asked) s.posted ≡ s.queue.msgs)
received-cut addr name s r =
    let v = Reach-Inv addr name r in
    (
      v.cuts
          ∙ sym (cut-append s.asked v.taken s.queue.msgs v.each)
          ∙ ap (cut s.asked) (sym v.order),
      ap (drop (length s.asked)) v.order ∙ drop-append (length s.asked) v.taken s.queue.msgs v.each,
    )

-- After every sequence of such steps `msg_count` is the number of messages in the queue, and at most 10.
pub msg_count-length :
    (addr : ℕ) (name : List ℕ) (s : System)
    → Reach addr name s
    → (s.queue.msg_count ≡ length s.queue.msgs) × (s.queue.msg_count ≤ 10)
msg_count-length addr name s r = let v = Reach-Inv addr name r in (v.counts, v.bound)

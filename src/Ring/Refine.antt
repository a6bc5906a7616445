-- ===== src/Ring/Refine.antt =====
-- A valid ring buffer behaves as the queue of its contents.
use nyan_os.Base.{
  ℕ, zero, suc, ◌+◌, ◌-◌, ◌%◌, ◌<◌, ◌≡◌, ◌≢◌, refl, ap, ap₂, List, [], ◌∷◌, ◌++◌, arith, length,
  set, drop, get_or-set_self, get_or-set_ne, Bool-cases, inl, inr, true, ◌==◌, leb,
}
use nyan_os.Ring.{RingBuf, ring_buf_size, next_index, rb_push, rb_pop, rb_is_full, rb_is_empty, run}
use nyan_os.Ring.Inv.{
  IsValid, rb_push-IsValid, rb_pop-IsValid, stored, window, length-window, window-pos, contents,
}
use nyan_os.Ring.Queue.{room, enqueue, dequeue, Op, put, get, run as run_queue}

-- Writing just past a window extends it by the element written.
window-set :
    {A : Type 0} (d : A) (buf : List A) (c : A) (n i j : ℕ)
    → length buf ≡ ring_buf_size
    → i < ring_buf_size
    → n < ring_buf_size
    → j ≡ (i + n) % ring_buf_size
    → window d (set buf j c) i (suc n) ≡ window d buf i n ++ c ∷ []
window-set d buf c zero i j full hi hn e =
    let here : j ≡ i = omega arith in rw (here, get_or-set_self buf i c d (omega arith))
window-set d buf c (suc n) i j full hi hn e =
    ap₂ ◌∷◌ (get_or-set_ne buf j i c d (omega arith))
      (window-set d buf c n (next_index i) j full (omega arith) (omega arith) (omega arith))

module _ {A : Type 0} (d : A) where
  length-contents : (r : RingBuf A) → length (contents d r) ≡ stored r
  length-contents r = length-window d r.buf r.tail (stored r)

  -- The contents after the write of a push, before the tail moves.
  pushed : (r : RingBuf A) (c : A) → List A
  pushed r c = window d (set r.buf r.head c) r.tail (suc (stored r))

  pushed_lem : (r : RingBuf A) (c : A) → IsValid r → pushed r c ≡ contents d r ++ c ∷ []
  unfolding pushed
  pushed_lem r c v =
      window-set d r.buf c (stored r) r.tail r.head v.slots v.tail_in (omega arith) (omega arith)

  drop-append : (xs : List A) (c : A) → 0 < length xs → drop 1 (xs ++ c ∷ []) ≡ drop 1 xs ++ c ∷ []
  drop-append [] c h = absurd (omega arith)
  drop-append (x ∷ xs) c h = refl

  -- What the contents are after a push, by whether the ring was full.
  contents-push_room :
      (r : RingBuf A) (c : A)
      → IsValid r
      → next_index r.head ≢ r.tail
      → contents d (rb_push r c) ≡ pushed r c
  unfolding rb_push pushed
  contents-push_room r c v ne =
      ground (arith, ap (window d (set r.buf r.head c) r.tail) (grown r v ne))
    where
      grown :
          (r : RingBuf A)
          → IsValid r
          → next_index r.head ≢ r.tail
          → (next_index r.head + ring_buf_size - r.tail) % ring_buf_size ≡ suc (stored r)
      grown r v ne = omega arith

  contents-push_full :
      (r : RingBuf A) (c : A)
      → IsValid r
      → next_index r.head ≡ r.tail
      → contents d (rb_push r c) ≡ drop 1 (pushed r c)
  unfolding rb_push pushed
  contents-push_full r c v e =
      ground (arith, ap (window d (set r.buf r.head c) (next_index r.tail)) (kept r v e))
    where
      kept :
          (r : RingBuf A)
          → IsValid r
          → next_index r.head ≡ r.tail
          → (next_index r.head + ring_buf_size - next_index r.tail) % ring_buf_size ≡ stored r
      kept r v e = omega arith

  -- A push onto a valid ring appends the element, after dropping the oldest one if 255 are stored.
  pub rb_push-enqueue :
      (r : RingBuf A) (c : A) → IsValid r → contents d (rb_push r c) ≡ enqueue (contents d r) c
  unfolding enqueue
  rb_push-enqueue r c v = elim (Bool-cases (next_index r.head == r.tail)) [
    | inl full ↦ ground (
      arith,
      contents-push_full r c v,
      pushed_lem r c v,
      length-contents r,
      drop-append (contents d r) c,
    )
    | inr free ↦ ground (arith, contents-push_room r c v, pushed_lem r c v, length-contents r)
  ]

  -- A pop from a valid ring takes the oldest element and leaves the others in order; it returns
  -- nothing, and changes nothing, exactly when none is stored.
  pub rb_pop-dequeue :
      (r : RingBuf A)
      → IsValid r
      → ((rb_pop d r).0, contents d (rb_pop d r).1) ≡ dequeue (contents d r)
  unfolding rb_pop dequeue
  rb_pop-dequeue r v = ground (arith, window-pos d r.buf r.tail (stored r))

  -- The two tests tell whether 255 elements, or none, are stored.
  pub rb_tests-length :
      (r : RingBuf A)
      → IsValid r
      → (rb_is_full r ≡ leb room (length (contents d r)))
        × (rb_is_empty r ≡ (length (contents d r) == 0))
  unfolding rb_is_full rb_is_empty
  rb_tests-length r v = (ground (arith, length-contents r), ground (arith, length-contents r))

  pub rb_is_full-length :
      (r : RingBuf A) → IsValid r → rb_is_full r ≡ true → length (contents d r) ≡ room
  unfolding rb_is_full
  rb_is_full-length r v full = ground (arith, length-contents r)

  pub rb_is_empty-nil : (r : RingBuf A) → IsValid r → rb_is_empty r ≡ true → contents d r ≡ []
  unfolding rb_is_empty
  rb_is_empty-nil r v empty = let none_stored : stored r ≡ 0 = ground arith in rw none_stored

  -- No sequence of pushes and pops tells a valid ring buffer from the queue of its contents, and
  -- it stays valid throughout.
  pub run_refines :
      (ops : List (Op A)) (r : RingBuf A)
      → IsValid r
      → ((run d r ops).0 ≡ (run_queue (contents d r) ops).0)
        × (contents d (run d r ops).1 ≡ (run_queue (contents d r) ops).1)
        × IsValid (run d r ops).1
  unfolding run run_queue
  run_refines [] r v = (refl, refl, v)
  run_refines (put c ∷ ops) r v =
      rw (run_queue, ← rb_push-enqueue r c v)
        (run_refines ops (rb_push r c) (rb_push-IsValid r c v))
  run_refines (get ∷ ops) r v =
      let rest = run_refines ops (rb_pop d r).1 (rb_pop-IsValid d r v) in
      rw (run_queue, ← rb_pop-dequeue r v) (ap (λ os. (rb_pop d r).0 ∷ os) rest.0, rest.1, rest.2)

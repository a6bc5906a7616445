-- ===== src/Ring/Inv.antt =====
-- The representation invariant of a ring buffer, and what it holds.
use nyan_os.Base.{
  ℕ, zero, suc, ◌+◌, ◌-◌, ◌%◌, ◌<◌, ◌≡◌, refl, ap, List, [], ◌∷◌, arith, length, get_or, length-set,
  length-replicate,
}
use nyan_os.Ring.{RingBuf, ring_buf_size, next_index, rb_init, rb_push, rb_pop}

pub record IsValid {A : Type 0} (r : RingBuf A) : Type 0 where
  pub slots : length r.buf ≡ ring_buf_size
  pub head_in : r.head < ring_buf_size
  pub tail_in : r.tail < ring_buf_size

-- How many elements are stored.
abbrev pub stored : {A : Type 0} → RingBuf A → ℕ
stored r = (r.head + ring_buf_size - r.tail) % ring_buf_size

module _ {A : Type 0} (d : A) (buf : List A) where
  -- The `n` elements from slot `i` on, going round at the end.
  abbrev pub window : ℕ → ℕ → List A
  window i zero = []
  window i (suc n) = get_or buf i d ∷ window (next_index i) n

  pub length-window : (i n : ℕ) → length (window i n) ≡ n
  length-window i zero = refl
  length-window i (suc n) = ap suc (length-window (next_index i) n)

  pub window-pos : (i n : ℕ) → 0 < n → window i n ≡ get_or buf i d ∷ window (next_index i) (n - 1)
  window-pos i zero h = absurd (omega arith)
  window-pos i (suc n) h = ap (λ k. window i (suc k)) (omega arith)

-- The stored elements, oldest first.
abbrev pub contents : {A : Type 0} → A → RingBuf A → List A
contents d r = window d r.buf r.tail (stored r)

module _ {A : Type 0} where
  pub rb_init-IsValid : (z : A) → IsValid (rb_init z)
  unfolding rb_init
  rb_init-IsValid z = record {
    slots = length-replicate ring_buf_size z;
    head_in = omega arith;
    tail_in = omega arith;
  }

  pub rb_init-contents : (d z : A) → contents d (rb_init z) ≡ []
  unfolding rb_init
  rb_init-contents d z = refl

  pub rb_push-IsValid : (r : RingBuf A) (c : A) → IsValid r → IsValid (rb_push r c)
  unfolding rb_push
  rb_push-IsValid r c v = ground (arith, length-set r.buf r.head c)

  pub rb_pop-IsValid : (d : A) (r : RingBuf A) → IsValid r → IsValid (rb_pop d r).1
  unfolding rb_pop
  rb_pop-IsValid d r v = ground arith

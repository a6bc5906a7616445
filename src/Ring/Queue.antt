-- ===== src/Ring/Queue.antt =====
-- What a ring buffer promises: a queue of at most 255 elements, oldest first, that drops its
-- oldest element to make room for a new one.
use nyan_os.Base.{ℕ, List, [], ◌∷◌, ◌++◌, Option, none, some, ltb, if◌then◌else◌, length, drop}

abbrev pub room : ℕ
room = 255

module _ {A : Type 0} where
  unfoldable pub enqueue : List A → A → List A
  enqueue q c = (if ltb (length q) room then q else drop 1 q) ++ c ∷ []

  -- What a removal returns, and what it leaves.
  unfoldable pub dequeue : List A → Option A × List A
  dequeue [] = (none, [])
  dequeue (c ∷ q) = (some c, q)

-- What the clients of a buffer do with it, in any order.
pub data Op (A : Type 0) : Type 0 where
  put : A → Op A
  get : Op A

module _ {A : Type 0} where
  -- The answers of the `get`s in order, and what is left.
  unfoldable pub run : List A → List (Op A) → List (Option A) × List A
  run q [] = ([], q)
  run q (put c ∷ ops) = run (enqueue q c) ops
  run q (get ∷ ops) =
      let (out, q') = dequeue q in let (outs, rest) = run q' ops in (out ∷ outs, rest)

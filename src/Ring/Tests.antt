-- ===== src/Ring/Tests.antt =====
-- Runs of the ring buffer, and its theorems at concrete rings.
use nyan_os.Base.{ℕ, ◌≡◌, refl, List, [], ◌∷◌, none, some, arith}
use nyan_os.Base.{replicate, set}
use nyan_os.Ring.{RingBuf, rb_push, rb_pop, run}
use nyan_os.Ring.Inv.{IsValid, contents}
use nyan_os.Ring.Queue.{Op, put, get, run as run_queue}
use nyan_os.Ring.Refine.{run_refines}

-- Two bytes round the end of the storage.
abbrev wrapped : RingBuf ℕ
wrapped = record { buf = set (set (replicate 256 0) 255 8) 0 9; head = 1; tail = 255 }

wrapped-IsValid : IsValid wrapped
wrapped-IsValid = record { slots = refl; head_in = omega arith; tail_in = omega arith }

contents-wrapped : contents 0 wrapped ≡ 8 ∷ 9 ∷ []
contents-wrapped = refl

abbrev script : List (Op ℕ)
script = put 1 ∷ get ∷ get ∷ put 2 ∷ get ∷ get ∷ get ∷ []

run-wrapped : (run 0 wrapped script).0 ≡ some 8 ∷ some 9 ∷ some 1 ∷ some 2 ∷ none ∷ []
unfolding run rb_push rb_pop
run-wrapped = refl

run_refines_example :
    ((run 0 wrapped script).0 ≡ (run_queue (contents 0 wrapped) script).0)
    × (contents 0 (run 0 wrapped script).1 ≡ (run_queue (contents 0 wrapped) script).1)
    × IsValid (run 0 wrapped script).1
run_refines_example = run_refines 0 script wrapped wrapped-IsValid

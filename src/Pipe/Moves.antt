-- ===== src/Pipe/Moves.antt =====
-- What one step of a pipe call does to the bytes in the pipe and to the waiting tasks.
use nyan_os.Base.{
  ℕ, ◌≡◌, refl, sym, ◌∙◌, Bool, true, false, Option, none, some, List, [], ◌∷◌, ◌++◌, append-nil,
  arith, length, Bool-cases, if_ind, not-false, inl, inr, ltb, leb, not, ◌&&◌,
}
use nyan_os.Ring.{RingBuf, rb_push, rb_pop, rb_is_full, rb_is_empty}
use nyan_os.Ring.Inv.{IsValid, contents, rb_push-IsValid, rb_pop-IsValid}
use nyan_os.Ring.Queue.{room, enqueue, dequeue}
use nyan_os.Ring.Refine.{
  rb_push-enqueue, rb_pop-dequeue, rb_tests-length, rb_is_full-length, rb_is_empty-nil,
}
use nyan_os.Pipe.{
  Pipe, WritePc, at_test, inside, no_input, take_input, read_step, wait_for_room, write_inside,
  write_step, register_reader, pipe_check_ready, pipe_close_reader, pipe_close_writer,
}

abbrev pub bytes : Pipe → List ℕ
bytes p = contents 0 p.buf

abbrev pub is_some : Option ℕ → Bool
is_some none = false
is_some (some _) = true

-- A registered task waits for something that is not there yet: a registered reader for a byte that
-- an open write end may bring, a registered writer for room that an open read end may make.
pub record IsSafe (p : Pipe) : Type 0 where
  pub ring : IsValid p.buf
  pub reader_waits : is_some p.reader_pid ≡ true → (bytes p ≡ []) × (p.write_open ≡ true)
  pub writer_waits : is_some p.writer_pid ≡ true → (length (bytes p) ≡ room) × (p.read_open ≡ true)

dequeue-some : (q : List ℕ) (c : ℕ) (q' : List ℕ) → (some c, q') ≡ dequeue q → q ≡ c ∷ q'
unfolding dequeue
dequeue-some [] c q' e = ground arith
dequeue-some (x ∷ q) c q' e = ground arith

dequeue-none : (q : List ℕ) (q' : List ℕ) → (none, q') ≡ dequeue q → q ≡ []
unfolding dequeue
dequeue-none [] q' e = refl
dequeue-none (x ∷ q) q' e = ground arith

-- A pop that finds a byte, and one that finds none.
pop_some :
    (r : RingBuf ℕ) (c : ℕ) (r' : RingBuf ℕ)
    → IsValid r
    → rb_pop 0 r ≡ (some c, r')
    → (contents 0 r ≡ c ∷ contents 0 r') × IsValid r'
pop_some r c r' v e =
    let valid = rb_pop-IsValid 0 r v in
    let queue = rb_pop-dequeue 0 r v in (dequeue-some _ c _ (rw e at queue), rw e at valid)

pop_none :
    (r : RingBuf ℕ) (r' : RingBuf ℕ) → IsValid r → rb_pop 0 r ≡ (none, r') → contents 0 r ≡ []
pop_none r r' v e = let queue = rb_pop-dequeue 0 r v in dequeue-none _ _ (rw e at queue)

-- The bytes `new` have gone from the pipe `p` to the reader, and leave the pipe `q`.
pub record Took (p q : Pipe) (got got' : List ℕ) : Type 0 where
  pub new : List ℕ
  pub reads : got' ≡ got ++ new
  pub order : bytes p ≡ new ++ bytes q
  pub safe : IsSafe q

-- Nothing moves.
Took-none : (p q : Pipe) (got : List ℕ) → bytes p ≡ bytes q → IsSafe q → Took p q got got
Took-none p q got e v = record { new = []; reads = sym (append-nil got); order = e; safe = v }

-- A reader that waits, at an empty pipe whose write end is open.
registered :
    (p : Pipe) (pid : ℕ)
    → IsSafe p
    → bytes p ≡ []
    → p.write_open ≡ true
    → IsSafe (record p { reader_pid = some pid })
registered p pid v e open_end = record {
  ring = v.ring;
  reader_waits = λ _. (e, open_end);
  writer_waits = v.writer_waits;
}

no_input-Took :
    (curr : Option ℕ) (p : Pipe) (got : List ℕ)
    → IsSafe p
    → bytes p ≡ []
    → let r = no_input curr p got in Took p r.pipe got r.got
unfolding no_input
no_input-Took none p got v e = elim (Bool-cases (p.write_open && not (ltb 0 (length got)))) [
  | inl waits ↦ rw waits (Took-none p p got refl v)
  | inr ends ↦ rw ends (Took-none p p got refl v)
]
no_input-Took (some pid) p got v e = elim (Bool-cases (p.write_open && not (ltb 0 (length got)))) [
  | inl waits ↦ rw waits (
      Took-none p (record p { reader_pid = some pid }) got refl
        (registered p pid v e (ground arith)))
  | inr ends ↦ rw ends (Took-none p p got refl v)
]

take_input-Took :
    (curr : Option ℕ) (p : Pipe) (got : List ℕ) (out : Option ℕ × RingBuf ℕ)
    → IsSafe p
    → rb_pop 0 p.buf ≡ out
    → let r = take_input curr p got out in Took p r.pipe got r.got
unfolding take_input
take_input-Took curr p got (some c, r') v e =
    let popped = pop_some p.buf c r' v.ring e in
    record {
      new = c ∷ [];
      reads = refl;
      order = popped.0;
      safe = record {
        ring = popped.1;
        reader_waits = λ h. absurd (ground (arith, v.reader_waits h, popped.0));
        writer_waits = λ h. ground arith;
      };
    }
take_input-Took curr p got (none, r') v e = no_input-Took curr p got v (pop_none p.buf r' v.ring e)

pub read_step-Took :
    (curr : Option ℕ) (size : ℕ) (p : Pipe) (got : List ℕ)
    → IsSafe p
    → let r = read_step curr size p got in Took p r.pipe got r.got
unfolding read_step
read_step-Took curr size p got v = elim (Bool-cases (ltb (length got) size)) [
  | inl more ↦ rw more (take_input-Took curr p got (rb_pop 0 p.buf) v refl)
  | inr full ↦ rw full (Took-none p p got refl v)
]

-- The bytes `new` have gone from the writer to the pipe `p`, and leave the pipe `q`.
pub record Gave (p q : Pipe) (rest rest' : List ℕ) : Type 0 where
  pub new : List ℕ
  pub writes : rest ≡ new ++ rest'
  pub order : bytes q ≡ bytes p ++ new
  pub safe : IsSafe q

Gave-none : (p q : Pipe) (rest : List ℕ) → bytes p ≡ bytes q → IsSafe q → Gave p q rest rest
Gave-none p q rest e v = record {
  new = [];
  writes = refl;
  order = sym e ∙ sym (append-nil (bytes p));
  safe = v;
}

-- At a full buffer.
at_full :
    (curr : Option ℕ) (p : Pipe) (rest : List ℕ)
    → IsSafe p
    → length (bytes p) ≡ room
    → p.read_open ≡ true
    → let w = wait_for_room curr p rest in Gave p w.pipe rest w.rest
unfolding wait_for_room
at_full none p rest v full open_end = Gave-none p p rest refl v
at_full (some pid) p rest v full open_end =
    Gave-none p _ rest refl (record {
      ring = v.ring;
      reader_waits = v.reader_waits;
      writer_waits = λ _. (full, open_end);
    })

-- At a buffer with room.
at_room :
    (p : Pipe) (c : ℕ) (cs : List ℕ)
    → IsSafe p
    → rb_is_full p.buf ≡ false
    → Gave p (record p { buf = rb_push p.buf c; reader_pid = none }) (c ∷ cs) cs
at_room p c cs v space =
    let short : leb room (length (bytes p)) ≡ false =
      sym (rb_tests-length 0 p.buf v.ring).0 ∙ space in
    record {
      new = c ∷ [];
      writes = refl;
      order = unfold enqueue in ground (arith, rb_push-enqueue 0 p.buf c v.ring);
      safe = record {
        ring = rb_push-IsValid p.buf c v.ring;
        reader_waits = λ h. ground arith;
        writer_waits = λ h. absurd (ground (arith, v.writer_waits h));
      };
    }

write_inside-Gave :
    (curr : Option ℕ) (p : Pipe) (rest : List ℕ)
    → IsSafe p
    → let w = write_inside curr p rest in Gave p w.pipe rest w.rest
unfolding write_inside
write_inside-Gave curr p [] v = Gave-none p p [] refl v
write_inside-Gave curr p (c ∷ cs) v = elim (Bool-cases (rb_is_full p.buf)) [
  | inl full ↦ elim (Bool-cases p.read_open) [
    | inl up ↦
        simp (full, up) (at_full curr p (c ∷ cs) v (rb_is_full-length 0 p.buf v.ring full) up)
    | inr down ↦ simp (full, down) (Gave-none p p (c ∷ cs) refl v)
  ]
  | inr space ↦ rw space (at_room p c cs v space)
]

pub write_step-Gave :
    (pc : WritePc) (curr : Option ℕ) (p : Pipe) (rest : List ℕ)
    → IsSafe p
    → let w = write_step pc curr p rest in Gave p w.pipe rest w.rest
unfolding write_step
write_step-Gave at_test curr p [] v = Gave-none p p [] refl v
write_step-Gave at_test curr p (c ∷ cs) v = elim (Bool-cases p.read_open) [
  | inl up ↦ simp up (Gave-none p p (c ∷ cs) refl v)
  | inr down ↦ simp down (Gave-none p p (c ∷ cs) refl v)
]
write_step-Gave inside curr p rest v = write_inside-Gave curr p rest v

pub pipe_close_reader-IsSafe : (p : Pipe) → IsSafe p → IsSafe (pipe_close_reader p).0
unfolding pipe_close_reader
pipe_close_reader-IsSafe p v = record {
  ring = v.ring;
  reader_waits = v.reader_waits;
  writer_waits = λ h. ground arith;
}

pub pipe_close_writer-IsSafe : (p : Pipe) → IsSafe p → IsSafe (pipe_close_writer p).0
unfolding pipe_close_writer
pipe_close_writer-IsSafe p v = record {
  ring = v.ring;
  reader_waits = λ h. ground arith;
  writer_waits = v.writer_waits;
}

-- The poll leaves the bytes and the ends alone; it may register the task, and only where it waits.
abbrev Polled : Pipe → Pipe × Bool → Type 0
Polled p r = (bytes r.0 ≡ bytes p) × IsSafe r.0

register_reader-IsSafe :
    (curr : Option ℕ) (p : Pipe)
    → IsSafe p
    → bytes p ≡ []
    → p.write_open ≡ true
    → Polled p (register_reader curr p, false)
unfolding register_reader
register_reader-IsSafe none p v e up = (refl, v)
register_reader-IsSafe (some pid) p v e up = (refl, registered p pid v e up)

pub pipe_check_ready-IsSafe :
    (curr : Option ℕ) (p : Pipe) → IsSafe p → Polled p (pipe_check_ready curr p)
unfolding pipe_check_ready
pipe_check_ready-IsSafe curr p v =
    if_ind (Polled p) (not (rb_is_empty p.buf)) _ _ (λ input. (refl, v))
      λ empty.
        if_ind (Polled p) (not p.write_open) _ _ (λ down. (refl, v))
          λ up.
            register_reader-IsSafe curr p v (rb_is_empty-nil 0 p.buf v.ring (not-false _ empty))
              (not-false _ up)

-- ===== src/Sched/Turns.antt =====
-- Bounded waiting: nobody who is ready is passed over for ever.
use nyan_os.Base.{
  ℕ, zero, suc, ◌+◌, ◌<◌, ◌≤◌, ◌≡◌, ◌≢◌, refl, sym, ap, ◌∙◌, true, false, Option, none, some, List,
  arith, ltb, ◌==◌, ◌||◌, length, Bool-cases, inl, inr,
}
use nyan_os.Sched.{
  Task, Sched, sched_find_task, index, after, is_ready, next_task, or_head, schedule, same_pid,
}
use nyan_os.Sched.Find.{
  pids, index_ext, length_ext, Distinct, Distinct-ext, index-find, index_injective,
}
use nyan_os.Sched.Ring.{index-after, in_after, first_ready-index, find-rotate}

-- The pick of `schedule` where `t` is ready: `t`, or a task that stands nearer behind the current one.
data Picked (t c : ℕ) (ts : List Task) : Option ℕ → Type 0 where
  picks :
      (n : Task)
      → is_ready n.state ≡ true
      → index n.pid ts < length ts
      → index n.pid (after c ts) ≤ index t (after c ts)
      → Picked t c ts (some n.pid)

next_task-Picked :
    (t c : ℕ) (ts : List Task) (q : Task)
    → Distinct ts
    → index c ts < length ts
    → sched_find_task t ts ≡ some q
    → is_ready q.state ≡ true
    → Picked t c ts (next_task (some c) ts)
unfolding next_task or_head after
next_task-Picked t c ts q d hc e r =
    let here = index-find t ts q e in
    let place = index-after t c ts d hc here.0 in
    let p =
      first_ready-index t (after c ts) q
        (find-rotate t (suc (index c ts)) ts d (omega arith) here.0 ∙ e) r in
    let near : index p.0.pid (after c ts) < length ts = ground (arith, p.2, place) in
    rw p.1 (picks p.0 p.3 (in_after p.0.pid c ts d hc near) p.2)

-- Two states with the same list of tasks (whatever their states) and the same current task.
pub record SameRing (s u : Sched) : Type 0 where
  pub same_tasks : pids u.tasks ≡ pids s.tasks
  pub same_curr : u.curr ≡ s.curr

-- `t` is passed over `k` times: it is ready at each call of `schedule`, which picks another task.
-- Between the calls the states of tasks and all else may change, but the list of tasks and the current
-- task stay.
pub data Passed (t : ℕ) : ℕ → Sched → Sched → Type 0 where
  start : (s : Sched) → Passed t zero s s
  pass :
      {k : ℕ} {s u : Sched} (v : Sched) (q : Task)
      → Passed t k s u
      → SameRing u v
      → sched_find_task t v.tasks ≡ some q
      → is_ready q.state ≡ true
      → next_task v.curr v.tasks ≢ some t
      → Passed t (suc k) s (schedule v)

-- The next task is current, the list is the same, and `t` stands nearer behind it.
record Closer (t c : ℕ) (v w : Sched) : Type 0 where
  current : ℕ
  now : w.curr ≡ some current
  list : w.tasks ≡ v.tasks
  inside : index current v.tasks < length v.tasks
  nearer : index t (after current v.tasks) < index t (after c v.tasks)

schedule-Closer :
    (t c : ℕ) (v : Sched) (o : Option ℕ)
    → v.curr ≡ some c
    → Distinct v.tasks
    → index c v.tasks < length v.tasks
    → index t v.tasks < length v.tasks
    → Picked t c v.tasks o
    → next_task v.curr v.tasks ≡ o
    → o ≢ some t
    → Closer t c v (schedule v)
unfolding schedule
schedule-Closer t c v o e d hc ht (picks n r hn le) picked ne =
    let other : n.pid ≢ t = λ q. ne (ap some q) in
    let place = index-after t c v.tasks d hc ht in
    let place_n = index-after n.pid c v.tasks d hc hn in
    let apart : index n.pid v.tasks ≢ index t v.tasks =
      λ q. other (index_injective n.pid t v.tasks q hn) in
    let moved : (n.pid == c) ≡ false = elim (Bool-cases (n.pid == c)) [
      | inl same ↦
          let q : n.pid ≡ c = ground arith in
          absurd (ground (arith, ap (λ x. index x v.tasks) q, place, place_n, le, apart))
      | inr other_task ↦ other_task
    ] in
    let switched : (same_pid (some n.pid) none || same_pid (some n.pid) v.curr) ≡ false =
      rw e moved in
    rw (picked, switched)
      (record {
        current = n.pid;
        now = refl;
        list = refl;
        inside = hn;
        nearer = ground (arith, place, place_n, index-after t n.pid v.tasks d hn ht, apart);
      })

after_ext :
    (t c : ℕ) (ts us : List Task)
    → pids ts ≡ pids us
    → Distinct ts
    → index c ts < length ts
    → index t ts < length ts
    → index t (after c ts) ≡ index t (after c us)
after_ext t c ts us e d hc ht =
    let n = length_ext ts us e in
    let it = index_ext t ts us e in
    let ic = index_ext c ts us e in
    ground (
      arith,
      n,
      it,
      ic,
      index-after t c ts d hc ht,
      index-after t c us (Distinct-ext ts us e d) (omega (arith, n, ic)) (omega (arith, n, it)),
    )

-- After `k` passes from a state where `c` is current.
record Waited (t c k : ℕ) (s u : Sched) : Type 0 where
  current : ℕ
  now : u.curr ≡ some current
  inside : index current u.tasks < length u.tasks
  list : pids u.tasks ≡ pids s.tasks
  left : k + index t (after current u.tasks) ≤ index t (after c s.tasks)
  seen : 0 < k → index t s.tasks < length s.tasks

pass-Waited :
    (t c k : ℕ) (s u v : Sched) (q : Task)
    → Distinct s.tasks
    → Waited t c k s u
    → SameRing u v
    → sched_find_task t v.tasks ≡ some q
    → is_ready q.state ≡ true
    → next_task v.curr v.tasks ≢ some t
    → Waited t c (suc k) s (schedule v)
pass-Waited t c k s u v q d w r e is ne =
    let du = Distinct-ext s.tasks u.tasks (sym w.list) d in
    let dv = Distinct-ext u.tasks v.tasks (sym r.same_tasks) du in
    let now = r.same_curr ∙ w.now in
    let n = length_ext v.tasks u.tasks r.same_tasks in
    let n_s = length_ext u.tasks s.tasks w.list in
    let at_v = index_ext w.current v.tasks u.tasks r.same_tasks in
    let hc : index w.current v.tasks < length v.tasks = omega (arith, n, at_v, w.inside) in
    let t_v = index-find t v.tasks q e in
    let t_u = index_ext t v.tasks u.tasks r.same_tasks in
    let t_s = index_ext t u.tasks s.tasks w.list in
    let pick : Picked t w.current v.tasks (next_task v.curr v.tasks) =
      rw now (next_task-Picked t w.current v.tasks q dv hc e is) in
    let near =
      schedule-Closer t w.current v (next_task v.curr v.tasks) now dv hc t_v.0 pick refl ne in
    let same = after_ext t w.current v.tasks u.tasks r.same_tasks dv hc t_v.0 in
    record {
      current = near.current;
      now = near.now;
      inside = rw near.list near.inside;
      list = ap pids near.list ∙ r.same_tasks ∙ w.list;
      left = rw near.list (omega (arith, near.nearer, same, w.left));
      seen = λ h. omega (arith, t_v.0, n, n_s, t_u, t_s);
    }

Passed-Waited :
    (t c k : ℕ) (s u : Sched)
    → s.curr ≡ some c
    → Distinct s.tasks
    → index c s.tasks < length s.tasks
    → Passed t k s u
    → Waited t c k s u
Passed-Waited t c k s u e d hc (start _) = record {
  current = c;
  now = e;
  inside = hc;
  list = refl;
  left = omega arith;
  seen = λ h. absurd (omega arith);
}
Passed-Waited t c _ s _ e d hc (pass {k = j} {u = m} v q p r f is ne) =
    pass-Waited t c j s m v q d (Passed-Waited t c j s m e d hc p) r f is ne

-- A task that is ready is passed over by fewer calls of `schedule` in a row than there are tasks, if
-- between the calls no task enters or leaves the list and the current task stays; the states of the
-- tasks and all else may change.
pub Passed-lt-length :
    (t c k : ℕ) (s u : Sched)
    → s.curr ≡ some c
    → Distinct s.tasks
    → index c s.tasks < length s.tasks
    → Passed t k s u
    → k < length s.tasks
Passed-lt-length t c k s u e d hc p =
    let w = Passed-Waited t c k s u e d hc p in
    elim (Bool-cases (ltb 0 k)) [
      | inl some_pass ↦
          let ht = w.seen (ground arith) in ground (arith, w.left, index-after t c s.tasks d hc ht)
      | inr no_pass ↦ ground arith
    ]

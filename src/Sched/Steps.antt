-- ===== src/Sched/Steps.antt =====
-- Every operation of the scheduler keeps the invariant of the task list.
use nyan_os.Base.{
  ℕ, suc, ◌≡◌, refl, true, false, Option, some, List, ◌++◌, arith, take, drop, Option-cases, inl,
  inr,
}
use nyan_os.Sched.{
  Task, Sched, TaskState, sched_find_task, index, is_gone, is_zombie, is_ready, ready, waiting,
  dead, zombie, sleeping, at, change, wake, first_ready, after, or_head, next_task,
}
use nyan_os.Sched.Find.{Among, Among-append, Among-drop, Among-take, Among-find, first_ready-Among}
use nyan_os.Sched.Inv.{Inv, Inv-switch, map-Inv_all}

-- A change of one task that keeps its pid and parent and does not let it go.
pub change-Inv :
    (s : Sched) (pid : ℕ) (f : Task → Task)
    → Inv s
    → ((t : Task) → (f t).pid ≡ t.pid)
    → ((t : Task) → (f t).parent ≡ t.parent)
    → ((t : Task) → is_gone t.state ≡ false → is_gone (f t).state ≡ false)
    → Inv (record s { tasks = change pid f s.tasks })
unfolding change
change-Inv s pid f v sp spa st =
    map-Inv_all s (at pid f) v (λ t. ground (arith, sp t)) (λ t. ground (arith, spa t))
      (λ t g. ground (arith, st t g))

pub wake-pid : (t : Task) → (wake t).pid ≡ t.pid
wake-pid t = ground arith

pub wake-parent : (t : Task) → (wake t).parent ≡ t.parent
wake-parent t = ground arith

pub wake-stays : (t : Task) → is_gone t.state ≡ false → is_gone (wake t).state ≡ false
wake-stays t g = rw g (unfold is_gone in refl)

ready_stays : (q : TaskState) → is_ready q ≡ true → is_gone q ≡ false
unfolding is_ready is_gone
ready_stays ready e = refl
ready_stays waiting e = absurd (ground arith)
ready_stays dead e = absurd (ground arith)
ready_stays zombie e = absurd (ground arith)
ready_stays sleeping e = absurd (ground arith)

pub zombie_gone : (q : TaskState) → is_zombie q ≡ true → is_gone q ≡ true
unfolding is_zombie is_gone
zombie_gone ready e = absurd (ground arith)
zombie_gone waiting e = absurd (ground arith)
zombie_gone dead e = refl
zombie_gone zombie e = refl
zombie_gone sleeping e = absurd (ground arith)

-- A task that may run: it stands in the list and is not gone.
pub data Runnable (ts : List Task) : Option ℕ → Type 0 where
  runs :
      (n : ℕ) (q : Task)
      → sched_find_task n ts ≡ some q
      → is_gone q.state ≡ false
      → Runnable ts (some n)

Among-rotate : (t : Task) (i j : ℕ) (ts : List Task) → Among t (drop i ts ++ take j ts) → Among t ts
Among-rotate t i j ts m = elim (Among-append t (drop i ts) (take j ts) m) [
  | inl d ↦ Among-drop t i ts d
  | inr k ↦ Among-take t j ts k
]

-- What a search from anywhere in the list finds, or the head.
pub or_head-Runnable :
    (s : Sched) (i j : ℕ)
    → Inv s
    → Runnable s.tasks (or_head (first_ready (drop i s.tasks ++ take j s.tasks)) s.tasks)
unfolding or_head
or_head-Runnable s i j v = elim (Option-cases (first_ready (drop i s.tasks ++ take j s.tasks))) [
  | inl nobody ↦ rw (nobody, v.head_kernel) (runs 0 v.kernel v.kernel_stays.0 v.kernel_stays.1)
  | inr (n, e) ↦
      let m = first_ready-Among (drop i s.tasks ++ take j s.tasks) n e in
      rw e (
        runs n.pid n (Among-find n s.tasks v.distinct (Among-rotate n i j s.tasks m.0))
          (ready_stays n.state m.1))
]

pub next_task-Runnable : (s : Sched) → Inv s → Runnable s.tasks (next_task s.curr s.tasks)
unfolding next_task after
next_task-Runnable s v =
    rw (v.now_lem.0) (or_head-Runnable s (suc (index v.now s.tasks)) (suc (index v.now s.tasks)) v)

pub Runnable-Inv :
    (s : Sched) (o : Option ℕ) → Inv s → Runnable s.tasks o → Inv (record s { curr = o })
Runnable-Inv s _ v (runs n q e g) = Inv-switch s n q v e g

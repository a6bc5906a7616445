-- ===== src/Sched/Exit.antt =====
-- The end of a task: its children go to the kernel's task, another task is current, and only then is
-- it a zombie.
use nyan_os.Sched.Leave.{end_task-Inv, clean-Inv, reparent-Inv, exit_task-Inv}
use nyan_os.Base.{
  ℕ, ◌≡◌, ◌≢◌, refl, sym, ap, subst, ◌∙◌, false, not, ◌&&◌, ◌||◌, none, some, arith, ◌==◌, if_ind,
  Option-cases, inl, inr,
}
use nyan_os.Sched.{
  Task, Sched, sched_find_task, is_gone, change, same_pid, sched_reparent_children, end_task,
  curr_task, sched_exit, kill_task, sched_kill, minus_one, deliver, deliver_signal, take_signal,
  sigint, schedule, next_task, block_task, sched_block, wait,
}
use nyan_os.Sched.Find.{index-find}
use nyan_os.Sched.Inv.{Inv, Inv-log}
use nyan_os.Sched.Steps.{change-Inv, Runnable-Inv, next_task-Runnable}

-- The current task, as it stands in the list.
curr_task_lem : (s : Sched) (v : Inv s) → (curr_task s ≡ some v.now_task) × (v.now_task.pid ≡ v.now)
unfolding curr_task
curr_task_lem s v =
    (rw (v.now_lem.0) v.now_lem.1, (index-find v.now s.tasks v.now_task v.now_lem.1).1)

pub sched_exit-Inv : (s : Sched) (code : ℕ) → Inv s → Inv (sched_exit code s)
unfolding sched_exit
sched_exit-Inv s code v =
    let c = curr_task_lem s v in
    rw (c.0)
      (exit_task-Inv s code v.now_task v (ap (λ y. sched_find_task y s.tasks) c.1 ∙ v.now_lem.1))

pub deliver_signal-Inv : (s : Sched) → Inv s → Inv (deliver_signal s)
unfolding deliver_signal deliver
deliver_signal-Inv s v =
    let c = curr_task_lem s v in
    rw (c.0) (
      if_ind Inv (not (v.now_task.pid == 0) && v.now_task.pending sigint) _ _
        (λ pending.
          sched_exit-Inv _ 0
            (change-Inv s v.now_task.pid take_signal v (λ t. refl) (λ t. refl) (λ t g. g)))
        (λ none_pending. v))

pub schedule-Inv : (s : Sched) → Inv s → Inv (schedule s)
unfolding schedule
schedule-Inv s v =
    if_ind Inv
      (same_pid (next_task s.curr s.tasks) none || same_pid (next_task s.curr s.tasks) s.curr) _ _
      (λ stays. deliver_signal-Inv s v)
      (λ switches. Runnable-Inv s (next_task s.curr s.tasks) v (next_task-Runnable s v))

pub sched_block-Inv : (s : Sched) → Inv s → Inv (sched_block s)
unfolding sched_block is_gone
sched_block-Inv s v =
    subst (λ o. Inv (block_task o s)) (sym (v.now_lem.0))
      (schedule-Inv (record s { tasks = change v.now wait s.tasks })
        (change-Inv s v.now wait v (λ t. refl) (λ t. refl) (λ t g. refl)))

kill_task-Inv :
    (s : Sched) (t : Task) → Inv s → t.pid ≢ 0 → s.curr ≢ some t.pid → Inv (kill_task t s)
unfolding kill_task
kill_task-Inv s t v ne other =
    if_ind Inv (is_gone t.state) _ _ (λ gone. v)
      λ alive.
        let r = reparent-Inv s t v ne in
        let reparented = record s { tasks = sched_reparent_children t s.tasks } in
        let ended = end_task-Inv reparented minus_one t.pid r.0 ne other r.1 in
        Inv-log _ _
          (clean-Inv (record reparented { tasks = end_task minus_one t.pid reparented.tasks }) t.pid
            ended)
          refl refl refl

pub sched_kill-Inv : (s : Sched) (pid : ℕ) → Inv s → Inv (sched_kill pid s)
unfolding sched_kill
sched_kill-Inv s pid v =
    if_ind Inv (pid == 0) _ _ (λ zero_pid. v)
      λ some_pid.
        if_ind Inv (same_pid (some pid) s.curr) _ _ (λ self. sched_exit-Inv s minus_one v)
          λ other. elim (Option-cases (sched_find_task pid s.tasks)) [
            | inl nobody ↦ rw nobody v
            | inr (t, found) ↦
                let p : t.pid ≡ pid = (index-find pid s.tasks t found).1 in
                rw found (
                  kill_task-Inv s t v (λ z. absurd (ground arith))
                    (λ is. absurd (killed_other s pid t.pid other p is)))
          ]
  where
    killed_other :
        (s : Sched) (pid t : ℕ) → same_pid (some pid) s.curr ≡ false → t ≡ pid → s.curr ≡ some t → ⊥
    killed_other s pid t h e is = let z : (pid == t) ≡ false = rw is at h in ground arith

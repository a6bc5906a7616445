-- ===== src/Sched/Reach.antt =====
-- All that can happen to the list of tasks, in any order.
use nyan_os.Base.{
  ℕ, Bool, ◌+◌, ◌<◌, ◌≡◌, refl, sym, ap, ◌∙◌, true, false, Option, none, some, List, [], ◌∷◌, arith,
  ltb, ◌==◌, if◌then◌else◌, length, Bool-cases, Option-cases, inl, inr,
}
use nyan_os.Sched.{
  Task, Sched, sched_find_task, index, head_pid, is_gone, is_zombie, sched_init, ready, schedule,
  sched_block, sched_exit, deliver_signal, sched_kill, sched_wake_pid, sched_send_signal,
  sched_new_task, sched_register_task, sys_fork, task_factory_fork, curr_task,
  sched_check_sleeping_tasks, wake_sleeper, sched_reap_zombies, sys_waitpid, insert_task,
  enter_curr, find_orphan, reap, wake, can_reap, wait_child, sys_sleep, wait_found, sleep_until,
  sleep, ticks_to_wait, make_ready, wake_waiting, notify, push_event, spawn_elf_app,
}
use nyan_os.Sched.Find.{Distinct, Among, Among-find, index-find, index-le-length}
use nyan_os.Sched.Inv.{Inv, Inv-log, map-Inv_all, unlink-Inv, sched_init-Inv}
use nyan_os.Sched.Steps.{change-Inv, wake-pid, wake-parent, wake-stays, zombie_gone}
use nyan_os.Sched.Exit.{
  schedule-Inv, sched_block-Inv, sched_exit-Inv, deliver_signal-Inv, sched_kill-Inv,
}

pub data Step (s : Sched) : Sched → Type 0 where
  tick : Step s (schedule s)
  go_on : Step s (deliver_signal s)
  block : Step s (sched_block s)
  exit : (code : ℕ) → Step s (sched_exit code s)
  kill : (pid : ℕ) → Step s (sched_kill pid s)
  wake_up : (pid : ℕ) → Step s (sched_wake_pid pid s)
  signal : (pid sig_code : ℕ) → Step s (sched_send_signal pid sig_code s)
  fork : (stdio : List (Option ℕ)) → Step s (sys_fork stdio s)
  clock : (now : ℕ) → Step s (sched_check_sleeping_tasks now s)
  reap_one : Step s (sched_reap_zombies s)
  -- A later round keeps its pointer: it is a step where the task is still in the list.
  wait_for : (pid : ℕ) → Step s (sys_waitpid pid s).1
  wait_on :
      (pid : ℕ) (t : Task) → sched_find_task pid s.tasks ≡ some t → Step s (wait_child pid t s).1
  sleep_for : (ms now : ℕ) → Step s (sys_sleep ms now s)
  queue_wakes : (pid : ℕ) → Step s (wake_waiting pid s)
  event : (has_queue : Bool) (pid : ℕ) → Step s (push_event has_queue pid s)
  launch : (loaded : Bool) (stdio : List (Option ℕ)) → Step s (spawn_elf_app loaded stdio s)

pub data Reach : Sched → Type 0 where
  here : Reach sched_init
  next : {s t : Sched} → Reach s → Step s t → Reach t

clock-Inv : (s : Sched) (now : ℕ) → Inv s → Inv (sched_check_sleeping_tasks now s)
unfolding sched_check_sleeping_tasks is_gone
clock-Inv s now v =
    map-Inv_all s (wake_sleeper now) v (λ t. ground arith) (λ t. ground arith) (λ t g. ground arith)

reap-Inv :
    (s : Sched) (t : Task)
    → Inv s
    → sched_find_task t.pid s.tasks ≡ some t
    → is_zombie t.state ≡ true
    → Inv (reap t s)
reap-Inv s t v f z = Inv-log _ _ (unlink-Inv s t.pid t v f (zombie_gone t.state z)) refl refl refl

find_orphan-Among :
    (s : Sched) (ts : List Task) (t : Task)
    → find_orphan s ts ≡ some t
    → Among t ts × (is_zombie t.state ≡ true)
unfolding find_orphan
find_orphan-Among s [] t e = absurd (ground arith)
find_orphan-Among s (u ∷ ts) t e = elim (Bool-cases (can_reap s u)) [
  | inl found ↦
      let q : u ≡ t = ground arith in
      let z : is_zombie u.state ≡ true = ground arith in
      (inl q, ap (λ v. is_zombie v.state) (sym q) ∙ z)
  | inr not_this ↦ let rest = find_orphan-Among s ts t (ground arith) in (inr rest.0, rest.1)
]

sched_reap_zombies-Inv : (s : Sched) → Inv s → Inv (sched_reap_zombies s)
unfolding sched_reap_zombies
sched_reap_zombies-Inv s v = elim (Option-cases (find_orphan s s.tasks)) [
  | inl nobody ↦ rw nobody v
  | inr (t, found) ↦
      let m = find_orphan-Among s s.tasks t found in
      rw found (reap-Inv s t v (Among-find t s.tasks v.distinct m.0) m.1)
]

wait_child-Inv :
    (s : Sched) (pid : ℕ) (t : Task)
    → Inv s
    → sched_find_task pid s.tasks ≡ some t
    → Inv (wait_child pid t s).1
unfolding wait_child
wait_child-Inv s pid t v e = elim (Bool-cases (is_zombie t.state)) [
  | inl ended ↦
      let p : pid ≡ t.pid = sym (index-find pid s.tasks t e).1 in
      rw ended (reap-Inv s t v (ap (λ y. sched_find_task y s.tasks) (sym p) ∙ e) ended)
  | inr alive ↦ rw alive (sched_block-Inv s v)
]

sys_waitpid-Inv : (s : Sched) (pid : ℕ) → Inv s → Inv (sys_waitpid pid s).1
unfolding sys_waitpid
sys_waitpid-Inv s pid v = found (sched_find_task pid s.tasks) refl
  where
    found : (o : Option Task) → sched_find_task pid s.tasks ≡ o → Inv (wait_found pid o s).1
    found none e = v
    found (some t) e = wait_child-Inv s pid t v e

sleep_until-Inv : (s : Sched) (until : ℕ) (o : Option ℕ) → Inv s → Inv (sleep_until until o s)
unfolding sleep_until
sleep_until-Inv s until none v = v
sleep_until-Inv s until (some c) v =
    schedule-Inv _
      (change-Inv s c (sleep until) v (λ t. refl) (λ t. refl) (λ t g. unfold is_gone in refl))

sys_sleep-Inv : (s : Sched) (ms now : ℕ) → Inv s → Inv (sys_sleep ms now s)
unfolding sys_sleep
sys_sleep-Inv s ms now v = sleep_until-Inv s (now + ticks_to_wait ms) s.curr v

wake_waiting-Inv : (s : Sched) (pid : ℕ) → Inv s → Inv (wake_waiting pid s)
unfolding wake_waiting
wake_waiting-Inv s pid v =
    change-Inv s pid make_ready v (λ t. refl) (λ t. refl) (λ t g. unfold is_gone in refl)

push_event-Inv : (s : Sched) (q : Bool) (pid : ℕ) → Inv s → Inv (push_event q pid s)
unfolding push_event notify
push_event-Inv s q pid v =
    change-Inv s pid (notify q) v (λ t. ground arith) (λ t. ground arith)
      (λ t g. unfold is_gone in ground (arith, g))

find-index :
    (x : ℕ) (ts : List Task) → index x ts < length ts → (q : Task) × (sched_find_task x ts ≡ some q)
unfolding index sched_find_task
find-index x [] h = absurd (omega arith)
find-index x (t ∷ ts) h = elim (Bool-cases (t.pid == x)) [
  | inl this ↦ (t, ground arith)
  | inr more ↦ let r = find-index x ts (ground arith) in (r.0, rw more r.1)
]

-- The pid of a new task is not in use.
fresh_pid : (s : Sched) → Inv s → index s.next_pid s.tasks ≡ length s.tasks
fresh_pid s v = elim (Bool-cases (ltb (index s.next_pid s.tasks) (length s.tasks))) [
  | inl used ↦
      let r = find-index s.next_pid s.tasks (ground arith) in
      absurd (omega (arith, v.below s.next_pid r.0 r.1))
  | inr free ↦ ground (arith, index-le-length s.next_pid s.tasks)
]

record Inserted (t : Task) (ts out : List Task) : Type 0 where
  distinct : Distinct out
  head : head_pid out ≡ some 0
  others :
      (x : ℕ)
      → sched_find_task x out
        ≡ (if x == t.pid then some (record t { state = ready }) else sched_find_task x ts)

insert_task-Inserted :
    (t : Task) (ts : List Task)
    → Distinct ts
    → head_pid ts ≡ some 0
    → index t.pid ts ≡ length ts
    → Inserted t ts (insert_task t ts)
unfolding insert_task head_pid index sched_find_task
insert_task-Inserted t [] d e absent = absurd (ground arith)
insert_task-Inserted t (h ∷ ts) d e absent =
    let other : (h.pid == t.pid) ≡ false = ground arith in
    record {
      distinct = (ground (arith, d.0), (ground arith, d.1));
      head = e;
      others = λ x. ground arith;
    }

enter_curr_same :
    (ts : List Task) (pid : ℕ) (c : Option ℕ) → head_pid ts ≡ some 0 → enter_curr ts pid c ≡ c
unfolding enter_curr head_pid
enter_curr_same [] pid c e = absurd (ground arith)
enter_curr_same (t ∷ ts) pid c e = refl

-- A new task is not gone, and nobody else changes.
module _ (s : Sched) (t : Task) (v : Inv s) (p : t.pid ≡ s.next_pid) (is : t.parent ≡ s.curr) where
  inserted : Inserted t s.tasks (insert_task t s.tasks)
  inserted =
      insert_task-Inserted t s.tasks v.distinct v.head_kernel
        (ap (λ y. index y s.tasks) p ∙ fresh_pid s v)

  kept :
      (x : ℕ) (q : Task)
      → sched_find_task x s.tasks ≡ some q
      → sched_find_task x (insert_task t s.tasks) ≡ some q
  kept x q e =
      let old : (x == t.pid) ≡ false = ground (arith, v.below x q e) in inserted.others x ∙ rw old e

  parents_known :
      (x y : ℕ) (q : Task)
      → sched_find_task x (insert_task t s.tasks) ≡ some q
      → q.parent ≡ some y
      → (r : Task) × (sched_find_task y (insert_task t s.tasks) ≡ some r)
        × (is_gone r.state ≡ false)
  parents_known x y q e ep = elim (Bool-cases (x == t.pid)) [
    | inl new ↦
        let self : some (record t { state = ready }) ≡ some q =
          sym (rw new at (inserted.others x)) ∙ e in
        let same : t.parent ≡ q.parent =
          ap (λ (o : Option Task). elim o as (λ _. Option ℕ) [ none ↦ none | some u ↦ u.parent ])
            self in
        let y_now : some y ≡ some v.now = sym ep ∙ sym same ∙ is ∙ v.now_lem.0 in
        let z : v.now ≡ y = ground arith in
        rw (← z) (v.now_task, kept v.now v.now_task v.now_lem.1, v.now_lem.2)
    | inr old ↦
        let r = v.parents x y q (sym (rw old at (inserted.others x)) ∙ e) ep in
        (r.0, kept y r.0 r.1, r.2)
  ]

  register-Inv : Inv (sched_register_task t (record s { next_pid = s.next_pid + 1 }))
  unfolding sched_register_task
  register-Inv = record {
    distinct = inserted.distinct;
    below = λ x q e. ground (arith, inserted.others x, v.below x q);
    head_kernel = inserted.head;
    kernel = v.kernel;
    kernel_stays = (kept 0 v.kernel v.kernel_stays.0, v.kernel_stays.1);
    now = v.now;
    now_task = v.now_task;
    now_lem = (
      enter_curr_same s.tasks t.pid s.curr v.head_kernel ∙ v.now_lem.0,
      kept v.now v.now_task v.now_lem.1,
      v.now_lem.2,
    );
    parents = parents_known;
  }

sys_fork-Inv : (s : Sched) (stdio : List (Option ℕ)) → Inv s → Inv (sys_fork stdio s)
unfolding sys_fork curr_task task_factory_fork sched_new_task sched_register_task
sys_fork-Inv s stdio v =
    let is =
      ap (λ o. elim o as (λ _. Option Task) [ none ↦ none | some c ↦ sched_find_task c s.tasks ])
        v.now_lem.0
      ∙ v.now_lem.1 in
    let here_pid = index-find v.now s.tasks v.now_task v.now_lem.1 in
    rw is (
      Inv-log _ _
        (register-Inv s (task_factory_fork stdio v.now_task s).0 v refl
          (ap some here_pid.1 ∙ sym v.now_lem.0))
        refl refl refl)

-- A new task that was destroyed again leaves a number that is not used.
spawn_elf_app-Inv :
    (s : Sched) (loaded : Bool) (stdio : List (Option ℕ))
    → Inv s
    → Inv (spawn_elf_app loaded stdio s)
unfolding spawn_elf_app sched_new_task
spawn_elf_app-Inv s true stdio v = register-Inv s (sched_new_task stdio s).0 v refl refl
spawn_elf_app-Inv s false stdio v = record {
  distinct = v.distinct;
  below = λ x q e. omega (arith, v.below x q e);
  head_kernel = v.head_kernel;
  kernel = v.kernel;
  kernel_stays = v.kernel_stays;
  now = v.now;
  now_task = v.now_task;
  now_lem = v.now_lem;
  parents = v.parents;
}

Step-Inv : {s t : Sched} → Inv s → Step s t → Inv t
Step-Inv {s} v tick = schedule-Inv s v
Step-Inv {s} v go_on = deliver_signal-Inv s v
Step-Inv {s} v block = sched_block-Inv s v
Step-Inv {s} v (exit code) = sched_exit-Inv s code v
Step-Inv {s} v (kill pid) = sched_kill-Inv s pid v
Step-Inv {s} v (wake_up pid) =
    unfold sched_wake_pid in change-Inv s pid wake v wake-pid wake-parent wake-stays
Step-Inv {s} v (signal pid sig_code) =
    unfold sched_send_signal in change-Inv s pid _ v (λ t. refl) (λ t. refl) (λ t g. g)
Step-Inv {s} v (fork stdio) = sys_fork-Inv s stdio v
Step-Inv {s} v (clock now) = clock-Inv s now v
Step-Inv {s} v reap_one = sched_reap_zombies-Inv s v
Step-Inv {s} v (wait_for pid) = sys_waitpid-Inv s pid v
Step-Inv {s} v (wait_on pid t found) = wait_child-Inv s pid t v found
Step-Inv {s} v (sleep_for ms now) = sys_sleep-Inv s ms now v
Step-Inv {s} v (queue_wakes pid) = wake_waiting-Inv s pid v
Step-Inv {s} v (event has_queue pid) = push_event-Inv s has_queue pid v
Step-Inv {s} v (launch loaded stdio) = spawn_elf_app-Inv s loaded stdio v

pub Reach-Inv : (s : Sched) → Reach s → Inv s
Reach-Inv _ here = sched_init-Inv
Reach-Inv _ (next {s} r st) = Step-Inv (Reach-Inv s r) st

-- ===== src/Sched.antt =====
-- The scheduler of src/sched/sched.c. The circular list of tasks is a list that starts at
-- `g_head_tsk`; a pointer to a task is its pid, which no two tasks share (`Sched.Inv`). The switch of
-- stacks and page tables is not modelled: what `schedule` decides is the new `g_curr_tsk`, and what
-- follows the switch runs when the task that was switched to goes on (`deliver_signal`). What goes to
-- other parts (files and windows to close, tasks to free) is logged. Each function holds
-- `sched_lock`, and is one step. A pid does not wrap round.
pub mod Find
pub mod Ring
pub mod Turns
pub mod Inv
pub mod Steps
pub mod Reparent
pub mod Leave
pub mod Exit
pub mod Reach
pub mod Ends
mod Tests
use nyan_os.Base.{
  ℕ, zero, suc, ◌+◌, ◌%◌, ◌≡◌, refl, Bool, true, false, not, ◌&&◌, ◌||◌, Option, none, some, List,
  [], ◌∷◌, ◌++◌, ◌/◌, map, ltb, leb, ◌==◌, if◌then◌else◌, take, drop, replicate,
}

pub data TaskState : Type 0 where
  ready waiting dead zombie sleeping : TaskState

pub is_ready : TaskState → Bool
is_ready ready = true
is_ready waiting = false
is_ready dead = false
is_ready zombie = false
is_ready sleeping = false

pub is_zombie : TaskState → Bool
is_zombie ready = false
is_zombie waiting = false
is_zombie dead = false
is_zombie zombie = true
is_zombie sleeping = false

-- `TASK_ZOMBIE` or `TASK_DEAD`.
pub is_gone : TaskState → Bool
is_gone ready = false
is_gone waiting = false
is_gone dead = true
is_gone zombie = true
is_gone sleeping = false

pub is_sleeping : TaskState → Bool
is_sleeping ready = false
is_sleeping waiting = false
is_sleeping dead = false
is_sleeping zombie = false
is_sleeping sleeping = true

pub is_waiting : TaskState → Bool
is_waiting ready = false
is_waiting waiting = true
is_waiting dead = false
is_waiting zombie = false
is_waiting sleeping = false

-- `win` is the owner of the task's window. `pending` has the bits of `pending_signals`. A
-- `wake_tick` of -1 is `none`.
pub record Task : Type 0 where
  pub pid : ℕ
  pub state : TaskState
  pub parent : Option ℕ
  pub ret_val : ℕ
  pub win : Option ℕ
  pub pending : ℕ → Bool
  pub wake_tick : Option ℕ
  pub fd_tbl : List (Option ℕ)

-- What the scheduler asks of other parts: `vfs_close`, `vfs_retain`, `win_close`,
-- `sched_destroy_task`.
pub data Effect : Type 0 where
  close_file : ℕ → Effect
  retain_file : ℕ → Effect
  close_window : ℕ → Effect
  destroy_task : ℕ → Effect

pub record Sched : Type 0 where
  pub tasks : List Task
  pub curr : Option ℕ
  pub next_pid : ℕ
  pub log : List Effect

-- -1 as an `int`.
abbrev pub minus_one : ℕ
minus_one = 0xffffffff

abbrev pub max_open_files : ℕ
max_open_files = 16

-- The bit of SIGINT.
abbrev pub sigint : ℕ
sigint = 1

pub sched_find_task : ℕ → List Task → Option Task
sched_find_task pid [] = none
sched_find_task pid (t ∷ ts) = if t.pid == pid then some t else sched_find_task pid ts

-- A change of the task that a pointer points to.
abbrev pub at : ℕ → (Task → Task) → Task → Task
at pid f t = if t.pid == pid then f t else t

pub change : ℕ → (Task → Task) → List Task → List Task
change pid f ts = map (at pid f) ts

pub index : ℕ → List Task → ℕ
index pid [] = 0
index pid (t ∷ ts) = if t.pid == pid then 0 else suc (index pid ts)

-- The circular list from the place `i` on, once round.
abbrev pub rotate : ℕ → List Task → List Task
rotate i ts = drop i ts ++ take i ts

-- The tasks from the successor of `pid` once round, the task itself last.
pub after : ℕ → List Task → List Task
unfolding index
after pid ts = rotate (suc (index pid ts)) ts

pub first_ready : List Task → Option Task
unfolding is_ready
first_ready [] = none
first_ready (t ∷ ts) = if is_ready t.state then some t else first_ready ts

pub head_pid : List Task → Option ℕ
head_pid [] = none
head_pid (t ∷ ts) = some t.pid

-- The task found, or the head where no task is ready.
pub or_head : Option Task → List Task → Option ℕ
unfolding head_pid
or_head none ts = head_pid ts
or_head (some t) ts = some t.pid

-- `next_tsk` of `schedule`.
pub next_task : Option ℕ → List Task → Option ℕ
unfolding head_pid or_head first_ready after
next_task none ts = head_pid ts
next_task (some c) ts = or_head (first_ready (after c ts)) ts

-- A task with its window and its files closed, and what that asks of other parts.
pub clean : Task → Task
clean t = record t { win = none; fd_tbl = replicate max_open_files none }

pub closed_files : List (Option ℕ) → List Effect
closed_files [] = []
closed_files (none ∷ fs) = closed_files fs
closed_files (some h ∷ fs) = close_file h ∷ closed_files fs

abbrev pub owns_window : Task → Bool
owns_window t = elim t.win [ none ↦ false | some owner ↦ owner == t.pid ]

pub closed : Task → List Effect
unfolding closed_files
closed t = (if owns_window t then close_window t.pid ∷ [] else []) ++ closed_files t.fd_tbl

abbrev pub has_parent : ℕ → Task → Bool
has_parent p t = elim t.parent [ none ↦ false | some q ↦ q == p ]

-- A child goes to the head of the list; the child of a window's owner is also interrupted.
abbrev pub interrupt : Task → Task
interrupt t = record t { pending = λ i. i == sigint || t.pending i; state = ready }

pub adopt : Option ℕ → Bool → Task → Task
unfolding is_gone
adopt new_parent owner t =
    if owner && not (t.pid == 0) && not (is_gone t.state)
    then interrupt (record t { parent = new_parent })
    else record t { parent = new_parent }

abbrev pub adopt_child : ℕ → Option ℕ → Bool → Task → Task
adopt_child p new_parent owner t = if has_parent p t then adopt new_parent owner t else t

pub sched_reparent_children : Task → List Task → List Task
unfolding adopt head_pid
sched_reparent_children exiting ts =
    map (adopt_child exiting.pid (head_pid ts) (owns_window exiting)) ts

-- A parent that is not gone becomes ready.
abbrev pub wake : Task → Task
wake t = if is_gone t.state then t else record t { state = ready }

pub wake_parent : Option ℕ → List Task → List Task
unfolding change is_gone
wake_parent none ts = ts
wake_parent (some p) ts = change p wake ts

abbrev pub become_zombie : ℕ → Task → Task
become_zombie code t = record t { state = zombie; ret_val = code }

pub parent_of : Option Task → Option ℕ
parent_of none = none
parent_of (some t) = t.parent

-- The state `TASK_ZOMBIE` and the wake-up of the parent.
pub end_task : ℕ → ℕ → List Task → List Task
unfolding change wake_parent parent_of sched_find_task
end_task code pid ts =
    wake_parent (parent_of (sched_find_task pid ts)) (change pid (become_zombie code) ts)

-- The successor of a task that exits: the first other task that is ready, or the head.
pub next_after_exit : ℕ → List Task → Option ℕ
unfolding or_head first_ready index
next_after_exit pid ts =
    or_head (first_ready (drop (suc (index pid ts)) ts ++ take (index pid ts) ts)) ts

-- Where the head exits, the list starts at the successor.
pub new_head : ℕ → Option ℕ → List Task → List Task
unfolding head_pid index
new_head pid none ts = ts
new_head pid (some n) ts = if index pid ts == 0 then rotate (index n ts) ts else ts

pub exit_task : ℕ → Task → Sched → Sched
unfolding clean closed change sched_reparent_children next_after_exit new_head end_task
exit_task code t s =
    if t.pid == 0
    then s
    else let cleaned = change t.pid clean s.tasks in
      let ts = sched_reparent_children (clean t) cleaned in
      let next = next_after_exit t.pid ts in
      record s {
        tasks = end_task code t.pid (new_head t.pid next ts);
        curr = next;
        log = s.log ++ closed t;
      }

-- The current task, if `g_curr_tsk` is one.
pub curr_task : Sched → Option Task
unfolding sched_find_task
curr_task s = elim s.curr [ none ↦ none | some c ↦ sched_find_task c s.tasks ]

abbrev pub on_task : (Task → Sched → Sched) → Option Task → Sched → Sched
on_task f none s = s
on_task f (some t) s = f t s

pub sched_exit : ℕ → Sched → Sched
unfolding exit_task curr_task
sched_exit code s = on_task (exit_task code) (curr_task s) s

-- SIGINT, where it is pending, ends the task that goes on after `schedule`.
abbrev pub take_signal : Task → Task
take_signal t = record t { pending = λ i. not (i == sigint) && t.pending i }

pub deliver : Task → Sched → Sched
unfolding sched_exit change
deliver t s =
    if not (t.pid == 0) && t.pending sigint
    then sched_exit 0 (record s { tasks = change t.pid take_signal s.tasks })
    else s

pub deliver_signal : Sched → Sched
unfolding deliver curr_task
deliver_signal s = on_task deliver (curr_task s) s

abbrev pub same_pid : Option ℕ → Option ℕ → Bool
same_pid none none = true
same_pid none (some q) = false
same_pid (some p) none = false
same_pid (some p) (some q) = p == q

-- Without a switch the task goes on at once.
pub schedule : Sched → Sched
unfolding next_task deliver_signal
schedule s =
    let next = next_task s.curr s.tasks in
    if same_pid next none || same_pid next s.curr
    then deliver_signal s
    else record s { curr = next }

abbrev pub wait : Task → Task
wait t = record t { state = waiting }

pub block_task : Option ℕ → Sched → Sched
unfolding schedule change
block_task none s = schedule s
block_task (some c) s = schedule (record s { tasks = change c wait s.tasks })

pub sched_block : Sched → Sched
unfolding block_task
sched_block s = block_task s.curr s

pub sched_wake_pid : ℕ → Sched → Sched
unfolding change is_gone
sched_wake_pid pid s = record s { tasks = change pid wake s.tasks }

pub kill_task : Task → Sched → Sched
unfolding is_gone sched_reparent_children end_task change clean closed
kill_task t s = if is_gone t.state then s else record s {
  tasks = change t.pid clean (end_task minus_one t.pid (sched_reparent_children t s.tasks));
  log = s.log ++ closed t;
}

-- The pid 0 stands for every `pid <= 0`.
pub sched_kill : ℕ → Sched → Sched
unfolding sched_exit kill_task sched_find_task
sched_kill pid s =
    if pid == 0
    then s
    else if same_pid (some pid) s.curr
    then sched_exit minus_one s
    else on_task kill_task (sched_find_task pid s.tasks) s

-- A shift counts modulo 32, as the processor's does.
pub sched_send_signal : ℕ → ℕ → Sched → Sched
unfolding change
sched_send_signal pid sig_code s = record s {
  tasks =
      change pid (λ t. record t { pending = λ i. i == (sig_code + 31) % 32 || t.pending i })
        s.tasks;
}

-- A new task stands behind the head.
pub insert_task : Task → List Task → List Task
insert_task t [] = record t { state = ready } ∷ []
insert_task t (h ∷ ts) = h ∷ record t { state = ready } ∷ ts

pub enter_curr : List Task → ℕ → Option ℕ → Option ℕ
enter_curr [] pid c = some pid
enter_curr (h ∷ ts) pid c = c

pub sched_register_task : Task → Sched → Sched
unfolding insert_task enter_curr
sched_register_task t s = record s {
  tasks = insert_task t s.tasks;
  curr = enter_curr s.tasks t.pid s.curr;
}

-- `sched_new_task`, where the memory for its parts is to be had: the task, not yet in the list. The
-- argument has the files that `dev_attach_stdio` puts into its table.
pub sched_new_task : List (Option ℕ) → Sched → Task × Sched
sched_new_task stdio s = (
  record {
    pid = s.next_pid;
    state = waiting;
    parent = s.curr;
    ret_val = 0;
    win = none;
    pending = λ i. false;
    wake_tick = none;
    fd_tbl = stdio;
  },
  record s { next_pid = s.next_pid + 1 },
)

pub retained_files : List (Option ℕ) → List Effect
retained_files [] = []
retained_files (none ∷ fs) = retained_files fs
retained_files (some h ∷ fs) = retain_file h ∷ retained_files fs

-- The new task, ready, with the parent's files and window; its standard files are closed again. Its
-- page tables and its stack are not modelled.
pub task_factory_fork : List (Option ℕ) → Task → Sched → Task × Sched
unfolding sched_new_task closed_files retained_files
task_factory_fork stdio parent_tsk s =
    let (t, opened) = sched_new_task stdio s in
    (
      record t {
        state = ready;
        parent = some parent_tsk.pid;
        win = parent_tsk.win;
        fd_tbl = parent_tsk.fd_tbl;
      },
      record opened { log = opened.log ++ closed_files stdio ++ retained_files parent_tsk.fd_tbl },
    )

abbrev pub register : Task × Sched → Sched
unfolding sched_register_task
register (t, s) = sched_register_task t s

-- `sys_fork` of src/arch/syscall.c, where memory is to be had.
pub sys_fork : List (Option ℕ) → Sched → Sched
unfolding task_factory_fork sched_register_task curr_task
sys_fork stdio s = on_task (λ t u. register (task_factory_fork stdio t u)) (curr_task s) s

-- A sleeping task whose time has come; a `wake_tick` of -1 has.
abbrev pub is_due : ℕ → Task → Bool
is_due now t = elim t.wake_tick [ none ↦ true | some tick ↦ leb tick now ]

pub wake_sleeper : ℕ → Task → Task
unfolding is_sleeping
wake_sleeper now t =
    if is_sleeping t.state && is_due now t then record t { state = ready; wake_tick = none } else t

pub sched_check_sleeping_tasks : ℕ → Sched → Sched
unfolding wake_sleeper
sched_check_sleeping_tasks now s = record s { tasks = map (wake_sleeper now) s.tasks }

-- The task leaves the list; where it is the head, the list starts at its successor.
pub sched_unlink_task : ℕ → List Task → List Task
sched_unlink_task pid [] = []
sched_unlink_task pid (t ∷ ts) = if t.pid == pid then ts else t ∷ sched_unlink_task pid ts

-- A zombie whose parent is the kernel's task, or is gone, or is none.
pub is_orphan : List Task → Option ℕ → Bool
unfolding sched_find_task is_gone
is_orphan ts none = true
is_orphan ts (some p) =
    p == 0 || (elim (sched_find_task p ts) [ none ↦ false | some q ↦ is_gone q.state ])

abbrev pub can_reap : Sched → Task → Bool
can_reap s t =
    not (t.pid == 0)
    && not (same_pid (some t.pid) s.curr)
    && is_zombie t.state
    && is_orphan s.tasks t.parent

pub find_orphan : Sched → List Task → Option Task
unfolding is_zombie is_orphan
find_orphan s [] = none
find_orphan s (t ∷ ts) = if can_reap s t then some t else find_orphan s ts

abbrev pub reap : Task → Sched → Sched
reap t s = record s {
  tasks = sched_unlink_task t.pid s.tasks;
  log = s.log ++ destroy_task t.pid ∷ [];
}

pub sched_reap_zombies : Sched → Sched
unfolding find_orphan sched_unlink_task
sched_reap_zombies s = on_task reap (find_orphan s s.tasks) s

-- -1 as the result of a system call.
abbrev pub failure : ℕ
failure = 0xffffffffffffffff

-- One round of the loop of `sys_waitpid` of src/arch/syscall.c, for a `stat` that is accessible and for
-- the task that its pointer points to; the result is what it returns, or `none` where the caller is
-- blocked.
pub wait_child : ℕ → Task → Sched → Option ℕ × Sched
unfolding sched_block sched_unlink_task is_zombie
wait_child pid t s = if is_zombie t.state then (some pid, reap t s) else (none, sched_block s)

abbrev pub wait_found : ℕ → Option Task → Sched → Option ℕ × Sched
unfolding wait_child
wait_found pid none s = (some failure, s)
wait_found pid (some t) s = wait_child pid t s

-- The call up to the end of the first round.
pub sys_waitpid : ℕ → Sched → Option ℕ × Sched
unfolding sched_find_task wait_child
sys_waitpid pid s = wait_found pid (sched_find_task pid s.tasks) s

-- `sys_sleep` of src/arch/syscall.c at the tick `now`. Without a current task the source would write
-- through NULL. A number of ticks is below 2 ^ 61, and the sum is taken as one that an int64_t holds.
abbrev pub sleep : ℕ → Task → Task
sleep tick t = record t { wake_tick = some tick; state = sleeping }

pub ticks_to_wait : ℕ → ℕ
ticks_to_wait ms = if ms / 10 == 0 then 1 else ms / 10

pub sleep_until : ℕ → Option ℕ → Sched → Sched
unfolding schedule change
sleep_until tick none s = s
sleep_until tick (some c) s = schedule (record s { tasks = change c (sleep tick) s.tasks })

pub sys_sleep : ℕ → ℕ → Sched → Sched
unfolding sleep_until ticks_to_wait
sys_sleep ms now s = sleep_until (now + ticks_to_wait ms) s.curr s

-- What `mq_send` and `mq_receive` of src/ipc/mq.c do to the first waiting task, whatever its state is.
abbrev pub make_ready : Task → Task
make_ready t = record t { state = ready }

pub wake_waiting : ℕ → Sched → Sched
unfolding change
wake_waiting pid s = record s { tasks = change pid make_ready s.tasks }

-- What an event, of src/gui/window.c or the main loop, does to the task that it is for; whether this
-- has a queue of events is the argument. The code of window.c does this for a positive pid only.
pub notify : Bool → Task → Task
unfolding is_gone is_sleeping is_waiting
notify has_queue t =
    if not (is_gone t.state) && has_queue
    then if is_sleeping t.state || is_waiting t.state then make_ready t else t
    else t

pub push_event : Bool → ℕ → Sched → Sched
unfolding change notify
push_event has_queue pid s = record s { tasks = change pid (notify has_queue) s.tasks }

-- `spawn_elf_app` of src/main.c, where memory for the task is to be had. The argument says whether the
-- program is loaded and there is memory for its stacks; otherwise the new task is destroyed.
pub spawn_elf_app : Bool → List (Option ℕ) → Sched → Sched
unfolding sched_new_task sched_register_task
spawn_elf_app loaded stdio s =
    let (t, made) = sched_new_task stdio s in
    if loaded
    then sched_register_task t made
    else record made { log = made.log ++ destroy_task t.pid ∷ [] }

abbrev pub kernel_task : Task
kernel_task = record {
  pid = 0;
  state = ready;
  parent = none;
  ret_val = 0;
  win = none;
  pending = λ i. false;
  wake_tick = none;
  fd_tbl = replicate max_open_files none;
}

-- The kernel's task alone.
unfoldable pub sched_init : Sched
sched_init = record { tasks = kernel_task ∷ []; curr = some 0; next_pid = 1; log = [] }

-- ===== src/Sched/Ends.antt =====
-- What the end of the current task changes, task by task.
use nyan_os.Base.{
  ℕ, ◌≡◌, ◌≢◌, refl, sym, ap, ap₂, ◌∙◌, true, false, Option, none, some, List, [], ◌∷◌, ◌++◌, map,
  arith, Bool, not, ◌&&◌, replicate, ◌==◌, if◌then◌else◌, Bool-cases, inl, inr,
}
use nyan_os.Sched.{
  Effect, close_file, close_window, TaskState, ready, waiting, dead, zombie, sleeping, closed_files,
  is_gone, Task, Sched, sched_find_task, at, change, wake, clean, closed, adopt, has_parent,
  sched_reparent_children, next_after_exit, end_task, become_zombie, parent_of, wake_parent,
  head_pid, exit_task, curr_task, sched_exit,
}
use nyan_os.Sched.Find.{index-find, find-map-some}
use nyan_os.Sched.Inv.{Inv}
use nyan_os.Sched.Leave.{new_head_same, clean-Inv, reparent-Inv}

-- A child of the task `e` goes to the kernel's task.
abbrev pub heir : ℕ → Task → Task
heir e q = if has_parent e q then record q { parent = some 0 } else q

abbrev pub woken : Option ℕ → Task → Task
woken none q = q
woken (some p) q = at p wake q

-- What `left_by` and `closes` say of an exit stands on the data alone.
unfoldable pub is_pid : ℕ → Option ℕ → Bool
is_pid p none = false
is_pid p (some q) = q == p

unfoldable pub may_wake : TaskState → Bool
may_wake ready = true
may_wake waiting = true
may_wake dead = false
may_wake zombie = false
may_wake sleeping = true

-- The parent after the exit of the task `e`.
unfoldable pub heir_of : ℕ → Option ℕ → Option ℕ
unfolding is_pid
heir_of e o = if is_pid e o then some 0 else o

-- A task after the exit of the task `e`, whose parent is `o` then.
unfoldable pub left_with : ℕ → ℕ → Option ℕ → Task → Task
unfolding heir_of is_pid may_wake
left_with code e o q = record {
  pid = q.pid;
  state =
      if q.pid == e then zombie else if is_pid q.pid o && may_wake q.state then ready else q.state;
  parent = heir_of e q.parent;
  ret_val = if q.pid == e then code else q.ret_val;
  win = if q.pid == e then none else q.win;
  pending = q.pending;
  wake_tick = q.wake_tick;
  fd_tbl = if q.pid == e then replicate 16 none else q.fd_tbl;
}

-- A task after the exit of the task `t`.
unfoldable pub left_by : ℕ → Task → Task → Task
unfolding left_with heir_of
left_by code t q = left_with code t.pid (heir_of t.pid t.parent) q

unfoldable pub closes_window : ℕ → Option ℕ → List Effect
closes_window pid none = []
closes_window pid (some owner) = if owner == pid then close_window pid ∷ [] else []

unfoldable pub closes_files : List (Option ℕ) → List Effect
closes_files [] = []
closes_files (none ∷ fs) = closes_files fs
closes_files (some h ∷ fs) = close_file h ∷ closes_files fs

-- What the exit of the task `t` asks of other parts.
unfoldable pub closes : Task → List Effect
unfolding closes_window closes_files
closes t = closes_window t.pid t.win ++ closes_files t.fd_tbl

closed_files-closes_files : (fs : List (Option ℕ)) → closed_files fs ≡ closes_files fs
unfolding closed_files closes_files
closed_files-closes_files [] = refl
closed_files-closes_files (none ∷ fs) = closed_files-closes_files fs
closed_files-closes_files (some h ∷ fs) =
    ap (λ es. close_file h ∷ es) (closed_files-closes_files fs)

closed-closes : (t : Task) → closed t ≡ closes t
unfolding closed closes closes_window
closed-closes t = ap₂ (λ a b. a ++ b) (owned t.win) (closed_files-closes_files t.fd_tbl)
  where
    owned :
        (o : Option ℕ)
        → (if (elim o as (λ _. Bool) [ none ↦ false | some owner ↦ owner == t.pid ])
            then close_window t.pid ∷ []
            else [])
          ≡ closes_window t.pid o
    owned none = refl
    owned (some owner) = refl

is_pid-has_parent : (e : ℕ) (q : Task) → has_parent e q ≡ is_pid e q.parent
unfolding is_pid
is_pid-has_parent e q = is q.parent
  where
    is : (o : Option ℕ) → (elim o as (λ _. Bool) [ none ↦ false | some p ↦ p == e ]) ≡ is_pid e o
    is none = refl
    is (some p) = refl

may_wake_lem : (q : TaskState) → is_gone q ≡ not (may_wake q)
unfolding is_gone may_wake
may_wake_lem ready = refl
may_wake_lem waiting = refl
may_wake_lem dead = refl
may_wake_lem zombie = refl
may_wake_lem sleeping = refl

heir-heir_of : (e : ℕ) (q : Task) → (heir e q).parent ≡ heir_of e q.parent
unfolding heir_of
heir-heir_of e q = elim (Bool-cases (is_pid e q.parent)) [
  | inl child ↦ rw (is_pid-has_parent e q, child) refl
  | inr other ↦ rw (is_pid-has_parent e q, other) refl
]

-- Before the parent is woken.
before_wake :
    (code e : ℕ) (q : Task)
    → (if q.pid == e then become_zombie code (heir e (clean q)) else heir e q)
      ≡ left_with code e none q
unfolding clean left_with heir_of is_pid
before_wake code e q = elim (Bool-cases (q.pid == e)) [
  | inl this ↦ elim (Bool-cases (is_pid e q.parent)) [
    | inl child ↦ rw (is_pid-has_parent e q, this, child) refl
    | inr other ↦ rw (is_pid-has_parent e q, this, other) refl
  ]
  | inr that ↦ elim (Bool-cases (is_pid e q.parent)) [
    | inl child ↦ rw (is_pid-has_parent e q, that, child) refl
    | inr other ↦ rw (is_pid-has_parent e q, that, other) refl
  ]
]

woken-left_with :
    (code e : ℕ) (o : Option ℕ) (q : Task)
    → woken o (left_with code e none q) ≡ left_with code e o q
unfolding left_with is_pid is_gone
woken-left_with code e none q = refl
woken-left_with code e (some p) q = elim (Bool-cases (q.pid == e)) [
  | inl this ↦ elim (Bool-cases (q.pid == p)) [
    | inl parent ↦ rw (this, parent) refl
    | inr other ↦ rw (this, other) refl
  ]
  | inr that ↦ elim (Bool-cases (q.pid == p)) [
    | inl parent ↦
        let flip : (p == q.pid) ≡ true = ground arith in
        elim (Bool-cases (may_wake q.state)) [
          | inl stays ↦ rw (that, parent, flip, may_wake_lem q.state, stays) refl
          | inr goes ↦ rw (that, parent, flip, may_wake_lem q.state, goes) refl
        ]
    | inr other ↦ let flip : (p == q.pid) ≡ false = ground arith in rw (that, other, flip) refl
  ]
]

left_by_lem :
    (code : ℕ) (t q : Task)
    → woken
        (heir t.pid t).parent
        (if q.pid == t.pid then become_zombie code (heir t.pid (clean q)) else heir t.pid q)
      ≡ left_by code t q
unfolding left_by
left_by_lem code t q =
    ap₂ woken (heir-heir_of t.pid t) (before_wake code t.pid q)
    ∙ woken-left_with code t.pid (heir_of t.pid t.parent) q

map-map : (f g : Task → Task) (ts : List Task) → map f (map g ts) ≡ map (λ t. f (g t)) ts
map-map f g [] = refl
map-map f g (t ∷ ts) = ap (λ us. f (g t) ∷ us) (map-map f g ts)

map-ext : (f g : Task → Task) → ((t : Task) → f t ≡ g t) → (ts : List Task) → map f ts ≡ map g ts
map-ext f g h [] = refl
map-ext f g h (t ∷ ts) = ap (λ u. u ∷ map f ts) (h t) ∙ ap (λ us. g t ∷ us) (map-ext f g h ts)

map_same : (ts : List Task) → ts ≡ map (λ t. t) ts
map_same [] = refl
map_same (t ∷ ts) = ap (λ us. t ∷ us) (map_same ts)

wake_parent-map : (o : Option ℕ) (ts : List Task) → wake_parent o ts ≡ map (woken o) ts
unfolding wake_parent change
wake_parent-map none ts = map_same ts
wake_parent-map (some p) ts = refl

-- A task that exits has no window any more when its children are looked at.
reparent-heir :
    (t : Task) (ts : List Task)
    → head_pid ts ≡ some 0
    → sched_reparent_children (clean t) ts ≡ map (heir t.pid) ts
unfolding sched_reparent_children clean adopt
reparent-heir t ts h = rw h refl

-- The steps of an exit on one task.
one_task :
    (code : ℕ) (t q : Task) (o : Option ℕ)
    → woken o (at t.pid (become_zombie code) (heir t.pid (at t.pid clean q)))
      ≡ woken o (if q.pid == t.pid then become_zombie code (heir t.pid (clean q)) else heir t.pid q)
unfolding clean
one_task code t q o = ap (woken o) (elim (Bool-cases (q.pid == t.pid)) [
  | inl this ↦ elim (Bool-cases (has_parent t.pid q)) [
    | inl child ↦ rw (this, child, this) refl
    | inr other ↦ rw (this, other, this) refl
  ]
  | inr that ↦ elim (Bool-cases (has_parent t.pid q)) [
    | inl child ↦ rw (that, child, that) refl
    | inr other ↦ rw (that, other, that) refl
  ]
])

module _ (code : ℕ) (t : Task) (s : Sched) (v : Inv s) (ne : t.pid ≢ 0) where
  abbrev cleaned : List Task
  unfolding change clean
  cleaned = change t.pid clean s.tasks

  abbrev left : List Task
  unfolding sched_reparent_children clean
  left = sched_reparent_children (clean t) cleaned

  left-map : left ≡ map (λ q. heir t.pid (at t.pid clean q)) s.tasks
  unfolding left cleaned change
  left-map =
      reparent-heir t (change t.pid clean s.tasks) (clean-Inv s t.pid v).head_kernel
      ∙ map-map (heir t.pid) (at t.pid clean) s.tasks

  left-head : head_pid left ≡ some 0
  unfolding left cleaned
  left-head =
      (reparent-Inv (record s { tasks = change t.pid clean s.tasks }) (clean t)
        (clean-Inv s t.pid v) ne).0.head_kernel

  heir-pid : (q : Task) → (heir t.pid (at t.pid clean q)).pid ≡ q.pid
  unfolding clean
  heir-pid q = ground arith

  heir-parent : (heir t.pid (at t.pid clean t)).parent ≡ (heir t.pid t).parent
  unfolding clean
  heir-parent =
      let self : (t.pid == t.pid) ≡ true = ground arith in
      elim (Bool-cases (has_parent t.pid t)) [
        | inl child ↦ rw (self, child) refl
        | inr other ↦ rw (self, other) refl
      ]

  end_task-map :
      sched_find_task t.pid s.tasks ≡ some t
      → end_task code t.pid left ≡ map (left_by code t) s.tasks
  unfolding end_task change parent_of
  end_task-map f =
      let o = (heir t.pid t).parent in
      let found : sched_find_task t.pid left ≡ some (heir t.pid (at t.pid clean t)) =
        ap (sched_find_task t.pid) left-map
        ∙ find-map-some (λ q. heir t.pid (at t.pid clean q)) heir-pid t.pid s.tasks t f in
      let p : parent_of (sched_find_task t.pid left) ≡ o = ap parent_of found ∙ heir-parent in
      ap (λ x. wake_parent x (map (at t.pid (become_zombie code)) left)) p
      ∙ wake_parent-map o (map (at t.pid (become_zombie code)) left)
      ∙ ap (λ us. map (woken o) (map (at t.pid (become_zombie code)) us)) left-map
      ∙ ap (map (woken o))
          (map-map (at t.pid (become_zombie code)) (λ q. heir t.pid (at t.pid clean q)) s.tasks)
      ∙ map-map (woken o) (λ q. at t.pid (become_zombie code) (heir t.pid (at t.pid clean q)))
          s.tasks
      ∙ map-ext _ (left_by code t) (λ q. one_task code t q o ∙ left_by_lem code t q) s.tasks

  exit_task-left_by :
      sched_find_task t.pid s.tasks ≡ some t
      → ((exit_task code t s).tasks ≡ map (left_by code t) s.tasks)
        × ((exit_task code t s).log ≡ s.log ++ closes t)
  unfolding exit_task left cleaned
  exit_task-left_by f =
      let user : (t.pid == 0) ≡ false = ground arith in
      rw user (
        ap (end_task code t.pid)
              (new_head_same t.pid (next_after_exit t.pid left) left left-head ne)
            ∙ end_task-map f,
        ap (λ es. s.log ++ es) (closed-closes t),
      )

-- When the current task ends, and it is not the kernel's: it is a zombie with the code, without window
-- and files; its children have the kernel's task for a parent; its parent, if not gone, is ready; no
-- other task changes, and nothing else of these. Its window, if it owns it, and its files are closed.
pub sched_exit-left_by :
    (code : ℕ) (t : Task) (s : Sched)
    → Inv s
    → curr_task s ≡ some t
    → t.pid ≢ 0
    → ((sched_exit code s).tasks ≡ map (left_by code t) s.tasks)
      × ((sched_exit code s).log ≡ s.log ++ closes t)
unfolding sched_exit curr_task
sched_exit-left_by code t s v is ne =
    let found : sched_find_task v.now s.tasks ≡ some t =
      sym (
        ap (λ o. elim o as (λ _. Option Task) [ none ↦ none | some c ↦ sched_find_task c s.tasks ])
          v.now_lem.0)
      ∙ is in
    let mine = (index-find v.now s.tasks t found).1 in
    rw is (exit_task-left_by code t s v ne (ap (λ x. sched_find_task x s.tasks) mine ∙ found))

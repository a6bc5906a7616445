-- ===== src/Sched/Leave.antt =====
-- A task becomes a zombie only after another one is current.
use nyan_os.Sched.Reparent.{adopt-pid, NoChild, adopted-NoChild, adopted-Inv}
use nyan_os.Base.{
  ℕ, suc, ◌<◌, ◌≡◌, ◌≢◌, refl, sym, ap, ◌∙◌, false, Option, none, some, List, [], ◌∷◌, ◌++◌, map,
  arith, ◌==◌, if_ind, length, take, drop, Bool-cases, Option-cases, inl, inr, length-drop,
  length-take,
}
use nyan_os.Sched.{
  Task, Sched, Effect, sched_find_task, index, head_pid, at, change, wake, first_ready, or_head,
  clean, closed, adopt_child, owns_window, sched_reparent_children, next_after_exit, new_head,
  end_task, become_zombie, parent_of, wake_parent, exit_task,
}
use nyan_os.Sched.Find.{
  pids, Distinct, index_ext, length_ext, Among, Among-append, Among-index, first_ready-Among,
  index-find, pids-map, index-drop, index-take,
}
use nyan_os.Sched.Inv.{Inv, Inv-log, Keeps, map-Inv}
use nyan_os.Sched.Steps.{
  change-Inv, wake-pid, wake-parent, wake-stays, Runnable, or_head-Runnable, Runnable-Inv,
}

-- The task that is current after an exit is another one.
not_itself :
    (e : ℕ) (ts : List Task) (n : Task)
    → Distinct ts
    → index e ts < length ts
    → Among n (drop (suc (index e ts)) ts ++ take (index e ts) ts)
    → n.pid ≢ e
not_itself e ts n d h m q =
    let place : index n.pid ts ≡ index e ts = ap (λ y. index y ts) q in
    elim (Among-append n (drop (suc (index e ts)) ts) (take (index e ts) ts) m) [
      | inl behind ↦ ground (
        arith,
        Among-index n (drop (suc (index e ts)) ts) behind,
        index-drop n.pid (suc (index e ts)) ts d,
        length-drop (suc (index e ts)) ts,
        place,
      )
      | inr before ↦ ground (
        arith,
        Among-index n (take (index e ts) ts) before,
        index-take n.pid (index e ts) ts,
        length-take (index e ts) ts,
        place,
      )
    ]

next_after_exit-ne :
    (s : Sched) (e : ℕ)
    → Inv s
    → e ≢ 0
    → index e s.tasks < length s.tasks
    → next_after_exit e s.tasks ≢ some e
unfolding next_after_exit or_head
next_after_exit-ne s e v ne h is =
    elim (Option-cases
      (first_ready (drop (suc (index e s.tasks)) s.tasks ++ take (index e s.tasks) s.tasks))) [
        | inl nobody ↦
            let z : some 0 ≡ some e = sym v.head_kernel ∙ (rw nobody at is) in absurd (ground arith)
        | inr (n, f) ↦
            let z : some n.pid ≡ some e = rw f at is in
            let m =
              first_ready-Among
                (drop (suc (index e s.tasks)) s.tasks ++ take (index e s.tasks) s.tasks) n f in
            absurd (not_itself e s.tasks n v.distinct h m.0 (ground arith))
      ]

-- A task that is not current, not the kernel's and without children may become a zombie.
zombie-Keeps :
    (s : Sched) (e code : ℕ)
    → Inv s
    → e ≢ 0
    → s.curr ≢ some e
    → NoChild e s.tasks
    → Keeps s (at e (become_zombie code))
zombie-Keeps s e code v ne other no_child = record {
  same_pid = λ t. ground arith;
  same_parent = λ t. ground arith;
  stays = λ x q f g why. elim (Bool-cases (q.pid == e)) [
    | inl same ↦
        let xe : x ≡ e = sym (index-find x s.tasks q f).1 ∙ (ground arith) in
        absurd (elim why [
          | inl curr ↦ other (curr ∙ ap (λ y. some y) xe)
          | inr (inl z) ↦ ne (sym xe ∙ z)
          | inr (inr (y, c, found, is)) ↦ no_child y c found (is ∙ ap (λ y. some y) xe)
        ])
    | inr not_it ↦ rw not_it g
  ];
}

wake_parent-Inv :
    (s : Sched) (o : Option ℕ) → Inv s → Inv (record s { tasks = wake_parent o s.tasks })
unfolding wake_parent
wake_parent-Inv s none v = v
wake_parent-Inv s (some p) v = change-Inv s p wake v wake-pid wake-parent wake-stays

pub end_task-Inv :
    (s : Sched) (code e : ℕ)
    → Inv s
    → e ≢ 0
    → s.curr ≢ some e
    → NoChild e s.tasks
    → Inv (record s { tasks = end_task code e s.tasks })
unfolding end_task change
end_task-Inv s code e v ne other no_child =
    wake_parent-Inv (record s { tasks = map (at e (become_zombie code)) s.tasks })
      (parent_of (sched_find_task e s.tasks))
      (map-Inv s (at e (become_zombie code)) v (zombie-Keeps s e code v ne other no_child))

pub new_head_same :
    (e : ℕ) (o : Option ℕ) (ts : List Task) → head_pid ts ≡ some 0 → e ≢ 0 → new_head e o ts ≡ ts
unfolding new_head head_pid index
new_head_same e none ts h ne = refl
new_head_same e (some n) [] h ne = absurd (ground arith)
new_head_same e (some n) (t ∷ ts) h ne =
    let z : t.pid ≡ 0 = ground arith in
    let first : (t.pid == e) ≡ false = ground arith in ground arith

-- The task `t` is in the list, and is not the kernel's.
record Leaves (s : Sched) (t : Task) : Type 0 where
  found : sched_find_task t.pid s.tasks ≡ some t
  not_kernel : t.pid ≢ 0

pub clean-Inv : (s : Sched) (pid : ℕ) → Inv s → Inv (record s { tasks = change pid clean s.tasks })
unfolding clean
clean-Inv s pid v = change-Inv s pid clean v (λ t. refl) (λ t. refl) (λ t g. g)

-- The children of a task that leaves.
pub reparent-Inv :
    (s : Sched) (t : Task)
    → Inv s
    → t.pid ≢ 0
    → Inv (record s { tasks = sched_reparent_children t s.tasks })
      × NoChild t.pid (sched_reparent_children t s.tasks)
unfolding sched_reparent_children
reparent-Inv s t v ne =
    rw v.head_kernel
      (adopted-Inv s v t.pid (owns_window t) ne, adopted-NoChild s v t.pid (owns_window t) ne)

pids-reparent : (t : Task) (ts : List Task) → pids (sched_reparent_children t ts) ≡ pids ts
unfolding sched_reparent_children
pids-reparent t ts =
    pids-map (adopt_child t.pid (head_pid ts) (owns_window t))
      (λ u. ground (arith, adopt-pid (head_pid ts) (owns_window t) u)) ts

pids-clean : (pid : ℕ) (ts : List Task) → pids (change pid clean ts) ≡ pids ts
unfolding change clean
pids-clean pid ts = pids-map (at pid clean) (λ u. ground arith) ts

-- With another current task, the task that exits becomes a zombie.
leave-Inv :
    (s : Sched) (code e : ℕ) (log : List Effect)
    → Inv s
    → e ≢ 0
    → NoChild e s.tasks
    → index e s.tasks < length s.tasks
    → Inv (record s {
      tasks = end_task code e (new_head e (next_after_exit e s.tasks) s.tasks);
      curr = next_after_exit e s.tasks;
      log = log;
    })
leave-Inv s code e log v ne no_child h =
    let next = next_after_exit e s.tasks in
    let runnable : Runnable s.tasks next =
      unfold next_after_exit in or_head-Runnable s (suc (index e s.tasks)) (index e s.tasks) v in
    let v2 = Runnable-Inv s next v runnable in
    let v3 =
      end_task-Inv (record s { curr = next }) code e v2 ne (next_after_exit-ne s e v ne h)
        no_child in
    rw (new_head_same e next s.tasks v.head_kernel ne) (Inv-log _ _ v3 refl refl refl)

pub exit_task-Inv :
    (s : Sched) (code : ℕ) (t : Task)
    → Inv s
    → sched_find_task t.pid s.tasks ≡ some t
    → Inv (exit_task code t s)
unfolding exit_task
exit_task-Inv s code t v f =
    if_ind Inv (t.pid == 0) _ _ (λ kernel. v)
      λ user.
        let ne : t.pid ≢ 0 = λ z. absurd (ground arith) in
        let v1 = clean-Inv s t.pid v in
        let cleaned = record s { tasks = change t.pid clean s.tasks } in
        let r = reparent-Inv cleaned (clean t) v1 ne in
        let same = pids-reparent (clean t) cleaned.tasks ∙ pids-clean t.pid s.tasks in
        leave-Inv (record s { tasks = sched_reparent_children (clean t) cleaned.tasks }) code t.pid
          (s.log ++ closed t) r.0 ne r.1
          (omega (
            arith,
            (index-find t.pid s.tasks t f).0,
            index_ext t.pid (sched_reparent_children (clean t) cleaned.tasks) s.tasks same,
            length_ext (sched_reparent_children (clean t) cleaned.tasks) s.tasks same,
          ))

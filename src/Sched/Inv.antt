-- ===== src/Sched/Inv.antt =====
-- The invariant of the task list, and that a change of single tasks, a switch and an unlinking keep it.
use nyan_os.Base.{
  ℕ, ◌<◌, ◌≡◌, ◌≢◌, ◌⊎◌, refl, sym, ap, ◌∙◌, true, false, none, some, List, [], ◌∷◌, map, arith,
  ◌==◌, if◌then◌else◌, length, Bool-cases, inl, inr,
}
use nyan_os.Sched.{
  Task, Sched, sched_find_task, index, head_pid, is_gone, sched_init, kernel_task,
  sched_unlink_task,
}
use nyan_os.Sched.Find.{Distinct, Distinct-ext, pids-map, find-map-some, find-map_inv}

-- No pid stands twice; the head is the kernel's task; the current task, the kernel's and every parent
-- stand in the list and are not gone, so that no pointer to a task dangles.
pub record Inv (s : Sched) : Type 0 where
  pub distinct : Distinct s.tasks
  pub below : (x : ℕ) (q : Task) → sched_find_task x s.tasks ≡ some q → x < s.next_pid
  pub head_kernel : head_pid s.tasks ≡ some 0
  pub kernel : Task
  pub kernel_stays : (sched_find_task 0 s.tasks ≡ some kernel) × (is_gone kernel.state ≡ false)
  pub now : ℕ
  pub now_task : Task
  pub now_lem :
      (s.curr ≡ some now)
      × (sched_find_task now s.tasks ≡ some now_task)
      × (is_gone now_task.state ≡ false)
  pub parents :
      (x p : ℕ) (q : Task)
      → sched_find_task x s.tasks ≡ some q
      → q.parent ≡ some p
      → (r : Task) × (sched_find_task p s.tasks ≡ some r) × (is_gone r.state ≡ false)

-- Parts that no part of the invariant reads may change.
pub Inv-log :
    (s u : Sched) → Inv s → u.tasks ≡ s.tasks → u.curr ≡ s.curr → u.next_pid ≡ s.next_pid → Inv u
Inv-log s u v et ec en = record {
  distinct = rw et v.distinct;
  below = rw (et, en) v.below;
  head_kernel = rw et v.head_kernel;
  kernel = v.kernel;
  kernel_stays = rw et v.kernel_stays;
  now = v.now;
  now_task = v.now_task;
  now_lem = rw (et, ec) v.now_lem;
  parents = rw et v.parents;
}

-- Another current task, that is in the list and not gone.
pub Inv-switch :
    (s : Sched) (n : ℕ) (q : Task)
    → Inv s
    → sched_find_task n s.tasks ≡ some q
    → is_gone q.state ≡ false
    → Inv (record s { curr = some n })
Inv-switch s n q v e g = record {
  distinct = v.distinct;
  below = v.below;
  head_kernel = v.head_kernel;
  kernel = v.kernel;
  kernel_stays = v.kernel_stays;
  now = n;
  now_task = q;
  now_lem = (refl, e, g);
  parents = v.parents;
}

-- A change of tasks that keeps pids and parents, and that lets nobody go but tasks that are not
-- current, not the kernel's and nobody's parent.
pub record Keeps (s : Sched) (f : Task → Task) : Type 0 where
  pub same_pid : (t : Task) → (f t).pid ≡ t.pid
  pub same_parent : (t : Task) → (f t).parent ≡ t.parent
  pub stays :
      (x : ℕ) (q : Task)
      → sched_find_task x s.tasks ≡ some q
      → is_gone q.state ≡ false
      → (s.curr ≡ some x)
        ⊎ (x ≡ 0)
        ⊎ ((y : ℕ) × (c : Task) × (sched_find_task y s.tasks ≡ some c) × (c.parent ≡ some x))
      → is_gone (f q).state ≡ false

pub head-map :
    (f : Task → Task) (ts : List Task)
    → ((t : Task) → (f t).pid ≡ t.pid)
    → head_pid (map f ts) ≡ head_pid ts
unfolding head_pid
head-map f [] k = refl
head-map f (t ∷ ts) k = ap (λ p. some p) (k t)

pub map-Inv :
    (s : Sched) (f : Task → Task) → Inv s → Keeps s f → Inv (record s { tasks = map f s.tasks })
map-Inv s f v k = record {
  distinct = Distinct-ext s.tasks (map f s.tasks) (sym (pids-map f k.same_pid s.tasks)) v.distinct;
  below = λ x q e. let o = find-map_inv f k.same_pid x s.tasks q e in v.below x o.0 o.1;
  head_kernel = head-map f s.tasks k.same_pid ∙ v.head_kernel;
  kernel = f v.kernel;
  kernel_stays = (
    find-map-some f k.same_pid 0 s.tasks v.kernel v.kernel_stays.0,
    k.stays 0 v.kernel v.kernel_stays.0 v.kernel_stays.1 (inr (inl refl)),
  );
  now = v.now;
  now_task = f v.now_task;
  now_lem = (
    v.now_lem.0,
    find-map-some f k.same_pid v.now s.tasks v.now_task v.now_lem.1,
    k.stays v.now v.now_task v.now_lem.1 v.now_lem.2 (inl v.now_lem.0),
  );
  parents = λ x p q e ep.
      let o = find-map_inv f k.same_pid x s.tasks q e in
      let op : (o.0).parent ≡ some p =
        sym (k.same_parent o.0) ∙ ap (λ t. t.parent) (sym o.2) ∙ ep in
      let r = v.parents x p o.0 o.1 op in
      (
        f r.0,
        find-map-some f k.same_pid p s.tasks r.0 r.1,
        k.stays p r.0 r.1 r.2 (inr (inr (x, o.0, o.1, op))),
      );
}

-- The case of a change that lets nobody go.
pub map-Inv_all :
    (s : Sched) (f : Task → Task)
    → Inv s
    → ((t : Task) → (f t).pid ≡ t.pid)
    → ((t : Task) → (f t).parent ≡ t.parent)
    → ((t : Task) → is_gone t.state ≡ false → is_gone (f t).state ≡ false)
    → Inv (record s { tasks = map f s.tasks })
map-Inv_all s f v sp spa st =
    map-Inv s f v (record { same_pid = sp; same_parent = spa; stays = λ x q e g r. st q g })

only_kernel :
    (x : ℕ) (q : Task) → sched_find_task x sched_init.tasks ≡ some q → (x ≡ 0) × (q.parent ≡ none)
unfolding sched_init sched_find_task
only_kernel x q e = elim (Bool-cases (0 == x)) [
  | inl z ↦ let k : kernel_task ≡ q = ground arith in (ground arith, ap (λ t. t.parent) (sym k))
  | inr other ↦ absurd (ground arith)
]

pub sched_init-Inv : Inv sched_init
unfolding sched_init sched_find_task index head_pid is_gone
sched_init-Inv = record {
  distinct = (refl, tt);
  below = λ x q e. let k = (only_kernel x q e).0 in omega arith;
  head_kernel = refl;
  kernel = kernel_task;
  kernel_stays = (refl, refl);
  now = 0;
  now_task = kernel_task;
  now_lem = (refl, refl, refl);
  parents = λ x p q e ep. absurd (ground (arith, only_kernel x q e));
}

index-unlink_absent :
    (y p : ℕ) (ts : List Task)
    → index y ts ≡ length ts
    → index y (sched_unlink_task p ts) ≡ length (sched_unlink_task p ts)
unfolding index sched_unlink_task
index-unlink_absent y p [] h = refl
index-unlink_absent y p (t ∷ ts) h = ground (arith, index-unlink_absent y p ts)

Distinct-unlink : (p : ℕ) (ts : List Task) → Distinct ts → Distinct (sched_unlink_task p ts)
unfolding sched_unlink_task
Distinct-unlink p [] d = tt
Distinct-unlink p (t ∷ ts) d = elim (Bool-cases (t.pid == p)) [
  | inl here ↦ rw here d.1
  | inr more ↦ rw more (index-unlink_absent t.pid p ts d.0, Distinct-unlink p ts d.1)
]

absent-find : (x : ℕ) (ts : List Task) → index x ts ≡ length ts → sched_find_task x ts ≡ none
unfolding index sched_find_task
absent-find x [] h = refl
absent-find x (t ∷ ts) h = ground (arith, absent-find x ts)

pub find-unlink :
    (x p : ℕ) (ts : List Task)
    → Distinct ts
    → sched_find_task x (sched_unlink_task p ts) ≡ (if x == p then none else sched_find_task x ts)
unfolding sched_find_task sched_unlink_task
find-unlink x p [] d = ground arith
find-unlink x p (t ∷ ts) d = elim (Bool-cases (t.pid == p)) [
  | inl here ↦
      let q : t.pid ≡ p = ground arith in
      rw here (ground (arith, absent-find p ts (ap (λ y. index y ts) (sym q) ∙ d.0)))
  | inr more ↦ ground (arith, find-unlink x p ts d.1)
]

head-unlink :
    (p : ℕ) (ts : List Task)
    → p ≢ 0
    → head_pid ts ≡ some 0
    → head_pid (sched_unlink_task p ts) ≡ some 0
unfolding head_pid sched_unlink_task
head-unlink p [] ne e = e
head-unlink p (t ∷ ts) ne e = ground arith

unlinked :
    (s : Sched) (p x : ℕ) (q : Task)
    → Inv s
    → sched_find_task x (sched_unlink_task p s.tasks) ≡ some q
    → sched_find_task x s.tasks ≡ some q
unlinked s p x q v f = ground (arith, find-unlink x p s.tasks v.distinct)

unlink-kept :
    (s : Sched) (p : ℕ) (t : Task) (x : ℕ) (q : Task)
    → Inv s
    → sched_find_task p s.tasks ≡ some t
    → is_gone t.state ≡ true
    → sched_find_task x s.tasks ≡ some q
    → is_gone q.state ≡ false
    → sched_find_task x (sched_unlink_task p s.tasks) ≡ some q
unlink-kept s p t x q v e g f st = elim (Bool-cases (x == p)) [
  | inl same ↦
      let xp : x ≡ p = ground arith in
      let eq : some t ≡ some q = sym e ∙ ap (λ y. sched_find_task y s.tasks) (sym xp) ∙ f in
      absurd (ground arith)
  | inr other ↦ find-unlink x p s.tasks v.distinct ∙ rw other f
]

pub not_kernel :
    (s : Sched) (p : ℕ) (t : Task)
    → Inv s
    → sched_find_task p s.tasks ≡ some t
    → is_gone t.state ≡ true
    → p ≢ 0
not_kernel s p t v e g z =
    let eq : some t ≡ some v.kernel =
      sym e ∙ ap (λ y. sched_find_task y s.tasks) z ∙ v.kernel_stays.0 in
    absurd (ground (arith, v.kernel_stays.1))

-- A zombie leaves the list, and no pointer to it stays behind.
pub unlink-Inv :
    (s : Sched) (p : ℕ) (t : Task)
    → Inv s
    → sched_find_task p s.tasks ≡ some t
    → is_gone t.state ≡ true
    → Inv (record s { tasks = sched_unlink_task p s.tasks })
unlink-Inv s p t v e g =
    let kept =
      λ (x : ℕ) (q : Task) (f : sched_find_task x s.tasks ≡ some q) (st : is_gone q.state ≡ false).
        unlink-kept s p t x q v e g f st in
    record {
      distinct = Distinct-unlink p s.tasks v.distinct;
      below = λ x q f. v.below x q (unlinked s p x q v f);
      head_kernel = head-unlink p s.tasks (not_kernel s p t v e g) v.head_kernel;
      kernel = v.kernel;
      kernel_stays = (kept 0 v.kernel v.kernel_stays.0 v.kernel_stays.1, v.kernel_stays.1);
      now = v.now;
      now_task = v.now_task;
      now_lem = (v.now_lem.0, kept v.now v.now_task v.now_lem.1 v.now_lem.2, v.now_lem.2);
      parents = λ x y q f ep.
          let r = v.parents x y q (unlinked s p x q v f) ep in (r.0, kept y r.0 r.1 r.2, r.2);
    }

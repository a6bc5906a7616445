-- ===== src/Sched/Reparent.antt =====
-- The children of a task that leaves go to the task of the kernel.
use nyan_os.Base.{
  ℕ, ◌≡◌, ◌≢◌, refl, sym, ap, ◌∙◌, Bool, true, false, not, ◌&&◌, Option, some, List, map, arith,
  ◌==◌, if_ind, Bool-cases, inl, inr,
}
use nyan_os.Sched.{Task, Sched, sched_find_task, is_gone, adopt, adopt_child, has_parent}
use nyan_os.Sched.Find.{find-map_inv, find-map-some, pids-map, Distinct-ext}
use nyan_os.Sched.Inv.{Inv, head-map}

pub adopt-pid : (o : Option ℕ) (b : Bool) (t : Task) → (adopt o b t).pid ≡ t.pid
unfolding adopt
adopt-pid o b t = ground arith

adopt-parent : (o : Option ℕ) (b : Bool) (t : Task) → (adopt o b t).parent ≡ o
unfolding adopt
adopt-parent o b t = ground arith

adopt-stays :
    (o : Option ℕ) (b : Bool) (t : Task)
    → is_gone t.state ≡ false
    → is_gone (adopt o b t).state ≡ false
unfolding adopt is_gone
adopt-stays o b t g =
    if_ind (λ (u : Task). is_gone u.state ≡ false) (b && not (t.pid == 0) && not (is_gone t.state))
      _ _ (λ h. refl) (λ h. g)

-- After the reparenting nobody has the task `e` for a parent.
abbrev pub NoChild : ℕ → List Task → Type 0
NoChild e ts = (x : ℕ) (q : Task) → sched_find_task x ts ≡ some q → q.parent ≢ some e

module _ (s : Sched) (v : Inv s) (e : ℕ) (owner : Bool) (ne : e ≢ 0) where
  abbrev adopted : Task → Task
  adopted = adopt_child e (some 0) owner

  adopted-pid : (t : Task) → (adopted t).pid ≡ t.pid
  adopted-pid t = ground (arith, adopt-pid (some 0) owner t)

  adopted-stays : (t : Task) → is_gone t.state ≡ false → is_gone (adopted t).state ≡ false
  adopted-stays t g = ground (arith, adopt-stays (some 0) owner t)

  adopted-child : (t : Task) → has_parent e t ≡ true → (adopted t).parent ≡ some 0
  adopted-child t h = rw h (adopt-parent (some 0) owner t)

  adopted-other : (t : Task) → has_parent e t ≡ false → adopted t ≡ t
  adopted-other t h = rw h refl

  pub adopted-NoChild : NoChild e (map adopted s.tasks)
  adopted-NoChild x q f is =
      let o = find-map_inv adopted adopted-pid x s.tasks q f in
      elim (Bool-cases (has_parent e o.0)) [
        | inl child ↦
            let z : some e ≡ some 0 = sym is ∙ ap (λ t. t.parent) o.2 ∙ adopted-child o.0 child in
            ground arith
        | inr other ↦
            let z : (o.0).parent ≡ some e =
              ap (λ t. t.parent) (sym (adopted-other o.0 other))
              ∙ ap (λ t. t.parent) (sym o.2)
              ∙ is in
            ground arith
      ]

  pub adopted-Inv : Inv (record s { tasks = map adopted s.tasks })
  adopted-Inv = record {
    distinct =
        Distinct-ext s.tasks (map adopted s.tasks) (sym (pids-map adopted adopted-pid s.tasks))
          v.distinct;
    below = λ x q f. let o = find-map_inv adopted adopted-pid x s.tasks q f in v.below x o.0 o.1;
    head_kernel = head-map adopted s.tasks adopted-pid ∙ v.head_kernel;
    kernel = adopted v.kernel;
    kernel_stays = (
      find-map-some adopted adopted-pid 0 s.tasks v.kernel v.kernel_stays.0,
      adopted-stays v.kernel v.kernel_stays.1,
    );
    now = v.now;
    now_task = adopted v.now_task;
    now_lem = (
      v.now_lem.0,
      find-map-some adopted adopted-pid v.now s.tasks v.now_task v.now_lem.1,
      adopted-stays v.now_task v.now_lem.2,
    );
    parents = λ x p q f ep. parents_stay x p q f ep;
  }
    where
      image :
          (p : ℕ)
          → (r : Task) × (sched_find_task p s.tasks ≡ some r) × (is_gone r.state ≡ false)
          → (r : Task) × (sched_find_task p (map adopted s.tasks) ≡ some r)
            × (is_gone r.state ≡ false)
      image p (r, f, g) =
          (adopted r, find-map-some adopted adopted-pid p s.tasks r f, adopted-stays r g)

      parents_stay :
          (x p : ℕ) (q : Task)
          → sched_find_task x (map adopted s.tasks) ≡ some q
          → q.parent ≡ some p
          → (r : Task) × (sched_find_task p (map adopted s.tasks) ≡ some r)
            × (is_gone r.state ≡ false)
      parents_stay x p q f ep =
          let o = find-map_inv adopted adopted-pid x s.tasks q f in
          elim (Bool-cases (has_parent e o.0)) [
            | inl child ↦
                let z : some 0 ≡ some p =
                  sym (adopted-child o.0 child) ∙ ap (λ t. t.parent) (sym o.2) ∙ ep in
                let z0 : 0 ≡ p = ground arith in
                rw (← z0) (image 0 (v.kernel, v.kernel_stays.0, v.kernel_stays.1))
            | inr other ↦
                let z : (o.0).parent ≡ some p =
                  ap (λ t. t.parent) (sym (adopted-other o.0 other))
                  ∙ ap (λ t. t.parent) (sym o.2)
                  ∙ ep in
                image p (v.parents x p o.0 o.1 z)
          ]

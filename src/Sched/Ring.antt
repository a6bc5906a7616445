-- ===== src/Sched/Ring.antt =====
-- The circular list: how far behind the current task another one stands, and whom `schedule` picks.
use nyan_os.Base.{
  ℕ, zero, suc, ◌+◌, ◌-◌, ◌<◌, ◌≤◌, ◌≡◌, refl, true, false, Option, none, some, List, [], ◌∷◌, ◌++◌,
  arith, ltb, ◌==◌, if◌then◌else◌, length, take, drop, Bool-cases, inl, inr, length-drop,
}
use nyan_os.Sched.{Task, sched_find_task, index, after, rotate, first_ready, is_ready}
use nyan_os.Sched.Find.{index-append, index-take, index-drop, index-le-length, Distinct}

pub index-rotate :
    (x i : ℕ) (ts : List Task)
    → Distinct ts
    → i ≤ length ts
    → index x ts < length ts
    → index x (rotate i ts)
      ≡ (if ltb (index x ts) i then length ts - i + index x ts else index x ts - i)
index-rotate x i ts d h l = ground (
  arith,
  index-append x (drop i ts) (take i ts),
  index-drop x i ts d h,
  index-take x i ts h,
  length-drop i ts,
)

-- How many tasks stand between the task `c` and `x`, going round.
pub index-after :
    (x c : ℕ) (ts : List Task)
    → Distinct ts
    → index c ts < length ts
    → index x ts < length ts
    → index x (after c ts) ≡ (
        if ltb (index c ts) (index x ts)
        then index x ts - index c ts - 1
        else length ts - index c ts - 1 + index x ts)
unfolding after
index-after x c ts d hc hx = ground (arith, index-rotate x (suc (index c ts)) ts d (omega arith) hx)

-- A ready task is picked, or one that stands before it.
pub first_ready-index :
    (t : ℕ) (ts : List Task) (q : Task)
    → sched_find_task t ts ≡ some q
    → is_ready q.state ≡ true
    → (n : Task) × (first_ready ts ≡ some n)
      × (index n.pid ts ≤ index t ts)
      × (is_ready n.state ≡ true)
unfolding first_ready sched_find_task index
first_ready-index t [] q e r = absurd (ground arith)
first_ready-index t (u ∷ ts) q e r = elim (Bool-cases (is_ready u.state)) [
  | inl yes_ready ↦ (u, rw yes_ready refl, ground arith, yes_ready)
  | inr not_ready ↦
      let other : (u.pid == t) ≡ false = ground arith in
      let rest = first_ready-index t ts q (ground arith) r in
      (rest.0, rw not_ready rest.1, ground (arith, rest.2), rest.3)
]

-- How long the task `x` waits at most: the tasks from the successor of the current one up to it.
abbrev pub ahead : Option ℕ → ℕ → List Task → ℕ
ahead none x ts = index x ts
ahead (some c) x ts = index x (after c ts)

index-rotate-absent :
    (x i : ℕ) (ts : List Task)
    → Distinct ts
    → i ≤ length ts
    → index x ts ≡ length ts
    → index x (rotate i ts) ≡ length ts
index-rotate-absent x i ts d h absent = ground (
  arith,
  index-append x (drop i ts) (take i ts),
  index-drop x i ts d h,
  index-take x i ts h,
  length-drop i ts,
)

pub in_after :
    (x c : ℕ) (ts : List Task)
    → Distinct ts
    → index c ts < length ts
    → index x (after c ts) < length ts
    → index x ts < length ts
unfolding after
in_after x c ts d hc hx = elim (Bool-cases (ltb (index x ts) (length ts))) [
  | inl in_list ↦ ground arith
  | inr absent ↦ absurd (
      omega (
        arith,
        index-rotate-absent x (suc (index c ts)) ts d (omega arith)
            (ground (arith, index-le-length x ts)),
      ))
]

find-drop :
    (x i : ℕ) (ts : List Task)
    → i ≤ index x ts
    → sched_find_task x (drop i ts) ≡ sched_find_task x ts
unfolding sched_find_task index
find-drop x zero ts h = refl
find-drop x (suc i) [] h = refl
find-drop x (suc i) (t ∷ ts) h = ground (arith, find-drop x i ts)

find-take :
    (x i : ℕ) (ts : List Task)
    → index x ts < i
    → sched_find_task x (take i ts) ≡ sched_find_task x ts
unfolding sched_find_task index
find-take x zero ts h = absurd (omega arith)
find-take x (suc i) [] h = refl
find-take x (suc i) (t ∷ ts) h = ground (arith, find-take x i ts)

find_of_append :
    (x : ℕ) (ts us : List Task)
    → sched_find_task x (ts ++ us)
      ≡ (if ltb (index x ts) (length ts) then sched_find_task x ts else sched_find_task x us)
unfolding sched_find_task index
find_of_append x [] us = refl
find_of_append x (t ∷ ts) us = ground (arith, find_of_append x ts us)

pub find-rotate :
    (x i : ℕ) (ts : List Task)
    → Distinct ts
    → i ≤ length ts
    → index x ts < length ts
    → sched_find_task x (rotate i ts) ≡ sched_find_task x ts
find-rotate x i ts d h l = ground (
  arith,
  find_of_append x (drop i ts) (take i ts),
  index-drop x i ts d h,
  length-drop i ts,
  find-drop x i ts,
  find-take x i ts,
)

-- ===== src/Sched/Find.antt =====
-- Tasks by their pid, and their places in the list.
use nyan_os.Base.{
  ℕ, zero, suc, ◌+◌, ◌-◌, ◌<◌, ◌≤◌, ◌≡◌, refl, sym, ap, ◌∙◌, true, Option, none, some, List, [],
  ◌∷◌, ◌++◌, map, arith, ltb, ◌==◌, if◌then◌else◌, length, take, drop, Bool-cases, Option-cases,
  ◌⊎◌, inl, inr,
}
use nyan_os.Sched.{Task, sched_find_task, index, first_ready, is_ready}

abbrev pub pids : List Task → List ℕ
pids [] = []
pids (t ∷ ts) = t.pid ∷ pids ts

-- The pids of a list tell where a task stands.
pub index_ext : (x : ℕ) (ts us : List Task) → pids ts ≡ pids us → index x ts ≡ index x us
unfolding index
index_ext x [] [] e = refl
index_ext x [] (u ∷ us) e = absurd (ground arith)
index_ext x (t ∷ ts) [] e = absurd (ground arith)
index_ext x (t ∷ ts) (u ∷ us) e =
    let same : t.pid ≡ u.pid = ground arith in ground (arith, index_ext x ts us)

pub length_ext : (ts us : List Task) → pids ts ≡ pids us → length ts ≡ length us
length_ext [] [] e = refl
length_ext [] (u ∷ us) e = absurd (ground arith)
length_ext (t ∷ ts) [] e = absurd (ground arith)
length_ext (t ∷ ts) (u ∷ us) e = ap suc (length_ext ts us (ground arith))

pub index-le-length : (x : ℕ) (ts : List Task) → index x ts ≤ length ts
unfolding index
index-le-length x [] = omega arith
index-le-length x (t ∷ ts) = ground (arith, index-le-length x ts)

pub index-find :
    (x : ℕ) (ts : List Task) (q : Task)
    → sched_find_task x ts ≡ some q
    → (index x ts < length ts) × (q.pid ≡ x)
unfolding index sched_find_task
index-find x [] q e = absurd (ground arith)
index-find x (t ∷ ts) q e = ground (arith, index-find x ts q)

pub index_injective :
    (x y : ℕ) (ts : List Task) → index x ts ≡ index y ts → index x ts < length ts → x ≡ y
unfolding index
index_injective x y [] e l = absurd (omega arith)
index_injective x y (t ∷ ts) e l = ground (arith, index_injective x y ts)

-- No pid stands twice.
abbrev pub Distinct : List Task → Type 0
Distinct [] = Unit {0}
Distinct (t ∷ ts) = (index t.pid ts ≡ length ts) × Distinct ts

pub Distinct-ext : (ts us : List Task) → pids ts ≡ pids us → Distinct ts → Distinct us
Distinct-ext [] [] e d = tt
Distinct-ext [] (u ∷ us) e d = absurd (ground arith)
Distinct-ext (t ∷ ts) [] e d = absurd (ground arith)
Distinct-ext (t ∷ ts) (u ∷ us) e d =
    let same : t.pid ≡ u.pid = ground arith in
    let rest : pids ts ≡ pids us = ground arith in
    (
      ap (λ p. index p us) (sym same)
          ∙ sym (index_ext t.pid ts us rest)
          ∙ d.0
          ∙ length_ext ts us rest,
      Distinct-ext ts us rest d.1,
    )

pub index-append :
    (x : ℕ) (ts us : List Task)
    → index x (ts ++ us)
      ≡ (if ltb (index x ts) (length ts) then index x ts else length ts + index x us)
unfolding index
index-append x [] us = omega arith
index-append x (t ∷ ts) us = ground (arith, index-append x ts us)

pub index-take :
    (x i : ℕ) (ts : List Task)
    → i ≤ length ts
    → index x (take i ts) ≡ (if ltb (index x ts) i then index x ts else i)
unfolding index
index-take x zero ts h = ground arith
index-take x (suc i) [] h = absurd (omega arith)
index-take x (suc i) (t ∷ ts) h = ground (arith, index-take x i ts)

-- Behind the place `i`: at the place less `i`, or nowhere.
pub index-drop :
    (x i : ℕ) (ts : List Task)
    → Distinct ts
    → i ≤ length ts
    → index x (drop i ts) ≡ (if ltb (index x ts) i then length ts - i else index x ts - i)
unfolding index
index-drop x zero ts d h = ground arith
index-drop x (suc i) [] d h = absurd (omega arith)
index-drop x (suc i) (t ∷ ts) d h = elim (Bool-cases (t.pid == x)) [
  | inl here ↦
      let p : t.pid ≡ x = ground arith in
      let absent : index x ts ≡ length ts = ap (λ y. index y ts) (sym p) ∙ d.0 in
      ground (arith, index-drop x i ts d.1, h)
  | inr not_here ↦ ground (arith, index-drop x i ts d.1, h)
]

module _ (f : Task → Task) (keep : (t : Task) → (f t).pid ≡ t.pid) where
  pub pids-map : (ts : List Task) → pids (map f ts) ≡ pids ts
  pids-map [] = refl
  pids-map (t ∷ ts) = ground (arith, pids-map ts, keep t)

  pub find-map :
      (x : ℕ) (ts : List Task)
      → sched_find_task x (map f ts)
        ≡ (elim (sched_find_task x ts) as (λ _. Option Task) [ none ↦ none | some q ↦ some (f q) ])
  unfolding sched_find_task
  find-map x [] = refl
  find-map x (t ∷ ts) = ground (arith, find-map x ts, keep t)

  pub find-map-some :
      (x : ℕ) (ts : List Task) (q : Task)
      → sched_find_task x ts ≡ some q
      → sched_find_task x (map f ts) ≡ some (f q)
  find-map-some x ts q e = find-map x ts ∙ rw e refl

  -- What stands in the new list comes from the old one.
  pub find-map_inv :
      (x : ℕ) (ts : List Task) (q : Task)
      → sched_find_task x (map f ts) ≡ some q
      → (p : Task) × (sched_find_task x ts ≡ some p) × (q ≡ f p)
  find-map_inv x ts q e = elim (Option-cases (sched_find_task x ts)) [
    | inl absent ↦ absurd (ground (arith, find-map x ts))
    | inr (p, found) ↦ (p, found, ground (arith, find-map-some x ts p found))
  ]

-- `t` stands in the list.
abbrev pub Among : Task → List Task → Type 0
Among t [] = ⊥
Among t (u ∷ us) = (u ≡ t) ⊎ Among t us

pub Among-append : (t : Task) (ts us : List Task) → Among t (ts ++ us) → Among t ts ⊎ Among t us
Among-append t [] us m = inr m
Among-append t (u ∷ ts) us (inl e) = inl (inl e)
Among-append t (u ∷ ts) us (inr m) = elim (Among-append t ts us m) [
  | inl l ↦ inl (inr l)
  | inr r ↦ inr r
]

pub Among-drop : (t : Task) (i : ℕ) (ts : List Task) → Among t (drop i ts) → Among t ts
Among-drop t zero ts m = m
Among-drop t (suc i) [] m = absurd m
Among-drop t (suc i) (u ∷ ts) m = inr (Among-drop t i ts m)

pub Among-take : (t : Task) (i : ℕ) (ts : List Task) → Among t (take i ts) → Among t ts
Among-take t zero ts m = absurd m
Among-take t (suc i) [] m = absurd m
Among-take t (suc i) (u ∷ ts) (inl e) = inl e
Among-take t (suc i) (u ∷ ts) (inr m) = inr (Among-take t i ts m)

pub Among-index : (t : Task) (ts : List Task) → Among t ts → index t.pid ts < length ts
unfolding index
Among-index t [] m = absurd m
Among-index t (u ∷ ts) (inl e) = let q : u.pid ≡ t.pid = ap (λ v. v.pid) e in ground arith
Among-index t (u ∷ ts) (inr m) = ground (arith, Among-index t ts m)

pub Among-find :
    (t : Task) (ts : List Task) → Distinct ts → Among t ts → sched_find_task t.pid ts ≡ some t
unfolding sched_find_task
Among-find t [] d m = absurd m
Among-find t (u ∷ ts) d (inl e) = let q : u.pid ≡ t.pid = ap (λ v. v.pid) e in ground arith
Among-find t (u ∷ ts) d (inr m) = elim (Bool-cases (u.pid == t.pid)) [
  | inl same ↦
      let q : u.pid ≡ t.pid = ground arith in
      absurd (omega (arith, Among-index t ts m, ap (λ y. index y ts) q, d.0))
  | inr other ↦ rw other (Among-find t ts d.1 m)
]

pub first_ready-Among :
    (ts : List Task) (n : Task) → first_ready ts ≡ some n → Among n ts × (is_ready n.state ≡ true)
unfolding first_ready
first_ready-Among [] n e = absurd (ground arith)
first_ready-Among (t ∷ ts) n e = elim (Bool-cases (is_ready t.state)) [
  | inl now ↦ let q : t ≡ n = ground arith in (inl q, ap (λ v. is_ready v.state) (sym q) ∙ now)
  | inr later ↦ let rest = first_ready-Among ts n (ground arith) in (inr rest.0, rest.1)
]

-- ===== src/Mq/Names.antt =====
-- The table of the message queues as a map from names.
use nyan_os.Base.{
  ◌↔◌, ℕ, zero, suc, ◌≡◌, ◌≢◌, ◌≤◌, refl, sym, ap, ap₂, ◌∙◌, true, false, Option, none, some, List,
  [], ◌∷◌, arith, length, take, if◌then◌else◌, Bool-cases, inl, inr,
}
use nyan_os.Mq.{Queue, same_name, find_queue, new_queue, make_queue, open_found, mq_open, mq_unlink}

same_name-eq : (a b : List ℕ) → same_name a b ≡ true → a ≡ b
unfolding same_name
same_name-eq [] [] e = refl
same_name-eq [] (b ∷ bs) e = absurd (ground arith)
same_name-eq (a ∷ more) [] e = absurd (ground arith)
same_name-eq (a ∷ more) (b ∷ bs) e =
    let head_eq : a ≡ b = ground arith in
    ap₂ (λ x xs. x ∷ xs) head_eq (same_name-eq more bs (ground arith))

same_name_self : (a : List ℕ) → same_name a a ≡ true
unfolding same_name
same_name_self [] = refl
same_name_self (a ∷ more) = ground (arith, same_name_self more)

take_all : (n : ℕ) (xs : List ℕ) → length xs ≤ n → take n xs ≡ xs
take_all zero [] h = refl
take_all zero (x ∷ xs) h = absurd (omega arith)
take_all (suc n) [] h = refl
take_all (suc n) (x ∷ xs) h = ap (λ ys. x ∷ ys) (take_all n xs (omega arith))

-- A name that fits is found again in the queue that is made for it.
same_name-new_queue :
    (addr : ℕ) (name : List ℕ) → length name ≤ 31 → same_name name (new_queue addr name).name ≡ true
unfolding new_queue
same_name-new_queue addr name h = rw (take_all 31 name h) (same_name_self name)

-- A search that is known.
mq_open-found :
    (cell : Option ℕ) (name : List ℕ) (t : List Queue) (found : Option Queue)
    → find_queue name t ≡ found
    → mq_open cell name t ≡ open_found found cell name t
unfolding mq_open
mq_open-found cell name t found e = ap (λ o. open_found o cell name t) e

find_queue-new_queue :
    (addr : ℕ) (name : List ℕ) (t : List Queue)
    → length name ≤ 31
    → find_queue name (new_queue addr name ∷ t) ≡ some (new_queue addr name)
unfolding find_queue
find_queue-new_queue addr name t h =
    ap (λ b. if b then some (new_queue addr name) else find_queue name t)
      (same_name-new_queue addr name h)

-- The second call finds what the first one has found or made.
open_found-again :
    (cell later : Option ℕ) (name : List ℕ) (t : List Queue) (found : Option Queue)
    → length name ≤ 31
    → find_queue name t ≡ found
    → (open_found found cell name t).0 ≢ none
    → mq_open later name (open_found found cell name t).1 ≡ open_found found cell name t
unfolding open_found make_queue
open_found-again cell later name t (some q) h e ne = mq_open-found later name t (some q) e
open_found-again none later name t none h e ne = absurd (ne refl)
open_found-again (some addr) later name t none h e ne =
    mq_open-found later name (new_queue addr name ∷ t) (some (new_queue addr name))
      (find_queue-new_queue addr name t h)
    ∙ (unfold new_queue in refl)

-- A queue that has been opened under a name of at most 31 bytes is found by every later `mq_open` of
-- that name, which gives the same queue and changes nothing.
pub mq_open-mq_open :
    (cell later : Option ℕ) (name : List ℕ) (t : List Queue)
    → length name ≤ 31
    → (mq_open cell name t).0 ≢ none
    → mq_open later name (mq_open cell name t).1 ≡ mq_open cell name t
unfolding mq_open
mq_open-mq_open cell later name t h ne =
    open_found-again cell later name t (find_queue name t) h refl ne

-- Unlinking a queue that was made for a new name of at most 31 bytes gives the table back.
pub mq_unlink-mq_open :
    (addr : ℕ) (name : List ℕ) (t : List Queue)
    → length name ≤ 31
    → find_queue name t ≡ none
    → mq_unlink name (mq_open (some addr) name t).1 ≡ (true, t)
unfolding mq_unlink open_found make_queue
mq_unlink-mq_open addr name t h new =
    ap (λ r. mq_unlink name r.1) (mq_open-found (some addr) name t none new)
    ∙ ap
        (λ b.
          if b
          then (true, t)
          else ((mq_unlink name t).0, new_queue addr name ∷ (mq_unlink name t).1))
        (same_name-new_queue addr name h)

other_name :
    (name mine other : List ℕ)
    → same_name name mine ≡ false
    → same_name other mine ≡ true
    → same_name other name ≡ false
other_name name mine other ne e = elim (Bool-cases (same_name other name)) [
  | inl same ↦
      let chain : name ≡ mine = sym (same_name-eq other name same) ∙ same_name-eq other mine e in
      absurd (ground (arith, ne, ap (λ x. same_name name x) (sym chain) ∙ same_name_self name))
  | inr differ ↦ differ
]

-- No name stands twice.
abbrev pub Distinct : List Queue → Type 0
Distinct [] = Unit {0}
Distinct (q ∷ qs) = (find_queue q.name qs ≡ none) × Distinct qs

-- In a table in which no name stands twice, `mq_unlink` succeeds exactly if the name is there, and
-- takes that queue and no other out of the table.
pub mq_unlink-find_queue :
    (name : List ℕ) (t : List Queue)
    → Distinct t
    → (((mq_unlink name t).0 ≡ false) ↔ (find_queue name t ≡ none))
      × ((other : List ℕ)
          → find_queue other (mq_unlink name t).1
            ≡ (if same_name other name then none else find_queue other t))
unfolding mq_unlink find_queue
mq_unlink-find_queue name [] d = ((λ h. refl, λ h. refl), λ other. ground arith)
mq_unlink-find_queue name (q ∷ qs) d =
    let rest = mq_unlink-find_queue name qs d.1 in
    (
      (λ h. ground (arith, rest.0.0), λ h. ground (arith, rest.0.1)),
      λ other. elim (Bool-cases (same_name name q.name)) [
        | inl here ↦
            let same = same_name-eq name q.name here in
            rw (here, same) (ground (arith, d.0, same_name-eq other q.name))
        | inr not_here ↦
            rw not_here (ground (arith, rest.1 other, other_name name q.name other not_here))
      ],
    )

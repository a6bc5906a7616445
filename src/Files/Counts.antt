-- ===== src/Files/Counts.antt =====
-- The number of places that point to a handle.
use nyan_os.Base.{
  ℕ, zero, suc, ◌+◌, ◌-◌, ◌<◌, ◌≤◌, ◌≡◌, refl, Option, none, some, List, [], ◌∷◌, ◌++◌, subst,
  arith, length, get_or, set, drop, replicate, ◌==◌, if◌then◌else◌,
}
use nyan_os.Files.{free_from}

abbrev pub points : ℕ → Option ℕ → ℕ
points k none = 0
points k (some h) = if k == h then 1 else 0

-- In one table, and in all.
abbrev pub count : ℕ → List (Option ℕ) → ℕ
count k [] = 0
count k (o ∷ fs) = points k o + count k fs

abbrev pub total : ℕ → List (List (Option ℕ)) → ℕ
total k [] = 0
total k (fs ∷ ts) = count k fs + total k ts

pub count-set :
    (k fd : ℕ) (fs : List (Option ℕ)) (o : Option ℕ)
    → fd < length fs
    → count k (set fs fd o) + points k (get_or fs fd none) ≡ count k fs + points k o
count-set k fd [] o h = absurd (omega arith)
count-set k zero (p ∷ fs) o h = omega arith
count-set k (suc fd) (p ∷ fs) o h = omega (arith, count-set k fd fs o (omega arith))

pub total-set :
    (k task : ℕ) (ts : List (List (Option ℕ))) (fs : List (Option ℕ))
    → task < length ts
    → total k (set ts task fs) + count k (get_or ts task []) ≡ total k ts + count k fs
total-set k task [] fs h = absurd (omega arith)
total-set k zero (gs ∷ ts) fs h = omega arith
total-set k (suc task) (gs ∷ ts) fs h = omega (arith, total-set k task ts fs (omega arith))

pub total-append :
    (k : ℕ) (ts : List (List (Option ℕ))) (fs : List (Option ℕ))
    → total k (ts ++ fs ∷ []) ≡ total k ts + count k fs
total-append k [] fs = omega arith
total-append k (gs ∷ ts) fs = omega (arith, total-append k ts fs)

pub count-replicate : (k n : ℕ) → count k (replicate n none) ≡ 0
count-replicate k zero = refl
count-replicate k (suc n) = omega (arith, count-replicate k n)

-- A place that points somewhere stands inside of a table.
pub points-count : (k fd : ℕ) (fs : List (Option ℕ)) → points k (get_or fs fd none) ≤ count k fs
points-count k fd [] = omega arith
points-count k zero (p ∷ fs) = omega arith
points-count k (suc fd) (p ∷ fs) = omega (arith, points-count k fd fs)

pub count-total :
    (k task : ℕ) (ts : List (List (Option ℕ))) → count k (get_or ts task []) ≤ total k ts
count-total k task [] = omega arith
count-total k zero (gs ∷ ts) = omega arith
count-total k (suc task) (gs ∷ ts) = omega (arith, count-total k task ts)

pub get_or-inside : (fd h : ℕ) (fs : List (Option ℕ)) → get_or fs fd none ≡ some h → fd < length fs
get_or-inside fd h [] e = absurd (ground arith)
get_or-inside zero h (p ∷ fs) e = omega arith
get_or-inside (suc fd) h (p ∷ fs) e = omega (arith, get_or-inside fd h fs e)

pub inside :
    (task fd h : ℕ) (ts : List (List (Option ℕ)))
    → get_or (get_or ts task []) fd none ≡ some h
    → task < length ts
inside task fd h [] e = absurd (ground arith)
inside zero fd h (gs ∷ ts) e = omega arith
inside (suc task) fd h (gs ∷ ts) e = omega (arith, inside task fd h ts e)

-- Every table has 16 places.
abbrev pub Sized : List (List (Option ℕ)) → Type 0
Sized [] = Unit {0}
Sized (fs ∷ ts) = (length fs ≡ 16) × Sized ts

pub Sized-set :
    (task : ℕ) (ts : List (List (Option ℕ))) (fs : List (Option ℕ))
    → length fs ≡ 16
    → Sized ts
    → Sized (set ts task fs)
Sized-set task [] fs e z = tt
Sized-set zero (gs ∷ ts) fs e z = (e, z.1)
Sized-set (suc task) (gs ∷ ts) fs e z = (z.0, Sized-set task ts fs e z.1)

pub Sized-append :
    (ts : List (List (Option ℕ))) (fs : List (Option ℕ))
    → length fs ≡ 16
    → Sized ts
    → Sized (ts ++ fs ∷ [])
Sized-append [] fs e z = (e, tt)
Sized-append (gs ∷ ts) fs e z = (z.0, Sized-append ts fs e z.1)

pub length-get_or :
    (task : ℕ) (ts : List (List (Option ℕ)))
    → task < length ts
    → Sized ts
    → length (get_or ts task []) ≡ 16
length-get_or task [] h z = absurd (omega arith)
length-get_or zero (gs ∷ ts) h z = z.0
length-get_or (suc task) (gs ∷ ts) h z = length-get_or task ts (omega arith) z.1

-- The place found by `find_free_fd` is empty.
pub free_from-empty :
    (i fd : ℕ) (fs : List (Option ℕ))
    → free_from i fs ≡ some fd
    → (i ≤ fd) × (fd - i < length fs) × (get_or fs (fd - i) none ≡ none)
free_from-empty i fd [] e = absurd (ground arith)
free_from-empty i fd (none ∷ fs) e =
    let same : i ≡ fd = ground arith in
    let start : 0 ≡ fd - i = omega arith in
    (omega arith, omega arith, subst (λ j. get_or (none ∷ fs) j none ≡ none) start refl)
free_from-empty i fd (some h ∷ fs) e =
    let r = free_from-empty (suc i) fd fs e in
    let next : suc (fd - suc i) ≡ fd - i = omega (arith, r.0) in
    (
      omega (arith, r.0),
      omega (arith, r.0, r.1),
      subst (λ j. get_or (some h ∷ fs) j none ≡ none) next r.2,
    )

pub get_or-drop :
    (n i : ℕ) (fs : List (Option ℕ)) → get_or (drop n fs) i none ≡ get_or fs (n + i) none
get_or-drop zero i fs = subst (λ j. get_or fs i none ≡ get_or fs j none) (omega arith) refl
get_or-drop (suc n) i [] = refl
get_or-drop (suc n) i (x ∷ fs) =
    let next : suc (n + i) ≡ suc n + i = omega arith in
    subst (λ j. get_or (drop n fs) i none ≡ get_or (x ∷ fs) j none) next (get_or-drop n i fs)

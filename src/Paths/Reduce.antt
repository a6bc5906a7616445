-- ===== src/Paths/Reduce.antt =====
-- The path as a list of names that lead up and down a tree, and that `resolve_path` follows them.
use nyan_os.Base.{
  ℕ, ◌+◌, ◌-◌, ◌<◌, ◌≤◌, ◌≡◌, refl, sym, ap, ◌∙◌, true, false, not, ◌&&◌, Option, none, some, List,
  [], ◌∷◌, ◌++◌, arith, length, length-append, get_or, leb, ltb, ◌==◌, if◌then◌else◌, Bool-cases,
  inl, inr, append_assoc,
}
use nyan_os.Mq.{same_name}
use nyan_os.Paths.{
  slash, dot, Walk, Outcome, path, out_of_bounds, full_path, skip_slash, walk, read_char, push, pop,
  bottom_up, rebuilt, next_name, resolve_path, end_name,
}
use nyan_os.Paths.Names.{shown, rebuild-shown, length-bottom_up}

-- The names between slashes, after the bytes `name`.
unfoldable pub components : List ℕ → List ℕ → List (List ℕ)
components name [] = name ∷ []
components name (c ∷ cs) =
    if c == slash then name ∷ components [] cs else components (name ++ c ∷ []) cs

-- The names of a path and of the working directory before it, where the path has no slash in front.
unfoldable pub all_names : List ℕ → List ℕ → List (List ℕ)
unfolding components
all_names cwd inp_path =
    if get_or inp_path 0 0 == 47
    then components [] inp_path
    else components [] cwd ++ components [] inp_path

unfoldable pub above : List (List ℕ) → List (List ℕ)
above [] = []
above (name ∷ []) = []
above (name ∷ other ∷ names) = name ∷ above (other ∷ names)

-- One name from a place, which is the list of the names from the root: `..` leads up, an empty one and
-- `.` stay, another leads down. A name of 32 bytes, or a 33rd name, does not fit.
unfoldable pub visit : List (List ℕ) → List ℕ → Option (List (List ℕ))
unfolding above
visit place name =
    if leb 32 (length name)
    then none
    else if length name == 0
    then some place
    else if same_name name (46 ∷ 46 ∷ [])
    then some (above place)
    else if same_name name (46 ∷ [])
    then some place
    else if leb 32 (length place)
    then none
    else some (place ++ name ∷ [])

unfoldable pub follow : Option (List (List ℕ)) → List (List ℕ) → Option (List (List ℕ))
unfolding visit
follow none names = none
follow (some place) [] = some place
follow (some place) (name ∷ names) = follow (visit place name) names

-- The path of the place that was reached.
unfoldable pub reached : Option (List (List ℕ)) → Outcome
reached none = out_of_bounds
reached (some place) = path (shown place)

follow-none : (names : List (List ℕ)) → follow none names ≡ none
unfolding follow
follow-none names = refl

follow_nil : (o : Option (List (List ℕ))) → follow o [] ≡ o
unfolding follow
follow_nil none = refl
follow_nil (some place) = refl

-- An empty name leads nowhere.
follow_empty :
    (o : Option (List (List ℕ))) (names : List (List ℕ)) → follow o ([] ∷ names) ≡ follow o names
unfolding follow visit
follow_empty none names = refl
follow_empty (some place) names = refl

-- The stack of the code, the topmost name first, as a place.
abbrev place_of : Option (List (List ℕ)) → Option (List (List ℕ))
place_of none = none
place_of (some stack) = some (bottom_up stack [])

bottom_up-append : (xs ys : List (List ℕ)) → bottom_up xs ys ≡ bottom_up xs [] ++ ys
bottom_up-append [] ys = refl
bottom_up-append (x ∷ xs) ys =
    bottom_up-append xs (x ∷ ys)
    ∙ sym (append_assoc (bottom_up xs []) (x ∷ []) ys)
    ∙ ap (λ zs. zs ++ ys) (sym (bottom_up-append xs (x ∷ [])))

above-append : (place : List (List ℕ)) (name : List ℕ) → above (place ++ name ∷ []) ≡ place
unfolding above
above-append [] name = refl
above-append (x ∷ []) name = refl
above-append (x ∷ y ∷ place) name = ap (λ zs. x ∷ zs) (above-append (y ∷ place) name)

pop-above : (stack : List (List ℕ)) → bottom_up (pop stack) [] ≡ above (bottom_up stack [])
pop-above [] = unfold above in refl
pop-above (name ∷ stack) =
    sym (ap above (bottom_up-append stack (name ∷ [])) ∙ above-append (bottom_up stack []) name)

end_name-visit : (w : Walk) → place_of (end_name w) ≡ visit (bottom_up w.stack []) w.name
unfolding end_name push visit
end_name-visit w = elim (Bool-cases (leb 32 (length w.name))) [
  | inl long ↦ rw long refl
  | inr short ↦ elim (Bool-cases (length w.name == 0)) [
    | inl empty ↦ rw (short, empty) refl
    | inr some_char ↦ elim (Bool-cases (same_name w.name (dot ∷ dot ∷ []))) [
      | inl up ↦ rw (short, some_char, up) (ap (λ x. some x) (pop-above w.stack))
      | inr not_up ↦ elim (Bool-cases (same_name w.name (dot ∷ []))) [
        | inl stay ↦ rw (short, some_char, not_up, stay) refl
        | inr not_here ↦ down not_here not_up some_char short
      ]
    ]
  ]
]
  where
    same_length : length (bottom_up w.stack []) ≡ length w.stack
    same_length = omega (arith, length-bottom_up w.stack [])

    down :
        same_name w.name (dot ∷ []) ≡ false
        → same_name w.name (dot ∷ dot ∷ []) ≡ false
        → (length w.name == 0) ≡ false
        → leb 32 (length w.name) ≡ false
        → place_of (end_name w) ≡ visit (bottom_up w.stack []) w.name
    down not_here not_up some_char short = elim (Bool-cases (leb 32 (length w.stack))) [
      | inl full ↦ rw (short, some_char, not_up, not_here, same_length, full) refl
      | inr room ↦
          rw (short, some_char, not_up, not_here, same_length, room)
            (ap (λ x. some x) (bottom_up-append w.stack (w.name ∷ [])))
    ]

visit_long :
    (place : List (List ℕ)) (name : List ℕ) → leb 32 (length name) ≡ true → visit place name ≡ none
unfolding visit
visit_long place name h = rw h refl

-- A name that is too long only gets longer.
follow_long :
    (cs name : List ℕ) (place : List (List ℕ))
    → leb 32 (length name) ≡ true
    → follow (some place) (components name cs) ≡ none
unfolding follow components
follow_long [] name place h = ap (λ o. follow o []) (visit_long place name h)
follow_long (c ∷ cs) name place h = elim (Bool-cases (c == slash)) [
  | inl ends ↦ rw ends (ap (λ o. follow o (components [] cs)) (visit_long place name h))
  | inr goes_on ↦
      rw goes_on
        (follow_long cs (name ++ c ∷ []) place (ground (arith, length-append name (c ∷ []))))
]

walk_next :
    (cs : List ℕ)
    → ((stack : List (List ℕ))
        → place_of (walk cs (some (record { name = []; stack = stack })))
          ≡ follow (some (bottom_up stack [])) (components [] cs))
    → (e : Option (List (List ℕ)))
    → place_of (walk cs (next_name e)) ≡ follow (place_of e) (components [] cs)
unfolding walk
walk_next cs ih none = sym (follow-none (components [] cs))
walk_next cs ih (some stack) = ih stack

walk-follow :
    (cs : List ℕ) (w : Walk)
    → place_of (walk cs (some w)) ≡ follow (some (bottom_up w.stack [])) (components w.name cs)
unfolding walk components follow
walk-follow [] w = end_name-visit w ∙ sym (follow_nil (visit (bottom_up w.stack []) w.name))
walk-follow (c ∷ cs) w = elim (Bool-cases (c == slash)) [
  | inl ends ↦
      let on : read_char c w ≡ next_name (end_name w) = unfold read_char in rw ends refl in
      rw ends (
        ap (λ o. place_of (walk cs o)) on
        ∙ walk_next cs (λ stack. walk-follow cs (record { name = []; stack = stack })) (end_name w)
        ∙ ap (λ o. follow o (components [] cs)) (end_name-visit w))
  | inr goes_on ↦ elim (Bool-cases (leb 32 (length w.name))) [
    | inl long ↦
        let on : read_char c w ≡ none = unfold read_char in rw (goes_on, long) refl in
        rw goes_on (
          ap (λ o. place_of (walk cs o)) on
          ∙ sym (
              follow_long cs (w.name ++ c ∷ []) (bottom_up w.stack [])
                (ground (arith, length-append w.name (c ∷ [])))))
    | inr short ↦
        let on : read_char c w ≡ some (record w { name = w.name ++ c ∷ [] }) =
          unfold read_char in rw (goes_on, short) refl in
        rw goes_on (
          ap (λ o. place_of (walk cs o)) on ∙ walk-follow cs (record w { name = w.name ++ c ∷ [] }))
  ]
]

-- The slash in front of an absolute path.
skip_slash-follow :
    (o : Option (List (List ℕ))) (p : List ℕ)
    → follow o (components [] (skip_slash p)) ≡ follow o (components [] p)
unfolding components
skip_slash-follow o [] = refl
skip_slash-follow o (c ∷ cs) = elim (Bool-cases (c == slash)) [
  | inl front ↦ rw front (sym (follow_empty o (components [] cs)))
  | inr other ↦
      let same : skip_slash (c ∷ cs) ≡ c ∷ cs = rw other refl in
      ap (λ q. follow o (components [] q)) same
]

components-append :
    (xs ys name : List ℕ)
    → components name (xs ++ slash ∷ ys) ≡ components name xs ++ components [] ys
unfolding components
components-append [] ys name = refl
components-append (x ∷ xs) ys name = elim (Bool-cases (x == slash)) [
  | inl ends ↦ rw ends (ap (λ zs. name ∷ zs) (components-append xs ys []))
  | inr goes_on ↦ rw goes_on (components-append xs ys (name ++ x ∷ []))
]

-- A slash at the end of the first path is enough.
follow-append :
    (x : ℕ) (xs ys name : List ℕ) (o : Option (List (List ℕ)))
    → (get_or (x ∷ xs) (length xs) 0 == slash) ≡ true
    → follow o (components name ((x ∷ xs) ++ ys))
      ≡ follow o (components name (x ∷ xs) ++ components [] ys)
unfolding components
follow-append x [] ys name o h = rw h (at_slash o)
  where
    at_slash :
        (o : Option (List (List ℕ)))
        → follow o (name ∷ components [] ys) ≡ follow o (name ∷ [] ∷ components [] ys)
    at_slash none = unfold follow in refl
    at_slash (some place) =
        unfold follow in sym (follow_empty (visit place name) (components [] ys))
follow-append x (y ∷ xs) ys name o h = elim (Bool-cases (x == slash)) [
  | inl ends ↦ rw ends (at_slash (λ u. follow-append y xs ys [] u h) o)
  | inr goes_on ↦ rw goes_on (follow-append y xs ys (name ++ x ∷ []) o h)
]
  where
    at_slash :
        ((u : Option (List (List ℕ)))
          → follow u (components [] ((y ∷ xs) ++ ys))
            ≡ follow u (components [] (y ∷ xs) ++ components [] ys))
        → (o : Option (List (List ℕ)))
        → follow o (name ∷ components [] ((y ∷ xs) ++ ys))
          ≡ follow o (name ∷ components [] (y ∷ xs) ++ components [] ys)
    at_slash ih none = unfold follow in refl
    at_slash ih (some place) = unfold follow in ih (visit place name)

all_names-full_path :
    (cwd inp_path : List ℕ) (o : Option (List (List ℕ)))
    → (get_or cwd 0 0 == slash) ≡ true
    → follow o (components [] (full_path cwd inp_path)) ≡ follow o (all_names cwd inp_path)
unfolding all_names full_path
all_names-full_path [] inp_path o h = absurd (ground arith)
all_names-full_path (x ∷ xs) inp_path o h = elim (Bool-cases (get_or inp_path 0 0 == slash)) [
  | inl absolute ↦ rw absolute refl
  | inr relative ↦
      elim (Bool-cases
        (ltb 1 (length (x ∷ xs)) && not (get_or (x ∷ xs) (length (x ∷ xs) - 1) 0 == slash))) [
          | inl no_slash ↦
              rw (relative, no_slash) (ap (follow o) (components-append (x ∷ xs) inp_path []))
          | inr has_slash ↦
              rw (relative, has_slash) (follow-append x xs inp_path [] o (ends xs has_slash))
        ]
]
  where
    ends :
        (ys : List ℕ)
        → (ltb 1 (length (x ∷ ys)) && not (get_or (x ∷ ys) (length (x ∷ ys) - 1) 0 == slash))
          ≡ false
        → (get_or (x ∷ ys) (length ys) 0 == slash) ≡ true
    ends [] e = h
    ends (y ∷ ys) e =
        let last : length (x ∷ y ∷ ys) - 1 ≡ length (y ∷ ys) = omega arith in
        let same = ap (λ k. get_or (x ∷ y ∷ ys) k 0 == slash) last in ground (arith, same)

length-full_path :
    (cwd inp_path : List ℕ) → length (full_path cwd inp_path) ≤ length cwd + length inp_path + 1
unfolding full_path
length-full_path cwd inp_path =
    ground (arith, length-append cwd inp_path, length-append cwd (slash ∷ inp_path))

rebuilt-reached : (o : Option (List (List ℕ))) → rebuilt o ≡ reached (place_of o)
unfolding rebuilt reached
rebuilt-reached none = refl
rebuilt-reached (some stack) = ap path (rebuild-shown (bottom_up stack []))

-- For an absolute working directory, where this and the path have less than 255 bytes together and
-- `kmalloc` has room, `resolve_path` follows the names of the path from the root, after those of the
-- working directory where the path has no slash in front, and gives the path of the place that they
-- lead to; a name of more than 31 bytes, or more than 32 names at a place, are out of bounds.
pub resolve_path-follow :
    (cwd inp_path : List ℕ)
    → (get_or cwd 0 0 == slash) ≡ true
    → length cwd + length inp_path < 255
    → resolve_path true true cwd inp_path ≡ reached (follow (some []) (all_names cwd inp_path))
unfolding resolve_path
resolve_path-follow cwd inp_path absolute h =
    let fits : leb 256 (length (full_path cwd inp_path)) ≡ false =
      ground (arith, length-full_path cwd inp_path) in
    rw fits (
      rebuilt-reached
        (walk (skip_slash (full_path cwd inp_path)) (some (record { name = []; stack = [] })))
      ∙ ap reached (
          walk-follow (skip_slash (full_path cwd inp_path)) (record { name = []; stack = [] })
          ∙ skip_slash-follow (some []) (full_path cwd inp_path)
          ∙ all_names-full_path cwd inp_path (some []) absolute))

-- ===== src/Paths/Reading.antt =====
-- The walk over a path, name by name.
use nyan_os.Base.{
  ℕ, suc, ◌+◌, ◌<◌, ◌≤◌, ◌≡◌, refl, sym, ap, ◌∙◌, false, none, some, List, [], ◌∷◌, ◌++◌,
  append_assoc, append-nil, arith, length, length-append, leb, ◌==◌, Bool-cases, inl, inr,
  Option-cases, subst,
}
use nyan_os.Mq.{same_name}
use nyan_os.Paths.{slash, dot, Walk, pop, push, end_name, read_char, walk, bottom_up}
use nyan_os.Paths.Names.{Plain, IsName, AllNames, joined, Plain-append}

-- What the walk has: a name without slashes, and a stack of names that take `n` bytes with what is
-- still to be read.
pub record Good (n : ℕ) (w : Walk) : Type 0 where
  pub plain : Plain w.name
  pub all : AllNames w.stack
  pub few : length w.stack ≤ 32
  pub bytes : length (joined w.stack) + length w.name ≤ n

pub record Stacked (n : ℕ) (stack : List (List ℕ)) : Type 0 where
  pub all : AllNames stack
  pub few : length stack ≤ 32
  pub bytes : length (joined stack) ≤ n

pop-Stacked : (n : ℕ) (stack : List (List ℕ)) → Stacked n stack → Stacked n (pop stack)
pop-Stacked n [] g = g
pop-Stacked n (name ∷ names) g = record {
  all = g.all.1;
  few = omega (arith, g.few);
  bytes = omega (arith, g.bytes, length-append name (joined names));
}

-- A name that ends adds its slash.
end_name-Stacked :
    (n : ℕ) (w : Walk) (stack : List (List ℕ))
    → Good n w
    → end_name w ≡ some stack
    → Stacked (suc n) stack
unfolding end_name push
end_name-Stacked n w stack g e =
    let same : Stacked (suc n) w.stack = record {
      all = g.all;
      few = g.few;
      bytes = omega (arith, g.bytes);
    } in
    elim (Bool-cases (leb 32 (length w.name))) [
      | inl long ↦ absurd (ground arith)
      | inr fits ↦ elim (Bool-cases (length w.name == 0)) [
        | inl empty ↦ subst (Stacked (suc n)) (ground arith) same
        | inr some_char ↦ elim (Bool-cases (same_name w.name (dot ∷ dot ∷ []))) [
          | inl up ↦ subst (Stacked (suc n)) (ground arith) (pop-Stacked (suc n) w.stack same)
          | inr not_up ↦ elim (Bool-cases (same_name w.name (dot ∷ []))) [
            | inl stay ↦ subst (Stacked (suc n)) (ground arith) same
            | inr not_here ↦ elim (Bool-cases (leb 32 (length w.stack))) [
              | inl full ↦ absurd (ground arith)
              | inr room ↦
                  let is : w.name ∷ w.stack ≡ stack = ground arith in
                  subst (Stacked (suc n)) is (record {
                    all = (
                      record {
                        some_char = some_char;
                        fits = ground arith;
                        plain = g.plain;
                        not_up = not_up;
                        not_here = not_here;
                      },
                      g.all,
                    );
                    few = ground arith;
                    bytes = omega (arith, g.bytes, length-append w.name (joined w.stack));
                  })
            ]
          ]
        ]
      ]
    ]

-- Whatever is read, within the bounds: the stack holds names only, and they take no more bytes than
-- the path.
pub walk-Stacked :
    (cs : List ℕ) (n : ℕ) (w : Walk) (stack : List (List ℕ))
    → Good n w
    → walk cs (some w) ≡ some stack
    → Stacked (suc (n + length cs)) stack
unfolding walk read_char
walk-Stacked [] n w stack g e =
    let r = end_name-Stacked n w stack g e in
    record { all = r.all; few = r.few; bytes = omega (arith, r.bytes) }
walk-Stacked (c ∷ cs) n w stack g e = elim (Bool-cases (c == slash)) [
  | inl ends ↦ elim (Option-cases (end_name w)) [
    | inl over ↦ absurd (ground (arith, walk-none cs))
    | inr (st, ok) ↦
        let s = end_name-Stacked n w st g ok in
        let next : Good (suc n) (record { name = []; stack = st }) = record {
          plain = tt;
          all = s.all;
          few = s.few;
          bytes = omega (arith, s.bytes);
        } in
        let on : read_char c w ≡ some (record { name = []; stack = st }) = rw (ends, ok) refl in
        let r = walk-Stacked cs (suc n) _ stack next (ap (walk cs) (sym on) ∙ e) in
        record { all = r.all; few = r.few; bytes = omega (arith, r.bytes) }
  ]
  | inr goes_on ↦ elim (Bool-cases (leb 32 (length w.name))) [
    | inl full ↦ absurd (ground (arith, walk-none cs))
    | inr room ↦
        let next : Good (suc n) (record w { name = w.name ++ c ∷ [] }) = record {
          plain = Plain-append w.name c g.plain goes_on;
          all = g.all;
          few = g.few;
          bytes = omega (arith, g.bytes, length-append w.name (c ∷ []));
        } in
        let on : read_char c w ≡ some (record w { name = w.name ++ c ∷ [] }) =
          rw (goes_on, room) refl in
        let r = walk-Stacked cs (suc n) _ stack next (ap (walk cs) (sym on) ∙ e) in
        record { all = r.all; few = r.few; bytes = omega (arith, r.bytes) }
  ]
]
  where
    walk-none : (cs : List ℕ) → walk cs none ≡ none
    walk-none [] = refl
    walk-none (d ∷ ds) = refl

-- The bytes of a name are gathered.
pub walk-Plain :
    (n rest p : List ℕ) (stack : List (List ℕ))
    → Plain n
    → length p + length n < 32
    → walk (n ++ rest) (some (record { name = p; stack = stack }))
      ≡ walk rest (some (record { name = p ++ n; stack = stack }))
unfolding walk read_char
walk-Plain [] rest p stack a h = rw (append-nil p) refl
walk-Plain (c ∷ cs) rest p stack a h =
    let room : leb 32 (length p) ≡ false = ground arith in
    let on : read_char c (record { name = p; stack = stack })
        ≡ some (record { name = p ++ c ∷ []; stack = stack }) =
      rw (a.0, room) refl in
    ap (walk (cs ++ rest)) on
    ∙ walk-Plain cs rest (p ++ c ∷ []) stack a.1 (omega (arith, length-append p (c ∷ [])))
    ∙ ap (λ q. walk rest (some (record { name = q; stack = stack }))) (append_assoc p (c ∷ []) cs)

end_name-IsName :
    (n : List ℕ) (stack : List (List ℕ))
    → IsName n
    → length stack < 32
    → end_name (record { name = n; stack = stack }) ≡ some (n ∷ stack)
unfolding end_name push
end_name-IsName n stack i h =
    let fits : leb 32 (length n) ≡ false = ground (arith, i.fits) in
    let room : leb 32 (length stack) ≡ false = ground arith in
    rw (fits, i.some_char, i.not_up, i.not_here, room) refl

-- Names are read back.
pub walk-joined :
    (names : List (List ℕ)) (n : List ℕ) (stack : List (List ℕ))
    → IsName n
    → AllNames names
    → length stack + 1 + length names ≤ 32
    → walk (joined names) (some (record { name = n; stack = stack }))
      ≡ some (bottom_up (n ∷ names) stack)
unfolding walk read_char
walk-joined [] n stack i a h = end_name-IsName n stack i (omega arith)
walk-joined (m ∷ ms) n stack i a h =
    let on : read_char slash (record { name = n; stack = stack })
        ≡ some (record { name = []; stack = n ∷ stack }) =
      rw (end_name-IsName n stack i (omega arith)) refl in
    ap (walk (m ++ joined ms)) on
    ∙ walk-Plain m (joined ms) [] (n ∷ stack) a.0.plain (omega (arith, a.0.fits))
    ∙ walk-joined ms m (n ∷ stack) a.0 a.1 (omega arith)

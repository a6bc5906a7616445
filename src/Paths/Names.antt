-- ===== src/Paths/Names.antt =====
-- The names that paths are made of, and the form of a path that has been resolved.
use nyan_os.Base.{
  ℕ, suc, ◌+◌, ◌<◌, ◌≤◌, ◌≡◌, refl, sym, ap, ◌∙◌, true, false, List, [], ◌∷◌, ◌++◌, append_assoc,
  append-nil, arith, length, length-append, ltb, ◌==◌,
}
use nyan_os.Mq.{same_name}
use nyan_os.Paths.{slash, dot, rebuild, bottom_up}

-- No slash.
abbrev pub Plain : List ℕ → Type 0
Plain [] = Unit {0}
Plain (c ∷ cs) = ((c == slash) ≡ false) × Plain cs

-- A name that stands for itself and fits into `name_buf`.
pub record IsName (name : List ℕ) : Type 0 where
  pub some_char : (length name == 0) ≡ false
  pub fits : length name < 32
  pub plain : Plain name
  pub not_up : same_name name (dot ∷ dot ∷ []) ≡ false
  pub not_here : same_name name (dot ∷ []) ≡ false

abbrev pub AllNames : List (List ℕ) → Type 0
AllNames [] = Unit {0}
AllNames (name ∷ names) = IsName name × AllNames names

abbrev pub joined : List (List ℕ) → List ℕ
joined [] = []
joined (name ∷ names) = slash ∷ name ++ joined names

-- The path of names, bottom first.
abbrev pub shown : List (List ℕ) → List ℕ
shown [] = slash ∷ []
shown (name ∷ names) = joined (name ∷ names)

pub record Canonical (p : List ℕ) : Type 0 where
  pub names : List (List ℕ)
  pub all : AllNames names
  pub few : length names ≤ 32
  pub is : p ≡ shown names

pub Plain-append : (xs : List ℕ) (c : ℕ) → Plain xs → (c == slash) ≡ false → Plain (xs ++ c ∷ [])
Plain-append [] c p e = (e, tt)
Plain-append (x ∷ xs) c p e = (p.0, Plain-append xs c p.1 e)

rebuild-joined :
    (k : ℕ) (out : List ℕ) (names : List (List ℕ)) → rebuild (suc k) out names ≡ out ++ joined names
unfolding rebuild
rebuild-joined k out [] = sym (append-nil out)
rebuild-joined k out (name ∷ names) =
    let again : ltb 0 (suc k) ≡ true = ground arith in
    rw again (
      rebuild-joined (suc k) ((out ++ slash ∷ []) ++ name) names
      ∙ ap (λ xs. xs ++ joined names) (append_assoc out (slash ∷ []) name)
      ∙ append_assoc out (slash ∷ name) (joined names))

-- The rebuilding of the code writes the path of the names.
pub rebuild-shown : (names : List (List ℕ)) → rebuild 0 (slash ∷ []) names ≡ shown names
unfolding rebuild
rebuild-shown [] = refl
rebuild-shown (name ∷ names) = rebuild-joined 0 (slash ∷ name) names

pub bottom_up-bottom_up :
    (xs ys zs : List (List ℕ)) → bottom_up (bottom_up xs ys) zs ≡ bottom_up ys (xs ++ zs)
bottom_up-bottom_up [] ys zs = refl
bottom_up-bottom_up (x ∷ xs) ys zs = bottom_up-bottom_up xs (x ∷ ys) zs

pub bottom_up-AllNames :
    (xs ys : List (List ℕ)) → AllNames xs → AllNames ys → AllNames (bottom_up xs ys)
bottom_up-AllNames [] ys a b = b
bottom_up-AllNames (x ∷ xs) ys a b = bottom_up-AllNames xs (x ∷ ys) a.1 (a.0, b)

pub length-bottom_up : (xs ys : List (List ℕ)) → length (bottom_up xs ys) ≡ length xs + length ys
length-bottom_up [] ys = omega arith
length-bottom_up (x ∷ xs) ys = omega (arith, length-bottom_up xs (x ∷ ys))

-- The bytes of a path of names.
pub length-joined-bottom_up :
    (xs ys : List (List ℕ))
    → length (joined (bottom_up xs ys)) ≡ length (joined xs) + length (joined ys)
length-joined-bottom_up [] ys = omega arith
length-joined-bottom_up (x ∷ xs) ys = omega (
  arith,
  length-joined-bottom_up xs (x ∷ ys),
  length-append x (joined xs),
  length-append x (joined ys),
)

pub length-shown :
    (names : List (List ℕ)) (n : ℕ) → length (joined names) ≤ n → 0 < n → length (shown names) ≤ n
length-shown [] n h p = omega arith
length-shown (name ∷ names) n h p = h

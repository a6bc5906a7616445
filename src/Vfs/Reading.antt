-- ===== src/Vfs/Reading.antt =====
-- What the walk reads of a path: names of at most 127 bytes, between slashes.
use nyan_os.Base.{
  ℕ, zero, suc, ◌+◌, ◌<◌, ◌≤◌, ◌≡◌, refl, sym, ap, ◌∙◌, true, false, Option, some, List, [], ◌∷◌,
  ◌++◌, append_assoc, append-nil, length, length-append, drop, ◌==◌, if◌then◌else◌, arith,
  Bool-cases, inl, inr,
}
use nyan_os.Paths.{slash}
use nyan_os.Paths.Names.{Plain, AllNames, joined, shown}
use nyan_os.Paths.Reduce.{components}
use nyan_os.Vfs.{Tree, Found, found, take_name, put_front, enter_node, go_on}

-- From a node by names, the empty ones left out.
unfoldable pub descend : Tree → ℕ → List (List ℕ) → Found
descend t node [] = found node
descend t node (name ∷ names) =
    if length name == 0
    then descend t node names
    else go_on (λ n. descend t n names) (enter_node t node name)

-- No name has more than 127 bytes.
unfoldable pub Short : List (List ℕ) → Type 0
Short [] = Unit {0}
Short (name ∷ names) = (length name < 128) × Short names

-- A name that is begun with fewer bytes stays as short.
Short-less :
    (cs p q : List ℕ) → length q ≤ length p → Short (components p cs) → Short (components q cs)
unfolding components Short
Short-less [] p q h s = (omega (arith, s.0), tt)
Short-less (c ∷ cs) p q h s = elim (Bool-cases (c == slash)) [
  | inl ends ↦ let u = rw ends at s in rw ends (omega (arith, u.0), u.1)
  | inr goes_on ↦ rw goes_on (
      Short-less cs (p ++ c ∷ []) (q ++ c ∷ [])
        (omega (arith, length-append p (c ∷ []), length-append q (c ∷ []))) (rw goes_on at s))
]

Short-head : (cs p : List ℕ) → Short (components p cs) → length p < 128
unfolding components Short
Short-head [] p s = s.0
Short-head (c ∷ cs) p s = elim (Bool-cases (c == slash)) [
  | inl ends ↦ (rw ends at s).0
  | inr goes_on ↦
      omega (arith, Short-head cs (p ++ c ∷ []) (rw goes_on at s), length-append p (c ∷ []))
]

pub Short-drop :
    (n : ℕ) (cs : List ℕ) → Short (components [] cs) → Short (components [] (drop n cs))
unfolding components Short
Short-drop zero cs s = s
Short-drop (suc n) [] s = s
Short-drop (suc n) (c ∷ cs) s = elim (Bool-cases (c == slash)) [
  | inl ends ↦ Short-drop n cs (rw ends at s).1
  | inr goes_on ↦ Short-drop n cs (Short-less cs (c ∷ []) [] (omega arith) (rw goes_on at s))
]

components-Plain : (n p cs : List ℕ) → Plain n → components p (n ++ cs) ≡ components (p ++ n) cs
unfolding components
components-Plain [] p cs a = ap (λ q. components q cs) (sym (append-nil p))
components-Plain (c ∷ n) p cs a = rw a.0 (
    components-Plain n (p ++ c ∷ []) cs a.1 ∙ ap (λ q. components q cs) (append_assoc p (c ∷ []) n))

-- The names of a path are short.
Short-joined :
    (names : List (List ℕ)) (p : List ℕ)
    → AllNames names
    → length p < 128
    → Short (components p (joined names))
unfolding components Short
Short-joined [] p a h = (h, tt)
Short-joined (n ∷ ns) p a h = (
  h,
  rw (components-Plain n [] (joined ns) a.0.plain)
      (Short-joined ns n a.1 (omega (arith, a.0.fits))),
)

pub Short-shown : (names : List (List ℕ)) → AllNames names → Short (components [] (shown names))
unfolding components Short
Short-shown [] a = (omega arith, (omega arith, tt))
Short-shown (n ∷ ns) a = Short-joined (n ∷ ns) [] a (omega arith)

-- What the inner loop reads: one name, and what stands from the next slash on.
pub record Taken (t : Tree) (p cs : List ℕ) (o : Option (List ℕ × List ℕ)) : Type 0 where
  pub name : List ℕ
  pub rest : List ℕ
  pub is : o ≡ some (name, rest)
  pub left : List (List ℕ)
  pub names : components p cs ≡ (p ++ name) ∷ left
  pub on : (node : ℕ) → descend t node (components [] rest) ≡ descend t node left
  pub short : Short (components [] rest)
  pub less : length rest ≤ length cs

Taken-next :
    (t : Tree) (c : ℕ) (cs p : List ℕ) (o : Option (List ℕ × List ℕ))
    → (c == slash) ≡ false
    → Taken t (p ++ c ∷ []) cs o
    → Taken t p (c ∷ cs) (put_front c o)
unfolding components
Taken-next t c cs p o e k = record {
  name = c ∷ k.name;
  rest = k.rest;
  is = ap (put_front c) k.is;
  left = k.left;
  names = rw e (k.names ∙ ap (λ q. q ∷ k.left) (append_assoc p (c ∷ []) k.name));
  on = k.on;
  short = k.short;
  less = omega (arith, k.less);
}

Taken-slash :
    (t : Tree) (c : ℕ) (cs p : List ℕ)
    → (c == slash) ≡ true
    → Short (components p (c ∷ cs))
    → Taken t p (c ∷ cs) (some ([], c ∷ cs))
unfolding components descend Short
Taken-slash t c cs p ends s = record {
  name = [];
  rest = c ∷ cs;
  is = refl;
  left = components [] cs;
  names = rw ends (ap (λ q. q ∷ components [] cs) (sym (append-nil p)));
  on = λ node. rw ends refl;
  short = rw ends (omega arith, (rw ends at s).1);
  less = omega arith;
}

pub take_name-Taken :
    (t : Tree) (cs : List ℕ) (room : ℕ) (p : List ℕ)
    → Short (components p cs)
    → length p + room ≡ 127
    → Taken t p cs (take_name room cs)
unfolding take_name components descend Short
take_name-Taken t [] room p s h = record {
  name = [];
  rest = [];
  is = refl;
  left = [];
  names = ap (λ q. q ∷ []) (sym (append-nil p));
  on = λ node. refl;
  short = (omega arith, tt);
  less = omega arith;
}
take_name-Taken t (c ∷ cs) zero p s h = elim (Bool-cases (c == slash)) [
  | inl ends ↦ rw ends (Taken-slash t c cs p ends s)
  | inr goes_on ↦
      absurd
        (omega (arith, h, length-append p (c ∷ []), Short-head cs (p ++ c ∷ []) (rw goes_on at s)))
]
take_name-Taken t (c ∷ cs) (suc room) p s h = elim (Bool-cases (c == slash)) [
  | inl ends ↦ rw ends (Taken-slash t c cs p ends s)
  | inr goes_on ↦ rw goes_on (
      Taken-next t c cs p _ goes_on (
        take_name-Taken t cs room (p ++ c ∷ []) (rw goes_on at s)
          (omega (arith, h, length-append p (c ∷ [])))))
]

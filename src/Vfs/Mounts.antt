-- ===== src/Vfs/Mounts.antt =====
-- The choice of the mount point for a path.
use nyan_os.Base.{
  Bool, bool_clash, ap₂, subst, ◌++◌, ◌==◌, ◌||◌, get_or, drop, ℕ, ◌≤◌, ◌≡◌, ◌⊎◌, refl, sym, ap,
  ◌∙◌, true, false, ◌&&◌, Option, none, some, List, [], ◌∷◌, length, if◌then◌else◌, arith,
  Bool-cases, inl, inr,
}
use nyan_os.Paths.{slash}
use nyan_os.Vfs.{Mount, is_match, is_longer, best_mount, starts_with}

abbrev pub Among : Mount → List Mount → Type 0
Among m [] = ⊥
Among m (x ∷ xs) = (m ≡ x) ⊎ Among m xs

-- The mount points looked at: those of the table, and the best one so far.
abbrev pub From : Mount → List Mount → Option Mount → Type 0
From m ms best = Among m ms ⊎ (best ≡ some m)

some_injective : {x y : Mount} → some x ≡ some y → x ≡ y
some_injective {x} e = ap (λ (o : Option Mount). elim o as (λ _. Mount) [ none ↦ x | some m ↦ m ]) e

-- The best match, or none where nothing matches.
record Match (path : List ℕ) (ms : List Mount) (best out : Option Mount) : Type 0 where
  pub nothing : out ≡ none → (m : Mount) → From m ms best → is_match path m ≡ false
  pub comes : (b : Mount) → out ≡ some b → From b ms best
  pub matches : (b : Mount) → out ≡ some b → is_match path b ≡ true
  pub longest :
      (b m : Mount)
      → out ≡ some b
      → From m ms best
      → is_match path m ≡ true
      → length m.path ≤ length b.path

better : List ℕ → Mount → Option Mount → Option Mount
better path x best = if is_match path x && is_longer x best then some x else best

-- What one mount point more changes.
record Better (path : List ℕ) (x : Mount) (best out : Option Mount) : Type 0 where
  comes : (b : Mount) → out ≡ some b → (b ≡ x) ⊎ (best ≡ some b)
  matches : (b : Mount) → out ≡ some b → is_match path b ≡ true
  covers_x : is_match path x ≡ true → (b : Mount) × (out ≡ some b) × (length x.path ≤ length b.path)
  covers_best :
      (m : Mount) → best ≡ some m → (b : Mount) × (out ≡ some b) × (length m.path ≤ length b.path)

better-Better :
    (path : List ℕ) (x : Mount) (best : Option Mount)
    → ((b : Mount) → best ≡ some b → is_match path b ≡ true)
    → Better path x best (better path x best)
unfolding better
better-Better path x best is = elim (Bool-cases (is_match path x)) [
  | inr no_match ↦ rw no_match (record {
    comes = λ b e. inr e;
    matches = is;
    covers_x = λ e. absurd (ground arith);
    covers_best = λ m e. (m, e, omega arith);
  })
  | inl match ↦ elim (Bool-cases (is_longer x best)) [
    | inl longer ↦
        rw (match, longer)
          (record {
            comes = λ b e. inl (sym (some_injective e));
            matches = λ b e. ap (is_match path) (sym (some_injective e)) ∙ match;
            covers_x = λ e. (x, refl, omega arith);
            covers_best = λ m e. (x, refl, beaten m best e longer);
          })
    | inr not_longer ↦
        rw (match, not_longer)
          (record {
            comes = λ b e. inr e;
            matches = is;
            covers_x = λ e. kept best not_longer;
            covers_best = λ m e. (m, e, omega arith);
          })
  ]
]
  where
    beaten :
        (m : Mount) (o : Option Mount)
        → o ≡ some m
        → is_longer x o ≡ true
        → length m.path ≤ length x.path
    beaten m none e l = absurd (ground arith)
    beaten m (some b) e l =
        let same = ap (λ (n : Mount). length n.path) (some_injective e) in ground (arith, same)

    kept :
        (o : Option Mount)
        → is_longer x o ≡ false
        → (b : Mount) × (o ≡ some b) × (length x.path ≤ length b.path)
    kept none l = absurd (ground arith)
    kept (some b) l = (b, refl, ground arith)

-- The best of the rest, after one mount point more.
module _ (path : List ℕ) (x : Mount) (xs : List Mount) (best now out : Option Mount)
    (s : Better path x best now) (r : Match path xs now out) where
  earlier : (b : Mount) → From b xs now → From b (x ∷ xs) best
  earlier b (inl later) = inl (inr later)
  earlier b (inr e) = elim (s.comes b e) [ inl this ↦ inl (inl this) | inr before ↦ inr before ]

  longest_of :
      (b m : Mount)
      → out ≡ some b
      → From m (x ∷ xs) best
      → is_match path m ≡ true
      → length m.path ≤ length b.path
  longest_of b m e (inl (inl this)) t =
      let c = s.covers_x (ap (is_match path) (sym this) ∙ t) in
      let same = ap (λ (n : Mount). length n.path) this in
      omega (arith, same, c.2, r.longest b c.0 e (inr c.1) (s.matches c.0 c.1))
  longest_of b m e (inl (inr later)) t = r.longest b m e (inl later) t
  longest_of b m e (inr before) t =
      let c = s.covers_best m before in
      omega (arith, c.2, r.longest b c.0 e (inr c.1) (s.matches c.0 c.1))

  none_matches :
      out ≡ none
      → (m : Mount) → From m (x ∷ xs) best
      → (is_match path m ≡ true) ⊎ (is_match path m ≡ false)
      → is_match path m ≡ false
  none_matches e m f (inr other) = other
  none_matches e m (inl (inl this)) (inl t) =
      let c = s.covers_x (ap (is_match path) (sym this) ∙ t) in
      absurd (ground (arith, r.nothing e c.0 (inr c.1), s.matches c.0 c.1))
  none_matches e m (inl (inr later)) (inl t) = r.nothing e m (inl later)
  none_matches e m (inr before) (inl t) =
      let c = s.covers_best m before in
      absurd (ground (arith, r.nothing e c.0 (inr c.1), s.matches c.0 c.1))

  step-Match : Match path (x ∷ xs) best out
  step-Match = record {
    nothing = λ e m f. none_matches e m f (Bool-cases (is_match path m));
    comes = λ b e. earlier b (r.comes b e);
    matches = r.matches;
    longest = longest_of;
  }

best_mount-Match :
    (path : List ℕ) (ms : List Mount) (best : Option Mount)
    → ((b : Mount) → best ≡ some b → is_match path b ≡ true)
    → Match path ms best (best_mount path ms best)
unfolding best_mount better
best_mount-Match path [] best is = record {
  nothing = λ e m f. absurd (nobody m e f);
  comes = λ b e. inr e;
  matches = is;
  longest = λ b m e f t. alone b m e f;
}
  where
    nobody : (m : Mount) → best ≡ none → From m [] best → ⊥
    nobody m e (inl f) = absurd f
    nobody m e (inr f) = absurd (ground arith)

    alone : (b m : Mount) → best ≡ some b → From m [] best → length m.path ≤ length b.path
    alone b m e (inl f) = absurd f
    alone b m e (inr f) =
        let same = ap (λ (n : Mount). length n.path) (some_injective (sym e ∙ f)) in
        omega (arith, same)
best_mount-Match path (x ∷ xs) best is =
    let s = better-Better path x best is in
    step-Match path x xs best _ _ s (best_mount-Match path xs (better path x best) s.matches)

starts_with-append : (cs rest : List ℕ) → starts_with cs (cs ++ rest) ≡ true
unfolding starts_with
starts_with-append [] rest = refl
starts_with-append (c ∷ cs) rest = ground (arith, starts_with-append cs rest)

starts_with-drop :
    (cs path : List ℕ) → starts_with cs path ≡ true → path ≡ cs ++ drop (length cs) path
unfolding starts_with
starts_with-drop [] path e = refl
starts_with-drop (c ∷ cs) [] e = absurd (ground arith)
starts_with-drop (c ∷ cs) (d ∷ ds) e =
    let same : d ≡ c = ground arith in
    ap₂ (λ x xs. x ∷ xs) same (starts_with-drop cs ds (ground arith))

get_or-append : (cs rest : List ℕ) → get_or (cs ++ rest) (length cs) 0 ≡ get_or rest 0 0
get_or-append [] rest = refl
get_or-append (c ∷ cs) rest = get_or-append cs rest

-- What may stand behind the path of a mount point: nothing, a slash, or a NUL, where the string ends;
-- behind a path of one byte, anything.
pub data Behind (mounted : List ℕ) : List ℕ → Type 0 where
  whole : Behind mounted []
  before_slash : (rest : List ℕ) → Behind mounted (47 ∷ rest)
  before_nul : (rest : List ℕ) → Behind mounted (0 ∷ rest)
  one_byte : (rest : List ℕ) → length mounted ≡ 1 → Behind mounted rest

pub record Under (path mounted : List ℕ) : Type 0 where
  pub rest : List ℕ
  pub splits : path ≡ mounted ++ rest
  pub behind : Behind mounted rest

ends_match : List ℕ → List ℕ → Bool
ends_match mounted rest = get_or rest 0 0 == slash || get_or rest 0 0 == 0 || length mounted == 1

Behind-ends : (mounted rest : List ℕ) → Behind mounted rest → ends_match mounted rest ≡ true
unfolding ends_match
Behind-ends mounted _ whole = refl
Behind-ends mounted _ (before_slash rest) = refl
Behind-ends mounted _ (before_nul rest) = refl
Behind-ends mounted _ (one_byte rest e) = ground arith

ends-Behind :
    (mounted rest : List ℕ)
    → (get_or rest 0 0 == slash || get_or rest 0 0 == 0 || length mounted == 1) ≡ true
    → Behind mounted rest
ends-Behind mounted [] e = whole
ends-Behind mounted (c ∷ cs) e = elim (Bool-cases (c == 47)) [
  | inl is ↦ subst (λ x. Behind mounted (x ∷ cs)) (ground arith) (before_slash cs)
  | inr not_slash ↦ elim (Bool-cases (c == 0)) [
    | inl nul ↦ subst (λ x. Behind mounted (x ∷ cs)) (ground arith) (before_nul cs)
    | inr other ↦ one_byte (c ∷ cs) (ground arith)
  ]
]

Under-is_match : (path : List ℕ) (m : Mount) → Under path m.path → is_match path m ≡ true
unfolding is_match
Under-is_match path m u =
    rw (u.splits, starts_with-append m.path u.rest, get_or-append m.path u.rest)
      (unfold ends_match in Behind-ends m.path u.rest u.behind)

is_match-Under : (path : List ℕ) (m : Mount) → is_match path m ≡ true → Under path m.path
unfolding is_match
is_match-Under path m e =
    let split = starts_with-drop m.path path (ground arith) in
    let next =
      ap (λ p. get_or p (length m.path) 0) split
      ∙ get_or-append m.path (drop (length m.path) path) in
    record {
      rest = drop (length m.path) path;
      splits = split;
      behind = ends-Behind m.path (drop (length m.path) path) (ground (arith, next));
    }

-- The best match, or none where nothing matches.
pub record Best (path : List ℕ) (ms : List Mount) (out : Option Mount) : Type 0 where
  pub nothing : out ≡ none → (m : Mount) → Among m ms → ¬ Under path m.path
  pub comes : (b : Mount) → out ≡ some b → Among b ms
  pub matches : (b : Mount) → out ≡ some b → Under path b.path
  pub longest :
      (b m : Mount) → out ≡ some b → Among m ms → Under path m.path → length m.path ≤ length b.path

in_table : (m : Mount) (ms : List Mount) → From m ms none → Among m ms
in_table m ms (inl a) = a
in_table m ms (inr e) = absurd (ground arith)

-- A path is under a mount point if it starts with the path of this, and what stands behind is nothing,
-- a slash or a NUL, or the mount point's path has one byte. The mount point chosen for a path is one of
-- the table that the path is under, and no other of these has a longer path; where none is chosen, the
-- path is under none.
pub best_mount-Best : (path : List ℕ) (ms : List Mount) → Best path ms (best_mount path ms none)
best_mount-Best path ms =
    let m = best_mount-Match path ms none (λ b e. absurd (ground arith)) in
    record {
      nothing = λ e x a u. bool_clash (sym (Under-is_match path x u) ∙ m.nothing e x (inl a));
      comes = λ b e. in_table b ms (m.comes b e);
      matches = λ b e. is_match-Under path b (m.matches b e);
      longest = λ b x e a u. m.longest b x e (inl a) (Under-is_match path x u);
    }

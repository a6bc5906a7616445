-- ===== src/Strings/Scan.antt =====
-- The functions that read strings, on strings that stand in the memory.
use nyan_os.Base.{
  ℕ, zero, suc, ◌+◌, ◌<◌, ◌≡◌, ap, ◌∙◌, false, some, List, [], ◌∷◌, arith, length, ◌==◌, Bool-cases,
  inl, inr,
}
use nyan_os.Memory.{Mem}
use nyan_os.Strings.{strlen_from, strlen, strcmp}
use nyan_os.Mq.{same_name}

-- The bytes `xs`, none of them 0, and a NUL stand at `p`.
abbrev pub Text : Mem → ℕ → List ℕ → Type 0
Text m p [] = m p ≡ 0
Text m p (c ∷ cs) = (m p ≡ c) × (0 < c) × Text m (p + 1) cs

strlen_from-length :
    (fuel size s : ℕ) (m : Mem) (xs : List ℕ)
    → Text m s xs
    → length xs < fuel
    → strlen_from fuel size s m ≡ some (size + length xs)
unfolding strlen_from
strlen_from-length zero size s m xs t h = absurd (omega arith)
strlen_from-length (suc fuel) size s m [] t h = ground (arith, t)
strlen_from-length (suc fuel) size s m (c ∷ cs) t h =
    let rest = strlen_from-length fuel (size + 1) (s + 1) m cs t.2 (omega arith) in
    let more : (m s == 0) ≡ false = ground (arith, t.0, t.1) in
    let same : size + 1 + length cs ≡ size + suc (length cs) = omega arith in
    rw more (rest ∙ ap (λ k. some k) same)

-- `strlen` of a string returns the number of bytes before the NUL, with fuel for one round more than
-- that.
pub strlen-length :
    (fuel s : ℕ) (m : Mem) (xs : List ℕ)
    → Text m s xs
    → length xs < fuel
    → strlen fuel s m ≡ some (length xs)
unfolding strlen
strlen-length fuel s m xs t h =
    let none_counted : 0 + length xs ≡ length xs = omega arith in
    strlen_from-length fuel 0 s m xs t h ∙ ap (λ k. some k) none_counted

-- `strcmp` of two strings returns, and its result, the difference of two bytes, is 0 exactly if the
-- strings are the same, as the table of message queues takes it to be. The fuel is for one round more
-- than the first string has bytes.
pub strcmp-same_name :
    (fuel s1 s2 : ℕ) (m : Mem) (xs ys : List ℕ)
    → Text m s1 xs
    → Text m s2 ys
    → length xs < fuel
    → (d : ℕ × ℕ) × (strcmp fuel s1 s2 m ≡ some d) × ((d.0 == d.1) ≡ same_name xs ys)
unfolding strcmp same_name
strcmp-same_name zero s1 s2 m xs ys t u h = absurd (omega arith)
strcmp-same_name (suc fuel) s1 s2 m [] [] t u h =
    ((m s1, m s2), ground (arith, t), ground (arith, t, u))
strcmp-same_name (suc fuel) s1 s2 m [] (d ∷ ds) t u h =
    ((m s1, m s2), ground (arith, t), ground (arith, t, u.0, u.1))
strcmp-same_name (suc fuel) s1 s2 m (c ∷ cs) [] t u h =
    ((m s1, m s2), ground (arith, t.0, t.1, u), ground (arith, t.0, t.1, u))
strcmp-same_name (suc fuel) s1 s2 m (c ∷ cs) (d ∷ ds) t u h = elim (Bool-cases (m s1 == m s2)) [
  | inl eq ↦
      let rest = strcmp-same_name fuel (s1 + 1) (s2 + 1) m cs ds t.2 u.2 (omega arith) in
      (rest.0, ground (arith, t.0, t.1, rest.1), ground (arith, t.0, u.0, rest.2))
  | inr ne ↦ ((m s1, m s2), ground (arith, ne), ground (arith, t.0, u.0))
]

-- ===== src/Ansi/Digits.antt =====
-- Numbers in decimal, and how `ansi_atoi` reads them.
use nyan_os.Base.{
  ℕ, zero, suc, ◌+◌, ◌-◌, ◌*◌, ◌/◌, ◌%◌, ◌^◌, ◌<◌, ◌≤◌, ◌≡◌, refl, sym, ap, ◌∙◌, true, false, List,
  [], ◌∷◌, ◌++◌, append-nil, append_assoc, arith, ltb, lt→ltb, ltb→le, not, ◌&&◌, ◌==◌,
  if◌then◌else◌, if_ind, Bool-cases, inl, inr, length, length-append,
}
use nyan_os.Ansi.{is_digit, skip_others, read_digits, ansi_atoi}

-- The digits of a number; the fuel is a round for each of them.
abbrev pub decimal_fuel : ℕ → ℕ → List ℕ
decimal_fuel zero n = []
decimal_fuel (suc fuel) n =
    let front = decimal_fuel fuel (n / 10) in
    if ltb n 10 then (48 + n) ∷ [] else front ++ (48 + n % 10) ∷ []

abbrev pub decimal : ℕ → List ℕ
decimal n = decimal_fuel (suc n) n

pub data IsDigits : List ℕ → Type 0 where
  nil : IsDigits []
  digit : {c : ℕ} {cs : List ℕ} → is_digit c ≡ true → IsDigits cs → IsDigits (c ∷ cs)

IsDigits-append : {xs ys : List ℕ} → IsDigits xs → IsDigits ys → IsDigits (xs ++ ys)
IsDigits-append nil q = q
IsDigits-append (digit h p) q = digit h (IsDigits-append p q)

decimal_fuel-IsDigits : (f n : ℕ) → IsDigits (decimal_fuel f n)
decimal_fuel-IsDigits zero n = nil
decimal_fuel-IsDigits (suc f) n =
    if_ind IsDigits (ltb n 10) _ _ (λ h. digit (ground arith) nil)
      (λ h. IsDigits-append (decimal_fuel-IsDigits f (n / 10)) (digit (ground arith) nil))

pub decimal-IsDigits : (n : ℕ) → IsDigits (decimal n)
decimal-IsDigits n = decimal_fuel-IsDigits (suc n) n

skip_digit : (c : ℕ) (cs : List ℕ) → is_digit c ≡ true → skip_others (c ∷ cs) ≡ c ∷ cs
unfolding skip_others
skip_digit c cs d =
    let stop : not (c == 0) && not (is_digit c) ≡ false = ground (arith, d) in rw stop refl

skip_others-decimal_fuel :
    (f n : ℕ) (rest : List ℕ)
    → n < f
    → skip_others (decimal_fuel f n ++ rest) ≡ decimal_fuel f n ++ rest
unfolding skip_others
skip_others-decimal_fuel zero n rest h = absurd (omega arith)
skip_others-decimal_fuel (suc f) n rest h = elim (Bool-cases (ltb n 10)) [
  | inl low ↦ let d : is_digit (48 + n) ≡ true = ground arith in rw low (skip_digit (48 + n) rest d)
  | inr high ↦
      rw (high, append_assoc (decimal_fuel f (n / 10)) ((48 + n % 10) ∷ []) rest)
        (skip_others-decimal_fuel f (n / 10) ((48 + n % 10) ∷ rest)
          (omega (arith, ltb→le n 10 high)))
]

read_digit :
    (r c : ℕ) (cs : List ℕ)
    → is_digit c ≡ true
    → read_digits r (c ∷ cs) ≡ read_digits ((r * 10 + (c - 48)) % 2 ^ 32) cs
unfolding read_digits
read_digit r c cs d = rw d refl

read_digits-decimal_fuel :
    (f n : ℕ) (rest : List ℕ)
    → n < f
    → n < 2 ^ 32
    → read_digits 0 (decimal_fuel f n ++ rest) ≡ read_digits n rest
unfolding read_digits
read_digits-decimal_fuel zero n rest h b = absurd (omega arith)
read_digits-decimal_fuel (suc f) n rest h b = elim (Bool-cases (ltb n 10)) [
  | inl low ↦
      let d : is_digit (48 + n) ≡ true = ground arith in
      rw (low, d) (ap (λ r. read_digits r rest) (omega arith))
  | inr high ↦
      rw (high, append_assoc (decimal_fuel f (n / 10)) ((48 + n % 10) ∷ []) rest)
        (read_digits-decimal_fuel f (n / 10) ((48 + n % 10) ∷ rest)
            (omega (arith, ltb→le n 10 high)) (omega arith)
          ∙ read_digit (n / 10) (48 + n % 10) rest (ground arith)
          ∙ ap (λ r. read_digits r rest) (omega arith))
]

length-decimal_fuel : (f k n : ℕ) → n < 10 ^ k → 0 < k → length (decimal_fuel f n) ≤ k
length-decimal_fuel zero k n h p = omega arith
length-decimal_fuel (suc f) zero n h p = absurd (omega arith)
length-decimal_fuel (suc f) (suc zero) n h p = rw (lt→ltb n 10 (omega (arith, h))) (omega arith)
length-decimal_fuel (suc f) (suc (suc k)) n h p =
    if_ind (λ x. length x ≤ suc (suc k)) (ltb n 10) _ _ (λ low. omega arith)
      (λ high. omega (
        arith,
        length-append (decimal_fuel f (n / 10)) ((48 + n % 10) ∷ []),
        length-decimal_fuel f (suc k) (n / 10) (omega (arith, h)) (omega arith),
      ))

pub ansi_atoi-decimal : (n : ℕ) → n < 2 ^ 32 → ansi_atoi (decimal n) ≡ n
unfolding ansi_atoi
ansi_atoi-decimal n h =
    ap ansi_atoi (sym (append-nil (decimal n)))
    ∙ ap (read_digits 0) (skip_others-decimal_fuel (suc n) n [] (omega arith))
    ∙ read_digits-decimal_fuel (suc n) n [] (omega arith) h

pub length-decimal : (n : ℕ) → n < 2 ^ 32 → length (decimal n) ≤ 10
length-decimal n h = length-decimal_fuel (suc n) 10 n (omega (arith, h)) (omega arith)

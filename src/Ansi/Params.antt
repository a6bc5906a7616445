-- ===== src/Ansi/Params.antt =====
-- What the buffer holds after the parameters of a sequence, and what `parse_ansi_params` makes of it.
use nyan_os.Base.{
  ℕ, zero, suc, ◌+◌, ◌<◌, ◌≤◌, ◌^◌, ◌≡◌, refl, sym, ap, ◌∙◌, false, List, [], ◌∷◌, ◌++◌, append-nil,
  append_assoc, arith, ltb, ltb→lt, ltb→le, ◌==◌, Bool-cases, inl, inr, length, length-append, take,
}
use nyan_os.Ansi.{semicolon, ansi_atoi, add_param, parse_from, parse_ansi_params}
use nyan_os.Ansi.Digits.{IsDigits, nil, digit, decimal, decimal-IsDigits, ansi_atoi-decimal}

-- Parameters as a program writes them: in decimal, with semicolons between them.
abbrev pub params_text : ℕ → List ℕ → List ℕ
params_text n [] = decimal n
params_text n (m ∷ ms) = decimal n ++ semicolon ∷ params_text m ms

abbrev pub FitInt : List ℕ → Type 0
FitInt [] = Unit {0}
FitInt (n ∷ ns) = (n < 2 ^ 31) × FitInt ns

take-append : (xs ys : List ℕ) → take (length xs) (xs ++ ys) ≡ xs
take-append [] ys = refl
take-append (x ∷ xs) ys = ap (λ zs. x ∷ zs) (take-append xs ys)

-- The digits of a parameter are passed over.
parse_digits :
    (start xs t ps : List ℕ) (k : ℕ)
    → IsDigits xs
    → parse_from start k (xs ++ t) ps ≡ parse_from start (k + length xs) t ps
unfolding parse_from
parse_digits start [] t ps k nil = ap (λ j. parse_from start j t ps) (omega arith)
parse_digits start (c ∷ cs) t ps k (digit d p) =
    let not_nul : (c == 0) ≡ false = ground (arith, d) in
    let not_semicolon : (c == semicolon) ≡ false = ground (arith, d) in
    rw (not_nul, not_semicolon)
      (parse_digits start cs t ps (suc k) p ∙ ap (λ j. parse_from start j t ps) (omega arith))

parse_field :
    (n : ℕ) (t ps : List ℕ)
    → n < 2 ^ 32
    → parse_from (decimal n ++ t) 0 (decimal n ++ t) ps
      ≡ parse_from (decimal n ++ t) (length (decimal n)) t ps
parse_field n t ps h =
    parse_digits (decimal n ++ t) (decimal n) t ps 0 (decimal-IsDigits n)
    ∙ ap (λ k. parse_from (decimal n ++ t) k t ps) (omega arith)

field_value :
    (n : ℕ) (t : List ℕ) → n < 2 ^ 32 → ansi_atoi (take (length (decimal n)) (decimal n ++ t)) ≡ n
field_value n t h = ap ansi_atoi (take-append (decimal n) t) ∙ ansi_atoi-decimal n h

abbrev add_all : List ℕ → List ℕ → List ℕ
add_all ps [] = ps
add_all ps (n ∷ ns) = add_all (add_param ps n) ns

parse-params_text :
    (n : ℕ) (ms ps zs : List ℕ)
    → FitInt (n ∷ ms)
    → parse_from (params_text n ms ++ 0 ∷ zs) 0 (params_text n ms ++ 0 ∷ zs) ps
      ≡ add_all ps (n ∷ ms)
unfolding parse_from
parse-params_text n [] ps zs (h, _) =
    parse_field n (0 ∷ zs) ps (omega (arith, h))
    ∙ ap (add_param ps) (field_value n (0 ∷ zs) (omega (arith, h)))
parse-params_text n (m ∷ ms) ps zs (h, hs) =
    ap (λ t. parse_from t 0 t ps) (append_assoc (decimal n) (semicolon ∷ params_text m ms) (0 ∷ zs))
    ∙ parse_field n (semicolon ∷ (params_text m ms ++ 0 ∷ zs)) ps (omega (arith, h))
    ∙ ap
        (λ x.
          parse_from (params_text m ms ++ 0 ∷ zs) 0 (params_text m ms ++ 0 ∷ zs) (add_param ps x))
        (field_value n (semicolon ∷ (params_text m ms ++ 0 ∷ zs)) (omega (arith, h)))
    ∙ parse-params_text m ms (add_param ps n) zs hs

take-append_more : (n : ℕ) (ps ns : List ℕ) → length ps ≡ n → take n (ps ++ ns) ≡ ps
take-append_more n ps ns h = ap (λ k. take k (ps ++ ns)) (sym h) ∙ take-append ps ns

take_whole : (n : ℕ) (xs : List ℕ) → length xs ≤ n → take n xs ≡ xs
take_whole zero [] h = refl
take_whole zero (x ∷ xs) h = absurd (omega arith)
take_whole (suc n) [] h = refl
take_whole (suc n) (x ∷ xs) h = ap (λ ys. x ∷ ys) (take_whole n xs (omega arith))

-- The first four parameters are kept.
add_all-take : (ps ns : List ℕ) → length ps ≤ 4 → add_all ps ns ≡ take 4 (ps ++ ns)
unfolding add_param
add_all-take ps [] h = sym (ap (take 4) (append-nil ps) ∙ take_whole 4 ps h)
add_all-take ps (n ∷ ns) h = elim (Bool-cases (ltb (length ps) 4)) [
  | inl room ↦ rw room (
      add_all-take (ps ++ n ∷ []) ns
        (omega (arith, length-append ps (n ∷ []), ltb→lt (length ps) 4 room))
      ∙ ap (take 4) (append_assoc ps (n ∷ []) ns))
  | inr full ↦
      let four : length ps ≡ 4 = omega (arith, ltb→le (length ps) 4 full, h) in
      rw full (
        add_all-take ps ns h
        ∙ take-append_more 4 ps ns four
        ∙ sym (take-append_more 4 ps (n ∷ ns) four))
]

-- The parameters come back, but for those behind the fourth.
pub parse_ansi_params-params_text :
    (n : ℕ) (ms zs : List ℕ)
    → FitInt (n ∷ ms)
    → parse_ansi_params (params_text n ms ++ 0 ∷ zs) ≡ take 4 (n ∷ ms)
unfolding parse_ansi_params
parse_ansi_params-params_text n ms zs h =
    parse-params_text n ms [] zs h ∙ add_all-take [] (n ∷ ms) (omega arith)

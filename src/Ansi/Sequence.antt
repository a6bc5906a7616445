-- ===== src/Ansi/Sequence.antt =====
-- What a whole sequence does.
use nyan_os.Base.{
  ℕ, suc, ◌+◌, ◌-◌, ◌<◌, ◌≤◌, ◌^◌, ◌≡◌, refl, sym, ap, ap₂, ◌∙◌, true, false, ◌||◌, List, [], ◌∷◌,
  ◌++◌, append-nil, append_assoc, arith, lt→ltb, ◌==◌, length, length-append, take, set, replicate,
}
use nyan_os.Ansi.{
  end_params, AnsiContext, AnsiDriver, ansi_normal, ansi_csi, ansi_buf_size, escape, bracket,
  semicolon, is_param_char, in_state, collect, execute, to_normal, ansi_write_char, write_text,
  parse_ansi_params, one_or, is_positive,
}
use nyan_os.Ansi.Digits.{IsDigits, nil, digit, decimal-IsDigits}
use nyan_os.Ansi.Params.{params_text, FitInt, parse_ansi_params-params_text}

-- The context while parameters are typed.
abbrev typed : ℕ → List ℕ → ℕ → AnsiContext
typed color cs z = record {
  color = color;
  state = ansi_csi;
  buf = cs ++ replicate z 0;
  idx = length cs;
}

-- The context in which the command runs after them.
abbrev pub commanded : ℕ → List ℕ → ℕ → AnsiContext
commanded color cs z = record (typed color cs z) { buf = end_params (cs ++ replicate z 0) }

data IsParams : List ℕ → Type 0 where
  none_left : IsParams []
  next : {c : ℕ} {cs : List ℕ} → is_param_char c ≡ true → IsParams cs → IsParams (c ∷ cs)

IsDigits-IsParams : {cs : List ℕ} → IsDigits cs → IsParams cs
IsDigits-IsParams nil = none_left
IsDigits-IsParams (digit {c = c} h p) =
    next (ap (λ b. b || (c == semicolon || c == 63)) h) (IsDigits-IsParams p)

append-IsParams : {xs ys : List ℕ} → IsParams xs → IsParams ys → IsParams (xs ++ ys)
append-IsParams none_left q = q
append-IsParams (next h p) q = next h (append-IsParams p q)

set-end :
    (c z : ℕ) (pre : List ℕ)
    → set (pre ++ replicate (suc z) 0) (length pre) c ≡ (pre ++ c ∷ []) ++ replicate z 0
set-end c z [] = refl
set-end c z (x ∷ xs) = ap (λ ys. x ∷ ys) (set-end c z xs)

params_text-IsParams : (n : ℕ) (ms : List ℕ) → IsParams (params_text n ms)
params_text-IsParams n [] = IsDigits-IsParams (decimal-IsDigits n)
params_text-IsParams n (m ∷ ms) =
    append-IsParams (IsDigits-IsParams (decimal-IsDigits n)) (next refl (params_text-IsParams m ms))

pub one_or_lem : (x : ℕ) → 1 ≤ x → x < 2 ^ 31 → one_or x ≡ x
one_or_lem x low high =
    let positive : is_positive x ≡ true = ground (arith, low, high) in rw positive refl

-- The sequence that moves the cursor.
abbrev pub cursor_text : ℕ → ℕ → List ℕ
cursor_text row column = escape ∷ bracket ∷ params_text row (column ∷ []) ++ 72 ∷ []

module _ {D : Type 0} (driver : AnsiDriver D) where
  write_text-append :
      (xs ys : List ℕ) (s : AnsiContext × D)
      → write_text driver (xs ++ ys) s ≡ write_text driver ys (write_text driver xs s)
  unfolding write_text
  write_text-append [] ys s = refl
  write_text-append (x ∷ xs) ys (ctx, d) = write_text-append xs ys (ansi_write_char driver ctx x d)

  typed_char :
      (c color z : ℕ) (pre : List ℕ) (d : D)
      → is_param_char c ≡ true
      → length pre < 31
      → ansi_write_char driver (typed color pre (suc z)) c d ≡ (typed color (pre ++ c ∷ []) z, d)
  unfolding ansi_write_char in_state collect
  typed_char c color z pre d p h =
      rw (p, lt→ltb (length pre) 31 h)
        (ap₂ (λ b i. (record { color = color; state = ansi_csi; buf = b; idx = i }, d))
          (set-end c z pre) (sym (length-append pre (c ∷ []))))

  typed_text :
      (cs : List ℕ) (color z : ℕ) (pre : List ℕ) (d : D)
      → IsParams cs
      → length pre + length cs ≤ 31
      → write_text driver cs (typed color pre (length cs + z), d) ≡ (typed color (pre ++ cs) z, d)
  unfolding write_text
  typed_text [] color z pre d none_left h =
      ap₂ (λ b k. (typed color b k, d)) (sym (append-nil pre)) (omega arith)
  typed_text (c ∷ cs) color z pre d (next p ps) h =
      ap (write_text driver cs) (
        ap (λ k. ansi_write_char driver (typed color pre k) c d) {y = suc (length cs + z)}
          (omega arith)
        ∙ typed_char c color (length cs + z) pre d p (omega arith))
      ∙ typed_text cs color z (pre ++ c ∷ []) d ps (omega (arith, length-append pre (c ∷ [])))
      ∙ ap (λ b. (typed color b z, d)) (append_assoc pre (c ∷ []) cs)

  after_bracket :
      (ctx : AnsiContext) (text : List ℕ) (d : D)
      → ctx.state ≡ ansi_normal
      → write_text driver (escape ∷ bracket ∷ text) (ctx, d)
        ≡ write_text driver text (typed ctx.color [] ansi_buf_size, d)
  unfolding write_text ansi_write_char in_state
  after_bracket ctx text d h = rw h refl

  last_char :
      (c color z : ℕ) (cs : List ℕ) (d : D)
      → is_param_char c ≡ false
      → write_text driver (c ∷ []) (typed color cs z, d)
        ≡ to_normal driver
            (execute driver c (parse_ansi_params (cs ++ replicate z 0)) (commanded color cs z) d)
  unfolding write_text ansi_write_char in_state
  last_char c color z cs d h = rw h refl

  -- In normal state, an escape, a bracket, parameters in decimal, of at most 31 characters in all and
  -- below 2 ^ 31 each, and a character that is no part of parameters execute the command of this
  -- character with the first four of the parameters, and leave the normal state.
  pub write_text-execute :
      (n : ℕ) (ms : List ℕ) (c : ℕ) (ctx : AnsiContext) (d : D)
      → ctx.state ≡ ansi_normal
      → FitInt (n ∷ ms)
      → length (params_text n ms) ≤ 31
      → is_param_char c ≡ false
      → write_text driver (escape ∷ bracket ∷ params_text n ms ++ c ∷ []) (ctx, d)
        ≡ to_normal driver (
            execute driver c
              (take 4 (n ∷ ms))
              (commanded ctx.color (params_text n ms) (32 - length (params_text n ms)))
              d)
  write_text-execute n ms c ctx d h fit short last =
      after_bracket ctx (params_text n ms ++ c ∷ []) d h
      ∙ write_text-append (params_text n ms) (c ∷ []) _
      ∙ ap
          (λ k.
            write_text driver (c ∷ [])
              (write_text driver (params_text n ms) (typed ctx.color [] k, d)))
          {x = 32} {y = length (params_text n ms) + z} (omega (arith, short))
      ∙ ap (write_text driver (c ∷ [])) (
          typed_text (params_text n ms) ctx.color z [] d (params_text-IsParams n ms)
            (omega (arith, short)))
      ∙ last_char c ctx.color z (params_text n ms) d last
      ∙ ap
          (λ ps.
            to_normal driver (execute driver c ps (commanded ctx.color (params_text n ms) z) d))
          (ap (λ k. parse_ansi_params (params_text n ms ++ replicate k 0)) {x = z}
              {y = suc (31 - length (params_text n ms))} (omega (arith, short))
            ∙ parse_ansi_params-params_text n ms (replicate (31 - length (params_text n ms)) 0) fit)
    where
      z : ℕ
      z = 32 - length (params_text n ms)

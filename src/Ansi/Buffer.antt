-- ===== src/Ansi/Buffer.antt =====
-- The buffer of a sequence is never left, whatever is written.
use nyan_os.Base.{
  ℕ, zero, suc, ◌-◌, ◌≤◌, ◌≡◌, refl, ap, ◌∙◌, ◌&&◌, ◌||◌, List, [], ◌∷◌, arith, ltb, ltb→lt, leb,
  ◌==◌, if_ind, length, length-set, length-replicate, get_or, get_or-set_ne, replicate,
}
use nyan_os.Ansi.{
  semicolon, end_params, AnsiContext, AnsiDriver, AnsiState, ansi_normal, ansi_esc, ansi_csi,
  ansi_buf_size, escape, bracket, is_param_char, in_state, collect, apply_color, color_code,
  color_codes, execute, ansi_write_char, write_text, parse_ansi_params,
}

-- The buffer is full size, ends in a NUL, and has NULs from `idx` on.
pub record IsValid (ctx : AnsiContext) : Type 0 where
  pub size : length ctx.buf ≡ ansi_buf_size
  pub bound : ctx.idx ≤ ansi_buf_size - 1
  pub ended : (k : ℕ) → ctx.idx ≤ k → get_or ctx.buf k 0 ≡ 0

collect-IsValid : (c : ℕ) (ctx : AnsiContext) → IsValid ctx → IsValid (collect c ctx)
unfolding collect
collect-IsValid c ctx v =
    if_ind IsValid (ltb ctx.idx (ansi_buf_size - 1)) _ _
      (λ room. record {
        size = length-set ctx.buf ctx.idx c ∙ v.size;
        bound = omega (arith, ltb→lt ctx.idx (ansi_buf_size - 1) room);
        ended = λ k h.
            get_or-set_ne ctx.buf ctx.idx k c 0 (λ e. omega (arith, e, h))
            ∙ v.ended k (omega (arith, h));
      })
      (λ full. v)

get_or-zeros : (n k : ℕ) → get_or (replicate n zero) k zero ≡ zero
get_or-zeros zero k = refl
get_or-zeros (suc n) zero = refl
get_or-zeros (suc n) (suc k) = get_or-zeros n k

length-end_params : (bs : List ℕ) → length (end_params bs) ≡ length bs
unfolding end_params
length-end_params [] = refl
length-end_params (c ∷ cs) =
    if_ind (λ (x : List ℕ). length x ≡ suc (length cs)) (c == 0) _ _ (λ h. refl)
      (λ h.
        if_ind (λ (x : List ℕ). length x ≡ suc (length cs)) (c == semicolon) _ _
          (λ e. ap suc (length-end_params cs)) (λ n. ap suc (length-end_params cs)))

end_params-nul : (bs : List ℕ) (k : ℕ) → get_or bs k 0 ≡ 0 → get_or (end_params bs) k 0 ≡ 0
unfolding end_params
end_params-nul [] k e = refl
end_params-nul (c ∷ cs) zero e =
    if_ind (λ (x : List ℕ). get_or x zero 0 ≡ 0) (c == 0) _ _ (λ h. e)
      (λ h. if_ind (λ (x : List ℕ). get_or x zero 0 ≡ 0) (c == semicolon) _ _ (λ s. refl) (λ n. e))
end_params-nul (c ∷ cs) (suc k) e =
    if_ind (λ (x : List ℕ). get_or x (suc k) 0 ≡ 0) (c == 0) _ _ (λ h. e)
      (λ h.
        if_ind (λ (x : List ℕ). get_or x (suc k) 0 ≡ 0) (c == semicolon) _ _
          (λ s. end_params-nul cs k e) (λ n. end_params-nul cs k e))

end_params-IsValid :
    (ctx : AnsiContext) → IsValid ctx → IsValid (record ctx { buf = end_params ctx.buf })
end_params-IsValid ctx v = record {
  size = length-end_params ctx.buf ∙ v.size;
  bound = v.bound;
  ended = λ k h. end_params-nul ctx.buf k (v.ended k h);
}

abbrev Same : AnsiContext → AnsiContext → Type 0
Same s t = (t.buf ≡ s.buf) × (t.idx ≡ s.idx)

module _ {D : Type 0} (driver : AnsiDriver D) where
  abbrev SameIn : AnsiContext → AnsiContext × D → Type 0
  SameIn ctx s = Same ctx s.0

  abbrev ValidIn : AnsiContext × D → Type 0
  ValidIn s = IsValid s.0

  color_code-Same :
      (code : ℕ) (ctx : AnsiContext) (d : D) → Same ctx (color_code driver code (ctx, d)).0
  unfolding color_code apply_color
  color_code-Same code ctx d =
      if_ind (SameIn ctx) (leb 30 code && leb code 37) _ _ (λ h. (refl, refl))
        (λ h. if_ind (SameIn ctx) (code == 0) _ _ (λ z. (refl, refl)) (λ z. (refl, refl)))

  color_codes-Same :
      (codes : List ℕ) (ctx : AnsiContext) (d : D) → Same ctx (color_codes driver codes (ctx, d)).0
  unfolding color_codes
  color_codes-Same [] ctx d = (refl, refl)
  color_codes-Same (code ∷ codes) ctx d =
      let s = color_code driver code (ctx, d) in
      let first = color_code-Same code ctx d in
      let rest = color_codes-Same codes s.0 s.1 in (rest.0 ∙ first.0, rest.1 ∙ first.1)

  -- No command touches the buffer.
  execute-Same :
      (c : ℕ) (ps : List ℕ) (ctx : AnsiContext) (d : D) → Same ctx (execute driver c ps ctx d).0
  unfolding execute
  execute-Same c ps ctx d =
      if_ind (SameIn ctx) (c == 72 || c == 102) _ _ (λ h. (refl, refl))
        (λ h1.
          if_ind (SameIn ctx) (c == 74) _ _ (λ h. (refl, refl))
            (λ h2.
              if_ind (SameIn ctx) (c == 109) _ _ (λ h. color_codes-Same ps ctx d)
                (λ h3.
                  if_ind (SameIn ctx) (c == 104) _ _ (λ h. (refl, refl))
                    (λ h4.
                      if_ind (SameIn ctx) (c == 108) _ _ (λ h. (refl, refl)) (λ h. (refl, refl))))))

  IsValid-Same : (s t : AnsiContext) → Same s t → IsValid s → IsValid t
  IsValid-Same s t (b, i) v = record {
    size = ap length b ∙ v.size;
    bound = omega (arith, i, v.bound);
    ended = λ k h. ap (λ x. get_or x k 0) b ∙ v.ended k (omega (arith, i, h));
  }

  in_state-IsValid :
      (state : AnsiState) (ctx : AnsiContext) (c : ℕ) (d : D)
      → IsValid ctx
      → IsValid (in_state driver state ctx c d).0
  unfolding in_state
  in_state-IsValid ansi_normal ctx c d v =
      if_ind ValidIn (c == escape) _ _ (λ h. IsValid-Same ctx _ (refl, refl) v) (λ h. v)
  in_state-IsValid ansi_esc ctx c d v =
      if_ind ValidIn (c == bracket) _ _
        (λ h. record {
          size = length-replicate 32 zero;
          bound = omega arith;
          ended = λ k h. get_or-zeros 32 k;
        })
        (λ h. IsValid-Same ctx _ (refl, refl) v)
  in_state-IsValid ansi_csi ctx c d v =
      if_ind ValidIn (is_param_char c) _ _ (λ h. collect-IsValid c ctx v)
        (λ h.
          IsValid-Same (record ctx { buf = end_params ctx.buf }) _
            (execute-Same c (parse_ansi_params ctx.buf) (record ctx { buf = end_params ctx.buf }) d)
            (end_params-IsValid ctx v))

  -- Whatever is written, from a state where the buffer has its size and NULs from `idx` on, this stays
  -- so, and `idx` is at most 31: no write is out of bounds, and the parameters end in a NUL.
  pub write_text-IsValid :
      (text : List ℕ) (ctx : AnsiContext) (d : D)
      → IsValid ctx
      → IsValid (write_text driver text (ctx, d)).0
  unfolding write_text ansi_write_char
  write_text-IsValid [] ctx d v = v
  write_text-IsValid (c ∷ cs) ctx d v =
      let s = in_state driver ctx.state ctx c d in
      write_text-IsValid cs s.0 s.1 (in_state-IsValid ctx.state ctx c d v)

-- ===== src/Ansi/Tests.antt =====
-- A driver that keeps a log of its calls, and sequences of the terminal.
use nyan_os.Base.{
  ℕ, zero, suc, ◌≡◌, refl, Bool, false, some, none, List, [], ◌∷◌, ◌++◌, arith, replicate, get_or,
}
use nyan_os.Ansi.{
  AnsiContext, AnsiDriver, ansi_normal, white, escape, bracket, skip_others, read_digits, ansi_atoi,
  add_param, parse_from, parse_ansi_params, collect, apply_color, color_code, color_codes, execute,
  in_state, ansi_write_char, write_text,
}
use nyan_os.Ansi.Buffer.{IsValid, write_text-IsValid}
use nyan_os.Ansi.Commands.{move_to, command_text, effect, write_text-command_text}

data Call : Type 0 where
  wrote : ℕ → Call
  colored : ℕ → Call
  moved : ℕ → ℕ → Call
  cleared : ℕ → Call
  mode_set : ℕ → Bool → Call

abbrev log : AnsiDriver (List Call)
log = record {
  put_char = some (λ d c. d ++ wrote c ∷ []);
  set_color = some (λ d c. d ++ colored c ∷ []);
  set_cursor = some (λ d x y. d ++ moved x y ∷ []);
  clear_screen = some (λ d m. d ++ cleared m ∷ []);
  scroll = none;
  set_mode = some (λ d m b. d ++ mode_set m b ∷ []);
}

abbrev fresh : AnsiContext
fresh = record { color = white; state = ansi_normal; buf = replicate 32 0; idx = 0 }

-- A red `A`, a cleared screen, and the hidden cursor.
abbrev sample : List ℕ
sample =
    escape ∷ bracket ∷ 51 ∷ 49 ∷ 109 ∷ 65 ∷ escape ∷ bracket ∷ 50 ∷ 74 ∷ escape ∷ bracket ∷ 63 ∷ 50
    ∷ 53 ∷ 108 ∷ []

sample_log :
    (write_text log sample (fresh, [])).1
    ≡ colored 0xAA0000 ∷ wrote 65 ∷ cleared 2 ∷ mode_set 25 false ∷ []
unfolding write_text ansi_write_char in_state collect execute color_codes color_code apply_color
    parse_ansi_params parse_from add_param ansi_atoi read_digits skip_others
sample_log = refl

zeros : (n k : ℕ) → get_or (replicate n zero) k zero ≡ zero
zeros zero k = refl
zeros (suc n) zero = refl
zeros (suc n) (suc k) = zeros n k

fresh-IsValid : IsValid fresh
fresh-IsValid = record { size = refl; bound = omega arith; ended = λ k h. zeros 32 k }

write_text-IsValid_example : IsValid (write_text log sample (fresh, [])).0
write_text-IsValid_example = write_text-IsValid log sample fresh [] fresh-IsValid

-- The cursor in row 12 and column 40, where a colour was set before.
write_text-command_text_example :
    let s = write_text log (command_text (move_to 12 40)) (fresh, colored white ∷ []) in
    ((s.0.color, s.1) ≡ effect log (move_to 12 40) white (colored white ∷ []))
    × (s.0.state ≡ ansi_normal)
write_text-command_text_example =
    write_text-command_text log (move_to 12 40) fresh (colored white ∷ []) refl
      ((omega arith, omega arith), (omega arith, omega arith))

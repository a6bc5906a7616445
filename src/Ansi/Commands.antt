-- ===== src/Ansi/Commands.antt =====
-- What each command of the terminal does to the driver and the colour.
use nyan_os.Base.{
  ℕ, ◌+◌, ◌-◌, ◌<◌, ◌≤◌, ◌^◌, ◌≡◌, refl, ap, ap₂, ◌∙◌, Bool, true, false, Option, none, some, List,
  [], ◌∷◌, ◌++◌, arith, leb, ◌==◌, length, length-append, get_or,
}
use nyan_os.Ansi.{
  AnsiContext, AnsiDriver, ansi_normal, semicolon, execute, color_codes, color_code, apply_color,
  write_text, call, call_two,
}
use nyan_os.Ansi.Digits.{decimal, length-decimal}
use nyan_os.Ansi.Params.{params_text}
use nyan_os.Ansi.Sequence.{write_text-execute, one_or_lem}

pub data Command : Type 0 where
  move_to : ℕ → ℕ → Command
  erase : Command
  paint : ℕ → Command
  reset : Command
  switch_mode : ℕ → Bool → Command

-- Rows and columns count from 1; there are eight colours; no mode is 0.
abbrev pub IsCommand : Command → Type 0
IsCommand (move_to row column) = ((1 ≤ row) × (row < 2 ^ 31)) × ((1 ≤ column) × (column < 2 ^ 31))
IsCommand erase = Unit {0}
IsCommand (paint n) = n < 8
IsCommand reset = Unit {0}
IsCommand (switch_mode mode on) = (1 ≤ mode) × (mode < 2 ^ 31)

abbrev pub command_text : Command → List ℕ
command_text (move_to row column) = 27 ∷ 91 ∷ params_text row (column ∷ []) ++ 72 ∷ []
command_text erase = 27 ∷ 91 ∷ params_text 2 [] ++ 74 ∷ []
command_text (paint n) = 27 ∷ 91 ∷ params_text (30 + n) [] ++ 109 ∷ []
command_text reset = 27 ∷ 91 ∷ params_text 0 [] ++ 109 ∷ []
command_text (switch_mode mode true) = 27 ∷ 91 ∷ params_text mode [] ++ 104 ∷ []
command_text (switch_mode mode false) = 27 ∷ 91 ∷ params_text mode [] ++ 108 ∷ []

-- Black, red, green, yellow, blue, magenta, cyan, white.
abbrev pub color_of : ℕ → ℕ
color_of n =
    get_or
      (0x000000 ∷ 0xAA0000 ∷ 0x00AA00 ∷ 0xFFFF00 ∷ 0x0000AA ∷ 0xAA00AA ∷ 0x00AAAA ∷ 0xFFFFFF ∷ []) n
      0

abbrev pub with_function : {D F : Type 0} → Option F → (F → D) → D → D
with_function none g d = d
with_function (some f) g d = g f

module _ {D : Type 0} (driver : AnsiDriver D) where
  -- The colour and the driver after a command; a function that the driver lacks does nothing.
  abbrev pub effect : Command → ℕ → D → ℕ × D
  effect (move_to row column) color d =
      (color, with_function driver.set_cursor (λ f. f d (column - 1) (row - 1)) d)
  effect erase color d = (color, with_function driver.clear_screen (λ f. f d 2) d)
  effect (paint n) color d = (color_of n, with_function driver.set_color (λ f. f d (color_of n)) d)
  effect reset color d = (0xFFFFFF, with_function driver.set_color (λ f. f d 0xFFFFFF) d)
  effect (switch_mode mode on) color d = (color, with_function driver.set_mode (λ f. f d mode on) d)

  call_lem :
      {A : Type 0} (o : Option (D → A → D)) (a : A) (d : D)
      → call o a d ≡ with_function o (λ f. f d a) d
  call_lem none a d = refl
  call_lem (some f) a d = refl

  call_two_lem :
      {A B : Type 0} (o : Option (D → A → B → D)) (a : A) (b : B) (d : D)
      → call_two o a b d ≡ with_function o (λ f. f d a b) d
  call_two_lem none a b d = refl
  call_two_lem (some f) a b d = refl

  one_short : (n : ℕ) → n < 2 ^ 31 → length (params_text n []) ≤ 31
  one_short n h = omega (arith, length-decimal n (omega (arith, h)))

  two_short : (n m : ℕ) → n < 2 ^ 31 → m < 2 ^ 31 → length (params_text n (m ∷ [])) ≤ 31
  two_short n m h k = omega (
    arith,
    length-append (decimal n) (semicolon ∷ decimal m),
    length-decimal n (omega (arith, h)),
    length-decimal m (omega (arith, k)),
  )

  -- In normal state, the sequence of each command does what the command is for, and leaves the state
  -- normal: one moves the cursor to a row and a column from 1 on, below 2 ^ 31, counted from 0 then, one
  -- clears the screen, one sets one of the eight colours, one resets the colour to white, and one
  -- switches a mode, not 0 and below 2 ^ 31, on or off. No other function of the driver is called.
  pub write_text-command_text :
      (cmd : Command) (ctx : AnsiContext) (d : D)
      → ctx.state ≡ ansi_normal
      → IsCommand cmd
      → let s = write_text driver (command_text cmd) (ctx, d) in
        ((s.0.color, s.1) ≡ effect cmd ctx.color d) × (s.0.state ≡ ansi_normal)
  unfolding execute color_codes color_code apply_color
  write_text-command_text (move_to row column) ctx d h ((r1, r2), (c1, c2)) =
      let run =
        write_text-execute driver row (column ∷ []) 72 ctx d h (r2, (c2, tt))
          (two_short row column r2 c2) refl in
      (
        ap (λ s. (s.0.color, s.1)) run
            ∙ ap₂ (λ x y. (ctx.color, call_two driver.set_cursor (x - 1) (y - 1) d))
                (one_or_lem column c1 c2) (one_or_lem row r1 r2)
            ∙ ap (λ e. (ctx.color, e)) (call_two_lem driver.set_cursor (column - 1) (row - 1) d),
        ap (λ s. s.0.state) run,
      )
  write_text-command_text erase ctx d h ok =
      let run = write_text-execute driver 2 [] 74 ctx d h (omega arith, tt) (omega arith) refl in
      (
        ap (λ s. (s.0.color, s.1)) run
            ∙ ap (λ e. (ctx.color, e)) (call_lem driver.clear_screen 2 d),
        ap (λ s. s.0.state) run,
      )
  write_text-command_text (paint n) ctx d h ok =
      let run =
        write_text-execute driver (30 + n) [] 109 ctx d h (omega arith, tt)
          (one_short (30 + n) (omega arith)) refl in
      let low : leb 30 (30 + n) ≡ true = ground arith in
      let high : leb (30 + n) 37 ≡ true = ground arith in
      let back : 30 + n - 30 ≡ n = omega arith in
      let painted = rw (low, high, back) at run in
      (
        ap (λ s. (s.0.color, s.1)) painted
            ∙ ap (λ e. (color_of n, e)) (call_lem driver.set_color (color_of n) d),
        ap (λ s. s.0.state) painted,
      )
  write_text-command_text reset ctx d h ok =
      let run = write_text-execute driver 0 [] 109 ctx d h (omega arith, tt) (omega arith) refl in
      (
        ap (λ s. (s.0.color, s.1)) run
            ∙ ap (λ e. (0xFFFFFF, e)) (call_lem driver.set_color 0xFFFFFF d),
        ap (λ s. s.0.state) run,
      )
  write_text-command_text (switch_mode mode true) ctx d h ok =
      let run =
        write_text-execute driver mode [] 104 ctx d h (ok.1, tt) (one_short mode ok.1) refl in
      let some_mode : (mode == 0) ≡ false = ground (arith, ok.0) in
      let switched = rw some_mode at run in
      (
        ap (λ s. (s.0.color, s.1)) switched
            ∙ ap (λ e. (ctx.color, e)) (call_two_lem driver.set_mode mode true d),
        ap (λ s. s.0.state) switched,
      )
  write_text-command_text (switch_mode mode false) ctx d h ok =
      let run =
        write_text-execute driver mode [] 108 ctx d h (ok.1, tt) (one_short mode ok.1) refl in
      let some_mode : (mode == 0) ≡ false = ground (arith, ok.0) in
      let switched = rw some_mode at run in
      (
        ap (λ s. (s.0.color, s.1)) switched
            ∙ ap (λ e. (ctx.color, e)) (call_two_lem driver.set_mode mode false d),
        ap (λ s. s.0.state) switched,
      )

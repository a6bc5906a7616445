-- ===== src/Ansi.antt =====
-- The escape sequences of src/libc/ansi.c, with which the terminal and the kernel's console are driven.
-- A string is the list of its characters, up to its end or the first NUL. The driver is a table of
-- functions on the driver's own data, each of which may be missing. An `int` is kept modulo 2 ^ 32, and
-- is positive below 2 ^ 31; the source's sums of more digits than an `int` holds have no defined value.
pub mod Digits
pub mod Params
pub mod Buffer
pub mod Sequence
pub mod Commands
mod Tests
use nyan_os.Base.{
  ℕ, zero, suc, ◌+◌, ◌-◌, ◌*◌, ◌%◌, ◌^◌, Bool, true, false, not, ◌&&◌, ◌||◌, Option, none, some,
  List, [], ◌∷◌, ◌++◌, ltb, leb, ◌==◌, if◌then◌else◌, length, get_or, set, take, replicate,
}

abbrev pub ansi_buf_size : ℕ
ansi_buf_size = 32

pub data AnsiState : Type 0 where
  ansi_normal : AnsiState
  ansi_esc : AnsiState
  ansi_csi : AnsiState

pub record AnsiContext : Type 0 where
  pub color : ℕ
  pub state : AnsiState
  pub buf : List ℕ
  pub idx : ℕ

pub record AnsiDriver (D : Type 0) : Type 0 where
  pub put_char : Option (D → ℕ → D)
  pub set_color : Option (D → ℕ → D)
  pub set_cursor : Option (D → ℕ → ℕ → D)
  pub clear_screen : Option (D → ℕ → D)
  pub scroll : Option (D → D)
  pub set_mode : Option (D → ℕ → Bool → D)

abbrev pub white : ℕ
white = 0xFFFFFF

abbrev pub g_ansi_palette : List ℕ
g_ansi_palette =
    0x000000 ∷ 0xAA0000 ∷ 0x00AA00 ∷ 0xFFFF00 ∷ 0x0000AA ∷ 0xAA00AA ∷ 0x00AAAA ∷ white ∷ []

-- The characters: `0`, `9`, `;`, `?`, `[`, escape.
abbrev pub is_digit : ℕ → Bool
is_digit c = leb 48 c && leb c 57

abbrev pub semicolon : ℕ
semicolon = 59

abbrev pub escape : ℕ
escape = 27

abbrev pub bracket : ℕ
bracket = 91

-- The two loops of `ansi_atoi`.
pub skip_others : List ℕ → List ℕ
skip_others [] = []
skip_others (c ∷ cs) = if not (c == 0) && not (is_digit c) then skip_others cs else c ∷ cs

-- In the source the sum is an `int`, whose value is not defined from 2 ^ 31 on; here it wraps round.
pub read_digits : ℕ → List ℕ → ℕ
read_digits res [] = res
read_digits res (c ∷ cs) =
    let rest = read_digits ((res * 10 + (c - 48)) % 2 ^ 32) cs in if is_digit c then rest else res

pub ansi_atoi : List ℕ → ℕ
unfolding skip_others read_digits
ansi_atoi s = read_digits 0 (skip_others s)

-- `out_params[(*out_cnt)++] = ...`, where there is room.
pub add_param : List ℕ → ℕ → List ℕ
add_param params x = if ltb (length params) 4 then params ++ x ∷ [] else params

-- From `ptr`, with `n` characters between `start` and it; a semicolon ends the string at `start`.
pub parse_from : List ℕ → ℕ → List ℕ → List ℕ → List ℕ
unfolding ansi_atoi add_param
parse_from start n [] params = add_param params (ansi_atoi (take n start))
parse_from start n (c ∷ cs) params =
    let ended = parse_from cs 0 cs (add_param params (ansi_atoi (take n start))) in
    let longer = parse_from start (suc n) cs params in
    if c == 0
    then add_param params (ansi_atoi (take n start))
    else if c == semicolon
    then ended
    else longer

-- The parameters that the buffer holds, their number is the length of the list.
pub parse_ansi_params : List ℕ → List ℕ
unfolding parse_from
parse_ansi_params buf = parse_from buf 0 buf []

-- What is left of the buffer then: each semicolon is overwritten by a NUL.
pub end_params : List ℕ → List ℕ
end_params [] = []
end_params (c ∷ cs) =
    let rest = end_params cs in
    if c == 0 then c ∷ cs else if c == semicolon then 0 ∷ rest else c ∷ rest

abbrev pub param : List ℕ → ℕ → ℕ
param params i = get_or params i 0

abbrev pub is_positive : ℕ → Bool
is_positive x = ltb 0 x && ltb x (2 ^ 31)

abbrev pub one_or : ℕ → ℕ
one_or x = if is_positive x then x else 1

-- Calls of the driver: nothing happens where the function is missing.
abbrev pub call : {D A : Type 0} → Option (D → A → D) → A → D → D
call none a d = d
call (some f) a d = f d a

abbrev pub call_two : {D A B : Type 0} → Option (D → A → B → D) → A → B → D → D
call_two none a b d = d
call_two (some f) a b d = f d a b

pub collect : ℕ → AnsiContext → AnsiContext
collect c ctx =
    if ltb ctx.idx (ansi_buf_size - 1)
    then record ctx { buf = set ctx.buf ctx.idx c; idx = ctx.idx + 1 }
    else ctx

abbrev pub is_param_char : ℕ → Bool
is_param_char c = is_digit c || (c == semicolon || c == 63)

module _ {D : Type 0} (driver : AnsiDriver D) where
  pub apply_color : ℕ → AnsiContext → D → AnsiContext × D
  apply_color color ctx d = (record ctx { color = color }, call driver.set_color color d)

  pub color_code : ℕ → AnsiContext × D → AnsiContext × D
  unfolding apply_color
  color_code code (ctx, d) =
      if leb 30 code && leb code 37
      then apply_color (get_or g_ansi_palette (code - 30) 0) ctx d
      else if code == 0
      then apply_color white ctx d
      else (ctx, d)

  pub color_codes : List ℕ → AnsiContext × D → AnsiContext × D
  unfolding color_code
  color_codes [] s = s
  color_codes (code ∷ codes) s = color_codes codes (color_code code s)

  abbrev pub mode_change : List ℕ → Bool → D → D
  mode_change params enabled d =
      if not (param params 0 == 0) then call_two driver.set_mode (param params 0) enabled d else d

  -- The commands: `H` and `f`, `J`, `m`, `h`, `l`; any other character does nothing.
  pub execute : ℕ → List ℕ → AnsiContext → D → AnsiContext × D
  unfolding color_codes
  execute c params ctx d =
      if c == 72 || c == 102
      then (
        ctx,
        call_two driver.set_cursor (one_or (param params 1) - 1) (one_or (param params 0) - 1) d,
      )
      else if c == 74
      then (ctx, if param params 0 == 2 then call driver.clear_screen 2 d else d)
      else if c == 109
      then color_codes params (ctx, d)
      else if c == 104
      then (ctx, mode_change params true d)
      else if c == 108
      then (ctx, mode_change params false d)
      else (ctx, d)

  abbrev pub to_normal : AnsiContext × D → AnsiContext × D
  to_normal (ctx, d) = (record ctx { state = ansi_normal }, d)

  pub in_state : AnsiState → AnsiContext → ℕ → D → AnsiContext × D
  unfolding collect execute parse_ansi_params end_params
  in_state ansi_normal ctx c d =
      if c == escape then (record ctx { state = ansi_esc }, d) else (ctx, call driver.put_char c d)
  in_state ansi_esc ctx c d =
      if c == bracket
      then (record ctx { state = ansi_csi; idx = 0; buf = replicate ansi_buf_size 0 }, d)
      else (record ctx { state = ansi_normal }, d)
  in_state ansi_csi ctx c d =
      if is_param_char c
      then (collect c ctx, d)
      else to_normal
          (execute c (parse_ansi_params ctx.buf) (record ctx { buf = end_params ctx.buf }) d)

  pub ansi_write_char : AnsiContext → ℕ → D → AnsiContext × D
  unfolding in_state
  ansi_write_char ctx c d = in_state ctx.state ctx c d

  -- The characters of a text, one after the other.
  pub write_text : List ℕ → AnsiContext × D → AnsiContext × D
  unfolding ansi_write_char
  write_text [] s = s
  write_text (c ∷ cs) (ctx, d) = write_text cs (ansi_write_char ctx c d)

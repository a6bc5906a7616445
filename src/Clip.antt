-- ===== src/Clip.antt =====
-- The clipping of windows, src/gui/window.c: which rectangles of a window are not behind another one.
-- A coordinate is kept as its distance from a point 2 ^ 62 left of and above the corner of the screen,
-- so that those left of the screen are numbers too; sides are as in the source, and where they wrap
-- round this is written out. The pool of rectangles is the number of those that are free.
pub mod Cut
pub mod Pieces
pub mod Lists
pub mod Screen
pub mod Visible
mod Tests
use nyan_os.Base.{
  ℕ, zero, suc, ◌+◌, ◌-◌, ◌%◌, ◌^◌, Bool, true, false, not, ◌&&◌, ◌||◌, List, [], ◌∷◌, ◌++◌, ltb,
  leb, ◌==◌, if◌then◌else◌, length,
}

pub record Rect : Type 0 where
  pub x : ℕ
  pub y : ℕ
  pub w : ℕ
  pub h : ℕ

abbrev pub max_rect_pool : ℕ
max_rect_pool = 2000

-- The corner of the screen.
abbrev pub origin : ℕ
origin = 2 ^ 62

abbrev pub is_point_in_rect : ℕ → ℕ → Rect → Bool
is_point_in_rect px py r = (leb r.x px && ltb px (r.x + r.w)) && (leb r.y py && ltb py (r.y + r.h))

abbrev pub rect_intersect : Rect → Rect → Bool
rect_intersect r s =
    not
      ((leb (r.x + r.w) s.x || leb (s.x + s.w) r.x) || (leb (r.y + r.h) s.y || leb (s.y + s.h) r.y))

-- `rect_alloc` and the filling of the rectangle: nothing where the pool is empty.
pub append_rect : Rect → List Rect × ℕ → List Rect × ℕ
append_rect r (rs, free) = if free == 0 then (rs, free) else (rs ++ r ∷ [], free - 1)

-- What is left of the rectangle, the pieces cut off, and the pool.
pub record Cutting : Type 0 where
  pub rest : Rect
  pub out : List Rect × ℕ

pub cut_left : Rect → Cutting → Cutting
unfolding append_rect
cut_left c k =
    if ltb k.rest.x c.x && ltb c.x (k.rest.x + k.rest.w)
    then record {
      rest = record k.rest { x = c.x; w = k.rest.w - (c.x - k.rest.x) };
      out = append_rect (record k.rest { w = c.x - k.rest.x }) k.out;
    }
    else k

pub cut_right : Rect → Cutting → Cutting
unfolding append_rect
cut_right c k =
    let new_w = (k.rest.x + k.rest.w) - (c.x + c.w) in
    if ltb (c.x + c.w) (k.rest.x + k.rest.w) && ltb k.rest.x (c.x + c.w)
    then record {
      rest = record k.rest { w = k.rest.w - new_w };
      out = append_rect (record k.rest { x = c.x + c.w; w = new_w }) k.out;
    }
    else k

pub cut_top : Rect → Cutting → Cutting
unfolding append_rect
cut_top c k =
    if ltb k.rest.y c.y && ltb c.y (k.rest.y + k.rest.h)
    then record {
      rest = record k.rest { y = c.y; h = k.rest.h - (c.y - k.rest.y) };
      out = append_rect (record k.rest { h = c.y - k.rest.y }) k.out;
    }
    else k

pub cut_bottom : Rect → Cutting → Cutting
unfolding append_rect
cut_bottom c k =
    let new_h = (k.rest.y + k.rest.h) - (c.y + c.h) in
    if ltb (c.y + c.h) (k.rest.y + k.rest.h) && ltb k.rest.y (c.y + c.h)
    then record {
      rest = record k.rest { h = k.rest.h - new_h };
      out = append_rect (record k.rest { y = c.y + c.h; h = new_h }) k.out;
    }
    else k

abbrev pub uncut : Rect → ℕ → Cutting
uncut r free = record { rest = r; out = ([], free) }

-- The pieces of the rectangle outside of the other one.
pub clip_rect : Rect → Rect → ℕ → List Rect × ℕ
unfolding cut_left cut_right cut_top cut_bottom
clip_rect r clipper free =
    if not (rect_intersect r clipper)
    then append_rect r ([], free)
    else (cut_bottom clipper
        (cut_top clipper (cut_right clipper (cut_left clipper (uncut r free))))).out

-- The inner loop of `recalc_clip_list`: every rectangle of a list is clipped, and then freed.
pub clip_list : List Rect → Rect → List Rect × ℕ → List Rect × ℕ
unfolding clip_rect
clip_list [] blocker s = s
clip_list (r ∷ rs) blocker (new, free) =
    let fragments = clip_rect r blocker free in
    clip_list rs blocker (new ++ fragments.0, fragments.1 + 1)

-- The outer loop, over the windows above.
pub clip_blockers : List Rect → List Rect × ℕ → List Rect × ℕ
unfolding clip_list
clip_blockers [] s = s
clip_blockers (blocker ∷ blockers) (curr_list, free) =
    clip_blockers blockers (clip_list curr_list blocker ([], free))

-- A side that is 0 or, as a signed number, less.
abbrev pub no_side : ℕ → Bool
no_side n = n == 0 || leb (2 ^ 63) n

-- The part of a window on the screen. A coordinate left of the screen makes the side smaller, modulo
-- 2 ^ 64.
pub on_left : Rect → Rect
on_left r =
    if ltb r.x origin
    then record r { x = origin; w = (r.w + 2 ^ 64 - (origin - r.x)) % 2 ^ 64 }
    else r

pub on_right : ℕ → Rect → Rect
on_right width r =
    if ltb width ((r.x - origin + r.w) % 2 ^ 64)
    then record r { w = (width + 2 ^ 64 - (r.x - origin)) % 2 ^ 64 }
    else r

pub on_top : Rect → Rect
on_top r =
    if ltb r.y origin
    then record r { y = origin; h = (r.h + 2 ^ 64 - (origin - r.y)) % 2 ^ 64 }
    else r

-- The rectangle, if anything of it is on the screen.
pub on_bottom : ℕ → Rect → List Rect
on_bottom max_screen_h r =
    if ltb max_screen_h ((r.y - origin + r.h) % 2 ^ 64)
    then if leb max_screen_h (r.y - origin)
      then []
      else record r { h = max_screen_h - (r.y - origin) } ∷ []
    else r ∷ []

abbrev pub with_sides : List Rect → List Rect
with_sides [] = []
with_sides (r ∷ rs) = if no_side r.w || no_side r.h then [] else r ∷ rs

pub on_screen : ℕ → ℕ → Rect → List Rect
unfolding on_left on_right on_top on_bottom
on_screen width max_screen_h r =
    with_sides (on_bottom max_screen_h (on_top (on_right width (on_left r))))

pub start_list : List Rect → ℕ → List Rect × ℕ
start_list [] free = ([], free)
start_list (r ∷ rs) free = (r ∷ [], free - 1)

-- The clip list of a window, after its old one is freed; the blockers are the windows above it.
pub recalc_clip_list : ℕ → ℕ → Rect → List Rect → List Rect → ℕ → List Rect × ℕ
unfolding on_screen start_list clip_blockers
recalc_clip_list width max_screen_h win blockers old free =
    let pool = length old + free in
    if pool == 0
    then ([], pool)
    else clip_blockers blockers (start_list (on_screen width max_screen_h win) pool)

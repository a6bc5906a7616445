-- ===== src/Windows.antt =====
-- The list of windows, src/gui/window.c, from the lowest to the top one, and the sizes a window goes
-- back to. That there is room for the pixels of a new size is an argument, and so is the desktop's
-- presence; the pixels, the title bar and the task bar are not modelled. Coordinates are as in Clip.
pub mod Clicks
pub mod Sizes
mod Tests
use nyan_os.Base.{
  ℕ, ◌+◌, ◌-◌, Bool, true, false, not, ◌&&◌, ◌||◌, Option, none, some, List, [], ◌∷◌, ◌++◌, leb,
  ◌==◌, if◌then◌else◌, map,
}
use nyan_os.Clip.{Rect, origin, is_point_in_rect}

abbrev pub taskbar_height : ℕ
taskbar_height = 28

abbrev pub win_title_bar_height : ℕ
win_title_bar_height = 20

pub data WinState : Type 0 where
  state_normal : WinState
  state_maximized : WinState
  state_minimized : WinState

pub record Window : Type 0 where
  pub id : ℕ
  pub area : Rect
  pub is_borderless : Bool
  pub state : WinState
  pub pre_state : WinState
  pub pre_place : Rect

-- The window at a point: the first one from the top.
abbrev pub or_below : Option Window → Window → ℕ → ℕ → Option Window
or_below none w mx my = if is_point_in_rect mx my w.area then some w else none
or_below (some above) w mx my = some above

pub at_point : ℕ → ℕ → List Window → Option Window
at_point mx my [] = none
at_point mx my (w ∷ ws) = or_below (at_point mx my ws) w mx my

-- Below the top of the task bar every point is the desktop's.
pub get_win_at : Option Window → ℕ → ℕ → ℕ → List Window → Option Window
unfolding at_point
get_win_at none screen_h mx my ws = at_point mx my ws
get_win_at (some desktop) screen_h mx my ws =
    if leb (origin + screen_h - taskbar_height) my then some desktop else at_point mx my ws

pub remove : ℕ → List Window → List Window
remove id [] = []
remove id (w ∷ ws) = let rest = remove id ws in if w.id == id then ws else w ∷ rest

abbrev pub is_top : ℕ → List Window → Bool
is_top id [] = false
is_top id (w ∷ []) = w.id == id
is_top id (w ∷ v ∷ ws) = is_top id (v ∷ ws)

pub win_focus : Window → List Window → List Window
unfolding remove
win_focus w ws = if w.is_borderless || is_top w.id ws then ws else remove w.id ws ++ w ∷ []

pub win_close : Window → List Window → List Window
unfolding remove
win_close w ws = remove w.id ws

-- `win_create` puts a window on top.
pub add_window : Window → List Window → List Window
add_window w ws = ws ++ w ∷ []

pub win_resize : Bool → Rect → Window → Window
win_resize has_room area w = if has_room then record w { area = area } else w

pub toggle_from : WinState → Bool → ℕ → ℕ → Window → Window
unfolding win_resize
toggle_from state_normal has_room width usable_h w =
    win_resize has_room (record { x = origin; y = origin; w = width; h = usable_h })
      (record w { pre_place = w.area; state = state_maximized })
toggle_from state_maximized has_room width usable_h w =
    win_resize has_room w.pre_place (record w { state = state_normal })
toggle_from state_minimized has_room width usable_h w =
    win_resize has_room (record { x = origin; y = origin; w = width; h = usable_h })
      (record w { state = state_maximized })

pub win_toggle_maximize : Bool → ℕ → ℕ → Window → Window
unfolding toggle_from
win_toggle_maximize has_room width height w =
    toggle_from w.state has_room width (height - taskbar_height) w

abbrev pub is_minimized : WinState → Bool
is_minimized state_minimized = true
is_minimized state_normal = false
is_minimized state_maximized = false

pub win_toggle_minimize : Bool → Window → Window
unfolding win_resize
win_toggle_minimize has_room w =
    if is_minimized w.state
    then win_resize has_room (record w.area { h = w.pre_place.h })
        (record w { state = w.pre_state })
    else win_resize has_room (record w.area { h = win_title_bar_height })
        (record w { pre_state = w.state; pre_place = w.area; state = state_minimized })

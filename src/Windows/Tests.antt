-- ===== src/Windows/Tests.antt =====
-- Two windows that overlap.
use nyan_os.Base.{ℕ, ◌+◌, ◌≡◌, refl, true, false, some, none, List, [], ◌∷◌}
use nyan_os.Clip.{Rect, origin}
use nyan_os.Windows.{
  Window, state_normal, at_point, get_win_at, remove, win_focus, win_close, win_resize, toggle_from,
  win_toggle_maximize, win_toggle_minimize,
}

abbrev window : ℕ → Rect → Window
window id area = record {
  id = id;
  area = area;
  is_borderless = false;
  state = state_normal;
  pre_state = state_normal;
  pre_place = area;
}

abbrev at : ℕ → ℕ → ℕ → ℕ → Rect
at x y w h = record { x = origin + x; y = origin + y; w = w; h = h }

abbrev low : Window
low = window 1 (at 10 10 300 200)

abbrev high : Window
high = window 2 (at 200 100 300 200)

abbrev both : List Window
both = low ∷ high ∷ []

-- A click where both are goes to the upper one; put on top, the lower one gets it.
clicks :
    (get_win_at none 800 (origin + 250) (origin + 150) both ≡ some high)
    × (get_win_at none 800 (origin + 250) (origin + 150) (win_focus low both) ≡ some low)
    × (get_win_at none 800 (origin + 250) (origin + 150) (win_close high both) ≡ some low)
unfolding get_win_at at_point win_focus win_close remove
clicks = (refl, refl, refl)

-- A maximized window that is minimized and comes back does not go back to its first size.
abbrev lost_size : Window
lost_size =
    win_toggle_maximize true 1280 800
      (win_toggle_minimize true (win_toggle_minimize true (win_toggle_maximize true 1280 800 low)))

lost_size_place : (lost_size.state ≡ state_normal) × (lost_size.area ≡ at 0 0 1280 772)
unfolding win_toggle_maximize win_toggle_minimize toggle_from win_resize
lost_size_place = (refl, refl)

-- ===== src/Windows/Sizes.antt =====
-- A window that is made large or small twice, and one that is put on top.
use nyan_os.Base.{ℕ, ◌≡◌, refl, true, false}
use nyan_os.Windows.{
  Window, state_normal, is_minimized, win_resize, toggle_from, win_toggle_maximize,
  win_toggle_minimize,
}

-- A window of normal size that is maximized and then maximized again, with room for its pixels each
-- time, has its place and its state back.
pub win_toggle_maximize-win_toggle_maximize :
    (width height : ℕ) (w : Window)
    → w.state ≡ state_normal
    → let twice = win_toggle_maximize true width height (win_toggle_maximize true width height w) in
      (twice.area ≡ w.area) × (twice.state ≡ w.state)
unfolding win_toggle_maximize toggle_from win_resize
win_toggle_maximize-win_toggle_maximize width height w h = rw h (refl, refl)

-- So does a window that is not minimized and is minimized twice.
pub win_toggle_minimize-win_toggle_minimize :
    (w : Window)
    → is_minimized w.state ≡ false
    → let twice = win_toggle_minimize true (win_toggle_minimize true w) in
      (twice.area ≡ w.area) × (twice.state ≡ w.state)
unfolding win_toggle_minimize win_resize
win_toggle_minimize-win_toggle_minimize w h = rw h (refl, refl)

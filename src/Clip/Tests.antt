-- ===== src/Clip/Tests.antt =====
-- A window half left of the screen, behind another one.
use nyan_os.Base.{ℕ, ◌+◌, ◌-◌, ◌≡◌, refl, [], ◌∷◌, arith}
use nyan_os.Clip.{
  Rect, max_rect_pool, origin, append_rect, cut_left, cut_right, cut_top, cut_bottom, clip_rect,
  clip_list, clip_blockers, on_left, on_right, on_top, on_bottom, on_screen, start_list,
  recalc_clip_list,
}
use nyan_os.Clip.Pieces.{Clipped, clip_rect-Clipped}
use nyan_os.Clip.Screen.{Placed}
use nyan_os.Clip.Visible.{ClipList, recalc_clip_list-ClipList}

abbrev at : ℕ → ℕ → ℕ → ℕ → Rect
at x y w h = record { x = x; y = y; w = w; h = h }

abbrev window : Rect
window = at (origin - 100) (origin + 50) 300 200

abbrev above : Rect
above = at (origin + 150) (origin + 100) 400 400

window_clip_list :
    recalc_clip_list 1280 772 window (above ∷ []) [] max_rect_pool
    ≡ (at origin (origin + 50) 150 200 ∷ at (origin + 150) (origin + 50) 50 50 ∷ [], 1998)
unfolding recalc_clip_list on_screen on_left on_right on_top on_bottom start_list clip_blockers
    clip_list clip_rect cut_left cut_right cut_top cut_bottom append_rect
window_clip_list = refl

-- A window that is wholly left of the screen gets the whole width of it.
lost_window_on_screen :
    on_screen 1280 772 (at (origin - 500) (origin + 50) 300 200)
    ≡ at origin (origin + 50) 1280 200 ∷ []
unfolding on_screen on_left on_right on_top on_bottom
lost_window_on_screen = refl

window-Placed : Placed 1280 772 window
window-Placed = record {
  not_left = omega arith;
  not_above = omega arith;
  small_x = omega arith;
  small_y = omega arith;
  small_w = omega arith;
  small_h = omega arith;
  small_width = omega arith;
  small_screen = omega arith;
}

clip_rect-Clipped_example :
    Clipped
      (origin + 160)
      (origin + 60)
      (at origin (origin + 50) 200 200)
      above
      2000
      (clip_rect (at origin (origin + 50) 200 200) above 2000)
clip_rect-Clipped_example =
    clip_rect-Clipped (origin + 160) (origin + 60) (at origin (origin + 50) 200 200) above 2000
      (omega arith) (omega arith)

recalc_clip_list-ClipList_example :
    ClipList
      (origin + 160)
      (origin + 60)
      1280
      772
      window
      (above ∷ [])
      2000
      (recalc_clip_list 1280 772 window (above ∷ []) [] 2000)
recalc_clip_list-ClipList_example =
    recalc_clip_list-ClipList (origin + 160) (origin + 60) 1280 772 window (above ∷ []) [] 2000
      window-Placed ((omega arith, omega arith), tt)

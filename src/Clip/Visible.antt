-- ===== src/Clip/Visible.antt =====
-- The clip list of a window, point by point.
use nyan_os.Base.{
  ℕ, suc, ◌+◌, ◌-◌, ◌%◌, ◌^◌, ◌≤◌, ◌≡◌, ap, ◌∙◌, ◌&&◌, ◌||◌, List, [], ◌∷◌, arith, ltb, leb, ◌==◌,
  ==_iff, if_ind, length,
}
use nyan_os.Clip.{
  Rect, origin, is_point_in_rect, no_side, on_left, on_right, on_top, on_bottom, with_sides,
  on_screen, start_list, clip_blockers, recalc_clip_list,
}
use nyan_os.Clip.Cut.{one, count}
use nyan_os.Clip.Lists.{HasSides, is_behind, unless, pieces_for, clip_blockers-Uncovered}
use nyan_os.Clip.Screen.{Placed, screen, on_screen_lem}

-- The clip list of a window covers the points of the window that are on the screen and in no window
-- above it.
pub record ClipList (px py width max_screen_h : ℕ) (win : Rect) (blockers : List Rect) (pool : ℕ)
    (got : List Rect × ℕ) : Type 0 where
  pub most :
      count px py got.0
      ≤ unless
          (is_behind px py blockers)
          (one (is_point_in_rect px py win && is_point_in_rect px py (screen width max_screen_h)))
  pub exact :
      suc (pieces_for 1 blockers) ≤ pool
      → count px py got.0
        ≡ unless
            (is_behind px py blockers)
            (one (is_point_in_rect px py win && is_point_in_rect px py (screen width max_screen_h)))
  pub kept : length got.0 + got.1 ≡ pool

with_sides_short : (rs : List Rect) → length rs ≤ 1 → length (with_sides rs) ≤ 1
with_sides_short [] h = omega arith
with_sides_short (r ∷ rs) h =
    if_ind (λ (ss : List Rect). length ss ≤ 1) (no_side r.w || no_side r.h) _ _ (λ _. omega arith)
      (λ _. h)

on_screen_short : (width max_screen_h : ℕ) (r : Rect) → length (on_screen width max_screen_h r) ≤ 1
unfolding on_screen on_bottom
on_screen_short width max_screen_h r =
    let t = on_top (on_right width (on_left r)) in
    with_sides_short _ (
      if_ind (λ (ss : List Rect). length ss ≤ 1) (ltb max_screen_h ((t.y - origin + t.h) % 2 ^ 64))
        _ _
        (λ _.
          if_ind (λ (ss : List Rect). length ss ≤ 1) (leb max_screen_h (t.y - origin)) _ _
            (λ _. omega arith) (λ _. omega arith))
        (λ _. omega arith))

started :
    (px py width max_screen_h : ℕ) (win : Rect) (blockers rs : List Rect) (pool : ℕ)
    → HasSides blockers
    → 1 ≤ pool
    → length rs ≤ 1
    → count px py rs
      ≡ one (is_point_in_rect px py win && is_point_in_rect px py (screen width max_screen_h))
    → ClipList px py width max_screen_h win blockers pool
        (clip_blockers blockers (start_list rs pool))
unfolding start_list
started px py width max_screen_h win blockers [] pool sides room short hits =
    let u = clip_blockers-Uncovered px py blockers [] pool sides in
    record {
      most = omega (arith, u.most, ap (unless (is_behind px py blockers)) hits);
      exact =
          λ h. u.exact 1 (omega arith) (omega arith) ∙ ap (unless (is_behind px py blockers)) hits;
      kept = omega (arith, u.pool);
    }
started px py width max_screen_h win blockers (r ∷ []) pool sides room short hits =
    let u = clip_blockers-Uncovered px py blockers (r ∷ []) (pool - 1) sides in
    record {
      most = omega (arith, u.most, ap (unless (is_behind px py blockers)) hits);
      exact =
          λ h. u.exact 1 (omega arith) (omega arith) ∙ ap (unless (is_behind px py blockers)) hits;
      kept = omega (arith, u.pool, room);
    }
started px py width max_screen_h win blockers (r ∷ s ∷ rs) pool sides room short hits =
    absurd (omega arith)

-- For a window that is not wholly left of the screen or above it, and windows above it with sides: the
-- clip list covers no point more than once, and none that is not the window's, on the screen and in no
-- window above; it covers all of these if the pool, with the old list, has one rectangle and those that
-- the cuts may make; and no rectangle of the pool is lost.
pub recalc_clip_list-ClipList :
    (px py width max_screen_h : ℕ) (win : Rect) (blockers old : List Rect) (free : ℕ)
    → Placed width max_screen_h win
    → HasSides blockers
    → ClipList px py width max_screen_h win blockers
        (length old + free)
        (recalc_clip_list width max_screen_h win blockers old free)
unfolding recalc_clip_list
recalc_clip_list-ClipList px py width max_screen_h win blockers old free placed sides =
    if_ind (ClipList px py width max_screen_h win blockers (length old + free))
      (length old + free == 0) _ _
      (λ full. record {
        most = omega arith;
        exact = λ h. absurd (omega (arith, h, (==_iff (length old + free) 0).0 full));
        kept = omega arith;
      })
      (λ room.
        started px py width max_screen_h win blockers (on_screen width max_screen_h win)
          (length old + free) sides (ground arith) (on_screen_short width max_screen_h win)
          (on_screen_lem width max_screen_h px py win placed))

-- ===== src/Clip/Pieces.antt =====
-- The pieces that a rectangle is clipped to, point by point.
use nyan_os.Base.{
  ℕ, ◌+◌, ◌<◌, ◌≤◌, ◌≡◌, ap, true, false, not, ◌&&◌, List, [], arith, ltb, ◌==◌, ==_iff, if_ind,
  not-true, not-false, Bool-cases, inl, inr, length,
}
use nyan_os.Clip.{
  Rect, is_point_in_rect, rect_intersect, append_rect, Cutting, cut_left, cut_right, cut_top,
  cut_bottom, uncut, clip_rect,
}
use nyan_os.Clip.Cut.{
  one, count, Kept, Kept-trans, cut_left-Kept, cut_right-Kept, cut_top-Kept, cut_bottom-Kept,
}

-- After the cuts at the left and the right the rest is within these sides of the clipper.
abbrev WithinX : Rect → Rect → Type 0
WithinX c r = (c.x ≤ r.x) × (r.x + r.w ≤ c.x + c.w)

abbrev WithinY : Rect → Rect → Type 0
WithinY c r = (c.y ≤ r.y) × (r.y + r.h ≤ c.y + c.h)

abbrev MeetsY : Rect → Rect → Type 0
MeetsY c r = (r.y < c.y + c.h) × (c.y < r.y + r.h)

cut_left_lem :
    (c : Rect) (k : Cutting)
    → 0 < c.w
    → (k.rest.x < c.x + c.w) × (c.x < k.rest.x + k.rest.w)
    → (c.x ≤ (cut_left c k).rest.x) × ((cut_left c k).rest.x < c.x + c.w)
unfolding cut_left
cut_left_lem c k wide (l, r) =
    if_ind (λ (j : Cutting). (c.x ≤ j.rest.x) × (j.rest.x < c.x + c.w))
      (ltb k.rest.x c.x && ltb c.x (k.rest.x + k.rest.w)) _ _ (λ cut. (omega arith, omega arith))
      (λ whole. (ground arith, l))

cut_right_lem :
    (c : Rect) (k : Cutting)
    → (c.x ≤ k.rest.x) × (k.rest.x < c.x + c.w)
    → WithinX c (cut_right c k).rest
unfolding cut_right
cut_right_lem c k (l, r) =
    if_ind (λ (j : Cutting). WithinX c j.rest)
      (ltb (c.x + c.w) (k.rest.x + k.rest.w) && ltb k.rest.x (c.x + c.w)) _ _
      (λ cut. (l, ground arith)) (λ whole. (l, ground arith))

cut_top_lem :
    (c : Rect) (k : Cutting)
    → 0 < c.h
    → MeetsY c k.rest
    → (c.y ≤ (cut_top c k).rest.y) × ((cut_top c k).rest.y < c.y + c.h)
unfolding cut_top
cut_top_lem c k high (l, r) =
    if_ind (λ (j : Cutting). (c.y ≤ j.rest.y) × (j.rest.y < c.y + c.h))
      (ltb k.rest.y c.y && ltb c.y (k.rest.y + k.rest.h)) _ _ (λ cut. (omega arith, omega arith))
      (λ whole. (ground arith, l))

cut_bottom_lem :
    (c : Rect) (k : Cutting)
    → (c.y ≤ k.rest.y) × (k.rest.y < c.y + c.h)
    → WithinY c (cut_bottom c k).rest
unfolding cut_bottom
cut_bottom_lem c k (l, r) =
    if_ind (λ (j : Cutting). WithinY c j.rest)
      (ltb (c.y + c.h) (k.rest.y + k.rest.h) && ltb k.rest.y (c.y + c.h)) _ _
      (λ cut. (l, ground arith)) (λ whole. (l, ground arith))

-- The cuts in one direction leave the other one alone.
cut-sides-y :
    (c : Rect) (k : Cutting) → MeetsY c k.rest → MeetsY c (cut_right c (cut_left c k)).rest
unfolding cut_left cut_right
cut-sides-y c k m = ground (arith, m)

cut-sides-x :
    (c : Rect) (k : Cutting) → WithinX c k.rest → WithinX c (cut_bottom c (cut_top c k)).rest
unfolding cut_top cut_bottom
cut-sides-x c k m = ground (arith, m)

rest_within :
    (c r : Rect) (free : ℕ)
    → 0 < c.w
    → 0 < c.h
    → rect_intersect r c ≡ true
    → let rest = (cut_bottom c (cut_top c (cut_right c (cut_left c (uncut r free))))).rest in
      WithinX c rest × WithinY c rest
rest_within c r free wide high meets = (
  cut-sides-x c k2 (
      cut_right_lem c k1
        (cut_left_lem c (uncut r free) wide (ground (arith, meets), ground (arith, meets)))),
  cut_bottom_lem c (cut_top c k2) (
      cut_top_lem c k2 high
        (cut-sides-y c (uncut r free) (ground (arith, meets), ground (arith, meets)))),
)
  where
    k1 : Cutting
    k1 = cut_left c (uncut r free)

    k2 : Cutting
    k2 = cut_right c k1

-- The pieces of a rectangle outside of another one, point by point, and the pool.
pub record Clipped (px py : ℕ) (r c : Rect) (free : ℕ) (got : List Rect × ℕ) : Type 0 where
  pub most : count px py got.0 ≤ one (is_point_in_rect px py r && not (is_point_in_rect px py c))
  pub exact :
      4 ≤ free
      → count px py got.0 ≡ one (is_point_in_rect px py r && not (is_point_in_rect px py c))
  pub pool : length got.0 + got.1 ≡ free
  pub few : free ≤ 4 + got.1

module _ (px py : ℕ) (r c : Rect) (free : ℕ) (wide : 0 < c.w) (high : 0 < c.h) where
  apart-Clipped : rect_intersect r c ≡ false → Clipped px py r c free (append_rect r ([], free))
  unfolding append_rect
  apart-Clipped away = elim (Bool-cases (free == 0)) [
    | inl full ↦ rw full (record {
      most = omega arith;
      exact = λ h. absurd (omega (arith, h, (==_iff free 0).0 full));
      pool = omega arith;
      few = omega arith;
    })
    | inr room ↦
        let positive : 1 ≤ free = ground (arith, room) in
        let same : is_point_in_rect px py r && not (is_point_in_rect px py c)
            ≡ is_point_in_rect px py r =
          ground (arith, away) in
        rw room (record {
          most = omega (arith, ap one same);
          exact = λ h. omega (arith, ap one same);
          pool = omega (arith, positive);
          few = omega (arith, positive);
        })
  ]

  Kept-Clipped :
      (k : Cutting)
      → Kept px py c 4 (uncut r free) k
      → WithinX c k.rest × WithinY c k.rest
      → Clipped px py r c free k.out
  Kept-Clipped k kept (wx, wy) = elim (Bool-cases (is_point_in_rect px py c)) [
    | inl hidden ↦
        let none_in : is_point_in_rect px py r && not (is_point_in_rect px py c) ≡ false =
          ground (arith, hidden) in
        record {
          most = omega (arith, kept.outside hidden);
          exact = λ h. omega (arith, kept.outside hidden, ap one none_in);
          pool = omega (arith, kept.pool);
          few = kept.few;
        }
    | inr shown ↦
        let same : is_point_in_rect px py r && not (is_point_in_rect px py c)
            ≡ is_point_in_rect px py r =
          ground (arith, shown) in
        let no_rest : is_point_in_rect px py k.rest ≡ false = ground (arith, shown, wx, wy) in
        record {
          most = omega (arith, kept.most, ap one no_rest, ap one same);
          exact = λ h. omega (arith, kept.exact h, ap one no_rest, ap one same);
          pool = omega (arith, kept.pool);
          few = kept.few;
        }
  ]

  -- The pieces cover the points of the rectangle outside of the clipper, each of them once, if four
  -- rectangles are free; with fewer, no point more than once, and none that is inside of the clipper.
  pub clip_rect-Clipped : Clipped px py r c free (clip_rect r c free)
  unfolding clip_rect
  clip_rect-Clipped =
      if_ind (Clipped px py r c free) (not (rect_intersect r c)) _ _
        (λ away. apart-Clipped (not-true (rect_intersect r c) away))
        (λ meets.
          Kept-Clipped k4 kept
            (rest_within c r free wide high (not-false (rect_intersect r c) meets)))
    where
      k1 : Cutting
      k1 = cut_left c (uncut r free)

      k2 : Cutting
      k2 = cut_right c k1

      k3 : Cutting
      k3 = cut_top c k2

      k4 : Cutting
      k4 = cut_bottom c k3

      kept : Kept px py c 4 (uncut r free) k4
      kept =
          Kept-trans px py c 3 1 (uncut r free) k3 k4
            (Kept-trans px py c 2 1 (uncut r free) k2 k3
              (Kept-trans px py c 1 1 (uncut r free) k1 k2 (cut_left-Kept px py c (uncut r free))
                (cut_right-Kept px py c k1))
              (cut_top-Kept px py c k2))
            (cut_bottom-Kept px py c k3)

-- ===== src/Clip/Cut.antt =====
-- A rectangle cut at the four sides of another one: the pieces, point by point.
use nyan_os.Base.{
  ℕ, ◌+◌, ◌-◌, ◌≤◌, ◌≡◌, refl, ap, ◌∙◌, Bool, true, false, ◌&&◌, List, [], ◌∷◌, ◌++◌, arith, ltb,
  ◌==◌, ==_iff, if_ind, Bool-cases, inl, inr, length, length-append,
}
use nyan_os.Clip.{
  Rect, is_point_in_rect, append_rect, Cutting, cut_left, cut_right, cut_top, cut_bottom,
}

abbrev pub one : Bool → ℕ
one true = 1
one false = 0

-- How many rectangles of a list a point lies in.
abbrev pub count : ℕ → ℕ → List Rect → ℕ
count px py [] = 0
count px py (r ∷ rs) = one (is_point_in_rect px py r) + count px py rs

pub count-append :
    (px py : ℕ) (rs ss : List Rect) → count px py (rs ++ ss) ≡ count px py rs + count px py ss
count-append px py [] ss = omega arith
count-append px py (r ∷ rs) ss = omega (arith, count-append px py rs ss)

module _ (px py : ℕ) where
  abbrev pub at : Rect → ℕ
  at r = one (is_point_in_rect px py r)

  -- One cut, or several: no point is in more pieces than before; in as many, if the pool has enough; a
  -- point of the clipper is in no new piece; no rectangle is lost.
  pub record Kept (c : Rect) (pieces : ℕ) (k k' : Cutting) : Type 0 where
    pub most : count px py k'.out.0 + at k'.rest ≤ count px py k.out.0 + at k.rest
    pub exact :
        pieces ≤ k.out.1 → count px py k'.out.0 + at k'.rest ≡ count px py k.out.0 + at k.rest
    pub outside : is_point_in_rect px py c ≡ true → count px py k'.out.0 ≡ count px py k.out.0
    pub pool : length k'.out.0 + k'.out.1 ≡ length k.out.0 + k.out.1
    pub few : k.out.1 ≤ pieces + k'.out.1

  pub Kept-trans :
      (c : Rect) (n m : ℕ) (k k' k'' : Cutting)
      → Kept c n k k'
      → Kept c m k' k''
      → Kept c (n + m) k k''
  Kept-trans c n m k k' k'' a b = record {
    most = omega (arith, a.most, b.most);
    exact = λ h. b.exact (omega (arith, a.few, h)) ∙ a.exact (omega (arith, h));
    outside = λ h. b.outside h ∙ a.outside h;
    pool = b.pool ∙ a.pool;
    few = omega (arith, a.few, b.few);
  }

  Kept-same : (c : Rect) (n : ℕ) (k : Cutting) → Kept c n k k
  Kept-same c n k = record {
    most = omega arith;
    exact = λ h. refl;
    outside = λ h. refl;
    pool = refl;
    few = omega arith;
  }

  -- A cut into a piece outside of the clipper, and the rest.
  Kept-cut :
      (c piece rest : Rect) (k : Cutting)
      → at piece + at rest ≡ at k.rest
      → (is_point_in_rect px py c ≡ true → is_point_in_rect px py piece ≡ false)
      → Kept c 1 k (record { rest = rest; out = append_rect piece k.out })
  unfolding append_rect
  Kept-cut c piece rest k parts away = elim (Bool-cases (k.out.1 == 0)) [
    | inl full ↦ rw full (record {
      most = omega (arith, parts);
      exact = λ h. absurd (omega (arith, h, (==_iff k.out.1 0).0 full));
      outside = λ h. refl;
      pool = refl;
      few = omega arith;
    })
    | inr room ↦
        let positive : 1 ≤ k.out.1 = ground (arith, room) in
        rw room (record {
          most = omega (arith, parts, count-append px py k.out.0 (piece ∷ []));
          exact = λ h. omega (arith, parts, count-append px py k.out.0 (piece ∷ []));
          outside = λ h. omega (arith, count-append px py k.out.0 (piece ∷ []), ap one (away h));
          pool = omega (arith, length-append k.out.0 (piece ∷ []), positive);
          few = omega (arith, positive);
        })
  ]

  pub cut_left-Kept : (c : Rect) (k : Cutting) → Kept c 1 k (cut_left c k)
  unfolding cut_left
  cut_left-Kept c k =
      if_ind (Kept c 1 k) (ltb k.rest.x c.x && ltb c.x (k.rest.x + k.rest.w)) _ _
        (λ cut.
          Kept-cut c (record k.rest { w = c.x - k.rest.x })
            (record k.rest { x = c.x; w = k.rest.w - (c.x - k.rest.x) }) k (ground arith)
            (λ h. ground arith))
        (λ whole. Kept-same c 1 k)

  pub cut_right-Kept : (c : Rect) (k : Cutting) → Kept c 1 k (cut_right c k)
  unfolding cut_right
  cut_right-Kept c k =
      let new_w = (k.rest.x + k.rest.w) - (c.x + c.w) in
      if_ind (Kept c 1 k) (ltb (c.x + c.w) (k.rest.x + k.rest.w) && ltb k.rest.x (c.x + c.w)) _ _
        (λ cut.
          Kept-cut c (record k.rest { x = c.x + c.w; w = new_w })
            (record k.rest { w = k.rest.w - new_w }) k (ground arith) (λ h. ground arith))
        (λ whole. Kept-same c 1 k)

  pub cut_top-Kept : (c : Rect) (k : Cutting) → Kept c 1 k (cut_top c k)
  unfolding cut_top
  cut_top-Kept c k =
      if_ind (Kept c 1 k) (ltb k.rest.y c.y && ltb c.y (k.rest.y + k.rest.h)) _ _
        (λ cut.
          Kept-cut c (record k.rest { h = c.y - k.rest.y })
            (record k.rest { y = c.y; h = k.rest.h - (c.y - k.rest.y) }) k (ground arith)
            (λ h. ground arith))
        (λ whole. Kept-same c 1 k)

  pub cut_bottom-Kept : (c : Rect) (k : Cutting) → Kept c 1 k (cut_bottom c k)
  unfolding cut_bottom
  cut_bottom-Kept c k =
      let new_h = (k.rest.y + k.rest.h) - (c.y + c.h) in
      if_ind (Kept c 1 k) (ltb (c.y + c.h) (k.rest.y + k.rest.h) && ltb k.rest.y (c.y + c.h)) _ _
        (λ cut.
          Kept-cut c (record k.rest { y = c.y + c.h; h = new_h })
            (record k.rest { h = k.rest.h - new_h }) k (ground arith) (λ h. ground arith))
        (λ whole. Kept-same c 1 k)

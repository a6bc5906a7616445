-- ===== src/Clip/Screen.antt =====
-- The part of a window that is on the screen, point by point.
use nyan_os.Base.{
  ℕ, ◌+◌, ◌-◌, ◌%◌, ◌^◌, ◌<◌, ◌≤◌, ◌≡◌, refl, sym, ap, ap₂, ◌∙◌, Bool, true, false, not, ◌&&◌, ◌||◌,
  [], ◌∷◌, arith, ltb, leb, if◌then◌else◌, if_ind, Bool-cases, inl, inr,
}
use nyan_os.Clip.{
  Rect, origin, is_point_in_rect, no_side, on_left, on_right, on_top, on_bottom, with_sides,
  on_screen,
}
use nyan_os.Clip.Cut.{one, count}

-- The window is not wholly left of the screen or above it, and its numbers are below 2 ^ 32.
pub record Placed (width max_screen_h : ℕ) (r : Rect) : Type 0 where
  pub not_left : origin ≤ r.x + r.w
  pub not_above : origin ≤ r.y + r.h
  pub small_x : r.x < origin + 2 ^ 32
  pub small_y : r.y < origin + 2 ^ 32
  pub small_w : r.w < 2 ^ 32
  pub small_h : r.h < 2 ^ 32
  pub small_width : width < 2 ^ 32
  pub small_screen : max_screen_h < 2 ^ 32

abbrev pub screen : ℕ → ℕ → Rect
screen width max_screen_h = record { x = origin; y = origin; w = width; h = max_screen_h }

abbrev in_x : ℕ → Rect → Bool
in_x px r = leb r.x px && ltb px (r.x + r.w)

abbrev in_y : ℕ → Rect → Bool
in_y py r = leb r.y py && ltb py (r.y + r.h)

-- The four tests joined: `n` for the side that is none, `x` and `y` for the window, `l`, `r`, `t` and `b` for the
-- sides of the screen.
together :
    (x y l r t b x1 x2 n n' x' : Bool) {y' : Bool}
    → x1 ≡ x && l
    → (n ≡ false → x2 ≡ x1 && r) × (n ≡ true → x1 && r ≡ false)
    → n' ≡ n
    → x' ≡ x2
    → y' ≡ y && t
    → not n' && (x' && (y' && b)) ≡ (x && y) && ((l && r) && (t && b))
together x y l r t b x1 x2 true n' x' ex (shown, hidden) en ex' ey =
    ground (arith, ex, hidden refl, en, ex', ey)
together x y l r t b x1 x2 false n' x' ex (shown, hidden) en ex' ey =
    ground (arith, ex, shown refl, en, ex', ey)

module _ (width max_screen_h px py : ℕ) (r : Rect) (p : Placed width max_screen_h r) where
  left_lem :
      (origin ≤ (on_left r).x)
      × ((on_left r).x < origin + 2 ^ 32)
      × ((on_left r).w < 2 ^ 32)
      × (in_x px (on_left r) ≡ in_x px r && leb origin px)
  unfolding on_left
  left_lem =
      if_ind
        (λ (s : Rect).
          (origin ≤ s.x)
          × (s.x < origin + 2 ^ 32)
          × (s.w < 2 ^ 32)
          × (in_x px s ≡ in_x px r && leb origin px))
        (ltb r.x origin) _ _
        (λ out.
          let cut : (r.w + 2 ^ 64 - (origin - r.x)) % 2 ^ 64 ≡ r.w - (origin - r.x) =
            ground (arith, p.not_left, p.small_w, out) in
          (
            omega arith,
            omega arith,
            omega (arith, cut, p.small_w),
            rw cut (ground (arith, p.not_left)),
          ))
        (λ inn. (ground arith, p.small_x, p.small_w, ground arith))

  abbrev CutRight : Rect → Rect → Type 0
  CutRight s t =
      (no_side t.w ≡ false → in_x px t ≡ in_x px s && ltb px (origin + width))
      × (no_side t.w ≡ true → in_x px s && ltb px (origin + width) ≡ false)

  right_lem :
      (s : Rect)
      → origin ≤ s.x
      → s.x < origin + 2 ^ 32
      → s.w < 2 ^ 32
      → CutRight s (on_right width s)
  unfolding on_right
  right_lem s a b c =
      let sum : (s.x - origin + s.w) % 2 ^ 64 ≡ s.x - origin + s.w = omega (arith, a, b, c) in
      if_ind (CutRight s) (ltb width ((s.x - origin + s.w) % 2 ^ 64)) _ _
        (λ out. elim (Bool-cases (leb (s.x - origin) width)) [
          | inl inn ↦
              let cut : (width + 2 ^ 64 - (s.x - origin)) % 2 ^ 64 ≡ width - (s.x - origin) =
                ground (arith, inn, p.small_width) in
              rw cut ((λ h. ground (arith, sum, a, out)), (λ h. ground (arith, sum, a, out)))
          | inr far ↦
              let cut : (width + 2 ^ 64 - (s.x - origin)) % 2 ^ 64
                  ≡ width + 2 ^ 64 - (s.x - origin) =
                ground (arith, far, p.small_width, b) in
              rw cut ((λ h. ground (arith, b, h)), (λ h. ground (arith, far)))
        ])
        (λ inn. ((λ h. ground (arith, sum, inn, a)), (λ h. ground (arith, sum, inn, a, c))))

  top_lem :
      (s : Rect)
      → s.y ≡ r.y
      → s.h ≡ r.h
      → (origin ≤ (on_top s).y)
        × ((on_top s).y < origin + 2 ^ 32)
        × ((on_top s).h < 2 ^ 32)
        × (in_y py (on_top s) ≡ in_y py s && leb origin py)
        × ((on_top s).x ≡ s.x)
        × ((on_top s).w ≡ s.w)
  unfolding on_top
  top_lem s ey eh =
      if_ind
        (λ (t : Rect).
          (origin ≤ t.y)
          × (t.y < origin + 2 ^ 32)
          × (t.h < 2 ^ 32)
          × (in_y py t ≡ in_y py s && leb origin py)
          × (t.x ≡ s.x)
          × (t.w ≡ s.w))
        (ltb s.y origin) _ _
        (λ out.
          let cut : (s.h + 2 ^ 64 - (origin - s.y)) % 2 ^ 64 ≡ s.h - (origin - s.y) =
            ground (arith, p.not_above, p.small_h, out, ey, eh) in
          (
            omega arith,
            omega arith,
            omega (arith, cut, p.small_h, eh),
            rw cut (ground (arith, p.not_above, ey, eh)),
            refl,
            refl,
          ))
        (λ inn. (
          ground arith,
          omega (arith, p.small_y, ey),
          omega (arith, p.small_h, eh),
          ground arith,
          refl,
          refl,
        ))

  count_if :
      (a : Bool) (s : Rect)
      → count px py (if a then [] else s ∷ []) ≡ one (not a && is_point_in_rect px py s)
  count_if true s = refl
  count_if false s = omega arith

  -- The points on the screen of a rectangle whose left and right side are done.
  bottom_lem :
      (t : Rect)
      → origin ≤ t.y
      → t.y < origin + 2 ^ 32
      → t.h < 2 ^ 32
      → count px py (with_sides (on_bottom max_screen_h t))
        ≡ one (not (no_side t.w) && (in_x px t && (in_y py t && ltb py (origin + max_screen_h))))
  unfolding on_bottom
  bottom_lem t a b c =
      let sum : (t.y - origin + t.h) % 2 ^ 64 ≡ t.y - origin + t.h = omega (arith, a, b, c) in
      if_ind (λ rs. count px py (with_sides rs) ≡ hits)
        (ltb max_screen_h ((t.y - origin + t.h) % 2 ^ 64)) _ _
        (λ out.
          if_ind (λ rs. count px py (with_sides rs) ≡ hits) (leb max_screen_h (t.y - origin)) _ _
            (λ below.
              let no_hit : not (no_side t.w)
                    && (in_x px t && (in_y py t && ltb py (origin + max_screen_h)))
                  ≡ false =
                ground (arith, below) in
              ap one (sym no_hit))
            (λ cut.
              count_if (no_side t.w || no_side (max_screen_h - (t.y - origin)))
                (record t { h = max_screen_h - (t.y - origin) })
              ∙ ap one (ground (arith, sum, out, cut, a, p.small_screen))))
        (λ inn. count_if (no_side t.w || no_side t.h) t ∙ ap one (ground (arith, sum, inn, a, c)))
    where
      hits : ℕ
      hits = one (not (no_side t.w) && (in_x px t && (in_y py t && ltb py (origin + max_screen_h))))

  sides_y : (on_right width (on_left r)).y ≡ r.y
  unfolding on_left on_right
  sides_y = ground arith

  sides_h : (on_right width (on_left r)).h ≡ r.h
  unfolding on_left on_right
  sides_h = ground arith

  -- What is on the screen of a window is one rectangle or none.
  pub on_screen_lem :
      count px py (on_screen width max_screen_h r)
      ≡ one (is_point_in_rect px py r && is_point_in_rect px py (screen width max_screen_h))
  unfolding on_screen
  on_screen_lem =
      let s = on_right width (on_left r) in
      let l = left_lem in
      let t = top_lem s sides_y sides_h in
      bottom_lem (on_top s) t.0 t.1 t.2
      ∙ ap one (
          together (in_x px r) (in_y py r) (leb origin px) _ (leb origin py) _ _ _ _ _ _ l.3
            (right_lem (on_left r) l.0 l.1 l.2) (ap no_side t.5)
            (ap₂ (λ x w. leb x px && ltb px (x + w)) t.4 t.5)
            (t.3
              ∙ ap (λ b. b && leb origin py)
                  (ap₂ (λ y h. leb y py && ltb py (y + h)) sides_y sides_h)))

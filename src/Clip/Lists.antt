-- ===== src/Clip/Lists.antt =====
-- A list of rectangles clipped by one window, and by all the windows above.
use nyan_os.Base.{
  ℕ, ◌+◌, ◌*◌, ◌<◌, ◌≤◌, ◌≡◌, refl, ap, ◌∙◌, Bool, true, false, not, ◌&&◌, ◌||◌, List, [], ◌∷◌,
  ◌++◌, arith, length, length-append,
}
use nyan_os.Clip.{Rect, is_point_in_rect, clip_rect, clip_list, clip_blockers}
use nyan_os.Clip.Cut.{one, count, count-append}
use nyan_os.Clip.Pieces.{clip_rect-Clipped}

abbrev pub HasSides : List Rect → Type 0
HasSides [] = Unit {0}
HasSides (r ∷ rs) = ((0 < r.w) × (0 < r.h)) × HasSides rs

abbrev pub is_behind : ℕ → ℕ → List Rect → Bool
is_behind px py [] = false
is_behind px py (r ∷ rs) = is_point_in_rect px py r || is_behind px py rs

-- What a number of hits becomes behind something.
abbrev pub unless : Bool → ℕ → ℕ
unless true n = 0
unless false n = n

-- The rectangles that `n` of them may become, clipped by one window after the other.
abbrev pub pieces_for : ℕ → List Rect → ℕ
pieces_for n [] = 0
pieces_for n (b ∷ bs) = 4 * n + pieces_for (4 * n) bs

module _ (px py : ℕ) where
  record ClippedList (rs : List Rect) (b : Rect) (new : List Rect) (free : ℕ) (got : List Rect × ℕ)
      : Type 0 where
    most : count px py got.0 ≤ count px py new + unless (is_point_in_rect px py b) (count px py rs)
    exact :
        4 * length rs ≤ free
        → count px py got.0 ≡ count px py new + unless (is_point_in_rect px py b) (count px py rs)
    pool : length got.0 + got.1 ≡ length new + length rs + free
    few : length got.0 ≤ length new + 4 * length rs

  unless-one : (a b : Bool) → one (a && not b) ≡ unless b (one a)
  unless-one true true = refl
  unless-one true false = refl
  unless-one false true = refl
  unless-one false false = refl

  unless-add : (b : Bool) (m n : ℕ) → unless b (m + n) ≡ unless b m + unless b n
  unless-add true m n = omega arith
  unless-add false m n = refl

  unless_mono : (b : Bool) (m n : ℕ) → m ≤ n → unless b m ≤ unless b n
  unless_mono true m n h = omega arith
  unless_mono false m n h = h

  nothing : (b : Bool) (n : ℕ) → n ≡ n + unless b 0
  nothing true n = omega arith
  nothing false n = omega arith

  clip_list-ClippedList :
      (rs : List Rect) (b : Rect) (new : List Rect) (free : ℕ)
      → 0 < b.w
      → 0 < b.h
      → ClippedList rs b new free (clip_list rs b (new, free))
  unfolding clip_list
  clip_list-ClippedList [] b new free wide high = record {
    most = omega arith;
    exact = λ h. nothing (is_point_in_rect px py b) (count px py new);
    pool = omega arith;
    few = omega arith;
  }
  clip_list-ClippedList (r ∷ rs) b new free wide high =
      let got = clip_rect r b free in
      let c = clip_rect-Clipped px py r b free wide high in
      let rest = clip_list-ClippedList rs b (new ++ got.0) (got.1 + 1) wide high in
      let hit = unless-one (is_point_in_rect px py r) (is_point_in_rect px py b) in
      let split =
        unless-add (is_point_in_rect px py b) (one (is_point_in_rect px py r)) (count px py rs) in
      record {
        most = omega (arith, rest.most, c.most, count-append px py new got.0, hit, split);
        exact = λ h. omega (
          arith,
          rest.exact (omega (arith, c.few, h)),
          c.exact (omega (arith, h)),
          count-append px py new got.0,
          hit,
          split,
        );
        pool = omega (arith, rest.pool, c.pool, length-append new got.0);
        few = omega (arith, rest.few, c.few, c.pool, length-append new got.0);
      }

  -- The points of a list of rectangles that no window above has.
  pub record Uncovered (rs bs : List Rect) (free : ℕ) (got : List Rect × ℕ) : Type 0 where
    pub most : count px py got.0 ≤ unless (is_behind px py bs) (count px py rs)
    pub exact :
        (n : ℕ)
        → length rs ≤ n
        → pieces_for n bs ≤ free
        → count px py got.0 ≡ unless (is_behind px py bs) (count px py rs)
    pub pool : length got.0 + got.1 ≡ length rs + free

  unless-or : (a b : Bool) (n : ℕ) → unless b (unless a n) ≡ unless (a || b) n
  unless-or true true n = refl
  unless-or true false n = refl
  unless-or false b n = refl

  pub clip_blockers-Uncovered :
      (bs rs : List Rect) (free : ℕ)
      → HasSides bs
      → Uncovered rs bs free (clip_blockers bs (rs, free))
  unfolding clip_blockers
  clip_blockers-Uncovered [] rs free sides = record {
    most = omega arith;
    exact = λ n h k. refl;
    pool = refl;
  }
  clip_blockers-Uncovered (b ∷ bs) rs free ((wide, high), sides) =
      let got = clip_list rs b ([], free) in
      let c = clip_list-ClippedList rs b [] free wide high in
      let rest = clip_blockers-Uncovered bs got.0 got.1 sides in
      let both = unless-or (is_point_in_rect px py b) (is_behind px py bs) (count px py rs) in
      record {
        most = omega (
          arith,
          rest.most,
          unless_mono (is_behind px py bs) (count px py got.0)
              (unless (is_point_in_rect px py b) (count px py rs)) (omega (arith, c.most)),
          both,
        );
        exact = λ n h k.
            rest.exact (4 * n) (omega (arith, c.few, h)) (omega (arith, c.pool, c.few, h, k))
            ∙ ap (unless (is_behind px py bs)) (c.exact (omega (arith, h, k)) ∙ omega arith)
            ∙ both;
        pool = omega (arith, rest.pool, c.pool);
      }

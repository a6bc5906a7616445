-- ===== src/Windows/Clicks.antt =====
-- The window at a point is the one that shows there.
use nyan_os.Base.{
  ℕ, ◌≡◌, refl, sym, ap, ◌∙◌, true, false, Option, none, some, List, [], ◌∷◌, ◌++◌, map,
  if◌then◌else◌, Bool-cases, option_clash, inl, inr,
}
use nyan_os.Clip.{Rect, is_point_in_rect, recalc_clip_list}
use nyan_os.Clip.Cut.{count}
use nyan_os.Clip.Lists.{is_behind}
use nyan_os.Windows.{Window, at_point, or_below}

abbrev pub places : List Window → List Rect
places ws = map (λ w. w.area) ws

-- The window at a point, with those below and above it; those above do not have the point.
pub record Hit (mx my : ℕ) (ws : List Window) (w : Window) : Type 0 where
  pub below : List Window
  pub above : List Window
  pub split : ws ≡ below ++ w ∷ above
  pub inside : is_point_in_rect mx my w.area ≡ true
  pub shown : is_behind mx my (places above) ≡ false

or_below-none :
    (o : Option Window) (w : Window) (mx my : ℕ)
    → or_below o w mx my ≡ none
    → (o ≡ none) × (is_point_in_rect mx my w.area ≡ false)
or_below-none none w mx my e = elim (Bool-cases (is_point_in_rect mx my w.area)) [
  | inl here ↦ absurd (option_clash (sym e ∙ ap (λ b. if b then some w else none) here))
  | inr away ↦ (refl, away)
]
or_below-none (some v) w mx my e = absurd (option_clash (sym e))

-- Nothing is found where no window has the point.
at_point-none :
    (mx my : ℕ) (ws : List Window) → at_point mx my ws ≡ none → is_behind mx my (places ws) ≡ false
unfolding at_point
at_point-none mx my [] e = refl
at_point-none mx my (w ∷ ws) e =
    let both = or_below-none (at_point mx my ws) w mx my e in
    rw both.1 (at_point-none mx my ws both.0)

window-eq : {v w : Window} → Path (Option Window) (some v) (some w) → v ≡ w
window-eq {v = v} e = ap or_v e
  where
    or_v : Option Window → Window
    or_v none = v
    or_v (some w) = w

Hit-above : (mx my : ℕ) (u w : Window) (ws : List Window) → Hit mx my ws w → Hit mx my (u ∷ ws) w
Hit-above mx my u w ws h = record {
  below = u ∷ h.below;
  above = h.above;
  split = ap (λ vs. u ∷ vs) h.split;
  inside = h.inside;
  shown = h.shown;
}

pub at_point-Hit :
    (mx my : ℕ) (ws : List Window) (w : Window) → at_point mx my ws ≡ some w → Hit mx my ws w
unfolding at_point
at_point-Hit mx my [] w e = absurd (option_clash e)
at_point-Hit mx my (u ∷ ws) w e =
    at_or_below (at_point mx my ws) refl e (λ v. at_point-Hit mx my ws v)
  where
    at_or_below :
        (o : Option Window)
        → at_point mx my ws ≡ o
        → or_below o u mx my ≡ some w
        → ((v : Window) → at_point mx my ws ≡ some v → Hit mx my ws v)
        → Hit mx my (u ∷ ws) w
    at_or_below none q e go = elim (Bool-cases (is_point_in_rect mx my u.area)) [
      | inl here ↦
          let same : u ≡ w = window-eq (sym (ap (λ b. if b then some u else none) here) ∙ e) in
          record {
            below = [];
            above = ws;
            split = ap (λ v. v ∷ ws) same;
            inside = ap (λ v. is_point_in_rect mx my v.area) (sym same) ∙ here;
            shown = at_point-none mx my ws q;
          }
      | inr away ↦ absurd (option_clash (sym (ap (λ b. if b then some u else none) away) ∙ e))
    ]
    at_or_below (some v) q e go = Hit-above mx my u w ws (go w (q ∙ e))

-- The clip list of the window has the point, once.
pub record Shown (width max_screen_h mx my free : ℕ) (ws : List Window) (w : Window) : Type 0 where
  pub hit : Hit mx my ws w
  pub once :
      count mx my (recalc_clip_list width max_screen_h w.area (places hit.above) [] free).0 ≡ 1

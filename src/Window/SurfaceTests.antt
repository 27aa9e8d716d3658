-- ===== src/Window/SurfaceTests.antt =====
-- src/gs-window-x11.c: the theorems on the place and the timers of a window at concrete ones.
use budgie_screensaver.Common.{
  ℕ, zero, suc, ◌+◌, ◌≤◌, ◌≡◌, refl, Bool, true, false, not, ◌&&◌, ◌||◌, List, [], ◌∷◌, arith,
}
use budgie_screensaver.Window.Geometry.{Rectangle, inside, Cairo, update_geometry}
use budgie_screensaver.Window.Cover.{IsLawful, update_geometry-covers}
use budgie_screensaver.Window.Surface.{Surface, holds, finalize, map_notify}
use budgie_screensaver.Window.Timers.{
  Event, show, message, info_bar, xevent, perform, perform_all, NewIds, IsHeld, perform_all-Held,
}

-- Regions as tests on pixels, within a square.
abbrev Region : Type 0
Region = (ℕ × ℕ → Bool) × ℕ

abbrev square : ℕ → Rectangle
square n = record { x = 0; y = 0; width = n; height = n }

abbrev has : Region → ℕ × ℕ → Bool
has r p = r.0 p && inside (square r.1) p

abbrev bound : Rectangle → ℕ
bound q = q.x + q.width + (q.y + q.height)

abbrev squares : Cairo Region
squares = record {
  create = (λ p. false, 0);
  create_rectangle = λ q. (inside q, bound q);
  union_rectangle = λ r q. (λ p. has r p || inside q p, r.1 + bound q);
  subtract = λ r s. (λ p. has r p && not (has s p), r.1);
  get_extents = λ r. square r.1;
}

squares-IsLawful : IsLawful squares has
squares-IsLawful = record {
  has-create = λ p. refl;
  has-create_rectangle = λ q p. ground arith;
  has-union_rectangle = λ r q p. ground arith;
  has-subtract = λ r s p. ground arith;
  inside-get_extents = λ r p h. ground (arith, h);
}

-- Two monitors that overlap.
abbrev monitors : ℕ → Rectangle
monitors zero = record { x = 0; y = 0; width = 1920; height = 1080 }
monitors (suc i) = record { x = 1900; y = 0; width = 800; height = 600 }

update_geometry-covers_example :
    (j : ℕ) × (j ≤ 1) × (inside (update_geometry squares monitors j) (2000, 10) ≡ true)
update_geometry-covers_example =
    update_geometry-covers squares has monitors 1 (2000, 10) squares-IsLawful refl

abbrev hidden : Surface
hidden = record {
  watchdog_timer_id = 0;
  info_bar_timer_id = 0;
  info_bar_visible = false;
  obscured = false;
  sources = [];
  raised = 0;
  focused = 0;
  unshaped = 0;
}

hidden-IsHeld : IsHeld hidden
hidden-IsHeld = record { held = λ x. refl; shown = refl; apart = λ e. refl }

-- Shown twice, with two messages, of which the second is hidden by its timer.
abbrev events : List Event
events =
    show 4 ∷ message 5 ∷ xevent (map_notify false) ∷ message 6 ∷ show 7 ∷ info_bar ∷ message 8 ∷ []

events-NewIds : NewIds events hidden
unfolding perform
events-NewIds = (
  ((λ e. omega arith), refl),
  (
    ((λ e. omega arith), refl),
    (
      tt,
      (
        ((λ e. omega arith), refl),
        (((λ e. omega arith), refl), (tt, (((λ e. omega arith), refl), tt))),
      ),
    ),
  ),
)

perform_all-Held_example :
    IsHeld (perform_all events hidden)
    × ((x : ℕ) → holds x (finalize (perform_all events hidden)).sources ≡ false)
perform_all-Held_example = perform_all-Held events hidden hidden-IsHeld events-NewIds

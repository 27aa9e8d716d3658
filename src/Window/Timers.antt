-- ===== src/Window/Timers.antt =====
-- src/gs-window-x11.c: no timer of a window outlives it.
use budgie_screensaver.Common.{
  ℕ, ◌≡◌, ◌≢◌, refl, Bool, false, not, ◌&&◌, ◌||◌, List, [], ◌∷◌, ◌==◌, if◌then◌else◌, arith,
}
use budgie_screensaver.Window.Surface.{
  Surface, holds, without, XEvent, Visibility, watchdog_timer, real_show, real_hide, show_message,
  info_bar_timeout, gs_window_xevent, visibility_notify_event, finalize,
}

pub holds-without :
    (x y : ℕ) (ids : List ℕ) → holds x (without y ids) ≡ (if y == x then false else holds x ids)
holds-without x y [] = ground arith
holds-without x y (id ∷ ids) = ground (arith, holds-without x y ids)

-- What happens to a window; the ids are what the main loop returns.
pub data Event : Type 0 where
  show message : (id : ℕ) → Event
  hide watchdog info_bar : Event
  xevent : XEvent → Event
  visibility : Visibility → Event

unfoldable pub perform : Event → Surface → Surface
unfolding real_show show_message real_hide watchdog_timer info_bar_timeout gs_window_xevent
    visibility_notify_event
perform (show id) s = real_show id s
perform (message id) s = show_message id s
perform hide s = real_hide s
perform watchdog s = watchdog_timer s
perform info_bar s = info_bar_timeout s
perform (xevent e) s = gs_window_xevent e s
perform (visibility v) s = (visibility_notify_event v s).0

unfoldable pub perform_all : List Event → Surface → Surface
perform_all [] s = s
perform_all (e ∷ es) s = perform_all es (perform e s)

-- The main loop gives a new source an id of its own, which is not 0.
abbrev pub NewId : Event → Surface → Type 0
NewId (show id) s = (id ≢ 0) × (holds id s.sources ≡ false)
NewId (message id) s = (id ≢ 0) × (holds id s.sources ≡ false)
NewId _ s = Unit

abbrev pub NewIds : List Event → Surface → Type 0
NewIds [] s = Unit
NewIds (e ∷ es) s = NewId e s × NewIds es (perform e s)

abbrev pub noted : ℕ → ℕ → Bool
noted x id = not (id == 0) && id == x

-- The sources that the main loop holds for a window are exactly the two that it has noted, and the
-- message bar is shown exactly while a timer is to hide it.
pub record IsHeld (s : Surface) : Type 0 where
  pub held :
      (x : ℕ) → holds x s.sources ≡ (noted x s.watchdog_timer_id || noted x s.info_bar_timer_id)
  pub shown : s.info_bar_visible ≡ not (s.info_bar_timer_id == 0)
  pub apart : s.watchdog_timer_id ≡ s.info_bar_timer_id → s.watchdog_timer_id ≡ 0

perform-held :
    (e : Event) (s : Surface) (x : ℕ)
    → IsHeld s
    → NewId e s
    → let s' = perform e s in
      holds x s'.sources ≡ (noted x s'.watchdog_timer_id || noted x s'.info_bar_timer_id)
unfolding perform
perform-held (show id) s x i n =
    ground (arith, i.held x, i.held id, i.apart, holds-without x s.watchdog_timer_id s.sources)
perform-held (message id) s x i n =
    ground (arith, i.held x, i.held id, holds-without x s.info_bar_timer_id s.sources)
perform-held hide s x i n = ground (arith, i.held x, holds-without x s.watchdog_timer_id s.sources)
perform-held watchdog s x i n = i.held x
perform-held info_bar s x i n =
    ground (arith, i.held x, holds-without x s.info_bar_timer_id s.sources)
perform-held (xevent e) s x i n = ground (arith, i.held x)
perform-held (visibility v) s x i n = ground (arith, i.held x)

perform-apart :
    (e : Event) (s : Surface)
    → IsHeld s
    → NewId e s
    → let s' = perform e s in
      (s'.info_bar_visible ≡ not (s'.info_bar_timer_id == 0))
      × (s'.watchdog_timer_id ≡ s'.info_bar_timer_id → s'.watchdog_timer_id ≡ 0)
unfolding perform
perform-apart (show id) s i n = (ground (arith, i.shown), ground (arith, i.held id, i.apart))
perform-apart (message id) s i n = (ground arith, ground (arith, i.held id))
perform-apart hide s i n = (ground (arith, i.shown), ground arith)
perform-apart watchdog s i n = (i.shown, i.apart)
perform-apart info_bar s i n = (refl, λ e. e)
perform-apart (xevent e) s i n = (ground (arith, i.shown), ground (arith, i.apart))
perform-apart (visibility v) s i n = (ground (arith, i.shown), ground (arith, i.apart))

perform-IsHeld : (e : Event) (s : Surface) → IsHeld s → NewId e s → IsHeld (perform e s)
perform-IsHeld e s i n =
    let (shown, apart) = perform-apart e s i n in
    record { held = λ x. perform-held e s x i n; shown = shown; apart = apart }

perform_all-IsHeld :
    (es : List Event) (s : Surface) → IsHeld s → NewIds es s → IsHeld (perform_all es s)
unfolding perform_all
perform_all-IsHeld [] s i n = i
perform_all-IsHeld (e ∷ es) s i n =
    perform_all-IsHeld es (perform e s) (perform-IsHeld e s i n.0) n.1

finalize-held : (s : Surface) (x : ℕ) → IsHeld s → holds x (finalize s).sources ≡ false
unfolding finalize
finalize-held s x i = ground (
  arith,
  i.held x,
  holds-without x s.info_bar_timer_id s.sources,
  holds-without x s.watchdog_timer_id s.sources,
  holds-without x s.watchdog_timer_id (without s.info_bar_timer_id s.sources),
)

-- Whatever happens to a window, the main loop holds exactly the timers that the window has noted,
-- one of a kind at most, and the message bar is shown exactly while a timer is to hide it. Once
-- the window is finalized, none of its timers is left, which would be called on freed memory.
pub perform_all-Held :
    (es : List Event) (s : Surface)
    → IsHeld s
    → NewIds es s
    → IsHeld (perform_all es s) × ((x : ℕ) → holds x (finalize (perform_all es s)).sources ≡ false)
perform_all-Held es s i n = let j = perform_all-IsHeld es s i n in (j, λ x. finalize-held _ x j)

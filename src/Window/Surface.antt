-- ===== src/Window/Surface.antt =====
-- src/gs-window-x11.c: what a window does besides its dialog: its timers, its message bar, and
-- its answers to X events. This is the part of the private struct that the dialog leaves alone.
--
-- `sources` are the ids of the sources of the window that the main loop holds; an id comes as an
-- argument, and a function that returns FALSE to the main loop ends its source.
use budgie_screensaver.Common.{
  ℕ, suc, Bool, true, false, not, ◌||◌, List, [], ◌∷◌, ltb, ◌==◌, same, if◌then◌else◌,
}

pub record Surface : Type 0 where
  pub watchdog_timer_id : ℕ
  pub info_bar_timer_id : ℕ
  pub info_bar_visible : Bool
  pub obscured : Bool
  pub sources : List ℕ
  -- The calls of gdk_window_raise, gdk_window_focus, and the ends of a foreign shape.
  pub raised : ℕ
  pub focused : ℕ
  pub unshaped : ℕ

abbrev pub holds : ℕ → List ℕ → Bool
holds x [] = false
holds x (id ∷ ids) = id == x || holds x ids

abbrev pub without : ℕ → List ℕ → List ℕ
without x [] = []
without x (id ∷ ids) = if id == x then without x ids else id ∷ without x ids

unfoldable pub remove_watchdog_timer : Surface → Surface
remove_watchdog_timer s =
    if not (s.watchdog_timer_id == 0)
    then record s { sources = without s.watchdog_timer_id s.sources; watchdog_timer_id = 0 }
    else s

unfoldable pub add_watchdog_timer : (id : ℕ) → Surface → Surface
add_watchdog_timer id s = record s { watchdog_timer_id = id; sources = id ∷ s.sources }

-- It is called again.
unfoldable pub watchdog_timer : Surface → Surface
watchdog_timer s = record s { focused = suc s.focused }

unfoldable pub real_show : (id : ℕ) → Surface → Surface
unfolding remove_watchdog_timer add_watchdog_timer
real_show id s = add_watchdog_timer id (remove_watchdog_timer s)

unfoldable pub real_hide : Surface → Surface
unfolding remove_watchdog_timer
real_hide s = remove_watchdog_timer s

unfoldable pub show_message : (id : ℕ) → Surface → Surface
show_message id s =
    let s = record s { info_bar_visible = true } in
    let s =
      (if ltb 0 s.info_bar_timer_id
        then record s { sources = without s.info_bar_timer_id s.sources }
        else s) in
    record s { info_bar_timer_id = id; sources = id ∷ s.sources }

-- Called by its source, which ends.
unfoldable pub info_bar_timeout : Surface → Surface
info_bar_timeout s = record s {
  sources = without s.info_bar_timer_id s.sources;
  info_bar_timer_id = 0;
  info_bar_visible = false;
}

pub data XEvent : Type 0 where
  -- `ours` is what x11_window_is_ours says of the window that was mapped, or moved in the stack.
  map_notify configure_notify : (ours : Bool) → XEvent
  shape_notify : XEvent
  other : XEvent

abbrev pub gs_window_raise : Surface → Surface
gs_window_raise s = record s { raised = suc s.raised }

unfoldable pub gs_window_xevent : XEvent → Surface → Surface
gs_window_xevent (map_notify ours) s = if not ours then gs_window_raise s else s
gs_window_xevent (configure_notify ours) s = if not ours then gs_window_raise s else s
gs_window_xevent shape_notify s = record s { unshaped = suc s.unshaped }
gs_window_xevent other s = s

pub data Visibility : Type 0 where
  fully_obscured partial unobscured : Visibility

-- The second part is whether "obscured" was notified.
unfoldable pub window_set_obscured : Bool → Surface → Surface × Bool
window_set_obscured b s =
    if same s.obscured b then (s, false) else (record s { obscured = b }, true)

unfoldable pub visibility_notify_event : Visibility → Surface → Surface × Bool
unfolding window_set_obscured
visibility_notify_event fully_obscured s = window_set_obscured true s
visibility_notify_event partial s = (s, false)
visibility_notify_event unobscured s = window_set_obscured false s

unfoldable pub finalize : Surface → Surface
unfolding remove_watchdog_timer
finalize s =
    let s =
      (if ltb 0 s.info_bar_timer_id
        then record s { sources = without s.info_bar_timer_id s.sources }
        else s) in
    remove_watchdog_timer s

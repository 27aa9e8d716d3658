-- ===== src/Window/Events.antt =====
-- src/gs-window-x11.c: the handlers of the events that a lock window gets.
--
-- A position of the pointer is in whole pixels. The window stores it unless a part is negative,
-- which the code reads as unset.
use budgie_screensaver.Common.{
  ℕ, suc, ◌+◌, ◌-◌, ◌*◌, Bool, true, false, not, ◌&&◌, ◌||◌, Option, none, some, List, [], ◌∷◌, ltb,
  ◌==◌, if◌then◌else◌, ℤ, pos, negsuc,
}
use budgie_screensaver.Window.{Window}
use budgie_screensaver.Window.Keys.{queue_key_event}

-- What runs outside of the window: the handlers of the signal "activity", with whether one has
-- handled it, and the key press handler of GtkWindow.
pub record Outside : Type 0 where
  pub activity : Window → Window × Bool
  pub parent_key_press_event : (keyval : ℕ) → Window → Window

unfoldable pub maybe_handle_activity : Outside → Window → Window × Bool
maybe_handle_activity out w =
    if not w.lock_socket && w.sensitive then out.activity w else (w, false)

pub record KeyEvent : Type 0 where
  pub hardware_keycode : ℕ
  pub keyval : ℕ

abbrev pub is_brightness : KeyEvent → Bool
is_brightness e = e.hardware_keycode == 101 || e.hardware_keycode == 212

-- TRUE is the second part always: the event goes no further.
unfoldable pub key_press_event : Outside → KeyEvent → Window → Window × Bool
key_press_event out e w =
    if is_brightness e
    then (w, true)
    else let w = (maybe_handle_activity out w).0 in
      (out.parent_key_press_event e.keyval (queue_key_event e.keyval w), true)

-- The distance of two numbers.
abbrev pub apart : ℕ → ℤ → ℕ
apart l (pos e) = if ltb l e then e - l else l - e
apart l (negsuc e) = l + suc e

-- Just an approximate distance.
abbrev pub distance : ℕ × ℕ → ℤ × ℤ → ℕ
distance last event =
    let dx = apart last.0 event.0 in let dy = apart last.1 event.1 in if ltb dy dx then dx else dy

abbrev pub note_position : ℤ × ℤ → Option (ℕ × ℕ)
note_position (pos x, pos y) = some (x, y)
note_position (pos x, negsuc y) = none
note_position (negsuc x, y) = none

abbrev pub moved : Outside → (width : ℕ) → ℤ × ℤ → Option (ℕ × ℕ) → Window → Window
moved out width event none w = record w { last_position = note_position event }
moved out width event (some last) w =
    if ltb width (10 * distance last event)
    then record (maybe_handle_activity out w).0 { last_position = none }
    else w

-- `width` is the screen's; the window's share of it that counts is a tenth.
unfoldable pub motion_notify_event : Outside → (width : ℕ) → ℤ × ℤ → Window → Window × Bool
motion_notify_event out width event w = (moved out width event w.last_position w, false)

unfoldable pub button_press_event : Outside → Window → Window × Bool
button_press_event out w = ((maybe_handle_activity out w).0, false)

unfoldable pub scroll_event : Outside → Window → Window × Bool
scroll_event out w = ((maybe_handle_activity out w).0, false)

unfoldable pub press_all : Outside → List KeyEvent → Window → Window
press_all out [] w = w
press_all out (e ∷ es) w = press_all out es (key_press_event out e w).0

unfoldable pub motions : Outside → (width : ℕ) → List (ℤ × ℤ) → Window → Window
motions out width [] w = w
motions out width (p ∷ ps) w = motions out width ps (motion_notify_event out width p w).0

-- ===== src/Window/Life.antt =====
-- src/gs-window-x11.c: a window, its dialog and its keyboard, event by event.
use budgie_screensaver.Common.{
  ℕ, ◌≡◌, ◌≢◌, ◌<◌, Bool, false, ◌||◌, Option, none, some, List, [], ◌∷◌,
}
use budgie_screensaver.Window.{Output, window_id, gs_window_request_unlock}
use budgie_screensaver.Window.Surface.{holds}
use budgie_screensaver.Window.Timers.{noted}
use budgie_screensaver.Window.Keyboard.{
  Home, Spawned, KeyboardOutput, keyboard_command_watch, popup, dialog_output, cancel_dialog,
  is_window_id,
}

-- What happens to a window and its dialog.
pub data Event : Type 0 where
  -- A request to unlock; the id is what g_idle_add returns.
  request : (id : ℕ) → Event
  start : (dialog : Option Spawned) → Event
  printed : Output → (keyboard : Option Spawned) → Event
  typed : KeyboardOutput → Event
  cancelled : Event

-- The window, and whether the dialog has printed the id of its plug.
pub record Life : Type 0 where
  pub home : Home
  pub announced : Bool

unfoldable pub happen : Event → Life → Life
happen (request id) l = record l {
  home = record (l.home) { window = (gs_window_request_unlock id l.home.window).0 };
}
happen (start dialog) l = record l { home = popup dialog l.home; announced = false }
happen (printed o keyboard) l = record l {
  home = dialog_output o keyboard l.home;
  announced = l.announced || is_window_id o;
}
happen (typed o) l = record l { home = (keyboard_command_watch o l.home).0 }
happen cancelled l = record l { home = cancel_dialog l.home }

unfoldable pub happen_all : List Event → Life → Life
happen_all [] l = l
happen_all (e ∷ es) l = happen_all es (happen e l)

-- A new child has a pid that no other child has, and its watch an id.
abbrev pub IsNew : Option Spawned → Home → Type 0
IsNew none h = Unit
IsNew (some (pid, watch)) h = (pid ≢ 0) × (holds pid h.children ≡ false) × (watch ≢ 0)

-- The main loop calls an idle and a watch only while they are noted, and a dialog prints the id of
-- its plug once.
abbrev pub IsPossible : Event → Life → Type 0
IsPossible (request id) l = Unit
IsPossible (start dialog) l = (0 < l.home.window.popup_dialog_idle_id) × IsNew dialog l.home
IsPossible (printed o keyboard) l =
    (0 < l.home.window.lock_watch_id)
    × (o ≡ window_id → l.announced ≡ false)
    × IsNew keyboard l.home
IsPossible (typed o) l = 0 < l.home.window.keyboard_watch_id
IsPossible cancelled l = Unit

abbrev pub ArePossible : List Event → Life → Type 0
ArePossible [] l = Unit
ArePossible (e ∷ es) l = IsPossible e l × ArePossible es (happen e l)

-- The children that are not waited for are exactly the dialog and the keyboard that the window has
-- noted, and a window with no watch on a dialog has neither.
pub record IsTracked (l : Life) : Type 0 where
  pub held :
      (x : ℕ)
      → holds x l.home.children
        ≡ (noted x l.home.window.lock_pid || noted x l.home.window.keyboard_pid)
  pub apart : l.home.window.lock_pid ≡ l.home.window.keyboard_pid → l.home.window.lock_pid ≡ 0
  pub no_dialog : l.home.window.lock_watch_id ≡ 0 → l.home.window.lock_pid ≡ 0
  pub no_keyboard : l.home.window.lock_watch_id ≡ 0 → l.home.window.keyboard_pid ≡ 0
  pub pending : 0 < l.home.window.popup_dialog_idle_id → l.home.window.lock_watch_id ≡ 0
  pub unannounced : l.announced ≡ false → l.home.window.keyboard_pid ≡ 0

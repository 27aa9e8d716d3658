-- ===== src/Window/Tests.antt =====
-- src/gs-window-x11.c: the theorems at a concrete window.
use budgie_screensaver.Common.{
  ℕ, All, List, ◌≡◌, ◌≢◌, ◌⊎◌, Option, refl, true, false, none, [], ◌∷◌, arith,
}
use budgie_screensaver.Window.{
  Window, Response, cancel, ok, response, eof, lock_command_watch, popup_dialog_idle,
  gs_window_request_unlock,
}
use budgie_screensaver.Window.Keys.{forward_key_events}
use budgie_screensaver.Window.Events.{Outside, KeyEvent, press_all}
use budgie_screensaver.Window.Activity.{KeepsKeys, press_results, press_all-typed}
use budgie_screensaver.Window.Unlock.{IsDown, lock_command_watch_lem}

-- Shown and locked, with no dialog.
abbrev pub locked : Window
locked = record {
  id = 1;
  gdk_window = 11;
  monitor = 0;
  visible = true;
  sensitive = true;
  dialog_up = false;
  lock_enabled = true;
  user_switch_enabled = false;
  logout_enabled = false;
  keyboard_enabled = false;
  logout_timeout = 0;
  logout_command = none;
  keyboard_command = none;
  status_message = none;
  lock_box = false;
  lock_socket = false;
  popup_dialog_idle_id = 0;
  lock_pid = 0;
  lock_watch_id = 0;
  dialog_response = cancel;
  dialog_quit_requested = false;
  dialog_shake_in_progress = false;
  keyboard_pid = 0;
  keyboard_watch_id = 0;
  key_events = [];
  last_position = none;
  deactivated_idles = 0;
}

-- With its dialog running.
abbrev asking : Window
asking = record locked {
  dialog_up = true;
  lock_box = true;
  lock_socket = true;
  lock_pid = 500;
  lock_watch_id = 12;
}

-- Handlers that request the unlock, and no binding of GtkWindow.
abbrev unlocking : Outside
unlocking = record {
  activity = λ w. ((gs_window_request_unlock 30 w).0, true);
  parent_key_press_event = λ k w. w;
}

unlocking-KeepsKeys : KeepsKeys unlocking
unfolding gs_window_request_unlock
unlocking-KeepsKeys = record { activity = λ w. ground arith; parent = λ k w. refl }

abbrev key : ℕ → KeyEvent
key k = record { hardware_keycode = 38; keyval = k }

-- Return, a, Tab, b, and a key that makes the screen darker.
abbrev keys : List KeyEvent
keys =
    key 0xff0d ∷ key 97 ∷ key 0xff09 ∷ key 98 ∷ record { hardware_keycode = 212; keyval = 99 } ∷ []

press_all-typed_example :
    let (w, given) = forward_key_events (press_all unlocking keys locked) in
    (given ≡ 97 ∷ 98 ∷ [])
    × (w.key_events ≡ [])
    × All (λ b. b ≡ true) (press_results unlocking keys locked)
press_all-typed_example = press_all-typed unlocking keys locked unlocking-KeepsKeys refl

lock_command_watch_example :
    let (w, notified, again) = lock_command_watch (response ok) asking in
    ((w.deactivated_idles ≡ 0)
      ⊎ ((w.deactivated_idles ≡ 1)
          × ((response ok ≡ response ok) ⊎ ((response ok ≡ eof) × (cancel ≡ ok)))))
    × ((response ok ≡ response ok) ⊎ ((response ok ≡ eof) × (cancel ≡ ok))
        → w.deactivated_idles ≡ 1)
    × ((r : Response)
        → (response ok ≡ response r) ⊎ (response ok ≡ eof)
        → IsDown w × (notified ≡ true) × (again ≡ false))
    × ((r : Response) → response ok ≡ response r → w.dialog_response ≡ r)
    × (((r : Response) → response ok ≢ response r) → w.dialog_response ≡ cancel)
    × ((spawned : Option (ℕ × ℕ)) → (popup_dialog_idle spawned asking).dialog_response ≡ cancel)
lock_command_watch_example = lock_command_watch_lem (response ok) asking

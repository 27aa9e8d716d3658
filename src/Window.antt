-- ===== src/Window.antt =====
-- src/gs-window-x11.c: the state of one lock window, its setters, its unlock dialog and its queue
-- of key events.
--
-- Widgets, child processes and the main loop are not modelled: a widget is what the code reads of
-- it, a child is its pid, and the ids of sources come as arguments. The notification of
-- "dialog-up" is the second part of a result: its handler runs when the operation is done. What an
-- operation does past the notification concerns fields of the window that the handler neither
-- reads nor writes, so that nothing depends on the difference.
pub mod Keys
pub mod Unlock
pub mod Events
pub mod Activity
pub mod Geometry
pub mod Cover
pub mod Surface
pub mod Timers
pub mod Keyboard
pub mod Life
pub mod Tracked
pub mod Processes
pub mod LifeTests
pub mod ShellTests
pub mod SurfaceTests
pub mod Command
pub mod Words
pub mod Tests
use budgie_screensaver.Common.{
  ℕ, suc, Bool, true, false, not, ◌&&◌, Option, none, some, is_some, String, List, [], same, ltb,
  ◌==◌, if◌then◌else◌, ℤ, pos, negsuc,
}

pub data Response : Type 0 where
  cancel ok : Response

pub record Window : Type 0 where
  pub id : ℕ  -- the pointer to the GSWindow
  pub gdk_window : ℕ
  pub monitor : ℕ
  pub visible : Bool
  pub sensitive : Bool
  pub dialog_up : Bool
  pub lock_enabled : Bool
  pub user_switch_enabled : Bool
  pub logout_enabled : Bool
  pub keyboard_enabled : Bool
  pub logout_timeout : ℕ
  pub logout_command : Option String
  pub keyboard_command : Option String
  pub status_message : Option String
  pub lock_box : Bool  -- not NULL
  pub lock_socket : Bool  -- not NULL
  pub popup_dialog_idle_id : ℕ
  pub lock_pid : ℕ
  pub lock_watch_id : ℕ
  pub dialog_response : Response
  pub dialog_quit_requested : Bool
  pub dialog_shake_in_progress : Bool
  pub keyboard_pid : ℕ
  pub keyboard_watch_id : ℕ
  pub key_events : List ℕ
  -- The last position of the pointer, unless it is unset (-1).
  pub last_position : Option (ℕ × ℕ)
  -- The idle calls of emit_deactivated_idle that the main loop holds.
  pub deactivated_idles : ℕ

unfoldable pub set_lock_enabled : Bool → Window → Window
set_lock_enabled b w = if same w.lock_enabled b then w else record w { lock_enabled = b }

unfoldable pub set_keyboard_enabled : Bool → Window → Window
set_keyboard_enabled b w = record w { keyboard_enabled = b }

unfoldable pub set_keyboard_command : Option String → Window → Window
set_keyboard_command c w = record w { keyboard_command = c }

unfoldable pub set_logout_enabled : Bool → Window → Window
set_logout_enabled b w = record w { logout_enabled = b }

unfoldable pub set_user_switch_enabled : Bool → Window → Window
set_user_switch_enabled b w = record w { user_switch_enabled = b }

-- A glong into a guint64, a negative one as 0.
abbrev pub clamp_timeout : ℤ → ℕ
clamp_timeout (pos n) = n
clamp_timeout (negsuc n) = 0

unfoldable pub set_logout_timeout : ℤ → Window → Window
set_logout_timeout t w = record w { logout_timeout = clamp_timeout t }

unfoldable pub set_logout_command : Option String → Window → Window
set_logout_command c w = record w { logout_command = c }

unfoldable pub set_status_message : Option String → Window → Window
set_status_message c w = record w { status_message = c }

unfoldable pub set_monitor : ℕ → Window → Window
set_monitor m w = if w.monitor == m then w else record w { monitor = m }

-- The window, and whether "dialog-up" was notified.
unfoldable pub window_set_dialog_up : Bool → Window → Window × Bool
window_set_dialog_up b w =
    if same w.dialog_up b then (w, false) else (record w { dialog_up = b }, true)

-- Both children are signalled and waited for, and the queued keys are freed.
unfoldable pub gs_window_dialog_finish : Window → Window
gs_window_dialog_finish w = record w { keyboard_pid = 0; lock_pid = 0; key_events = [] }

unfoldable pub remove_command_watches : Window → Window
remove_command_watches w = record w { lock_watch_id = 0; keyboard_watch_id = 0 }

unfoldable pub remove_popup_dialog_idle : Window → Window
remove_popup_dialog_idle w = record w { popup_dialog_idle_id = 0 }

-- Removing the box destroys the socket in it, which clears lock_socket.
unfoldable pub remove_lock_box : Window → Window
remove_lock_box w = if w.lock_box then record w { lock_box = false; lock_socket = false } else w

unfoldable pub popdown_dialog : Window → Window × Bool
unfolding window_set_dialog_up gs_window_dialog_finish remove_command_watches
    remove_popup_dialog_idle remove_lock_box
popdown_dialog w =
    let (w, notified) = window_set_dialog_up false (gs_window_dialog_finish w) in
    let w = record w { last_position = none } in
    (remove_command_watches (remove_popup_dialog_idle (remove_lock_box w)), notified)

unfoldable pub gs_window_cancel_unlock_request : Window → Window × Bool
unfolding popdown_dialog
gs_window_cancel_unlock_request w = popdown_dialog w

unfoldable pub add_emit_deactivated_idle : Window → Window
add_emit_deactivated_idle w = record w { deactivated_idles = suc w.deactivated_idles }

-- `id` is what g_idle_add returns.
unfoldable pub gs_window_request_unlock : (id : ℕ) → Window → Window × Bool
unfolding window_set_dialog_up add_emit_deactivated_idle
gs_window_request_unlock id w =
    if not w.visible
    then (w, false)
    else if ltb 0 w.lock_watch_id
    then (w, false)
    else if not w.lock_enabled
    then (add_emit_deactivated_idle w, false)
    else let w =
        if w.popup_dialog_idle_id == 0 then record w { popup_dialog_idle_id = id } else w in
      window_set_dialog_up true w

abbrev pub note_dialog : Option (ℕ × ℕ) → Window → Window
note_dialog none w = w
note_dialog (some (pid, watch)) w = record w { lock_pid = pid; lock_watch_id = watch }

-- `spawned` is the pid and the watch's id where the dialog could be started.
unfoldable pub popup_dialog_idle : (spawned : Option (ℕ × ℕ)) → Window → Window
popup_dialog_idle spawned w =
    let w = record w { dialog_quit_requested = false; dialog_shake_in_progress = false } in
    record (note_dialog spawned w) { popup_dialog_idle_id = 0 }

-- What the watch of the dialog's output gets: a line in one of the dialog's words, or the end.
pub data Output : Type 0 where
  -- WINDOW ID=
  window_id : Output
  -- NOTICE=AUTH FAILED, and any other notice
  auth_failed other_notice : Output
  -- RESPONSE=OK, and any other response
  response : Response → Output
  -- REQUEST QUIT
  request_quit : Output
  -- A line of no meaning, and G_IO_STATUS_AGAIN.
  other : Output
  -- The end of the output, or that the dialog hung up.
  eof : Output
  -- A read error.
  read_error : Output

unfoldable pub answer : Response → Window → Window
unfolding add_emit_deactivated_idle
answer cancel w = w
answer ok w = add_emit_deactivated_idle w

unfoldable pub finish_dialog : Window → Window × Bool
unfolding popdown_dialog answer
finish_dialog w =
    let (w, notified) = popdown_dialog w in
    (record (answer w.dialog_response w) { lock_watch_id = 0 }, notified)

-- The last part is what the main loop gets: whether to call again. shake_dialog ends with its flag
-- cleared; the signal that maybe_kill_dialog may send shows only as the end of the output.
unfoldable pub lock_command_watch : Output → Window → Window × Bool × Bool
lock_command_watch window_id w = (record w { lock_box = true; lock_socket = true }, false, true)
lock_command_watch auth_failed w = (record w { dialog_shake_in_progress = false }, false, true)
lock_command_watch other_notice w = (w, false, true)
lock_command_watch (response r) w =
    let (w, notified) = finish_dialog (record w { dialog_response = r }) in (w, notified, false)
lock_command_watch request_quit w = (record w { dialog_quit_requested = true }, false, true)
lock_command_watch other w = (w, false, true)
lock_command_watch eof w = let (w, notified) = finish_dialog w in (w, notified, false)
lock_command_watch read_error w = (w, false, false)

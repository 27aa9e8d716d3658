-- ===== src/Window/Keyboard.antt =====
-- src/gs-window-x11.c: the processes of a window's dialog: the dialog itself and the keyboard that
-- is embedded beside it.
--
-- A process that is started counts as a child until it is waited for. What g_spawn_async_with_pipes
-- and g_io_add_watch return is an argument.
use budgie_screensaver.Common.{
  ℕ, Bool, true, false, ◌&&◌, Option, none, some, List, ◌∷◌, ltb, if◌then◌else◌, is_some,
}
use budgie_screensaver.Window.{
  Window, Output, window_id, response, eof, lock_command_watch, popup_dialog_idle,
  gs_window_cancel_unlock_request,
}
use budgie_screensaver.Window.Surface.{without}

pub record Home : Type 0 where
  pub window : Window
  pub keyboard_socket : Bool
  -- The children that are not waited for yet.
  pub children : List ℕ

-- The pid and the id of the watch.
abbrev pub Spawned : Type 0
Spawned = ℕ × ℕ

-- SIGTERM and waitpid, on a pid that is noted.
unfoldable pub reap : (pid : ℕ) → List ℕ → List ℕ
reap pid children = if ltb 0 pid then without pid children else children

unfoldable pub keyboard_command_finish : Home → Home
unfolding reap
keyboard_command_finish h = record h {
  window = record (h.window) { keyboard_pid = 0 };
  children = reap h.window.keyboard_pid h.children;
}

-- The children, when gs_window_dialog_finish has ended both.
unfoldable pub finish_children : Home → List ℕ
unfolding keyboard_command_finish reap
finish_children h = reap h.window.lock_pid (keyboard_command_finish h).children

abbrev pub run_keyboard : Option Spawned → Home → Home
run_keyboard none h = h
run_keyboard (some (pid, watch)) h = record h {
  window = record (h.window) { keyboard_pid = pid; keyboard_watch_id = watch };
  children = pid ∷ h.children;
}

unfoldable pub embed_keyboard : Option Spawned → Home → Home
embed_keyboard spawned h =
    if h.window.keyboard_enabled && is_some h.window.keyboard_command
    then run_keyboard spawned h
    else h

-- `spawned` is about the keyboard.
unfoldable pub create_lock_socket : Option Spawned → Home → Home
unfolding embed_keyboard
create_lock_socket spawned h =
    let h = record h { window = record (h.window) { lock_box = true; lock_socket = true } } in
    if h.window.keyboard_enabled then embed_keyboard spawned h else h

-- What the keyboard's output has: an id, another line, its end, or a read error.
pub data KeyboardOutput : Type 0 where
  plug_id no_id closed broken : KeyboardOutput

unfoldable pub create_keyboard_socket : Home → Home
create_keyboard_socket h = record h { keyboard_socket = true }

-- With whether the main loop is to call again.
unfoldable pub keyboard_command_watch : KeyboardOutput → Home → Home × Bool
unfolding create_keyboard_socket keyboard_command_finish
keyboard_command_watch plug_id h = (create_keyboard_socket h, true)
keyboard_command_watch no_id h = (h, true)
keyboard_command_watch closed h = (
  keyboard_command_finish (record h { window = record (h.window) { keyboard_watch_id = 0 } }),
  false,
)
keyboard_command_watch broken h = (h, false)

abbrev pub note_child : Option Spawned → List ℕ → List ℕ
note_child none children = children
note_child (some (pid, watch)) children = pid ∷ children

unfoldable pub popup : Option Spawned → Home → Home
popup spawned h = record h {
  window = popup_dialog_idle spawned h.window;
  children = note_child spawned h.children;
}

-- Whether the watch takes the dialog down.
abbrev pub is_last : Output → Bool
is_last (response r) = true
is_last eof = true
is_last _ = false

abbrev pub is_window_id : Output → Bool
is_window_id window_id = true
is_window_id _ = false

-- The watch of the dialog's output; `spawned` is about the keyboard.
unfoldable pub dialog_output : Output → Option Spawned → Home → Home
dialog_output o spawned h = if is_window_id o then create_lock_socket spawned h else record h {
  window = (lock_command_watch o h.window).0;
  children = if is_last o then finish_children h else h.children;
}

unfoldable pub cancel_dialog : Home → Home
cancel_dialog h = record h {
  window = (gs_window_cancel_unlock_request h.window).0;
  children = finish_children h;
}

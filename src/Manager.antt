-- ===== src/Manager.antt =====
-- src/gs-manager.c: the manager's state, its policy and its lock timer.
--
-- GDK and the main loop are not modelled: an `Env` says what they answer. The fade and the grab
-- are those that the whole process shares (gs_fade_new and gs_grab_new return one object each).
-- The background, which only the look of a window depends on, is left out.
pub mod Windows
pub mod Active
pub mod LockTimer
pub mod Dialog
pub mod Stable
pub mod Locked
pub mod Policy
pub mod Operations
pub mod Settings
pub mod Configured
pub mod Total
pub mod Monitors
pub mod Deactivation
pub mod Activation
pub mod Tests
use budgie_screensaver.Common.{
  ℕ, suc, ◌+◌, ◌*◌, ◌%◌, ◌^◌, Bool, true, false, not, ◌&&◌, Option, none, some, String, List, [],
  ◌∷◌, map, same, ◌==◌, ltb, if◌then◌else◌, SourceCall, add_timeout, remove, ℤ, pos, negsuc, sub_ℕ,
  same_ℤ, leb_ℤ, minus,
}
use budgie_screensaver.Grab.{Grab, Display}
use budgie_screensaver.Fade.{Fade, Doubles, Backend}
use budgie_screensaver.Window.{
  Window, set_lock_enabled, set_keyboard_enabled, set_keyboard_command, set_logout_enabled,
  set_user_switch_enabled, set_logout_timeout, set_logout_command, set_status_message,
}

pub data Signal : Type 0 where
  activated auth_request_begin auth_request_end : Signal

pub record Env : Type 0 where
  pub display : Display
  pub doubles : Doubles
  pub backend : Backend
  -- The rounds that the loop that moves the grab is given.
  pub fuel : ℕ
  -- time (NULL), at least 1.
  pub now : ℕ
  pub n_monitors : ℕ
  pub pointer_monitor : ℕ
  pub root_window : ℕ
  -- The id of the n-th source that is added.
  pub source_id : ℕ → ℕ
  -- The n-th window that is created, and its GdkWindow.
  pub window_id : ℕ → ℕ
  pub gdk_window : ℕ → ℕ

pub record Manager : Type 0 where
  pub windows : List Window
  pub lock_timeout : ℤ
  pub logout_timeout : ℤ
  pub lock_enabled : Bool
  pub logout_enabled : Bool
  pub keyboard_enabled : Bool
  pub user_switch_enabled : Bool
  pub logout_command : Option String
  pub keyboard_command : Option String
  pub status_message : Option String
  pub active : Bool
  pub lock_active : Bool
  pub fading : Bool
  pub dialog_up : Bool
  pub activate_time : ℕ
  pub lock_timeout_id : ℕ
  pub grab : Grab
  pub fade : Fade
  pub unfade_idle_id : ℕ
  -- The windows created and the sources added so far.
  pub created : ℕ
  pub adds : ℕ
  -- The signals emitted and the calls on the main loop, the last one first.
  pub signals : List Signal
  pub calls : List SourceCall

unfoldable pub gs_manager_set_lock_active : Bool → Manager → Manager
gs_manager_set_lock_active b m =
    if same m.lock_active b
    then m
    else record m { lock_active = b; windows = map (set_lock_enabled b) m.windows }

unfoldable pub gs_manager_set_lock_enabled : Bool → Manager → Manager
gs_manager_set_lock_enabled b m = if same m.lock_enabled b then m else record m { lock_enabled = b }

unfoldable pub gs_manager_set_logout_enabled : Bool → Manager → Manager
gs_manager_set_logout_enabled b m =
    if same m.logout_enabled b
    then m
    else record m { logout_enabled = b; windows = map (set_logout_enabled b) m.windows }

unfoldable pub gs_manager_set_keyboard_enabled : Bool → Manager → Manager
gs_manager_set_keyboard_enabled b m =
    if same m.keyboard_enabled b
    then m
    else record m { keyboard_enabled = b; windows = map (set_keyboard_enabled b) m.windows }

unfoldable pub gs_manager_set_user_switch_enabled : Bool → Manager → Manager
gs_manager_set_user_switch_enabled b m =
    if same m.user_switch_enabled b
    then m
    else record m { user_switch_enabled = b; windows = map (set_user_switch_enabled b) m.windows }

unfoldable pub gs_manager_set_logout_timeout : ℤ → Manager → Manager
gs_manager_set_logout_timeout t m =
    if same_ℤ m.logout_timeout t
    then m
    else record m { logout_timeout = t; windows = map (set_logout_timeout t) m.windows }

unfoldable pub gs_manager_set_logout_command : Option String → Manager → Manager
gs_manager_set_logout_command c m = record m {
  logout_command = c;
  windows = map (set_logout_command c) m.windows;
}

unfoldable pub gs_manager_set_keyboard_command : Option String → Manager → Manager
gs_manager_set_keyboard_command c m = record m {
  keyboard_command = c;
  windows = map (set_keyboard_command c) m.windows;
}

unfoldable pub gs_manager_set_status_message : Option String → Manager → Manager
gs_manager_set_status_message c m = record m {
  status_message = c;
  windows = map (set_status_message c) m.windows;
}

-- The timer's callback; it is not called again.
unfoldable pub activate_lock_timeout : Manager → Manager
activate_lock_timeout m = record (if m.lock_enabled then gs_manager_set_lock_active true m else m) {
  lock_timeout_id = 0;
}

unfoldable pub remove_lock_timer : Manager → Manager
remove_lock_timer m =
    if m.lock_timeout_id == 0
    then m
    else record m { lock_timeout_id = 0; calls = remove m.lock_timeout_id ∷ m.calls }

-- A glong interval is passed as a guint.
unfoldable pub add_lock_timer : Env → (timeout : ℕ) → Manager → Manager
add_lock_timer env timeout m =
    let id = env.source_id m.adds in
    record m {
      lock_timeout_id = id;
      adds = suc m.adds;
      calls = add_timeout (timeout % 2 ^ 32) id ∷ m.calls;
    }

-- The milliseconds since the activation, negative if the clock ran backwards.
unfoldable pub elapsed : Env → Manager → ℤ
elapsed env m = sub_ℕ (env.now * 1000) (m.activate_time * 1000)

-- What is done about a new timeout while the saver is active and not locked.
unfoldable pub restart_lock_timer : Env → ℤ → Manager → Manager
restart_lock_timer env (negsuc n) m = m
restart_lock_timer env (pos timeout) m =
    let m = remove_lock_timer m in
    if leb_ℤ timeout (elapsed env m)
    then activate_lock_timeout m
    else add_lock_timer env (minus timeout (elapsed env m)) m

unfoldable pub gs_manager_set_lock_timeout : Env → ℤ → Manager → Manager
gs_manager_set_lock_timeout env t m =
    if same_ℤ m.lock_timeout t
    then m
    else let m = record m { lock_timeout = t } in
      if m.active && not m.lock_active then restart_lock_timer env t m else m

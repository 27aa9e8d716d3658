-- ===== src/Manager/Windows.antt =====
-- src/gs-manager.c: the lock windows, one for each monitor.
use budgie_screensaver.Common.{
  ℕ, zero, suc, ◌-◌, Bool, true, false, not, ◌&&◌, Option, none, some, List, [], ◌∷◌, ◌++◌, ◌==◌,
  ltb, leb, length, if◌then◌else◌, add_timeout, remove, pos, negsuc, ℤ,
}
use budgie_screensaver.Fade.{gs_fade_reset}
use budgie_screensaver.Window.{
  Window, cancel, set_keyboard_enabled, set_keyboard_command, set_logout_enabled,
  set_user_switch_enabled, set_logout_timeout, set_logout_command, set_status_message,
}
use budgie_screensaver.Manager.{Env, Manager, activated, remove_lock_timer, add_lock_timer}
use budgie_screensaver.Manager.Dialog.{
  ◌>>=◌, emit, replace, ids, cancel_windows, gs_manager_request_unlock,
}

-- g_slist_delete_link.
abbrev pub without : ℕ → List Window → List Window
without id [] = []
without id (w ∷ ws) = if w.id == id then ws else w ∷ without id ws

module _ (env : Env) where
  -- gs_window_new, over the zeroed object.
  unfoldable pub gs_window_new : (monitor : ℕ) → (lock_enabled : Bool) → Manager → Window
  gs_window_new monitor lock_enabled m = record {
    id = env.window_id m.created;
    gdk_window = env.gdk_window (env.window_id m.created);
    monitor = monitor;
    visible = false;
    sensitive = true;
    dialog_up = false;
    lock_enabled = lock_enabled;
    user_switch_enabled = false;
    logout_enabled = false;
    keyboard_enabled = false;
    logout_timeout = 0;
    logout_command = none;
    keyboard_command = none;
    status_message = none;
    lock_box = false;
    lock_socket = false;
    popup_dialog_idle_id = 0;
    lock_pid = 0;
    lock_watch_id = 0;
    dialog_response = cancel;
    dialog_quit_requested = false;
    dialog_shake_in_progress = false;
    keyboard_pid = 0;
    keyboard_watch_id = 0;
    key_events = [];
    last_position = none;
    deactivated_idles = 0;
  }

  unfoldable pub remove_unfade_idle : Manager → Manager
  remove_unfade_idle m =
      if ltb 0 m.unfade_idle_id
      then record m { unfade_idle_id = 0; calls = remove m.unfade_idle_id ∷ m.calls }
      else m

  unfoldable pub add_unfade_idle : Manager → Manager
  add_unfade_idle m =
      let m = remove_unfade_idle m in
      let id = env.source_id m.adds in
      record m { unfade_idle_id = id; adds = suc m.adds; calls = add_timeout 500 id ∷ m.calls }

  unfoldable pub unfade_idle : Manager → Manager
  unfade_idle m = record m {
    fade = gs_fade_reset env.doubles env.backend m.fade;
    unfade_idle_id = 0;
  }

  unfoldable pub start_lock_timer : ℤ → Manager → Manager
  start_lock_timer (pos timeout) m = add_lock_timer env timeout (remove_lock_timer m)
  start_lock_timer (negsuc n) m = m

  unfoldable pub manager_show_window : Manager → Manager
  manager_show_window m =
      let m = record m { activate_time = env.now } in
      let m = start_lock_timer m.lock_timeout m in emit activated (add_unfade_idle m)

  -- gtk_widget_show, which emits "show" for a window that is not visible yet.
  unfoldable pub show_window : Window → Manager → Manager
  show_window w m =
      if w.visible
      then m
      else manager_show_window
          (record m { windows = replace (record w { visible = true }) m.windows })

  unfoldable pub show_windows : List Window → Manager → Manager
  show_windows [] m = m
  show_windows (w ∷ ws) m = show_windows ws (show_window w m)

  -- The window with the manager's policy.
  unfoldable pub configured : (monitor : ℕ) → Manager → Window
  unfolding set_keyboard_enabled set_keyboard_command set_logout_enabled set_user_switch_enabled
      set_logout_timeout set_logout_command set_status_message gs_window_new
  configured monitor m =
      let w = gs_window_new monitor m.lock_active m in
      let w = set_user_switch_enabled m.user_switch_enabled w in
      let w = set_logout_enabled m.logout_enabled w in
      let w = set_logout_timeout m.logout_timeout w in
      let w = set_logout_command m.logout_command w in
      let w = set_keyboard_enabled m.keyboard_enabled w in
      let w = set_keyboard_command m.keyboard_command w in set_status_message m.status_message w

  unfoldable pub gs_manager_create_window_for_monitor : (monitor : ℕ) → Manager → Manager
  gs_manager_create_window_for_monitor monitor m =
      let w = configured monitor m in
      let m = record m { windows = m.windows ++ w ∷ []; created = suc m.created } in
      if m.active && not m.fading then show_window w m else m

  -- Windows for the monitors from the `i`-th on, `n` of them.
  unfoldable pub create_windows_from : (i n : ℕ) → Manager → Manager
  create_windows_from i zero m = m
  create_windows_from i (suc n) m =
      create_windows_from (suc i) n (gs_manager_create_window_for_monitor i m)

  unfoldable pub gs_manager_create_windows : Manager → Manager
  gs_manager_create_windows m = create_windows_from 0 env.n_monitors m

  -- gs_window_destroy on the windows of the list: what remains is that their dialogs go down.
  unfoldable pub gs_manager_destroy_windows : Manager → Option Manager
  gs_manager_destroy_windows m =
      cancel_windows env (ids m.windows) m >>= λ m. some (record m { windows = [] })

  -- The windows on monitors that are gone, destroyed one after the other.
  unfoldable pub destroy_extra : List Window → Manager → Option Manager
  destroy_extra [] m = some m
  destroy_extra (w ∷ ws) m =
      if leb env.n_monitors w.monitor
      then elim (cancel_windows env (w.id ∷ []) m) [
        | none ↦ none
        | some m' ↦ destroy_extra ws (record m' { windows = without w.id m'.windows })
      ]
      else destroy_extra ws m

  unfoldable pub on_screen_monitors_changed : Manager → Option Manager
  on_screen_monitors_changed m =
      let n_windows = length m.windows in
      if ltb n_windows env.n_monitors
      then (cancel_windows env (ids m.windows) m >>= λ m.
          gs_manager_request_unlock env
            (create_windows_from n_windows (env.n_monitors - n_windows) m)
          >>= λ r. some r.0)
      else destroy_extra m.windows m >>= λ m.
          if ltb env.n_monitors n_windows
          then (gs_manager_request_unlock env m >>= λ r. some r.0)
          else some m

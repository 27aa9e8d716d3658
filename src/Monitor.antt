-- ===== src/Monitor.antt =====
-- src/gs-monitor.c: the monitor, which joins the listener, the watcher, the manager and the
-- preferences by the handlers of their signals.
--
-- Where the manager does not end within its fuel, `failed` is set. A handler that calls back into
-- the listener finds "active-changed" connected (`connected`), the only signal that such a call
-- emits; `listener_host` and `watcher_host` connect them all.
pub mod Wiring
pub mod Lock
pub mod Sync
pub mod Policy
pub mod Hosts
pub mod Saver
pub mod Flag
pub mod Quiet
pub mod Update
pub mod Refinement
pub mod Tests
use budgie_screensaver.Common.{
  ℕ, suc, Bool, true, false, not, none, some, List, if◌then◌else◌, SourceCall,
}
use budgie_screensaver.Prefs.{Prefs}
use budgie_screensaver.Grab.{gs_grab_release}
use budgie_screensaver.Watcher.{Watcher, gs_watcher_set_active}
use budgie_screensaver.Listener.{
  Listener, Host, gs_listener_set_active, gs_listener_set_session_idle,
}
use budgie_screensaver.Manager.{Env, Manager, gs_manager_set_lock_active}
use budgie_screensaver.Manager.Dialog.{gs_manager_request_unlock, gs_manager_show_message}
use budgie_screensaver.Manager.Active.{gs_manager_set_active}

-- The grab and the fade are the manager's.
pub record Monitor : Type 0 where
  pub watcher : Watcher
  pub listener : Listener
  pub manager : Manager
  pub prefs : Prefs
  pub release_grab_id : ℕ
  pub calls : List SourceCall
  -- The calls of XResetScreenSaver.
  pub resets : ℕ
  -- gnome_screensaver_quit was called.
  pub quitting : Bool
  pub failed : Bool

-- The watcher is on while the saver is off.
unfoldable pub set_watch : (active : Bool) → Monitor → Monitor
set_watch active m =
    if m.watcher.enabled
    then record m { watcher = (gs_watcher_set_active (not active) m.watcher).0 }
    else m

module _ (env : Env) where
  unfoldable pub listener_active_changed_cb : (active : Bool) → Monitor → Monitor × Bool
  listener_active_changed_cb active m = elim (gs_manager_set_active env active m.manager) [
    | none ↦ (record m { failed = true }, false)
    | some (manager, res) ↦
        let m = record m { manager = manager } in ((if res then set_watch active m else m), res)
  ]

  abbrev pub connected : Host Monitor
  connected = record {
    get = λ m. m.listener;
    put = λ l m. record m { listener = l };
    emit_lock = λ m. m;
    emit_config_lock = λ m. m;
    emit_quit = λ m. m;
    emit_simulate_user_activity = λ m. m;
    emit_show_message = λ summary body icon m. m;
    emit_active_changed = listener_active_changed_cb;
  }

  unfoldable pub set_active : Bool → Monitor → Monitor × Bool
  set_active active m = gs_listener_set_active connected env.now active m

  -- The lock flag is set first, and set back where the activation fails.
  unfoldable pub gs_monitor_lock_screen : Monitor → Monitor
  gs_monitor_lock_screen m =
      let locked = m.manager.lock_active in
      let m = record m { manager = gs_manager_set_lock_active true m.manager } in
      if m.manager.active
      then m
      else let (m, res) = set_active true m in
        if res then m else record m { manager = gs_manager_set_lock_active locked m.manager }

  unfoldable pub manager_deactivated_cb : Monitor → Monitor
  manager_deactivated_cb m = (set_active false m).0

  -- The idle call that window_deactivated_cb adds, which emits "deactivated".
  unfoldable pub window_deactivated_idle : Monitor → Monitor
  window_deactivated_idle m = manager_deactivated_cb m

  unfoldable pub simulate_user_activity : Monitor → Monitor
  simulate_user_activity m =
      let m = record m { resets = suc m.resets } in
      elim (gs_manager_request_unlock env m.manager) [
        | none ↦ record m { failed = true }
        | some (manager, res) ↦ record m { manager = manager }
      ]

  unfoldable pub listener_lock_cb : Monitor → Monitor
  listener_lock_cb m = if not m.prefs.lock_disabled then gs_monitor_lock_screen m else m

  unfoldable pub listener_config_lock_cb : Monitor → Monitor
  listener_config_lock_cb m =
      if not m.prefs.lock_disabled
      then (if m.prefs.lock_enabled then gs_monitor_lock_screen m else m)
      else m

  unfoldable pub listener_quit_cb : Monitor → Monitor
  listener_quit_cb m = record (set_active false m).0 { quitting = true }

  unfoldable pub listener_show_message_cb : Monitor → Monitor
  listener_show_message_cb m = elim (gs_manager_show_message env m.manager) [
    | none ↦ record m { failed = true }
    | some manager ↦ record m { manager = manager }
  ]

  unfoldable pub watcher_idle_cb : (is_idle : Bool) → Monitor → Monitor × Bool
  watcher_idle_cb is_idle m = gs_listener_set_session_idle connected env.now is_idle m

  unfoldable pub release_grab_timeout : Monitor → Monitor
  release_grab_timeout m =
      let m =
        if not m.manager.active
        then record m { manager = record m.manager { grab = gs_grab_release m.manager.grab } }
        else m in
      record m { release_grab_id = 0 }

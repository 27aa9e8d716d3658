-- ===== src/Monitor/Tests.antt =====
-- src/gs-monitor.c: the theorems at a concrete monitor.
use budgie_screensaver.Common.{◌≡◌, refl, true, false, none, pos, if◌then◌else◌, List, [], ◌∷◌}
use budgie_screensaver.Prefs.{gs_prefs_init}
use budgie_screensaver.Prefs.Tests.{prefs}
use budgie_screensaver.Watcher.Tests.{watching}
use budgie_screensaver.Listener.Tests.{quiet}
use budgie_screensaver.Manager.Locked.{AllLocked}
use budgie_screensaver.Manager.Tests.{env, env-IsResponsive, asleep}
use budgie_screensaver.Monitor.{
  Monitor, set_active, gs_monitor_lock_screen, listener_lock_cb, listener_config_lock_cb,
  listener_quit_cb, manager_deactivated_cb, simulate_user_activity, watcher_idle_cb,
}
use budgie_screensaver.Monitor.Wiring.{update_from_prefs}
use budgie_screensaver.Monitor.Policy.{update_from_prefs_lem}
use budgie_screensaver.Monitor.Saver.{
  Policy, Op, lock, window_deactivated, user_activity, session_idle, idle_notice, prefs_changed,
  next_all, AllowedAll, view, perform_all, Refines,
}
use budgie_screensaver.Monitor.Refinement.{perform_all-Refines}
use budgie_screensaver.Monitor.Sync.{InSync}
use budgie_screensaver.Monitor.Lock.{gs_monitor_lock_screen_lem, handlers-InSync}

abbrev resting : Monitor
resting = record {
  watcher = watching;
  listener = quiet;
  manager = asleep;
  prefs = prefs;
  release_grab_id = 0;
  calls = [];
  resets = 0;
  quitting = false;
  failed = false;
}

gs_monitor_lock_screen_example :
    let n = gs_monitor_lock_screen env resting in
    (n.manager.active ≡ true) × (n.manager.lock_active ≡ true) × (n.listener.active ≡ true)
gs_monitor_lock_screen_example = gs_monitor_lock_screen_lem env resting refl

update_from_prefs_example :
    let n = update_from_prefs env resting in
    (n.manager.lock_enabled ≡ true)
    × (n.manager.user_switch_enabled ≡ false)
    × (n.manager.logout_enabled ≡ true)
    × (n.manager.keyboard_enabled ≡ true)
    × (n.manager.lock_timeout ≡ pos prefs.lock_timeout)
    × (n.manager.logout_timeout ≡ pos prefs.logout_timeout)
    × (n.manager.logout_command ≡ prefs.logout_command)
    × (n.manager.keyboard_command ≡ prefs.keyboard_command)
    × (n.manager.status_message
        ≡ (if prefs.status_message_enabled then watching.status_message else none))
    × (n.listener.activation_enabled ≡ true)
    × (n.watcher.enabled ≡ true)
    × (false ≡ false → n.watcher.active ≡ true)
    × (n.manager.active ≡ false)
unfolding gs_prefs_init
update_from_prefs_example = update_from_prefs_lem env resting

handlers-InSync_example :
    InSync (set_active env true resting).0
    × InSync (listener_lock_cb env resting)
    × InSync (listener_config_lock_cb env resting)
    × InSync (listener_quit_cb env resting)
    × InSync (manager_deactivated_cb env resting)
    × InSync (watcher_idle_cb env true resting).0
    × InSync (simulate_user_activity env resting)
    × ((simulate_user_activity env resting).manager.lock_active ≡ false)
    × ((simulate_user_activity env resting).failed ≡ false)
    × (AllLocked [] → AllLocked (simulate_user_activity env resting).manager.windows)
handlers-InSync_example = handlers-InSync env true resting env-IsResponsive refl

abbrev policy : Policy
policy = record { lock_disabled = false; lock_enabled = true; activation_enabled = true }

-- Preferences that forbid the lock come in between.
abbrev ops : List Op
ops =
    idle_notice true
    ∷ session_idle true
    ∷ lock
    ∷ user_activity
    ∷ prefs_changed (record prefs { lock_disabled = true })
    ∷ window_deactivated
    ∷ lock
    ∷ []

resting-Refines : Refines policy resting
unfolding gs_prefs_init
resting-Refines = record {
  sync = refl;
  tidy = λ e. refl;
  lock_disabled = refl;
  lock_enabled = refl;
  activation_enabled = refl;
}

perform_all-Refines_example :
    AllowedAll policy ops (view resting) (view (perform_all env ops resting))
    × Refines (next_all policy ops) (perform_all env ops resting)
perform_all-Refines_example =
    perform_all-Refines env env-IsResponsive policy ops resting resting-Refines

-- ===== src/Monitor/Wiring.antt =====
-- src/gs-monitor.c: the handlers of the watcher's and the preferences' signals, and the hosts that
-- connect all handlers.
use budgie_screensaver.Common.{
  Bool, true, false, not, ◌&&◌, none, ◌∷◌, ◌==◌, if◌then◌else◌, suc, add_timeout, remove, pos,
}
use budgie_screensaver.Grab.{gs_grab_grab_offscreen}
use budgie_screensaver.Fade.{gs_fade_async, gs_fade_reset}
use budgie_screensaver.Watcher.{Host as WatcherHost, gs_watcher_set_active, gs_watcher_set_enabled}
use budgie_screensaver.Listener.{Host, gs_listener_set_activation_enabled}
use budgie_screensaver.Manager.{
  Env, Manager, gs_manager_set_lock_enabled, gs_manager_set_lock_timeout,
  gs_manager_set_logout_enabled, gs_manager_set_user_switch_enabled,
  gs_manager_set_keyboard_enabled, gs_manager_set_logout_timeout, gs_manager_set_logout_command,
  gs_manager_set_keyboard_command, gs_manager_set_status_message,
}
use budgie_screensaver.Prefs.{Prefs}
use budgie_screensaver.Monitor.{
  Monitor, connected, listener_lock_cb, listener_config_lock_cb, listener_quit_cb,
  simulate_user_activity, listener_show_message_cb, watcher_idle_cb,
}

module _ (env : Env) where
  -- The slow fade that warns of the activation, with no callback.
  unfoldable pub start_fade : Manager → Manager
  start_fade g =
      let (grab, res) = gs_grab_grab_offscreen env.display false g.grab in
      let g = record g { grab = grab } in
      if not res then g else record g {
        adds = suc g.adds;
        fade = gs_fade_async env.doubles env.backend 10000 (env.source_id g.adds) none g.fade;
      }

  -- The fade is cancelled, and the grab released a second later.
  unfoldable pub cancel_fade : Monitor → Monitor
  cancel_fade m =
      let g = m.manager in
      let calls = if m.release_grab_id == 0 then m.calls else remove m.release_grab_id ∷ m.calls in
      let id = env.source_id g.adds in
      record m {
        manager = record g {
          fade = gs_fade_reset env.doubles env.backend g.fade;
          adds = suc g.adds;
        };
        release_grab_id = id;
        calls = add_timeout 1 id ∷ calls;
      }

  unfoldable pub watcher_idle_notice_cb : (in_effect : Bool) → Monitor → Monitor × Bool
  watcher_idle_notice_cb in_effect m =
      if in_effect
      then (if m.listener.activation_enabled
          then (record m { manager = start_fade m.manager }, true)
          else (m, false))
      else ((if not m.manager.active then cancel_fade m else m), true)

  -- What the manager is told of the preferences.
  unfoldable pub update_manager : Prefs → Manager → Manager
  update_manager p g =
      let g = gs_manager_set_lock_enabled (p.lock_enabled && not p.lock_disabled) g in
      let g = gs_manager_set_lock_timeout env (pos p.lock_timeout) g in
      let g = gs_manager_set_logout_enabled p.logout_enabled g in
      let g =
        gs_manager_set_user_switch_enabled (p.user_switch_enabled && not p.user_switch_disabled)
          g in
      let g = gs_manager_set_keyboard_enabled p.keyboard_enabled g in
      let g = gs_manager_set_logout_timeout (pos p.logout_timeout) g in
      let g = gs_manager_set_logout_command p.logout_command g in
      gs_manager_set_keyboard_command p.keyboard_command g

  -- Idle detection is always enabled, and switched on unless the saver is active.
  unfoldable pub update_watcher : Monitor → Monitor
  update_watcher m =
      let m = record m { watcher = gs_watcher_set_enabled true m.watcher } in
      if not m.manager.active && not m.watcher.active
      then record m { watcher = (gs_watcher_set_active true m.watcher).0 }
      else m

  unfoldable pub update_status : Monitor → Monitor
  update_status m =
      let text = if m.prefs.status_message_enabled then m.watcher.status_message else none in
      record m { manager = gs_manager_set_status_message text m.manager }

  unfoldable pub update_from_prefs : Monitor → Monitor
  update_from_prefs m =
      let m = record m { manager = update_manager m.prefs m.manager } in
      let m = record m {
        listener = gs_listener_set_activation_enabled m.prefs.idle_activation_enabled m.listener;
      } in
      update_status (update_watcher m)

  unfoldable pub on_watcher_status_message_changed : Monitor → Monitor
  on_watcher_status_message_changed m = record m {
    manager = gs_manager_set_status_message m.watcher.status_message m.manager;
  }

  unfoldable pub listener_host : Host Monitor
  listener_host = record (connected env) {
    emit_lock = listener_lock_cb env;
    emit_config_lock = listener_config_lock_cb env;
    emit_quit = listener_quit_cb env;
    emit_simulate_user_activity = simulate_user_activity env;
    emit_show_message = λ summary body icon m. listener_show_message_cb env m;
  }

  unfoldable pub watcher_host : WatcherHost Monitor
  watcher_host = record {
    get = λ m. m.watcher;
    put = λ x m. record m { watcher = x };
    emit_idle_changed = watcher_idle_cb env;
    emit_idle_notice_changed = watcher_idle_notice_cb;
    notify_status_message = on_watcher_status_message_changed;
  }

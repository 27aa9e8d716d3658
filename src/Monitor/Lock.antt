-- ===== src/Monitor/Lock.antt =====
-- src/gs-monitor.c: locking the screen, and the handlers that change the active flag.
use budgie_screensaver.Common.{◌≡◌, sym, ◌∙◌, Bool, true, false, arith, Bool-cases, inl, inr}
use budgie_screensaver.Listener.{
  gs_listener_set_active, gs_listener_set_session_idle, check_activation, set_session_idle_internal,
}
use budgie_screensaver.Manager.{Env, Manager, gs_manager_set_lock_active}
use budgie_screensaver.Manager.Activation.{gs_manager_set_active-true}
use budgie_screensaver.Manager.Locked.{AllLocked}
use budgie_screensaver.Manager.Total.{IsResponsive}
use budgie_screensaver.Manager.Deactivation.{gs_manager_request_unlock_lem}
use budgie_screensaver.Monitor.{
  Monitor, set_watch, listener_active_changed_cb, set_active, gs_monitor_lock_screen,
  listener_lock_cb, listener_config_lock_cb, listener_quit_cb, manager_deactivated_cb,
  simulate_user_activity, watcher_idle_cb,
}
use budgie_screensaver.Monitor.Sync.{InSync, set_active_lem}

set_lock_active_lem :
    (b : Bool) (g : Manager)
    → ((gs_manager_set_lock_active b g).active ≡ g.active)
      × ((gs_manager_set_lock_active b g).lock_active ≡ b)
unfolding gs_manager_set_lock_active
set_lock_active_lem b g = (ground arith, ground arith)

-- The handler of "active-changed" activates an inactive manager, and leaves its lock alone.
active_changed-true :
    (env : Env) (m : Monitor)
    → m.manager.active ≡ false
    → let (n, res) = listener_active_changed_cb env true m in
      (res ≡ true) × (n.manager.active ≡ true) × (n.manager.lock_active ≡ m.manager.lock_active)
unfolding listener_active_changed_cb set_watch
active_changed-true env m h =
    let (g, e, on, _, lock) = (gs_manager_set_active-true env m.manager).1 h in
    (ground (arith, e), ground (arith, e, on), ground (arith, e, lock))

pub set_active-activates :
    (env : Env) (m : Monitor)
    → InSync m
    → m.manager.active ≡ false
    → let (n, res) = set_active env true m in
      (res ≡ true)
      × (n.manager.active ≡ true)
      × (n.listener.active ≡ true)
      × (n.manager.lock_active ≡ m.manager.lock_active)
unfolding set_active gs_listener_set_active
set_active-activates env m sync h =
    let c = active_changed-true env m h in
    let l = set_active_lem env true m in
    (
      ground (arith, c, sync, h),
      ground (arith, c, sync, h),
      ground (arith, c, l, sync, h),
      ground (arith, c, sync, h),
    )

-- Where the listener and the manager agree on whether the saver is active, locking always ends with
-- the saver active and locked, and with both knowing it active.
pub gs_monitor_lock_screen_lem :
    (env : Env) (m : Monitor)
    → InSync m
    → let n = gs_monitor_lock_screen env m in
      (n.manager.active ≡ true) × (n.manager.lock_active ≡ true) × (n.listener.active ≡ true)
unfolding gs_monitor_lock_screen
gs_monitor_lock_screen_lem env m sync =
    let g = gs_manager_set_lock_active true m.manager in
    let flags = set_lock_active_lem true m.manager in
    elim (Bool-cases m.manager.active) [
      | inl a ↦
          (ground (arith, a, flags, sync), ground (arith, a, flags), ground (arith, a, flags, sync))
      | inr a ↦
          let facts =
            set_active-activates env (record m { manager = g }) (sync ∙ sym flags.0)
              (flags.0 ∙ a) in
          (
            ground (arith, a, flags, facts),
            ground (arith, a, flags, facts),
            ground (arith, a, flags, facts),
          )
    ]

set_active-InSync : (env : Env) (b : Bool) (m : Monitor) → InSync m → InSync (set_active env b m).0
set_active-InSync env b m sync =
    let l = set_active_lem env b m in
    elim (Bool-cases (set_active env b m).1) [
      | inl e ↦ ground (arith, l, e)
      | inr e ↦ ground (arith, l, e, sync)
    ]

lock_screen-InSync : (env : Env) (m : Monitor) → InSync m → InSync (gs_monitor_lock_screen env m)
lock_screen-InSync env m sync = let l = gs_monitor_lock_screen_lem env m sync in l.2 ∙ sym l.0

idle-InSync : (env : Env) (b : Bool) (m : Monitor) → InSync m → InSync (watcher_idle_cb env b m).0
unfolding watcher_idle_cb gs_listener_set_session_idle check_activation set_session_idle_internal
    set_active
idle-InSync env b m sync =
    let pretend = record m { listener = record m.listener { session_idle = b } } in
    let s = set_active-InSync env true pretend sync in ground (arith, s, sync)

-- Where they agree on it, the listener and the manager stay in step under every handler that changes or asks for the
-- active flag. If the display becomes responsive, a request to unlock on the user's activity ends,
-- leaves the lock alone, and keeps it so that all windows are locked and none has a deactivation
-- pending.
pub handlers-InSync :
    (env : Env) (b : Bool) (m : Monitor)
    → IsResponsive env
    → InSync m
    → InSync (set_active env b m).0
      × InSync (listener_lock_cb env m)
      × InSync (listener_config_lock_cb env m)
      × InSync (listener_quit_cb env m)
      × InSync (manager_deactivated_cb env m)
      × InSync (watcher_idle_cb env b m).0
      × InSync (simulate_user_activity env m)
      × ((simulate_user_activity env m).manager.lock_active ≡ m.manager.lock_active)
      × ((simulate_user_activity env m).failed ≡ m.failed)
      × (AllLocked m.manager.windows → AllLocked (simulate_user_activity env m).manager.windows)
unfolding listener_lock_cb listener_config_lock_cb listener_quit_cb manager_deactivated_cb
    simulate_user_activity
handlers-InSync env b m r sync =
    let on = set_active-InSync env b m sync in
    let off = set_active-InSync env false m sync in
    let lock = lock_screen-InSync env m sync in
    let (n, e, on_still, locked_still, _, quiet_still) =
      gs_manager_request_unlock_lem env r m.manager in
    (
      on,
      ground (arith, sync, lock),
      ground (arith, sync, lock),
      off,
      off,
      idle-InSync env b m sync,
      ground (arith, sync, e, on_still, locked_still),
      ground (arith, sync, e, on_still, locked_still),
      ground (arith, sync, e, on_still, locked_still),
      λ l. rw (simulate_user_activity, e) (quiet_still l),
    )

-- ===== src/Monitor/Policy.antt =====
-- src/gs-monitor.c: what an update from the preferences leaves in the other parts.
use budgie_screensaver.Common.{
  ◌≡◌, refl, ap, Bool, true, false, not, ◌&&◌, Option, String, arith, ℤ, ℕ, pos, none,
  if◌then◌else◌,
}
use budgie_screensaver.Prefs.{Prefs}
use budgie_screensaver.Watcher.{gs_watcher_set_active, gs_watcher_set_enabled}
use budgie_screensaver.Listener.{gs_listener_set_activation_enabled}
use budgie_screensaver.Manager.{
  Env, Manager, gs_manager_set_lock_active, activate_lock_timeout, remove_lock_timer,
  add_lock_timer, restart_lock_timer, gs_manager_set_lock_enabled, gs_manager_set_lock_timeout,
  gs_manager_set_logout_enabled, gs_manager_set_user_switch_enabled,
  gs_manager_set_keyboard_enabled, gs_manager_set_logout_timeout, gs_manager_set_logout_command,
  gs_manager_set_keyboard_command, gs_manager_set_status_message,
}
use budgie_screensaver.Monitor.{Monitor}
use budgie_screensaver.Monitor.Wiring.{
  update_manager, update_watcher, update_status, update_from_prefs,
}

-- What the theorem below follows through the manager's setters.
record Options : Type 0 where
  active : Bool
  lock_enabled : Bool
  logout_enabled : Bool
  user_switch_enabled : Bool
  keyboard_enabled : Bool
  lock_timeout : ℤ
  logout_timeout : ℤ
  logout_command : Option String
  keyboard_command : Option String

options : Manager → Options
options g = record {
  active = g.active;
  lock_enabled = g.lock_enabled;
  logout_enabled = g.logout_enabled;
  user_switch_enabled = g.user_switch_enabled;
  keyboard_enabled = g.keyboard_enabled;
  lock_timeout = g.lock_timeout;
  logout_timeout = g.logout_timeout;
  logout_command = g.logout_command;
  keyboard_command = g.keyboard_command;
}

set_lock_enabled-options :
    (b : Bool) (g : Manager)
    → options (gs_manager_set_lock_enabled b g) ≡ record (options g) { lock_enabled = b }
unfolding options gs_manager_set_lock_enabled
set_lock_enabled-options b g = ground arith

set_lock_timeout-options :
    (env : Env) (t : ℕ) (g : Manager)
    → options (gs_manager_set_lock_timeout env (pos t) g)
      ≡ record (options g) { lock_timeout = pos t }
unfolding options gs_manager_set_lock_timeout restart_lock_timer add_lock_timer remove_lock_timer
    activate_lock_timeout gs_manager_set_lock_active
set_lock_timeout-options env t g = ground arith

set_logout_enabled-options :
    (b : Bool) (g : Manager)
    → options (gs_manager_set_logout_enabled b g) ≡ record (options g) { logout_enabled = b }
unfolding options gs_manager_set_logout_enabled
set_logout_enabled-options b g = ground arith

set_user_switch_enabled-options :
    (b : Bool) (g : Manager)
    → options (gs_manager_set_user_switch_enabled b g)
      ≡ record (options g) { user_switch_enabled = b }
unfolding options gs_manager_set_user_switch_enabled
set_user_switch_enabled-options b g = ground arith

set_keyboard_enabled-options :
    (b : Bool) (g : Manager)
    → options (gs_manager_set_keyboard_enabled b g) ≡ record (options g) { keyboard_enabled = b }
unfolding options gs_manager_set_keyboard_enabled
set_keyboard_enabled-options b g = ground arith

set_logout_timeout-options :
    (t : ℕ) (g : Manager)
    → options (gs_manager_set_logout_timeout (pos t) g)
      ≡ record (options g) { logout_timeout = pos t }
unfolding options gs_manager_set_logout_timeout
set_logout_timeout-options t g = ground arith

set_logout_command-options :
    (c : Option String) (g : Manager)
    → options (gs_manager_set_logout_command c g) ≡ record (options g) { logout_command = c }
unfolding options gs_manager_set_logout_command
set_logout_command-options c g = refl

set_keyboard_command-options :
    (c : Option String) (g : Manager)
    → options (gs_manager_set_keyboard_command c g) ≡ record (options g) { keyboard_command = c }
unfolding options gs_manager_set_keyboard_command
set_keyboard_command-options c g = refl

ruleset options_laws = (
  set_lock_enabled-options, set_lock_timeout-options, set_logout_enabled-options,
  set_user_switch_enabled-options, set_keyboard_enabled-options, set_logout_timeout-options,
  set_logout_command-options, set_keyboard_command-options,
)

update_manager-options :
    (env : Env) (p : Prefs) (g : Manager)
    → options (update_manager env p g) ≡ record {
      active = (options g).active;
      lock_enabled = p.lock_enabled && not p.lock_disabled;
      logout_enabled = p.logout_enabled;
      user_switch_enabled = p.user_switch_enabled && not p.user_switch_disabled;
      keyboard_enabled = p.keyboard_enabled;
      lock_timeout = pos p.lock_timeout;
      logout_timeout = pos p.logout_timeout;
      logout_command = p.logout_command;
      keyboard_command = p.keyboard_command;
    }
unfolding update_manager
update_manager-options env p g = simp options_laws

update_manager_lem :
    (env : Env) (p : Prefs) (g : Manager)
    → let h = update_manager env p g in
      (h.active ≡ g.active)
      × (h.lock_enabled ≡ (p.lock_enabled && not p.lock_disabled))
      × (h.logout_enabled ≡ p.logout_enabled)
      × (h.user_switch_enabled ≡ (p.user_switch_enabled && not p.user_switch_disabled))
      × (h.keyboard_enabled ≡ p.keyboard_enabled)
      × (h.lock_timeout ≡ pos p.lock_timeout)
      × (h.logout_timeout ≡ pos p.logout_timeout)
      × (h.logout_command ≡ p.logout_command)
      × (h.keyboard_command ≡ p.keyboard_command)
unfolding options
update_manager_lem env p g =
    let e = update_manager-options env p g in
    (
      ap (λ o. o.active) e,
      ap (λ o. o.lock_enabled) e,
      ap (λ o. o.logout_enabled) e,
      ap (λ o. o.user_switch_enabled) e,
      ap (λ o. o.keyboard_enabled) e,
      ap (λ o. o.lock_timeout) e,
      ap (λ o. o.logout_timeout) e,
      ap (λ o. o.logout_command) e,
      ap (λ o. o.keyboard_command) e,
    )

-- Whatever was set before, an update from the preferences has the manager lock only if that is
-- enabled and not disabled by the administrator, and likewise offer to switch users; it passes on
-- the options to log out and for a keyboard, both timeouts, both commands, and idle activation; the
-- status message is the watcher's where it is enabled, and none otherwise; idle detection is
-- enabled, and on unless the saver is active; and the saver is not activated or deactivated.
pub update_from_prefs_lem :
    (env : Env) (m : Monitor)
    → let n = update_from_prefs env m in
      (n.manager.lock_enabled ≡ (m.prefs.lock_enabled && not m.prefs.lock_disabled))
      × (n.manager.user_switch_enabled
          ≡ (m.prefs.user_switch_enabled && not m.prefs.user_switch_disabled))
      × (n.manager.logout_enabled ≡ m.prefs.logout_enabled)
      × (n.manager.keyboard_enabled ≡ m.prefs.keyboard_enabled)
      × (n.manager.lock_timeout ≡ pos m.prefs.lock_timeout)
      × (n.manager.logout_timeout ≡ pos m.prefs.logout_timeout)
      × (n.manager.logout_command ≡ m.prefs.logout_command)
      × (n.manager.keyboard_command ≡ m.prefs.keyboard_command)
      × (n.manager.status_message
          ≡ (if m.prefs.status_message_enabled then m.watcher.status_message else none))
      × (n.listener.activation_enabled ≡ m.prefs.idle_activation_enabled)
      × (n.watcher.enabled ≡ true)
      × (m.manager.active ≡ false → n.watcher.active ≡ true)
      × (n.manager.active ≡ m.manager.active)
unfolding update_from_prefs update_watcher update_status gs_manager_set_status_message
    gs_listener_set_activation_enabled gs_watcher_set_enabled gs_watcher_set_active
update_from_prefs_lem env m =
    let f = update_manager_lem env m.prefs m.manager in
    (
      ground (arith, f),
      ground (arith, f),
      ground (arith, f),
      ground (arith, f),
      ground (arith, f),
      ground (arith, f),
      ground (arith, f),
      ground (arith, f),
      ground (arith, f),
      ground (arith, f),
      ground (arith, f),
      ground (arith, f),
      ground (arith, f),
    )

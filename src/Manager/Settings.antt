-- ===== src/Manager/Settings.antt =====
-- src/gs-manager.c: the setters and the lock's timer, and the settings of the windows.
use budgie_screensaver.Common.{
  ◌≡◌, refl, ◌∙◌, ap, Bool, true, false, List, [], ◌∷◌, map, arith, All, if◌then◌else◌, ◌==◌, ◌&&◌,
  not, same, ℤ, pos, negsuc, leb_ℤ, same_ℤ, Option, String,
}
use budgie_screensaver.Window.{
  Window, clamp_timeout, set_lock_enabled, set_keyboard_enabled, set_keyboard_command,
  set_logout_enabled, set_user_switch_enabled, set_logout_timeout, set_logout_command,
  set_status_message,
}
use budgie_screensaver.Manager.{
  Env, Manager, gs_manager_set_lock_active, activate_lock_timeout, remove_lock_timer,
  add_lock_timer, restart_lock_timer, elapsed, gs_manager_set_lock_timeout,
  gs_manager_set_logout_enabled, gs_manager_set_keyboard_enabled,
  gs_manager_set_user_switch_enabled, gs_manager_set_logout_timeout, gs_manager_set_logout_command,
  gs_manager_set_keyboard_command, gs_manager_set_status_message,
}
use budgie_screensaver.Manager.Policy.{Policy, held, Holds, wanted, IsConfigured}

pub if-IsConfigured :
    (c : Bool) (m n : Manager) → IsConfigured m → IsConfigured n → IsConfigured (if c then m else n)
if-IsConfigured true m n u v = u
if-IsConfigured false m n u v = v

-- A setter on each window, and the same change of the policy.
map-Holds :
    (f : Window → Window) (g : Policy → Policy) (p : Policy)
    → ((w : Window) → held (f w) ≡ g (held w))
    → (ws : List Window) → All (Holds p) ws
    → All (Holds (g p)) (map f ws)
map-Holds f g p h [] a = tt
map-Holds f g p h (w ∷ ws) a = (h w ∙ ap g a.0, map-Holds f g p h ws a.1)

pub set_lock_active-IsConfigured :
    (b : Bool) (m : Manager) → IsConfigured m → IsConfigured (gs_manager_set_lock_active b m)
unfolding gs_manager_set_lock_active set_lock_enabled
set_lock_active-IsConfigured b m u = if-IsConfigured (same m.lock_active b) m _ u (
    map-Holds (set_lock_enabled b) (λ p. record p { lock_enabled = b }) (wanted m)
      (λ w. ground arith) m.windows u)

pub set_logout_enabled-IsConfigured :
    (b : Bool) (m : Manager) → IsConfigured m → IsConfigured (gs_manager_set_logout_enabled b m)
unfolding gs_manager_set_logout_enabled set_logout_enabled
set_logout_enabled-IsConfigured b m u = if-IsConfigured (same m.logout_enabled b) m _ u (
    map-Holds (set_logout_enabled b) (λ p. record p { logout_enabled = b }) (wanted m) (λ w. refl)
      m.windows u)

pub set_keyboard_enabled-IsConfigured :
    (b : Bool) (m : Manager) → IsConfigured m → IsConfigured (gs_manager_set_keyboard_enabled b m)
unfolding gs_manager_set_keyboard_enabled set_keyboard_enabled
set_keyboard_enabled-IsConfigured b m u = if-IsConfigured (same m.keyboard_enabled b) m _ u (
    map-Holds (set_keyboard_enabled b) (λ p. record p { keyboard_enabled = b }) (wanted m)
      (λ w. refl) m.windows u)

pub set_user_switch_enabled-IsConfigured :
    (b : Bool) (m : Manager)
    → IsConfigured m
    → IsConfigured (gs_manager_set_user_switch_enabled b m)
unfolding gs_manager_set_user_switch_enabled set_user_switch_enabled
set_user_switch_enabled-IsConfigured b m u = if-IsConfigured (same m.user_switch_enabled b) m _ u (
    map-Holds (set_user_switch_enabled b) (λ p. record p { user_switch_enabled = b }) (wanted m)
      (λ w. refl) m.windows u)

pub set_logout_timeout-IsConfigured :
    (t : ℤ) (m : Manager) → IsConfigured m → IsConfigured (gs_manager_set_logout_timeout t m)
unfolding gs_manager_set_logout_timeout set_logout_timeout
set_logout_timeout-IsConfigured t m u = if-IsConfigured (same_ℤ m.logout_timeout t) m _ u (
    map-Holds (set_logout_timeout t) (λ p. record p { logout_timeout = clamp_timeout t }) (wanted m)
      (λ w. refl) m.windows u)

pub set_logout_command-IsConfigured :
    (c : Option String) (m : Manager)
    → IsConfigured m
    → IsConfigured (gs_manager_set_logout_command c m)
unfolding gs_manager_set_logout_command set_logout_command
set_logout_command-IsConfigured c m u =
    map-Holds (set_logout_command c) (λ p. record p { logout_command = c }) (wanted m) (λ w. refl)
      m.windows u

pub set_keyboard_command-IsConfigured :
    (c : Option String) (m : Manager)
    → IsConfigured m
    → IsConfigured (gs_manager_set_keyboard_command c m)
unfolding gs_manager_set_keyboard_command set_keyboard_command
set_keyboard_command-IsConfigured c m u =
    map-Holds (set_keyboard_command c) (λ p. record p { keyboard_command = c }) (wanted m)
      (λ w. refl) m.windows u

pub set_status_message-IsConfigured :
    (c : Option String) (m : Manager)
    → IsConfigured m
    → IsConfigured (gs_manager_set_status_message c m)
unfolding gs_manager_set_status_message set_status_message
set_status_message-IsConfigured c m u =
    map-Holds (set_status_message c) (λ p. record p { status_message = c }) (wanted m) (λ w. refl)
      m.windows u

pub activate_lock_timeout-IsConfigured :
    (m : Manager) → IsConfigured m → IsConfigured (activate_lock_timeout m)
unfolding activate_lock_timeout
activate_lock_timeout-IsConfigured m u =
    if-IsConfigured m.lock_enabled _ m (set_lock_active-IsConfigured true m u) u

remove_lock_timer-IsConfigured : (m : Manager) → IsConfigured m → IsConfigured (remove_lock_timer m)
unfolding remove_lock_timer
remove_lock_timer-IsConfigured m u = if-IsConfigured (m.lock_timeout_id == 0) _ _ u u

restart_lock_timer-IsConfigured :
    (env : Env) (t : ℤ) (m : Manager) → IsConfigured m → IsConfigured (restart_lock_timer env t m)
unfolding restart_lock_timer add_lock_timer
restart_lock_timer-IsConfigured env (negsuc n) m u = u
restart_lock_timer-IsConfigured env (pos t) m u =
    let removed = remove_lock_timer-IsConfigured m u in
    if-IsConfigured (leb_ℤ t (elapsed env (remove_lock_timer m))) _ _
      (activate_lock_timeout-IsConfigured (remove_lock_timer m) removed) removed

pub set_lock_timeout-IsConfigured :
    (env : Env) (t : ℤ) (m : Manager)
    → IsConfigured m
    → IsConfigured (gs_manager_set_lock_timeout env t m)
unfolding gs_manager_set_lock_timeout
set_lock_timeout-IsConfigured env t m u = if-IsConfigured (same_ℤ m.lock_timeout t) m _ u (
    if-IsConfigured (m.active && not m.lock_active) _ _
      (restart_lock_timer-IsConfigured env t (record m { lock_timeout = t }) u) u)

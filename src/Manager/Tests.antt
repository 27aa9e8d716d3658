-- ===== src/Manager/Tests.antt =====
-- src/gs-manager.c: the theorems at a concrete manager.
use budgie_screensaver.Common.{
  suc, ◌+◌, ◌-◌, ◌*◌, ◌≤◌, ◌<◌, ◌≡◌, refl, true, false, none, some, List, [], ◌∷◌, ltb, length,
  arith, pos, add_timeout, remove,
}
use budgie_screensaver.Grab.{success}
use budgie_screensaver.Fade.{gamma_ramp}
use budgie_screensaver.Manager.{Env, Manager, remove_lock_timer, gs_manager_set_lock_timeout}
use budgie_screensaver.Manager.Active.{gs_manager_set_active}
use budgie_screensaver.Manager.LockTimer.{gs_manager_set_lock_timeout_lem}
use budgie_screensaver.Manager.Policy.{IsConfigured}
use budgie_screensaver.Manager.Operations.{
  Operation, set_logout, set_active, set_lock, change_monitors, operate_all,
}
use budgie_screensaver.Manager.Configured.{operate_all-IsConfigured}
use budgie_screensaver.Window.Tests.{locked}
use budgie_screensaver.Manager.Dialog.{gs_manager_request_unlock}
use budgie_screensaver.Manager.Locked.{AllLocked}
use budgie_screensaver.Manager.Windows.{on_screen_monitors_changed}
use budgie_screensaver.Manager.Monitors.{on_screen_monitors_changed_lem}
use budgie_screensaver.Manager.Total.{IsResponsive}
use budgie_screensaver.Manager.Deactivation.{
  gs_manager_set_active-false, gs_manager_request_unlock_lem,
}
use budgie_screensaver.Manager.Activation.{gs_manager_set_active-true}

abbrev pub env : Env
env = record {
  display = record { answer = λ n. success; is_grabbed = λ n. true };
  doubles = record {
    sub = λ a b. a - b;
    less = λ a b. ltb a b;
    one = 100;
    hundredth = 1;
    reciprocal = λ n. 50;
    steps = λ timeout. 2;
  };
  backend = record { fade_setup = λ n. true; fade_set_alpha_gamma = λ n a. true };
  fuel = 2;
  now = 110;
  n_monitors = 2;
  pointer_monitor = 0;
  root_window = 1;
  source_id = λ n. suc n;
  window_id = λ n. suc n;
  gdk_window = λ n. n + 10;
}

abbrev pub asleep : Manager
asleep = record {
  windows = [];
  lock_timeout = pos 60000;
  logout_timeout = pos 0;
  lock_enabled = true;
  logout_enabled = false;
  keyboard_enabled = false;
  user_switch_enabled = false;
  logout_command = none;
  keyboard_command = none;
  status_message = none;
  active = false;
  lock_active = false;
  fading = false;
  dialog_up = false;
  activate_time = 0;
  lock_timeout_id = 0;
  grab = record {
    seat = false;
    seat_hide_cursor = false;
    seat_grab_window = none;
    invisible = 90;
    requests = 0;
    calls = [];
  };
  fade = record {
    enabled = true;
    active = false;
    timeout = 0;
    step = 0;
    timer_id = 0;
    alpha_per_iter = 0;
    current_alpha = 100;
    fade_type = gamma_ramp;
    gamma_calls = 0;
    released = false;
    pending = [];
    called = [];
    calls = [];
  };
  unfade_idle_id = 0;
  created = 0;
  adds = 0;
  signals = [];
  calls = [];
}

-- Active since ten seconds, with a lock timer.
abbrev pub awake : Manager
awake = record asleep { active = true; activate_time = 100; lock_timeout_id = 20; adds = 20 }

gs_manager_set_active-true_example :
    (m : Manager) × (gs_manager_set_active env true asleep ≡ some (m, true))
    × (m.active ≡ true)
    × (length m.windows ≡ 2)
    × (m.lock_active ≡ false)
gs_manager_set_active-true_example = (gs_manager_set_active-true env asleep).1 refl

pub env-IsResponsive : IsResponsive env
env-IsResponsive = record { granting = 0; grants = λ n h. refl; enough = omega arith }

gs_manager_set_active-false_example :
    (n : Manager) × (gs_manager_set_active env false awake ≡ some (n, true))
    × (n.windows ≡ [])
    × (n.active ≡ false)
    × (n.lock_active ≡ false)
    × (n.dialog_up ≡ false)
    × (n.lock_timeout_id ≡ 0)
    × (n.unfade_idle_id ≡ 0)
    × (n.fade.active ≡ false)
gs_manager_set_active-false_example =
    (gs_manager_set_active-false env env-IsResponsive awake).1 refl

abbrev shown : Manager
shown = record awake { windows = locked ∷ []; lock_active = true }

gs_manager_request_unlock_example :
    (n : Manager) × (gs_manager_request_unlock env shown ≡ some (n, true))
    × (n.active ≡ true)
    × (n.lock_active ≡ true)
    × (n.lock_enabled ≡ true)
    × (AllLocked (locked ∷ []) → AllLocked n.windows)
gs_manager_request_unlock_example = gs_manager_request_unlock_lem env env-IsResponsive shown

on_screen_monitors_changed_example :
    (n : Manager) × (on_screen_monitors_changed env shown ≡ some n)
    × (n.active ≡ true)
    × (n.lock_active ≡ true)
    × (true ≡ true → AllLocked (locked ∷ []) → AllLocked n.windows)
on_screen_monitors_changed_example = on_screen_monitors_changed_lem env env-IsResponsive shown

gs_manager_set_lock_timeout_example :
    let m = gs_manager_set_lock_timeout env (pos 30000) awake in
    (100 * 1000 + 30000 ≤ 110 * 1000 → (m.lock_timeout_id ≡ 0) × (m.lock_active ≡ true))
    × (110 * 1000 < 100 * 1000 + 30000
        → (m.lock_active ≡ false)
          × (m.lock_timeout_id ≡ 21)
          × (m.calls ≡ add_timeout 20000 21 ∷ remove 20 ∷ []))
unfolding remove_lock_timer
gs_manager_set_lock_timeout_example =
    gs_manager_set_lock_timeout_lem env 30000 awake refl refl refl (omega arith) (omega arith)

third-IsResponsive : IsResponsive (record env { n_monitors = 3 })
third-IsResponsive = record { granting = 0; grants = λ n h. refl; enough = omega arith }

-- Windows for two monitors, locked, and a third monitor.
abbrev session : List (Env × Operation)
session =
    (env, set_active true)
    ∷ (env, set_logout true)
    ∷ (env, set_lock true)
    ∷ (record env { n_monitors = 3 }, change_monitors)
    ∷ []

operate_all-IsConfigured_example :
    (n : Manager) × (operate_all session asleep ≡ some n) × IsConfigured n
operate_all-IsConfigured_example =
    operate_all-IsConfigured session asleep
      (env-IsResponsive, (env-IsResponsive, (env-IsResponsive, (third-IsResponsive, tt)))) tt

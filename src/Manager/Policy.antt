-- ===== src/Manager/Policy.antt =====
-- src/gs-manager.c, src/gs-window-x11.c: the manager's settings, and what a window has of them.
use budgie_screensaver.Common.{ℕ, ◌≡◌, Bool, Option, String, arith, All}
use budgie_screensaver.Window.{
  Window, clamp_timeout, gs_window_cancel_unlock_request, gs_window_request_unlock,
}
use budgie_screensaver.Manager.{Manager}
use budgie_screensaver.Manager.Stable.{IsStable}

pub record Policy : Type 0 where
  pub lock_enabled : Bool
  pub logout_enabled : Bool
  pub keyboard_enabled : Bool
  pub user_switch_enabled : Bool
  pub logout_timeout : ℕ
  pub logout_command : Option String
  pub keyboard_command : Option String
  pub status_message : Option String

-- What the manager's windows are to have.
abbrev pub wanted : Manager → Policy
wanted m = record {
  lock_enabled = m.lock_active;
  logout_enabled = m.logout_enabled;
  keyboard_enabled = m.keyboard_enabled;
  user_switch_enabled = m.user_switch_enabled;
  logout_timeout = clamp_timeout m.logout_timeout;
  logout_command = m.logout_command;
  keyboard_command = m.keyboard_command;
  status_message = m.status_message;
}

abbrev pub held : Window → Policy
held w = record {
  lock_enabled = w.lock_enabled;
  logout_enabled = w.logout_enabled;
  keyboard_enabled = w.keyboard_enabled;
  user_switch_enabled = w.user_switch_enabled;
  logout_timeout = w.logout_timeout;
  logout_command = w.logout_command;
  keyboard_command = w.keyboard_command;
  status_message = w.status_message;
}

abbrev pub Holds : Policy → Window → Type 0
Holds p w = held w ≡ p

-- Every window has the manager's settings.
abbrev pub IsConfigured : Manager → Type 0
IsConfigured m = All (Holds (wanted m)) m.windows

pub Holds-IsStable : (p : Policy) → IsStable (Holds p)
unfolding gs_window_cancel_unlock_request gs_window_request_unlock
Holds-IsStable p = record {
  sensitive = λ b w h. h;
  visible = λ w h. h;
  cancel = λ w h. ground arith;
  request = λ id w h. ground arith;
}

-- ===== src/Manager/Operations.antt =====
-- src/gs-manager.c: the operations on the manager, one after the other, each with what the display
-- and the clock say at that time.
use budgie_screensaver.Common.{ℤ, Bool, Option, none, some, String, List, [], ◌∷◌}
use budgie_screensaver.Manager.{
  Env, Manager, activate_lock_timeout, gs_manager_set_lock_active, gs_manager_set_lock_timeout,
  gs_manager_set_logout_enabled, gs_manager_set_keyboard_enabled,
  gs_manager_set_user_switch_enabled, gs_manager_set_logout_timeout, gs_manager_set_logout_command,
  gs_manager_set_keyboard_command, gs_manager_set_status_message,
}
use budgie_screensaver.Manager.Dialog.{
  ◌>>=◌, gs_manager_request_unlock, gs_manager_cancel_unlock_request,
}
use budgie_screensaver.Manager.Windows.{on_screen_monitors_changed}
use budgie_screensaver.Manager.Active.{gs_manager_set_active}

pub data Operation : Type 0 where
  lock_timed_out request_unlock cancel_request change_monitors : Operation
  set_active set_lock set_logout set_keyboard set_user_switch : Bool → Operation
  set_lock_time set_logout_time : ℤ → Operation
  set_logout_program set_keyboard_program set_status : Option String → Operation

abbrev pub operate : Env → Operation → Manager → Option Manager
operate env lock_timed_out m = some (activate_lock_timeout m)
operate env request_unlock m = gs_manager_request_unlock env m >>= λ r. some r.0
operate env cancel_request m = gs_manager_cancel_unlock_request env m
operate env change_monitors m = on_screen_monitors_changed env m
operate env (set_active b) m = gs_manager_set_active env b m >>= λ r. some r.0
operate env (set_lock b) m = some (gs_manager_set_lock_active b m)
operate env (set_logout b) m = some (gs_manager_set_logout_enabled b m)
operate env (set_keyboard b) m = some (gs_manager_set_keyboard_enabled b m)
operate env (set_user_switch b) m = some (gs_manager_set_user_switch_enabled b m)
operate env (set_lock_time t) m = some (gs_manager_set_lock_timeout env t m)
operate env (set_logout_time t) m = some (gs_manager_set_logout_timeout t m)
operate env (set_logout_program c) m = some (gs_manager_set_logout_command c m)
operate env (set_keyboard_program c) m = some (gs_manager_set_keyboard_command c m)
operate env (set_status c) m = some (gs_manager_set_status_message c m)

abbrev pub operate_all : List (Env × Operation) → Manager → Option Manager
operate_all [] m = some m
operate_all ((env, o) ∷ os) m = elim (operate env o m) [ none ↦ none | some m' ↦ operate_all os m' ]

-- ===== src/Manager/Active.antt =====
-- src/gs-manager.c: activation and deactivation.
use budgie_screensaver.Common.{Bool, true, false, not, Option, some, List, [], ◌∷◌, if◌then◌else◌}
use budgie_screensaver.Grab.{gs_grab_grab_root, gs_grab_release}
use budgie_screensaver.Fade.{gs_fade_reset}
use budgie_screensaver.Window.{Window}
use budgie_screensaver.Manager.{Env, Manager, remove_lock_timer}
use budgie_screensaver.Manager.Dialog.{◌>>=◌}
use budgie_screensaver.Manager.Windows.{
  gs_manager_create_windows, gs_manager_destroy_windows, show_windows, remove_unfade_idle,
}

abbrev pub is_empty : List Window → Bool
is_empty [] = true
is_empty (w ∷ ws) = false

module _ (env : Env) where
  -- do_fade is FALSE, so that the windows are shown at once.
  unfoldable pub gs_manager_activate : Manager → Manager × Bool
  gs_manager_activate m =
      if m.active
      then (m, false)
      else let (grab, res) = gs_grab_grab_root env.display env.root_window false m.grab in
        let m = record m { grab = grab } in
        if not res
        then (m, false)
        else let m = if is_empty m.windows then gs_manager_create_windows env m else m in
          let m = record m { active = true } in (show_windows env m.windows m, true)

  -- The timers, the fade and the grab, before the windows are destroyed.
  unfoldable pub wind_down : Manager → Manager
  wind_down m =
      let m = remove_unfade_idle env m in
      let m = record m { fade = gs_fade_reset env.doubles env.backend m.fade } in
      let m = remove_lock_timer m in record m { grab = gs_grab_release m.grab }

  unfoldable pub gs_manager_deactivate : Manager → Option (Manager × Bool)
  gs_manager_deactivate m =
      if not m.active
      then some (m, false)
      else (gs_manager_destroy_windows env (wind_down m) >>= λ m. some (
        record m {
          active = false;
          activate_time = 0;
          lock_active = false;
          dialog_up = false;
          fading = false;
        },
        true,
      ))

  unfoldable pub gs_manager_set_active : Bool → Manager → Option (Manager × Bool)
  gs_manager_set_active active m =
      if active then some (gs_manager_activate m) else gs_manager_deactivate m

-- ===== src/Manager/Configured.antt =====
-- src/gs-manager.c: the settings of the windows, under every operation on the manager.
use budgie_screensaver.Common.{
  ℕ, zero, ◌≡◌, refl, ◌∙◌, sym, true, false, Bool, Option, some, List, [], ◌∷◌, All, Bool-cases,
  inl, inr,
}
use budgie_screensaver.Window.{Window}
use budgie_screensaver.Grab.{gs_grab_grab_root}
use budgie_screensaver.Manager.{Env, Manager}
use budgie_screensaver.Manager.Policy.{Policy, wanted, Holds, Holds-IsStable, IsConfigured}
use budgie_screensaver.Manager.Total.{IsResponsive}
use budgie_screensaver.Manager.Dialog.{ids, gs_manager_cancel_unlock_request}
use budgie_screensaver.Manager.Windows.{
  configured, show_window, show_windows, gs_manager_create_windows,
}
use budgie_screensaver.Manager.Active.{is_empty, gs_manager_set_active, gs_manager_activate}
use budgie_screensaver.Manager.Monitors.{
  Guarded, configured-Holds, show_window-Guarded, create_windows_from-Guarded,
  cancel_windows-EndsGuarded, request_unlock-EndsGuarded, monitors_changed-EndsGuarded,
}
use budgie_screensaver.Manager.Deactivation.{gs_manager_set_active-false}
use budgie_screensaver.Manager.Activation.{activate-inactive, prepared}
use budgie_screensaver.Manager.Settings.{
  if-IsConfigured, set_lock_active-IsConfigured, set_logout_enabled-IsConfigured,
  set_keyboard_enabled-IsConfigured, set_user_switch_enabled-IsConfigured,
  set_logout_timeout-IsConfigured, set_logout_command-IsConfigured,
  set_keyboard_command-IsConfigured, set_status_message-IsConfigured,
  activate_lock_timeout-IsConfigured, set_lock_timeout-IsConfigured,
}
use budgie_screensaver.Manager.Operations.{
  Operation, lock_timed_out, request_unlock, cancel_request, change_monitors, set_active, set_lock,
  set_logout, set_keyboard, set_user_switch, set_lock_time, set_logout_time, set_logout_program,
  set_keyboard_program, set_status, operate, operate_all,
}
use std.Path.{subst}

-- The settings bind all new windows, under no condition.
abbrev Always : Type 0
Always = Unit

new-Holds :
    (env : Env) (p : Policy) (c : Always)
    → (i : ℕ) (m : Manager) → wanted m ≡ p
    → Holds p (configured env i m)
new-Holds env p c i m e = configured-Holds env i m ∙ e

-- The windows of `m` are guarded with its own policy.
abbrev GuardedOwn : Env → (m n : Manager) → Type 0
GuardedOwn env m n =
    Guarded env (Holds (wanted m)) (Holds-IsStable (wanted m)) Always (wanted m)
      (new-Holds env (wanted m)) m n

guarded-IsConfigured :
    (env : Env) (m n : Manager) → GuardedOwn env m n → IsConfigured m → IsConfigured n
guarded-IsConfigured env m n (keeps, all) u =
    subst (λ p. All (Holds p) n.windows) (sym keeps.1) (all refl tt u)

show_windows-Holds :
    (env : Env) (p : Policy) (ws : List Window) (m : Manager)
    → wanted m ≡ p
    → All (Holds p) ws
    → All (Holds p) m.windows
    → (wanted (show_windows env ws m) ≡ p) × All (Holds p) (show_windows env ws m).windows
unfolding show_windows
show_windows-Holds env p [] m e a u = (e, u)
show_windows-Holds env p (w ∷ ws) m e a u =
    let (keeps, all) =
      show_window-Guarded env (Holds p) (Holds-IsStable p) Always p (new-Holds env p) w m
        (λ d c b. a.0) in
    show_windows-Holds env p ws (show_window env w m) (keeps.1 ∙ e) a.1 (all e tt u)

prepared-IsConfigured : (env : Env) (m : Manager) → IsConfigured m → IsConfigured (prepared env m)
unfolding gs_manager_create_windows
prepared-IsConfigured env m u =
    let grabbed = record m {
      grab = (gs_grab_grab_root env.display env.root_window false m.grab).0;
    } in
    if-IsConfigured (is_empty m.windows) (gs_manager_create_windows env grabbed) grabbed
      (guarded-IsConfigured env grabbed (gs_manager_create_windows env grabbed)
        (create_windows_from-Guarded env (Holds (wanted m)) (Holds-IsStable (wanted m)) Always
          (wanted m) (new-Holds env (wanted m)) zero env.n_monitors grabbed)
        u)
      u

activate-IsConfigured :
    (env : Env) (m : Manager) → IsConfigured m → IsConfigured (gs_manager_activate env m).0
unfolding gs_manager_activate
activate-IsConfigured env m u = elim (Bool-cases m.active) [
  | inl e ↦ rw e u
  | inr e ↦
      let n = prepared env m in
      let v = prepared-IsConfigured env m u in
      let (keeps, all) = show_windows-Holds env (wanted n) n.windows n refl v v in
      rw (activate-inactive env m e)
        (subst (λ p. All (Holds p) (show_windows env n.windows n).windows) (sym keeps) all)
]

-- An operation that ends, with all windows configured.
abbrev EndsConfigured : Option Manager → Type 0
EndsConfigured o = (n : Manager) × (o ≡ some n) × IsConfigured n

module _ (env : Env) (r : IsResponsive env) (m : Manager) (u : IsConfigured m) where
  set_active-EndsConfigured : (b : Bool) → EndsConfigured (operate env (set_active b) m)
  unfolding gs_manager_set_active
  set_active-EndsConfigured true = (_, refl, activate-IsConfigured env m u)
  set_active-EndsConfigured false =
      let (left, done) = gs_manager_set_active-false env r m in
      elim (Bool-cases m.active) [
        | inr e ↦ (m, rw (left e), u)
        | inl e ↦ let d = done e in (d.0, rw d.1, rw d.2 tt)
      ]

  operate-EndsConfigured : (o : Operation) → EndsConfigured (operate env o m)
  unfolding gs_manager_cancel_unlock_request
  operate-EndsConfigured lock_timed_out = (_, refl, activate_lock_timeout-IsConfigured m u)
  operate-EndsConfigured request_unlock =
      let (n, b, e, g) =
        request_unlock-EndsGuarded env (Holds (wanted m)) (Holds-IsStable (wanted m)) Always
          (wanted m) (new-Holds env (wanted m)) r m in
      (n, rw e, guarded-IsConfigured env m n g u)
  operate-EndsConfigured cancel_request =
      let (n, e, g) =
        cancel_windows-EndsGuarded env (Holds (wanted m)) (Holds-IsStable (wanted m)) Always
          (wanted m) (new-Holds env (wanted m)) r (ids m.windows) m in
      (n, e, guarded-IsConfigured env m n g u)
  operate-EndsConfigured change_monitors =
      let (n, e, g) =
        monitors_changed-EndsGuarded env (Holds (wanted m)) (Holds-IsStable (wanted m)) Always
          (wanted m) (new-Holds env (wanted m)) r m in
      (n, e, guarded-IsConfigured env m n g u)
  operate-EndsConfigured (set_active b) = set_active-EndsConfigured b
  operate-EndsConfigured (set_lock b) = (_, refl, set_lock_active-IsConfigured b m u)
  operate-EndsConfigured (set_logout b) = (_, refl, set_logout_enabled-IsConfigured b m u)
  operate-EndsConfigured (set_keyboard b) = (_, refl, set_keyboard_enabled-IsConfigured b m u)
  operate-EndsConfigured (set_user_switch b) = (_, refl, set_user_switch_enabled-IsConfigured b m u)
  operate-EndsConfigured (set_lock_time t) = (_, refl, set_lock_timeout-IsConfigured env t m u)
  operate-EndsConfigured (set_logout_time t) = (_, refl, set_logout_timeout-IsConfigured t m u)
  operate-EndsConfigured (set_logout_program c) = (_, refl, set_logout_command-IsConfigured c m u)
  operate-EndsConfigured (set_keyboard_program c) =
      (_, refl, set_keyboard_command-IsConfigured c m u)
  operate-EndsConfigured (set_status c) = (_, refl, set_status_message-IsConfigured c m u)

-- From a manager whose windows all have its settings, the lock included, any sequence of its
-- operations ends, each at a display that becomes responsive, and all windows have the manager's
-- settings then: those that were there, and those that were created on the way.
pub operate_all-IsConfigured :
    (os : List (Env × Operation)) (m : Manager)
    → All (λ x. IsResponsive x.0) os
    → IsConfigured m
    → (n : Manager) × (operate_all os m ≡ some n) × IsConfigured n
operate_all-IsConfigured [] m r u = (m, refl, u)
operate_all-IsConfigured ((env, o) ∷ os) m r u =
    let (n, e, v) = operate-EndsConfigured env r.0 m u o in
    let (l, f, w) = operate_all-IsConfigured os n r.1 v in (l, rw (operate_all, e, f), w)

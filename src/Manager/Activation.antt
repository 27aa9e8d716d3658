-- ===== src/Manager/Activation.antt =====
-- src/gs-manager.c: what activation leaves behind.
use budgie_screensaver.Common.{
  ℕ, zero, suc, ◌+◌, ◌≡◌, refl, ap, ◌∙◌, Bool, true, false, List, [], ◌∷◌, ◌++◌, arith, ◌==◌,
  length, length-append, if◌then◌else◌, some,
}
use budgie_screensaver.Window.{Window}
use budgie_screensaver.Grab.{Grab, gs_grab_grab_root, gs_grab_grab_window}
use budgie_screensaver.Manager.{Env, Manager, add_lock_timer, remove_lock_timer}
use budgie_screensaver.Manager.Dialog.{replace}
use budgie_screensaver.Manager.Windows.{
  gs_manager_create_windows, create_windows_from, gs_manager_create_window_for_monitor, configured,
  show_window, show_windows, manager_show_window, start_lock_timer, add_unfade_idle,
  remove_unfade_idle,
}
use budgie_screensaver.Manager.Active.{is_empty, gs_manager_activate, gs_manager_set_active}

length-replace : (v : Window) (ws : List Window) → length (replace v ws) ≡ length ws
length-replace v [] = refl
length-replace v (w ∷ ws) = ap suc (length-replace v ws)

-- As many windows, as active, and as locked.
abbrev Similar : Manager → Manager → Type 0
Similar m n =
    (length n.windows ≡ length m.windows) × (n.active ≡ m.active) × (n.lock_active ≡ m.lock_active)

show_window-Similar : (env : Env) (w : Window) (m : Manager) → Similar m (show_window env w m)
unfolding show_window manager_show_window start_lock_timer add_unfade_idle remove_unfade_idle
    add_lock_timer remove_lock_timer
show_window-Similar env w m =
    let same_length = length-replace (record w { visible = true }) m.windows in
    (ground arith, ground arith, ground arith)

show_windows-Similar :
    (env : Env) (ws : List Window) (m : Manager) → Similar m (show_windows env ws m)
unfolding show_windows
show_windows-Similar env [] m = (refl, refl, refl)
show_windows-Similar env (w ∷ ws) m =
    let s = show_window-Similar env w m in
    let t = show_windows-Similar env ws (show_window env w m) in (t.0 ∙ s.0, t.1 ∙ s.1, t.2 ∙ s.2)

create_window_lem :
    (env : Env) (i : ℕ) (m : Manager)
    → let n = gs_manager_create_window_for_monitor env i m in
      (length n.windows ≡ suc (length m.windows)) × (n.lock_active ≡ m.lock_active)
unfolding gs_manager_create_window_for_monitor
create_window_lem env i m =
    let w = configured env i m in
    let m' = record m { windows = m.windows ++ w ∷ []; created = suc m.created } in
    let shown = show_window-Similar env w m' in
    let appended = length-append m.windows (w ∷ []) in (ground arith, ground arith)

create_windows_from_lem :
    (env : Env) (i n : ℕ) (m : Manager)
    → let m' = create_windows_from env i n m in
      (length m'.windows ≡ n + length m.windows) × (m'.lock_active ≡ m.lock_active)
unfolding create_windows_from
create_windows_from_lem env i zero m = (omega arith, refl)
create_windows_from_lem env i (suc n) m =
    let one = create_window_lem env i m in
    let rest =
      create_windows_from_lem env (suc i) n (gs_manager_create_window_for_monitor env i m) in
    (omega (arith, rest, one), rest.1 ∙ one.1)

grab_root-succeeds :
    (env : Env) (hide_cursor : Bool) (g : Grab)
    → (gs_grab_grab_root env.display env.root_window hide_cursor g).1 ≡ true
unfolding gs_grab_grab_root gs_grab_grab_window
grab_root-succeeds env hide_cursor g = ground arith

created_lem :
    (env : Env) (m : Manager) (ws : List Window)
    → m.windows ≡ ws
    → let n = (if is_empty ws then gs_manager_create_windows env m else m) in
      (length n.windows ≡ (if length ws == 0 then env.n_monitors else length ws))
      × (n.lock_active ≡ m.lock_active)
unfolding gs_manager_create_windows
created_lem env m [] e =
    let created = create_windows_from_lem env 0 env.n_monitors m in
    let none_yet = ap length e in (omega (arith, created, none_yet), created.1)
created_lem env m (w ∷ ws) e = let kept = ap length e in (ground arith, refl)

-- The manager with the root window grabbed and its windows created, before they are shown.
abbrev pub prepared : Env → Manager → Manager
prepared env m =
    let m = record m { grab = (gs_grab_grab_root env.display env.root_window false m.grab).0 } in
    record (if is_empty m.windows then gs_manager_create_windows env m else m) { active = true }

pub activate-inactive :
    (env : Env) (m : Manager)
    → m.active ≡ false
    → gs_manager_activate env m ≡ (show_windows env (prepared env m).windows (prepared env m), true)
unfolding gs_manager_activate
activate-inactive env m h = let succeeds = grab_root-succeeds env false m.grab in ground arith

-- Activating an inactive manager always succeeds, makes it active, and leaves as many windows as
-- it had, or one for each monitor if it had none; the lock is left alone. An active manager is
-- left alone.
pub gs_manager_set_active-true :
    (env : Env) (m : Manager)
    → (m.active ≡ true → gs_manager_set_active env true m ≡ some (m, false))
      × (m.active ≡ false
          → (m' : Manager) × (gs_manager_set_active env true m ≡ some (m', true))
            × (m'.active ≡ true)
            × (length m'.windows
                ≡ (if length m.windows == 0 then env.n_monitors else length m.windows))
            × (m'.lock_active ≡ m.lock_active))
unfolding gs_manager_set_active gs_manager_activate
gs_manager_set_active-true env m = (
  ground arith,
  λ h.
      let shown = show_windows-Similar env (prepared env m).windows (prepared env m) in
      let created =
        created_lem env
          (record m { grab = (gs_grab_grab_root env.display env.root_window false m.grab).0 })
          m.windows refl in
      (
        show_windows env (prepared env m).windows (prepared env m),
        ap some (activate-inactive env m h),
        shown.1,
        shown.0 ∙ created.0,
        shown.2 ∙ created.1,
      ),
)

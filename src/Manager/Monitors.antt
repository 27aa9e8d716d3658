-- ===== src/Manager/Monitors.antt =====
-- src/gs-manager.c: on_screen_monitors_changed, with the windows that it creates and destroys.
use budgie_screensaver.Common.{
  ℕ, zero, suc, ◌-◌, ◌≡◌, refl, ap, All, ◌∙◌, Bool, true, false, not, ◌&&◌, Option, some, List, [],
  ◌∷◌, ◌++◌, arith, if◌then◌else◌, length, ltb, leb, Bool-cases, inl, inr,
}
use budgie_screensaver.Window.{Window}
use budgie_screensaver.Manager.{Env, Manager, add_lock_timer, remove_lock_timer}
use budgie_screensaver.Manager.Dialog.{ids, replace, cancel_windows, gs_manager_request_unlock}
use budgie_screensaver.Manager.Windows.{
  gs_window_new, configured, show_window, manager_show_window, start_lock_timer, add_unfade_idle,
  remove_unfade_idle, gs_manager_create_window_for_monitor, create_windows_from, destroy_extra,
  without, on_screen_monitors_changed,
}
use budgie_screensaver.Manager.Stable.{IsStable, replace-All, append-All, without-All}
use budgie_screensaver.Manager.Policy.{Policy, wanted, Holds}
use budgie_screensaver.Manager.Locked.{IsLocked, AllLocked, IsLocked-IsStable}
use budgie_screensaver.Manager.Total.{IsResponsive, cancel_windows-Ends}
use budgie_screensaver.Manager.Deactivation.{request_unlock-Ends}

-- As active, and with the same policy, for the windows too if they had it.
abbrev pub Keeps : Manager → Manager → Type 0
Keeps m n = (n.active ≡ m.active) × (wanted n ≡ wanted m)

Keeps-trans : (l m n : Manager) → Keeps l m → Keeps m n → Keeps l n
Keeps-trans l m n a b = (b.0 ∙ a.0, b.1 ∙ a.1)

manager_show_window_lem :
    (env : Env) (m : Manager)
    → let n = manager_show_window env m in Keeps m n × (n.windows ≡ m.windows)
unfolding manager_show_window start_lock_timer add_unfade_idle remove_unfade_idle add_lock_timer
    remove_lock_timer
manager_show_window_lem env m = ((ground arith, ground arith), ground arith)

pub configured-Holds : (env : Env) (i : ℕ) (m : Manager) → Holds (wanted m) (configured env i m)
unfolding configured gs_window_new
configured-Holds env i m = refl

-- Under the condition `C` and with the policy `p`, a new window is a `P`.
module _ (env : Env) (P : Window → Type 0) (s : IsStable P) (C : Type 0) (p : Policy)
    (new : C → (i : ℕ) (m : Manager) → wanted m ≡ p → P (configured env i m)) where
  -- With the policy `p`, and under the condition, all windows stay such windows.
  abbrev pub Guarded : Manager → Manager → Type 0
  Guarded m n = Keeps m n × (wanted m ≡ p → C → All P m.windows → All P n.windows)

  pub Guarded-refl : (m : Manager) → Guarded m m
  Guarded-refl m = ((refl, refl), λ e c a. a)

  pub Guarded-trans : (l m n : Manager) → Guarded l m → Guarded m n → Guarded l n
  Guarded-trans l m n a b = (Keeps-trans l m n a.0 b.0, λ e c all. b.1 (a.0.1 ∙ e) c (a.1 e c all))

  if-Guarded :
      (c : Bool) (m n o : Manager) → Guarded m n → Guarded m o → Guarded m (if c then n else o)
  if-Guarded true m n o a b = a
  if-Guarded false m n o a b = b

  pub show_window-Guarded :
      (w : Window) (m : Manager)
      → (wanted m ≡ p → C → All P m.windows → P w)
      → Guarded m (show_window env w m)
  unfolding show_window
  show_window-Guarded w m l =
      let v = record w { visible = true } in
      let shown = manager_show_window_lem env (record m { windows = replace v m.windows }) in
      if-Guarded w.visible m _ _ (Guarded-refl m)
        (shown.0, λ e c a. rw shown.1 (replace-All P v m.windows (s.visible w (l e c a)) a))

  create_window-Guarded :
      (i : ℕ) (m : Manager) → Guarded m (gs_manager_create_window_for_monitor env i m)
  unfolding gs_manager_create_window_for_monitor
  create_window-Guarded i m =
      let w = configured env i m in
      let m' = record m { windows = m.windows ++ w ∷ []; created = suc m.created } in
      let added = λ (e : wanted m ≡ p) (c : C) (a : All P m.windows).
        append-All P m.windows w a (new c i m e) in
      if-Guarded (m.active && not m.fading) m _ _
        (Guarded-trans m m' (show_window env w m') ((refl, refl), added)
          (show_window-Guarded w m' (λ e c a. new c i m e)))
        ((refl, refl), added)

  pub create_windows_from-Guarded :
      (i n : ℕ) (m : Manager) → Guarded m (create_windows_from env i n m)
  unfolding create_windows_from
  create_windows_from-Guarded i zero m = Guarded-refl m
  create_windows_from-Guarded i (suc n) m =
      let one = gs_manager_create_window_for_monitor env i m in
      Guarded-trans m one (create_windows_from env (suc i) n one) (create_window-Guarded i m)
        (create_windows_from-Guarded (suc i) n one)

  -- An operation that ends, and guards the windows.
  abbrev pub EndsGuarded : Manager → Option Manager → Type 0
  EndsGuarded m o = (n : Manager) × (o ≡ some n) × Guarded m n

  module _ (r : IsResponsive env) where
    pub cancel_windows-EndsGuarded :
        (is : List ℕ) (m : Manager) → EndsGuarded m (cancel_windows env is m)
    cancel_windows-EndsGuarded is m =
        let (n, e, k, l) = cancel_windows-Ends env r P s is m in (n, e, ((k.0, k.6), λ e c a. l a))

    pub request_unlock-EndsGuarded :
        (m : Manager)
        → (n : Manager) × (b : Bool) × (gs_manager_request_unlock env m ≡ some (n, b)) × Guarded m n
    request_unlock-EndsGuarded m =
        let (n, e, on, _, _, policy, l) = request_unlock-Ends env r P s m in
        (n, _, e, ((on, policy), λ e c a. l a))

    destroy_extra-EndsGuarded :
        (ws : List Window) (m : Manager) → EndsGuarded m (destroy_extra env ws m)
    unfolding destroy_extra
    destroy_extra-EndsGuarded [] m = (m, refl, Guarded-refl m)
    destroy_extra-EndsGuarded (w ∷ ws) m = elim (Bool-cases (leb env.n_monitors w.monitor)) [
      | inr e ↦ rw (destroy_extra, e) (destroy_extra-EndsGuarded ws m)
      | inl e ↦
          let (n, f, g) = cancel_windows-EndsGuarded (w.id ∷ []) m in
          let rest = record n { windows = without w.id n.windows } in
          let (o, h, k) = destroy_extra-EndsGuarded ws rest in
          (
            o,
            rw (destroy_extra, e, f, h),
            Guarded-trans m n o g (k.0, λ d c a. k.1 d c (without-All P w.id n.windows a)),
          )
    ]

    pub monitors_changed-EndsGuarded :
        (m : Manager) → EndsGuarded m (on_screen_monitors_changed env m)
    unfolding on_screen_monitors_changed
    monitors_changed-EndsGuarded m =
        let n_windows = length m.windows in
        elim (Bool-cases (ltb n_windows env.n_monitors)) [
          | inl e ↦
              let (n, f, g) = cancel_windows-EndsGuarded (ids m.windows) m in
              let more = create_windows_from env n_windows (env.n_monitors - n_windows) n in
              let k = create_windows_from-Guarded n_windows (env.n_monitors - n_windows) n in
              let (o, b, h, l) = request_unlock-EndsGuarded more in
              (o, rw (e, f, h), Guarded-trans m n o g (Guarded-trans n more o k l))
          | inr e ↦
              let (n, f, g) = destroy_extra-EndsGuarded m.windows m in
              elim (Bool-cases (ltb env.n_monitors n_windows)) [
                | inl d ↦
                    let (o, b, h, l) = request_unlock-EndsGuarded n in
                    (o, rw (e, f, d, h), Guarded-trans m n o g l)
                | inr d ↦ (n, rw (e, f, d), g)
              ]
        ]

-- On a display that becomes responsive, a change of the monitors is dealt with, and the manager
-- stays as active and as locked as it was: where it is locked with all its windows, and none has
-- a deactivation pending, this holds afterwards too, also of the windows on new monitors.
pub on_screen_monitors_changed_lem :
    (env : Env) (r : IsResponsive env) (m : Manager)
    → (n : Manager) × (on_screen_monitors_changed env m ≡ some n)
      × (n.active ≡ m.active)
      × (n.lock_active ≡ m.lock_active)
      × (m.lock_active ≡ true → AllLocked m.windows → AllLocked n.windows)
unfolding configured gs_window_new
on_screen_monitors_changed_lem env r m =
    let (n, e, (keeps, all)) =
      monitors_changed-EndsGuarded env IsLocked IsLocked-IsStable (m.lock_active ≡ true) (wanted m)
        (λ on i m' same. (ap (λ p. p.lock_enabled) same ∙ on, refl)) r m in
    (n, e, keeps.0, ap (λ p. p.lock_enabled) keeps.1, all refl)

-- ===== src/Manager/Deactivation.antt =====
-- src/gs-manager.c: what deactivation and requests to unlock come to.
use budgie_screensaver.Common.{
  All, ◌≡◌, refl, ◌∙◌, true, false, not, ◌&&◌, Option, none, some, List, [], ◌∷◌, ap, arith,
  Bool-cases, inl, inr, suc, is_some,
}
use budgie_screensaver.Fade.{gs_fade_reset, gs_fade_set_alpha, gs_fade_stop}
use budgie_screensaver.Window.{Window, gs_window_request_unlock}
use budgie_screensaver.Manager.{Env, Manager, remove_lock_timer}
use budgie_screensaver.Manager.Stable.{IsStable, find_window_at_pointer-All}
use budgie_screensaver.Manager.Policy.{wanted}
use budgie_screensaver.Manager.Locked.{IsLocked, AllLocked, IsLocked-IsStable}
use budgie_screensaver.Manager.Dialog.{
  ids, finish_fading, request_at, gs_manager_request_unlock, find_window_at_pointer,
}
use budgie_screensaver.Manager.Windows.{gs_manager_destroy_windows, remove_unfade_idle}
use budgie_screensaver.Manager.Active.{
  is_empty, wind_down, gs_manager_deactivate, gs_manager_set_active,
}
use budgie_screensaver.Manager.Total.{
  IsResponsive, Kept, Kept-refl, cancel_windows-Ends, notify-Ends,
}

wind_down_lem :
    (env : Env) (m : Manager)
    → let n = wind_down env m in
      (n.lock_timeout_id ≡ 0) × (n.unfade_idle_id ≡ 0) × (n.fade.active ≡ false)
unfolding wind_down remove_lock_timer remove_unfade_idle gs_fade_reset gs_fade_set_alpha
    gs_fade_stop
wind_down_lem env m = (ground arith, ground arith, ground arith)

finish_fading_lem :
    (env : Env) (m : Manager)
    → let n = finish_fading env m in
      (n.windows ≡ m.windows)
      × (n.active ≡ m.active)
      × (n.lock_active ≡ m.lock_active)
      × (n.lock_enabled ≡ m.lock_enabled)
      × (wanted n ≡ wanted m)
unfolding finish_fading
finish_fading_lem env m = (ground arith, ground arith, ground arith, ground arith, ground arith)

find_window_at_pointer_lem :
    (env : Env) (ws : List Window) → is_some (find_window_at_pointer env ws) ≡ not (is_empty ws)
unfolding find_window_at_pointer
find_window_at_pointer_lem env [] = refl
find_window_at_pointer_lem env (w ∷ ws) = ground arith

module _ (env : Env) (r : IsResponsive env) where
  -- Deactivating an active manager ends, on a display that becomes responsive, and succeeds: no
  -- window is left, the manager is neither active nor locked, no dialog is up, its two timers are
  -- off, and no fade is active. An inactive manager is left alone.
  pub gs_manager_set_active-false :
      (m : Manager)
      → (m.active ≡ false → gs_manager_set_active env false m ≡ some (m, false))
        × (m.active ≡ true
            → (n : Manager) × (gs_manager_set_active env false m ≡ some (n, true))
              × (n.windows ≡ [])
              × (n.active ≡ false)
              × (n.lock_active ≡ false)
              × (n.dialog_up ≡ false)
              × (n.lock_timeout_id ≡ 0)
              × (n.unfade_idle_id ≡ 0)
              × (n.fade.active ≡ false))
  unfolding gs_manager_set_active gs_manager_deactivate gs_manager_destroy_windows
  gs_manager_set_active-false m =
      let (n, e, k, _) =
        cancel_windows-Ends env r IsLocked IsLocked-IsStable (ids (wind_down env m).windows)
          (wind_down env m) in
      let w = wind_down_lem env m in
      (
        ground arith,
        λ a. (
          record n {
            windows = [];
            active = false;
            activate_time = 0;
            lock_active = false;
            dialog_up = false;
            fading = false;
          },
          rw (e, a),
          refl,
          refl,
          refl,
          refl,
          k.3 ∙ w.0,
          k.4 ∙ w.1,
          ap (λ f. f.active) k.5 ∙ w.2,
        ),
      )

-- Requests to unlock, with what every window keeps.
module _ (env : Env) (r : IsResponsive env) (P : Window → Type 0) (s : IsStable P) where
  request_at_ends :
      (o : Option Window) (m : Manager)
      → ((w : Window) → o ≡ some w → All P m.windows → P w)
      → (n : Manager) × (request_at env o m ≡ some (n, is_some o))
        × Kept m n
        × (All P m.windows → All P n.windows)
  unfolding request_at
  request_at_ends none m l = (m, refl, Kept-refl m, λ a. a)
  request_at_ends (some w) m l =
      let (v, b) = gs_window_request_unlock (env.source_id m.adds) w in
      let (n, e, k, kl) =
        notify-Ends env r P s v b (record m { adds = suc m.adds })
          (λ a. s.request (env.source_id m.adds) w (l w refl a)) in
      (n, rw e, k, kl)

  pub request_unlock-Ends :
      (m : Manager)
      → (n : Manager) × (gs_manager_request_unlock env m
          ≡ some (n, m.active && not m.dialog_up && not (is_empty m.windows)))
        × (n.active ≡ m.active)
        × (n.lock_active ≡ m.lock_active)
        × (n.lock_enabled ≡ m.lock_enabled)
        × (wanted n ≡ wanted m)
        × (All P m.windows → All P n.windows)
  unfolding gs_manager_request_unlock
  request_unlock-Ends m =
      let f = finish_fading env m in
      let kept = finish_fading_lem env m in
      let found = find_window_at_pointer_lem env m.windows in
      let (n, e, k, kl) =
        request_at_ends (find_window_at_pointer env f.windows) f
          (λ w h a. find_window_at_pointer-All P env f.windows w a h) in
      elim (Bool-cases m.active) [
        | inr a ↦ (m, rw a, refl, refl, refl, refl, λ l. l)
        | inl a ↦ elim (Bool-cases m.dialog_up) [
          | inl d ↦ (m, rw (a, d), refl, refl, refl, refl, λ l. l)
          | inr d ↦ (
            n,
            rw (e, kept.0, found, a, d),
            k.0 ∙ kept.1,
            k.1 ∙ kept.2,
            k.2 ∙ kept.3,
            k.6 ∙ kept.4,
            λ l. kl (rw kept.0 l),
          )
        ]
      ]

-- On a display that becomes responsive, a request to unlock ends, and it neither locks nor unlocks
-- nor deactivates the manager: also, where all windows are locked and none has a deactivation
-- pending, this stays so. It answers TRUE exactly if the manager is active, has no dialog up, and
-- has a window.
pub gs_manager_request_unlock_lem :
    (env : Env) (r : IsResponsive env) (m : Manager)
    → (n : Manager) × (gs_manager_request_unlock env m
        ≡ some (n, m.active && not m.dialog_up && not (is_empty m.windows)))
      × (n.active ≡ m.active)
      × (n.lock_active ≡ m.lock_active)
      × (n.lock_enabled ≡ m.lock_enabled)
      × (AllLocked m.windows → AllLocked n.windows)
gs_manager_request_unlock_lem env r m =
    let (n, e, on, lock, enabled, _, l) = request_unlock-Ends env r IsLocked IsLocked-IsStable m in
    (n, e, on, lock, enabled, l)

-- ===== src/Monitor/Flag.antt =====
-- src/gs-monitor.c: changes of the active flag and locking, as the abstract saver sees them.
use budgie_screensaver.Common.{ap, ◌≡◌, sym, ◌∙◌, Bool, true, false, arith, Bool-cases, inl, inr}
use budgie_screensaver.Listener.{
  gs_listener_set_active, set_session_idle_internal, set_active_internal,
  send_signal_active_changed,
}
use budgie_screensaver.Manager.{Env, gs_manager_set_lock_active}
use budgie_screensaver.Manager.Total.{IsResponsive}
use budgie_screensaver.Manager.Deactivation.{gs_manager_set_active-false}
use budgie_screensaver.Monitor.{
  Monitor, set_watch, listener_active_changed_cb, set_active, gs_monitor_lock_screen,
}
use budgie_screensaver.Monitor.Sync.{InSync}
use budgie_screensaver.Monitor.Lock.{gs_monitor_lock_screen_lem, set_active-activates}
use budgie_screensaver.Monitor.Saver.{
  inactive, locked, Policy, up, view, Refines, view-inactive, view-active, view-locked, view-up,
  still-Refines,
}

module _ (env : Env) (r : IsResponsive env) where
  -- A change of the active flag leaves the policy alone.
  pub set_active-policy :
      (b : Bool) (m : Monitor)
      → let n = (set_active env b m).0 in
        (n.prefs ≡ m.prefs) × (n.listener.activation_enabled ≡ m.listener.activation_enabled)
  unfolding set_active gs_listener_set_active listener_active_changed_cb set_watch
      set_active_internal set_session_idle_internal send_signal_active_changed
  set_active-policy b m = (ground arith, ground arith)

  lock_screen-policy :
      (m : Monitor)
      → let n = gs_monitor_lock_screen env m in
        (n.prefs ≡ m.prefs) × (n.listener.activation_enabled ≡ m.listener.activation_enabled)
  unfolding gs_monitor_lock_screen
  lock_screen-policy m =
      let g = record m { manager = gs_manager_set_lock_active true m.manager } in
      let same = set_active-policy true g in (ground (arith, same), ground (arith, same))

  active-stays : (m : Monitor) → InSync m → m.manager.active ≡ true → (set_active env true m).0 ≡ m
  unfolding set_active gs_listener_set_active
  active-stays m sync on = ground (arith, sync, on)

  inactive-stays :
      (m : Monitor) → InSync m → m.manager.active ≡ false → (set_active env false m).0 ≡ m
  unfolding set_active gs_listener_set_active
  inactive-stays m sync off = ground (arith, sync, off)

  deactivates :
      (m : Monitor)
      → InSync m
      → m.manager.active ≡ true
      → let n = (set_active env false m).0 in
        (n.manager.active ≡ false) × (n.manager.lock_active ≡ false) × (n.listener.active ≡ false)
  unfolding set_active gs_listener_set_active listener_active_changed_cb set_watch
      set_active_internal set_session_idle_internal send_signal_active_changed
  deactivates m sync on =
      let (n, e, none_left, off, free, f1, f2, f3, f4) =
        (gs_manager_set_active-false env r m.manager).1 on in
      (
        ground (arith, sync, on, e, off),
        ground (arith, sync, on, e, free),
        ground (arith, sync, on, e, off),
      )

  -- Every change of the active flag, as the abstract saver sees it.
  pub on-Refines :
      (p : Policy) (m : Monitor)
      → Refines p m
      → (view (set_active env true m).0 ≡ up (view m)) × Refines p (set_active env true m).0
  on-Refines p m i = elim (Bool-cases m.manager.active) [
    | inl on ↦ let same = active-stays m i.sync on in (ap view same ∙ view-up m on, rw same i)
    | inr off ↦
        let n = (set_active env true m).0 in
        let (done, is_on, heard, kept) = set_active-activates env m i.sync off in
        let free = i.tidy off in
        (
          view-active n is_on (kept ∙ free) ∙ sym (ap up (view-inactive m off)),
          still-Refines p m n i (heard ∙ sym is_on) (λ e. ground (arith, is_on, e))
              (set_active-policy true m),
        )
  ]

  pub off-Refines :
      (p : Policy) (m : Monitor)
      → Refines p m
      → (view (set_active env false m).0 ≡ inactive) × Refines p (set_active env false m).0
  off-Refines p m i = elim (Bool-cases m.manager.active) [
    | inl on ↦
        let n = (set_active env false m).0 in
        let (off, free, heard) = deactivates m i.sync on in
        (
          view-inactive n off,
          still-Refines p m n i (heard ∙ sym off) (λ e. free) (set_active-policy false m),
        )
    | inr off ↦
        let same = inactive-stays m i.sync off in (ap view same ∙ view-inactive m off, rw same i)
  ]

  pub lock_screen-Refines :
      (p : Policy) (m : Monitor)
      → Refines p m
      → (view (gs_monitor_lock_screen env m) ≡ locked) × Refines p (gs_monitor_lock_screen env m)
  lock_screen-Refines p m i =
      let n = gs_monitor_lock_screen env m in
      let (on, lock_on, heard) = gs_monitor_lock_screen_lem env m i.sync in
      (
        view-locked n on lock_on,
        still-Refines p m n i (heard ∙ sym on) (λ e. ground (arith, on, e)) (lock_screen-policy m),
      )

-- ===== src/Monitor/Quiet.antt =====
-- src/gs-monitor.c: the handlers that change neither the active flag nor the lock.
use budgie_screensaver.Common.{ap, ◌≡◌, refl, ◌∙◌, Bool, some, arith, inl, inr, Option-cases}
use budgie_screensaver.Prefs.{Prefs}
use budgie_screensaver.Manager.{Env, Manager, gs_manager_set_status_message}
use budgie_screensaver.Manager.Dialog.{gs_manager_show_message}
use budgie_screensaver.Manager.Total.{IsResponsive}
use budgie_screensaver.Manager.Deactivation.{gs_manager_request_unlock_lem}
use budgie_screensaver.Monitor.{Monitor, listener_show_message_cb, release_grab_timeout}
use budgie_screensaver.Monitor.Wiring.{
  start_fade, cancel_fade, watcher_idle_notice_cb, on_watcher_status_message_changed,
}
use budgie_screensaver.Monitor.Saver.{Policy, view, Refines}

-- The flags, the listener and the preferences as they were.
abbrev pub SameFlags : Monitor → Monitor → Type 0
SameFlags m n =
    (n.manager.active ≡ m.manager.active)
    × (n.manager.lock_active ≡ m.manager.lock_active)
    × (n.listener ≡ m.listener)
    × (n.prefs ≡ m.prefs)

pub same-Refines :
    (p : Policy) (m n : Monitor) → SameFlags m n → Refines p m → (view n ≡ view m) × Refines p n
unfolding view
same-Refines p m n (on, lock, heard, prefs) i = (
  ground (arith, on, lock),
  record {
    sync = ground (arith, on, heard, i.sync);
    tidy = λ off. ground (arith, on, lock, off, i.tidy);
    lock_disabled = ap (λ (q : Prefs). q.lock_disabled) prefs ∙ i.lock_disabled;
    lock_enabled = ap (λ (q : Prefs). q.lock_enabled) prefs ∙ i.lock_enabled;
    activation_enabled = ap (λ l. l.activation_enabled) heard ∙ i.activation_enabled;
  },
)

pub status_changed-SameFlags :
    (env : Env) (m : Monitor) → SameFlags m (on_watcher_status_message_changed env m)
unfolding on_watcher_status_message_changed gs_manager_set_status_message
status_changed-SameFlags env m = (refl, refl, refl, refl)

pub release_grab-SameFlags : (env : Env) (m : Monitor) → SameFlags m (release_grab_timeout env m)
unfolding release_grab_timeout
release_grab-SameFlags env m = (ground arith, ground arith, ground arith, ground arith)

pub idle_notice-SameFlags :
    (env : Env) (b : Bool) (m : Monitor) → SameFlags m (watcher_idle_notice_cb env b m).0
unfolding watcher_idle_notice_cb start_fade cancel_fade
idle_notice-SameFlags env b m = (ground arith, ground arith, ground arith, ground arith)

show_message-flags :
    (env : Env) (r : IsResponsive env) (g h : Manager)
    → gs_manager_show_message env g ≡ some h
    → (h.active ≡ g.active) × (h.lock_active ≡ g.lock_active)
unfolding gs_manager_show_message
show_message-flags env r g h e =
    let (n, f, on, lock, _, _) = gs_manager_request_unlock_lem env r g in
    (ground (arith, e, f, on), ground (arith, e, f, lock))

pub message-SameFlags :
    (env : Env) (r : IsResponsive env) (m : Monitor) → SameFlags m (listener_show_message_cb env m)
unfolding listener_show_message_cb
message-SameFlags env r m = elim (Option-cases (gs_manager_show_message env m.manager)) [
  | inl e ↦ rw (listener_show_message_cb, e) (refl, refl, refl, refl)
  | inr (h, e) ↦
      let (on, lock) = show_message-flags env r m.manager h e in
      rw (listener_show_message_cb, e) (on, lock, refl, refl)
]

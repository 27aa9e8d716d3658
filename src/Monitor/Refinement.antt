-- ===== src/Monitor/Refinement.antt =====
-- src/gs-monitor.c: the monitor's handlers, each and in sequence, against the abstract saver.
use budgie_screensaver.Common.{
  ap, if-cases, if-true, if-false, ◌≡◌, ◌⊎◌, refl, sym, ◌∙◌, Bool, true, false, not, List, [], ◌∷◌,
  arith, inl, inr,
}
use budgie_screensaver.Listener.{
  gs_listener_set_session_idle, check_activation, set_session_idle_internal,
}
use budgie_screensaver.Manager.{Env, Manager}
use budgie_screensaver.Manager.Total.{IsResponsive}
use budgie_screensaver.Manager.Deactivation.{gs_manager_request_unlock_lem}
use budgie_screensaver.Monitor.{
  Monitor, set_active, gs_monitor_lock_screen, listener_lock_cb, listener_config_lock_cb,
  listener_quit_cb, window_deactivated_idle, manager_deactivated_cb, simulate_user_activity,
  watcher_idle_cb,
}
use budgie_screensaver.Monitor.Saver.{
  Saver, Policy, Op, lock, config_lock, window_deactivated, user_activity, quit, activate,
  session_idle, message, status_changed, release_grab, idle_notice, prefs_changed, next, next_all,
  up, Allowed, AllowedAll, view, perform, perform_all, Refines, view-manager, still-Refines,
  up-cases,
}
use budgie_screensaver.Monitor.Quiet.{
  same-Refines, status_changed-SameFlags, release_grab-SameFlags, idle_notice-SameFlags,
  message-SameFlags,
}
use budgie_screensaver.Monitor.Update.{prefs_changed-Refines}
use budgie_screensaver.Monitor.Flag.{
  set_active-policy, on-Refines, off-Refines, lock_screen-Refines,
}

module _ (env : Env) (r : IsResponsive env) where
  -- With the idle flag of the monitor before the attempt to activate.
  abbrev pretend : Bool → Monitor → Monitor
  pretend b m = record m { listener = record m.listener { session_idle = b } }

  idle-cases :
      (b : Bool) (m : Monitor)
      → let n = (watcher_idle_cb env b m).0 in
        let s = (set_active env true (pretend b m)).0 in
        ((n.manager ≡ m.manager) × (n.listener.active ≡ m.listener.active))
        ⊎ ((b ≡ true)
            × (m.listener.activation_enabled ≡ true)
            × (n.manager ≡ s.manager)
            × (n.listener.active ≡ s.listener.active))
  unfolding watcher_idle_cb gs_listener_set_session_idle check_activation set_session_idle_internal
      set_active
  idle-cases b m = ground arith

  idle-policy :
      (b : Bool) (m : Monitor)
      → let n = (watcher_idle_cb env b m).0 in
        (n.prefs ≡ m.prefs) × (n.listener.activation_enabled ≡ m.listener.activation_enabled)
  unfolding watcher_idle_cb gs_listener_set_session_idle check_activation set_session_idle_internal
      set_active
  idle-policy b m =
      let same = set_active-policy env r true (pretend b m) in
      (ground (arith, same), ground (arith, same))

  idled :
      (p : Policy) (b : Bool) (m : Monitor)
      → Refines p m
      → b ≡ true
      → m.listener.activation_enabled ≡ true
      → (watcher_idle_cb env b m).0.manager ≡ (set_active env true (pretend b m)).0.manager
      → (watcher_idle_cb env b m).0.listener.active
        ≡ (set_active env true (pretend b m)).0.listener.active
      → Allowed p (session_idle b) (view m) (view (watcher_idle_cb env b m).0)
        × Refines p (watcher_idle_cb env b m).0
  idled p b m i idle enabled same heard =
      let n = (watcher_idle_cb env b m).0 in
      let s = (set_active env true (pretend b m)).0 in
      let pretends : Refines p (pretend b m) = record {
        sync = i.sync;
        tidy = i.tidy;
        lock_disabled = i.lock_disabled;
        lock_enabled = i.lock_enabled;
        activation_enabled = i.activation_enabled;
      } in
      let (went_up, refines) = on-Refines env r p (pretend b m) pretends in
      let seen : view n ≡ up (view m) =
        view-manager s n same ∙ went_up ∙ ap up (view-manager m (pretend b m) refl) in
      (
        up-cases p b (view m) (view n) idle (sym i.activation_enabled ∙ enabled) seen,
        still-Refines p m n i (heard ∙ refines.sync ∙ sym (ap (λ (g : Manager). g.active) same))
            (λ e.
              ap (λ (g : Manager). g.lock_active) same
              ∙ refines.tidy (sym (ap (λ (g : Manager). g.active) same) ∙ e))
            (idle-policy b m),
      )

  idle-Refines :
      (p : Policy) (b : Bool) (m : Monitor)
      → Refines p m
      → Allowed p (session_idle b) (view m) (view (watcher_idle_cb env b m).0)
        × Refines p (watcher_idle_cb env b m).0
  idle-Refines p b m i =
      let n = (watcher_idle_cb env b m).0 in
      elim (idle-cases b m) [
        | inl (same, heard) ↦ (
          inl (view-manager m n same),
          still-Refines p m n i (heard ∙ i.sync ∙ sym (ap (λ (g : Manager). g.active) same))
              (λ e.
                ap (λ (g : Manager). g.lock_active) same
                ∙ i.tidy (sym (ap (λ (g : Manager). g.active) same) ∙ e))
              (idle-policy b m),
        )
        | inr (idle, enabled, same, heard) ↦ idled p b m i idle enabled same heard
      ]

  user_activity-Refines :
      (p : Policy) (m : Monitor)
      → Refines p m
      → (view (simulate_user_activity env m) ≡ view m) × Refines p (simulate_user_activity env m)
  unfolding simulate_user_activity view
  user_activity-Refines p m i =
      let (g, e, on, kept, _, _) = gs_manager_request_unlock_lem env r m.manager in
      let n = simulate_user_activity env m in
      (
        ground (arith, e, on, kept),
        still-Refines p m n i (ground (arith, e, on, i.sync))
            (λ off. ground (arith, e, on, kept, off, i.tidy))
            (ground (arith, e), ground (arith, e)),
      )

  lock_cb-Refines :
      (p : Policy) (m : Monitor)
      → Refines p m
      → Allowed p lock (view m) (view (listener_lock_cb env m)) × Refines p (listener_lock_cb env m)
  unfolding listener_lock_cb
  lock_cb-Refines p m i =
      let (locks, refines) = lock_screen-Refines env r p m i in
      if-cases (λ (n : Monitor). Allowed p lock (view m) (view n) × Refines p n)
        (not m.prefs.lock_disabled) _ _
        (λ may.
          let free : p.lock_disabled ≡ false = ground (arith, may, i.lock_disabled) in
          (
            if-false (λ (t : Saver). view (gs_monitor_lock_screen env m) ≡ t) p.lock_disabled _ _
                free locks,
            refines,
          ))
        (λ may_not.
          let off : p.lock_disabled ≡ true = ground (arith, may_not, i.lock_disabled) in
          (if-true (λ (t : Saver). view m ≡ t) p.lock_disabled _ _ off refl, i))

  config_lock_cb-Refines :
      (p : Policy) (m : Monitor)
      → Refines p m
      → Allowed p config_lock (view m) (view (listener_config_lock_cb env m))
        × Refines p (listener_config_lock_cb env m)
  unfolding listener_config_lock_cb
  config_lock_cb-Refines p m i =
      let (locks, refines) = lock_screen-Refines env r p m i in
      let n = gs_monitor_lock_screen env m in
      let Goal = λ (n : Monitor). Allowed p config_lock (view m) (view n) × Refines p n in
      if-cases Goal (not m.prefs.lock_disabled) _ _
        (λ may.
          let free : p.lock_disabled ≡ false = ground (arith, may, i.lock_disabled) in
          if-cases Goal m.prefs.lock_enabled _ _
            (λ wants. (
              if-false (λ (t : Saver). view n ≡ t) p.lock_disabled _ _ free
                  (if-true (λ (t : Saver). view n ≡ t) p.lock_enabled _ _
                    (sym i.lock_enabled ∙ wants) locks),
              refines,
            ))
            (λ wants_not. (
              if-false (λ (t : Saver). view m ≡ t) p.lock_disabled _ _ free
                  (if-false (λ (t : Saver). view m ≡ t) p.lock_enabled _ _
                    (sym i.lock_enabled ∙ wants_not) refl),
              i,
            )))
        (λ may_not.
          let off : p.lock_disabled ≡ true = ground (arith, may_not, i.lock_disabled) in
          (if-true (λ (t : Saver). view m ≡ t) p.lock_disabled _ _ off refl, i))

  perform-Refines :
      (p : Policy) (op : Op) (m : Monitor)
      → Refines p m
      → Allowed p op (view m) (view (perform env op m)) × Refines (next p op) (perform env op m)
  unfolding perform listener_lock_cb listener_config_lock_cb window_deactivated_idle
      manager_deactivated_cb listener_quit_cb
  perform-Refines p lock m i = lock_cb-Refines p m i
  perform-Refines p config_lock m i = config_lock_cb-Refines p m i
  perform-Refines p window_deactivated m i = off-Refines env r p m i
  perform-Refines p user_activity m i = user_activity-Refines p m i
  perform-Refines p quit m i =
      let (gone, refines) = off-Refines env r p m i in
      (
        view-manager (set_active env false m).0 (listener_quit_cb env m) refl ∙ gone,
        record {
          sync = refines.sync;
          tidy = refines.tidy;
          lock_disabled = refines.lock_disabled;
          lock_enabled = refines.lock_enabled;
          activation_enabled = refines.activation_enabled;
        },
      )
  perform-Refines p (activate true) m i = on-Refines env r p m i
  perform-Refines p (activate false) m i = off-Refines env r p m i
  perform-Refines p (session_idle b) m i = idle-Refines p b m i
  perform-Refines p message m i = same-Refines p m _ (message-SameFlags env r m) i
  perform-Refines p status_changed m i = same-Refines p m _ (status_changed-SameFlags env m) i
  perform-Refines p release_grab m i = same-Refines p m _ (release_grab-SameFlags env m) i
  perform-Refines p (idle_notice b) m i = same-Refines p m _ (idle_notice-SameFlags env b m) i
  perform-Refines p (prefs_changed q) m i = prefs_changed-Refines env p q m i

  -- If the display becomes responsive: from a monitor whose listener and manager agree, and in which
  -- an inactive saver has no lock, every run of the handlers that the monitor connects is a run of
  -- the abstract saver, each under the policy that the preferences set then, and ends in such a
  -- monitor with the last policy. So the saver is locked after each request to lock that the policy
  -- lets pass; new preferences lock at most an active saver, and only if they enable the lock; and
  -- a locked saver stays locked until the end of a dialog, a deactivation by the bus, or a request
  -- to quit. The manager's own lock timer is not among the handlers.
  pub perform_all-Refines :
      (p : Policy) (ops : List Op) (m : Monitor)
      → Refines p m
      → AllowedAll p ops (view m) (view (perform_all env ops m))
        × Refines (next_all p ops) (perform_all env ops m)
  unfolding perform_all
  perform_all-Refines p [] m i = (refl, i)
  perform_all-Refines p (op ∷ ops) m i =
      let (step, refines) = perform-Refines p op m i in
      let (rest, still) = perform_all-Refines (next p op) ops (perform env op m) refines in
      ((view (perform env op m), step, rest), still)

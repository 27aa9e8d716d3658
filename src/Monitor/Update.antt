-- ===== src/Monitor/Update.antt =====
-- src/gs-monitor.c: what an update from the preferences does to the saver.
use budgie_screensaver.Common.{
  ap, ◌≡◌, ◌⊎◌, refl, sym, ◌∙◌, ℕ, Bool, true, false, not, ◌&&◌, Option, String, arith, inl, inr, ℤ,
  pos,
}
use budgie_screensaver.Prefs.{Prefs}
use budgie_screensaver.Listener.{gs_listener_set_activation_enabled}
use budgie_screensaver.Manager.{
  Env, Manager, gs_manager_set_lock_active, activate_lock_timeout, remove_lock_timer,
  add_lock_timer, restart_lock_timer, gs_manager_set_lock_enabled, gs_manager_set_lock_timeout,
  gs_manager_set_logout_enabled, gs_manager_set_user_switch_enabled,
  gs_manager_set_keyboard_enabled, gs_manager_set_logout_timeout, gs_manager_set_logout_command,
  gs_manager_set_keyboard_command, gs_manager_set_status_message,
}
use budgie_screensaver.Monitor.{Monitor}
use budgie_screensaver.Monitor.Wiring.{
  update_manager, update_watcher, update_status, update_from_prefs,
}
use budgie_screensaver.Monitor.Saver.{
  Policy, policy_of, prefs_changed, Allowed, view, view-active, view-locked, Refines,
}

-- What the view of the saver is made of.
unfoldable flags : Manager → Bool × Bool
flags g = (g.active, g.lock_active)

set_lock_enabled-flags :
    (b : Bool) (g : Manager) → flags (gs_manager_set_lock_enabled b g) ≡ flags g
unfolding flags gs_manager_set_lock_enabled
set_lock_enabled-flags b g = ground arith

set_logout_enabled-flags :
    (b : Bool) (g : Manager) → flags (gs_manager_set_logout_enabled b g) ≡ flags g
unfolding flags gs_manager_set_logout_enabled
set_logout_enabled-flags b g = ground arith

set_user_switch_enabled-flags :
    (b : Bool) (g : Manager) → flags (gs_manager_set_user_switch_enabled b g) ≡ flags g
unfolding flags gs_manager_set_user_switch_enabled
set_user_switch_enabled-flags b g = ground arith

set_keyboard_enabled-flags :
    (b : Bool) (g : Manager) → flags (gs_manager_set_keyboard_enabled b g) ≡ flags g
unfolding flags gs_manager_set_keyboard_enabled
set_keyboard_enabled-flags b g = ground arith

set_logout_timeout-flags :
    (t : ℤ) (g : Manager) → flags (gs_manager_set_logout_timeout t g) ≡ flags g
unfolding flags gs_manager_set_logout_timeout
set_logout_timeout-flags t g = ground arith

set_logout_command-flags :
    (c : Option String) (g : Manager) → flags (gs_manager_set_logout_command c g) ≡ flags g
unfolding flags gs_manager_set_logout_command
set_logout_command-flags c g = refl

set_keyboard_command-flags :
    (c : Option String) (g : Manager) → flags (gs_manager_set_keyboard_command c g) ≡ flags g
unfolding flags gs_manager_set_keyboard_command
set_keyboard_command-flags c g = refl

ruleset flags_laws = (
  set_lock_enabled-flags, set_logout_enabled-flags, set_user_switch_enabled-flags,
  set_keyboard_enabled-flags, set_logout_timeout-flags, set_logout_command-flags,
  set_keyboard_command-flags,
)

-- Of the setters only the lock timeout's may change a flag.
update_manager-flags :
    (env : Env) (q : Prefs) (g : Manager)
    → flags (update_manager env q g)
      ≡ flags (
          gs_manager_set_lock_timeout env
            (pos q.lock_timeout)
            (gs_manager_set_lock_enabled (q.lock_enabled && not q.lock_disabled) g))
unfolding update_manager
update_manager-flags env q g = simp flags_laws

-- A new timeout may lock a saver that is active, if the lock is enabled.
abbrev pub MayLock : (enabled : Bool) → Manager → Manager → Type 0
MayLock enabled g h =
    (h.active ≡ g.active)
    × ((h.lock_active ≡ g.lock_active)
        ⊎ ((g.active ≡ true) × (g.lock_active ≡ false) × (h.lock_active ≡ true) × (enabled ≡ true)))

set_lock_timeout-MayLock :
    (env : Env) (t : ℕ) (g : Manager)
    → MayLock g.lock_enabled g (gs_manager_set_lock_timeout env (pos t) g)
unfolding gs_manager_set_lock_timeout restart_lock_timer add_lock_timer remove_lock_timer
    activate_lock_timeout gs_manager_set_lock_active
set_lock_timeout-MayLock env t g = (ground arith, ground arith)

set_lock_enabled_lem : (b : Bool) (g : Manager) → (gs_manager_set_lock_enabled b g).lock_enabled ≡ b
unfolding gs_manager_set_lock_enabled
set_lock_enabled_lem b g = ground arith

update_manager-MayLock :
    (env : Env) (q : Prefs) (g : Manager)
    → MayLock (q.lock_enabled && not q.lock_disabled) g (update_manager env q g)
unfolding flags
update_manager-MayLock env q g =
    let f = update_manager-flags env q g in
    let on : (update_manager env q g).active
        ≡ (gs_manager_set_lock_timeout env (pos q.lock_timeout)
            (gs_manager_set_lock_enabled (q.lock_enabled && not q.lock_disabled) g)).active =
      ap (λ x. x.0) f in
    let lock : (update_manager env q g).lock_active
        ≡ (gs_manager_set_lock_timeout env (pos q.lock_timeout)
            (gs_manager_set_lock_enabled (q.lock_enabled && not q.lock_disabled) g)).lock_active =
      ap (λ x. x.1) f in
    let e = set_lock_enabled-flags (q.lock_enabled && not q.lock_disabled) g in
    let same_on : (gs_manager_set_lock_enabled (q.lock_enabled && not q.lock_disabled) g).active
        ≡ g.active =
      ap (λ x. x.0) e in
    let same_lock : (gs_manager_set_lock_enabled (q.lock_enabled && not q.lock_disabled)
          g).lock_active
        ≡ g.lock_active =
      ap (λ x. x.1) e in
    let enabled = set_lock_enabled_lem (q.lock_enabled && not q.lock_disabled) g in
    let (same, may) =
      set_lock_timeout-MayLock env q.lock_timeout
        (gs_manager_set_lock_enabled (q.lock_enabled && not q.lock_disabled) g) in
    (
      on ∙ same ∙ same_on,
      elim may [
        | inl kept ↦ inl (lock ∙ kept ∙ same_lock)
        | inr (was_on, free, taken, allowed) ↦
            inr (sym same_on ∙ was_on, sym same_lock ∙ free, lock ∙ taken, sym enabled ∙ allowed)
      ],
    )

-- What else an update from the preferences leaves of the monitor.
update_from_prefs-rest :
    (env : Env) (m : Monitor)
    → let n = update_from_prefs env m in
      let g = update_manager env m.prefs m.manager in
      (n.manager.active ≡ g.active)
      × (n.manager.lock_active ≡ g.lock_active)
      × (n.prefs ≡ m.prefs)
      × (n.listener.active ≡ m.listener.active)
      × (n.listener.activation_enabled ≡ m.prefs.idle_activation_enabled)
unfolding update_from_prefs update_watcher update_status gs_manager_set_status_message
    gs_listener_set_activation_enabled
update_from_prefs-rest env m =
    (ground arith, ground arith, ground arith, ground arith, ground arith)

view-flags :
    (m n : Monitor)
    → n.manager.active ≡ m.manager.active
    → n.manager.lock_active ≡ m.manager.lock_active
    → view n ≡ view m
unfolding view
view-flags m n on lock = ground (arith, on, lock)

pub prefs_changed-Refines :
    (env : Env) (p : Policy) (q : Prefs) (m : Monitor)
    → Refines p m
    → let n = update_from_prefs env (record m { prefs = q }) in
      Allowed p (prefs_changed q) (view m) (view n) × Refines (policy_of q) n
prefs_changed-Refines env p q m i =
    let n = update_from_prefs env (record m { prefs = q }) in
    let (on, lock, same, heard, enabled) = update_from_prefs-rest env (record m { prefs = q }) in
    let (kept_on, may) = update_manager-MayLock env q m.manager in
    (
      elim may [
        | inl kept ↦ inl (view-flags m n (on ∙ kept_on) (lock ∙ kept))
        | inr (was_on, free, taken, allowed) ↦ inr (
          view-active m was_on free,
          view-locked n (on ∙ kept_on ∙ was_on) (lock ∙ taken),
          ground (arith, allowed),
          ground (arith, allowed),
        )
      ],
      record {
        sync = heard ∙ i.sync ∙ sym (on ∙ kept_on);
        tidy = λ off.
            let was_off : m.manager.active ≡ false = sym (on ∙ kept_on) ∙ off in
            lock ∙ (elim may [
              | inl kept ↦ kept ∙ i.tidy was_off
              | inr (was_on, free, taken, allowed) ↦ cc
            ]);
        lock_disabled = ap (λ (x : Prefs). x.lock_disabled) same;
        lock_enabled = ap (λ (x : Prefs). x.lock_enabled) same;
        activation_enabled = enabled;
      },
    )

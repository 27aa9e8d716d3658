-- ===== src/Monitor/Saver.antt =====
-- src/gs-monitor.c: the abstract saver, which is inactive, active or locked, and the monitor's
-- handlers as operations on it.
use budgie_screensaver.Common.{
  ap, ◌≡◌, ◌⊎◌, refl, ◌∙◌, Bool, true, false, List, [], ◌∷◌, arith, if◌then◌else◌, Bool-cases, inl,
  inr,
}
use budgie_screensaver.Prefs.{Prefs}
use budgie_screensaver.Manager.{Env, Manager}
use budgie_screensaver.Monitor.{
  Monitor, set_active, listener_lock_cb, listener_config_lock_cb, listener_quit_cb,
  window_deactivated_idle, simulate_user_activity, watcher_idle_cb, listener_show_message_cb,
  release_grab_timeout,
}
use budgie_screensaver.Monitor.Wiring.{
  on_watcher_status_message_changed, watcher_idle_notice_cb, update_from_prefs,
}
use budgie_screensaver.Monitor.Sync.{InSync}

pub data Saver : Type 0 where
  inactive active locked : Saver

-- What the administrator and the user have set.
pub record Policy : Type 0 where
  pub lock_disabled : Bool
  pub lock_enabled : Bool
  pub activation_enabled : Bool

-- The handlers that the monitor connects, by what they answer: a request to lock, of the bus or of
-- logind; the end of a dialog; activity of the user; a request to quit; a message to show; a change
-- of the active flag, of the idle flag, of the idle notice, of the status message, and of the
-- preferences, with their new values; and the timeout that releases the grab.
pub data Op : Type 0 where
  lock config_lock window_deactivated user_activity quit : Op
  message status_changed release_grab : Op
  activate session_idle idle_notice : Bool → Op
  prefs_changed : Prefs → Op

-- The policy that preferences set.
abbrev pub policy_of : Prefs → Policy
policy_of q = record {
  lock_disabled = q.lock_disabled;
  lock_enabled = q.lock_enabled;
  activation_enabled = q.idle_activation_enabled;
}

-- The policy after an operation.
abbrev pub next : Policy → Op → Policy
next p (prefs_changed q) = policy_of q
next p _ = p

abbrev pub next_all : Policy → List Op → Policy
next_all p [] = p
next_all p (op ∷ ops) = next_all (next p op) ops

abbrev pub up : Saver → Saver
up inactive = active
up s = s

-- What each may do to the saver.
abbrev pub Allowed : Policy → Op → Saver → Saver → Type 0
Allowed p lock s s' = s' ≡ (if p.lock_disabled then s else locked)
Allowed p config_lock s s' =
    s' ≡ (if p.lock_disabled then s else if p.lock_enabled then locked else s)
Allowed p window_deactivated s s' = s' ≡ inactive
Allowed p user_activity s s' = s' ≡ s
Allowed p quit s s' = s' ≡ inactive
Allowed p (activate true) s s' = s' ≡ up s
Allowed p (activate false) s s' = s' ≡ inactive
Allowed p (session_idle b) s s' =
    (s' ≡ s) ⊎ ((b ≡ true) × (p.activation_enabled ≡ true) × (s ≡ inactive) × (s' ≡ active))
Allowed p message s s' = s' ≡ s
Allowed p status_changed s s' = s' ≡ s
Allowed p release_grab s s' = s' ≡ s
Allowed p (idle_notice b) s s' = s' ≡ s
-- A shorter lock timeout may have passed already: then an active saver is locked, if the new
-- preferences let it.
Allowed p (prefs_changed q) s s' =
    (s' ≡ s) ⊎ ((s ≡ active) × (s' ≡ locked) × (q.lock_enabled ≡ true) × (q.lock_disabled ≡ false))

-- A run of the abstract saver, each operation under the policy that is set then.
abbrev pub AllowedAll : Policy → List Op → Saver → Saver → Type 0
AllowedAll p [] s s' = s' ≡ s
AllowedAll p (op ∷ ops) s s' = (t : Saver) × Allowed p op s t × AllowedAll (next p op) ops t s'

unfoldable pub view : Monitor → Saver
view m = if m.manager.active then (if m.manager.lock_active then locked else active) else inactive

unfoldable pub perform : Env → Op → Monitor → Monitor
unfolding listener_lock_cb listener_config_lock_cb window_deactivated_idle simulate_user_activity
    listener_quit_cb set_active watcher_idle_cb listener_show_message_cb
    on_watcher_status_message_changed release_grab_timeout watcher_idle_notice_cb update_from_prefs
perform env lock m = listener_lock_cb env m
perform env config_lock m = listener_config_lock_cb env m
perform env window_deactivated m = window_deactivated_idle env m
perform env user_activity m = simulate_user_activity env m
perform env quit m = listener_quit_cb env m
perform env (activate b) m = (set_active env b m).0
perform env (session_idle b) m = (watcher_idle_cb env b m).0
perform env message m = listener_show_message_cb env m
perform env status_changed m = on_watcher_status_message_changed env m
perform env release_grab m = release_grab_timeout env m
perform env (idle_notice b) m = (watcher_idle_notice_cb env b m).0
perform env (prefs_changed q) m = update_from_prefs env (record m { prefs = q })

unfoldable pub perform_all : Env → List Op → Monitor → Monitor
perform_all env [] m = m
perform_all env (op ∷ ops) m = perform_all env ops (perform env op m)

-- The listener and the manager agree, an inactive saver has no lock, and the policy is the one
-- that is set.
pub record Refines (p : Policy) (m : Monitor) : Type 0 where
  pub sync : InSync m
  pub tidy : m.manager.active ≡ false → m.manager.lock_active ≡ false
  pub lock_disabled : m.prefs.lock_disabled ≡ p.lock_disabled
  pub lock_enabled : m.prefs.lock_enabled ≡ p.lock_enabled
  pub activation_enabled : m.listener.activation_enabled ≡ p.activation_enabled

pub view-inactive : (m : Monitor) → m.manager.active ≡ false → view m ≡ inactive
unfolding view
view-inactive m off = ground (arith, off)

pub view-active :
    (m : Monitor) → m.manager.active ≡ true → m.manager.lock_active ≡ false → view m ≡ active
unfolding view
view-active m on free = ground (arith, on, free)

pub view-locked :
    (m : Monitor) → m.manager.active ≡ true → m.manager.lock_active ≡ true → view m ≡ locked
unfolding view
view-locked m on lock_on = ground (arith, on, lock_on)

pub view-up : (m : Monitor) → m.manager.active ≡ true → view m ≡ up (view m)
view-up m on = elim (Bool-cases m.manager.lock_active) [
  | inl l ↦ rw (view-locked m on l) refl
  | inr l ↦ rw (view-active m on l) refl
]

pub view-manager : (m n : Monitor) → n.manager ≡ m.manager → view n ≡ view m
unfolding view
view-manager m n same =
    ap (λ (g : Manager). if g.active then (if g.lock_active then locked else active) else inactive)
      same

pub up-cases :
    (p : Policy) (b : Bool) (s s' : Saver)
    → b ≡ true
    → p.activation_enabled ≡ true
    → s' ≡ up s
    → Allowed p (session_idle b) s s'
up-cases p b inactive s' idle enabled e = inr (idle, enabled, refl, e)
up-cases p b active s' idle enabled e = inl e
up-cases p b locked s' idle enabled e = inl e

pub still-Refines :
    (p : Policy) (m n : Monitor)
    → Refines p m
    → InSync n
    → (n.manager.active ≡ false → n.manager.lock_active ≡ false)
    → (n.prefs ≡ m.prefs) × (n.listener.activation_enabled ≡ m.listener.activation_enabled)
    → Refines p n
still-Refines p m n i sync tidy (prefs, activation) = record {
  sync = sync;
  tidy = tidy;
  lock_disabled = ap (λ (q : Prefs). q.lock_disabled) prefs ∙ i.lock_disabled;
  lock_enabled = ap (λ (q : Prefs). q.lock_enabled) prefs ∙ i.lock_enabled;
  activation_enabled = activation ∙ i.activation_enabled;
}

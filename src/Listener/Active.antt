-- ===== src/Listener/Active.antt =====
-- src/gs-listener-dbus.c: what the operations on the active and idle flags promise, whatever the
-- handlers of "active-changed" answer.
use budgie_screensaver.Common.{
  ℕ, ◌≤◌, ◌≡◌, ◌⊎◌, Bool, true, false, not, arith, List, ◌∷◌, if◌then◌else◌,
}
use budgie_screensaver.Listener.{
  Listener, Host, Connection, missing, disconnected, connected, send_signal_active_changed,
  set_session_idle_internal, set_active_internal, gs_listener_set_active, check_activation,
  gs_listener_set_session_idle,
}

-- The listener is a part of the world of its own, and the handlers of "active-changed" leave it
-- alone.
pub record IsLawful {W : Type 0} (h : Host W) : Type 0 where
  pub get-put : (l : Listener) (w : W) → h.get (h.put l w) ≡ l
  pub get-emit_active_changed : (b : Bool) (w : W) → h.get (h.emit_active_changed b w).0 ≡ h.get w

-- The times are set with their flags, and lie in the past.
pub record IsTimed (now : ℕ) (l : Listener) : Type 0 where
  pub inactive : l.active ≡ false → l.active_start ≡ 0
  pub not_idle : l.session_idle ≡ false → l.session_idle_start ≡ 0
  pub active_past : l.active_start ≤ now
  pub idle_past : l.session_idle_start ≤ now

abbrev pub announced : Connection → Bool → List Bool → List Bool
announced connected b sent = b ∷ sent
announced missing b sent = sent
announced disconnected b sent = sent

set_active_internal-fields :
    (now : ℕ) (b : Bool) (l : Listener)
    → ((set_active_internal now b l).active ≡ b)
      × ((set_active_internal now b l).session_idle ≡ b)
      × ((set_active_internal now b l).active_start ≡ (if b then now else 0))
      × ((set_active_internal now b l).activation_enabled ≡ l.activation_enabled)
      × (IsTimed now l → IsTimed now (set_active_internal now b l))
unfolding set_active_internal
set_active_internal-fields now b l =
    (ground arith, ground arith, ground arith, ground arith, λ t. ground arith)

module _ {W : Type 0} (h : Host W) (lawful : IsLawful h) (now : ℕ) (w : W) where
  -- What the handlers leave of the listener, and what is read back after a write.
  written :
      (b : Bool)
      → let w' = (h.emit_active_changed b w).0 in
        let on = set_active_internal now b (h.get w') in
        let off = set_session_idle_internal now false (h.get w') in
        (h.get w' ≡ h.get w) × (h.get (h.put on w') ≡ on) × (h.get (h.put off w') ≡ off)
  written b = (lawful.get-emit_active_changed b w, lawful.get-put _ _, lawful.get-put _ _)

  -- A change that succeeds was a change, and sets the flag, the idle flag and the start time
  -- together; one that fails leaves the active flag as it was.
  pub gs_listener_set_active_lem :
      (b : Bool)
      → let (w', res) = gs_listener_set_active h now b w in
        (res ≡ true
          → ((h.get w).active ≡ not b)
            × ((h.get w').active ≡ b)
            × ((h.get w').session_idle ≡ b)
            × ((h.get w').active_start ≡ (if b then now else 0)))
        × (res ≡ false → (h.get w').active ≡ (h.get w).active)
  unfolding gs_listener_set_active set_session_idle_internal
  gs_listener_set_active_lem b =
      ground
        (arith, written b, set_active_internal-fields now b (h.get (h.emit_active_changed b w).0))

  gs_listener_set_active-activation_enabled :
      (b : Bool)
      → (h.get (gs_listener_set_active h now b w).0).activation_enabled
        ≡ (h.get w).activation_enabled
  unfolding gs_listener_set_active set_session_idle_internal
  gs_listener_set_active-activation_enabled b =
      ground
        (arith, written b, set_active_internal-fields now b (h.get (h.emit_active_changed b w).0))

  -- Every change that succeeds is announced on the session bus exactly once, if the bus is
  -- connected after the handlers ran; a change that fails is not announced.
  pub gs_listener_set_active-sent :
      (b : Bool)
      → let (w', res) = gs_listener_set_active h now b w in
        (res ≡ true → (h.get w').sent ≡ announced (h.get w).connection b (h.get w).sent)
        × (res ≡ false → (h.get w').sent ≡ (h.get w).sent)
  unfolding gs_listener_set_active set_session_idle_internal set_active_internal
      send_signal_active_changed
  gs_listener_set_active-sent b = ground (arith, written b)

  -- The times stay right under every change, whether it succeeds or not.
  pub gs_listener_set_active-IsTimed :
      (b : Bool) → IsTimed now (h.get w) → IsTimed now (h.get (gs_listener_set_active h now b w).0)
  unfolding gs_listener_set_active set_session_idle_internal
  gs_listener_set_active-IsTimed b t =
      ground
        (arith, written b, set_active_internal-fields now b (h.get (h.emit_active_changed b w).0))

  gs_listener_set_active-session_idle_start :
      (b : Bool)
      → (gs_listener_set_active h now b w).1 ≡ false
      → ((h.get (gs_listener_set_active h now b w).0).session_idle_start ≡ 0)
        ⊎ ((h.get (gs_listener_set_active h now b w).0).session_idle_start
            ≡ (h.get w).session_idle_start)
  unfolding gs_listener_set_active set_session_idle_internal
  gs_listener_set_active-session_idle_start b res =
      let w' = (h.emit_active_changed b w).0 in
      ground (
        arith,
        lawful.get-emit_active_changed b w,
        lawful.get-put (set_session_idle_internal now false (h.get w')) w',
      )

module _ {W : Type 0} (h : Host W) (lawful : IsLawful h) (now : ℕ) (w : W) where
  -- What the idle flag is set to before the activation is tried.
  abbrev pretend : Bool → W
  pretend b = h.put (record (h.get w) { session_idle = b }) w

  -- Going idle with activation enabled is all or nothing: it succeeds only where the saver
  -- becomes active, and then the flags are set together. A change that fails leaves both flags
  -- as they were. Without activation, or on leaving idle, the active flag is left alone.
  pub gs_listener_set_session_idle_lem :
      (b : Bool)
      → let (w', res) = gs_listener_set_session_idle h now b w in
        (res ≡ true
          → ((h.get w).session_idle ≡ not b)
            × ((h.get w').session_idle ≡ b)
            × ((h.get w').session_idle_start ≡ (if b then now else 0))
            × (b ≡ true
                → (h.get w).activation_enabled ≡ true
                → ((h.get w).active ≡ false) × ((h.get w').active ≡ true)))
        × (res ≡ false
            → ((h.get w').session_idle ≡ (h.get w).session_idle)
              × ((h.get w').active ≡ (h.get w).active))
        × ((b ≡ false) ⊎ ((h.get w).activation_enabled ≡ false)
            → (h.get w').active ≡ (h.get w).active)
  unfolding gs_listener_set_session_idle set_session_idle_internal check_activation
  gs_listener_set_session_idle_lem b =
      let w' = (check_activation h now (pretend b)).0 in
      let facts = gs_listener_set_active_lem h lawful now (pretend b) true in
      let g0 = lawful.get-put (record (h.get w) { session_idle = b }) w in
      let g1 = lawful.get-put (set_session_idle_internal now b (h.get w')) w' in
      let g2 = lawful.get-put (record (h.get w') { session_idle = not b }) w' in
      (
        ground (arith, facts, g0, g1, g2),
        ground (arith, facts, g0, g1, g2),
        ground (arith, facts, g0, g1, g2),
      )

  -- The times stay right under a change of the idle flag, failures included.
  pub gs_listener_set_session_idle-IsTimed :
      (b : Bool)
      → IsTimed now (h.get w)
      → IsTimed now (h.get (gs_listener_set_session_idle h now b w).0)
  unfolding gs_listener_set_session_idle set_session_idle_internal check_activation
  gs_listener_set_session_idle-IsTimed b t =
      let w' = (check_activation h now (pretend b)).0 in
      let facts = gs_listener_set_active_lem h lawful now (pretend b) true in
      let start = gs_listener_set_active-session_idle_start h lawful now (pretend b) true in
      let timed = gs_listener_set_active-IsTimed h lawful now (pretend b) true in
      let g0 = lawful.get-put (record (h.get w) { session_idle = b }) w in
      let g1 = lawful.get-put (set_session_idle_internal now b (h.get w')) w' in
      let g2 = lawful.get-put (record (h.get w') { session_idle = not b }) w' in
      ground (arith, facts, start, timed, g0, g1, g2)

-- ===== src/Watcher/Status.antt =====
-- src/gs-watcher-x11.c: the presence status, the notice and the idle timeout.
use budgie_screensaver.Common.{
  ℕ, ◌≡◌, ◌≢◌, ◌⊎◌, Bool, true, false, not, arith, List, ◌∷◌, ltb, if◌then◌else◌, SourceCall,
  add_timeout, remove,
}
use budgie_screensaver.Watcher.{
  Watcher, Host, set_session_idle_notice, set_session_idle, set_status, queue_activation,
}

-- The watcher is a part of the world of its own.
pub record IsLawful {W : Type 0} (h : Host W) : Type 0 where
  pub get-put : (x : Watcher) (w : W) → h.get (h.put x w) ≡ x

-- The calls that drop the timeout noted in the watcher, if there is one.
abbrev pub dropped : Watcher → List SourceCall
dropped x = if ltb 0 x.idle_id then remove x.idle_id ∷ x.calls else x.calls

module _ {W : Type 0} (h : Host W) (lawful : IsLawful h) (w : W) where
  -- A change of the idle flag that succeeds was a change, was taken by the handlers of
  -- "idle-changed", and sets the flag; one that fails was no change, or was refused.
  pub set_session_idle_lem :
      (b : Bool)
      → let (w', res) = set_session_idle h b w in
        (res ≡ true
          → ((h.get w).idle ≡ not b) × ((h.emit_idle_changed b w).1 ≡ true) × ((h.get w').idle ≡ b))
        × (res ≡ false → ((h.get w).idle ≡ b) ⊎ ((h.emit_idle_changed b w).1 ≡ false))
  unfolding set_session_idle
  set_session_idle_lem b =
      let w' = (h.emit_idle_changed b w).0 in
      let g = lawful.get-put (record (h.get w') { idle = b }) w' in
      (ground (arith, g), ground (arith, g))

  -- A status of the session does nothing while the watcher is inactive, and one other than idle
  -- does nothing before the idle notice.
  pub set_status-ignored :
      (id status : ℕ)
      → ((h.get w).active ≡ false) ⊎ ((status ≢ 3) × ((h.get w).idle_notice ≡ false))
      → set_status h id status w ≡ w
  unfolding set_status
  set_status-ignored id status i = ground arith

  -- While the watcher is active, an idle session sends the notice and then arms the idle timeout,
  -- in place of the one that was noted, whether or not the notice was taken.
  pub set_status-idle :
      (id : ℕ)
      → (h.get w).active ≡ true
      → let noticed = h.get (set_session_idle_notice h true w).0 in
        let x = h.get (set_status h id 3 w) in
        (x.idle_id ≡ id)
        × (x.calls ≡ add_timeout noticed.delta_notice_timeout id ∷ dropped noticed)
        × (x.idle_notice ≡ noticed.idle_notice)
  unfolding set_status queue_activation
  set_status-idle id a =
      let w' = (set_session_idle_notice h true w).0 in
      let g = lawful.get-put (queue_activation id (h.get w')) w' in
      (ground (arith, g), ground (arith, g), ground (arith, g))

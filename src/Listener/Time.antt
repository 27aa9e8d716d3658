-- ===== src/Listener/Time.antt =====
-- src/gs-listener-dbus.c: the answer of GetActiveTime.
use budgie_screensaver.Common.{
  ℕ, ◌+◌, ◌-◌, ◌^◌, ◌≤◌, ◌<◌, ◌≡◌, Bool, false, true, arith, if◌then◌else◌,
}
use budgie_screensaver.Listener.{Listener, Host, gs_listener_set_active, active_time}
use budgie_screensaver.Listener.Active.{IsLawful, IsTimed, gs_listener_set_active_lem}

-- After an activation that succeeds, GetActiveTime answers the seconds that have passed, as long
-- as they fit in 32 bits and the clock was set and does not run backwards. After a deactivation
-- that succeeds it answers 0.
pub active_time-set_active :
    {W : Type 0} (h : Host W) (lawful : IsLawful h) (start now : ℕ) (b : Bool) (w : W)
    → (gs_listener_set_active h start b w).1 ≡ true
    → 0 < start
    → start ≤ now
    → now < start + 2 ^ 32
    → active_time now (h.get (gs_listener_set_active h start b w).0)
      ≡ (if b then now - start else 0)
unfolding active_time
active_time-set_active h lawful start now b w res pos past fits =
    ground (arith, gs_listener_set_active_lem h lawful start w b)

-- The time is 0 where the saver is inactive, and never more than the clock shows.
pub active_time-bounds :
    (now : ℕ) (l : Listener)
    → IsTimed now l
    → (active_time now l ≤ now - l.active_start) × (l.active ≡ false → active_time now l ≡ 0)
unfolding active_time
active_time-bounds now l t = (ground arith, ground arith)

-- ===== src/Watcher/Server.antt =====
-- src/gs-watcher-x11.c: disable_builtin_screensaver and the watchdog that calls it.
use budgie_screensaver.Common.{
  ℕ, ◌+◌, ◌≡◌, Bool, true, false, not, ◌||◌, arith, ◌==◌, if◌then◌else◌,
}

-- What XGetScreenSaver reports; AllowExposures is 1.
pub record ServerParams : Type 0 where
  pub timeout : ℕ
  pub interval : ℕ
  pub prefer_blank : ℕ
  pub allow_exp : ℕ

pub record Server : Type 0 where
  pub params : ServerParams
  -- The calls of XSetScreenSaver, and of XForceScreenSaver (ScreenSaverReset).
  pub sets : ℕ
  pub resets : ℕ

unfoldable pub desired : ServerParams → ServerParams
desired current = record {
  timeout = 0;
  interval = 0;
  prefer_blank = current.prefer_blank;
  allow_exp = 1;
}

unfoldable pub differ : (a b : ServerParams) → Bool
differ a b =
    not (a.timeout == b.timeout)
    || not (a.interval == b.interval)
    || not (a.prefer_blank == b.prefer_blank)
    || not (a.allow_exp == b.allow_exp)

unfoldable pub disable_builtin_screensaver : (unblank_screen : Bool) → Server → Server
unfolding desired differ
disable_builtin_screensaver unblank_screen s =
    let d = desired s.params in
    let s = if differ d s.params then record s { params = d; sets = s.sets + 1 } else s in
    if unblank_screen then record s { resets = s.resets + 1 } else s

-- The second part is what the main loop gets: the timer goes on.
unfoldable pub watchdog_timer : Server → Server × Bool
unfolding disable_builtin_screensaver
watchdog_timer s = (disable_builtin_screensaver false s, true)

-- However the server's saver was set up, after the watchdog it is off and asks for exposures, with
-- the blanking preference kept; the screen is not unblanked; and a second run of the watchdog
-- calls the server no more.
pub watchdog_timer_lem :
    (s : Server)
    → let t = (watchdog_timer s).0 in
      (t.params.timeout ≡ 0)
      × (t.params.interval ≡ 0)
      × (t.params.allow_exp ≡ 1)
      × (t.params.prefer_blank ≡ s.params.prefer_blank)
      × (t.resets ≡ s.resets)
      × ((watchdog_timer t).0 ≡ t)
unfolding watchdog_timer
watchdog_timer_lem s =
    (ground arith, ground arith, ground arith, ground arith, ground arith, ground arith)

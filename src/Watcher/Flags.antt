-- ===== src/Watcher/Flags.antt =====
-- src/gs-watcher-x11.c: the enabled and active flags.
use budgie_screensaver.Common.{◌≡◌, Bool, true, false, not, arith}
use budgie_screensaver.Watcher.{Watcher, gs_watcher_set_active, gs_watcher_set_enabled}

-- A disabled watcher is not active.
abbrev pub IsValid : Watcher → Type 0
IsValid x = x.active ≡ true → x.enabled ≡ true

-- Switching the watcher succeeds exactly if it is enabled and not yet switched so; then both idle
-- flags are cleared. The idle timeout that is noted, and the main loop, are left alone in every
-- case.
pub gs_watcher_set_active_lem :
    (b : Bool) (x : Watcher)
    → let (y, res) = gs_watcher_set_active b x in
      (res ≡ true
        → (x.enabled ≡ true)
          × (x.active ≡ not b)
          × (y.active ≡ b)
          × (y.idle ≡ false)
          × (y.idle_notice ≡ false))
      × (res ≡ false → y ≡ x)
      × (x.enabled ≡ true → x.active ≡ not b → res ≡ true)
      × (y.idle_id ≡ x.idle_id)
      × (y.calls ≡ x.calls)
unfolding gs_watcher_set_active
gs_watcher_set_active_lem b x =
    (ground arith, ground arith, ground arith, ground arith, ground arith)

-- No switch leaves a disabled watcher active, and disabling an active watcher switches it off.
pub set-IsValid :
    (b : Bool) (x : Watcher)
    → IsValid x
    → IsValid (gs_watcher_set_active b x).0
      × IsValid (gs_watcher_set_enabled b x)
      × (b ≡ false → (gs_watcher_set_enabled b x).active ≡ false)
unfolding gs_watcher_set_active gs_watcher_set_enabled
set-IsValid b x v = (ground arith, ground arith, ground arith)

-- ===== src/Watcher/Tests.antt =====
-- src/gs-watcher-x11.c: the theorems at a concrete watcher.
use budgie_screensaver.Common.{true, false, none, [], ◌∷◌, add_timeout}
use budgie_screensaver.Watcher.{Watcher}

abbrev pub watching : Watcher
watching = record {
  enabled = true;
  delta_notice_timeout = 10;
  active = true;
  idle = false;
  idle_notice = false;
  idle_id = 7;
  status_message = none;
  watchdog_timer_id = 3;
  calls = add_timeout 600 3 ∷ [];
}

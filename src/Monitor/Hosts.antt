-- ===== src/Monitor/Hosts.antt =====
-- src/gs-monitor.c: the monitor's handlers as the hosts of the listener and of the watcher.
use budgie_screensaver.Common.{refl}
use budgie_screensaver.Listener.Active.{IsLawful}
use budgie_screensaver.Watcher.Status.{IsLawful as IsLawfulWatcher}
use budgie_screensaver.Manager.{Env}
use budgie_screensaver.Monitor.Sync.{listener_active_changed_cb_lem}
use budgie_screensaver.Monitor.Wiring.{listener_host, watcher_host}

-- The theorems on the listener hold for the monitor's handlers, and so do those on the watcher.
pub listener_host-IsLawful : (env : Env) → IsLawful (listener_host env)
unfolding listener_host
listener_host-IsLawful env = record {
  get-put = λ l m. refl;
  get-emit_active_changed = λ b m. (listener_active_changed_cb_lem env b m).0;
}

pub watcher_host-IsLawful : (env : Env) → IsLawfulWatcher (watcher_host env)
unfolding watcher_host
watcher_host-IsLawful env = record { get-put = λ x m. refl }

-- ===== src/Watcher.antt =====
-- src/gs-watcher-x11.c: the watcher's state, its flags, the session's presence status and the idle
-- timeout, and the watchdog on the X server's own screen saver.
--
-- The watcher emits its signals into a world of type `W` that holds it, by a `Host` as in
-- Listener.antt. The main loop is not modelled: `id` is the number that
-- g_timeout_add_seconds returns, and the calls on the main loop are kept in a list.
pub mod Flags
pub mod Status
pub mod Server
pub mod Tests
use budgie_screensaver.Common.{
  ℕ, Bool, true, false, not, ◌&&◌, Option, String, List, [], ◌∷◌, same, ltb, ◌==◌, if◌then◌else◌,
  SourceCall, add_timeout, remove,
}

pub record Watcher : Type 0 where
  pub enabled : Bool
  pub delta_notice_timeout : ℕ
  pub active : Bool
  pub idle : Bool
  pub idle_notice : Bool
  pub idle_id : ℕ
  pub status_message : Option String
  pub watchdog_timer_id : ℕ
  -- The calls on the main loop, the last one first.
  pub calls : List SourceCall

pub record Host (W : Type 0) : Type 0 where
  pub get : W → Watcher
  pub put : Watcher → W → W
  -- What the handlers return, FALSE if there is none.
  pub emit_idle_changed : (is_idle : Bool) → W → W × Bool
  pub emit_idle_notice_changed : (in_effect : Bool) → W → W × Bool
  pub notify_status_message : W → W

unfoldable pub remove_watchdog_timer : Watcher → Watcher
remove_watchdog_timer x =
    if x.watchdog_timer_id == 0
    then x
    else record x { watchdog_timer_id = 0; calls = remove x.watchdog_timer_id ∷ x.calls }

unfoldable pub add_watchdog_timer : (timeout id : ℕ) → Watcher → Watcher
add_watchdog_timer timeout id x = record x {
  watchdog_timer_id = id;
  calls = add_timeout timeout id ∷ x.calls;
}

unfoldable pub reset_state : Watcher → Watcher
reset_state x = record x { idle = false; idle_notice = false }

unfoldable pub set_active_internal : (active : Bool) → Watcher → Watcher
unfolding reset_state
set_active_internal active x =
    if same active x.active then x else record (reset_state x) { active = active }

unfoldable pub gs_watcher_set_active : (active : Bool) → Watcher → Watcher × Bool
unfolding set_active_internal
gs_watcher_set_active active x =
    if same x.active active
    then (x, false)
    else if not x.enabled
    then (x, false)
    else (set_active_internal active x, true)

unfoldable pub gs_watcher_set_enabled : (enabled : Bool) → Watcher → Watcher
unfolding set_active_internal
gs_watcher_set_enabled enabled x =
    if same x.enabled enabled
    then x
    else let y = record x { enabled = enabled } in
      if not enabled && x.active then set_active_internal false y else y

-- g_source_remove (idle_id), where one is noted; the field keeps its value.
unfoldable pub remove_idle_source : Watcher → Watcher
remove_idle_source x =
    if ltb 0 x.idle_id then record x { calls = remove x.idle_id ∷ x.calls } else x

unfoldable pub queue_activation : (id : ℕ) → Watcher → Watcher
unfolding remove_idle_source
queue_activation id x =
    let x = remove_idle_source x in
    record x { idle_id = id; calls = add_timeout x.delta_notice_timeout id ∷ x.calls }

module _ {W : Type 0} (h : Host W) where
  unfoldable pub set_session_idle_notice : (in_effect : Bool) → W → W × Bool
  set_session_idle_notice in_effect w =
      if same in_effect (h.get w).idle_notice
      then (w, false)
      else let (w, res) = h.emit_idle_notice_changed in_effect w in
        if res then (h.put (record (h.get w) { idle_notice = in_effect }) w, true) else (w, false)

  unfoldable pub set_session_idle : (is_idle : Bool) → W → W × Bool
  set_session_idle is_idle w =
      if same is_idle (h.get w).idle
      then (w, false)
      else let (w, res) = h.emit_idle_changed is_idle w in
        if res then (h.put (record (h.get w) { idle = is_idle }) w, true) else (w, false)

  -- The second part is what the main loop gets: whether to call again.
  unfoldable pub on_idle_timeout : W → W × Bool
  on_idle_timeout w =
      let (w, res) = set_session_idle true w in ((set_session_idle_notice false w).0, not res)

  unfoldable pub set_status : (id status : ℕ) → W → W
  set_status id status w =
      let is_idle = status == 3 in
      if not (h.get w).active
      then w
      else if not is_idle && not (h.get w).idle_notice
      then w
      else if is_idle
      then (let w = (set_session_idle_notice true w).0 in h.put (queue_activation id (h.get w)) w)
      else let w = h.put (remove_idle_source (h.get w)) w in
        (set_session_idle_notice false (set_session_idle false w).0).0

  unfoldable pub set_status_text : (text : Option String) → W → W
  set_status_text text w =
      h.notify_status_message (h.put (record (h.get w) { status_message = text }) w)

-- gs_watcher_init over the zeroed object. `text` is the status text of the session, NULL if it
-- cannot be read; its status is ignored, as the watcher is not active yet.
unfoldable pub gs_watcher_init : (id : ℕ) → Option String → Watcher
unfolding add_watchdog_timer
gs_watcher_init id text = add_watchdog_timer 600 id (record {
  enabled = true;
  delta_notice_timeout = 10;
  active = false;
  idle = false;
  idle_notice = false;
  idle_id = 0;
  status_message = text;
  watchdog_timer_id = 0;
  calls = [];
})

-- What gs_watcher_finalize does to the timers.
unfoldable pub gs_watcher_finalize : Watcher → Watcher
unfolding remove_watchdog_timer remove_idle_source
gs_watcher_finalize x = record (remove_idle_source (remove_watchdog_timer x)) { active = false }

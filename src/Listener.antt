-- ===== src/Listener.antt =====
-- src/gs-listener-dbus.c: the listener's state, and the operations on its idle and active flags.
--
-- The listener emits its GObject signals into a world of type `W` that holds it. A `Host` says how
-- the listener lies in that world and what the handlers connected to its signals do to it. `now`
-- is what time (NULL) returns; a time_t is a number, and 0 means unset.
pub mod Message
pub mod Handler
pub mod Replies
pub mod Session
pub mod Active
pub mod Time
pub mod Bus
pub mod Dispatch
pub mod Acquire
pub mod Signatures
pub mod Tests
use budgie_screensaver.Common.{
  ℕ, ◌-◌, ◌%◌, ◌^◌, Bool, true, false, not, Option, String, List, ◌∷◌, same, ltb, ◌==◌,
  if◌then◌else◌,
}

-- The session bus: NULL, not connected, or connected.
pub data Connection : Type 0 where
  missing disconnected connected : Connection

pub record Listener : Type 0 where
  pub connection : Connection
  pub system_connection : Connection
  pub session_idle : Bool
  pub active : Bool
  pub activation_enabled : Bool
  pub active_start : ℕ
  pub session_idle_start : ℕ
  pub session_id : Option String
  pub have_systemd : Bool
  -- The ActiveChanged signals that the bus took, the last one first.
  pub sent : List Bool

pub record Host (W : Type 0) : Type 0 where
  pub get : W → Listener
  pub put : Listener → W → W
  pub emit_lock : W → W
  pub emit_config_lock : W → W
  pub emit_quit : W → W
  pub emit_simulate_user_activity : W → W
  pub emit_show_message : (summary body icon : String) → W → W
  -- What the handlers of "active-changed" return, FALSE if there is none.
  pub emit_active_changed : Bool → W → W × Bool

-- send_dbus_boolean_signal and send_dbus_message: only a connected bus takes the signal.
unfoldable pub send_signal_active_changed : Listener → Listener
send_signal_active_changed l = elim l.connection [
  | missing ↦ l
  | disconnected ↦ l
  | connected ↦ record l { sent = l.active ∷ l.sent }
]

unfoldable pub set_session_idle_internal : (now : ℕ) (idle : Bool) → Listener → Listener
set_session_idle_internal now idle l = record l {
  session_idle = idle;
  session_idle_start = if idle then now else 0;
}

unfoldable pub set_active_internal : (now : ℕ) (active : Bool) → Listener → Listener
unfolding set_session_idle_internal send_signal_active_changed
set_active_internal now active l =
    let l = record l { active = active } in
    let l = if same l.session_idle active then l else set_session_idle_internal now active l in
    let l = record l { active_start = if active then now else 0 } in send_signal_active_changed l

module _ {W : Type 0} (h : Host W) (now : ℕ) where
  unfoldable pub gs_listener_set_active : (active : Bool) → W → W × Bool
  gs_listener_set_active active w =
      if same (h.get w).active active
      then (w, false)
      else let (w, res) = h.emit_active_changed active w in
        if res
        then (h.put (set_active_internal now active (h.get w)) w, true)
        else if active
        then (h.put (set_session_idle_internal now false (h.get w)) w, false)
        else (w, false)

  unfoldable pub check_activation : W → W × Bool
  check_activation w =
      if not (h.get w).activation_enabled
      then (w, true)
      else if not (h.get w).session_idle
      then (w, true)
      else gs_listener_set_active true w

  unfoldable pub gs_listener_set_session_idle : (idle : Bool) → W → W × Bool
  gs_listener_set_session_idle idle w =
      if same (h.get w).session_idle idle
      then (w, false)
      else let (w, res) = check_activation (h.put (record (h.get w) { session_idle = idle }) w) in
        if res
        then (h.put (set_session_idle_internal now idle (h.get w)) w, true)
        else (h.put (record (h.get w) { session_idle = not idle }) w, false)

unfoldable pub gs_listener_set_activation_enabled : Bool → Listener → Listener
gs_listener_set_activation_enabled enabled l =
    if same l.activation_enabled enabled then l else record l { activation_enabled = enabled }

-- The seconds of GetActiveTime, a dbus_uint32_t.
unfoldable pub active_time : (now : ℕ) → Listener → ℕ
active_time now l =
    if l.active
    then if ltb now l.active_start
      then 0
      else if l.active_start == 0
      then 0
      else (now - l.active_start) % 2 ^ 32
    else 0

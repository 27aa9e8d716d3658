-- ===== src/Listener/Handler.antt =====
-- src/gs-listener-dbus.c: the handlers of the messages of the session bus and the system bus,
-- in a build with systemd and ConsoleKit, as the build options have it by default.
--
-- A reply that cannot be allocated or sent aborts the program (g_error), and is not modelled.
use text.Mathlib.Text.{◌==◌ as str_eq}
use budgie_screensaver.Common.{ℕ, Bool, false, ◌&&◌, Option, none, some, if◌then◌else◌}
use budgie_screensaver.Listener.{Host, missing, gs_listener_set_active, active_time}
use budgie_screensaver.Listener.Message.{
  Message, gs_service, logind_interface, logind_session_interface, ck_session_interface,
  properties_interface, is_method_call, is_signal, boolean_arg, name_arg, message_args,
  path_is_local, properties_changed_match, path_is_our_session,
}

pub data HandlerResult : Type 0 where
  handled not_yet_handled : HandlerResult

pub data Reply : Type 0 where
  -- A method return with no value, with a boolean, with seconds, with the introspection data.
  success : Reply
  active : Bool → Reply
  seconds : ℕ → Reply
  introspection : Reply
  -- An error.
  syntax_error type_mismatch : Reply

pub record Outcome (W : Type 0) : Type 0 where
  pub world : W
  pub result : HandlerResult
  pub reply : Option Reply

-- What the filter asks of the main loop besides.
pub data Next : Type 0 where
  go_on : Next
  -- g_timeout_add of reinit_dbus.
  reinit_dbus : (interval : ℕ) → Next
  -- gtk_main_quit
  main_quit : Next

-- The handler answers with a reply, or leaves the message alone.
abbrev pub replies : {W : Type 0} → W → Reply → Outcome W
replies w r = record { world = w; result = handled; reply = some r }

abbrev pub silent : {W : Type 0} → W → Outcome W
silent w = record { world = w; result = handled; reply = none }

abbrev pub ignored : {W : Type 0} → W → Outcome W
ignored w = record { world = w; result = not_yet_handled; reply = none }

unfoldable pub send_success_reply : {W : Type 0} → Message → W → Outcome W
send_success_reply m w = if m.no_reply then silent w else replies w success

module _ {W : Type 0} (h : Host W) (now : ℕ) where
  -- listener_set_property, at PROP_ACTIVE.
  unfoldable pub set_property : Message → W → Outcome W
  set_property m w = elim (boolean_arg m.args) [
    | some v ↦ replies (gs_listener_set_active h now v w).0 success
    | none ↦ replies w type_mismatch
  ]

  unfoldable pub show_message : Message → W → Outcome W
  show_message m w =
      if (h.get w).active
      then elim (message_args m.args) [
        | none ↦ replies w syntax_error
        | some (summary, body, icon) ↦ replies (h.emit_show_message summary body icon w) success
      ]
      else replies w success

  unfoldable pub handle_session_message : Message → W → Outcome W
  handle_session_message m w =
      if is_method_call m gs_service "Lock"
      then send_success_reply m (h.emit_lock w)
      else if is_method_call m gs_service "Quit"
      then send_success_reply m (h.emit_quit w)
      else if is_method_call m gs_service "SetActive"
      then set_property m w
      else if is_method_call m gs_service "GetActive"
      then replies w (active (h.get w).active)
      else if is_method_call m gs_service "GetActiveTime"
      then replies w (seconds (active_time now (h.get w)))
      else if is_method_call m gs_service "ShowMessage"
      then show_message m w
      else if is_method_call m gs_service "SimulateUserActivity"
      then send_success_reply m (h.emit_simulate_user_activity w)
      else if is_method_call m "org.freedesktop.DBus.Introspectable" "Introspect"
      then replies w introspection
      else ignored w

  abbrev is_ours : Message → W → Bool
  is_ours m w = path_is_our_session (h.get w).have_systemd m.path (h.get w).session_id

  -- `session_is_active` is what sd_session_is_active says of our session.
  unfoldable pub handle_logind_message : (session_is_active : Bool) → Message → W → Outcome W
  handle_logind_message session_is_active m w =
      if is_signal m logind_session_interface "Unlock"
      then silent (if is_ours m w then (gs_listener_set_active h now false w).0 else w)
      else if is_signal m logind_session_interface "Lock"
      then silent (if is_ours m w then h.emit_lock w else w)
      else if is_signal m logind_interface "PrepareForSleep"
      then silent (elim (boolean_arg m.args) [
        | none ↦ w
        | some sleeping ↦ if sleeping then h.emit_config_lock w else w
      ])
      else if is_signal m properties_interface "PropertiesChanged"
      then silent (
          if is_ours m w && properties_changed_match "Active" m.args && session_is_active
          then h.emit_simulate_user_activity w
          else w)
      else ignored w

  unfoldable pub handle_console_kit_message : Message → W → Outcome W
  handle_console_kit_message m w =
      if is_signal m ck_session_interface "Unlock"
      then silent (if is_ours m w then (gs_listener_set_active h now false w).0 else w)
      else if is_signal m ck_session_interface "Lock"
      then silent (if is_ours m w then h.emit_lock w else w)
      else if is_signal m ck_session_interface "ActiveChanged"
      then silent (
          if is_ours m w
          then elim (boolean_arg m.args) [
            | none ↦ w
            | some new_active ↦ if new_active then h.emit_simulate_user_activity w else w
          ]
          else w)
      else ignored w

  unfoldable pub handle_system_message : (session_is_active : Bool) → Message → W → Outcome W
  handle_system_message session_is_active m w =
      if (h.get w).have_systemd
      then handle_logind_message session_is_active m w
      else handle_console_kit_message m w

  -- The filter of the session bus. A lost bus is tried again later; a lost name ends the program.
  unfoldable pub session_filter : Message → W → Outcome W × Next
  session_filter m w =
      if is_signal m "org.freedesktop.DBus.Local" "Disconnected" && path_is_local m.path
      then (silent (h.put (record (h.get w) { connection = missing }) w), reinit_dbus 10000)
      else if is_signal m "org.freedesktop.DBus" "NameLost"
      then elim (name_arg m.args) [
        | none ↦ (silent w, go_on)
        | some name ↦
            if str_eq name gs_service
            then (silent (h.put (record (h.get w) { connection = missing }) w), main_quit)
            else (silent w, go_on)
      ]
      else (handle_session_message m w, go_on)

  -- The filter of the system bus.
  unfoldable pub system_filter : (session_is_active : Bool) → Message → W → Outcome W × Next
  system_filter session_is_active m w =
      if is_signal m "org.freedesktop.DBus.Local" "Disconnected" && path_is_local m.path
      then (silent (h.put (record (h.get w) { system_connection = missing }) w), reinit_dbus 10000)
      else (handle_system_message session_is_active m w, go_on)

  -- The handler of the object's path, for what the filter of the session bus has left alone. That
  -- a lost connection is released does not show in the listener.
  unfoldable pub message_handler : Message → W → Outcome W
  message_handler m w =
      if is_method_call m "org.freedesktop.DBus" "AddMatch"
      then replies w success
      else if is_signal m "org.freedesktop.DBus.Local" "Disconnected" && path_is_local m.path
      then silent w
      else handle_session_message m w

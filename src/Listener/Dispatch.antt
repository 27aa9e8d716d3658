-- ===== src/Listener/Dispatch.antt =====
-- src/gs-listener-dbus.c: the two handlers that libdbus gives a message of the session bus.
use budgie_screensaver.Common.{ℕ, ◌≡◌, if◌then◌else◌, arith}
use budgie_screensaver.Listener.{Host}
use budgie_screensaver.Listener.Message.{Message, is_method_call}
use budgie_screensaver.Listener.Handler.{
  handled, not_yet_handled, success, replies, ignored, handle_session_message, session_filter,
  message_handler, send_success_reply, set_property, show_message,
}

module _ {W : Type 0} (h : Host W) (now : ℕ) (m : Message) (w : W) where
  set_property-handled : (set_property h now m w).result ≡ handled
  unfolding set_property
  set_property-handled = ground arith

  show_message-handled : (show_message h now m w).result ≡ handled
  unfolding show_message
  show_message-handled = ground arith

  success-handled : (v : W) → (send_success_reply m v).result ≡ handled
  unfolding send_success_reply
  success-handled v = ground arith

  session-ignored :
      (handle_session_message h now m w).result ≡ not_yet_handled
      → handle_session_message h now m w ≡ ignored w
  unfolding handle_session_message
  session-ignored e =
      let a = set_property-handled in
      let b = show_message-handled in
      let c = success-handled (h.emit_lock w) in
      let d = success-handled (h.emit_quit w) in
      let f = success-handled (h.emit_simulate_user_activity w) in ground arith

  -- A message of the session bus is dealt with once: what the filter leaves alone has changed
  -- nothing yet, and the handler of the object's path gives it no second effect. It answers the
  -- call AddMatch, and leaves the rest alone too.
  pub session_filter-message_handler :
      (session_filter h now m w).0.result ≡ not_yet_handled
      → ((session_filter h now m w).0 ≡ ignored w)
        × (message_handler h now m w ≡ (
            if is_method_call m "org.freedesktop.DBus" "AddMatch"
            then replies w success
            else ignored w))
  unfolding session_filter message_handler
  session_filter-message_handler e = let s = session-ignored in (ground arith, ground arith)

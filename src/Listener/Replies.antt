-- ===== src/Listener/Replies.antt =====
-- src/gs-listener-dbus.c: what a message can do, and which reply it gets.
use budgie_screensaver.Common.{ℕ, ◌≡◌, ◌⊎◌, Bool, true, false, none, some, arith}
use budgie_screensaver.Listener.{Host}
use budgie_screensaver.Listener.Message.{Message, logind_interface, is_signal, path_is_our_session}
use budgie_screensaver.Listener.Handler.{
  handled, not_yet_handled, syntax_error, type_mismatch, send_success_reply, set_property,
  show_message, handle_session_message, handle_logind_message, handle_console_kit_message,
  handle_system_message,
}

module _ {W : Type 0} (h : Host W) (now : ℕ) (m : Message) (w : W) where
  -- A message of the session bus that is not handled gets no reply and changes nothing. One that
  -- is handled gets a reply unless it asked for none. One that gets an error changes nothing.
  pub handle_session_message-reply :
      let o = handle_session_message h now m w in
      (o.result ≡ not_yet_handled → (o.world ≡ w) × (o.reply ≡ none))
      × (o.result ≡ handled → o.reply ≡ none → m.no_reply ≡ true)
      × ((o.reply ≡ some syntax_error) ⊎ (o.reply ≡ some type_mismatch) → o.world ≡ w)
  unfolding handle_session_message send_success_reply set_property show_message
  handle_session_message-reply = (ground arith, ground arith, ground arith)

  -- A message of the system bus that is not about our session changes nothing, except for the
  -- notice that the system is about to sleep. No message of the system bus gets a reply.
  pub handle_system_message-foreign :
      (session_is_active : Bool)
      → let o = handle_system_message h now session_is_active m w in
        (path_is_our_session (h.get w).have_systemd m.path (h.get w).session_id ≡ false
          → is_signal m logind_interface "PrepareForSleep" ≡ false
          → o.world ≡ w)
        × (o.reply ≡ none)
  unfolding handle_system_message handle_logind_message handle_console_kit_message
  handle_system_message-foreign session_is_active = (ground arith, ground arith)

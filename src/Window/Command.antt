-- ===== src/Window/Command.antt =====
-- src/gs-window-x11.c: the command line of the unlock dialog, as the text that popup_dialog builds.
--
-- GLib's shell functions are a parameter, with the rules that their documentation gives.
use budgie_screensaver.Common.{
  ℕ, ◌*◌, Bool, true, false, not, Option, none, some, is_some, String, List, ltb, if◌then◌else◌,
  append,
}
use budgie_screensaver.Window.{Window}

-- g_shell_quote and g_shell_parse_argv.
pub record Shell : Type 0 where
  pub quote : String → String
  pub parse_argv : String → Option (List String)

-- `elapsed` is the timer's time since the window was shown, in microseconds.
unfoldable pub is_logout_enabled : (elapsed : ℕ) → Window → Bool
is_logout_enabled elapsed w =
    if not w.logout_enabled
    then false
    else if not (is_some w.logout_command)
    then false
    else ltb (1000 * w.logout_timeout) elapsed

-- The command stands between single quotes as it is. With no command there is no logout.
abbrev pub append_logout : (logout : Bool) → Option String → String → String
append_logout false command line = line
append_logout true none line = append line " --enable-logout"
append_logout true (some command) line =
    append (append line " --enable-logout") (append " --logout-command='" (append command "'"))

abbrev pub append_message : Shell → Option String → String → String
append_message shell none line = line
append_message shell (some message) line =
    append line (append " --status-message=" (shell.quote message))

-- `program` is the path of the dialog, and `debug` is gs_debug_enabled.
unfoldable pub dialog_command :
    Shell → (program : String) (elapsed : ℕ) (debug : Bool) → Window → String
unfolding is_logout_enabled
dialog_command shell program elapsed debug w =
    let line = append_logout (is_logout_enabled elapsed w) w.logout_command program in
    let line = append_message shell w.status_message line in
    let line = if w.user_switch_enabled then append line " --enable-switch" else line in
    if debug then append line " --verbose" else line

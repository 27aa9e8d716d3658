-- ===== src/Dialog/Init.antt =====
-- src/gnome-screensaver-dialog.c: what the process does before its main loop runs.
use budgie_screensaver.Common.{
  String, is_some, Bool, true, false, not, ◌||◌, Option, none, some, List, [], if◌then◌else◌,
}
use budgie_screensaver.Privileges.{Ids, Kernel, hack_uid}
use budgie_screensaver.LockPlug.{
  Plug, gs_lock_plug_init, gs_lock_plug_set_logout_enabled, gs_lock_plug_set_logout_command,
  gs_lock_plug_set_switch_enabled, gs_lock_plug_set_status_message,
}
use budgie_screensaver.Dialog.{Prompt, Ui, Process, print}
use budgie_screensaver.Window.{response, ok}

-- NO_LOCKING, __APPLE__, the variable RUNNING_UNDER_GDM, what gtk_init_with_args returns, the
-- options, and what the plug's buttons and its warning depend on.
pub record Start : Type 0 where
  pub kernel : Kernel
  pub ids : Ids
  pub no_locking : Bool
  pub apple : Bool
  pub running_under_gdm : Bool
  pub gtk_init : Bool
  pub show_version : Bool
  pub enable_logout : Bool
  pub logout_command : Option String
  pub enable_switch : Bool
  pub status_message : Option String
  pub flexiserver_found : Bool
  pub xdg_seat_path : Bool
  pub caps_lock_state : Bool

pub data LockReason : Type 0 where
  not_compiled under_gdm macos : LockReason

unfoldable pub privileged_initialization : Start → Bool
unfolding hack_uid
privileged_initialization s = (hack_uid s.kernel s.ids).0

-- `none` for TRUE, and otherwise the reason; gs_auth_init returns TRUE.
unfoldable pub lock_initialization : Start → Option LockReason
lock_initialization s =
    if s.no_locking
    then some not_compiled
    else if s.running_under_gdm
    then some under_gdm
    else if s.apple
    then some macos
    else none

-- By popup_dialog_idle.
unfoldable pub popup_plug : Start → Plug
popup_plug s =
    let plug = gs_lock_plug_init (record { last_id = 0; attached = []; not_found = 0 }) in
    let plug = (if s.enable_logout then gs_lock_plug_set_logout_enabled true plug else plug) in
    let plug =
      (if is_some s.logout_command
        then gs_lock_plug_set_logout_command s.logout_command plug
        else plug) in
    let plug =
      (if s.enable_switch
        then gs_lock_plug_set_switch_enabled s.flexiserver_found s.xdg_seat_path true plug
        else plug) in
    if is_some s.status_message then gs_lock_plug_set_status_message s.status_message plug else plug

abbrev pub ui : Start → List Prompt → Ui
ui s prompts = record {
  prompts = prompts;
  output = [];
  main_quit = false;
  visible = false;
  caps_lock_state = s.caps_lock_state;
  plug = popup_plug s;
}

abbrev pub idle : Ui → Process
idle ui = record {
  loop_counter = 0;
  auth_check = true;
  quit_ok_idle = false;
  request_quit_idle = false;
  quit_timeout = false;
  reset_timeouts = 0;
  pam = record {
    did_we_ask_for_password = false;
    handle = false;
    started = 0;
    ended = 0;
    cleared = false;
    gui = ui;
  };
  running = true;
}

-- exit (1)
abbrev pub exited : Ui → Process
exited ui = record (idle ui) { auth_check = false; running = false }

-- The process when popup_dialog_idle has run, or as it exits.
unfoldable pub main : Start → List Prompt → Process
unfolding privileged_initialization lock_initialization print
main s prompts =
    if not (privileged_initialization s)
    then exited (print (response ok) (ui s prompts))
    else if not s.gtk_init || s.show_version
    then exited (ui s prompts)
    else elim (lock_initialization s) [
      | some reason ↦ exited (print (response ok) (ui s prompts))
      | none ↦ idle (ui s prompts)
    ]

-- ===== src/Dialog/Tests.antt =====
-- src/gnome-screensaver-dialog.c: the theorems for a user who gives the password, and one who does
-- not.
use budgie_screensaver.Common.{
  ℕ, suc, ◌≤◌, ◌<◌, ◌≡◌, ◌⊎◌, refl, true, false, none, some, Option, List, [], ◌∷◌, ◌++◌, arith,
}
use budgie_screensaver.Window.{eof, lock_command_watch, finish_dialog}
use budgie_screensaver.Window.Tests.{locked}
use budgie_screensaver.Privileges.{hack_uid}
use budgie_screensaver.Privileges.Tests.{kernel, setuid_root}
use budgie_screensaver.Auth.{
  Attempt, Pam, Stack, finish, converse, auth_err, success, returned, gs_auth_verify_user,
  create_pam_handle, pam_style_to_gs_style, set_pam_error, close_pam_handle,
}
use budgie_screensaver.Auth
use budgie_screensaver.Auth.Utf8.{to_utf8}
use budgie_screensaver.Auth.Success.{Authenticates, gs_auth_verify_user_iff}
use budgie_screensaver.Auth.Tests.{ascii, attempt, passwords}
use budgie_screensaver.LockPlug.{
  gs_lock_plug_show, gs_lock_plug_set_switch_enabled, gs_lock_plug_set_sensitive,
  gs_lock_plug_enable_prompt, gs_lock_plug_get_text, gs_lock_plug_disable_prompt, get_kbd_lock_mode,
}
use budgie_screensaver.LockPlug.Sources.{remove_source, add_source}
use budgie_screensaver.LockPlug.Run.{key, unlock_clicked, handle, gs_lock_plug_run}
use budgie_screensaver.Dialog.{
  disable_prompt, Prompt, show, request_response, Event, check, run_quit_ok, run_quit_timeout,
  handler, run, dispatch, auth_message_handler, quit_response_ok,
}
use budgie_screensaver.Dialog.Init.{popup_plug, Start, main, idle, ui}
use budgie_screensaver.Dialog.Failures.{verifications, main-verifications, main-Attached}
use budgie_screensaver.Dialog.Safety.{HasAuthenticated}
use budgie_screensaver.Dialog.Locked.{
  CannotLock, watch_all, deactivation-Authenticated, check-deactivation,
}
use budgie_screensaver.Dialog.Messages.{HeedsErrors, OnlyPrompts, Authenticates-OnlyPrompts}
use budgie_screensaver.Window.{Window}
use budgie_screensaver.Window.Command.{is_logout_enabled}

abbrev by_user : Start
by_user = record {
  kernel = kernel;
  ids = setuid_root;
  no_locking = false;
  apple = false;
  running_under_gdm = false;
  gtk_init = true;
  show_version = false;
  enable_logout = false;
  logout_command = none;
  enable_switch = true;
  status_message = none;
  flexiserver_found = true;
  xdg_seat_path = false;
  caps_lock_state = false;
}

abbrev prompts : List Prompt
prompts = record { forwarded = []; events = key (97 ∷ []) (97 ∷ []) ∷ unlock_clicked ∷ [] } ∷ []

abbrev unlocking : List Event
unlocking = check attempt ∷ run_quit_ok ∷ []

-- The module refuses.
abbrev refusal : Attempt
refusal = record attempt { pam_authenticate = finish auth_err }

abbrev refusals : List Event
refusals =
    check refusal
    ∷ check refusal
    ∷ check refusal
    ∷ check refusal
    ∷ check refusal
    ∷ check refusal
    ∷ []

main-verifications_example : verifications ascii refusals (main by_user prompts) ≤ 5
main-verifications_example = main-verifications ascii by_user prompts refusals

by_user-main : main by_user prompts ≡ idle (ui by_user prompts)
unfolding main hack_uid
by_user-main = refl

by_user-runs : (run ascii [] (main by_user prompts)).running ≡ true
unfolding main hack_uid run
by_user-runs = refl

by_user-check : (run ascii [] (main by_user prompts)).auth_check ≡ true
unfolding main hack_uid run
by_user-check = refl

main-Attached_example :
    let p = run ascii [] (main by_user prompts) in
    ((p.auth_check ≡ true) × (p.loop_counter < 5))
    ⊎ ((p.quit_ok_idle ≡ true) × ((dispatch ascii run_quit_ok p).running ≡ false))
    ⊎ ((p.quit_timeout ≡ true) × ((dispatch ascii run_quit_timeout p).running ≡ false))
main-Attached_example = main-Attached ascii by_user prompts [] by_user-runs

unlocked :
    (watch_all
      ((run ascii unlocking (main by_user prompts)).pam.gui.output ++ eof ∷ [])
      locked).deactivated_idles
    ≡ 1
unfolding main hack_uid run dispatch gs_auth_verify_user to_utf8 pam_style_to_gs_style
    auth_message_handler set_pam_error close_pam_handle show request_response gs_lock_plug_run
    gs_lock_plug_show handle remove_source add_source gs_lock_plug_set_switch_enabled popup_plug
    gs_lock_plug_set_sensitive gs_lock_plug_enable_prompt gs_lock_plug_get_text
    gs_lock_plug_disable_prompt get_kbd_lock_mode quit_response_ok watch_all lock_command_watch
    finish_dialog Auth.auth_message_handler
unlocked = refl

deactivation-Authenticated_example :
    CannotLock by_user ⊎ HasAuthenticated ascii unlocking (main by_user prompts)
deactivation-Authenticated_example =
    deactivation-Authenticated ascii by_user prompts unlocking locked refl
      (λ e. ground (arith, e, unlocked))

user-Authenticates :
    Authenticates ascii
      (handler ascii)
      attempt
      (disable_prompt (run ascii [] (main by_user prompts)).pam)
unfolding main hack_uid run dispatch gs_auth_verify_user to_utf8 pam_style_to_gs_style
    auth_message_handler set_pam_error close_pam_handle show request_response gs_lock_plug_run
    gs_lock_plug_show handle remove_source add_source gs_lock_plug_set_switch_enabled popup_plug
    gs_lock_plug_set_sensitive gs_lock_plug_enable_prompt gs_lock_plug_get_text
    gs_lock_plug_disable_prompt get_kbd_lock_mode Auth.auth_message_handler
user-Authenticates =
    (gs_auth_verify_user_iff ascii (handler ascii) attempt
        (disable_prompt (idle (ui by_user prompts)).pam)).0
      (none, _, refl)

check-deactivation_example :
    let p = run ascii unlocking (run ascii [] (main by_user prompts)) in
    (p.running ≡ false)
    × ((watch_all p.pam.gui.output locked).deactivated_idles ≡ suc locked.deactivated_idles)
check-deactivation_example =
    check-deactivation ascii by_user prompts [] attempt locked by_user-runs by_user-check
      user-Authenticates

after-HeedsErrors :
    (reply : Option (List (Option (List ℕ))))
    → HeedsErrors (elim reply [ none ↦ finish auth_err | some rs ↦ finish success ])
after-HeedsErrors none = tt
after-HeedsErrors (some rs) = tt

passwords-HeedsErrors : HeedsErrors passwords
passwords-HeedsErrors = ((λ e. cc), λ reply. after-HeedsErrors reply)

Authenticates-OnlyPrompts_example :
    let c = disable_prompt (run ascii [] (main by_user prompts)).pam in
    OnlyPrompts ascii passwords
      (record (create_pam_handle attempt c).0 { did_we_ask_for_password = false })
Authenticates-OnlyPrompts_example =
    Authenticates-OnlyPrompts ascii attempt
      (disable_prompt (run ascii [] (main by_user prompts)).pam) passwords-HeedsErrors
      user-Authenticates

-- A window that lets the user switch and log out, with a message, shown two seconds ago.
abbrev switching : Window
switching = record locked {
  user_switch_enabled = true;
  logout_enabled = true;
  logout_timeout = 1000;
  logout_command = some "budgie-session-quit --logout";
  status_message = some "It's locked";
}

-- The dialog that is started so.
abbrev by_window : Start
by_window = record by_user {
  enable_logout = true;
  logout_command = some "budgie-session-quit --logout";
  status_message = some "It's locked";
}

switching-logout : is_logout_enabled 2000000 switching ≡ true
unfolding is_logout_enabled
switching-logout = refl

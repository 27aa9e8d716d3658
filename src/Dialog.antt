-- ===== src/Dialog.antt =====
-- src/gnome-screensaver-dialog.c: the process that asks for the password. Its main loop is given
-- as the callbacks that it dispatches, in any order; what happens in each of its prompts is given.
pub mod Init
mod Options
mod Printed
mod Orderly
mod Safety
mod Messages
mod Failures
mod Locked
pub mod Tests
use budgie_screensaver.Common.{
  ◌-◌, ℕ, suc, Bool, true, false, not, ◌&&◌, ◌||◌, Option, none, some, List, [], ◌∷◌, ◌++◌, ltb,
  if◌then◌else◌, is_some,
}
use budgie_screensaver.Window.{
  Output, Response, window_id, response, auth_failed, request_quit, cancel, ok,
}
use budgie_screensaver.Auth.{
  Style, Pam, Handler, Attempt, Verdict, prompt_echo_on, prompt_echo_off, error_msg, text_info,
  returned, sigterm, abort, gs_auth_verify_user,
}
use budgie_screensaver.Auth.Utf8.{Glib}
use budgie_screensaver.LockPlug.{
  Plug, other_response, gs_lock_plug_show, gs_lock_plug_set_sensitive, gs_lock_plug_enable_prompt,
  gs_lock_plug_disable_prompt, gs_lock_plug_get_text,
}
use budgie_screensaver.LockPlug
use budgie_screensaver.LockPlug.Run.{PlugEvent, RunInfo, gs_lock_plug_run}

-- What happens in one prompt: what the entry holds after the key events that are forwarded to it,
-- if there are any, and the events after that.
pub record Prompt : Type 0 where
  pub forwarded : List ℕ
  pub events : List PlugEvent

-- The prompts to come, the lines printed so far, whether gtk_main_quit was called, whether the plug
-- is visible, the keymap's state when it is shown, and the plug.
pub record Ui : Type 0 where
  pub prompts : List Prompt
  pub output : List Output
  pub main_quit : Bool
  pub visible : Bool
  pub caps_lock_state : Bool
  pub plug : Plug

unfoldable pub print : Output → Ui → Ui
print line ui = record ui { output = ui.output ++ line ∷ [] }

unfoldable pub gtk_main_quit : Ui → Ui
gtk_main_quit ui = record ui { main_quit = true }

unfoldable pub quit_response_ok : Ui → Ui
unfolding print gtk_main_quit
quit_response_ok ui = gtk_main_quit (print (response ok) ui)

-- By response_cb, on GS_LOCK_PLUG_RESPONSE_CANCEL.
unfoldable pub quit_response_cancel : Ui → Ui
unfolding print gtk_main_quit
quit_response_cancel ui = gtk_main_quit (print (response cancel) ui)

-- gtk_widget_show, with show_cb: the id is printed when the plug is first shown.
unfoldable pub show : Ui → Ui
unfolding print
show ui =
    if ui.visible
    then ui
    else print window_id
        (record ui { visible = true; plug = gs_lock_plug_show ui.caps_lock_state ui.plug })

-- The plug with its prompt enabled, and the keys forwarded that were pressed before.
unfoldable pub open_prompt : (visible : Bool) (forwarded : List ℕ) → Plug → Plug
open_prompt visible forwarded plug =
    let (plug, events) =
      gs_lock_plug_enable_prompt visible (gs_lock_plug_set_sensitive true plug) in
    elim events [ [] ↦ plug | e ∷ es ↦ record plug { entry_text = forwarded } ]

-- The text, after the run of the plug; response_cb quits the main loop on a cancel.
unfoldable pub close_prompt : Glib → RunInfo → Ui → Ui × Option (List ℕ)
unfolding quit_response_cancel
close_prompt glib (some LockPlug.ok) ui =
    let (plug, text) = gs_lock_plug_get_text glib.g_locale_from_utf8 ui.plug in
    (record ui { plug = gs_lock_plug_disable_prompt plug }, text)
close_prompt glib (some LockPlug.cancel) ui =
    (quit_response_cancel (record ui { plug = gs_lock_plug_disable_prompt ui.plug }), none)
close_prompt glib (some (other_response n)) ui =
    (record ui { plug = gs_lock_plug_disable_prompt ui.plug }, none)
close_prompt glib none ui = (record ui { plug = gs_lock_plug_disable_prompt ui.plug }, none)

-- With the next prompt; after the last, the window is unmapped.
unfoldable pub answer_prompt : Glib → (visible : Bool) → List Prompt → Ui → Ui × Option (List ℕ)
unfolding open_prompt close_prompt
answer_prompt glib visible [] ui =
    close_prompt glib none (record ui { plug = open_prompt visible [] ui.plug })
answer_prompt glib visible (prompt ∷ rest) ui =
    let (plug, info) =
      gs_lock_plug_run prompt.events (open_prompt visible prompt.forwarded ui.plug) in
    close_prompt glib info (record ui { prompts = rest; plug = plug })

unfoldable pub request_response : Glib → (visible : Bool) → Ui → Ui × Option (List ℕ)
unfolding answer_prompt
request_response glib visible ui = answer_prompt glib visible ui.prompts ui

-- The handler's reply, before it is looked at.
unfoldable pub reply_to : Glib → Style → Ui → Ui × Option (List ℕ)
unfolding request_response
reply_to glib prompt_echo_on ui = request_response glib true ui
reply_to glib prompt_echo_off ui = request_response glib false ui
reply_to glib error_msg ui = (ui, none)
reply_to glib text_info ui = (ui, none)

-- What it returns, and the reply.
unfoldable pub auth_message_handler : Glib → Ui → Style → List ℕ → Ui × Bool × Option (List ℕ)
unfolding reply_to show
auth_message_handler glib ui style msg =
    let (ui', reply) = reply_to glib style (show ui) in
    if is_some reply
    then (record ui' { plug = gs_lock_plug_set_sensitive false ui'.plug }, true, reply)
    else (ui', false, reply)

abbrev pub handler : Glib → Handler Ui
handler glib = record { cb_func = auth_message_handler glib; has_quit = λ ui. ui.main_quit }

-- The process: `loop_counter`, the sources that are attached, what PAM and the user interface
-- are at, and whether the main loop runs. It does not after gtk_main_quit, SIGTERM or an abort.
pub record Process : Type 0 where
  pub loop_counter : ℕ
  pub auth_check : Bool
  pub quit_ok_idle : Bool
  pub request_quit_idle : Bool
  pub quit_timeout : Bool
  pub reset_timeouts : ℕ
  pub pam : Pam Ui
  pub running : Bool

-- MAX_FAILURES
abbrev pub max_failures : ℕ
max_failures = 5

abbrev pub disable_prompt : Pam Ui → Pam Ui
disable_prompt c = record c { gui = record c.gui { plug = gs_lock_plug_disable_prompt c.gui.plug } }

-- The prompt is disabled first; a notice is printed when the verification returns FALSE.
unfoldable pub do_auth_check : Glib → Attempt → Pam Ui → Verdict Ui
unfolding print
do_auth_check glib a c = elim (gs_auth_verify_user glib (handler glib) a (disable_prompt c)) [
  | returned true e c' ↦ returned true e c'
  | returned false e c' ↦ returned false e (record c' { gui = print auth_failed c'.gui })
  | sigterm ui ↦ sigterm ui
  | abort ↦ abort
]

-- After the check: what the source returns is `auth_check`.
unfoldable pub count_failure : Pam Ui → Process → Process
count_failure c p =
    let failures = suc p.loop_counter in
    if ltb failures max_failures
    then record p { loop_counter = failures; reset_timeouts = suc p.reset_timeouts; pam = c }
    else record p {
      loop_counter = failures;
      auth_check = false;
      request_quit_idle = true;
      quit_timeout = true;
      pam = c;
    }

-- SIGTERM comes after a response that quit the main loop: during a prompt, or between the
-- messages, where it is printed here.
unfoldable pub auth_check_idle : Glib → Attempt → Process → Process
unfolding do_auth_check count_failure quit_response_cancel
auth_check_idle glib a p = elim (do_auth_check glib a p.pam) [
  | returned true e c ↦ record p { auth_check = false; quit_ok_idle = true; pam = c }
  | returned false e c ↦ count_failure c p
  | sigterm ui ↦ record p {
    pam = record p.pam { gui = if ui.main_quit then ui else quit_response_cancel ui };
    running = false;
  }
  | abort ↦ record p { running = false }
]

-- What the main loop dispatches. `dismiss` is a response of the lock plug while nothing is
-- verified.
pub data Event : Type 0 where
  check : Attempt → Event
  run_quit_ok run_request_quit run_quit_timeout run_reset dismiss : Event

abbrev on_ui : (Ui → Ui) → Process → Process
on_ui f p = record p { pam = record p.pam { gui = f p.pam.gui } }

unfoldable pub response_request_quit : Process → Process
unfolding print
response_request_quit p = record p {
  request_quit_idle = false;
  pam = record p.pam { gui = print request_quit p.pam.gui };
}

unfoldable pub reset_idle_cb : Process → Process
reset_idle_cb p = record p {
  reset_timeouts = p.reset_timeouts - 1;
  pam = record p.pam {
    gui = record p.pam.gui { plug = gs_lock_plug_set_sensitive true p.pam.gui.plug };
  };
}

-- A callback, if its source is attached.
unfoldable pub dispatch_attached : Glib → Event → Process → Process
unfolding auth_check_idle quit_response_ok quit_response_cancel response_request_quit reset_idle_cb
    gtk_main_quit
dispatch_attached glib (check a) p = if p.auth_check then auth_check_idle glib a p else p
dispatch_attached glib run_quit_ok p =
    if p.quit_ok_idle
    then record p {
      quit_ok_idle = false;
      running = false;
      pam = record p.pam { gui = quit_response_ok p.pam.gui };
    }
    else p
dispatch_attached glib run_request_quit p =
    if p.request_quit_idle then response_request_quit p else p
dispatch_attached glib run_quit_timeout p =
    if p.quit_timeout
    then record p {
      quit_timeout = false;
      running = false;
      pam = record p.pam { gui = gtk_main_quit p.pam.gui };
    }
    else p
dispatch_attached glib run_reset p = if ltb 0 p.reset_timeouts then reset_idle_cb p else p
dispatch_attached glib dismiss p = record p {
  running = false;
  pam = record p.pam { gui = quit_response_cancel p.pam.gui };
}

unfoldable pub dispatch : Glib → Event → Process → Process
unfolding dispatch_attached
dispatch glib e p = if p.running then dispatch_attached glib e p else p

unfoldable pub run : Glib → List Event → Process → Process
run glib [] p = p
run glib (e ∷ es) p = run glib es (dispatch glib e p)

-- ===== src/LockPlug.antt =====
-- src/gs-lock-plug.c: the window of the unlock dialog. GTK's widgets are the properties of them that
-- the code sets and that decide what the user can do.
pub mod Sources
pub mod Run
mod Prompt
mod Keys
mod Pixels
pub mod InputSources
pub mod Labels
pub mod Tests
use budgie_screensaver.Common.{
  ℕ, suc, ◌<◌, Bool, true, false, not, ◌&&◌, ◌||◌, Option, none, some, List, [], ◌∷◌, ◌==◌, ltb,
  String, same, if◌then◌else◌, is_some,
}
use budgie_screensaver.LockPlug.Sources.{MainLoop, add_source, remove_source}
use mathlib.Core.List.{reverse}

-- GS_LOCK_PLUG_RESPONSE_OK, GS_LOCK_PLUG_RESPONSE_CANCEL, and any other id.
pub data Response : Type 0 where
  ok cancel : Response
  other_response : ℕ → Response

-- A key event: its string. `key_events` has the last one first. The entry can be typed into while it
-- and its parents are sensitive; the unlock button stands in the action area.
pub record Plug : Type 0 where
  pub entry_text : List ℕ
  pub entry_visible : Bool
  pub entry_sensitive : Bool
  pub unlock_sensitive : Bool
  pub action_area_sensitive : Bool
  pub key_events : List (List ℕ)
  pub kbd_lock_mode : ℕ
  pub caps_lock_warning : Bool
  pub switch_enabled : Bool
  pub switch_shown : Bool
  pub logout_enabled : Bool
  pub logout_shown : Bool
  pub logout_command : Option String
  pub status_message : Option String
  pub timeout : ℕ
  pub cancel_timeout_id : ℕ
  pub response_idle_id : ℕ
  pub main_loop : MainLoop

unfoldable pub gs_lock_plug_set_sensitive : Bool → Plug → Plug
gs_lock_plug_set_sensitive s p = record p { entry_sensitive = s; action_area_sensitive = s }

unfoldable pub remove_cancel_timeout : Plug → Plug
remove_cancel_timeout p =
    if ltb 0 p.cancel_timeout_id
    then record p {
      cancel_timeout_id = 0;
      main_loop = remove_source p.cancel_timeout_id p.main_loop;
    }
    else p

unfoldable pub remove_response_idle : Plug → Plug
remove_response_idle p =
    if ltb 0 p.response_idle_id
    then record p { response_idle_id = 0; main_loop = remove_source p.response_idle_id p.main_loop }
    else p

-- The id of the response that is emitted, if one is.
unfoldable pub gs_lock_plug_response : Response → Plug → Plug × Option Response
unfolding remove_cancel_timeout remove_response_idle
gs_lock_plug_response ok p = (remove_response_idle (remove_cancel_timeout p), some ok)
gs_lock_plug_response cancel p =
    (record (remove_response_idle (remove_cancel_timeout p)) { entry_text = [] }, some cancel)
gs_lock_plug_response (other_response n) p = (p, none)

unfoldable pub response_cancel_idle_cb : Plug → Plug × Option Response
unfolding gs_lock_plug_response
response_cancel_idle_cb p = gs_lock_plug_response cancel (record p { response_idle_id = 0 })

-- g_timeout_add_seconds (2, ...)
unfoldable pub add_response_idle : Plug → Plug
add_response_idle p =
    let (main_loop, id) = add_source p.main_loop in
    record p { response_idle_id = id; main_loop = main_loop }

unfoldable pub dialog_timed_out : Plug → Plug
unfolding gs_lock_plug_set_sensitive remove_response_idle add_response_idle
dialog_timed_out p = add_response_idle (remove_response_idle (gs_lock_plug_set_sensitive false p))

-- The lock mode is 1 with LOCK_CAPS, else 0.
unfoldable pub kbd_lock_mode_update : (mode : ℕ) → Plug → Plug
kbd_lock_mode_update mode p =
    if p.kbd_lock_mode == mode
    then p
    else record p { kbd_lock_mode = mode; caps_lock_warning = not (mode == 0) }

unfoldable pub get_kbd_lock_mode : (caps_lock_state : Bool) → ℕ
get_kbd_lock_mode caps = if caps then 1 else 0

unfoldable pub restart_cancel_timeout : Plug → Plug
unfolding remove_cancel_timeout
restart_cancel_timeout p =
    let p = remove_cancel_timeout p in
    let (main_loop, id) = add_source p.main_loop in
    record p { cancel_timeout_id = id; main_loop = main_loop }

-- g_locale_from_utf8 is a parameter; the entry is overwritten and emptied.
unfoldable pub gs_lock_plug_get_text :
    (g_locale_from_utf8 : List ℕ → Option (List ℕ)) → Plug → Plug × Option (List ℕ)
gs_lock_plug_get_text convert p = (record p { entry_text = [] }, convert p.entry_text)

unfoldable pub queue_key_event : List ℕ → Plug → Plug
queue_key_event event p = record p { key_events = event ∷ p.key_events }

-- The events that the window gets, in this order.
unfoldable pub forward_key_events : Plug → Plug × List (List ℕ)
forward_key_events p = (record p { key_events = [] }, reverse p.key_events)

-- The key events that are forwarded come second.
unfoldable pub gs_lock_plug_enable_prompt : (visible : Bool) → Plug → Plug × List (List ℕ)
unfolding forward_key_events restart_cancel_timeout
gs_lock_plug_enable_prompt visible p =
    let (p, events) =
      forward_key_events
        (record p { unlock_sensitive = true; entry_visible = visible; entry_sensitive = true }) in
    (restart_cancel_timeout p, events)

unfoldable pub gs_lock_plug_disable_prompt : Plug → Plug
gs_lock_plug_disable_prompt p = record p { unlock_sensitive = false; entry_sensitive = false }

-- Whether the event is handled here; if not, it goes on to the entry.
unfoldable pub entry_key_press : List ℕ → Plug → Plug × Bool
unfolding restart_cancel_timeout queue_key_event
entry_key_press event p =
    let p = restart_cancel_timeout p in
    if p.entry_sensitive
    then (p, false)
    else elim event [ [] ↦ (p, false) | c ∷ cs ↦ (queue_key_event (c ∷ cs) p, true) ]

unfoldable pub unlock_button_clicked : Plug → Plug × Option Response
unfolding gs_lock_plug_response
unlock_button_clicked p = gs_lock_plug_response ok p

unfoldable pub switch_user_button_clicked : Plug → Plug
unfolding remove_response_idle gs_lock_plug_set_sensitive add_response_idle
switch_user_button_clicked p =
    add_response_idle (gs_lock_plug_set_sensitive false (remove_response_idle p))

unfoldable pub delete_handler : Plug → Plug × Option Response
unfolding gs_lock_plug_response
delete_handler p = gs_lock_plug_response cancel p

-- When the plug is shown.
unfoldable pub gs_lock_plug_show : (caps_lock_state : Bool) → Plug → Plug
unfolding kbd_lock_mode_update restart_cancel_timeout
gs_lock_plug_show caps p = restart_cancel_timeout (kbd_lock_mode_update (get_kbd_lock_mode caps) p)

unfoldable pub gs_lock_plug_set_logout_enabled : Bool → Plug → Plug
gs_lock_plug_set_logout_enabled b p =
    if same p.logout_enabled b then p else record p { logout_enabled = b; logout_shown = b }

unfoldable pub gs_lock_plug_set_logout_command : Option String → Plug → Plug
gs_lock_plug_set_logout_command command p = record p { logout_command = command }

unfoldable pub gs_lock_plug_set_status_message : Option String → Plug → Plug
gs_lock_plug_set_status_message message p = record p { status_message = message }

-- `found`: the command is in the path; `seat`: XDG_SEAT_PATH is set.
unfoldable pub gs_lock_plug_set_switch_enabled : (found seat : Bool) → Bool → Plug → Plug
gs_lock_plug_set_switch_enabled found seat b p =
    if same p.switch_enabled b
    then p
    else record p { switch_enabled = b; switch_shown = b && (found || seat) }

-- DIALOG_TIMEOUT_MSEC; clear_clipboards has no effect here.
abbrev pub gs_lock_plug_init : MainLoop → Plug
gs_lock_plug_init main_loop = record {
  entry_text = [];
  entry_visible = false;
  entry_sensitive = true;
  unlock_sensitive = true;
  action_area_sensitive = true;
  key_events = [];
  kbd_lock_mode = 0;
  caps_lock_warning = false;
  switch_enabled = false;
  switch_shown = false;
  logout_enabled = false;
  logout_shown = false;
  logout_command = none;
  status_message = none;
  timeout = 60000;
  cancel_timeout_id = 0;
  response_idle_id = 0;
  main_loop = main_loop;
}

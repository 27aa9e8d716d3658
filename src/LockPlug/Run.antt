-- ===== src/LockPlug/Run.antt =====
-- src/gs-lock-plug.c: gs_lock_plug_run, with what its main loop dispatches until it is quit.
use budgie_screensaver.Common.{ℕ, Bool, ◌&&◌, Option, none, some, List, [], ◌∷◌, if◌then◌else◌}
use budgie_screensaver.LockPlug.{
  Plug, Response, unlock_button_clicked, switch_user_button_clicked, delete_handler,
  dialog_timed_out, response_cancel_idle_cb, entry_key_press, kbd_lock_mode_update,
  get_kbd_lock_mode,
}
use budgie_screensaver.LockPlug.Sources.{finish_source, mem}

-- A key event, with the text of the entry after the entry has handled it; the buttons; the window
-- is deleted or unmapped; the timeouts; the keymap's state.
pub data PlugEvent : Type 0 where
  key : (string : List ℕ) (text : List ℕ) → PlugEvent
  unlock_clicked switch_clicked deleted unmapped cancel_timeout response_idle : PlugEvent
  state_changed : (caps_lock_state : Bool) → PlugEvent

-- RunInfo, when the loop is quit: `none` is GTK_RESPONSE_NONE.
abbrev pub RunInfo : Type 0
RunInfo = Option Response

-- The response that a signal carries quits the loop with it.
abbrev quit_with : Plug × Option Response → Plug × Option RunInfo
quit_with (p, none) = (p, none)
quit_with (p, some r) = (p, some (some r))

-- One event: a button that is not sensitive or not shown is not clicked, and a source that is not
-- attached does not fire. If the loop is quit, its result comes second.
unfoldable pub handle : PlugEvent → Plug → Plug × Option RunInfo
unfolding entry_key_press unlock_button_clicked switch_user_button_clicked delete_handler
    dialog_timed_out response_cancel_idle_cb
handle (key string text) p =
    let (p, handled) = entry_key_press string p in
    (if handled then p else if p.entry_sensitive then record p { entry_text = text } else p, none)
handle unlock_clicked p =
    if p.unlock_sensitive && p.action_area_sensitive
    then quit_with (unlock_button_clicked p)
    else (p, none)
handle switch_clicked p =
    (if p.switch_shown && p.action_area_sensitive then switch_user_button_clicked p else p, none)
handle deleted p = quit_with (delete_handler p)
handle unmapped p = (p, some none)
handle cancel_timeout p =
    if mem p.cancel_timeout_id p.main_loop.attached
    then (let p' = dialog_timed_out p in
        (record p' { main_loop = finish_source p.cancel_timeout_id p'.main_loop }, none))
    else (p, none)
handle response_idle p =
    if mem p.response_idle_id p.main_loop.attached
    then (let (p', r) = response_cancel_idle_cb p in
        quit_with (record p' { main_loop = finish_source p.response_idle_id p'.main_loop }, r))
    else (p, none)
handle (state_changed caps) p = (kbd_lock_mode_update (get_kbd_lock_mode caps) p, none)

-- The loop, up to the event that quits it; the window is unmapped after the last.
unfoldable pub gs_lock_plug_run : List PlugEvent → Plug → Plug × RunInfo
unfolding handle
gs_lock_plug_run [] p = (p, none)
gs_lock_plug_run (e ∷ es) p =
    let (p', quit) = handle e p in
    elim quit [ none ↦ gs_lock_plug_run es p' | some info ↦ (p', info) ]

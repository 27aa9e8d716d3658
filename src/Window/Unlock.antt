-- ===== src/Window/Unlock.antt =====
-- src/gs-window-x11.c: requests to unlock, and the end of the unlock dialog.
use budgie_screensaver.Common.{
  ℕ, suc, ◌<◌, ◌≡◌, ◌≢◌, ◌⊎◌, Option, refl, true, false, not, [], arith,
}
use budgie_screensaver.Window.{
  Window, Response, ok, Output, response, window_id, auth_failed, other_notice, request_quit, other,
  eof, read_error, popup_dialog_idle, gs_window_request_unlock, finish_dialog, lock_command_watch,
  gs_window_cancel_unlock_request,
}

-- No trace of a dialog: neither widgets nor children nor sources nor queued keys.
pub record IsDown (w : Window) : Type 0 where
  pub dialog_up : w.dialog_up ≡ false
  pub lock_pid : w.lock_pid ≡ 0
  pub keyboard_pid : w.keyboard_pid ≡ 0
  pub lock_watch_id : w.lock_watch_id ≡ 0
  pub keyboard_watch_id : w.keyboard_watch_id ≡ 0
  pub popup_dialog_idle_id : w.popup_dialog_idle_id ≡ 0
  pub lock_box : w.lock_box ≡ false
  pub key_events : w.key_events ≡ []

-- Cancelling takes everything of the dialog down, whatever it was doing; the handlers are told
-- exactly if it was up; and nothing is unlocked.
pub gs_window_cancel_unlock_request_lem :
    (w : Window)
    → let (w', notified) = gs_window_cancel_unlock_request w in
      IsDown w' × (notified ≡ w.dialog_up) × (w'.deactivated_idles ≡ w.deactivated_idles)
unfolding gs_window_cancel_unlock_request
gs_window_cancel_unlock_request_lem w = (ground arith, ground arith, ground arith)

noted :
    (o : Output) (w : Window)
    → ((r : Response) → o ≢ response r)
    → (lock_command_watch o w).0.dialog_response ≡ w.dialog_response
unfolding lock_command_watch finish_dialog
noted (response r) w n = absurd (n r refl)
noted window_id w n = refl
noted auth_failed w n = refl
noted other_notice w n = refl
noted request_quit w n = refl
noted other w n = refl
noted eof w n = ground arith
noted read_error w n = refl

-- The window asks to be deactivated exactly if the watch reads the answer OK now, or meets the end
-- of the output while the last answer that the window has noted is OK. It notes every answer that
-- it reads. Nothing else that the watch reads changes what is noted, and neither does the start of a
-- new dialog, so that the noted answer may be one of an earlier dialog. On every answer and at the
-- end of the output the dialog is taken down, and the watch is not called again.
pub lock_command_watch_lem :
    (o : Output) (w : Window)
    → let (w', notified, again) = lock_command_watch o w in
      ((w'.deactivated_idles ≡ w.deactivated_idles)
        ⊎ ((w'.deactivated_idles ≡ suc w.deactivated_idles)
            × ((o ≡ response ok) ⊎ ((o ≡ eof) × (w.dialog_response ≡ ok)))))
      × ((o ≡ response ok) ⊎ ((o ≡ eof) × (w.dialog_response ≡ ok))
          → w'.deactivated_idles ≡ suc w.deactivated_idles)
      × ((r : Response)
          → (o ≡ response r) ⊎ (o ≡ eof)
          → IsDown w' × (notified ≡ w.dialog_up) × (again ≡ false))
      × ((r : Response) → o ≡ response r → w'.dialog_response ≡ r)
      × (((r : Response) → o ≢ response r) → w'.dialog_response ≡ w.dialog_response)
      × ((spawned : Option (ℕ × ℕ))
          → (popup_dialog_idle spawned w).dialog_response ≡ w.dialog_response)
unfolding lock_command_watch finish_dialog popup_dialog_idle
lock_command_watch_lem o w = (
  ground arith,
  ground arith,
  λ r e. ground arith,
  λ r e. ground arith,
  noted o w,
  λ spawned. ground arith,
)

-- A request to unlock never asks for a deactivation while the lock is on. On a visible window
-- with no dialog process, it puts the dialog up and has its start pending, or, with the lock off,
-- asks for the deactivation and leaves the dialog alone.
pub gs_window_request_unlock_lem :
    (id : ℕ) (w : Window)
    → 0 < id
    → let (w', notified) = gs_window_request_unlock id w in
      (w.lock_enabled ≡ true → w'.deactivated_idles ≡ w.deactivated_idles)
      × (w.visible ≡ true
          → w.lock_watch_id ≡ 0
          → w.lock_enabled ≡ true
          → (w'.dialog_up ≡ true) × (0 < w'.popup_dialog_idle_id) × (notified ≡ not w.dialog_up))
      × (w.visible ≡ true
          → w.lock_watch_id ≡ 0
          → w.lock_enabled ≡ false
          → (w'.deactivated_idles ≡ suc w.deactivated_idles) × (w'.dialog_up ≡ w.dialog_up))
unfolding gs_window_request_unlock
gs_window_request_unlock_lem id w pos = (ground arith, ground arith, ground arith)

-- After a read error on the dialog's output the watch is gone, but its id is still noted: no later
-- request to unlock has any effect, until the dialog is cancelled.
pub read_error-request_unlock :
    (id : ℕ) (w : Window)
    → 0 < w.lock_watch_id
    → let (w', notified, again) = lock_command_watch read_error w in
      (again ≡ false) × (gs_window_request_unlock id w' ≡ (w', false))
unfolding lock_command_watch gs_window_request_unlock
read_error-request_unlock id w pos = (refl, ground arith)

-- ===== src/Dialog/Locked.antt =====
-- src/gnome-screensaver-dialog.c and src/gs-window-x11.c: the process and the window that reads
-- its output.
use budgie_screensaver.Common.{
  suc, ◌≡◌, ◌≢◌, ◌⊎◌, refl, ◌∙◌, Bool, true, false, not, ◌||◌, Option, none, some, List, [], ◌∷◌,
  ◌++◌, arith, inl, inr, if◌then◌else◌, Bool-cases, if-cases,
}
use budgie_screensaver.Window.{
  Window, Output, window_id, response, auth_failed, request_quit, cancel, ok, other_notice, other,
  eof, read_error, lock_command_watch, finish_dialog,
}
use budgie_screensaver.Auth.{AuthError, Attempt, Pam, returned, gs_auth_verify_user}
use budgie_screensaver.Auth.Utf8.{Glib}
use budgie_screensaver.Auth.Success.{Authenticates, gs_auth_verify_user_iff}
use budgie_screensaver.Dialog.{
  disable_prompt, Prompt, Ui, Process, Event, check, run_quit_ok, handler, dispatch, run,
  quit_response_ok, print, do_auth_check, auth_check_idle, dispatch_attached, gtk_main_quit,
}
use budgie_screensaver.Dialog.Init.{
  Start, LockReason, main, idle, exited, ui, privileged_initialization, lock_initialization,
}
use budgie_screensaver.Dialog.Printed.{ends_watch, is_ok, any, any-append, verify-Leaves}
use budgie_screensaver.Dialog.Orderly.{IsOrderly, run-IsOrderly}
use budgie_screensaver.Dialog.Safety.{HasAuthenticated, IsRefused, run-Authenticated}

-- The lines that the window reads, until its watch returns FALSE.
unfoldable pub watch_all : List Output → Window → Window
watch_all [] w = w
watch_all (line ∷ lines) w =
    let (w', notified, again) = lock_command_watch line w in
    let rest = watch_all lines w' in if again then rest else w'

not_ok-locked :
    (lines : List Output) (w : Window)
    → any is_ok lines ≡ false
    → w.dialog_response ≡ cancel
    → (watch_all lines w).deactivated_idles ≡ w.deactivated_idles
unfolding watch_all lock_command_watch finish_dialog
not_ok-locked [] w n c = refl
not_ok-locked (window_id ∷ lines) w n c =
    not_ok-locked lines (record w { lock_box = true; lock_socket = true }) n c
not_ok-locked (auth_failed ∷ lines) w n c =
    not_ok-locked lines (record w { dialog_shake_in_progress = false }) n c
not_ok-locked (other_notice ∷ lines) w n c = not_ok-locked lines w n c
not_ok-locked (response ok ∷ lines) w n c = absurd (ground (arith, n))
not_ok-locked (response cancel ∷ lines) w n c = ground (arith, c)
not_ok-locked (request_quit ∷ lines) w n c =
    not_ok-locked lines (record w { dialog_quit_requested = true }) n c
not_ok-locked (other ∷ lines) w n c = not_ok-locked lines w n c
not_ok-locked (eof ∷ lines) w n c = ground (arith, c)
not_ok-locked (read_error ∷ lines) w n c = refl

-- The process prompts before it asks: it cannot drop its privileges or runs as root, or it cannot
-- lock.
abbrev pub CannotLock : Start → Type 0
CannotLock s = (privileged_initialization s ≡ false) ⊎ (lock_initialization s ≢ none)

idle-IsRefused : (s : Start) (prompts : List Prompt) → IsRefused (idle (ui s prompts))
unfolding IsRefused
idle-IsRefused s prompts = (λ r. (refl, refl), (refl, refl))

start-IsRefused :
    (reason : Option LockReason) (s : Start) (prompts : List Prompt) (gone : Process)
    → (reason ≢ none) ⊎ IsRefused (elim reason [ some r ↦ gone | none ↦ idle (ui s prompts) ])
start-IsRefused none s prompts gone = inr (idle-IsRefused s prompts)
start-IsRefused (some r) s prompts gone = inl (λ e. cc)

exited-IsRefused : (s : Start) (prompts : List Prompt) → IsRefused (exited (ui s prompts))
unfolding IsRefused
exited-IsRefused s prompts = (λ r. (refl, refl), (refl, refl))

or-false : {b : Bool} → b ≡ false → (b || false) ≡ false
or-false e = ground (arith, e)

main-IsRefused : (s : Start) (prompts : List Prompt) → CannotLock s ⊎ IsRefused (main s prompts)
unfolding main
main-IsRefused s prompts =
    let Goal = λ (p : Process). CannotLock s ⊎ IsRefused p in
    if-cases Goal (not (privileged_initialization s)) _ _ (λ bad. inl (inl (ground (arith, bad))))
      (λ good.
        if-cases Goal (not s.gtk_init || s.show_version) _ _
          (λ exits. inr (exited-IsRefused s prompts))
          (λ starts. elim (start-IsRefused (lock_initialization s) s prompts _) [
            | inl bad ↦ inl (inr bad)
            | inr refused ↦ inr refused
          ]))

-- A window whose dialog has not answered yet reads what the dialog prints, and then, or sooner, the
-- end of it. Whatever the dialog's main loop dispatches, in whatever order, and whatever happens
-- in its prompts: the window asks to be deactivated only if the dialog dispatched a check that
-- authenticates the user, while it ran and the check was attached; or if it could not be started
-- to lock, as it could not drop its privileges, was root, or had no locking.
pub deactivation-Authenticated :
    (glib : Glib) (s : Start) (prompts : List Prompt) (es : List Event) (w : Window)
    → w.dialog_response ≡ cancel
    → let output = (run glib es (main s prompts)).pam.gui.output in
      (watch_all (output ++ eof ∷ []) w).deactivated_idles ≢ w.deactivated_idles
      → CannotLock s ⊎ HasAuthenticated glib es (main s prompts)
deactivation-Authenticated glib s prompts es w c unlocked =
    let output = (run glib es (main s prompts)).pam.gui.output in
    elim (main-IsRefused s prompts) [
      | inl bad ↦ inl bad
      | inr refused ↦ elim (Bool-cases (any is_ok output)) [
        | inl printed ↦ inr (run-Authenticated glib es (main s prompts) refused printed)
        | inr silent ↦ absurd (
            unlocked (
              not_ok-locked (output ++ eof ∷ []) w
                (any-append is_ok output (eof ∷ []) ∙ or-false silent) c))
      ]
    ]

quiet-ok :
    (lines : List Output) (w : Window)
    → any ends_watch lines ≡ false
    → (watch_all (lines ++ response ok ∷ []) w).deactivated_idles ≡ suc w.deactivated_idles
unfolding watch_all lock_command_watch finish_dialog
quiet-ok [] w q = ground arith
quiet-ok (window_id ∷ lines) w q =
    quiet-ok lines (record w { lock_box = true; lock_socket = true }) q
quiet-ok (auth_failed ∷ lines) w q =
    quiet-ok lines (record w { dialog_shake_in_progress = false }) q
quiet-ok (other_notice ∷ lines) w q = quiet-ok lines w q
quiet-ok (response r ∷ lines) w q = absurd (ground (arith, q))
quiet-ok (request_quit ∷ lines) w q = quiet-ok lines (record w { dialog_quit_requested = true }) q
quiet-ok (other ∷ lines) w q = quiet-ok lines w q
quiet-ok (eof ∷ lines) w q = absurd (ground (arith, q))
quiet-ok (read_error ∷ lines) w q = absurd (ground (arith, q))

main-IsOrderly : (s : Start) (prompts : List Prompt) → IsOrderly (main s prompts)
unfolding main
main-IsOrderly s prompts = λ r. ground (arith, r)

checked-ok :
    (glib : Glib) (p : Process) (a : Attempt) (e : Option AuthError) (c : Pam Ui)
    → p.running ≡ true
    → p.auth_check ≡ true
    → gs_auth_verify_user glib (handler glib) a (disable_prompt p.pam) ≡ returned true e c
    → (run glib (check a ∷ run_quit_ok ∷ []) p).running ≡ false
unfolding run dispatch dispatch_attached auth_check_idle do_auth_check
checked-ok glib p a e c runs on eq = ground (arith, runs, on, eq)

checked-output :
    (glib : Glib) (p : Process) (a : Attempt) (e : Option AuthError) (c : Pam Ui)
    → p.running ≡ true
    → p.auth_check ≡ true
    → gs_auth_verify_user glib (handler glib) a (disable_prompt p.pam) ≡ returned true e c
    → (run glib (check a ∷ run_quit_ok ∷ []) p).pam.gui.output ≡ c.gui.output ++ response ok ∷ []
unfolding run dispatch dispatch_attached auth_check_idle do_auth_check quit_response_ok print
    gtk_main_quit
checked-output glib p a e c runs on eq = ground (arith, runs, on, eq)

orderly-deactivation :
    (glib : Glib) (p : Process) (a : Attempt) (w : Window)
    → IsOrderly p
    → p.running ≡ true
    → p.auth_check ≡ true
    → Authenticates glib (handler glib) a (disable_prompt p.pam)
    → let p' = run glib (check a ∷ run_quit_ok ∷ []) p in
      (p'.running ≡ false)
      × ((watch_all p'.pam.gui.output w).deactivated_idles ≡ suc w.deactivated_idles)
orderly-deactivation glib p a w orderly runs on good =
    let (e, c, eq) =
      (gs_auth_verify_user_iff glib (handler glib) a (disable_prompt p.pam)).1 good in
    let (q, stays) = orderly runs in
    let leaves = verify-Leaves glib a (disable_prompt p.pam) q stays in
    let (quiet, stays') = rw eq at leaves in
    (
      checked-ok glib p a e c runs on eq,
      rw (checked-output glib p a e c runs on eq) (quiet-ok c.gui.output w quiet),
    )

-- Whatever the dialog's main loop has dispatched since its start: if it still runs and the check is
-- attached, and the check authenticates the user, then, when the idle that it adds is dispatched,
-- the dialog ends, and a window that reads its output asks to be deactivated, once.
pub check-deactivation :
    (glib : Glib) (s : Start) (prompts : List Prompt) (es : List Event) (a : Attempt) (w : Window)
    → let p = run glib es (main s prompts) in
      p.running ≡ true
      → p.auth_check ≡ true
      → Authenticates glib (handler glib) a (disable_prompt p.pam)
      → let p' = run glib (check a ∷ run_quit_ok ∷ []) p in
        (p'.running ≡ false)
        × ((watch_all p'.pam.gui.output w).deactivated_idles ≡ suc w.deactivated_idles)
check-deactivation glib s prompts es a w runs on good =
    orderly-deactivation glib (run glib es (main s prompts)) a w
      (run-IsOrderly glib es (main s prompts) (main-IsOrderly s prompts)) runs on good

-- ===== src/Dialog/Orderly.antt =====
-- src/gnome-screensaver-dialog.c: the main loop runs only while nothing is answered.
use budgie_screensaver.Common.{
  ◌∙◌, ◌≡◌, refl, true, false, Option, List, [], ◌∷◌, arith, if-cases, if◌then◌else◌, ltb,
}
use budgie_screensaver.Window.{auth_failed, request_quit}
use budgie_screensaver.Auth.{AuthError, Pam, Attempt, returned, sigterm, abort, gs_auth_verify_user}
use budgie_screensaver.Auth.Utf8.{Glib}
use budgie_screensaver.Dialog.{
  disable_prompt, Ui, Process, Event, print, handler, do_auth_check, auth_check_idle, count_failure,
  check, run_quit_ok, run_request_quit, run_quit_timeout, run_reset, dismiss, dispatch,
  dispatch_attached, run, quit_response_cancel, response_request_quit, reset_idle_cb,
}
use budgie_screensaver.Dialog.Printed.{
  IsQuiet, passed, refused, stopped, failed, Verdict-cases, verify-Leaves, print-quit,
  print-IsQuiet,
}

-- The main loop runs only while nothing is answered.
abbrev pub IsOrderly : Process → Type 0
IsOrderly p = p.running ≡ true → IsQuiet p.pam.gui × (p.pam.gui.main_quit ≡ false)

pub check-refused :
    (glib : Glib) (a : Attempt) (p : Process) (e : Option AuthError) (c : Pam Ui)
    → gs_auth_verify_user glib (handler glib) a (disable_prompt p.pam) ≡ returned false e c
    → auth_check_idle glib a p ≡ count_failure (record c { gui = print auth_failed c.gui }) p
unfolding auth_check_idle do_auth_check
check-refused glib a p e c eq = rw (eq, auth_check_idle, do_auth_check) refl

pub check-stopped :
    (glib : Glib) (a : Attempt) (p : Process) (ui : Ui)
    → gs_auth_verify_user glib (handler glib) a (disable_prompt p.pam) ≡ sigterm ui
    → auth_check_idle glib a p ≡ record p {
      pam = record p.pam { gui = if ui.main_quit then ui else quit_response_cancel ui };
      running = false;
    }
unfolding auth_check_idle do_auth_check
check-stopped glib a p ui eq = rw (eq, auth_check_idle, do_auth_check) refl

pub check-failed :
    (glib : Glib) (a : Attempt) (p : Process)
    → gs_auth_verify_user glib (handler glib) a (disable_prompt p.pam) ≡ abort
    → auth_check_idle glib a p ≡ record p { running = false }
unfolding auth_check_idle do_auth_check
check-failed glib a p eq = rw (eq, auth_check_idle, do_auth_check) refl

pub check-passed :
    (glib : Glib) (a : Attempt) (p : Process) (e : Option AuthError) (c : Pam Ui)
    → gs_auth_verify_user glib (handler glib) a (disable_prompt p.pam) ≡ returned true e c
    → auth_check_idle glib a p ≡ record p { auth_check = false; quit_ok_idle = true; pam = c }
unfolding auth_check_idle do_auth_check
check-passed glib a p e c eq = rw (eq, auth_check_idle, do_auth_check) refl

count_failure-IsOrderly :
    (c : Pam Ui) (p : Process)
    → IsQuiet c.gui
    → c.gui.main_quit ≡ false
    → IsOrderly (count_failure c p)
unfolding count_failure
count_failure-IsOrderly c p q stays = λ r. ground (arith, q, stays)

verdict-IsOrderly :
    (glib : Glib) (a : Attempt) (p : Process)
    → p.running ≡ true
    → IsOrderly p
    → IsOrderly (auth_check_idle glib a p)
verdict-IsOrderly glib a p runs o =
    let (q, stays) = o runs in
    let leaves = verify-Leaves glib a (disable_prompt p.pam) q stays in
    elim (Verdict-cases (gs_auth_verify_user glib (handler glib) a (disable_prompt p.pam))) [
      | passed e c eq ↦ rw (check-passed glib a p e c eq) (λ r. rw eq at leaves)
      | refused e c eq ↦
          let (q', stays') = rw eq at leaves in
          rw (check-refused glib a p e c eq) (
            count_failure-IsOrderly (record c { gui = print auth_failed c.gui }) p
              (print-IsQuiet auth_failed c.gui refl q') (print-quit auth_failed c.gui ∙ stays'))
      | stopped ui eq ↦ rw (check-stopped glib a p ui eq) (λ r. cc)
      | failed eq ↦ rw (check-failed glib a p eq) (λ r. cc)
    ]

attached-IsOrderly :
    (glib : Glib) (e : Event) (p : Process)
    → p.running ≡ true
    → IsOrderly p
    → IsOrderly (dispatch_attached glib e p)
unfolding dispatch_attached response_request_quit reset_idle_cb
attached-IsOrderly glib (check a) p runs o =
    if-cases IsOrderly p.auth_check _ _ (λ on. verdict-IsOrderly glib a p runs o) (λ off. o)
attached-IsOrderly glib run_quit_ok p runs o =
    if-cases IsOrderly p.quit_ok_idle _ _ (λ on r. cc) (λ off. o)
attached-IsOrderly glib run_request_quit p runs o =
    if-cases IsOrderly p.request_quit_idle _ _
      (λ on r. (print-IsQuiet request_quit p.pam.gui refl (o runs).0, (o runs).1)) (λ off. o)
attached-IsOrderly glib run_quit_timeout p runs o =
    if-cases IsOrderly p.quit_timeout _ _ (λ on r. cc) (λ off. o)
attached-IsOrderly glib run_reset p runs o =
    if-cases IsOrderly (ltb 0 p.reset_timeouts) _ _ (λ on. o) (λ off. o)
attached-IsOrderly glib dismiss p runs o = λ r. cc

pub run-IsOrderly :
    (glib : Glib) (es : List Event) (p : Process) → IsOrderly p → IsOrderly (run glib es p)
unfolding run dispatch
run-IsOrderly glib [] p o = o
run-IsOrderly glib (e ∷ es) p o =
    run-IsOrderly glib es (dispatch glib e p)
      (if-cases IsOrderly p.running _ _ (λ runs. attached-IsOrderly glib e p runs o) (λ rests. o))

-- ===== src/Dialog/Safety.antt =====
-- src/gnome-screensaver-dialog.c: what comes before a line "RESPONSE=OK".
use budgie_screensaver.Common.{
  ap, ◌∙◌, ◌≡◌, ◌⊎◌, refl, true, false, List, [], ◌∷◌, arith, inl, inr, if-cases, if-true, if-false,
  Bool-cases, if◌then◌else◌, ltb,
}
use budgie_screensaver.Window.{response, auth_failed, request_quit, cancel}
use budgie_screensaver.Auth.{Pam, Attempt, gs_auth_verify_user}
use budgie_screensaver.Auth.Utf8.{Glib}
use budgie_screensaver.Auth.Success.{Authenticates, gs_auth_verify_user_iff}
use budgie_screensaver.Dialog.{
  disable_prompt, Ui, Process, Event, print, handler, auth_check_idle, count_failure, check,
  run_quit_ok, run_request_quit, run_quit_timeout, run_reset, dismiss, dispatch, dispatch_attached,
  run, quit_response_ok, quit_response_cancel, gtk_main_quit, response_request_quit, reset_idle_cb,
}
use budgie_screensaver.Dialog.Printed.{
  is_ok, any, IsQuiet, IsNotOk, quiet-not_ok, passed, refused, stopped, failed, Verdict-cases,
  verify-Leaves, print-quit, print-IsQuiet, print-IsNotOk,
}
use budgie_screensaver.Dialog.Orderly.{IsOrderly, check-refused, check-stopped, check-failed}

-- Not on the way to "RESPONSE=OK".
abbrev pub IsLockedOut : Process → Type 0
IsLockedOut p = IsNotOk p.pam.gui × (p.quit_ok_idle ≡ false)

unfoldable pub IsRefused : Process → Type 0
IsRefused p = IsOrderly p × IsLockedOut p

count_failure-IsRefused :
    (c : Pam Ui) (p : Process)
    → IsQuiet c.gui
    → c.gui.main_quit ≡ false
    → p.quit_ok_idle ≡ false
    → IsRefused (count_failure c p)
unfolding count_failure IsRefused
count_failure-IsRefused c p q stays idle =
    let n = quiet-not_ok c.gui.output q in
    (λ r. ground (arith, q, stays), (ground (arith, n), ground (arith, idle)))

quit-IsNotOk :
    (ui : Ui) → IsNotOk ui → IsNotOk (if ui.main_quit then ui else quit_response_cancel ui)
unfolding quit_response_cancel gtk_main_quit
quit-IsNotOk ui n =
    if-cases IsNotOk ui.main_quit _ _ (λ quits. n)
      (λ stays. print-IsNotOk (response cancel) ui refl n)

-- A check authenticates, or keeps the dialog from "RESPONSE=OK".
auth_check_idle-IsRefused :
    (glib : Glib) (a : Attempt) (p : Process)
    → p.running ≡ true
    → IsRefused p
    → Authenticates glib (handler glib) a (disable_prompt p.pam)
      ⊎ IsRefused (auth_check_idle glib a p)
unfolding IsRefused
auth_check_idle-IsRefused glib a p runs (o, (n, idle)) =
    let (q, stays) = o runs in
    let leaves = verify-Leaves glib a (disable_prompt p.pam) q stays in
    elim (Verdict-cases (gs_auth_verify_user glib (handler glib) a (disable_prompt p.pam))) [
      | passed e c eq ↦
          inl ((gs_auth_verify_user_iff glib (handler glib) a (disable_prompt p.pam)).0 (e, c, eq))
      | refused e c eq ↦
          let (q', stays') = rw eq at leaves in
          let quiet = print-IsQuiet auth_failed c.gui refl q' in
          inr (
            rw (check-refused glib a p e c eq) (
              count_failure-IsRefused (record c { gui = print auth_failed c.gui }) p quiet
                (print-quit auth_failed c.gui ∙ stays') idle))
      | stopped ui eq ↦
          inr
            (rw (check-stopped glib a p ui eq) (λ r. cc, (quit-IsNotOk ui (rw eq at leaves), idle)))
      | failed eq ↦ inr (rw (check-failed glib a p eq) (λ r. cc, (n, idle)))
    ]

attached-IsRefused :
    (glib : Glib) (e : Event) (p : Process)
    → p.running ≡ true
    → IsRefused p
    → ((a : Attempt) × (e ≡ check a)
        × (p.running ≡ true)
        × (p.auth_check ≡ true)
        × Authenticates glib (handler glib) a (disable_prompt p.pam))
      ⊎ IsRefused (dispatch_attached glib e p)
unfolding dispatch_attached IsRefused quit_response_ok quit_response_cancel response_request_quit
    reset_idle_cb gtk_main_quit
attached-IsRefused glib (check a) p runs (o, (n, idle)) = elim (Bool-cases p.auth_check) [
  | inl on ↦ elim (auth_check_idle-IsRefused glib a p runs (o, (n, idle))) [
    | inl good ↦ inl (a, refl, runs, on, good)
    | inr still ↦ inr (if-true IsRefused p.auth_check _ _ on still)
  ]
  | inr off ↦ inr (if-false IsRefused p.auth_check _ _ off (o, (n, idle)))
]
attached-IsRefused glib run_quit_ok p runs (o, (n, idle)) =
    inr (if-false IsRefused p.quit_ok_idle _ _ idle (o, (n, idle)))
attached-IsRefused glib run_request_quit p runs (o, (n, idle)) = inr (
    if-cases IsRefused p.request_quit_idle _ _
      (λ on. (
        λ r. (print-IsQuiet request_quit p.pam.gui refl (o runs).0, (o runs).1),
        (print-IsNotOk request_quit p.pam.gui refl n, idle),
      ))
      (λ off. (o, (n, idle))))
attached-IsRefused glib run_quit_timeout p runs (o, (n, idle)) =
    inr (if-cases IsRefused p.quit_timeout _ _ (λ on. (λ r. cc, (n, idle))) (λ off. (o, (n, idle))))
attached-IsRefused glib run_reset p runs (o, (n, idle)) =
    inr (
      if-cases IsRefused (ltb 0 p.reset_timeouts) _ _ (λ on. (o, (n, idle)))
        (λ off. (o, (n, idle))))
attached-IsRefused glib dismiss p runs (o, (n, idle)) =
    inr (λ r. cc, (print-IsNotOk (response cancel) p.pam.gui refl n, idle))

-- In a run of the main loop, a check that it dispatches authenticates the user.
abbrev pub HasAuthenticated : Glib → List Event → Process → Type 0
HasAuthenticated glib [] p = ⊥
HasAuthenticated glib (check a ∷ es) p =
    ((p.running ≡ true)
      × (p.auth_check ≡ true)
      × Authenticates glib (handler glib) a (disable_prompt p.pam))
    ⊎ HasAuthenticated glib es (dispatch glib (check a) p)
HasAuthenticated glib (e ∷ es) p = HasAuthenticated glib es (dispatch glib e p)

dispatch-IsRefused :
    (glib : Glib) (e : Event) (p : Process)
    → IsRefused p
    → ((a : Attempt) × (e ≡ check a)
        × (p.running ≡ true)
        × (p.auth_check ≡ true)
        × Authenticates glib (handler glib) a (disable_prompt p.pam))
      ⊎ IsRefused (dispatch glib e p)
unfolding dispatch IsRefused
dispatch-IsRefused glib e p (o, (n, idle)) = elim (Bool-cases p.running) [
  | inr rests ↦ inr (if-false IsRefused p.running _ _ rests (o, (n, idle)))
  | inl runs ↦ elim (attached-IsRefused glib e p runs (o, (n, idle))) [
    | inl good ↦ inl good
    | inr still ↦ inr (if-true IsRefused p.running _ _ runs still)
  ]
]

checked : Attempt → Event → Attempt
checked a (check b) = b
checked a e = a

check-injective : (a b : Attempt) → check a ≡ check b → a ≡ b
unfolding checked
check-injective a b e = ap (checked a) e

pub run-Authenticated :
    (glib : Glib) (es : List Event) (p : Process)
    → IsRefused p
    → any is_ok (run glib es p).pam.gui.output ≡ true
    → HasAuthenticated glib es p
unfolding run IsRefused
run-Authenticated glib [] p (o, (n, idle)) printed = cc
run-Authenticated glib (check a ∷ es) p (o, (n, idle)) printed =
    elim (dispatch-IsRefused glib (check a) p (o, (n, idle))) [
      | inl (b, e, runs, on, good) ↦ inl (runs, on, rw (check-injective a b e) good)
      | inr still ↦ inr (run-Authenticated glib es (dispatch glib (check a) p) still printed)
    ]
run-Authenticated glib (run_quit_ok ∷ es) p (o, (n, idle)) printed =
    elim (dispatch-IsRefused glib run_quit_ok p (o, (n, idle))) [
      | inl (b, e, runs, on, good) ↦ absurd (cc)
      | inr still ↦ run-Authenticated glib es (dispatch glib run_quit_ok p) still printed
    ]
run-Authenticated glib (run_request_quit ∷ es) p (o, (n, idle)) printed =
    elim (dispatch-IsRefused glib run_request_quit p (o, (n, idle))) [
      | inl (b, e, runs, on, good) ↦ absurd (cc)
      | inr still ↦ run-Authenticated glib es (dispatch glib run_request_quit p) still printed
    ]
run-Authenticated glib (run_quit_timeout ∷ es) p (o, (n, idle)) printed =
    elim (dispatch-IsRefused glib run_quit_timeout p (o, (n, idle))) [
      | inl (b, e, runs, on, good) ↦ absurd (cc)
      | inr still ↦ run-Authenticated glib es (dispatch glib run_quit_timeout p) still printed
    ]
run-Authenticated glib (run_reset ∷ es) p (o, (n, idle)) printed =
    elim (dispatch-IsRefused glib run_reset p (o, (n, idle))) [
      | inl (b, e, runs, on, good) ↦ absurd (cc)
      | inr still ↦ run-Authenticated glib es (dispatch glib run_reset p) still printed
    ]
run-Authenticated glib (dismiss ∷ es) p (o, (n, idle)) printed =
    elim (dispatch-IsRefused glib dismiss p (o, (n, idle))) [
      | inl (b, e, runs, on, good) ↦ absurd (cc)
      | inr still ↦ run-Authenticated glib es (dispatch glib dismiss p) still printed
    ]

-- ===== src/Dialog/Failures.antt =====
-- src/gnome-screensaver-dialog.c: how often the process verifies the user, and how it ends.
use budgie_screensaver.Common.{
  ◌-◌, ℕ, ◌+◌, ◌≤◌, ◌<◌, ◌≡◌, ◌⊎◌, true, false, ◌&&◌, List, [], ◌∷◌, arith, inl, inr, if◌then◌else◌,
}
use budgie_screensaver.Auth.{Attempt}
use budgie_screensaver.Auth.Utf8.{Glib}
use budgie_screensaver.Dialog.{
  Process, Event, Prompt, check, run_quit_ok, run_request_quit, run_quit_timeout, run_reset,
  dismiss, dispatch, dispatch_attached, run, auth_check_idle, do_auth_check, count_failure,
  response_request_quit, reset_idle_cb,
}
use budgie_screensaver.Dialog.Init.{Start, main}

-- How often a run of the main loop verifies the user.
abbrev pub verifications : Glib → List Event → Process → ℕ
verifications glib [] p = 0
verifications glib (check a ∷ es) p =
    (if p.running && p.auth_check then 1 else 0) + verifications glib es (dispatch glib (check a) p)
verifications glib (e ∷ es) p = verifications glib es (dispatch glib e p)

-- A main loop that runs has a source attached that is to end it: the check, the answer or the
-- timeout; and what is left of the failures.
record IsBounded (p : Process) : Type 0 where
  attached :
      p.running ≡ true → (p.auth_check ≡ true) ⊎ (p.quit_ok_idle ≡ true) ⊎ (p.quit_timeout ≡ true)
  below : p.running ≡ true → p.auth_check ≡ true → p.loop_counter < 5
  counter : p.loop_counter ≤ 5

-- How many verifications are left.
budget : Process → ℕ
budget p = if p.running && p.auth_check then 5 - p.loop_counter else 0

dispatch-IsBounded :
    (glib : Glib) (e : Event) (p : Process) → IsBounded p → IsBounded (dispatch glib e p)
unfolding dispatch dispatch_attached auth_check_idle do_auth_check count_failure
    response_request_quit reset_idle_cb
dispatch-IsBounded glib (check a) p b = ground (arith, b)
dispatch-IsBounded glib run_quit_ok p b = ground (arith, b)
dispatch-IsBounded glib run_request_quit p b = ground (arith, b)
dispatch-IsBounded glib run_quit_timeout p b = ground (arith, b)
dispatch-IsBounded glib run_reset p b = ground (arith, b)
dispatch-IsBounded glib dismiss p b = ground (arith, b)

dispatch-budget : (glib : Glib) (e : Event) (p : Process) → budget (dispatch glib e p) ≤ budget p
unfolding budget dispatch dispatch_attached auth_check_idle do_auth_check count_failure
    response_request_quit reset_idle_cb
dispatch-budget glib (check a) p = ground arith
dispatch-budget glib run_quit_ok p = ground arith
dispatch-budget glib run_request_quit p = ground arith
dispatch-budget glib run_quit_timeout p = ground arith
dispatch-budget glib run_reset p = ground arith
dispatch-budget glib dismiss p = ground arith

check-budget :
    (glib : Glib) (a : Attempt) (p : Process)
    → IsBounded p
    → (if p.running && p.auth_check then 1 else 0) + budget (dispatch glib (check a) p) ≤ budget p
unfolding budget dispatch dispatch_attached auth_check_idle do_auth_check count_failure
check-budget glib a p b = ground (arith, b)

verifications-budget :
    (glib : Glib) (es : List Event) (p : Process) → IsBounded p → verifications glib es p ≤ budget p
verifications-budget glib [] p b = omega arith
verifications-budget glib (check a ∷ es) p b = omega (
  arith,
  check-budget glib a p b,
  verifications-budget glib es (dispatch glib (check a) p) (dispatch-IsBounded glib (check a) p b),
)
verifications-budget glib (run_quit_ok ∷ es) p b = omega (
  arith,
  dispatch-budget glib run_quit_ok p,
  verifications-budget glib es (dispatch glib run_quit_ok p)
      (dispatch-IsBounded glib run_quit_ok p b),
)
verifications-budget glib (run_request_quit ∷ es) p b = omega (
  arith,
  dispatch-budget glib run_request_quit p,
  verifications-budget glib es (dispatch glib run_request_quit p)
      (dispatch-IsBounded glib run_request_quit p b),
)
verifications-budget glib (run_quit_timeout ∷ es) p b = omega (
  arith,
  dispatch-budget glib run_quit_timeout p,
  verifications-budget glib es (dispatch glib run_quit_timeout p)
      (dispatch-IsBounded glib run_quit_timeout p b),
)
verifications-budget glib (run_reset ∷ es) p b = omega (
  arith,
  dispatch-budget glib run_reset p,
  verifications-budget glib es (dispatch glib run_reset p) (dispatch-IsBounded glib run_reset p b),
)
verifications-budget glib (dismiss ∷ es) p b = omega (
  arith,
  dispatch-budget glib dismiss p,
  verifications-budget glib es (dispatch glib dismiss p) (dispatch-IsBounded glib dismiss p b),
)

main-IsBounded : (s : Start) (prompts : List Prompt) → IsBounded (main s prompts)
unfolding main
main-IsBounded s prompts = ground arith

run-IsBounded :
    (glib : Glib) (es : List Event) (p : Process) → IsBounded p → IsBounded (run glib es p)
unfolding run
run-IsBounded glib [] p b = b
run-IsBounded glib (e ∷ es) p b =
    run-IsBounded glib es (dispatch glib e p) (dispatch-IsBounded glib e p b)

budget_max : (p : Process) → budget p ≤ 5
unfolding budget
budget_max p = ground arith

attached-Ends :
    (glib : Glib) (p : Process)
    → IsBounded p
    → p.running ≡ true
    → ((p.auth_check ≡ true) × (p.loop_counter < 5))
      ⊎ ((p.quit_ok_idle ≡ true) × ((dispatch glib run_quit_ok p).running ≡ false))
      ⊎ ((p.quit_timeout ≡ true) × ((dispatch glib run_quit_timeout p).running ≡ false))
unfolding dispatch dispatch_attached
attached-Ends glib p b runs = elim (b.attached runs) [
  | inl on ↦ inl (on, b.below runs on)
  | inr (inl idle) ↦ inr (inl (idle, ground (arith, runs, idle)))
  | inr (inr timeout) ↦ inr (inr (timeout, ground (arith, runs, timeout)))
]

-- From its start, and whatever its main loop dispatches in whatever order, the dialog verifies the
-- user at most five times.
pub main-verifications :
    (glib : Glib) (s : Start) (prompts : List Prompt) (es : List Event)
    → verifications glib es (main s prompts) ≤ 5
main-verifications glib s prompts es = omega (
  arith,
  verifications-budget glib es (main s prompts) (main-IsBounded s prompts),
  budget_max (main s prompts),
)

-- From its start, and whatever its main loop has dispatched in whatever order, a dialog that still
-- runs has a source attached that brings it to its end: the check, which is attached only while
-- there are fewer than five failures; the answer after a success; or the timeout after the last
-- failure. The answer and the timeout end it when they are dispatched.
pub main-Attached :
    (glib : Glib) (s : Start) (prompts : List Prompt) (es : List Event)
    → let p = run glib es (main s prompts) in
      p.running ≡ true
      → ((p.auth_check ≡ true) × (p.loop_counter < 5))
        ⊎ ((p.quit_ok_idle ≡ true) × ((dispatch glib run_quit_ok p).running ≡ false))
        ⊎ ((p.quit_timeout ≡ true) × ((dispatch glib run_quit_timeout p).running ≡ false))
main-Attached glib s prompts es runs =
    attached-Ends glib (run glib es (main s prompts))
      (run-IsBounded glib es (main s prompts) (main-IsBounded s prompts)) runs

-- ===== src/Auth/Tests.antt =====
-- src/gs-auth-pam.c: the theorems for a stack that asks for a password.
use budgie_screensaver.Common.{
  ◌/◌, ◌==◌, ℕ, ◌+◌, ◌≤◌, ◌≡◌, ◌⊎◌, ◌↔◌, refl, Bool, true, false, Option, none, some, [], ◌∷◌, suc,
  if◌then◌else◌,
}
use budgie_screensaver.Auth.{
  Pam, PamMessage, Handler, Attempt, Stack, AuthError, finish, converse, success, auth_err,
  echo_off, returned, password_prompt, gs_auth_verify_user, pam_style_to_gs_style,
  auth_message_handler, set_pam_error, close_pam_handle,
}
use budgie_screensaver.Auth.Utf8.{Glib, to_utf8}
use budgie_screensaver.Auth.Success.{Authenticates, gs_auth_verify_user_iff}
use budgie_screensaver.Auth.Handle.{gs_auth_verify_user-Closes}
use budgie_screensaver.Auth.Handshake.{Message, Step, Reach, result, returned, left, not_called}
use budgie_screensaver.Auth.Order.{IsOver, Reach-Ends, spurious-result}

-- No text can be converted from the locale, and a text is valid if its first byte is below 128.
abbrev pub ascii : Glib
ascii = record {
  g_locale_to_utf8 = λ msg. none;
  g_locale_from_utf8 = λ text. some text;
  g_utf8_validate = λ msg. elim msg [ [] ↦ none | x ∷ xs ↦ if x / 128 == 0 then none else some 0 ];
}

-- It asks for the password once, and takes any reply.
abbrev pub ask : PamMessage
ask = record { msg_style = echo_off; msg = password_prompt }

abbrev pub passwords : Stack
passwords =
    converse (ask ∷ []) true
      (λ reply. elim reply [ none ↦ finish auth_err | some rs ↦ finish success ])

abbrev pub attempt : Attempt
attempt = record {
  getpwnam = true;
  pam_start = success;
  pam_set_item = success;
  pipe = true;
  fcntl_read = true;
  fcntl_write = true;
  thread_new = true;
  quit_early = false;
  pam_authenticate = passwords;
  pam_get_item = success;
  pam_acct_mgmt = success;
  pam_chauthtok = finish auth_err;
}

-- It answers every message with the letter a, and counts them.
abbrev answering : Handler ℕ
answering = record {
  cb_func = λ n style text. (suc n, true, some (97 ∷ []));
  has_quit = λ n. false;
}

abbrev fresh : Pam ℕ
fresh = record {
  did_we_ask_for_password = false;
  handle = true;
  started = 1;
  ended = 0;
  cleared = false;
  gui = 0;
}

gs_auth_verify_user_iff_example :
    ((e : Option AuthError) × (c' : Pam ℕ) × (gs_auth_verify_user ascii answering attempt fresh
        ≡ returned true e c'))
    ↔ Authenticates ascii answering attempt fresh
gs_auth_verify_user_iff_example = gs_auth_verify_user_iff ascii answering attempt fresh

-- The left over handle is ended, and so is the new one.
abbrev closed : Pam ℕ
closed = record {
  did_we_ask_for_password = true;
  handle = false;
  started = 2;
  ended = 2;
  cleared = true;
  gui = 1;
}

verified : gs_auth_verify_user ascii answering attempt fresh ≡ returned true none closed
unfolding gs_auth_verify_user to_utf8 pam_style_to_gs_style auth_message_handler set_pam_error
    close_pam_handle
verified = refl

gs_auth_verify_user-Closes_example :
    (closed.handle ≡ false)
    × (closed.ended + fresh.started
        ≡ (if fresh.handle then suc fresh.ended else fresh.ended) + closed.started)
    × (◌≡◌ {A = Bool} true true → ◌≡◌ {A = Option AuthError} none none)
    × (closed.cleared ≡ true)
gs_auth_verify_user-Closes_example =
    gs_auth_verify_user-Closes ascii answering attempt true none fresh closed verified refl

abbrev over : Message
over = record {
  thread_pc = returned;
  handler_pc = left;
  mutex = none;
  queued = false;
  should_interrupt_stack = false;
}

answered : Reach false true 10 over
answered =
    Reach.later
      (Reach.later
        (Reach.later
          (Reach.later
            (Reach.later
              (Reach.later
                (Reach.later
                  (Reach.later
                    (Reach.later (Reach.later Reach.start (Step.lock refl refl)) (Step.queue refl))
                    (Step.wait refl))
                  (Step.dispatch refl refl))
                (Step.handler_lock refl refl))
              (Step.call refl))
            (Step.cond_signal refl))
          (Step.handler_unlock refl))
        (Step.relock refl refl))
      (Step.unlock refl)

Reach-Ends_example :
    (10 ≤ 10)
    × (IsOver over ⊎ ((m' : Message) × Step false true over m'))
    × (over.thread_pc ≡ returned
        → (result over ≡ true) × (over.handler_pc ≡ left) × (over.queued ≡ false))
Reach-Ends_example = Reach-Ends 10 true over answered

spurious-result_example :
    (m : Message) × Reach true true 6 m
    × (m.thread_pc ≡ returned)
    × (result m ≡ false)
    × (m.handler_pc ≡ not_called)
    × (m.queued ≡ true)
spurious-result_example = spurious-result true

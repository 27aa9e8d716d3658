-- ===== src/Auth/Success.antt =====
-- src/gs-auth-pam.c: gs_auth_verify_user, when it succeeds.
use budgie_screensaver.Common.{◌≡◌, ◌≢◌, ◌⊎◌, ◌↔◌, refl, true, false, Option, none, arith, inl, inr}
use budgie_screensaver.Auth.{
  Status, success, auth_err, user_unknown, perm_denied, acct_expired, new_authtok_reqd, conv_err,
  other_status, AuthError, Pam, Handler, Attempt, Outcome, finished, terminated, asserted, returned,
  run_stack, account, gs_auth_thread_func, gs_auth_pam_verify_user, close_pam_handle,
  create_pam_handle, conclude, gs_auth_verify_user,
}
use budgie_screensaver.Auth.Utf8.{Glib}

pub data Split {S : Type 0} (o : Outcome S) : Type 0 where
  passed : (c : Pam S) → o ≡ finished success c → Split o
  refused : (status : Status) (c : Pam S) → o ≡ finished status c → status ≢ success → Split o
  stopped : (gui : S) → o ≡ terminated gui → Split o
  failed : o ≡ asserted → Split o

pub Outcome-cases : {S : Type 0} (o : Outcome S) → Split o
Outcome-cases (finished success c) = passed c refl
Outcome-cases (finished auth_err c) = refused _ c refl (λ e. cc)
Outcome-cases (finished user_unknown c) = refused _ c refl (λ e. cc)
Outcome-cases (finished perm_denied c) = refused _ c refl (λ e. cc)
Outcome-cases (finished acct_expired c) = refused _ c refl (λ e. cc)
Outcome-cases (finished new_authtok_reqd c) = refused _ c refl (λ e. cc)
Outcome-cases (finished conv_err c) = refused _ c refl (λ e. cc)
Outcome-cases (finished (other_status n) c) = refused _ c refl (λ e. cc)
Outcome-cases (terminated gui) = stopped gui refl
Outcome-cases asserted = failed refl

account-cases : (status : Status) → (status ≡ new_authtok_reqd) ⊎ (status ≢ new_authtok_reqd)
account-cases new_authtok_reqd = inl refl
account-cases success = inr (λ e. cc)
account-cases auth_err = inr (λ e. cc)
account-cases user_unknown = inr (λ e. cc)
account-cases perm_denied = inr (λ e. cc)
account-cases acct_expired = inr (λ e. cc)
account-cases conv_err = inr (λ e. cc)
account-cases (other_status n) = inr (λ e. cc)

module _ {S : Type 0} (glib : Glib) (h : Handler S) where
  -- What the thread needs to succeed, from the state `c`.
  abbrev pub Passes : Attempt → Pam S → Type 0
  Passes a c =
      (c1 : Pam S) × (run_stack glib h a.pam_authenticate c ≡ finished success c1)
      × (a.pam_get_item ≡ success)
      × (a.pam_acct_mgmt ≡ new_authtok_reqd
          → (c2 : Pam S) × (run_stack glib h a.pam_chauthtok c1 ≡ finished success c2))

  abbrev pub Authenticates : Attempt → Pam S → Type 0
  Authenticates a c =
      (a.getpwnam ≡ true)
      × (a.pam_start ≡ success)
      × (a.pam_set_item ≡ success)
      × (a.pipe ≡ true)
      × (a.fcntl_read ≡ true)
      × (a.fcntl_write ≡ true)
      × (a.thread_new ≡ true)
      × (a.quit_early ≡ false)
      × Passes a (record (create_pam_handle a c).0 { did_we_ask_for_password = false })

  thread-Passes :
      (a : Attempt) (c c' : Pam S)
      → gs_auth_thread_func glib h a c ≡ finished success c'
      → Passes a c
  unfolding gs_auth_thread_func account
  thread-Passes a c c' e = elim (Outcome-cases (run_stack glib h a.pam_authenticate c)) [
    | passed c1 e1 ↦ (c1, e1, ground (arith, e1), λ need. (c', ground (arith, e1, need)))
    | refused st c1 e1 ne ↦ ground (arith, e1)
    | stopped gui e1 ↦ ground (arith, e1)
    | failed e1 ↦ ground (arith, e1)
  ]

  Passes-thread :
      (a : Attempt) (c : Pam S)
      → Passes a c
      → (c' : Pam S) × (gs_auth_thread_func glib h a c ≡ finished success c')
  unfolding gs_auth_thread_func account
  Passes-thread a c (c1, e1, e2, e3) = elim (account-cases a.pam_acct_mgmt) [
    | inl need ↦ let (c2, e4) = e3 need in (c2, ground (arith, e1, e2, need, e4))
    | inr fine ↦ (c1, ground (arith, e1, e2, fine))
  ]

  abbrev pub asked : Attempt → Pam S → Pam S
  asked a c = record (create_pam_handle a c).0 { did_we_ask_for_password = false }

  true-Authenticates :
      (a : Attempt) (e : Option AuthError) (c c' : Pam S)
      → gs_auth_verify_user glib h a c ≡ returned true e c'
      → Authenticates a c
  unfolding gs_auth_verify_user gs_auth_pam_verify_user create_pam_handle conclude
  true-Authenticates a e c c' t = elim (Outcome-cases (gs_auth_thread_func glib h a (asked a c))) [
    | passed d e1 ↦ (
      ground (arith, t, e1),
      ground (arith, t, e1),
      ground (arith, t, e1),
      ground (arith, t, e1),
      ground (arith, t, e1),
      ground (arith, t, e1),
      ground (arith, t, e1),
      ground (arith, t, e1),
      thread-Passes a (asked a c) d e1,
    )
    | refused st d e1 ne ↦ ground (arith, t, e1, ne)
    | stopped gui e1 ↦ ground (arith, t, e1)
    | failed e1 ↦ ground (arith, t, e1)
  ]

  Authenticates-true :
      (a : Attempt) (c : Pam S)
      → Authenticates a c
      → (c' : Pam S) × (gs_auth_verify_user glib h a c ≡ returned true none c')
  unfolding gs_auth_verify_user gs_auth_pam_verify_user create_pam_handle conclude
  Authenticates-true a c (known, start, item, p, r, w, t, q, passes) =
      let (c', e) = Passes-thread a (asked a c) passes in
      (close_pam_handle c', ground (arith, known, start, item, p, r, w, t, q, e))

  -- A verification returns TRUE exactly if the user is known, PAM starts and takes the terminal,
  -- the pipe and the thread are made, the main loop is not quit early, the stack for
  -- authentication succeeds, PAM gives the user's name, and, where the account's password has
  -- expired, so does the stack that changes it. No other status of the account matters.
  pub gs_auth_verify_user_iff :
      (a : Attempt) (c : Pam S)
      → ((e : Option AuthError) × (c' : Pam S) × (gs_auth_verify_user glib h a c
            ≡ returned true e c'))
        ↔ Authenticates a c
  gs_auth_verify_user_iff a c = (
    λ (e, c', t). true-Authenticates a e c c' t,
    λ good. let (c', t) = Authenticates-true a c good in (none, c', t),
  )

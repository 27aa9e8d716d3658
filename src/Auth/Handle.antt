-- ===== src/Auth/Handle.antt =====
-- src/gs-auth-pam.c: gs_auth_verify_user, and what it leaves of the PAM handle.
use budgie_screensaver.Common.{
  if-cases, ◌&&◌, ◌+◌, ◌≡◌, ◌≢◌, ◌⊎◌, refl, Bool, true, false, Option, none, arith, inl, inr, suc,
  if◌then◌else◌,
}
use budgie_screensaver.Auth.{
  Status, success, auth_err, user_unknown, perm_denied, acct_expired, new_authtok_reqd, conv_err,
  other_status, AuthError, Pam, Handler, Attempt, Outcome, finished, terminated, asserted, returned,
  run_stack, account, gs_auth_thread_func, gs_auth_pam_verify_user, close_pam_handle,
  create_pam_handle, conclude, gs_auth_verify_user,
}
use budgie_screensaver.Auth.Utf8.{Glib}
use budgie_screensaver.Auth.Replies.{
  SameHandle, LeavesHandle, LeavesHandle-trans, run_stack-LeavesHandle,
}
use budgie_screensaver.Auth.Success.{passed, refused, stopped, failed, Outcome-cases}

success-cases : (status : Status) → (status ≡ success) ⊎ (status ≢ success)
success-cases success = inl refl
success-cases auth_err = inr (λ e. cc)
success-cases user_unknown = inr (λ e. cc)
success-cases perm_denied = inr (λ e. cc)
success-cases acct_expired = inr (λ e. cc)
success-cases new_authtok_reqd = inr (λ e. cc)
success-cases conv_err = inr (λ e. cc)
success-cases (other_status n) = inr (λ e. cc)

module _ {S : Type 0} where
  -- Each handle that was started, and the one left over, has been ended or is open.
  abbrev Balance : Pam S → Pam S → Type 0
  Balance c d =
      d.ended + c.started + (if d.handle then 1 else 0)
      ≡ (if c.handle then suc c.ended else c.ended) + d.started

  create-Balance : (a : Attempt) (c : Pam S) → Balance c (create_pam_handle a c).0
  unfolding create_pam_handle close_pam_handle
  create-Balance a c = ground arith

  leaves-Balance : (c d d' : Pam S) → Balance c d → SameHandle d d' → Balance c d'
  leaves-Balance c d d' balance same = ground (arith, balance, same)

  close-Balance :
      (c d : Pam S)
      → Balance c d
      → (close_pam_handle d).ended + c.started
        ≡ (if c.handle then suc c.ended else c.ended) + (close_pam_handle d).started
  unfolding close_pam_handle
  close-Balance c d balance = ground (arith, balance)

  conclude_lem :
      (status : Status) (d : Pam S) (result : Bool) (e : Option AuthError) (c' : Pam S)
      → conclude status d ≡ returned result e c'
      → (c' ≡ close_pam_handle d) × (result ≡ true → e ≡ none)
  unfolding conclude
  conclude_lem status d result e c' t = (ground (arith, t), ground (arith, t))

  conclude-Closes :
      (status : Status) (c d : Pam S) (result : Bool) (e : Option AuthError) (c' : Pam S)
      → Balance c d
      → conclude status d ≡ returned result e c'
      → (c'.handle ≡ false)
        × (c'.ended + c.started ≡ (if c.handle then suc c.ended else c.ended) + c'.started)
        × (result ≡ true → e ≡ none)
        × (c'.cleared ≡ true)
  unfolding close_pam_handle
  conclude-Closes status c d result e c' balance t =
      let (closed, no_error) = conclude_lem status d result e c' t in
      (
        ground (arith, closed),
        rw closed (close-Balance c d balance),
        no_error,
        ground (arith, closed),
      )

  quit-LeavesHandle :
      (a : Attempt) (c : Pam S) (o : Outcome S)
      → LeavesHandle c o
      → LeavesHandle c (elim o [
        | finished status c' ↦ if a.quit_early then terminated c'.gui else finished status c'
        | other ↦ other
      ])
  quit-LeavesHandle a c (finished status c') same =
      if-cases (LeavesHandle c) a.quit_early _ _ (λ e. tt) (λ e. same)
  quit-LeavesHandle a c (terminated gui) same = tt
  quit-LeavesHandle a c asserted same = tt

module _ {S : Type 0} (glib : Glib) (h : Handler S) where
  account-LeavesHandle : (a : Attempt) (c : Pam S) → LeavesHandle c (account glib h a c)
  unfolding account
  account-LeavesHandle a c =
      elim a.pam_acct_mgmt
        as (λ status. LeavesHandle c (elim status [
          | new_authtok_reqd ↦ run_stack glib h a.pam_chauthtok c
          | _ ↦ finished success c
        ])) [
          | new_authtok_reqd ↦ run_stack-LeavesHandle glib h a.pam_chauthtok c
          | _ ↦ (refl, refl, refl, refl)
        ]

  item-LeavesHandle :
      (a : Attempt) (c c1 : Pam S) (status : Status)
      → SameHandle c c1
      → LeavesHandle c (elim status [ success ↦ account glib h a c1 | other ↦ finished other c1 ])
  item-LeavesHandle a c c1 success same =
      LeavesHandle-trans c c1 (account glib h a c1) same (account-LeavesHandle a c1)
  item-LeavesHandle a c c1 auth_err same = same
  item-LeavesHandle a c c1 user_unknown same = same
  item-LeavesHandle a c c1 perm_denied same = same
  item-LeavesHandle a c c1 acct_expired same = same
  item-LeavesHandle a c c1 new_authtok_reqd same = same
  item-LeavesHandle a c c1 conv_err same = same
  item-LeavesHandle a c c1 (other_status n) same = same

  thread-LeavesHandle : (a : Attempt) (c : Pam S) → LeavesHandle c (gs_auth_thread_func glib h a c)
  unfolding gs_auth_thread_func
  thread-LeavesHandle a c =
      let leaves = run_stack-LeavesHandle glib h a.pam_authenticate c in
      elim (Outcome-cases (run_stack glib h a.pam_authenticate c)) [
        | passed c1 e1 ↦
            rw (e1, gs_auth_thread_func) (item-LeavesHandle a c c1 a.pam_get_item (rw e1 at leaves))
        | refused st c1 e1 ne ↦ ground (arith, e1, ne, rw e1 at leaves)
        | stopped gui e1 ↦ rw (e1, gs_auth_thread_func) tt
        | failed e1 ↦ rw (e1, gs_auth_thread_func) tt
      ]

  pam_verify_user-LeavesHandle :
      (a : Attempt) (c : Pam S) → LeavesHandle c (gs_auth_pam_verify_user glib h a c)
  unfolding gs_auth_pam_verify_user
  pam_verify_user-LeavesHandle a c =
      let leaves = thread-LeavesHandle a c in
      if-cases (LeavesHandle c) (a.pipe && a.fcntl_read && a.fcntl_write && a.thread_new) _ _
        (λ made. quit-LeavesHandle a c (gs_auth_thread_func glib h a c) leaves)
        (λ not_made. (refl, refl, refl, refl))

  -- A verification that returns, with TRUE or FALSE, has ended each PAM handle that it started,
  -- one that was left over included, and no handle is set; it has no error if it returns TRUE;
  -- and it leaves the mutex and the condition cleared. This is for a user that is known.
  pub gs_auth_verify_user-Closes :
      (a : Attempt) (result : Bool) (e : Option AuthError) (c c' : Pam S)
      → gs_auth_verify_user glib h a c ≡ returned result e c'
      → a.getpwnam ≡ true
      → (c'.handle ≡ false)
        × (c'.ended + c.started ≡ (if c.handle then suc c.ended else c.ended) + c'.started)
        × (result ≡ true → e ≡ none)
        × (c'.cleared ≡ true)
  unfolding gs_auth_verify_user
  gs_auth_verify_user-Closes a result e c c' t known =
      let (d, started) = create_pam_handle a c in
      let opened = record d { did_we_ask_for_password = false } in
      let balance = create-Balance a c in
      let leaves = pam_verify_user-LeavesHandle a opened in
      elim (success-cases started) [
        | inr bad ↦ conclude-Closes started c d result e c' balance (ground (arith, t, known, bad))
        | inl good ↦ elim (Outcome-cases (gs_auth_pam_verify_user glib h a opened)) [
          | passed d' e1 ↦
              conclude-Closes success c d' result e c'
                (leaves-Balance c opened d' balance (rw e1 at leaves))
                (ground (arith, t, known, good, e1))
          | refused st d' e1 ne ↦
              conclude-Closes st c d' result e c'
                (leaves-Balance c opened d' balance (rw e1 at leaves))
                (ground (arith, t, known, good, e1))
          | stopped gui e1 ↦ absurd (ground (arith, t, known, good, e1))
          | failed e1 ↦ absurd (ground (arith, t, known, good, e1))
        ]
      ]

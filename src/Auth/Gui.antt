-- ===== src/Auth/Gui.antt =====
-- src/gs-auth-pam.c: what the verification of a user leaves of the user interface, from what the
-- callback does to it.
use budgie_screensaver.Common.{
  if◌then◌else◌, ℕ, ◌≢◌, ◌≡◌, Bool, true, false, ◌&&◌, Option, none, some, List, [], ◌∷◌, ◌++◌,
  arith, inl, inr, if-cases, Option-cases,
}
use budgie_screensaver.Auth.{
  Style, Status, Pam, PamMessage, Handler, Attempt, Conversation, Outcome, Verdict, Stack, replies,
  interrupted, killed, aborted, finish, converse, finished, terminated, asserted, returned, sigterm,
  abort, success, auth_err, user_unknown, perm_denied, acct_expired, new_authtok_reqd, conv_err,
  other_status, pam_style_to_gs_style, auth_message_handler, converse_all, pam_conversation,
  run_stack, account, gs_auth_thread_func, gs_auth_pam_verify_user, close_pam_handle,
  create_pam_handle, conclude, gs_auth_verify_user,
}
use budgie_screensaver.Auth.Utf8.{Glib, to_utf8}
use budgie_screensaver.Auth.Replies.{Conversation-cases, granted, refused, stopped, failed}
use budgie_screensaver.Auth.Success.{Outcome-cases}
use budgie_screensaver.Auth.Success

-- The callback keeps `I`, or has quit the main loop and leaves `K`.
abbrev pub Keeps : {S : Type 0} → Handler S → (I K : S → Type 0) → Type 0
Keeps {S} h I K =
    (gui : S) (style : Style) (text : List ℕ)
    → I gui
    → let (gui', res, resp) = h.cb_func gui style text in
      (h.has_quit gui' ≡ true → K gui') × (h.has_quit gui' ≡ false → I gui')

refused-thread :
    {S : Type 0} (glib : Glib) (h : Handler S) (a : Attempt) (c c1 : Pam S) (status : Status)
    → run_stack glib h a.pam_authenticate c ≡ finished status c1
    → status ≢ success
    → gs_auth_thread_func glib h a c ≡ finished status c1
unfolding gs_auth_thread_func
refused-thread glib h a c c1 status e ne = ground (arith, e, ne)

create-gui : {S : Type 0} (a : Attempt) (c : Pam S) → (create_pam_handle a c).0.gui ≡ c.gui
unfolding create_pam_handle close_pam_handle
create-gui a c = ground arith

module _ {S : Type 0} (glib : Glib) (h : Handler S) (I K : S → Type 0) (keeps : Keeps h I K)
    (weaken : (gui : S) → I gui → K gui) where
  abbrev Talked : Conversation S → Type 0
  Talked (replies rs c) = I c.gui
  Talked (interrupted freed c) = I c.gui
  Talked (killed gui) = K gui
  Talked aborted = Unit

  abbrev Left : Outcome S → Type 0
  Left (finished status c) = I c.gui
  Left (terminated gui) = K gui
  Left asserted = Unit

  abbrev pub Verified : Verdict S → Type 0
  Verified (returned r e c) = I c.gui
  Verified (sigterm gui) = K gui
  Verified abort = Unit

  converse_all-Talked :
      (ms : List PamMessage) (given : List (Option (List ℕ))) (c : Pam S)
      → I c.gui
      → Talked (converse_all glib h ms given c)
  unfolding converse_all
  converse_all-Talked [] given c i = i
  converse_all-Talked (m ∷ ms) given c i = elim (Option-cases (pam_style_to_gs_style m.msg_style)) [
    | inl e ↦ rw (e, converse_all) tt
    | inr (style, e) ↦
        rw (e, converse_all)
          (let text = to_utf8 glib m.msg in
            let asked = auth_message_handler style text c.did_we_ask_for_password in
            let (gui, res, resp) = h.cb_func c.gui style text in
            let c' = record c { did_we_ask_for_password = asked; gui = gui } in
            let (quits, stays) = keeps c.gui style text i in
            if-cases Talked (h.has_quit gui) _ _ (λ quit. quits quit)
              (λ stay.
                if-cases Talked res _ _
                  (λ granted. converse_all-Talked ms (given ++ resp ∷ []) c' (stays stay))
                  (λ refused. stays stay)))
  ]

  pam_conversation-Talked :
      (ms : List PamMessage) (allocated : Bool) (c : Pam S)
      → I c.gui
      → Talked (pam_conversation glib h ms allocated c)
  unfolding pam_conversation
  pam_conversation-Talked ms true c i = converse_all-Talked ms [] c i
  pam_conversation-Talked ms false c i = i

  run_stack-Left : (s : Stack) (c : Pam S) → I c.gui → Left (run_stack glib h s c)
  unfolding run_stack
  run_stack-Left (finish status) c i = i
  run_stack-Left (converse ms allocated go) c i =
      let talked = pam_conversation-Talked ms allocated c i in
      elim (Conversation-cases (pam_conversation glib h ms allocated c)) [
        | granted reply c' e ↦
            rw (e, run_stack) (run_stack-Left (go (some reply)) c' (rw e at talked))
        | refused freed c' e ↦ rw (e, run_stack) (run_stack-Left (go none) c' (rw e at talked))
        | stopped gui e ↦ rw (e, run_stack) (rw e at talked)
        | failed e ↦ rw (e, run_stack) tt
      ]

  account-Left : (a : Attempt) (c : Pam S) → I c.gui → Left (account glib h a c)
  unfolding account
  account-Left a c i =
      elim a.pam_acct_mgmt
        as (λ status. Left (elim status [
          | new_authtok_reqd ↦ run_stack glib h a.pam_chauthtok c
          | _ ↦ finished success c
        ])) [ new_authtok_reqd ↦ run_stack-Left a.pam_chauthtok c i | _ ↦ i ]

  item-Left :
      (a : Attempt) (c : Pam S) (status : Status)
      → I c.gui
      → Left (elim status [ success ↦ account glib h a c | other ↦ finished other c ])
  item-Left a c success i = account-Left a c i
  item-Left a c auth_err i = i
  item-Left a c user_unknown i = i
  item-Left a c perm_denied i = i
  item-Left a c acct_expired i = i
  item-Left a c new_authtok_reqd i = i
  item-Left a c conv_err i = i
  item-Left a c (other_status n) i = i

  thread-Left : (a : Attempt) (c : Pam S) → I c.gui → Left (gs_auth_thread_func glib h a c)
  unfolding gs_auth_thread_func
  thread-Left a c i =
      let left = run_stack-Left a.pam_authenticate c i in
      elim (Outcome-cases (run_stack glib h a.pam_authenticate c)) [
        | Success.passed c1 e ↦
            rw (e, gs_auth_thread_func) (item-Left a c1 a.pam_get_item (rw e at left))
        | Success.refused st c1 e ne ↦
            let i1 = rw e at left in let shut = refused-thread glib h a c c1 st e ne in rw shut i1
        | Success.stopped gui e ↦ rw (e, gs_auth_thread_func) (rw e at left)
        | Success.failed e ↦ rw (e, gs_auth_thread_func) tt
      ]

  quit-Left :
      (a : Attempt) (o : Outcome S)
      → Left o
      → Left (elim o [
        | finished status c' ↦ if a.quit_early then terminated c'.gui else finished status c'
        | other ↦ other
      ])
  quit-Left a (finished status c) i = if-cases Left a.quit_early _ _ (λ e. weaken c.gui i) (λ e. i)
  quit-Left a (terminated gui) k = k
  quit-Left a asserted t = tt

  pam_verify_user-Left :
      (a : Attempt) (c : Pam S) → I c.gui → Left (gs_auth_pam_verify_user glib h a c)
  unfolding gs_auth_pam_verify_user
  pam_verify_user-Left a c i =
      if-cases Left (a.pipe && a.fcntl_read && a.fcntl_write && a.thread_new) _ _
        (λ made. quit-Left a (gs_auth_thread_func glib h a c) (thread-Left a c i)) (λ not_made. i)

  close-keep : (c : Pam S) → I c.gui → I (close_pam_handle c).gui
  unfolding close_pam_handle
  close-keep c i = if-cases (λ (d : Pam S). I d.gui) c.handle _ _ (λ e. i) (λ e. i)

  conclude-Verified : (status : Status) (c : Pam S) → I c.gui → Verified (conclude status c)
  unfolding conclude
  conclude-Verified success c i = close-keep c i
  conclude-Verified auth_err c i = close-keep c i
  conclude-Verified user_unknown c i = close-keep c i
  conclude-Verified perm_denied c i = close-keep c i
  conclude-Verified acct_expired c i = close-keep c i
  conclude-Verified new_authtok_reqd c i = close-keep c i
  conclude-Verified conv_err c i = close-keep c i
  conclude-Verified (other_status n) c i = close-keep c i

  create-keep : (a : Attempt) (c : Pam S) → I c.gui → I (create_pam_handle a c).0.gui
  unfolding create_pam_handle
  create-keep a c i = rw (create-gui a c) i

  concluded-Verified :
      (o : Outcome S)
      → Left o
      → Verified (elim o [
        | finished status c ↦ conclude status c
        | terminated gui ↦ sigterm gui
        | asserted ↦ abort
      ])
  concluded-Verified (finished status c) i = conclude-Verified status c i
  concluded-Verified (terminated gui) k = k
  concluded-Verified asserted t = tt

  started-Verified :
      (status : Status) (c : Pam S) (o : Outcome S)
      → I c.gui
      → Left o
      → Verified (elim status [
        | success ↦ elim o [
          | finished st c' ↦ conclude st c'
          | terminated gui ↦ sigterm gui
          | asserted ↦ abort
        ]
        | other ↦ conclude other c
      ])
  started-Verified success c o i left = concluded-Verified o left
  started-Verified auth_err c o i left = conclude-Verified auth_err c i
  started-Verified user_unknown c o i left = conclude-Verified user_unknown c i
  started-Verified perm_denied c o i left = conclude-Verified perm_denied c i
  started-Verified acct_expired c o i left = conclude-Verified acct_expired c i
  started-Verified new_authtok_reqd c o i left = conclude-Verified new_authtok_reqd c i
  started-Verified conv_err c o i left = conclude-Verified conv_err c i
  started-Verified (other_status n) c o i left = conclude-Verified (other_status n) c i

  -- What the callback keeps holds after a verification that returns.
  pub gs_auth_verify_user-Verified :
      (a : Attempt) (c : Pam S) → I c.gui → Verified (gs_auth_verify_user glib h a c)
  unfolding gs_auth_verify_user
  gs_auth_verify_user-Verified a c i =
      let (c1, started) = create_pam_handle a c in
      let opened = record c1 { did_we_ask_for_password = false } in
      let kept = create-keep a c i in
      if-cases Verified a.getpwnam _ _
        (λ known.
          started-Verified started c1 (gs_auth_pam_verify_user glib h a opened) kept
            (pam_verify_user-Left a opened kept))
        (λ unknown. i)

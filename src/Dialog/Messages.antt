-- ===== src/Dialog/Messages.antt =====
-- src/gnome-screensaver-dialog.c and src/gs-auth-pam.c: a stack of PAM modules that shows a message.
use budgie_screensaver.Common.{ℕ, ◌≡◌, ◌≢◌, false, Option, none, some, List, arith}
use budgie_screensaver.Auth.{
  Style, Pam, Stack, Attempt, finish, converse, success, finished, error_msg, text_info, replies,
  run_stack, pam_conversation, create_pam_handle,
}
use budgie_screensaver.Auth.Utf8.{Glib}
use budgie_screensaver.Auth.Replies.{
  Conversation-cases, Paired, Grants, pam_conversation-Ends, granted, refused, stopped, failed,
}
use budgie_screensaver.Auth.Success.{Authenticates}
use budgie_screensaver.Dialog.{Ui, auth_message_handler, handler, reply_to}

-- A stack that does not succeed, whatever it is answered.
abbrev pub Fails : Stack → Type 0
Fails (finish status) = status ≢ success
Fails (converse ms allocated go) = (reply : Option (List (Option (List ℕ)))) → Fails (go reply)

-- A stack that fails once a conversation has returned PAM_CONV_ERR.
abbrev pub HeedsErrors : Stack → Type 0
HeedsErrors (finish status) = Unit
HeedsErrors (converse ms allocated go) =
    Fails (go none) × ((reply : Option (List (Option (List ℕ)))) → HeedsErrors (go reply))

-- The handler returns TRUE only if it gives a reply, to a prompt.
abbrev pub IsReply : Style → Option (List ℕ) → Type 0
IsReply style reply = (reply ≢ none) × (style ≢ error_msg) × (style ≢ text_info)

handler-Grants : (glib : Glib) → Grants (handler glib) IsReply
unfolding auth_message_handler reply_to
handler-Grants glib ui style text given =
    (λ e. ground (arith, given, e), λ e. ground (arith, given, e), λ e. ground (arith, given, e))

-- Each conversation that the stack holds on its way is completed: every message in it is a
-- prompt, and the user gave a reply.
abbrev pub OnlyPrompts : Glib → Stack → Pam Ui → Type 0
OnlyPrompts glib (finish status) c = Unit
OnlyPrompts glib (converse ms allocated go) c =
    (rs : List (Option (List ℕ))) × (c' : Pam Ui) × (pam_conversation glib (handler glib) ms
        allocated c
      ≡ replies rs c')
    × Paired IsReply ms rs
    × OnlyPrompts glib (go (some rs)) c'

module _ (glib : Glib) where
  Fails-run :
      (s : Stack) (c c' : Pam Ui)
      → Fails s
      → run_stack glib (handler glib) s c ≡ finished success c'
      → ⊥
  unfolding run_stack
  Fails-run (finish status) c c' fails e = fails (ground (arith, e))
  Fails-run (converse ms allocated go) c c' fails e =
      elim (Conversation-cases (pam_conversation glib (handler glib) ms allocated c)) [
        | granted rs d eq ↦
            Fails-run (go (some rs)) d c' (fails (some rs)) (rw (eq, run_stack) at e)
        | refused freed d eq ↦ Fails-run (go none) d c' (fails none) (rw (eq, run_stack) at e)
        | stopped gui eq ↦ ground (arith, eq, e)
        | failed eq ↦ ground (arith, eq, e)
      ]

  success-OnlyPrompts :
      (s : Stack) (c c' : Pam Ui)
      → HeedsErrors s
      → run_stack glib (handler glib) s c ≡ finished success c'
      → OnlyPrompts glib s c
  unfolding run_stack
  success-OnlyPrompts (finish status) c c' heeds e = tt
  success-OnlyPrompts (converse ms allocated go) c c' (fails, heeds) e =
      let ends =
        pam_conversation-Ends glib (handler glib) IsReply (handler-Grants glib) ms allocated c in
      elim (Conversation-cases (pam_conversation glib (handler glib) ms allocated c)) [
        | granted rs d eq ↦ (
          rs,
          d,
          eq,
          rw eq at ends,
          success-OnlyPrompts (go (some rs)) d c' (heeds (some rs)) (rw (eq, run_stack) at e),
        )
        | refused freed d eq ↦ absurd (Fails-run (go none) d c' fails (rw (eq, run_stack) at e))
        | stopped gui eq ↦ absurd (ground (arith, eq, e))
        | failed eq ↦ absurd (ground (arith, eq, e))
      ]

  -- With a stack of modules that does not succeed after PAM_CONV_ERR: an attempt authenticates
  -- the user only through conversations that are completed, in which every message is a prompt
  -- that the user gave a reply to. A stack that also shows an error or an information on the way
  -- does not succeed, since the dialog's handler interrupts it.
  pub Authenticates-OnlyPrompts :
      (a : Attempt) (c : Pam Ui)
      → HeedsErrors a.pam_authenticate
      → Authenticates glib (handler glib) a c
      → OnlyPrompts glib a.pam_authenticate
          (record (create_pam_handle a c).0 { did_we_ask_for_password = false })
  Authenticates-OnlyPrompts a c heeds (known, start, item, p, r, w, t, q, (c1, e, item_got, rest)) =
      success-OnlyPrompts a.pam_authenticate _ c1 heeds e

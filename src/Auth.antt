-- ===== src/Auth.antt =====
-- src/gs-auth-pam.c and src/gs-auth.h: the verification of a user by PAM, whose library is a
-- parameter: what its calls return, and a stack of modules as the conversations that it holds. The
-- functions are given the state of the user interface, to which the messages go.
pub mod Utf8
pub mod Replies
pub mod Success
mod Handle
pub mod Gui
mod Handshake
mod Order
pub mod Tests
use budgie_screensaver.Common.{
  ℕ, suc, Bool, true, false, not, ◌&&◌, ◌||◌, Option, none, some, List, [], ◌∷◌, ◌++◌,
  if◌then◌else◌, is_prefix,
}
use budgie_screensaver.Auth.Utf8.{Glib, to_utf8}

-- GSAuthMessageStyle
pub data Style : Type 0 where
  prompt_echo_on prompt_echo_off error_msg text_info : Style

-- PAM_PROMPT_ECHO_ON and so on, and any other int.
pub data PamStyle : Type 0 where
  echo_on echo_off error info : PamStyle
  other_style : ℕ → PamStyle

-- PAM_SUCCESS and the other codes that the source names, and any other int.
pub data Status : Type 0 where
  success auth_err user_unknown perm_denied acct_expired new_authtok_reqd conv_err : Status
  other_status : ℕ → Status

-- The code of a GError and its message.
pub data AuthError : Type 0 where
  incorrect_password authentication_failed not_permitted no_longer_permitted : AuthError

pub record PamMessage : Type 0 where
  pub msg_style : PamStyle
  pub msg : List ℕ

-- g_assert_not_reached is `none`.
unfoldable pub pam_style_to_gs_style : PamStyle → Option Style
pam_style_to_gs_style echo_on = some prompt_echo_on
pam_style_to_gs_style echo_off = some prompt_echo_off
pam_style_to_gs_style error = some error_msg
pam_style_to_gs_style info = some text_info
pam_style_to_gs_style (other_style n) = none

-- "Password:"
abbrev pub password_prompt : List ℕ
password_prompt = b'P' ∷ b'a' ∷ b's' ∷ b's' ∷ b'w' ∷ b'o' ∷ b'r' ∷ b'd' ∷ b':' ∷ []

-- What is known while a user is verified: `did_we_ask_for_password`, whether `pam_handle` is set,
-- how often pam_start gave a handle and pam_end took one, whether the mutex and the condition
-- have been cleared, and the user interface.
pub record Pam (S : Type 0) : Type 0 where
  pub did_we_ask_for_password : Bool
  pub handle : Bool
  pub started : ℕ
  pub ended : ℕ
  pub cleared : Bool
  pub gui : S

-- The handler's flag after a message; the reply is NULL.
unfoldable pub auth_message_handler : Style → List ℕ → (asked : Bool) → Bool
auth_message_handler prompt_echo_on msg asked = asked
auth_message_handler prompt_echo_off msg asked = asked || is_prefix password_prompt msg
auth_message_handler error_msg msg asked = asked
auth_message_handler text_info msg asked = asked

unfoldable pub set_pam_error : Status → (did_we_ask_for_password : Bool) → Option AuthError
set_pam_error success asked = none
set_pam_error auth_err asked = some (if asked then incorrect_password else authentication_failed)
set_pam_error user_unknown asked =
    some (if asked then incorrect_password else authentication_failed)
set_pam_error perm_denied asked = some not_permitted
set_pam_error acct_expired asked = some no_longer_permitted
set_pam_error new_authtok_reqd asked = none
set_pam_error conv_err asked = none
set_pam_error (other_status n) asked = none

-- How a conversation ends. `freed` are the replies that it frees; `killed` is the end of the
-- process by `raise (SIGTERM)`, after the user interface quit the main loop.
pub data Conversation (S : Type 0) : Type 0 where
  replies : (reply : List (Option (List ℕ))) (c : Pam S) → Conversation S
  interrupted : (freed : List (Option (List ℕ))) (c : Pam S) → Conversation S
  killed : (gui : S) → Conversation S
  aborted : Conversation S

-- A stack of PAM modules: its status, or a conversation, the outcome of the allocation in it, and
-- how it goes on with the replies, or without any after PAM_CONV_ERR.
pub data Stack : Type 0 where
  finish : Status → Stack
  converse :
      (messages : List PamMessage) (allocated : Bool)
      → (Option (List (Option (List ℕ))) → Stack)
      → Stack

-- What the calls of one attempt return. `quit_early`: the main loop is quit while a stack is at
-- work but asks nothing.
pub record Attempt : Type 0 where
  pub getpwnam : Bool
  pub pam_start : Status
  pub pam_set_item : Status
  pub pipe : Bool
  pub fcntl_read : Bool
  pub fcntl_write : Bool
  pub thread_new : Bool
  pub quit_early : Bool
  pub pam_authenticate : Stack
  pub pam_get_item : Status
  pub pam_acct_mgmt : Status
  pub pam_chauthtok : Stack

pub data Outcome (S : Type 0) : Type 0 where
  finished : Status → (c : Pam S) → Outcome S
  terminated : (gui : S) → Outcome S
  asserted : Outcome S

pub data Verdict (S : Type 0) : Type 0 where
  -- gs_auth_verify_user returns, with its GError.
  returned : (result : Bool) (error : Option AuthError) (c : Pam S) → Verdict S
  -- SIGTERM
  sigterm : (gui : S) → Verdict S
  -- g_assert_not_reached
  abort : Verdict S

-- The callback `cb_func`, with its return value and the reply, and whether gtk_main_quit has been
-- called by then.
pub record Handler (S : Type 0) : Type 0 where
  pub cb_func : S → Style → List ℕ → S × Bool × Option (List ℕ)
  pub has_quit : S → Bool

module _ {S : Type 0} (glib : Glib) (h : Handler S) where
  -- The messages that are left, after `given`.
  unfoldable pub converse_all :
      List PamMessage → (given : List (Option (List ℕ))) (c : Pam S) → Conversation S
  converse_all [] given c = replies given c
  converse_all (m ∷ ms) given c = elim (pam_style_to_gs_style m.msg_style) [
    | none ↦ aborted
    | some style ↦
        let text = to_utf8 glib m.msg in
        let asked = auth_message_handler style text c.did_we_ask_for_password in
        let (gui, res, resp) = h.cb_func c.gui style text in
        let c' = record c { did_we_ask_for_password = asked; gui = gui } in
        let rest = converse_all ms (given ++ resp ∷ []) c' in
        if h.has_quit gui
        then killed gui
        else if res
        then rest
        else interrupted (given ++ resp ∷ []) c'
  ]

  unfoldable pub pam_conversation :
      List PamMessage → (allocated : Bool) (c : Pam S) → Conversation S
  unfolding converse_all
  pam_conversation ms allocated c = if allocated then converse_all ms [] c else interrupted [] c

  unfoldable pub run_stack : Stack → Pam S → Outcome S
  unfolding pam_conversation
  run_stack (finish status) c = finished status c
  run_stack (converse ms allocated go) c = elim (pam_conversation ms allocated c) [
    | replies reply c' ↦ run_stack (go (some reply)) c'
    | interrupted freed c' ↦ run_stack (go none) c'
    | killed gui ↦ terminated gui
    | aborted ↦ asserted
  ]

  -- After the authentication: the status of the account, and the change of an expired password.
  unfoldable pub account : Attempt → Pam S → Outcome S
  unfolding run_stack
  account a c = elim a.pam_acct_mgmt [
    | new_authtok_reqd ↦ run_stack a.pam_chauthtok c
    | _ ↦ finished success c
  ]

  unfoldable pub gs_auth_thread_func : Attempt → Pam S → Outcome S
  unfolding run_stack account
  gs_auth_thread_func a c = elim (run_stack a.pam_authenticate c) [
    | finished success c' ↦ elim a.pam_get_item [
      | success ↦ account a c'
      | other ↦ finished other c'
    ]
    | other ↦ other
  ]

  unfoldable pub gs_auth_pam_verify_user : Attempt → Pam S → Outcome S
  unfolding gs_auth_thread_func
  gs_auth_pam_verify_user a c =
      if a.pipe && a.fcntl_read && a.fcntl_write && a.thread_new
      then elim (gs_auth_thread_func a c) [
        | finished status c' ↦ if a.quit_early then terminated c'.gui else finished status c'
        | other ↦ other
      ]
      else finished auth_err c

unfoldable pub close_pam_handle : {S : Type 0} → Pam S → Pam S
close_pam_handle c =
    if c.handle
    then record c { handle = false; ended = suc c.ended; cleared = true }
    else record c { cleared = true }

-- Its status comes second.
unfoldable pub create_pam_handle : {S : Type 0} → Attempt → Pam S → Pam S × Status
unfolding close_pam_handle
create_pam_handle a c =
    let c = if c.handle then close_pam_handle c else c in
    elim a.pam_start [
      | success ↦ (record c { handle = true; started = suc c.started }, a.pam_set_item)
      | other ↦ (record c { handle = false }, other)
    ]

-- The end of gs_auth_verify_user, at `done`.
unfoldable pub conclude : {S : Type 0} → Status → Pam S → Verdict S
unfolding close_pam_handle set_pam_error
conclude success c = returned true none (close_pam_handle c)
conclude other c =
    returned false (set_pam_error other c.did_we_ask_for_password) (close_pam_handle c)

unfoldable pub gs_auth_verify_user :
    {S : Type 0} (glib : Glib) (h : Handler S) → Attempt → Pam S → Verdict S
unfolding create_pam_handle gs_auth_pam_verify_user conclude
gs_auth_verify_user glib h a c =
    if a.getpwnam
    then (let (c', started) = create_pam_handle a c in
        elim started [
          | success ↦
              elim (gs_auth_pam_verify_user glib h a
                (record c' { did_we_ask_for_password = false })) [
                  | finished status c'' ↦ conclude status c''
                  | terminated gui ↦ sigterm gui
                  | asserted ↦ abort
                ]
          | other ↦ conclude other c'
        ])
    else returned false none c

-- ===== src/Dialog/Printed.antt =====
-- src/gnome-screensaver-dialog.c: the lines that are printed while the user is verified.
use budgie_screensaver.Common.{
  inl, inr, some, none, ◌∷◌, [], Option, ◌∙◌, ◌≡◌, ◌⊎◌, refl, Bool, true, false, ◌||◌, List, ◌++◌,
  arith,
}
use budgie_screensaver.Window.{
  Output, window_id, response, auth_failed, request_quit, cancel, ok, other_notice, other, eof,
  read_error,
}
use budgie_screensaver.Auth.{
  Style, AuthError, Pam, Attempt, Verdict, prompt_echo_on, prompt_echo_off, error_msg, text_info,
  returned, sigterm, abort, gs_auth_verify_user,
}
use budgie_screensaver.Window
use budgie_screensaver.LockPlug
use budgie_screensaver.LockPlug.{other_response}
use budgie_screensaver.LockPlug.Run.{RunInfo, gs_lock_plug_run}
use budgie_screensaver.Auth.Utf8.{Glib}
use budgie_screensaver.Auth.Gui.{Keeps, Verified, gs_auth_verify_user-Verified}
use budgie_screensaver.Dialog.{
  answer_prompt, Prompt, close_prompt, open_prompt, request_response, Ui, print, show, reply_to,
  auth_message_handler, handler, quit_response_cancel, gtk_main_quit,
}

-- Whether the window's watch returns FALSE after it.
abbrev pub ends_watch : Output → Bool
ends_watch (response r) = true
ends_watch eof = true
ends_watch read_error = true
ends_watch line = false

abbrev pub is_ok : Output → Bool
is_ok (response ok) = true
is_ok line = false

abbrev pub any : (Output → Bool) → List Output → Bool
any p [] = false
any p (x ∷ xs) = p x || any p xs

pub any-append :
    (p : Output → Bool) (xs ys : List Output) → any p (xs ++ ys) ≡ (any p xs || any p ys)
any-append p [] ys = refl
any-append p (x ∷ xs) ys = ground (arith, any-append p xs ys)

-- No response has been printed, nor anything else that ends the watch.
abbrev pub IsQuiet : Ui → Type 0
IsQuiet ui = any ends_watch ui.output ≡ false

-- No "RESPONSE=OK" has been printed.
abbrev pub IsNotOk : Ui → Type 0
IsNotOk ui = any is_ok ui.output ≡ false

pub quiet-not_ok : (lines : List Output) → any ends_watch lines ≡ false → any is_ok lines ≡ false
quiet-not_ok [] h = refl
quiet-not_ok (response r ∷ xs) h = ground (arith, h)
quiet-not_ok (window_id ∷ xs) h = quiet-not_ok xs h
quiet-not_ok (auth_failed ∷ xs) h = quiet-not_ok xs h
quiet-not_ok (other_notice ∷ xs) h = quiet-not_ok xs h
quiet-not_ok (request_quit ∷ xs) h = quiet-not_ok xs h
quiet-not_ok (other ∷ xs) h = quiet-not_ok xs h
quiet-not_ok (eof ∷ xs) h = ground (arith, h)
quiet-not_ok (read_error ∷ xs) h = ground (arith, h)

-- Nothing is answered, or the user has cancelled.
abbrev IsOpen : Ui → Type 0
IsOpen ui = (IsQuiet ui × (ui.main_quit ≡ false)) ⊎ (IsNotOk ui × (ui.main_quit ≡ true))

show-IsQuiet : (ui : Ui) → IsQuiet ui → IsQuiet (show ui) × ((show ui).main_quit ≡ ui.main_quit)
unfolding show print
show-IsQuiet ui q =
    (ground (arith, q, any-append ends_watch ui.output (window_id ∷ [])), ground arith)

close_prompt-IsOpen :
    (glib : Glib) (info : RunInfo) (ui : Ui)
    → IsQuiet ui
    → ui.main_quit ≡ false
    → IsOpen (close_prompt glib info ui).0
unfolding close_prompt quit_response_cancel print gtk_main_quit
close_prompt-IsOpen glib none ui q stays = inl (q, stays)
close_prompt-IsOpen glib (some LockPlug.ok) ui q stays = inl (q, stays)
close_prompt-IsOpen glib (some (other_response n)) ui q stays = inl (q, stays)
close_prompt-IsOpen glib (some LockPlug.cancel) ui q stays = inr (
  ground (
    arith,
    quiet-not_ok ui.output q,
    any-append is_ok ui.output (Window.response Window.cancel ∷ []),
  ),
  refl,
)

answer_prompt-IsOpen :
    (glib : Glib) (visible : Bool) (prompts : List Prompt) (ui : Ui)
    → IsQuiet ui
    → ui.main_quit ≡ false
    → IsOpen (answer_prompt glib visible prompts ui).0
unfolding answer_prompt
answer_prompt-IsOpen glib visible [] ui q stays =
    close_prompt-IsOpen glib none (record ui { plug = open_prompt visible [] ui.plug }) q stays
answer_prompt-IsOpen glib visible (prompt ∷ rest) ui q stays =
    let (plug, info) =
      gs_lock_plug_run prompt.events (open_prompt visible prompt.forwarded ui.plug) in
    close_prompt-IsOpen glib info (record ui { prompts = rest; plug = plug }) q stays

reply_to-IsOpen :
    (glib : Glib) (style : Style) (ui : Ui)
    → IsQuiet ui
    → ui.main_quit ≡ false
    → IsOpen (reply_to glib style ui).0
unfolding reply_to request_response
reply_to-IsOpen glib prompt_echo_on ui q stays =
    answer_prompt-IsOpen glib true ui.prompts ui q stays
reply_to-IsOpen glib prompt_echo_off ui q stays =
    answer_prompt-IsOpen glib false ui.prompts ui q stays
reply_to-IsOpen glib error_msg ui q stays = inl (q, stays)
reply_to-IsOpen glib text_info ui q stays = inl (q, stays)

pub handler-Keeps :
    (glib : Glib) → Keeps (handler glib) (λ ui. IsQuiet ui × (ui.main_quit ≡ false)) IsNotOk
unfolding auth_message_handler
handler-Keeps glib ui style text quiet =
    let (q, stays) = quiet in
    let (shown, same) = show-IsQuiet ui q in
    let is_open = reply_to-IsOpen glib style (show ui) shown (same ∙ stays) in
    (λ quits. ground (arith, is_open, quits), λ stay. ground (arith, is_open, stay))

pub data VerdictSplit (v : Verdict Ui) : Type 0 where
  passed : (e : Option AuthError) (c : Pam Ui) → v ≡ returned true e c → VerdictSplit v
  refused : (e : Option AuthError) (c : Pam Ui) → v ≡ returned false e c → VerdictSplit v
  stopped : (ui : Ui) → v ≡ sigterm ui → VerdictSplit v
  failed : v ≡ abort → VerdictSplit v

pub Verdict-cases : (v : Verdict Ui) → VerdictSplit v
Verdict-cases (returned true e c) = passed e c refl
Verdict-cases (returned false e c) = refused e c refl
Verdict-cases (sigterm ui) = stopped ui refl
Verdict-cases abort = failed refl

-- What a verification leaves of the dialog, from a state in which nothing is answered.
abbrev pub Leaves : Glib → Verdict Ui → Type 0
Leaves glib v =
    Verified glib (handler glib) (λ ui. IsQuiet ui × (ui.main_quit ≡ false)) IsNotOk
      (handler-Keeps glib) (λ ui i. quiet-not_ok ui.output i.0) v

pub verify-Leaves :
    (glib : Glib) (a : Attempt) (c : Pam Ui)
    → IsQuiet c.gui
    → c.gui.main_quit ≡ false
    → Leaves glib (gs_auth_verify_user glib (handler glib) a c)
verify-Leaves glib a c q stays =
    gs_auth_verify_user-Verified glib (handler glib) (λ ui. IsQuiet ui × (ui.main_quit ≡ false))
      IsNotOk (handler-Keeps glib) (λ ui i. quiet-not_ok ui.output i.0) a c (q, stays)

pub print-quit : (line : Output) (ui : Ui) → (print line ui).main_quit ≡ ui.main_quit
unfolding print
print-quit line ui = refl

pub print-IsQuiet :
    (line : Output) (ui : Ui) → ends_watch line ≡ false → IsQuiet ui → IsQuiet (print line ui)
unfolding print
print-IsQuiet line ui plain q =
    ground (arith, plain, q, any-append ends_watch ui.output (line ∷ []))

pub print-IsNotOk :
    (line : Output) (ui : Ui) → is_ok line ≡ false → IsNotOk ui → IsNotOk (print line ui)
unfolding print
print-IsNotOk line ui plain q = ground (arith, plain, q, any-append is_ok ui.output (line ∷ []))

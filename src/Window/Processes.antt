-- ===== src/Window/Processes.antt =====
-- src/gs-window-x11.c: no process of a window outlives its dialog.
use budgie_screensaver.Common.{
  ℕ, ◌≡◌, refl, Bool, false, Option, List, [], ◌∷◌, arith, ◌⊎◌, inl, inr,
}
use budgie_screensaver.Window.{
  Window, Output, Response, cancel, window_id, auth_failed, other_notice, response, request_quit,
  other, eof, read_error, lock_command_watch,
}
use budgie_screensaver.Window.Surface.{holds}
use budgie_screensaver.Window.Unlock.{lock_command_watch_lem}
use budgie_screensaver.Window.Keyboard.{Spawned, finish_children, dialog_output, cancel_dialog}
use budgie_screensaver.Window.Life.{
  Event, request, start, printed, typed, cancelled, Life, happen, happen_all, IsPossible,
  ArePossible, IsTracked,
}
use budgie_screensaver.Window.Tracked.{
  finish_children-none, IsDown-IsTracked, cancelled-IsTracked, request-IsTracked, start-IsTracked,
  typed-IsTracked, embedded-IsTracked,
}

-- A line that leaves the dialog up and starts no process.
line-IsTracked :
    (l : Life) (b : Bool) (w : Window)
    → IsTracked l
    → w.lock_pid ≡ l.home.window.lock_pid
    → w.keyboard_pid ≡ l.home.window.keyboard_pid
    → w.lock_watch_id ≡ l.home.window.lock_watch_id
    → w.popup_dialog_idle_id ≡ l.home.window.popup_dialog_idle_id
    → b ≡ l.announced
    → IsTracked (record l { home = record (l.home) { window = w }; announced = b })
line-IsTracked l b w t d k watch idle same = record {
  held = λ x. let h = t.held x in ground arith;
  apart = λ e. let a = t.apart in ground arith;
  no_dialog = λ e. let a = t.no_dialog in ground arith;
  no_keyboard = λ e. let a = t.no_keyboard in ground arith;
  pending = λ q. let a = t.pending in ground arith;
  unannounced = λ e. let a = t.unannounced in ground arith;
}

ended-IsTracked :
    (o : Output) (r : Response) (l : Life)
    → (o ≡ response r) ⊎ (o ≡ eof)
    → IsTracked l
    → (b : Bool)
    → IsTracked (record l {
      home = record (l.home) {
        window = (lock_command_watch o l.home.window).0;
        children = finish_children l.home;
      };
      announced = b;
    })
ended-IsTracked o r l e t b =
    IsDown-IsTracked _ l.home.keyboard_socket b (finish_children l.home)
      ((lock_command_watch_lem o l.home.window).2 r e).0 (finish_children-none l t)

printed-IsTracked :
    (o : Output) (keyboard : Option Spawned) (l : Life)
    → IsPossible (printed o keyboard) l
    → IsTracked l
    → IsTracked (happen (printed o keyboard) l)
unfolding happen dialog_output lock_command_watch
printed-IsTracked window_id keyboard l (w, once, new) t =
    let first = once refl in rw first (embedded-IsTracked keyboard l new w (t.unannounced first) t)
printed-IsTracked (response r) keyboard l p t = ended-IsTracked (response r) r l (inl refl) t _
printed-IsTracked eof keyboard l p t = ended-IsTracked eof cancel l (inr refl) t _
printed-IsTracked auth_failed keyboard l p t =
    line-IsTracked l _ _ t refl refl refl refl (ground arith)
printed-IsTracked other_notice keyboard l p t =
    line-IsTracked l _ _ t refl refl refl refl (ground arith)
printed-IsTracked request_quit keyboard l p t =
    line-IsTracked l _ _ t refl refl refl refl (ground arith)
printed-IsTracked other keyboard l p t = line-IsTracked l _ _ t refl refl refl refl (ground arith)
printed-IsTracked read_error keyboard l p t =
    line-IsTracked l _ _ t refl refl refl refl (ground arith)

happen-IsTracked : (e : Event) (l : Life) → IsPossible e l → IsTracked l → IsTracked (happen e l)
happen-IsTracked (request id) l p t = request-IsTracked id l t
happen-IsTracked (start dialog) l p t = start-IsTracked dialog l p t
happen-IsTracked (printed o keyboard) l p t = printed-IsTracked o keyboard l p t
happen-IsTracked (typed o) l p t = typed-IsTracked o l t
happen-IsTracked cancelled l p t = cancelled-IsTracked l t

happen_all-IsTracked :
    (es : List Event) (l : Life) → ArePossible es l → IsTracked l → IsTracked (happen_all es l)
unfolding happen_all
happen_all-IsTracked [] l p t = t
happen_all-IsTracked (e ∷ es) l (p, ps) t =
    happen_all-IsTracked es (happen e l) ps (happen-IsTracked e l p t)

-- From a window whose children are tracked, such as one with none, whatever its dialog and its
-- keyboard do, in whatever order: the children that are not waited for are exactly those that the
-- window has noted, and once the dialog is cancelled or has given its response, none is left. A
-- dialog prints the id of its plug once, a new child has a pid and a watch of its own, and the
-- main loop calls only what is noted.
pub happen_all-reaped :
    (es : List Event) (l : Life)
    → ArePossible es l
    → IsTracked l
    → let l' = happen_all es l in
      IsTracked l'
      × ((x : ℕ) → holds x (happen cancelled l').home.children ≡ false)
      × ((r : Response) (keyboard : Option Spawned) (x : ℕ)
          → holds x (happen (printed (response r) keyboard) l').home.children ≡ false)
unfolding happen cancel_dialog dialog_output
happen_all-reaped es l p t =
    let t' = happen_all-IsTracked es l p t in
    let none_left = finish_children-none (happen_all es l) t' in
    (t', none_left, λ r keyboard. none_left)

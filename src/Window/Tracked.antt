-- ===== src/Window/Tracked.antt =====
-- src/gs-window-x11.c: a dialog's start, its keyboard and its cancellation keep track of the children.
use budgie_screensaver.Common.{
  ℕ, ◌≡◌, ◌<◌, refl, Bool, true, false, not, ◌&&◌, Option, none, some, List, arith,
}
use budgie_screensaver.Window.{Window, popup_dialog_idle, gs_window_request_unlock}
use budgie_screensaver.Window.Surface.{holds}
use budgie_screensaver.Window.Timers.{holds-without, noted}
use budgie_screensaver.Window.Unlock.{IsDown, gs_window_cancel_unlock_request_lem}
use budgie_screensaver.Window.Keyboard.{
  Spawned, KeyboardOutput, plug_id, no_id, closed, broken, reap, finish_children,
  keyboard_command_finish, embed_keyboard, create_lock_socket, create_keyboard_socket,
  keyboard_command_watch, popup, cancel_dialog,
}
use budgie_screensaver.Window.Life.{
  request, start, typed, cancelled, Life, happen, IsNew, IsPossible, IsTracked,
}

holds-reap :
    (x pid : ℕ) (children : List ℕ)
    → holds x (reap pid children) ≡ (holds x children && not (noted x pid))
unfolding reap
holds-reap x pid children = let w = holds-without x pid children in ground arith

pub finish_children-none :
    (l : Life) → IsTracked l → (x : ℕ) → holds x (finish_children l.home) ≡ false
unfolding finish_children keyboard_command_finish
finish_children-none l t x =
    let k = holds-reap x l.home.window.keyboard_pid l.home.children in
    let d = holds-reap x l.home.window.lock_pid (reap l.home.window.keyboard_pid l.home.children) in
    let h = t.held x in ground arith

-- With its dialog down, and no children.
pub IsDown-IsTracked :
    (w : Window) (socket announced : Bool) (children : List ℕ)
    → IsDown w
    → ((x : ℕ) → holds x children ≡ false)
    → IsTracked (record {
      home = record { window = w; keyboard_socket = socket; children = children };
      announced = announced;
    })
IsDown-IsTracked w socket announced children d none_left = record {
  held = λ x. let n = none_left x in let k = d.keyboard_pid in let p = d.lock_pid in ground arith;
  apart = λ e. d.lock_pid;
  no_dialog = λ e. d.lock_pid;
  no_keyboard = λ e. d.keyboard_pid;
  pending = λ p. d.lock_watch_id;
  unannounced = λ e. d.keyboard_pid;
}

pub cancelled-IsTracked : (l : Life) → IsTracked l → IsTracked (happen cancelled l)
unfolding happen cancel_dialog
cancelled-IsTracked l t =
    IsDown-IsTracked _ l.home.keyboard_socket l.announced (finish_children l.home)
      (gs_window_cancel_unlock_request_lem l.home.window).0 (finish_children-none l t)

pub request-IsTracked : (id : ℕ) (l : Life) → IsTracked l → IsTracked (happen (request id) l)
unfolding happen gs_window_request_unlock
request-IsTracked id l t = record {
  held = λ x. let h = t.held x in ground arith;
  apart = λ e. let a = t.apart in ground arith;
  no_dialog = λ e. let a = t.no_dialog in ground arith;
  no_keyboard = λ e. let a = t.no_keyboard in ground arith;
  pending = λ p. let a = t.pending in ground arith;
  unannounced = λ e. let a = t.unannounced in ground arith;
}

pub start-IsTracked :
    (dialog : Option Spawned) (l : Life)
    → IsPossible (start dialog) l
    → IsTracked l
    → IsTracked (happen (start dialog) l)
unfolding happen popup popup_dialog_idle
start-IsTracked none l (p, new) t =
    let none_yet = t.pending p in
    record {
      held = t.held;
      apart = t.apart;
      no_dialog = t.no_dialog;
      no_keyboard = t.no_keyboard;
      pending = λ q. none_yet;
      unannounced = λ e. t.no_keyboard none_yet;
    }
start-IsTracked (some (pid, watch)) l (p, new) t =
    let none_yet = t.pending p in
    let d = t.no_dialog none_yet in
    let k = t.no_keyboard none_yet in
    record {
      held = λ x. let h = t.held x in let positive = new.0 in ground arith;
      apart = λ e. ground arith;
      no_dialog = λ e. absurd (new.2 e);
      no_keyboard = λ e. k;
      pending = λ q. omega (arith, q);
      unannounced = λ e. k;
    }

pub typed-IsTracked : (o : KeyboardOutput) (l : Life) → IsTracked l → IsTracked (happen (typed o) l)
unfolding happen keyboard_command_watch create_keyboard_socket keyboard_command_finish
typed-IsTracked plug_id l t = record {
  held = t.held;
  apart = t.apart;
  no_dialog = t.no_dialog;
  no_keyboard = t.no_keyboard;
  pending = t.pending;
  unannounced = t.unannounced;
}
typed-IsTracked no_id l t = t
typed-IsTracked broken l t = t
typed-IsTracked closed l t = record {
  held = λ x.
      let h = t.held x in
      let a = t.apart in
      let r = holds-reap x l.home.window.keyboard_pid l.home.children in ground arith;
  apart = λ e. e;
  no_dialog = t.no_dialog;
  no_keyboard = λ e. refl;
  pending = t.pending;
  unannounced = λ e. refl;
}

pub embedded-IsTracked :
    (keyboard : Option Spawned) (l : Life)
    → IsNew keyboard l.home
    → 0 < l.home.window.lock_watch_id
    → l.home.window.keyboard_pid ≡ 0
    → IsTracked l
    → IsTracked (record l { home = create_lock_socket keyboard l.home; announced = true })
unfolding create_lock_socket embed_keyboard
embedded-IsTracked none l new w k t = record {
  held = λ x. let h = t.held x in ground arith;
  apart = λ e. let a = t.apart in ground arith;
  no_dialog = λ e. let a = t.no_dialog in ground arith;
  no_keyboard = λ e. let a = t.no_keyboard in ground arith;
  pending = λ q. let a = t.pending in ground arith;
  unannounced = λ e. cc;
}
embedded-IsTracked (some (pid, watch)) l (positive, new, _) w k t = record {
  held = λ x. let h = t.held x in ground arith;
  apart = λ e. let a = t.apart in let h = t.held pid in ground arith;
  no_dialog = λ e. let a = t.no_dialog in ground arith;
  no_keyboard = λ e. let a = t.no_keyboard in ground arith;
  pending = λ q. let a = t.pending in ground arith;
  unannounced = λ e. cc;
}

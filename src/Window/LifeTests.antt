-- ===== src/Window/LifeTests.antt =====
-- src/gs-window-x11.c: the processes of a concrete window.
use budgie_screensaver.Common.{ℕ, ◌≡◌, refl, true, false, Option, some, none, List, [], ◌∷◌, arith}
use budgie_screensaver.Window.{
  Response, response, window_id, auth_failed, gs_window_request_unlock, popup_dialog_idle,
  lock_command_watch,
}
use budgie_screensaver.Window.Tests.{locked}
use budgie_screensaver.Window.Surface.{holds}
use budgie_screensaver.Window.Keyboard.{
  Spawned, plug_id, popup, dialog_output, create_lock_socket, embed_keyboard,
  keyboard_command_watch, create_keyboard_socket,
}
use budgie_screensaver.Window.Life.{
  Event, request, start, printed, typed, cancelled, Life, happen, happen_all, ArePossible,
  IsTracked,
}
use budgie_screensaver.Window.Processes.{happen_all-reaped}

abbrev at_rest : Life
at_rest = record {
  home = record {
    window = record locked { keyboard_enabled = true; keyboard_command = some "keyboard" };
    keyboard_socket = false;
    children = [];
  };
  announced = false;
}

-- The dialog comes up with its keyboard, and a check fails.
abbrev evening : List Event
evening =
    request 30
    ∷ start (some (500, 12))
    ∷ printed window_id (some (600, 13))
    ∷ typed plug_id
    ∷ printed auth_failed none
    ∷ []

evening-ArePossible : ArePossible evening at_rest
unfolding happen gs_window_request_unlock popup popup_dialog_idle dialog_output create_lock_socket
    embed_keyboard keyboard_command_watch create_keyboard_socket lock_command_watch
evening-ArePossible = (
  tt,
  (
    (omega arith, (λ e. omega (arith, e), refl, λ e. omega (arith, e))),
    (
      (omega arith, λ e. refl, (λ e. omega (arith, e), refl, λ e. omega (arith, e))),
      (omega arith, ((omega arith, λ e. cc, tt), tt)),
    ),
  ),
)

at_rest-IsTracked : IsTracked at_rest
at_rest-IsTracked = record {
  held = λ x. refl;
  apart = λ e. refl;
  no_dialog = λ e. refl;
  no_keyboard = λ e. refl;
  pending = λ p. refl;
  unannounced = λ e. refl;
}

evening-children : (happen_all evening at_rest).home.children ≡ 600 ∷ 500 ∷ []
unfolding happen_all happen gs_window_request_unlock popup popup_dialog_idle dialog_output
    create_lock_socket embed_keyboard keyboard_command_watch create_keyboard_socket
    lock_command_watch
evening-children = refl

happen_all-reaped_example :
    let l = happen_all evening at_rest in
    IsTracked l
    × ((x : ℕ) → holds x (happen cancelled l).home.children ≡ false)
    × ((r : Response) (keyboard : Option Spawned) (x : ℕ)
        → holds x (happen (printed (response r) keyboard) l).home.children ≡ false)
happen_all-reaped_example = happen_all-reaped evening at_rest evening-ArePossible at_rest-IsTracked

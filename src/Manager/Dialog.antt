-- ===== src/Manager/Dialog.antt =====
-- src/gs-manager.c: the unlock dialogs of the lock windows, and the grabs that go with them.
--
-- A function that may move the grab returns `none` where the fuel of that loop runs out.
use budgie_screensaver.Common.{
  ℕ, suc, Bool, true, false, not, Option, none, some, List, [], ◌∷◌, map, ◌==◌, if◌then◌else◌,
}
use budgie_screensaver.Grab.{gs_grab_move_to_window, gs_grab_seat_ungrab, gs_grab_seat_reset}
use budgie_screensaver.Fade.{gs_fade_finish}
use budgie_screensaver.Window.{Window, gs_window_cancel_unlock_request, gs_window_request_unlock}
use budgie_screensaver.Manager.{Env, Manager, Signal, auth_request_begin, auth_request_end}

infixl 5 ◌>>=◌
abbrev pub ◌>>=◌ {ℓ κ} : {A : Type ℓ} {B : Type κ} → Option A → (A → Option B) → Option B
none >>= f = none
some a >>= f = f a

abbrev pub emit : Signal → Manager → Manager
emit s m = record m { signals = s ∷ m.signals }

abbrev pub find : ℕ → List Window → Option Window
find id [] = none
find id (w ∷ ws) = if w.id == id then some w else find id ws

-- A window's state is changed where it stands.
abbrev pub replace : Window → List Window → List Window
replace v [] = []
replace v (w ∷ ws) = (if w.id == v.id then v else w) ∷ replace v ws

abbrev pub set_sensitive : Bool → Window → Window
set_sensitive b w = record w { sensitive = b }

-- gtk_widget_set_sensitive (…, FALSE) on all windows but one.
abbrev pub insensitive_but : ℕ → Window → Window
insensitive_but id w = if w.id == id then w else set_sensitive false w

abbrev pub ids : List Window → List ℕ
ids = map (λ w. w.id)

-- The last window on the pointer's monitor.
unfoldable pub on_monitor : (monitor : ℕ) → Option Window → List Window → Option Window
on_monitor monitor found [] = found
on_monitor monitor found (w ∷ ws) =
    on_monitor monitor (if w.monitor == monitor then some w else found) ws

module _ (env : Env) where
  unfoldable pub move_grab_to : (gdk_window : ℕ) → Manager → Option Manager
  move_grab_to gdk_window m =
      gs_grab_move_to_window env.display env.fuel (some gdk_window) false m.grab >>= λ g.
      some (record m { grab = g })

  unfoldable pub handle_window_dialog_up : Window → Manager → Option Manager
  handle_window_dialog_up window m =
      let m = record (emit auth_request_begin m) { dialog_up = true } in
      let m = record m { windows = map (insensitive_but window.id) m.windows } in
      move_grab_to window.gdk_window m >>= λ m.
      some (record m { grab = gs_grab_seat_ungrab m.grab })

  unfoldable pub handle_window_dialog_down : Window → Manager → Option Manager
  handle_window_dialog_down window m = move_grab_to window.gdk_window m >>= λ m. some (
      emit auth_request_end
        (record m { windows = map (set_sensitive true) m.windows; dialog_up = false }))

  unfoldable pub window_dialog_up_changed_cb : Window → Manager → Option Manager
  window_dialog_up_changed_cb window m =
      if window.dialog_up
      then handle_window_dialog_up window m
      else handle_window_dialog_down window m

  -- A window operation's result, with the handler of "notify::dialog-up".
  unfoldable pub notify : Window × Bool → Manager → Option Manager
  notify (window, notified) m =
      let m = record m { windows = replace window m.windows } in
      if notified then window_dialog_up_changed_cb window m else some m

  -- gs_window_cancel_unlock_request on the windows of the list, which the handlers leave in place.
  unfoldable pub cancel_windows : List ℕ → Manager → Option Manager
  cancel_windows [] m = some m
  cancel_windows (id ∷ ids) m = elim (find id m.windows) [
    | none ↦ cancel_windows ids m
    | some w ↦ elim (notify (gs_window_cancel_unlock_request w) m) [
      | none ↦ none
      | some m' ↦ cancel_windows ids m'
    ]
  ]

  unfoldable pub gs_manager_cancel_unlock_request : Manager → Option Manager
  gs_manager_cancel_unlock_request m = cancel_windows (ids m.windows) m

  -- If no window is on the pointer's monitor it is the first one; `none` if there is no window.
  unfoldable pub find_window_at_pointer : List Window → Option Window
  find_window_at_pointer [] = none
  find_window_at_pointer (w ∷ ws) = elim (on_monitor env.pointer_monitor none (w ∷ ws)) [
    | none ↦ some w
    | some v ↦ some v
  ]

  -- An active fade ends before the request.
  unfoldable pub finish_fading : Manager → Manager
  finish_fading m = if m.fading then record m { fade = gs_fade_finish m.fade } else m

  unfoldable pub request_at : Option Window → Manager → Option (Manager × Bool)
  request_at none m = some (m, false)
  request_at (some w) m =
      notify (gs_window_request_unlock (env.source_id m.adds) w) (record m { adds = suc m.adds })
      >>= λ m. some (m, true)

  unfoldable pub gs_manager_request_unlock : Manager → Option (Manager × Bool)
  gs_manager_request_unlock m =
      if not m.active
      then some (m, false)
      else if m.dialog_up
      then some (m, false)
      else let m = finish_fading m in request_at (find_window_at_pointer m.windows) m

  -- The message itself, which is only drawn, is left out. `none` also where the list of windows is
  -- empty, which the code reads through.
  unfoldable pub gs_manager_show_message : Manager → Option Manager
  gs_manager_show_message m = elim (find_window_at_pointer m.windows) [
    | none ↦ none
    | some w ↦ gs_manager_request_unlock m >>= λ r. some r.0
  ]

  unfoldable pub manager_maybe_grab_window : Window → Manager → Option Manager
  manager_maybe_grab_window w m =
      if w.monitor == env.pointer_monitor then move_grab_to w.gdk_window m else some m

unfoldable pub window_grab_broken_cb : Manager → Manager
window_grab_broken_cb m = record m { grab = gs_grab_seat_reset m.grab }

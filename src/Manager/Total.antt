-- ===== src/Manager/Total.antt =====
-- src/gs-manager.c: the operations that move the grab, on a display that becomes responsive.
use budgie_screensaver.Common.{
  ℕ, All, ◌≤◌, ◌<◌, ◌≡◌, refl, ◌∙◌, Bool, true, false, Option, some, List, [], ◌∷◌, map, arith,
  if◌then◌else◌, Option-cases, inl, inr,
}
use budgie_screensaver.Grab.{Grab, is_success, gs_grab_seat_ungrab}
use budgie_screensaver.Grab.Move.{gs_grab_move_to_window_lem}
use budgie_screensaver.Window.{Window, gs_window_cancel_unlock_request}
use budgie_screensaver.Manager.{Env, Manager, auth_request_begin, auth_request_end}
use budgie_screensaver.Manager.Stable.{
  IsStable, sensitive-All, insensitive_but-All, replace-All, find-All,
}
use budgie_screensaver.Manager.Policy.{wanted}
use budgie_screensaver.Manager.Dialog.{
  emit, find, replace, set_sensitive, insensitive_but, move_grab_to, handle_window_dialog_up,
  handle_window_dialog_down, window_dialog_up_changed_cb, notify, cancel_windows,
}

-- The display grants the requests from some request on, and the fuel is more than their number.
pub record IsResponsive (env : Env) : Type 0 where
  pub granting : ℕ
  pub grants : (n : ℕ) → granting ≤ n → is_success (env.display.answer n) ≡ true
  pub enough : granting < env.fuel

-- What dialogs leave alone in the manager.
abbrev pub Kept : Manager → Manager → Type 0
Kept m n =
    (n.active ≡ m.active)
    × (n.lock_active ≡ m.lock_active)
    × (n.lock_enabled ≡ m.lock_enabled)
    × (n.lock_timeout_id ≡ m.lock_timeout_id)
    × (n.unfade_idle_id ≡ m.unfade_idle_id)
    × (n.fade ≡ m.fade)
    × (wanted n ≡ wanted m)

pub Kept-refl : (m : Manager) → Kept m m
Kept-refl m = (refl, refl, refl, refl, refl, refl, refl)

Kept-trans : (l m n : Manager) → Kept l m → Kept m n → Kept l n
Kept-trans l m n a b = (b.0 ∙ a.0, b.1 ∙ a.1, b.2 ∙ a.2, b.3 ∙ a.3, b.4 ∙ a.4, b.5 ∙ a.5, b.6 ∙ a.6)

module _ (env : Env) (r : IsResponsive env) where
  move_grab_to_ends :
      (gdk_window : ℕ) (m : Manager)
      → (g : Grab) × (move_grab_to env gdk_window m ≡ some (record m { grab = g }))
  unfolding move_grab_to
  move_grab_to_ends gdk_window m =
      let (g, e, _) =
        gs_grab_move_to_window_lem env.display env.fuel gdk_window r.granting false m.grab r.grants
          (omega (arith, r.enough)) in
      (g, rw e)

-- An operation that ends, keeps this, and keeps what every window has.
module _ (P : Window → Type 0) where
  abbrev pub Ends : Manager → Option Manager → Type 0
  Ends m o = (n : Manager) × (o ≡ some n) × Kept m n × (All P m.windows → All P n.windows)

  if-Ends :
      (c : Bool) (m : Manager) (o p : Option Manager)
      → Ends m o
      → Ends m p
      → Ends m (if c then o else p)
  if-Ends true m o p e f = e
  if-Ends false m o p e f = f

module _ (env : Env) (r : IsResponsive env) (P : Window → Type 0) (s : IsStable P) where
  up-Ends : (w : Window) (m : Manager) → Ends P m (handle_window_dialog_up env w m)
  unfolding handle_window_dialog_up
  up-Ends w m =
      let shown = record (emit auth_request_begin m) {
        dialog_up = true;
        windows = map (insensitive_but w.id) m.windows;
      } in
      let (g, e) = move_grab_to_ends env r w.gdk_window shown in
      (
        record shown { grab = gs_grab_seat_ungrab g },
        rw e,
        (refl, refl, refl, refl, refl, refl, refl),
        insensitive_but-All P s w.id m.windows,
      )

  down-Ends : (w : Window) (m : Manager) → Ends P m (handle_window_dialog_down env w m)
  unfolding handle_window_dialog_down
  down-Ends w m =
      let (g, e) = move_grab_to_ends env r w.gdk_window m in
      (
        emit auth_request_end (record m {
          grab = g;
          windows = map (set_sensitive true) m.windows;
          dialog_up = false;
        }),
        rw e,
        (refl, refl, refl, refl, refl, refl, refl),
        sensitive-All P s m.windows,
      )

  changed-Ends : (w : Window) (m : Manager) → Ends P m (window_dialog_up_changed_cb env w m)
  unfolding window_dialog_up_changed_cb
  changed-Ends w m = if-Ends P w.dialog_up m _ _ (up-Ends w m) (down-Ends w m)

  pub notify-Ends :
      (w : Window) (b : Bool) (m : Manager)
      → (All P m.windows → P w)
      → Ends P m (notify env (w, b) m)
  unfolding notify
  notify-Ends w b m locked =
      let m' = record m { windows = replace w m.windows } in
      let (n, e, k, l) = if-Ends P b m' _ _ (changed-Ends w m') (m', refl, Kept-refl m', λ a. a) in
      (n, e, k, λ a. l (replace-All P w m.windows (locked a) a))

  pub cancel_windows-Ends : (is : List ℕ) (m : Manager) → Ends P m (cancel_windows env is m)
  unfolding cancel_windows
  cancel_windows-Ends [] m = (m, refl, Kept-refl m, λ a. a)
  cancel_windows-Ends (id ∷ is) m = elim (Option-cases (find id m.windows)) [
    | inl e ↦ rw (cancel_windows, e) (cancel_windows-Ends is m)
    | inr (w, e) ↦
        let (w', b) = gs_window_cancel_unlock_request w in
        let (n, f, k, kl) = notify-Ends w' b m (λ a. s.cancel w (find-All P id m.windows w e a)) in
        let (o, g, l, ll) = cancel_windows-Ends is n in
        (o, rw (cancel_windows, e, f, g), Kept-trans m n o k l, λ a. ll (kl a))
  ]

-- ===== src/Manager/Stable.antt =====
-- src/gs-manager.c, src/gs-window-x11.c: what every window keeps while dialogs go up and down.
use budgie_screensaver.Common.{
  ℕ, ◌≡◌, ◌∙◌, inl, inr, Bool, true, false, Option, none, some, List, [], ◌∷◌, ◌++◌, map, All,
  Bool-cases, Option-cases, ◌==◌, if◌then◌else◌,
}
use std.Path.{subst}
use budgie_screensaver.Window.{Window, gs_window_cancel_unlock_request, gs_window_request_unlock}
use budgie_screensaver.Manager.{Env}
use budgie_screensaver.Manager.Dialog.{
  find, replace, set_sensitive, insensitive_but, on_monitor, find_window_at_pointer,
}
use budgie_screensaver.Manager.Windows.{without}

some_inj : (v w : Window) → some v ≡ some w → v ≡ w
some_inj v w h = cc

-- A predicate on windows that the manager's handlers and the dialog's requests leave true.
pub record IsStable (P : Window → Type 0) : Type 0 where
  pub sensitive : (b : Bool) (w : Window) → P w → P (set_sensitive b w)
  pub visible : (w : Window) → P w → P (record w { visible = true })
  pub cancel : (w : Window) → P w → P (gs_window_cancel_unlock_request w).0
  pub request : (id : ℕ) (w : Window) → P w → P (gs_window_request_unlock id w).0

module _ (P : Window → Type 0) where
  if-P : (c : Bool) (v w : Window) → P v → P w → P (if c then v else w)
  if-P true v w a b = a
  if-P false v w a b = b

module _ (P : Window → Type 0) (s : IsStable P) where
  pub sensitive-All : (ws : List Window) → All P ws → All P (map (set_sensitive true) ws)
  sensitive-All [] a = tt
  sensitive-All (w ∷ ws) a = (s.sensitive true w a.0, sensitive-All ws a.1)

  pub insensitive_but-All :
      (id : ℕ) (ws : List Window) → All P ws → All P (map (insensitive_but id) ws)
  insensitive_but-All id [] a = tt
  insensitive_but-All id (w ∷ ws) a =
      (if-P P (w.id == id) w _ a.0 (s.sensitive false w a.0), insensitive_but-All id ws a.1)

module _ (P : Window → Type 0) where
  pub replace-All : (v : Window) (ws : List Window) → P v → All P ws → All P (replace v ws)
  replace-All v [] l a = tt
  replace-All v (w ∷ ws) l a = (if-P P (w.id == v.id) v w l a.0, replace-All v ws l a.1)

  pub append-All : (ws : List Window) (w : Window) → All P ws → P w → All P (ws ++ w ∷ [])
  append-All [] w a l = (l, tt)
  append-All (v ∷ ws) w a l = (a.0, append-All ws w a.1 l)

  pub without-All : (id : ℕ) (ws : List Window) → All P ws → All P (without id ws)
  without-All id [] a = tt
  without-All id (w ∷ ws) a = elim (Bool-cases (w.id == id)) [
    | inl e ↦ rw e a.1
    | inr e ↦ rw e (a.0, without-All id ws a.1)
  ]

  some-P : (v w : Window) → some v ≡ some w → P v → P w
  some-P v w h l = subst P (some_inj v w h) l

  pub find-All : (id : ℕ) (ws : List Window) (w : Window) → find id ws ≡ some w → All P ws → P w
  find-All id [] w h a = cc
  find-All id (v ∷ ws) w h a = elim (Bool-cases (v.id == id)) [
    | inl e ↦ some-P v w (rw e at h) a.0
    | inr e ↦ find-All id ws w (rw e at h) a.1
  ]

  on_monitor-All :
      (monitor : ℕ) (found : Option Window) (ws : List Window) (w : Window)
      → ((v : Window) → found ≡ some v → P v)
      → All P ws
      → on_monitor monitor found ws ≡ some w
      → P w
  unfolding on_monitor
  on_monitor-All monitor found [] w f a h = f w h
  on_monitor-All monitor found (v ∷ ws) w f a h = elim (Bool-cases (v.monitor == monitor)) [
    | inl e ↦ on_monitor-All monitor (some v) ws w (λ u g. some-P v u g a.0) a.1 (rw e at h)
    | inr e ↦ on_monitor-All monitor found ws w f a.1 (rw e at h)
  ]

  pub find_window_at_pointer-All :
      (env : Env) (ws : List Window) (w : Window)
      → All P ws
      → find_window_at_pointer env ws ≡ some w
      → P w
  unfolding find_window_at_pointer
  find_window_at_pointer-All env [] w a h = cc
  find_window_at_pointer-All env (v ∷ ws) w a h =
      elim (Option-cases (on_monitor env.pointer_monitor none (v ∷ ws))) [
        | inl e ↦ some-P v w (rw (find_window_at_pointer, e) at h) a.0
        | inr (u, e) ↦
            on_monitor-All env.pointer_monitor none (v ∷ ws) w (λ x g. cc) a
              (e ∙ (rw (find_window_at_pointer, e) at h))
      ]

-- ===== src/Window/Activity.antt =====
-- src/gs-window-x11.c: what keys and what motions of the pointer come to.
use budgie_screensaver.Common.{
  ℕ, All, ◌*◌, ◌≤◌, ◌≡◌, refl, Bool, true, false, not, Option, none, some, List, [], ◌∷◌, arith,
  ltb, if◌then◌else◌, ℤ, pos, if-false, if-true, if-cases, Bool-cases, ap, ◌∙◌, ◌&&◌, inl, inr, ◌<◌,
}
use budgie_screensaver.Window.{Window}
use budgie_screensaver.Window.Keys.{
  forward_key_events, queue_all, typed, queue_key_event, push, forward-queue_all,
}
use budgie_screensaver.Window.Events.{
  Outside, KeyEvent, is_brightness, key_press_event, press_all, distance, motion_notify_event,
  motions, maybe_handle_activity, moved, note_position,
}

-- The handlers of "activity" and GtkWindow's key handler leave the queue of keys alone.
pub record KeepsKeys (out : Outside) : Type 0 where
  pub activity : (w : Window) → (out.activity w).0.key_events ≡ w.key_events
  pub parent : (k : ℕ) (w : Window) → (out.parent_key_press_event k w).key_events ≡ w.key_events

-- The keys that are not brightness keys.
abbrev pub keyvals : List KeyEvent → List ℕ
keyvals [] = []
keyvals (e ∷ es) = if is_brightness e then keyvals es else e.keyval ∷ keyvals es

maybe_handle_activity-key_events :
    (out : Outside) (keep : KeepsKeys out) (w : Window)
    → (maybe_handle_activity out w).0.key_events ≡ w.key_events
unfolding maybe_handle_activity
maybe_handle_activity-key_events out keep w =
    if-cases {A = Window × Bool} (λ r. r.0.key_events ≡ w.key_events)
      (not w.lock_socket && w.sensitive) _ _ (λ e. keep.activity w) (λ e. refl)

pressed-key_events :
    (out : Outside) (keep : KeepsKeys out) (e : KeyEvent) (v w : Window)
    → is_brightness e ≡ false
    → v.key_events ≡ w.key_events
    → (key_press_event out e v).0.key_events ≡ (queue_key_event e.keyval w).key_events
unfolding key_press_event queue_key_event
pressed-key_events out keep e v w n h =
    if-false {A = Window × Bool} (λ r. r.0.key_events ≡ push e.keyval w.key_events)
      (is_brightness e) _ _ n
      (keep.parent e.keyval _
        ∙ ap (push e.keyval) (maybe_handle_activity-key_events out keep v ∙ h))

press_all-key_events :
    (out : Outside) (keep : KeepsKeys out) (es : List KeyEvent) (v w : Window)
    → v.key_events ≡ w.key_events
    → (press_all out es v).key_events ≡ (queue_all (keyvals es) w).key_events
unfolding press_all queue_all key_press_event
press_all-key_events out keep [] v w h = h
press_all-key_events out keep (e ∷ es) v w h = elim (Bool-cases (is_brightness e)) [
  | inl b ↦
      if-true {A = Window × Bool}
        (λ r. (press_all out es r.0).key_events ≡ (queue_all (keyvals (e ∷ es)) w).key_events)
        (is_brightness e) _ _ b
        (if-true {A = List ℕ} (λ ks. (press_all out es v).key_events ≡ (queue_all ks w).key_events)
          (is_brightness e) _ _ b (press_all-key_events out keep es v w h))
  | inr n ↦
      if-false {A = List ℕ}
        (λ ks. (press_all out (e ∷ es) v).key_events ≡ (queue_all ks w).key_events)
        (is_brightness e) _ _ n
        (press_all-key_events out keep es _ _ (pressed-key_events out keep e v w n h))
]

-- The handler's answers to the keys, TRUE where a key goes no further.
unfoldable pub press_results : Outside → List KeyEvent → Window → List Bool
press_results out [] w = []
press_results out (e ∷ es) w =
    let (v, stopped) = key_press_event out e w in stopped ∷ press_results out es v

press_results-All :
    (out : Outside) (es : List KeyEvent) (w : Window) → All (λ b. b ≡ true) (press_results out es w)
unfolding press_results key_press_event
press_results-All out [] w = tt
press_results-All out (e ∷ es) w = (ground arith, press_results-All out es _)

-- Whether or not the handlers take the activity, and whether or not a dialog is up: the handler
-- answers TRUE to every key typed on a window, which keeps it from further handlers, and from an
-- empty queue the dialog gets exactly the keys that it is to get, in the order typed, without the
-- brightness keys, and none is left.
pub press_all-typed :
    (out : Outside) (es : List KeyEvent) (w : Window)
    → KeepsKeys out
    → w.key_events ≡ []
    → let (w', keys) = forward_key_events (press_all out es w) in
      (keys ≡ typed (keyvals es))
      × (w'.key_events ≡ [])
      × All (λ b. b ≡ true) (press_results out es w)
unfolding forward_key_events
press_all-typed out es w keep empty = (
  rw (press_all-key_events out keep es w w refl) (forward-queue_all (keyvals es) w empty).0,
  refl,
  press_results-All out es w,
)

-- A motion that stays within a tenth of the screen's width.
abbrev pub Jitter : (width : ℕ) (start : ℕ × ℕ) → List (ℤ × ℤ) → Type 0
Jitter width start [] = Unit
Jitter width start (p ∷ ps) = (10 * distance start p ≤ width) × Jitter width start ps

ltb-near : (n d : ℕ) → d ≤ n → ltb n d ≡ false
ltb-near n d h = ground arith

ltb-far : (n d : ℕ) → n < d → ltb n d ≡ true
ltb-far n d h = ground arith

moved-first :
    (out : Outside) (width : ℕ) (p : ℤ × ℤ) (o : Option (ℕ × ℕ)) (w : Window)
    → o ≡ none
    → moved out width p o w ≡ record w { last_position = note_position p }
moved-first out width p o w e = rw e refl

moved-near :
    (out : Outside) (width : ℕ) (start : ℕ × ℕ) (p : ℤ × ℤ) (o : Option (ℕ × ℕ)) (w : Window)
    → o ≡ some start
    → 10 * distance start p ≤ width
    → moved out width p o w ≡ w
moved-near out width start p o w e near = rw e (
    if-false {A = Window} (λ r. r ≡ w) (ltb width (10 * distance start p)) _ _
      (ltb-near width (10 * distance start p) near) refl)

moved-far :
    (out : Outside) (width : ℕ) (start : ℕ × ℕ) (p : ℤ × ℤ) (o : Option (ℕ × ℕ)) (w : Window)
    → o ≡ some start
    → width < 10 * distance start p
    → moved out width p o w ≡ record (maybe_handle_activity out w).0 { last_position = none }
moved-far out width start p o w e far = rw e (
    if-true {A = Window} (λ r. r ≡ record (maybe_handle_activity out w).0 { last_position = none })
      (ltb width (10 * distance start p)) _ _ (ltb-far width (10 * distance start p) far) refl)

motions-still :
    (out : Outside) (width : ℕ) (start : ℕ × ℕ) (ps : List (ℤ × ℤ)) (w : Window)
    → w.last_position ≡ some start
    → Jitter width start ps
    → motions out width ps w ≡ w
unfolding motions motion_notify_event
motions-still out width start [] w e j = refl
motions-still out width start (p ∷ ps) w e j =
    ap (motions out width ps) (moved-near out width start p w.last_position w e j.0)
    ∙ motions-still out width start ps w e j.1

-- From an unset position, a motion to a pixel of the window's own coordinates (none is negative)
-- is noted. However long the pointer then stays within a tenth of the screen's width of it, no
-- handler is called and the window stays as it is. The first motion beyond goes to the handlers of
-- activity, if no dialog is there and the window is sensitive, and the position is unset again.
pub motions-Jitter :
    (out : Outside) (width x y : ℕ) (ps : List (ℤ × ℤ)) (far : ℤ × ℤ) (w : Window)
    → w.last_position ≡ none
    → Jitter width (x, y) ps
    → width < 10 * distance (x, y) far
    → let still = motions out width ((pos x, pos y) ∷ ps) w in
      (still ≡ record w { last_position = some (x, y) })
      × ((motion_notify_event out width far still).0
          ≡ record (maybe_handle_activity out still).0 { last_position = none })
unfolding motions motion_notify_event
motions-Jitter out width x y ps far w e j d =
    let noted : motions out width ((pos x, pos y) ∷ ps) w
        ≡ record w { last_position = some (x, y) } =
      ap (motions out width ps) (moved-first out width (pos x, pos y) w.last_position w e)
      ∙ motions-still out width (x, y) ps _ refl j in
    (noted, moved-far out width (x, y) far _ _ (ap (λ v. v.last_position) noted) d)

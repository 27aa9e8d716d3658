-- ===== src/Window/Keys.antt =====
-- src/gs-window-x11.c: queue_key_event, and the events that the dialog gets.
use mathlib.Core.List.{reverse, reverse-cons, append-nil, append_assoc}
use budgie_screensaver.Common.{
  ℕ, suc, ◌+◌, ◌≡◌, refl, sym, ◌++◌, Bool, true, false, not, ◌&&◌, ◌||◌, List, [], ◌∷◌, arith, ltb,
  ◌==◌, if◌then◌else◌, length, Bool-cases, inl, inr, zero,
}
use budgie_screensaver.Window.{Window}

-- GDK_KEY_Return, GDK_KEY_KP_Enter, GDK_KEY_Escape, GDK_KEY_space.
abbrev pub is_eaten : ℕ → Bool
is_eaten k = k == 0xff0d || k == 0xff8d || k == 0xff1b || k == 0x020

-- GDK_KEY_Tab, GDK_KEY_Up, GDK_KEY_Down.
abbrev pub is_navigation : ℕ → Bool
is_navigation k = k == 0xff09 || k == 0xff52 || k == 0xff54

abbrev pub max_queued_events : ℕ
max_queued_events = 16

abbrev is_empty : List ℕ → Bool
is_empty [] = true
is_empty (k ∷ ks) = false

-- The queue after a key, the last one first.
unfoldable pub push : (keyval : ℕ) → List ℕ → List ℕ
push k q =
    if is_empty q && is_eaten k
    then q
    else if ltb (length q) max_queued_events && not (is_navigation k)
    then k ∷ q
    else q

unfoldable pub queue_key_event : (keyval : ℕ) → Window → Window
unfolding push
queue_key_event k w = record w { key_events = push k w.key_events }

-- The key events that the dialog's window is given, in this order; none is left.
unfoldable pub forward_key_events : Window → Window × List ℕ
forward_key_events w = (record w { key_events = [] }, reverse w.key_events)

unfoldable pub queue_all : List ℕ → Window → Window
queue_all [] w = w
queue_all (k ∷ ks) w = queue_all ks (queue_key_event k w)

-- The first `n` keys that do not move the focus.
abbrev pub first : (n : ℕ) → List ℕ → List ℕ
first zero ks = []
first (suc n) [] = []
first (suc n) (k ∷ ks) = if is_navigation k then first (suc n) ks else k ∷ first n ks

-- What the dialog is to get of the keys that were typed: nothing before the first key that is
-- neither eaten nor a navigation key, and from there 16 keys that do not move the focus.
abbrev pub typed : List ℕ → List ℕ
typed [] = []
typed (k ∷ ks) = if is_eaten k || is_navigation k then typed ks else k ∷ first 15 ks

feed : List ℕ → List ℕ → List ℕ
unfolding push
feed [] q = q
feed (k ∷ ks) q = feed ks (push k q)

feed-nonempty :
    (ks : List ℕ) (m x : ℕ) (q : List ℕ)
    → length (x ∷ q) + m ≡ 16
    → reverse (feed ks (x ∷ q)) ≡ reverse (x ∷ q) ++ first m ks
unfolding feed
feed-nonempty [] zero x q h = sym (append-nil _)
feed-nonempty [] (suc m) x q h = sym (append-nil _)
feed-nonempty (k ∷ ks) zero x q h = ground (arith, feed-nonempty ks zero x q h)
feed-nonempty (k ∷ ks) (suc m) x q h = elim (Bool-cases (is_navigation k)) [
  | inl nav ↦ ground (arith, nav, feed-nonempty ks (suc m) x q h)
  | inr key ↦ ground (
    arith,
    key,
    feed-nonempty ks m k (x ∷ q) (omega arith),
    reverse-cons k (x ∷ q),
    append_assoc (reverse (x ∷ q)) (k ∷ []) (first m ks),
  )
]

feed-nil : (ks : List ℕ) → reverse (feed ks []) ≡ typed ks
unfolding feed
feed-nil [] = refl
feed-nil (k ∷ ks) = ground (arith, feed-nil ks, feed-nonempty ks 15 k [] refl, reverse-cons k [])

queue_all-key_events :
    (ks : List ℕ) (w : Window) → (queue_all ks w).key_events ≡ feed ks w.key_events
unfolding queue_all feed queue_key_event
queue_all-key_events [] w = refl
queue_all-key_events (k ∷ ks) w = queue_all-key_events ks (queue_key_event k w)

-- From an empty queue, the dialog gets exactly the keys that it is to get, in the order typed, and
-- the queue is empty afterwards.
pub forward-queue_all :
    (ks : List ℕ) (w : Window)
    → w.key_events ≡ []
    → let (w', keys) = forward_key_events (queue_all ks w) in
      (keys ≡ typed ks) × (w'.key_events ≡ [])
unfolding forward_key_events
forward-queue_all ks w empty = (rw (queue_all-key_events ks w, empty) (feed-nil ks), refl)

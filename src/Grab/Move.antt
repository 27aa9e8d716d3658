-- ===== src/Grab/Move.antt =====
-- src/gs-grab-x11.c: moving the grab, once and in the loop.
use budgie_screensaver.Common.{
  ℕ, zero, suc, ◌+◌, ◌-◌, ◌≤◌, ◌<◌, ◌≡◌, ◌⊎◌, refl, Bool, true, false, not, ◌&&◌, Option, none,
  some, is_some, arith, if◌then◌else◌, Bool-cases, Option-cases, ap, inl, inr,
}
use budgie_screensaver.Grab.{
  Grab, GrabStatus, Display, is_success, same_window, gs_grab_seat_grab, gs_grab_seat_reset,
  gs_grab_seat_ungrab, settle, gs_grab_move_grab, gs_grab_move_to_window, call, wait,
}
use budgie_screensaver.Grab.Seat.{gs_grab_seat_grab_lem}

same_window_eq : (a b : Option ℕ) → same_window a b ≡ true → a ≡ b
same_window_eq none none h = refl
same_window_eq none (some b) h = cc
same_window_eq (some a) none h = cc
same_window_eq (some a) (some b) h = ground arith

module _ (d : Display) (window : ℕ) (old : Option ℕ) (hide old_hide : Bool) where
  settle-requests :
      (g : Grab) (status : GrabStatus)
      → (settle d (some window) old hide old_hide (g, status)).1 ≡ false
      → g.requests + 1 ≤ (settle d (some window) old hide old_hide (g, status)).0.requests
  unfolding settle gs_grab_seat_grab
  settle-requests g status = ground arith

  settle_lem :
      (g : Grab) (status : GrabStatus)
      → let (g', res) = settle d (some window) old hide old_hide (g, status) in
        (res ≡ true → ((is_success status ≡ true) × (g' ≡ g)) ⊎ (g'.seat_grab_window ≡ some window))
        × (is_success status ≡ true → res ≡ true)
  unfolding settle
  settle_lem g status =
      let again = gs_grab_seat_grab_lem d window hide (call wait g) in
      (ground (arith, again), ground arith)

gs_grab_seat_ungrab-requests :
    (g : Grab)
    → ((gs_grab_seat_ungrab g).requests ≡ g.requests)
      × ((gs_grab_seat_reset g).requests ≡ g.requests)
unfolding gs_grab_seat_ungrab
gs_grab_seat_ungrab-requests g = (ground arith, ground arith)

-- What the move starts from: a grab that was lost is forgotten.
abbrev found : Display → Grab → Grab
found d g = if g.seat && not (d.is_grabbed g.requests) then gs_grab_seat_reset g else g

abbrev freed : Grab → Grab
freed g = if is_some g.seat_grab_window then gs_grab_seat_ungrab g else g

freed-requests : (d : Display) (g : Grab) → (freed (found d g)).requests ≡ g.requests
freed-requests d g =
    ground (arith, gs_grab_seat_ungrab-requests g, gs_grab_seat_ungrab-requests (found d g))

-- A move that succeeds ends with the window noted. One that fails was refused two requests at
-- least. One whose first request would be granted succeeds.
pub gs_grab_move_grab_lem :
    (d : Display) (window : ℕ) (hide : Bool) (g : Grab)
    → let (g', res) = gs_grab_move_grab d (some window) hide g in
      (res ≡ true → g'.seat_grab_window ≡ some window)
      × (res ≡ false → g.requests + 2 ≤ g'.requests)
      × (is_success (d.answer g.requests) ≡ true → res ≡ true)
unfolding gs_grab_move_grab
gs_grab_move_grab_lem d window hide g =
    let g0 = found d g in
    let g1 = freed g0 in
    let first = gs_grab_seat_grab d (some window) hide g1 in
    let one = gs_grab_seat_grab_lem d window hide g1 in
    let count = freed-requests d g in
    let rest = settle_lem d window g0.seat_grab_window hide g0.seat_hide_cursor first.0 first.1 in
    let more =
      settle-requests d window g0.seat_grab_window hide g0.seat_hide_cursor first.0 first.1 in
    elim (Bool-cases (same_window g0.seat_grab_window (some window))) [
      | inl same ↦
          rw same
            ((λ _. same_window_eq g0.seat_grab_window (some window) same), (λ e. cc), (λ _. refl))
      | inr other ↦ rw other (
        ground (arith, one, rest),
        ground (arith, one, count, more),
        ground (arith, one, count, rest),
      )
    ]

-- If the loop ends, the grab is on the window that was asked for.
move_to_window_sound :
    (d : Display) (fuel window : ℕ) (hide : Bool) (g g' : Grab)
    → gs_grab_move_to_window d fuel (some window) hide g ≡ some g'
    → g'.seat_grab_window ≡ some window
unfolding gs_grab_move_to_window
move_to_window_sound d zero window hide g g' h = cc
move_to_window_sound d (suc fuel) window hide g g' h =
    let one = gs_grab_move_grab_lem d window hide g in
    let next = (gs_grab_move_grab d (some window) hide g).0 in
    ground (arith, one, move_to_window_sound d fuel window hide next g')

-- Once the display grants the requests from some request on, a fuel of as many rounds as there
-- are requests until then, and one more, is enough.
move_to_window_total :
    (d : Display) (fuel window granting : ℕ) (hide : Bool) (g : Grab)
    → ((n : ℕ) → granting ≤ n → is_success (d.answer n) ≡ true)
    → granting - g.requests < fuel
    → is_some (gs_grab_move_to_window d fuel (some window) hide g) ≡ true
unfolding gs_grab_move_to_window
move_to_window_total d zero window k hide g grants h = elim h [ ]
move_to_window_total d (suc fuel) window k hide g grants h =
    let one = gs_grab_move_grab_lem d window hide g in
    let next = (gs_grab_move_grab d (some window) hide g).0 in
    let ih = move_to_window_total d fuel window k hide next grants in
    ground (arith, one, ih, grants g.requests)

-- The loop that moves the grab does not give up: if the display grants the requests from some
-- request on, it ends, within as many rounds as there are requests until then and one more, and
-- the grab is on the window that was asked for.
pub gs_grab_move_to_window_lem :
    (d : Display) (fuel window granting : ℕ) (hide : Bool) (g : Grab)
    → ((n : ℕ) → granting ≤ n → is_success (d.answer n) ≡ true)
    → granting - g.requests < fuel
    → (g' : Grab) × (gs_grab_move_to_window d fuel (some window) hide g ≡ some g')
      × (g'.seat_grab_window ≡ some window)
gs_grab_move_to_window_lem d fuel window k hide g grants h =
    elim (Option-cases (gs_grab_move_to_window d fuel (some window) hide g)) [
      | inl e ↦ cc (ap is_some e, move_to_window_total d fuel window k hide g grants h)
      | inr (g', e) ↦ (g', e, move_to_window_sound d fuel window hide g g' e)
    ]

-- ===== src/Grab/Retries.antt =====
-- src/gs-grab-x11.c: gs_grab_grab_window and its retries.
use budgie_screensaver.Common.{
  ℕ, zero, suc, ◌+◌, ◌≤◌, ◌≡◌, ◌⊎◌, inl, inr, refl, Bool, true, false, some, arith, Bool-cases,
}
use budgie_screensaver.Grab.{
  Grab, Display, is_success, attempts, gs_grab_seat_grab, gs_grab_grab_window, call, wait,
  move_focus,
}
use budgie_screensaver.Grab.Seat.{gs_grab_seat_grab_lem}

-- The display refuses `n` requests from the `k`-th on.
abbrev pub Refuses : Display → (k n : ℕ) → Type 0
Refuses d k zero = Unit {0}
Refuses d k (suc n) = (is_success (d.answer k) ≡ false) × Refuses d (suc k) n

-- A grab that every request was refused to: nothing is noted.
abbrev pub Kept : (n : ℕ) (g g' : Grab) → Type 0
Kept n g g' =
    (g'.seat ≡ g.seat) × (g'.seat_grab_window ≡ g.seat_grab_window) × (g'.requests ≡ n + g.requests)

attempts-refused :
    (d : Display) (n window : ℕ) (hide : Bool) (g : Grab)
    → Refuses d g.requests n
    → let (g', status) = attempts d n (some window) hide g in
      Kept n g g' × (is_success status ≡ false)
unfolding attempts
attempts-refused d zero window hide g r = ((refl, refl, omega arith), refl)
attempts-refused d (suc n) window hide g r =
    let g1 = (gs_grab_seat_grab d (some window) hide g).0 in
    ground (
      arith,
      gs_grab_seat_grab_lem d window hide g,
      attempts-refused d n window hide (call wait g1)
          (rw (gs_grab_seat_grab_lem d window hide g).1 r.1),
    )

-- Either a request was granted, and the window is noted, or all of them were refused.
attempts_cases :
    (d : Display) (n window : ℕ) (hide : Bool) (g : Grab)
    → let (g', status) = attempts d n (some window) hide g in
      ((is_success status ≡ true)
        × (g'.seat ≡ true)
        × (g'.seat_grab_window ≡ some window)
        × (g'.requests ≤ n + g.requests))
      ⊎ ((is_success status ≡ false) × Refuses d g.requests n × Kept n g g')
unfolding attempts
attempts_cases d zero window hide g = inr (refl, tt, (refl, refl, omega arith))
attempts_cases d (suc n) window hide g =
    let g1 = (gs_grab_seat_grab d (some window) hide g).0 in
    let one = gs_grab_seat_grab_lem d window hide g in
    let ih = attempts_cases d n window hide (call wait g1) in
    elim (Bool-cases (is_success (gs_grab_seat_grab d (some window) hide g).1)) [
      | inl granted ↦ inl (ground (arith, one))
      | inr refused ↦ elim ih [
        | inl granted ↦ inl (ground (arith, one, granted))
        | inr (e, r, k) ↦
            inr (ground (arith, e), (ground (arith, one), rw one.1 at r), ground (arith, one, k))
      ]
    ]

Refuses-later : (d : Display) (k j : ℕ) → j ≡ 4 + k → Refuses d k 8 → Refuses d j 4
Refuses-later d k j e r = ground arith

Refuses-both : (d : Display) (k j : ℕ) → j ≡ 4 + k → Refuses d k 4 → Refuses d j 4 → Refuses d k 8
Refuses-both d k j e r r' = ground arith

-- The function answers TRUE in every case, also where the display refused all of its eight
-- requests, after which nothing is noted that was not noted before. Unless it refused all eight,
-- the window is noted. It makes no more than eight requests.
pub gs_grab_grab_window_lem :
    (d : Display) (window : ℕ) (hide : Bool) (g : Grab)
    → let (g', res) = gs_grab_grab_window d (some window) hide g in
      (res ≡ true)
      × (Refuses d g.requests 8 → Kept 8 g g')
      × ((g'.seat ≡ true) × (g'.seat_grab_window ≡ some window) ⊎ Refuses d g.requests 8)
      × (g'.requests ≤ 8 + g.requests)
unfolding gs_grab_grab_window
gs_grab_grab_window_lem d window hide g =
    let g1 = (attempts d 4 (some window) hide g).0 in
    let g2 = call (move_focus (some window)) g1 in
    let refused = attempts-refused d 4 window hide g in
    let refused' = attempts-refused d 4 window hide g2 in
    elim (attempts_cases d 4 window hide g) [
      | inl granted ↦ (
        ground (arith, granted),
        ground (arith, granted, refused),
        inl (ground (arith, granted)),
        ground (arith, granted),
      )
      | inr (e, r, k) ↦ elim (attempts_cases d 4 window hide g2) [
        | inl granted ↦ (
          ground (arith, e),
          λ all. cc (granted.0, (refused' (Refuses-later d g.requests g2.requests k.2 all)).1),
          inl (ground (arith, e, granted)),
          ground (arith, e, k, granted),
        )
        | inr (e', r', k') ↦ (
          ground (arith, e),
          ground (arith, e, k, k'),
          inr (Refuses-both d g.requests g2.requests k.2 r r'),
          ground (arith, e, k, k'),
        )
      ]
    ]

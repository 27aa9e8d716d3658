-- ===== src/Grab/Seat.antt =====
-- src/gs-grab-x11.c: one grab request.
use budgie_screensaver.Common.{ℕ, suc, ◌≡◌, Bool, true, false, Option, none, some, is_some, arith}
use budgie_screensaver.Grab.{Grab, Display, is_success, gs_grab_seat_grab, gs_grab_release}

-- The grab notes a window exactly while it notes a seat.
abbrev pub IsValid : Grab → Type 0
IsValid g = g.seat ≡ is_some g.seat_grab_window

-- A request for a window is answered once; the seat and the window are noted if it succeeds, and
-- are kept if it fails.
pub gs_grab_seat_grab_lem :
    (d : Display) (window : ℕ) (hide : Bool) (g : Grab)
    → let (g', status) = gs_grab_seat_grab d (some window) hide g in
      (status ≡ d.answer g.requests)
      × (g'.requests ≡ suc g.requests)
      × (is_success status ≡ true
          → (g'.seat ≡ true) × (g'.seat_grab_window ≡ some window) × (g'.seat_hide_cursor ≡ hide))
      × (is_success status ≡ false
          → (g'.seat ≡ g.seat)
            × (g'.seat_grab_window ≡ g.seat_grab_window)
            × (g'.seat_hide_cursor ≡ g.seat_hide_cursor))
unfolding gs_grab_seat_grab
gs_grab_seat_grab_lem d window hide g = (ground arith, ground arith, ground arith, ground arith)

pub gs_grab_seat_grab-IsValid :
    (d : Display) (window : Option ℕ) (hide : Bool) (g : Grab)
    → IsValid g
    → IsValid (gs_grab_seat_grab d window hide g).0
unfolding gs_grab_seat_grab
gs_grab_seat_grab-IsValid d none hide g v = v
gs_grab_seat_grab-IsValid d (some window) hide g v = ground arith

-- After a release nothing is noted, and a second release changes nothing and calls nothing.
pub gs_grab_release_lem :
    (g : Grab)
    → IsValid (gs_grab_release g)
      × ((gs_grab_release g).seat_grab_window ≡ none)
      × (gs_grab_release (gs_grab_release g) ≡ gs_grab_release g)
unfolding gs_grab_release
gs_grab_release_lem g = (ground arith, ground arith, ground arith)

-- ===== src/Grab/Tests.antt =====
-- src/gs-grab-x11.c: the theorems at concrete displays.
use budgie_screensaver.Common.{ℕ, ◌≤◌, ◌≡◌, true, false, none, some, [], ltb, arith, if◌then◌else◌}
use budgie_screensaver.Grab.{Grab, Display, success, frozen, is_success, gs_grab_move_to_window}
use budgie_screensaver.Grab.Move.{gs_grab_move_to_window_lem}

-- Frozen for the first three requests.
abbrev display : Display
display = record { answer = λ n. if ltb n 3 then frozen else success; is_grabbed = λ n. true }

abbrev fresh : Grab
fresh = record {
  seat = false;
  seat_hide_cursor = false;
  seat_grab_window = none;
  invisible = 90;
  requests = 0;
  calls = [];
}

abbrev on_root : Grab
on_root = record fresh { seat = true; seat_grab_window = some 1; requests = 1 }

granting : (n : ℕ) → 3 ≤ n → is_success (display.answer n) ≡ true
granting n h = ground arith

gs_grab_move_to_window_example :
    (g : Grab) × (gs_grab_move_to_window display 3 (some 2) false on_root ≡ some g)
    × (g.seat_grab_window ≡ some 2)
gs_grab_move_to_window_example =
    gs_grab_move_to_window_lem display 3 2 3 false on_root granting (omega arith)

-- ===== src/Grab.antt =====
-- src/gs-grab-x11.c: the grab of the seat (keyboard and pointer).
--
-- The X server is not modelled: a `Display` says how it answers, request by request, and the grab
-- counts its requests. A GdkWindow is a number, and NULL is `none`. The build has no
-- XF86MiscSetGrabKeysState, so that the lock smasher is a no-op.
pub mod Seat
pub mod Retries
pub mod Move
pub mod Tests
use budgie_screensaver.Common.{
  ℕ, suc, zero, Bool, true, false, not, ◌&&◌, Option, none, some, is_some, List, ◌∷◌, ◌==◌,
  if◌then◌else◌,
}

-- GdkGrabStatus.
pub data GrabStatus : Type 0 where
  success already_grabbed invalid_time not_viewable frozen failed : GrabStatus

pub data Call : Type 0 where
  -- gdk_seat_grab, and whether with a blank cursor
  seat_grab : (window : ℕ) (blank : Bool) → Call
  seat_ungrab : Call
  move_focus : Option ℕ → Call
  -- sleep (1), nanosleep
  wait : Call

pub record Display : Type 0 where
  -- The answer to the n-th grab request.
  pub answer : ℕ → GrabStatus
  -- Whether the pointer is grabbed after n requests.
  pub is_grabbed : ℕ → Bool

pub record Grab : Type 0 where
  pub seat : Bool  -- not NULL
  pub seat_hide_cursor : Bool
  pub seat_grab_window : Option ℕ
  pub invisible : ℕ
  pub requests : ℕ
  -- The calls on the display, the last one first.
  pub calls : List Call

abbrev pub is_success : GrabStatus → Bool
is_success success = true
is_success _ = false

-- `a == b` on two window pointers.
abbrev pub same_window : Option ℕ → Option ℕ → Bool
same_window none none = true
same_window none (some b) = false
same_window (some a) none = false
same_window (some a) (some b) = a == b

abbrev pub call : Call → Grab → Grab
call c g = record g { calls = c ∷ g.calls }

module _ (d : Display) where
  -- The guard on a NULL window returns FALSE, which is GDK_GRAB_SUCCESS.
  unfoldable pub gs_grab_seat_grab : Option ℕ → (hide_cursor : Bool) → Grab → Grab × GrabStatus
  gs_grab_seat_grab none hide_cursor g = (g, success)
  gs_grab_seat_grab (some window) hide_cursor g =
      let status = d.answer g.requests in
      let g = call (seat_grab window (not hide_cursor)) (record g { requests = suc g.requests }) in
      if is_success status
      then (
        record g { seat = true; seat_grab_window = some window; seat_hide_cursor = hide_cursor },
        status,
      )
      else (g, status)

unfoldable pub gs_grab_seat_reset : Grab → Grab
gs_grab_seat_reset g = record g { seat_grab_window = none; seat = false }

-- gdk_seat_ungrab of a NULL seat is refused by its guard.
unfoldable pub gs_grab_seat_ungrab : Grab → Grab
unfolding gs_grab_seat_reset
gs_grab_seat_ungrab g = gs_grab_seat_reset (if g.seat then call seat_ungrab g else g)

unfoldable pub gs_grab_release : Grab → Grab
unfolding gs_grab_seat_ungrab
gs_grab_release g = gs_grab_seat_ungrab g

module _ (d : Display) where
  -- The retry, and the return to the previous window, after the first request.
  unfoldable pub settle :
      (window old_window : Option ℕ) (hide_cursor old_hide_cursor : Bool)
      → Grab × GrabStatus
      → Grab × Bool
  settle window old_window hide_cursor old_hide_cursor (g, status) =
      let (g, status) =
        if is_success status
        then (g, status)
        else gs_grab_seat_grab d window hide_cursor (call wait g) in
      if is_success status
      then (g, true)
      else if is_some old_window
      then ((gs_grab_seat_grab d old_window old_hide_cursor g).0, false)
      else (g, false)

  unfoldable pub gs_grab_move_grab : Option ℕ → (hide_cursor : Bool) → Grab → Grab × Bool
  gs_grab_move_grab window hide_cursor g =
      let g = if g.seat && not (d.is_grabbed g.requests) then gs_grab_seat_reset g else g in
      if same_window g.seat_grab_window window
      then (g, true)
      else let old = g.seat_grab_window in
        let old_hide_cursor = g.seat_hide_cursor in
        let g = if is_some old then gs_grab_seat_ungrab g else g in
        settle window old hide_cursor old_hide_cursor (gs_grab_seat_grab d window hide_cursor g)

  -- At most `n` requests, with a wait after each that fails.
  unfoldable pub attempts : (n : ℕ) → Option ℕ → (hide_cursor : Bool) → Grab → Grab × GrabStatus
  attempts zero window hide_cursor g = (g, failed)
  attempts (suc n) window hide_cursor g =
      let (g', status) = gs_grab_seat_grab d window hide_cursor g in
      let rest = attempts n window hide_cursor (call wait g') in
      if is_success status then (g', status) else rest

  abbrev pub retries : ℕ
  retries = 4

  unfoldable pub gs_grab_grab_window : Option ℕ → (hide_cursor : Bool) → Grab → Grab × Bool
  gs_grab_grab_window window hide_cursor g =
      let (g, status) = attempts retries window hide_cursor g in
      if is_success status
      then (g, true)
      else ((attempts retries window hide_cursor (call (move_focus window) g)).0, true)

  -- `root` is the root window of the pointer's screen.
  unfoldable pub gs_grab_grab_root : (root : ℕ) → (hide_cursor : Bool) → Grab → Grab × Bool
  gs_grab_grab_root root hide_cursor g = gs_grab_grab_window (some root) hide_cursor g

  unfoldable pub gs_grab_grab_offscreen : (hide_cursor : Bool) → Grab → Grab × Bool
  gs_grab_grab_offscreen hide_cursor g = gs_grab_grab_window (some g.invisible) hide_cursor g

  -- The loop has no bound; `none` means that the fuel ran out.
  unfoldable pub gs_grab_move_to_window :
      (fuel : ℕ) → Option ℕ → (hide_cursor : Bool) → Grab → Option Grab
  gs_grab_move_to_window zero window hide_cursor g = none
  gs_grab_move_to_window (suc fuel) window hide_cursor g =
      let (g', result) = gs_grab_move_grab window hide_cursor g in
      let rest = gs_grab_move_to_window fuel window hide_cursor g' in
      if result then some g' else rest

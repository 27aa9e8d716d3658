-- ===== src/Prefs/Timeouts.antt =====
-- src/gs-prefs.c: the clamp before the conversion of seconds to milliseconds.
use budgie_screensaver.Common.{ℕ, ◌*◌, ◌≤◌, ◌≡◌, min, arith}
use budgie_screensaver.Prefs.{Prefs, set_lock_timeout, set_logout_timeout, max_uint}

-- Whatever the number of seconds, both setters store it in milliseconds, cut at the largest
-- number of whole seconds that a guint of milliseconds holds, and the product never wraps.
pub set_timeouts-clamp :
    (p : Prefs) (v : ℕ)
    → ((set_lock_timeout p v).lock_timeout ≡ min v 4294967 * 1000)
      × ((set_logout_timeout p v).logout_timeout ≡ min v 4294967 * 1000)
      × ((set_lock_timeout p v).lock_timeout ≤ max_uint)
      × ((set_logout_timeout p v).logout_timeout ≤ max_uint)
unfolding set_lock_timeout set_logout_timeout
set_timeouts-clamp p v = (ground arith, ground arith, ground arith, ground arith)

pub set_lock_timeout_mono :
    (p q : Prefs) (v w : ℕ)
    → v ≤ w
    → (set_lock_timeout p v).lock_timeout ≤ (set_lock_timeout q w).lock_timeout
set_lock_timeout_mono p q v w h = omega (arith, set_timeouts-clamp p v, set_timeouts-clamp q w)

-- ===== src/Fade/Timer.antt =====
-- src/gs-fade.c: the timer of a fade, call by call.
use budgie_screensaver.Common.{
  ℕ, zero, suc, ◌≡◌, true, false, [], ◌++◌, arith, Bool-cases, inl, inr,
}
use budgie_screensaver.Fade.{
  Fade, Doubles, Backend, gs_fade_finish, gs_fade_set_alpha, gs_fade_out_iter, fade_out_timer,
  run_timer,
}

-- `n` steps down from an alpha.
abbrev pub descend : Doubles → (n alpha step : ℕ) → ℕ
descend d zero alpha step = alpha
descend d (suc n) alpha step = descend d n (d.sub alpha step) step

-- A fade that has ended: it is not active, has no timer, and all that waited for it were called.
abbrev pub Ended : (f g : Fade) → Type 0
Ended f g =
    (g.active ≡ false) × (g.timer_id ≡ 0) × (g.pending ≡ []) × (g.called ≡ f.called ++ f.pending)

-- One call of the timer: it stops, or the alpha has gone down a step and nothing else has changed.
fade_out_timer_lem :
    (d : Doubles) (b : Backend) (f : Fade)
    → f.active ≡ true
    → let (g, again) = fade_out_timer d b f in
      (again ≡ false → Ended f g)
      × (again ≡ true
          → (d.less f.current_alpha d.hundredth ≡ false)
            × (g.active ≡ true)
            × (g.current_alpha ≡ d.sub f.current_alpha f.alpha_per_iter)
            × (g.alpha_per_iter ≡ f.alpha_per_iter)
            × (g.called ≡ f.called)
            × (g.pending ≡ f.pending))
unfolding fade_out_timer gs_fade_out_iter gs_fade_set_alpha gs_fade_finish
fade_out_timer_lem d b f a = (ground arith, ground arith)

-- An active fade ends: if the alpha is below a hundredth after `n` steps of the processor's
-- subtraction, the timer is called `n + 1` times at most, also where the screen refuses a step,
-- and then the fade is stopped and every callback that waited has been called, in order.
pub run_timer-Ended :
    (d : Doubles) (b : Backend) (n : ℕ) (f : Fade)
    → f.active ≡ true
    → d.less (descend d n f.current_alpha f.alpha_per_iter) d.hundredth ≡ true
    → Ended f (run_timer d b (suc n) f)
unfolding run_timer
run_timer-Ended d b zero f a low = ground (arith, fade_out_timer_lem d b f a)
run_timer-Ended d b (suc n) f a low =
    let one = fade_out_timer_lem d b f a in
    let g = (fade_out_timer d b f).0 in
    elim (Bool-cases (fade_out_timer d b f).1) [
      | inl again ↦
          let (_, on, alpha, iter, called, pending) = one.1 again in
          ground (arith, again, one, run_timer-Ended d b n g on (rw (alpha, iter) low))
      | inr over ↦ ground (arith, over, one)
    ]

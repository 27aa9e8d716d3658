-- ===== src/Fade/Tests.antt =====
-- src/gs-fade.c: the theorems at a concrete fade.
--
-- The doubles are whole hundredths here.
use budgie_screensaver.Common.{◌-◌, refl, true, false, [], ◌∷◌, ltb}
use budgie_screensaver.Fade.{Fade, Doubles, Backend, gamma_ramp, run_timer}
use budgie_screensaver.Fade.Timer.{Ended, run_timer-Ended}

abbrev hundredths : Doubles
hundredths = record {
  sub = λ a b. a - b;
  less = λ a b. ltb a b;
  one = 100;
  hundredth = 1;
  reciprocal = λ n. 50;
  steps = λ timeout. 2;
}

abbrev screen : Backend
screen = record { fade_setup = λ n. true; fade_set_alpha_gamma = λ n a. true }

-- Active, with a callback that waits.
abbrev fading : Fade
fading = record {
  enabled = true;
  active = true;
  timeout = 1000;
  step = 0;
  timer_id = 5;
  alpha_per_iter = 50;
  current_alpha = 100;
  fade_type = gamma_ramp;
  gamma_calls = 1;
  released = false;
  pending = 9 ∷ [];
  called = [];
  calls = [];
}

run_timer-Ended_example : Ended fading (run_timer hundredths screen 3 fading)
run_timer-Ended_example = run_timer-Ended hundredths screen 2 fading refl refl

-- ===== src/Fade.antt =====
-- src/gs-fade.c: the fade of the screen's gamma, its timer and its callbacks.
--
-- A gdouble is the number of its 64 bits, and the processor's operations on it are the fields of a
-- `Doubles`. What the screen's gamma functions return, call by call, is a `Backend`; the functions
-- themselves are in Fade/Gamma (GnomeRR) and Fade/VidMode (XF86VidMode). There is one screen, as
-- gs_fade_init sets it.
pub mod Timer
pub mod Gamma
pub mod Restore
pub mod Session
pub mod VidMode
pub mod Blackout
pub mod RampTests
pub mod Control
pub mod Tests
use budgie_screensaver.Common.{
  ℕ, zero, suc, Bool, true, false, not, List, [], ◌∷◌, ◌++◌, Option, none, some, ltb, if◌then◌else◌,
  SourceCall, add_timeout, remove,
}

pub data FadeType : Type 0 where
  no_fade gamma_number gamma_ramp xrandr : FadeType

pub record Doubles : Type 0 where
  pub sub : (a b : ℕ) → ℕ
  pub less : (a b : ℕ) → Bool
  pub one : ℕ
  pub hundredth : ℕ
  -- 1.0 / n
  pub reciprocal : (n : ℕ) → ℕ
  -- (timeout / 1000.) * 60, as a guint
  pub steps : (timeout : ℕ) → ℕ

pub record Backend : Type 0 where
  pub fade_setup : (call : ℕ) → Bool
  pub fade_set_alpha_gamma : (call alpha : ℕ) → Bool

pub record Fade : Type 0 where
  pub enabled : Bool
  pub active : Bool
  pub timeout : ℕ
  pub step : ℕ
  pub timer_id : ℕ
  pub alpha_per_iter : ℕ
  pub current_alpha : ℕ
  pub fade_type : FadeType
  -- The calls of the gamma functions so far, and whether fade_finish gave the ramps back last.
  pub gamma_calls : ℕ
  pub released : Bool
  -- The callbacks connected to "faded", and those called, the last one last.
  pub pending : List ℕ
  pub called : List ℕ
  -- The calls on the main loop, the last one first.
  pub calls : List SourceCall

abbrev pub can_fade : FadeType → Bool
can_fade no_fade = false
can_fade _ = true

unfoldable pub gs_fade_set_enabled : Bool → Fade → Fade
gs_fade_set_enabled enabled f = record f { enabled = enabled }

-- Emits "faded": each callback disconnects itself and is called.
unfoldable pub emit_faded : Fade → Fade
emit_faded f = record f { pending = []; called = f.called ++ f.pending }

unfoldable pub gs_fade_stop : Fade → Fade
gs_fade_stop f =
    let f =
      if ltb 0 f.timer_id
      then record f { timer_id = 0; calls = remove f.timer_id ∷ f.calls }
      else f in
    record f { step = 0; active = false }

unfoldable pub gs_fade_finish : Fade → Fade
unfolding gs_fade_stop emit_faded
gs_fade_finish f =
    if not f.active then f else record (emit_faded (gs_fade_stop f)) { active = false }

module _ (d : Doubles) (b : Backend) where
  unfoldable pub gs_fade_set_alpha : (alpha : ℕ) → Fade → Fade × Bool
  gs_fade_set_alpha alpha f =
      if can_fade f.fade_type
      then (
        record f { gamma_calls = suc f.gamma_calls; released = false },
        b.fade_set_alpha_gamma f.gamma_calls alpha,
      )
      else (f, false)

  unfoldable pub gs_fade_out_iter : Fade → Fade × Bool
  unfolding gs_fade_set_alpha
  gs_fade_out_iter f =
      if d.less f.current_alpha d.hundredth
      then (f, false)
      else let alpha = d.sub f.current_alpha f.alpha_per_iter in
        gs_fade_set_alpha alpha (record f { current_alpha = alpha })

  -- The second part is what the main loop gets: whether to call again.
  unfoldable pub fade_out_timer : Fade → Fade × Bool
  fade_out_timer f =
      let (f, res) = gs_fade_out_iter f in if not res then (gs_fade_finish f, false) else (f, true)

  -- `id` is what g_timeout_add returns.
  unfoldable pub gs_fade_begin : (timeout id : ℕ) → Fade → Fade
  unfolding gs_fade_stop gs_fade_finish
  gs_fade_begin timeout id f =
      let f = if ltb 0 f.timer_id then gs_fade_stop f else f in
      let f = record f { active = true; timeout = timeout } in
      if can_fade f.fade_type
      then record f {
        alpha_per_iter = d.reciprocal (d.steps timeout);
        timer_id = id;
        calls = add_timeout 16 id ∷ f.calls;
      }
      else gs_fade_finish f

  unfoldable pub gs_fade_start : (timeout id : ℕ) → Fade → Fade
  unfolding gs_fade_begin
  gs_fade_start timeout id f =
      if can_fade f.fade_type
      then (let g = record f { gamma_calls = suc f.gamma_calls } in
          if b.fade_setup f.gamma_calls then gs_fade_begin timeout id g else g)
      else gs_fade_begin timeout id f

  abbrev pub connect : Option ℕ → Fade → Fade
  connect none f = f
  connect (some callback) f = record f { pending = f.pending ++ callback ∷ [] }

  unfoldable pub gs_fade_async : (timeout id : ℕ) → (func : Option ℕ) → Fade → Fade
  gs_fade_async timeout id func f =
      let f = if f.active then gs_fade_stop f else f in gs_fade_start timeout id (connect func f)

  unfoldable pub gs_fade_reset : Fade → Fade
  gs_fade_reset f =
      let f = if f.active then gs_fade_stop f else f in
      let f = (gs_fade_set_alpha d.one (record f { current_alpha = d.one })).0 in
      if can_fade f.fade_type then record f { released = true } else f

  -- The main loop calls the timer again while it asks for it, `rounds` times at most.
  unfoldable pub run_timer : (rounds : ℕ) → Fade → Fade
  run_timer zero f = f
  run_timer (suc rounds) f =
      let (g, again) = fade_out_timer f in
      let rest = run_timer rounds g in if again then rest else g

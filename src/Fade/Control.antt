-- ===== src/Fade/Control.antt =====
-- src/gs-fade.c: starting, stopping and resetting a fade.
use budgie_screensaver.Common.{
  ℕ, suc, ◌≡◌, true, false, [], ◌++◌, ◌∷◌, Option, none, some, arith, if◌then◌else◌,
}
use budgie_screensaver.Fade.{
  Fade, Doubles, Backend, can_fade, gs_fade_stop, gs_fade_finish, gs_fade_begin, gs_fade_start,
  gs_fade_async, gs_fade_reset, gs_fade_set_alpha, fade_out_timer, gs_fade_out_iter,
}

-- A fade that is not active has no timer.
abbrev pub IsValid : Fade → Type 0
IsValid f = f.active ≡ false → f.timer_id ≡ 0

stopped-IsValid : (f : Fade) → IsValid f → IsValid (if f.active then gs_fade_stop f else f)
unfolding gs_fade_stop
stopped-IsValid f v = ground arith

begin-IsValid :
    (d : Doubles) (b : Backend) (timeout id : ℕ) (f : Fade)
    → IsValid f
    → IsValid (gs_fade_begin d b timeout id f)
unfolding gs_fade_begin
begin-IsValid d b timeout id f v = ground arith

start-IsValid :
    (d : Doubles) (b : Backend) (timeout id : ℕ) (f : Fade)
    → IsValid f
    → IsValid (gs_fade_start d b timeout id f)
unfolding gs_fade_start
start-IsValid d b timeout id f v = ground (
  arith,
  begin-IsValid d b timeout id f v,
  begin-IsValid d b timeout id (record f { gamma_calls = suc f.gamma_calls }) v,
)

async-IsValid :
    (d : Doubles) (b : Backend) (timeout id : ℕ) (func : Option ℕ) (f : Fade)
    → IsValid f
    → IsValid (gs_fade_async d b timeout id func f)
unfolding gs_fade_async
async-IsValid d b timeout id none f v =
    start-IsValid d b timeout id (if f.active then gs_fade_stop f else f) (stopped-IsValid f v)
async-IsValid d b timeout id (some c) f v = start-IsValid d b timeout id _ (stopped-IsValid f v)

-- A finish, an asynchronous start, a reset and a call of the timer keep this: a fade that is not
-- active has no timer.
pub fade-IsValid :
    (d : Doubles) (b : Backend) (timeout id : ℕ) (func : Option ℕ) (f : Fade)
    → IsValid f
    → IsValid (gs_fade_finish f)
      × IsValid (gs_fade_async d b timeout id func f)
      × IsValid (gs_fade_reset d b f)
      × IsValid (fade_out_timer d b f).0
unfolding gs_fade_finish gs_fade_reset gs_fade_set_alpha fade_out_timer gs_fade_out_iter
fade-IsValid d b timeout id func f v =
    (ground arith, async-IsValid d b timeout id func f v, ground arith, ground arith)

begin-callbacks :
    (d : Doubles) (b : Backend) (timeout id : ℕ) (f : Fade)
    → let g = gs_fade_begin d b timeout id f in
      (can_fade f.fade_type ≡ true
        → (g.active ≡ true) × (g.timer_id ≡ id) × (g.called ≡ f.called) × (g.pending ≡ f.pending))
      × (can_fade f.fade_type ≡ false
          → (g.active ≡ false) × (g.pending ≡ []) × (g.called ≡ f.called ++ f.pending))
unfolding gs_fade_begin
begin-callbacks d b timeout id f = (ground arith, ground arith)

start-callbacks :
    (d : Doubles) (b : Backend) (timeout id : ℕ) (f : Fade)
    → f.active ≡ false
    → let g = gs_fade_start d b timeout id f in
      (can_fade f.fade_type ≡ true
        → b.fade_setup f.gamma_calls ≡ true
        → (g.active ≡ true) × (g.timer_id ≡ id) × (g.called ≡ f.called) × (g.pending ≡ f.pending))
      × (can_fade f.fade_type ≡ true
          → b.fade_setup f.gamma_calls ≡ false
          → (g.active ≡ false) × (g.called ≡ f.called) × (g.pending ≡ f.pending))
      × (can_fade f.fade_type ≡ false
          → (g.active ≡ false) × (g.pending ≡ []) × (g.called ≡ f.called ++ f.pending))
unfolding gs_fade_start
start-callbacks d b timeout id f idle =
    let next = begin-callbacks d b timeout id (record f { gamma_calls = suc f.gamma_calls }) in
    let now = begin-callbacks d b timeout id f in
    (ground (arith, next), ground arith, ground (arith, now))

-- What a fade starts from: an active one is stopped first.
abbrev stopped : Fade → Fade
stopped f = if f.active then gs_fade_stop f else f

stopped_lem :
    (f : Fade)
    → ((stopped f).active ≡ false)
      × ((stopped f).called ≡ f.called)
      × ((stopped f).pending ≡ f.pending)
      × ((stopped f).fade_type ≡ f.fade_type)
      × ((stopped f).gamma_calls ≡ f.gamma_calls)
unfolding gs_fade_stop
stopped_lem f = ground arith

-- An asynchronous fade connects its callback behind those that wait. Where the screen can fade
-- and its setup succeeds, the fade is active and has its timer, and nothing is called yet. Where
-- the setup fails, the callback waits with no active fade to call it. Where the screen cannot fade,
-- all that waited are called at once.
pub gs_fade_async-callbacks :
    (d : Doubles) (b : Backend) (timeout id callback : ℕ) (f : Fade)
    → let g = gs_fade_async d b timeout id (some callback) f in
      (can_fade f.fade_type ≡ true
        → b.fade_setup f.gamma_calls ≡ true
        → (g.active ≡ true)
          × (g.timer_id ≡ id)
          × (g.called ≡ f.called)
          × (g.pending ≡ f.pending ++ callback ∷ []))
      × (can_fade f.fade_type ≡ true
          → b.fade_setup f.gamma_calls ≡ false
          → (g.active ≡ false) × (g.called ≡ f.called) × (g.pending ≡ f.pending ++ callback ∷ []))
      × (can_fade f.fade_type ≡ false
          → (g.active ≡ false)
            × (g.pending ≡ [])
            × (g.called ≡ f.called ++ (f.pending ++ callback ∷ [])))
unfolding gs_fade_async
gs_fade_async-callbacks d b timeout id callback f =
    let s = stopped f in
    let connected = record s { pending = s.pending ++ callback ∷ [] } in
    let facts = start-callbacks d b timeout id connected (stopped_lem f).0 in
    let same = stopped_lem f in
    (ground (arith, same, facts), ground (arith, same, facts), ground (arith, same, facts))

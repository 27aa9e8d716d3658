-- ===== src/Command/Answers.antt =====
-- src/gnome-screensaver-command.c with src/gs-listener-dbus.c: what the options come to where the
-- screensaver's listener is at the other end of the bus.
use mathlib.Core.List.{append-nil}
use budgie_screensaver.Common.{
  ℕ, ◌≡◌, refl, sym, ap, ◌∙◌, Bool, true, false, List, [], ◌∷◌, ◌++◌, if◌then◌else◌, arith,
}
use budgie_screensaver.Listener.{Listener, Host, active_time, gs_listener_set_active}
use budgie_screensaver.Listener.Message.{is_method_call}
use budgie_screensaver.Listener.Handler.{handle_session_message, set_property, send_success_reply}
use budgie_screensaver.Command.{
  Options, Bus, Line, Run, is_active, is_inactive, not_currently_active, active_for, to_gint32,
  do_command, block, do_query, do_time, ask_time, do_lock, do_set_active, after_quit, start,
  do_quit,
}

-- The bus hands a message to the listener, and its reply back.
abbrev pub served : {W : Type 0} → Host W → (now : ℕ) → Bus W
served h now = record {
  has_owner = λ w. true;
  send_with_reply = λ m w. let o = handle_session_message h now m w in (o.world, o.reply);
  send = λ m w. (handle_session_message h now m w).world;
}

-- What the state of the listener is reported as.
abbrev pub state_line : Listener → Line
state_line l = if l.active then is_active else is_inactive

abbrev pub time_line : (now : ℕ) → Listener → Line
time_line now l =
    if l.active then active_for (to_gint32 (active_time now l)) else not_currently_active

abbrev pub report : (now : ℕ) → Options → Listener → List Line
report now o l =
    (if o.query then state_line l ∷ [] else []) ++ (if o.time then time_line now l ∷ [] else [])

-- What the options do to the screensaver, in this order.
abbrev pub effect : {W : Type 0} → Host W → (now : ℕ) → Options → W → W
effect h now o w =
    let w = (if o.lock then h.emit_lock w else w) in
    let w = (if o.activate then (gs_listener_set_active h now true w).0 else w) in
    if o.deactivate then (gs_listener_set_active h now false w).0 else w

abbrev pub so_far : {W : Type 0} → W → List Line → Run W
so_far w ls = record { world = w; printed = ls; done = false }

queried :
    {W : Type 0} (h : Host W) (now : ℕ) (q : Bool) (w : W)
    → block q (do_query (served h now)) (start w)
      ≡ so_far w (if q then state_line (h.get w) ∷ [] else [])
unfolding handle_session_message is_method_call block do_query
queried h now false w = refl
queried h now true w = refl

timed-state :
    {W : Type 0} (h : Host W) (now : ℕ) (b : Bool) (w : W) (ls : List Line)
    → ask_time (served h now) b (so_far w ls)
      ≡ so_far w (
          ls
          ++ (if b
              then active_for (to_gint32 (active_time now (h.get w)))
              else not_currently_active)
            ∷ [])
unfolding handle_session_message is_method_call
timed-state h now false w ls = refl
timed-state h now true w ls = refl

timed :
    {W : Type 0} (h : Host W) (now : ℕ) (t : Bool) (w : W) (ls : List Line)
    → block t (do_time (served h now)) (so_far w ls)
      ≡ so_far w (ls ++ (if t then time_line now (h.get w) ∷ [] else []))
unfolding handle_session_message is_method_call block do_time
timed h now false w ls = ap (so_far w) (sym (append-nil ls))
timed h now true w ls = timed-state h now (h.get w).active w ls

locked :
    {W : Type 0} (h : Host W) (now : ℕ) (b : Bool) (w : W) (ls : List Line)
    → block b (do_lock (served h now)) (so_far w ls) ≡ so_far (if b then h.emit_lock w else w) ls
unfolding handle_session_message is_method_call send_success_reply block do_lock
locked h now false w ls = refl
locked h now true w ls = refl

switched :
    {W : Type 0} (h : Host W) (now : ℕ) (b v : Bool) (w : W) (ls : List Line)
    → block b (do_set_active (served h now) v) (so_far w ls)
      ≡ so_far (if b then (gs_listener_set_active h now v w).0 else w) ls
unfolding handle_session_message is_method_call set_property block do_set_active
switched h now false v w ls = refl
switched h now true v w ls = refl

after_quit_lem :
    {W : Type 0} (h : Host W) (now : ℕ) (o : Options) (w : W)
    → after_quit (served h now) o (start w) ≡ so_far (effect h now o w) (report now o (h.get w))
unfolding after_quit
after_quit_lem h now o w =
    let bus = served h now in
    let switch_off = block o.deactivate (do_set_active bus false) in
    let switch_on = block o.activate (do_set_active bus true) in
    let lock = block o.lock (do_lock bus) in
    let time = block o.time (do_time bus) in
    ap (λ r. switch_off (switch_on (lock (time r)))) (queried h now o.query w)
    ∙ ap (λ r. switch_off (switch_on (lock r))) (timed h now o.time w _)
    ∙ ap (λ r. switch_off (switch_on r)) (locked h now o.lock w _)
    ∙ ap switch_off (switched h now o.activate true _ _)
    ∙ switched h now o.deactivate false _ _

quitted :
    {W : Type 0} (h : Host W) (now : ℕ) (o : Options) (b : Bool) (w : W)
    → b ≡ true
    → after_quit (served h now) o (block b (do_quit (served h now)) (start w))
      ≡ record { world = h.emit_quit w; printed = []; done = true }
unfolding after_quit block do_quit handle_session_message is_method_call send_success_reply
quitted h now o true w e = refl
quitted h now o false w e = absurd (ground (arith, e))

not_quitted :
    {W : Type 0} (h : Host W) (now : ℕ) (b : Bool) (w : W)
    → b ≡ false
    → block b (do_quit (served h now)) (start w) ≡ start w
unfolding block
not_quitted h now true w e = absurd (ground (arith, e))
not_quitted h now false w e = refl

-- Where the bus hands every message to the listener and the replies back: --exit alone takes
-- effect if it is given. Otherwise --query and --time print the state from before the other
-- options, each one line, and then --lock, --activate and --deactivate take effect in this order,
-- all that are given, and print nothing.
pub do_command_lem :
    {W : Type 0} (h : Host W) (now : ℕ) (o : Options) (w : W)
    → let r = do_command (served h now) o w in
      (o.quit ≡ true → (r.world ≡ h.emit_quit w) × (r.printed ≡ []))
      × (o.quit ≡ false → (r.world ≡ effect h now o w) × (r.printed ≡ report now o (h.get w)))
unfolding do_command
do_command_lem h now o w = (
  λ e. let r = quitted h now o o.quit w e in (ap (λ x. x.world) r, ap (λ x. x.printed) r),
  λ e.
      let r =
        ap (after_quit (served h now) o) (not_quitted h now o.quit w e)
        ∙ after_quit_lem h now o w in
      (ap (λ x. x.world) r, ap (λ x. x.printed) r),
)

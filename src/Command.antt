-- ===== src/Command.antt =====
-- src/gnome-screensaver-command.c: the command line's options, the messages that they send to the
-- screensaver and what is printed.
--
-- The session bus is a parameter. GLib's parser of options is not modelled: its result is.
pub mod Answers
pub mod Tests
use budgie_screensaver.Common.{
  ℕ, ◌-◌, ◌^◌, Bool, true, false, Option, none, some, String, List, [], ◌∷◌, ◌++◌, ltb,
  if◌then◌else◌, ℤ, pos, negsuc,
}
use budgie_screensaver.Listener.Message.{Message, Arg, boolean, method_call, gs_service}
use budgie_screensaver.Listener.Handler.{Reply, active, seconds}

pub record Options : Type 0 where
  pub quit : Bool
  pub lock : Bool
  pub activate : Bool
  pub deactivate : Bool
  pub version : Bool
  pub query : Bool
  pub time : Bool

-- The session bus in a world: whether GS_SERVICE has an owner, a message that is waited for, and
-- one that is not.
pub record Bus (W : Type 0) : Type 0 where
  pub has_owner : W → Bool
  pub send_with_reply : Message → W → W × Option Reply
  pub send : Message → W → W

-- What is printed or logged.
pub data Line : Type 0 where
  is_active is_inactive not_currently_active : Line
  active_for : ℤ → Line
  not_running no_reply_received : Line
  -- A reply that is not of the type the code reads: the variable stays unset.
  undefined : Line
  version_line : Line

-- What was done so far, and whether the code has jumped to `done`.
pub record Run (W : Type 0) : Type 0 where
  pub world : W
  pub printed : List Line
  pub done : Bool

abbrev pub start : {W : Type 0} → W → Run W
start w = record { world = w; printed = []; done = false }

abbrev pub call : (member : String) → List Arg → Message
call member args = record {
  kind = method_call;
  interface = gs_service;
  member = member;
  path = some "/org/gnome/ScreenSaver";
  no_reply = false;
  args = args;
}

abbrev pub say : {W : Type 0} → Line → Run W → Run W
say line r = record r { printed = r.printed ++ line ∷ [] }

abbrev pub stop : {W : Type 0} → Line → Run W → Run W
stop line r = record (say line r) { done = true }

-- g_variant_get of an unsigned number into a gint32.
abbrev pub to_gint32 : ℕ → ℤ
to_gint32 n = if ltb n (2 ^ 31) then pos n else negsuc (2 ^ 32 - 1 - n)

-- Of a boolean.
abbrev pub read_boolean : {W : Type 0} → (Bool → Run W → Run W) → Option Reply → Run W → Run W
read_boolean go (some (active b)) r = go b r
read_boolean go (some _) r = stop undefined r
read_boolean go none r = stop no_reply_received r

abbrev pub read_seconds : {W : Type 0} → Option Reply → Run W → Run W
read_seconds (some (seconds n)) r = say (active_for (to_gint32 n)) r
read_seconds (some _) r = stop undefined r
read_seconds none r = stop no_reply_received r

abbrev pub acknowledged : {W : Type 0} → Option Reply → Run W → Run W
acknowledged (some _) r = r
acknowledged none r = stop no_reply_received r

abbrev pub say_active : {W : Type 0} → Bool → Run W → Run W
say_active b r = say (if b then is_active else is_inactive) r

-- A block of the options, unless the code has jumped past it.
unfoldable pub block : {W : Type 0} → (chosen : Bool) → (Run W → Run W) → Run W → Run W
block chosen go r = if r.done then r else if chosen then go r else r

module _ {W : Type 0} (bus : Bus W) where
  abbrev pub ask : Message → (Option Reply → Run W → Run W) → Run W → Run W
  ask m go r = let (w, reply) = bus.send_with_reply m r.world in go reply (record r { world = w })

  unfoldable pub do_quit : Run W → Run W
  do_quit r = record r { world = bus.send (call "Quit" []) r.world; done = true }

  unfoldable pub do_query : Run W → Run W
  do_query r =
      if bus.has_owner r.world
      then ask (call "GetActive" []) (read_boolean say_active) r
      else stop not_running r

  abbrev pub ask_time : Bool → Run W → Run W
  ask_time b r =
      if b then ask (call "GetActiveTime" []) read_seconds r else say not_currently_active r

  unfoldable pub do_time : Run W → Run W
  do_time r = ask (call "GetActive" []) (read_boolean ask_time) r

  unfoldable pub do_lock : Run W → Run W
  do_lock r = ask (call "Lock" []) acknowledged r

  unfoldable pub do_set_active : Bool → Run W → Run W
  do_set_active b r = ask (call "SetActive" (boolean b ∷ [])) acknowledged r

  -- What follows the test of --exit.
  unfoldable pub after_quit : Options → Run W → Run W
  unfolding block do_query do_time do_lock do_set_active
  after_quit o r =
      let r = block o.query do_query r in
      let r = block o.time do_time r in
      let r = block o.lock do_lock r in
      let r = block o.activate (do_set_active true) r in block o.deactivate (do_set_active false) r

  unfoldable pub do_command : Options → W → Run W
  unfolding block do_quit after_quit
  do_command o w = after_quit o (block o.quit do_quit (start w))

  -- The status is EXIT_SUCCESS exactly if the second part is TRUE.
  unfoldable pub main : (parsed connected : Bool) → Options → W → Run W × Bool
  unfolding do_command
  main parsed connected o w =
      if parsed
      then if o.version
        then (say version_line (start w), true)
        else if connected
        then (do_command o w, true)
        else (start w, false)
      else (start w, false)

-- ===== src/Listener/Tests.antt =====
-- src/gs-listener-dbus.c: the theorems at a concrete listener.
use budgie_screensaver.Common.{◌≡◌, ◌≢◌, refl, true, false, none, some, [], ◌∷◌, arith}
use budgie_screensaver.Listener.{
  Listener, Host, connected, set_active_internal, gs_listener_set_active,
}
use budgie_screensaver.Listener.Message.{
  Message, method_call, signal, boolean, is_method_call, gs_service,
}
use budgie_screensaver.Listener.Handler.{success, set_property, handle_session_message}
use budgie_screensaver.Listener.Active.{IsLawful, IsTimed, gs_listener_set_active_lem}
use budgie_screensaver.Listener.Bus.{
  Buses, bare, gs_listener_init, gs_listener_acquire, reinit_dbus, in_queue, primary_owner, exists,
  error, already_running, from_bus,
}
use budgie_screensaver.Listener.Acquire.{
  gs_listener_acquire_lem, retry, lose_session, IsDeaf, KeepsSystem, retry-IsDeaf,
}
use budgie_screensaver.Listener.Signatures.{KeepsPromise, introspected, introspected-KeepsPromise}
use budgie_screensaver.Common.{All, Bool, List}

-- Handlers that take every change.
abbrev pub willing : Host Listener
willing = record {
  get = λ l. l;
  put = λ l w. l;
  emit_lock = λ w. w;
  emit_config_lock = λ w. w;
  emit_quit = λ w. w;
  emit_simulate_user_activity = λ w. w;
  emit_show_message = λ s b i w. w;
  emit_active_changed = λ b w. (w, true);
}

willing-IsLawful : IsLawful willing
willing-IsLawful = record { get-put = λ l w. refl; get-emit_active_changed = λ b w. refl }

abbrev pub quiet : Listener
quiet = record {
  connection = connected;
  system_connection = connected;
  session_idle = false;
  active = false;
  activation_enabled = true;
  active_start = 0;
  session_idle_start = 0;
  session_id = some "c1";
  have_systemd = true;
  sent = [];
}

abbrev activated : Listener
activated = record quiet {
  session_idle = true;
  active = true;
  active_start = 100;
  session_idle_start = 100;
  sent = true ∷ [];
}

quiet-IsTimed : IsTimed 100 quiet
quiet-IsTimed = record {
  inactive = λ e. refl;
  not_idle = λ e. refl;
  active_past = omega arith;
  idle_past = omega arith;
}

activation : gs_listener_set_active willing 100 true quiet ≡ (activated, true)
unfolding gs_listener_set_active set_active_internal
activation = refl

gs_listener_set_active_example :
    let (l, res) = gs_listener_set_active willing 100 true quiet in
    (res ≡ true
      → (quiet.active ≡ false)
        × (l.active ≡ true)
        × (l.session_idle ≡ true)
        × (l.active_start ≡ 100))
    × (res ≡ false → l.active ≡ false)
gs_listener_set_active_example = gs_listener_set_active_lem willing willing-IsLawful 100 quiet true

abbrev set_active : Message
set_active = record {
  kind = method_call;
  interface = gs_service;
  member = "SetActive";
  path = some "/org/gnome/ScreenSaver";
  no_reply = false;
  args = boolean true ∷ [];
}

set_active-reply : (handle_session_message willing 100 set_active quiet).reply ≡ some success
unfolding handle_session_message is_method_call set_property
set_active-reply = refl

abbrev unlock_other : Message
unlock_other = record {
  kind = signal;
  interface = "org.freedesktop.login1.Session";
  member = "Unlock";
  path = some "/org/freedesktop/login1/session/c2";
  no_reply = true;
  args = [];
}

introspected-KeepsPromise_example : All (KeepsPromise willing 100 none false quiet) introspected
introspected-KeepsPromise_example = introspected-KeepsPromise willing 100 none false quiet

-- Both buses are open, in the session c1.
abbrev started : Buses
started = record { listener = quiet; session = bare; system = bare }

started-init : (gs_listener_init true true true (some "c1") none).listener.session_id ≡ some "c1"
unfolding gs_listener_init
started-init = refl

-- Another screensaver has the name.
gs_listener_acquire_example :
    let r = gs_listener_acquire true in_queue started in
    (r.result ≡ true
      → (connected ≡ connected)
        × (r.failure ≡ none)
        × (r.buses.session.object_path ≡ true)
        × (r.buses.session.name_requested ≡ true)
        × (r.buses.session.filter ≡ true)
        × (r.buses.listener ≡ quiet))
    × (r.result ≡ false → r.failure ≡ none → true ≡ false)
    × (connected ≡ connected
        → true ≡ true
        → (in_queue ≡ exists → (r.result ≡ false) × (r.failure ≡ some already_running))
          × (in_queue ≡ error → (r.result ≡ false) × (r.failure ≡ some from_bus))
          × (in_queue ≢ exists → in_queue ≢ error → r.result ≡ true)
          × (in_queue ≡ in_queue → r.result ≡ true))
gs_listener_acquire_example = gs_listener_acquire_lem true in_queue started

-- The session bus is not there at the first try.
abbrev tries : List (Bool × Bool)
tries = (false, true) ∷ (true, true) ∷ []

abbrev acquired : Buses
acquired = (gs_listener_acquire true primary_owner started).buses

retry-IsDeaf_example :
    let (b, again) = retry tries (lose_session acquired) in
    IsDeaf b
    × (again ≡ false
        → (b.listener.connection ≡ connected)
          × (b.session.object_path ≡ false)
          × (b.session.name_requested ≡ false)
          × (b.session.filter ≡ false)
          × (b.session.matches ≡ []))
    × (acquired.listener.system_connection ≡ connected → KeepsSystem acquired b)
retry-IsDeaf_example = retry-IsDeaf tries acquired

tries-end : (retry tries (lose_session acquired)).1 ≡ false
unfolding retry gs_listener_acquire reinit_dbus
tries-end = refl

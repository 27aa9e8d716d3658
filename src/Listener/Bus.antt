-- ===== src/Listener/Bus.antt =====
-- src/gs-listener-dbus.c: the connections to the buses, the name on the session bus, and the id of
-- the session, in a build with systemd and ConsoleKit.
--
-- libdbus, sd-login and ConsoleKit are not modelled: what they answer comes as arguments. Errors
-- of memory, which abort the program, are left out.
use budgie_screensaver.Common.{
  Bool, true, false, not, Option, none, some, String, List, [], ◌∷◌, if◌then◌else◌,
}
use budgie_screensaver.Listener.{Listener, Connection, missing, disconnected, connected}

-- What is attached to a connection: the path of the object, whether the name was asked for on it, the
-- filter that handles messages, and the matches that were asked for. A new connection has nothing.
pub data Match : Type 0 where
  name_lost logind_unlock logind_lock logind_properties prepare_for_sleep : Match
  ck_unlock ck_lock ck_active : Match

pub record Attached : Type 0 where
  pub object_path : Bool
  -- The name was asked for.
  pub name_requested : Bool
  pub filter : Bool
  pub matches : List Match

abbrev pub bare : Attached
bare = record { object_path = false; name_requested = false; filter = false; matches = [] }

pub record Buses : Type 0 where
  pub listener : Listener
  pub session : Attached
  pub system : Attached

abbrev pub is_missing : Connection → Bool
is_missing missing = true
is_missing _ = false

abbrev pub connect_session : (opened : Bool) → Buses → Buses × Bool
connect_session opened b =
    if not (is_missing b.listener.connection)
    then (b, true)
    else if opened
    then (
      record b { listener = record (b.listener) { connection = connected }; session = bare },
      true,
    )
    else (b, false)

abbrev pub connect_system : (opened : Bool) → Buses → Buses × Bool
connect_system opened b =
    if not (is_missing b.listener.system_connection)
    then (b, true)
    else if opened
    then (
      record b { listener = record (b.listener) { system_connection = connected }; system = bare },
      true,
    )
    else (b, false)

-- Whether the session bus and the system bus can be opened.
unfoldable pub gs_listener_dbus_init : (session system : Bool) → Buses → Buses × Bool
gs_listener_dbus_init session system b =
    let (b, res) = connect_session session b in
    if not res then (b, false) else connect_system system b

-- The second part is whether to try again.
unfoldable pub reinit_dbus : (session system : Bool) → Buses → Buses × Bool
unfolding gs_listener_dbus_init
reinit_dbus session system b =
    let (b, initialized) = gs_listener_dbus_init session system b in (b, not initialized)

-- What the bus answers to the request for the name, with DBUS_NAME_FLAG_REPLACE_EXISTING alone: an
-- error is -1.
pub data NameReply : Type 0 where
  primary_owner in_queue exists already_owner error : NameReply

-- The errors that gs_listener_acquire sets: no connection, not connected, what the bus says, and
-- that a screensaver runs already.
pub data AcquireError : Type 0 where
  not_registered not_connected from_bus already_running : AcquireError

pub record Acquired : Type 0 where
  pub buses : Buses
  pub result : Bool
  pub failure : Option AcquireError

abbrev pub refused : Buses → Option AcquireError → Acquired
refused b e = record { buses = b; result = false; failure = e }

abbrev pub system_matches : (have_systemd : Bool) → List Match
system_matches true = logind_unlock ∷ logind_lock ∷ logind_properties ∷ prepare_for_sleep ∷ []
system_matches false = ck_unlock ∷ ck_lock ∷ ck_active ∷ []

-- The filters and the matches.
abbrev pub attach : Buses → Buses
attach b =
    let b = record b { session = record (b.session) { filter = true; matches = name_lost ∷ [] } } in
    if is_missing b.listener.system_connection then b else record b {
      system = record (b.system) {
        filter = true;
        matches = system_matches b.listener.have_systemd;
      };
    }

-- `registered` is whether there was memory for the object's path.
unfoldable pub gs_listener_acquire : (registered : Bool) → NameReply → Buses → Acquired
gs_listener_acquire registered reply b = elim b.listener.connection [
  | missing ↦ refused b (some not_registered)
  | disconnected ↦ refused b (some not_connected)
  | connected ↦
      if not registered
      then refused b none
      else let b = record b {
        session = record (b.session) { object_path = true; name_requested = true };
      } in
        elim reply [
          | exists ↦ refused b (some already_running)
          | error ↦ refused (attach b) (some from_bus)
          | primary_owner ↦ record { buses = attach b; result = true; failure = none }
          | in_queue ↦ record { buses = attach b; result = true; failure = none }
          | already_owner ↦ record { buses = attach b; result = true; failure = none }
        ]
]

-- What sd_pid_get_session and ConsoleKit's GetCurrentSession answer.
unfoldable pub query_session_id : (logind console_kit : Option String) → Listener → Option String
query_session_id logind console_kit l =
    if is_missing l.system_connection then none else if l.have_systemd then logind else console_kit

unfoldable pub init_session_id : (logind console_kit : Option String) → Listener → Listener
unfolding query_session_id
init_session_id logind console_kit l = record l {
  session_id = query_session_id logind console_kit l;
}

abbrev pub new_listener : (have_systemd : Bool) → Listener
new_listener have_systemd = record {
  connection = missing;
  system_connection = missing;
  session_idle = false;
  active = false;
  activation_enabled = false;
  active_start = 0;
  session_idle_start = 0;
  session_id = none;
  have_systemd = have_systemd;
  sent = [];
}

-- `seats` is whether /run/systemd/seats/ is there.
unfoldable pub gs_listener_init :
    (seats session system : Bool) (logind console_kit : Option String) → Buses
unfolding gs_listener_dbus_init init_session_id
gs_listener_init seats session system logind console_kit =
    let b : Buses = record { listener = new_listener seats; session = bare; system = bare } in
    let (b, _) = gs_listener_dbus_init session system b in
    record b { listener = init_session_id logind console_kit b.listener }

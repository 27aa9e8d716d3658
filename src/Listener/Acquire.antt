-- ===== src/Listener/Acquire.antt =====
-- src/gs-listener-dbus.c: the start of the listener, and the loss of its bus.
use budgie_screensaver.Common.{
  ◌≡◌, ◌≢◌, ◌⊎◌, inl, inr, refl, Bool, true, false, not, none, some, List, [], ◌∷◌, arith,
  if◌then◌else◌, if-cases, ◌∙◌, ap,
}
use budgie_screensaver.Listener.{missing, connected}
use budgie_screensaver.Listener.Bus.{
  bare, Buses, connect_session, connect_system, reinit_dbus, NameReply, in_queue, exists, error,
  already_running, from_bus, gs_listener_acquire,
}

-- The listener starts only where it is connected, its path and its filter are attached, and the
-- name was asked for. Where it does not, the caller gets an error, but for want of memory. Connected, and with memory, it
-- starts exactly if the bus answers neither that the name exists nor an error: a place in the
-- queue for the name, which is what the bus gives where another screensaver has it, counts as a
-- start.
pub gs_listener_acquire_lem :
    (registered : Bool) (reply : NameReply) (b : Buses)
    → let r = gs_listener_acquire registered reply b in
      (r.result ≡ true
        → (b.listener.connection ≡ connected)
          × (r.failure ≡ none)
          × (r.buses.session.object_path ≡ true)
          × (r.buses.session.name_requested ≡ true)
          × (r.buses.session.filter ≡ true)
          × (r.buses.listener ≡ b.listener))
      × (r.result ≡ false → r.failure ≡ none → registered ≡ false)
      × (b.listener.connection ≡ connected
          → registered ≡ true
          → (reply ≡ exists → (r.result ≡ false) × (r.failure ≡ some already_running))
            × (reply ≡ error → (r.result ≡ false) × (r.failure ≡ some from_bus))
            × (reply ≢ exists → reply ≢ error → r.result ≡ true)
            × (reply ≡ in_queue → r.result ≡ true))
unfolding gs_listener_acquire
gs_listener_acquire_lem registered reply b = (
  ground arith,
  ground arith,
  λ c r. (ground arith, ground arith, λ x e. ground arith, ground arith),
)

-- The session bus is lost: what listener_dbus_filter_function leaves of it.
abbrev pub lose_session : Buses → Buses
lose_session b = record b { listener = record (b.listener) { connection = missing } }

-- The calls of reinit_dbus, with whether the two buses could be opened at each.
unfoldable pub retry : List (Bool × Bool) → Buses → Buses × Bool
retry [] b = (b, true)
retry ((session, system) ∷ rest) b =
    let (b, again) = reinit_dbus session system b in
    let more = retry rest b in if again then more else (b, false)

-- Nothing is attached to the session bus, if there is one.
abbrev pub IsDeaf : Buses → Type 0
IsDeaf b =
    (b.listener.connection ≡ missing) ⊎ ((b.session ≡ bare) × (b.listener.connection ≡ connected))

connect_session-IsDeaf :
    (opened : Bool) (b : Buses)
    → IsDeaf b
    → let (b', res) = connect_session opened b in
      IsDeaf b' × (res ≡ true → b'.listener.connection ≡ connected)
connect_session-IsDeaf false b (inl m) = rw m (inl refl, λ e. cc)
connect_session-IsDeaf true b (inl m) = rw m (inr (refl, refl), λ e. refl)
connect_session-IsDeaf opened b (inr (none_yet, c)) = rw c (inr (none_yet, refl), λ e. refl)

connect_system-session :
    (opened : Bool) (b : Buses)
    → let b' = (connect_system opened b).0 in
      (b'.session ≡ b.session) × (b'.listener.connection ≡ b.listener.connection)
connect_system-session opened b = (ground arith, ground arith)

connect_system-IsDeaf : (opened : Bool) (b : Buses) → IsDeaf b → IsDeaf (connect_system opened b).0
connect_system-IsDeaf opened b (inl m) = inl ((connect_system-session opened b).1 ∙ m)
connect_system-IsDeaf opened b (inr (none_yet, c)) =
    let (same, kept) = connect_system-session opened b in inr (same ∙ none_yet, kept ∙ c)

reinit-IsDeaf :
    (session system : Bool) (b : Buses)
    → IsDeaf b
    → let (b', again) = reinit_dbus session system b in
      IsDeaf b' × (again ≡ false → b'.listener.connection ≡ connected)
unfolding reinit_dbus
reinit-IsDeaf session system b d =
    let (b1, res) = connect_session session b in
    let (d1, on) = connect_session-IsDeaf session b d in
    if-cases {A = Buses × Bool}
      (λ r. IsDeaf r.0 × (not r.1 ≡ false → r.0.listener.connection ≡ connected)) (not res) _ _
      (λ e. (d1, λ f. cc))
      (λ e. (
        connect_system-IsDeaf system b1 d1,
        λ f. (connect_system-session system b1).1 ∙ on (ground (arith, e)),
      ))

retry_lem :
    (answers : List (Bool × Bool)) (b : Buses)
    → IsDeaf b
    → let (b', again) = retry answers b in
      IsDeaf b' × (again ≡ false → b'.listener.connection ≡ connected)
unfolding retry
retry_lem [] b d = (d, λ e. cc)
retry_lem ((session, system) ∷ rest) b d =
    let (b1, again) = reinit_dbus session system b in
    let (d1, on) = reinit-IsDeaf session system b d in
    if-cases {A = Buses × Bool}
      (λ r. IsDeaf r.0 × (r.1 ≡ false → r.0.listener.connection ≡ connected)) again _ _
      (λ e. retry_lem rest b1 d1) (λ e. (d1, λ f. on e))

IsDeaf-bare : (b : Buses) → IsDeaf b → b.listener.connection ≡ connected → b.session ≡ bare
IsDeaf-bare b (inl m) c = cc
IsDeaf-bare b (inr (none_yet, _)) c = none_yet

-- The system bus keeps its connection, with what is attached to it.
abbrev pub KeepsSystem : (b b' : Buses) → Type 0
KeepsSystem b b' = (b'.listener.system_connection ≡ connected) × (b'.system ≡ b.system)

reinit-KeepsSystem :
    (session system : Bool) (b : Buses)
    → b.listener.system_connection ≡ connected
    → KeepsSystem b (reinit_dbus session system b).0
unfolding reinit_dbus
reinit-KeepsSystem session system b c = (ground arith, ground arith)

retry-KeepsSystem :
    (answers : List (Bool × Bool)) (b : Buses)
    → b.listener.system_connection ≡ connected
    → KeepsSystem b (retry answers b).0
unfolding retry
retry-KeepsSystem [] b c = (c, refl)
retry-KeepsSystem ((session, system) ∷ rest) b c =
    let (kept, same) = reinit-KeepsSystem session system b c in
    let (b1, again) = reinit_dbus session system b in
    let (still, as_before) = retry-KeepsSystem rest b1 kept in
    if-cases {A = Buses × Bool} (λ r. KeepsSystem b r.0) again _ _ (λ e. (still, as_before ∙ same))
      (λ e. (kept, same))

-- Once the session bus is lost, it is tried again until both buses are open. Then the listener has
-- a connection to the session bus, but neither its object nor its filter nor any match is attached
-- to it, and the name was not asked for on it. The system bus, where it was connected, keeps its
-- connection, its filter and its matches.
pub retry-IsDeaf :
    (answers : List (Bool × Bool)) (b : Buses)
    → let (b', again) = retry answers (lose_session b) in
      IsDeaf b'
      × (again ≡ false
          → (b'.listener.connection ≡ connected)
            × (b'.session.object_path ≡ false)
            × (b'.session.name_requested ≡ false)
            × (b'.session.filter ≡ false)
            × (b'.session.matches ≡ []))
      × (b.listener.system_connection ≡ connected → KeepsSystem b b')
retry-IsDeaf answers b =
    let (d, on) = retry_lem answers (lose_session b) (inl refl) in
    let deaf = λ (e : (retry answers (lose_session b)).1 ≡ false).
      IsDeaf-bare (retry answers (lose_session b)).0 d (on e) in
    (
      d,
      λ e. (
        on e,
        ap (λ a. a.object_path) (deaf e),
        ap (λ a. a.name_requested) (deaf e),
        ap (λ a. a.filter) (deaf e),
        ap (λ a. a.matches) (deaf e),
      ),
      λ c. retry-KeepsSystem answers (lose_session b) c,
    )

-- ===== src/Listener/Signatures.antt =====
-- src/gs-listener-dbus.c: the types of the methods that the introspection data promise.
use budgie_screensaver.Common.{
  ℕ, ◌≡◌, ◌⊎◌, inl, inr, refl, Bool, true, Option, none, some, String, List, [], ◌∷◌, All, if-cases,
}
use budgie_screensaver.Listener.{Host}
use budgie_screensaver.Listener.Message.{
  Message, Arg, boolean, string, dict, strings, other, method_call, gs_service, is_method_call,
}
use budgie_screensaver.Listener.Handler.{
  Reply, Outcome, handled, success, active, seconds, introspection, syntax_error, type_mismatch,
  send_success_reply, set_property, show_message, handle_session_message,
}

-- The D-Bus types b, u and s.
pub data DBusType : Type 0 where
  b u s : DBusType

pub record Method : Type 0 where
  pub name : String
  pub ins : List DBusType
  pub outs : List DBusType

-- The interface org.gnome.ScreenSaver in do_introspect's text.
abbrev pub introspected : List Method
introspected =
    record { name = "Lock"; ins = []; outs = [] }
    ∷ record { name = "SimulateUserActivity"; ins = []; outs = [] }
    ∷ record { name = "GetActive"; ins = []; outs = b ∷ [] }
    ∷ record { name = "GetActiveTime"; ins = []; outs = u ∷ [] }
    ∷ record { name = "SetActive"; ins = b ∷ []; outs = [] }
    ∷ record { name = "ShowMessage"; ins = s ∷ s ∷ s ∷ []; outs = [] }
    ∷ []

abbrev pub HasType : Arg → DBusType → Type 0
HasType (boolean v) b = Unit
HasType (string v) s = Unit
HasType _ _ = ⊥

abbrev pub HaveTypes : List Arg → List DBusType → Type 0
HaveTypes [] [] = Unit
HaveTypes (a ∷ args) (t ∷ ts) = HasType a t × HaveTypes args ts
HaveTypes _ _ = ⊥

-- The types of a method return; an error has none.
abbrev pub reply_types : Reply → Option (List DBusType)
reply_types success = some []
reply_types (active v) = some (b ∷ [])
reply_types (seconds n) = some (u ∷ [])
reply_types introspection = some (s ∷ [])
reply_types syntax_error = none
reply_types type_mismatch = none

-- The message is handled; the reply is of these types, and is left out only where none was asked
-- for.
abbrev pub Replies : {W : Type 0} → (no_reply : Bool) (outs : List DBusType) → Outcome W → Type 0
Replies no_reply outs o =
    (o.result ≡ handled)
    × (((o.reply ≡ none) × (no_reply ≡ true))
        ⊎ ((r : Reply) × (o.reply ≡ some r) × (reply_types r ≡ some outs)))

abbrev pub call : Method → (path : Option String) (no_reply : Bool) → List Arg → Message
call method path no_reply args = record {
  kind = method_call;
  interface = gs_service;
  member = method.name;
  path = path;
  no_reply = no_reply;
  args = args;
}

send_success_reply-Replies :
    {W : Type 0} (m : Message) (w : W) → Replies m.no_reply [] (send_success_reply m w)
unfolding send_success_reply
send_success_reply-Replies {W} m w =
    if-cases {A = Outcome W} (Replies m.no_reply []) m.no_reply _ _ (λ e. (refl, inl (refl, e)))
      (λ e. (refl, inr (success, refl, refl)))

boolean_of : (a : Arg) → HasType a b → (v : Bool) × (a ≡ boolean v)
boolean_of (boolean v) t = (v, refl)
boolean_of (string v) t = absurd t
boolean_of (dict names) t = absurd t
boolean_of (strings names) t = absurd t
boolean_of other t = absurd t

string_of : (a : Arg) → HasType a s → (v : String) × (a ≡ string v)
string_of (boolean v) t = absurd t
string_of (string v) t = (v, refl)
string_of (dict names) t = absurd t
string_of (strings names) t = absurd t
string_of other t = absurd t

set_property-Replies :
    {W : Type 0} (h : Host W) (now : ℕ) (m : Message) (a : Arg) (rest : List Arg) (w : W)
    → m.args ≡ a ∷ rest
    → HasType a b
    → Replies m.no_reply [] (set_property h now m w)
unfolding set_property
set_property-Replies h now m a rest w e t =
    let (v, is) = boolean_of a t in rw (e, is) (refl, inr (success, refl, refl))

show_message-Replies :
    {W : Type 0} (h : Host W) (now : ℕ) (m : Message) (x y z : Arg) (rest : List Arg) (w : W)
    → m.args ≡ x ∷ y ∷ z ∷ rest
    → HasType x s
    → HasType y s
    → HasType z s
    → Replies m.no_reply [] (show_message h now m w)
unfolding show_message
show_message-Replies {W} h now m x y z rest w e tx ty tz =
    let (_, ex) = string_of x tx in
    let (_, ey) = string_of y ty in
    let (_, ez) = string_of z tz in
    if-cases {A = Outcome W} (Replies m.no_reply []) (h.get w).active _ _
      (λ on. rw (e, ex, ey, ez) (refl, inr (success, refl, refl)))
      (λ off. (refl, inr (success, refl, refl)))

module _ {W : Type 0} (h : Host W) (now : ℕ) (path : Option String) (no_reply : Bool) (w : W) where
  -- A well-typed call of a method.
  abbrev pub KeepsPromise : Method → Type 0
  KeepsPromise method =
      (args : List Arg)
      → HaveTypes args method.ins
      → Replies no_reply method.outs
          (handle_session_message h now (call method path no_reply args) w)

  set_active : KeepsPromise (record { name = "SetActive"; ins = b ∷ []; outs = [] })
  unfolding handle_session_message is_method_call
  set_active [] t = absurd t
  set_active (a ∷ rest) t = set_property-Replies h now _ a rest w refl t.0

  show : KeepsPromise (record { name = "ShowMessage"; ins = s ∷ s ∷ s ∷ []; outs = [] })
  unfolding handle_session_message is_method_call
  show [] t = absurd t
  show (x ∷ []) t = absurd t.1
  show (x ∷ y ∷ []) t = absurd t.1.1
  show (x ∷ y ∷ z ∷ rest) t = show_message-Replies h now _ x y z rest w refl t.0 t.1.0 t.1.1.0

  -- Each method of the introspection data, called with arguments of its types, is handled and
  -- gets a reply of the types that the data promise.
  pub introspected-KeepsPromise : All KeepsPromise introspected
  unfolding handle_session_message is_method_call
  introspected-KeepsPromise = (
    (λ args t. send_success_reply-Replies _ _),
    (
      (λ args t. send_success_reply-Replies _ _),
      (
        (λ args t. (refl, inr (_, refl, refl))),
        ((λ args t. (refl, inr (_, refl, refl))), (set_active, (show, tt))),
      ),
    ),
  )

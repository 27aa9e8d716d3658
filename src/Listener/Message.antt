-- ===== src/Listener/Message.antt =====
-- src/gs-listener-dbus.c: the D-Bus messages that the listener reads, as far as it reads them,
-- and the tests on them.
--
-- libdbus is not modelled: a message is what its accessors answer.
use text.Mathlib.Text.{◌==◌ as str_eq}
use Prim.Native.Char.{code}
use budgie_screensaver.Common.{
  Bool, true, false, ◌&&◌, Option, none, some, String, List, [], ◌∷◌, ◌==◌, if◌then◌else◌,
}

pub data Kind : Type 0 where
  method_call signal : Kind

pub data Arg : Type 0 where
  boolean : Bool → Arg
  string : String → Arg
  -- An array of dictionary entries: the entries' names.
  dict : List String → Arg
  -- An array of strings.
  strings : List String → Arg
  -- A value of any other type.
  other : Arg

pub record Message : Type 0 where
  pub kind : Kind
  pub interface : String
  pub member : String
  pub path : Option String
  pub no_reply : Bool
  pub args : List Arg

-- GS_SERVICE, GS_INTERFACE.
abbrev pub gs_service : String
gs_service = "org.gnome.ScreenSaver"

abbrev pub logind_interface : String
logind_interface = "org.freedesktop.login1.Manager"

abbrev pub logind_session_interface : String
logind_session_interface = "org.freedesktop.login1.Session"

-- SYSTEMD_LOGIND_SESSION_PATH "/".
abbrev pub logind_session_path : String
logind_session_path = "/org/freedesktop/login1/session/"

abbrev pub ck_session_interface : String
ck_session_interface = "org.freedesktop.ConsoleKit.Session"

abbrev pub properties_interface : String
properties_interface = "org.freedesktop.DBus.Properties"

unfoldable pub is_method_call : Message → (interface member : String) → Bool
is_method_call m i n = elim m.kind [
  | method_call ↦ str_eq m.interface i && str_eq m.member n
  | signal ↦ false
]

unfoldable pub is_signal : Message → (interface member : String) → Bool
is_signal m i n = elim m.kind [
  | method_call ↦ false
  | signal ↦ str_eq m.interface i && str_eq m.member n
]

-- dbus_message_get_args for one boolean.
abbrev pub boolean_arg : List Arg → Option Bool
boolean_arg (boolean b ∷ _) = some b
boolean_arg _ = none

-- dbus_message_get_args for three strings.
abbrev pub message_args : List Arg → Option (String × String × String)
message_args (string summary ∷ string body ∷ string icon ∷ _) = some (summary, body, icon)
message_args _ = none

-- dbus_message_get_args for one string.
abbrev pub name_arg : List Arg → Option String
name_arg (string name ∷ _) = some name
name_arg _ = none

-- strcmp (path, DBUS_PATH_LOCAL) == 0.
abbrev pub path_is_local : Option String → Bool
path_is_local none = false
path_is_local (some path) = str_eq path "/org/freedesktop/DBus/Local"

-- strcmp (name, property) over the entries of an array.
unfoldable pub mentions : String → List String → Bool
mentions property [] = false
mentions property (name ∷ names) = if str_eq name property then true else mentions property names

-- The invalidated properties, the second array; FALSE if the message cannot be decoded.
unfoldable pub invalidated_match : String → List Arg → Bool
invalidated_match property (strings names ∷ _) = mentions property names
invalidated_match property _ = false

unfoldable pub properties_changed_match : String → List Arg → Bool
unfolding mentions invalidated_match
properties_changed_match property (string _ ∷ dict names ∷ rest) =
    if mentions property names then true else invalidated_match property rest
properties_changed_match property _ = false

-- g_str_has_prefix, with the rest of the text behind the prefix.
unfoldable pub strip_prefix : (prefix text : String) → Option String
strip_prefix String.[] s = some s
strip_prefix (String.◌∷◌ c p) String.[] = none
strip_prefix (String.◌∷◌ c p) (String.◌∷◌ d s) = if code c == code d then strip_prefix p s else none

-- logind prefixes the session's id to make it a path; ConsoleKit's id is the path itself.
unfoldable pub path_is_session : (have_systemd : Bool) (path session_id : String) → Bool
unfolding strip_prefix
path_is_session true path id = elim (strip_prefix logind_session_path path) [
  | none ↦ false
  | some rest ↦ str_eq rest id
]
path_is_session false path id = str_eq path id

unfoldable pub path_is_our_session : Bool → (path session_id : Option String) → Bool
unfolding path_is_session
path_is_our_session have_systemd (some path) (some id) = path_is_session have_systemd path id
path_is_our_session have_systemd _ _ = false

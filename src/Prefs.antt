-- ===== src/Prefs.antt =====
-- src/gs-prefs.c and gs-prefs.h: the preferences object, its setters, the load of all keys from
-- the two settings stores, and the handler of a changed key.
--
-- A GSettings store is what it answers for each key: three functions of the key's name. A guint
-- is a number below 2 ^ 32, and its arithmetic wraps.
pub mod Keys
pub mod Timeouts
pub mod Reload
pub mod Tests
use budgie_screensaver.Common.{
  ℕ, ◌-◌, ◌*◌, ◌/◌, ◌%◌, ◌^◌, Bool, true, false, Option, none, some, String, ltb, if◌then◌else◌,
}
use Keys.{
  Key, lock_delay, idle_activation_enabled, lock_enabled, lock_disable, user_switch_disable,
  keyboard_enabled, keyboard_command, status_message_enabled, logout_enabled, logout_delay,
  logout_command, user_switch_enabled, key_of, name,
}

pub record Settings : Type 0 where
  pub get_boolean : String → Bool
  pub get_uint : String → ℕ
  pub get_string : String → String

pub record Prefs : Type 0 where
  pub idle_activation_enabled : Bool
  pub lock_enabled : Bool
  pub logout_enabled : Bool
  pub lock_disabled : Bool
  pub user_switch_disabled : Bool
  pub user_switch_enabled : Bool
  pub keyboard_enabled : Bool
  pub status_message_enabled : Bool
  pub lock_timeout : ℕ  -- guint, milliseconds
  pub logout_timeout : ℕ  -- guint, milliseconds
  pub logout_command : Option String
  pub keyboard_command : Option String

-- G_MAXUINT.
abbrev pub max_uint : ℕ
max_uint = 2 ^ 32 - 1

unfoldable pub set_lock_timeout : Prefs → ℕ → Prefs
set_lock_timeout p value =
    let v = if ltb (max_uint / 1000) value then max_uint / 1000 else value in
    record p { lock_timeout = (v * 1000) % 2 ^ 32 }

unfoldable pub set_idle_activation_enabled : Prefs → Bool → Prefs
set_idle_activation_enabled p value = record p { idle_activation_enabled = value }

unfoldable pub set_lock_enabled : Prefs → Bool → Prefs
set_lock_enabled p value = record p { lock_enabled = value }

unfoldable pub set_lock_disabled : Prefs → Bool → Prefs
set_lock_disabled p value = record p { lock_disabled = value }

unfoldable pub set_user_switch_disabled : Prefs → Bool → Prefs
set_user_switch_disabled p value = record p { user_switch_disabled = value }

unfoldable pub set_keyboard_enabled : Prefs → Bool → Prefs
set_keyboard_enabled p value = record p { keyboard_enabled = value }

-- The old string is freed, and the new one copied unless it is NULL.
unfoldable pub set_keyboard_command : Prefs → Option String → Prefs
set_keyboard_command p none = record p { keyboard_command = none }
set_keyboard_command p (some value) = record p { keyboard_command = some value }

unfoldable pub set_status_message_enabled : Prefs → Bool → Prefs
set_status_message_enabled p enabled = record p { status_message_enabled = enabled }

unfoldable pub set_logout_enabled : Prefs → Bool → Prefs
set_logout_enabled p value = record p { logout_enabled = value }

unfoldable pub set_logout_command : Prefs → Option String → Prefs
set_logout_command p none = record p { logout_command = none }
set_logout_command p (some value) = record p { logout_command = some value }

unfoldable pub set_logout_timeout : Prefs → ℕ → Prefs
set_logout_timeout p value =
    let v = if ltb (max_uint / 1000) value then max_uint / 1000 else value in
    record p { logout_timeout = (v * 1000) % 2 ^ 32 }

unfoldable pub set_user_switch_enabled : Prefs → Bool → Prefs
set_user_switch_enabled p value = record p { user_switch_enabled = value }

-- Every key, in the order of the source; `settings` and `lockdown` are the two stores.
unfoldable pub load_from_settings : (settings lockdown : Settings) → Prefs → Prefs
unfolding set_lock_timeout set_idle_activation_enabled set_lock_enabled set_lock_disabled
    set_user_switch_disabled set_keyboard_enabled set_keyboard_command set_status_message_enabled
    set_logout_enabled set_logout_command set_logout_timeout set_user_switch_enabled
load_from_settings s l p =
    let p = set_idle_activation_enabled p (s.get_boolean (name idle_activation_enabled)) in
    let p = set_lock_enabled p (s.get_boolean (name lock_enabled)) in
    let p = set_lock_timeout p (s.get_uint (name lock_delay)) in
    let p = set_keyboard_enabled p (s.get_boolean (name keyboard_enabled)) in
    let p = set_keyboard_command p (some (s.get_string (name keyboard_command))) in
    let p = set_status_message_enabled p (s.get_boolean (name status_message_enabled)) in
    let p = set_logout_enabled p (s.get_boolean (name logout_enabled)) in
    let p = set_logout_command p (some (s.get_string (name logout_command))) in
    let p = set_logout_timeout p (s.get_uint (name logout_delay)) in
    let p = set_user_switch_enabled p (s.get_boolean (name user_switch_enabled)) in
    let p = set_lock_disabled p (l.get_boolean (name lock_disable)) in
    set_user_switch_disabled p (l.get_boolean (name user_switch_disable))

-- What the handler does for a known key, which it reads from the store that changed.
unfoldable pub apply_key : Settings → String → Key → Prefs → Prefs
unfolding set_lock_timeout set_idle_activation_enabled set_lock_enabled set_lock_disabled
    set_user_switch_disabled set_keyboard_enabled set_keyboard_command set_status_message_enabled
    set_logout_enabled set_logout_command set_logout_timeout set_user_switch_enabled
apply_key s key lock_delay p = set_lock_timeout p (s.get_uint key)
apply_key s key idle_activation_enabled p = set_idle_activation_enabled p (s.get_boolean key)
apply_key s key lock_enabled p = set_lock_enabled p (s.get_boolean key)
apply_key s key lock_disable p = set_lock_disabled p (s.get_boolean key)
apply_key s key user_switch_disable p = set_user_switch_disabled p (s.get_boolean key)
apply_key s key keyboard_enabled p = set_keyboard_enabled p (s.get_boolean key)
apply_key s key keyboard_command p = set_keyboard_command p (some (s.get_string key))
apply_key s key status_message_enabled p = set_status_message_enabled p (s.get_boolean key)
apply_key s key logout_enabled p = set_logout_enabled p (s.get_boolean key)
apply_key s key logout_delay p = set_logout_timeout p (s.get_uint key)
apply_key s key logout_command p = set_logout_command p (some (s.get_string key))
apply_key s key user_switch_enabled p = set_user_switch_enabled p (s.get_boolean key)

-- The second part is whether the handler emits "changed".
unfoldable pub dispatch_key : Settings → String → Option Key → Prefs → Prefs × Bool
dispatch_key s key none p = (p, false)
dispatch_key s key (some k) p = (apply_key s key k p, true)

unfoldable pub key_changed_cb : Settings → String → Prefs → Prefs × Bool
unfolding dispatch_key
key_changed_cb s key p = dispatch_key s key (key_of key) p

-- g_object_new zeroes the object before gs_prefs_init sets these.
abbrev pub defaults : Prefs
defaults = record {
  idle_activation_enabled = true;
  lock_enabled = true;
  logout_enabled = false;
  lock_disabled = false;
  user_switch_disabled = false;
  user_switch_enabled = false;
  keyboard_enabled = false;
  status_message_enabled = false;
  lock_timeout = 0;
  logout_timeout = 14400000;
  logout_command = none;
  keyboard_command = none;
}

unfoldable pub gs_prefs_init : (settings lockdown : Settings) → Prefs
unfolding load_from_settings
gs_prefs_init s l = load_from_settings s l defaults

-- ===== src/Prefs/Keys.antt =====
-- src/gs-prefs.c: the names of the settings keys, and the strcmp chain that tells them apart.
use text.Mathlib.Text.{◌==◌ as str_eq}
use budgie_screensaver.Common.{
  ◌≡◌, refl, ◌≢◌, Option, none, some, String, List, [], ◌∷◌, inl, inr, ap, eq_iff, Bool-cases,
  if◌then◌else◌,
}

pub data Key : Type 0 where
  lock_delay idle_activation_enabled lock_enabled lock_disable : Key
  user_switch_disable keyboard_enabled keyboard_command status_message_enabled : Key
  logout_enabled logout_delay logout_command user_switch_enabled : Key

-- The KEY_ macros.
abbrev pub name : Key → String
name lock_delay = "lock-delay"
name idle_activation_enabled = "idle-activation-enabled"
name lock_enabled = "lock-enabled"
name lock_disable = "disable-lock-screen"
name user_switch_disable = "disable-user-switching"
name keyboard_enabled = "embedded-keyboard-enabled"
name keyboard_command = "embedded-keyboard-command"
name status_message_enabled = "status-message-enabled"
name logout_enabled = "logout-enabled"
name logout_delay = "logout-delay"
name logout_command = "logout-command"
name user_switch_enabled = "user-switch-enabled"

-- A chain of strcmp: the first key whose name is the text.
first_match : List Key → String → Option Key
first_match [] k = none
first_match (i ∷ is) k = if str_eq k (name i) then some i else first_match is k

abbrev chain : List Key
chain =
    lock_delay ∷ idle_activation_enabled ∷ lock_enabled ∷ lock_disable ∷ user_switch_disable
    ∷ keyboard_enabled ∷ keyboard_command ∷ status_message_enabled ∷ logout_enabled ∷ logout_delay
    ∷ logout_command ∷ user_switch_enabled ∷ []

-- The chain in key_changed_cb, in its order.
unfoldable pub key_of : String → Option Key
unfolding first_match
key_of = first_match chain

pub key_of-name : (k : Key) → key_of (name k) ≡ some k
unfolding key_of
key_of-name lock_delay = refl
key_of-name _ = refl

first_match-eq_name :
    (is : List Key) (k : String) (i : Key) → first_match is k ≡ some i → k ≡ name i
unfolding first_match
first_match-eq_name [] k i h = cc
first_match-eq_name (j ∷ is) k i h = elim (Bool-cases (str_eq k (name j))) [
  | inl e ↦ cc ((eq_iff k (name j)).0 e, rw e at h)
  | inr e ↦ first_match-eq_name is k i (rw e at h)
]

-- The chain finds a key only under its own name.
pub key_of-eq_name : (k : String) (i : Key) → key_of k ≡ some i → k ≡ name i
unfolding key_of
key_of-eq_name k i h = first_match-eq_name chain k i h

pub name-ne : (k : String) (j : Key) → key_of k ≢ some j → name j ≢ k
name-ne k j d e = d (cc (key_of-name j, ap key_of e))

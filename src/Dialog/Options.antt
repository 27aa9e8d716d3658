-- ===== src/Dialog/Options.antt =====
-- src/gs-window-x11.c with src/gnome-screensaver-dialog.c and src/gs-lock-plug.c: which buttons and
-- which message the unlock dialog of a window shows.
use budgie_screensaver.Common.{
  ◌≡◌, Bool, true, false, ◌||◌, Option, none, some, String, List, [], ◌∷◌, if◌then◌else◌,
  after_prefix,
}
use budgie_screensaver.Window.{Window}
use budgie_screensaver.Dialog.Init.{Start}

abbrev is_end : Option String → Bool
is_end none = false
is_end (some String.[]) = true
is_end (some (String.◌∷◌ c s)) = false

-- Whether an option without a value is among the words.
abbrev pub is_given : (option : String) → List String → Bool
is_given option [] = false
is_given option (word ∷ words) = is_end (after_prefix option word) || is_given option words

abbrev first : Option String → Option String → Option String
first none o = o
first (some v) o = some v

-- The value of an option, which stands behind its name and an equals sign.
abbrev pub value_of : (option : String) → List String → Option String
value_of option [] = none
value_of option (word ∷ words) = first (after_prefix option word) (value_of option words)

-- GLib's documented parser: each option that is given once sets its variable.
pub record IsParsed (words : List String) (s : Start) : Type 0 where
  pub enable_logout : s.enable_logout ≡ is_given "--enable-logout" words
  pub enable_switch : s.enable_switch ≡ is_given "--enable-switch" words
  pub logout_command : s.logout_command ≡ value_of "--logout-command=" words
  pub status_message : s.status_message ≡ value_of "--status-message=" words

-- The words behind the program's path.
abbrev pub options_of : List String → List String
options_of [] = []
options_of (program ∷ words) = words

-- The options are read back from the words.
abbrev ReadsBack : List String → (logout switch : Bool) (command message : Option String) → Type 0
ReadsBack words logout switch command message =
    (is_given "--enable-logout" words ≡ logout)
    × (is_given "--enable-switch" words ≡ switch)
    × (value_of "--logout-command=" words ≡ (if logout then command else none))
    × (value_of "--status-message=" words ≡ message)

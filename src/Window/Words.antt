-- ===== src/Window/Words.antt =====
-- src/gs-window-x11.c: the words that the shell's rules read from the dialog's command line.
use budgie_screensaver.Common.{
  ℕ, ◌≡◌, refl, Bool, true, false, not, ◌&&◌, ◌||◌, Option, none, some, String, List, [], ◌∷◌, ◌++◌,
  leb, ◌==◌, if◌then◌else◌, append, all_codes,
}
use budgie_screensaver.Window.{Window}
use budgie_screensaver.Window.Command.{
  Shell, is_logout_enabled, append_logout, append_message, dialog_command,
}

-- Letters, digits and - . / = _, which the shell's rules take as they are.
abbrev pub is_plain : ℕ → Bool
is_plain c =
    (leb 45 c && leb c 57)
    || c == 61
    || (leb 65 c && leb c 90)
    || c == 95
    || (leb 97 c && leb c 122)

-- No single quote.
abbrev pub is_unquoted : ℕ → Bool
is_unquoted c = not (c == 39)

-- The documented rules, on a line that has its quotes in pairs: a word is added by a space and a
-- plain text, by a plain text with any text between single quotes that has none itself, or by a
-- plain text with any text that was quoted.
pub record IsShell (s : Shell) : Type 0 where
  pub word : (t : String) → all_codes is_plain t ≡ true → s.parse_argv t ≡ some (t ∷ [])
  pub plain :
      (line t : String) (words : List String)
      → s.parse_argv line ≡ some words
      → all_codes is_plain t ≡ true
      → s.parse_argv (append line (append " " t)) ≡ some (words ++ t ∷ [])
  pub single :
      (line t u : String) (words : List String)
      → s.parse_argv line ≡ some words
      → all_codes is_plain t ≡ true
      → all_codes is_unquoted u ≡ true
      → s.parse_argv (append line (append " " (append t (append "'" (append u "'")))))
        ≡ some (words ++ append t u ∷ [])
  pub quoted :
      (line t u : String) (words : List String)
      → s.parse_argv line ≡ some words
      → all_codes is_plain t ≡ true
      → s.parse_argv (append line (append " " (append t (s.quote u))))
        ≡ some (words ++ append t u ∷ [])

abbrev pub logout_words : (logout : Bool) → Option String → List String → List String
logout_words false command words = words
logout_words true none words = words ++ "--enable-logout" ∷ []
logout_words true (some command) words =
    (words ++ "--enable-logout" ∷ []) ++ append "--logout-command=" command ∷ []

abbrev pub message_words : Option String → List String → List String
message_words none words = words
message_words (some message) words = words ++ append "--status-message=" message ∷ []

abbrev pub flag_words : Bool → String → List String → List String
flag_words b flag words = if b then words ++ flag ∷ [] else words

-- What the dialog is to be called with.
unfoldable pub dialog_words : (program : String) (elapsed : ℕ) (debug : Bool) → Window → List String
dialog_words program elapsed debug w = flag_words debug "--verbose" (
    flag_words w.user_switch_enabled "--enable-switch" (
      message_words w.status_message
        (logout_words (is_logout_enabled elapsed w) w.logout_command (program ∷ []))))

-- A command without single quotes, if there is one.
abbrev pub IsUnquoted : Option String → Type 0
IsUnquoted none = Unit
IsUnquoted (some command) = all_codes is_unquoted command ≡ true

module _ (s : Shell) (law : IsShell s) where
  parse-logout :
      (logout : Bool) (command : Option String) (line : String) (words : List String)
      → s.parse_argv line ≡ some words
      → IsUnquoted command
      → s.parse_argv (append_logout logout command line) ≡ some (logout_words logout command words)
  parse-logout false command line words h free = h
  parse-logout true none line words h free = law.plain line "--enable-logout" words h refl
  parse-logout true (some command) line words h free =
      law.single _ "--logout-command=" command _ (law.plain line "--enable-logout" words h refl)
        refl free

  parse-message :
      (message : Option String) (line : String) (words : List String)
      → s.parse_argv line ≡ some words
      → s.parse_argv (append_message s message line) ≡ some (message_words message words)
  parse-message none line words h = h
  parse-message (some message) line words h =
      law.quoted line "--status-message=" message words h refl

  parse-flag :
      (b : Bool) (flag line : String) (words : List String)
      → all_codes is_plain flag ≡ true
      → s.parse_argv line ≡ some words
      → s.parse_argv (if b then append line (append " " flag) else line)
        ≡ some (flag_words b flag words)
  parse-flag true flag line words plain h = law.plain line flag words h plain
  parse-flag false flag line words plain h = h

  pub parse-dialog_command :
      (program : String) (elapsed : ℕ) (debug : Bool) (w : Window)
      → all_codes is_plain program ≡ true
      → IsUnquoted w.logout_command
      → s.parse_argv (dialog_command s program elapsed debug w)
        ≡ some (dialog_words program elapsed debug w)
  unfolding dialog_command dialog_words
  parse-dialog_command program elapsed debug w plain free = parse-flag debug "--verbose" _ _ refl (
      parse-flag w.user_switch_enabled "--enable-switch" _ _ refl (
        parse-message w.status_message _ _ (
          parse-logout (is_logout_enabled elapsed w) w.logout_command program (program ∷ [])
            (law.word program plain) free)))

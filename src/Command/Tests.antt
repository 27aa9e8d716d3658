-- ===== src/Command/Tests.antt =====
-- src/gnome-screensaver-command.c: the theorem at a concrete screensaver.
use budgie_screensaver.Common.{◌≡◌, refl, true, false, [], ◌∷◌, pos}
use budgie_screensaver.Listener.{Listener, active_time}
use budgie_screensaver.Listener.Tests.{willing, quiet}
use budgie_screensaver.Command.{Options, do_command, is_active, active_for, main, version_line}
use budgie_screensaver.Command.Answers.{served, effect, do_command_lem}

-- --query --time --lock --deactivate.
abbrev options : Options
options = record {
  quit = false;
  lock = true;
  activate = false;
  deactivate = true;
  version = false;
  query = true;
  time = true;
}

-- Active since second 100.
abbrev shown : Listener
shown = record quiet { active = true; active_start = 100 }

do_command_example :
    let r = do_command (served willing 160) options shown in
    (false ≡ true → (r.world ≡ willing.emit_quit shown) × (r.printed ≡ []))
    × (false ≡ false
        → (r.world ≡ effect willing 160 options shown)
          × (r.printed ≡ is_active ∷ active_for (pos 60) ∷ []))
unfolding active_time
do_command_example = do_command_lem willing 160 options shown

version-printed :
    (main (served willing 160) true false (record options { version = true }) shown).0.printed
    ≡ version_line ∷ []
unfolding main
version-printed = refl

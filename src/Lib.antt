-- ===== src/Lib.antt =====
-- Budgie Screensaver: the screen saver and lock of the Budgie desktop, a C program on GTK and X11.
--
-- The daemon (src/gs-monitor.c) joins five objects. The watcher hears from the session when the
-- user is idle; the listener owns the D-Bus name, and keeps whether the saver is active; the
-- manager puts one lock window on each monitor and locks them after a time; the grab holds the
-- keyboard and the pointer; the preferences come from GSettings. A lock window starts the unlock
-- dialog, a program of its own that authenticates the user and writes its answer to its output.
--
-- The models, one module for each part:
--   Common    numbers, lists, integers and main loop calls that the others share
--   Prefs     src/gs-prefs.c, src/gs-prefs.h: the setters, the load, the changed-key handler
--   Listener  src/gs-listener-dbus.c: the flags and their times (Listener), the messages and the
--             tests on them (Listener/Message), the handlers of both buses (Listener/Handler),
--             the connections, the name and the matches (Listener/Bus), the introspection data
--             (Listener/Signatures)
--   Watcher   src/gs-watcher-x11.c: flags, presence status and idle timeout (Watcher), the
--             watchdog on the X server's own saver (Watcher/Server)
--   Grab      src/gs-grab-x11.c: requests, retries, moves of the grab
--   Fade      src/gs-fade.c: the timer, the start and the end of a fade, its callbacks
--             (Fade), the gamma of the screen's crtcs by GnomeRR (Fade/Gamma), and the ramp and the
--             numbers by XF86VidMode (Fade/VidMode)
--   Window    src/gs-window-x11.c: the unlock dialog of one window and the watch of its output,
--             the queue of keys (Window/Keys), the handlers of input events (Window/Events), the
--             geometry (Window/Geometry), the watchdog and the message bar (Window/Surface), the
--             dialog's command line (Window/Command) with the words that it is read as
--             (Window/Words), the processes of the dialog and its
--             keyboard (Window/Keyboard), and their life with the window (Window/Life)
--   Manager   src/gs-manager.c: policy and lock timer (Manager), the dialogs and the grabs that go
--             with them (Manager/Dialog), the windows of the monitors (Manager/Windows), activation
--             and deactivation (Manager/Active), the settings that windows have (Manager/Policy), and
--             sequences of operations (Manager/Operations)
--   Monitor   src/gs-monitor.c: locking and the handlers of the listener (Monitor), the handlers of
--             the watcher and of the preferences, and the hosts (Monitor/Wiring), and the abstract
--             saver that they refine (Monitor/Saver)
--   Auth      src/gs-auth-pam.c, src/gs-auth.h: the verification of a user by PAM (Auth), the repair
--             of a message's text (Auth/Utf8), the handshake of PAM's thread with the main one as a
--             step relation (Auth/Handshake)
--   Privileges  src/setuid.c: the ids of the dialog's process
--   LockPlug  src/gs-lock-plug.c: the dialog's window: its responses, timeouts and key queue
--             (LockPlug), the main loop's sources (LockPlug/Sources), its run (LockPlug/Run), the
--             conversion of pixels (LockPlug/Pixels), the input sources (LockPlug/InputSources)
--   Dialog    src/gnome-screensaver-dialog.c: the unlock dialog, with its main loop as the callbacks
--             that it dispatches (Dialog), its start (Dialog/Init), and the window that reads its
--             output (Dialog/Locked)
--   Children  src/subprocs.c: signals to children and waiting for them
--   Command   src/gnome-screensaver-command.c: the options of the command line and their messages
-- The Tests module of each part applies its theorems at concrete values.
--
-- A C function is the function of its name here, without the leading underscore or the type's prefix
-- where the module says the type. An object's private struct is a record; a method takes the record
-- and returns it, with what the C function returns. A GObject signal whose handlers live in another
-- part is a field of a Host record, a parameter of the model: a theorem about the listener or the
-- watcher holds for every handler that leaves the object itself alone (IsLawful). The monitor's
-- handlers fill these records. The X display (Display), the gamma functions (Backend for the fade's
-- timer, Randr and VidMode for the ramps), floating-point numbers (Doubles, Floats), GLib's
-- shell functions (Shell), Cairo and GDK
-- with the clock (Env) are parameters too. Calls on the main loop are kept in a list.
--
-- Numbers: a guint wraps at 2 ^ 32 where the code multiplies or converts; a glong and a time_t are
-- unbounded numbers. Fuel: gs_grab_move_to_window loops until the grab moves, and the model gives it
-- a number of rounds; Grab/Move says how many are enough, and an Env in which they are is
-- IsResponsive (Manager/Total). The timer of a fade is run for a number of calls; Fade/Timer says how
-- many are enough. All other loops run over a list or a count.
--
-- The dialog is a process of its own. PAM is a parameter of it: what its calls return, and its stack
-- of modules as a tree of the conversations that it holds, which goes on from the replies (Stack).
-- The kernel's calls that set ids are a parameter (Kernel), and so is the conversion of texts (Glib).
-- What happens in each prompt is given as a list of events of the plug, and what the dialog's main
-- loop dispatches as a list too. While PAM works, the dialog is in a main loop of its own; a response
-- there ends the process by SIGTERM, and the model ends it at once.
--
-- Not modelled: src/gs-auth-bsdauth.c, which takes the place of src/gs-auth-pam.c on BSD; the main
-- function of the screensaver, which only starts the monitor; the log, which is output
-- only; of the modelled files, texts and their translation, drawing, layout and the animation of a
-- failure, the programs that log out and switch the user, the watcher's proxy to the session's
-- presence, and the libraries' own part in the D-Bus connections.
pub mod Common
pub mod Prefs
pub mod Listener
pub mod Watcher
pub mod Grab
pub mod Fade
pub mod Window
pub mod Manager
pub mod Monitor
pub mod Auth
pub mod Privileges
pub mod LockPlug
pub mod Dialog
pub mod Children
pub mod Command

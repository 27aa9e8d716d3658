-- ===== src/Manager/Locked.antt =====
-- src/gs-manager.c, src/gs-window-x11.c: a locked window, under the operations on its dialog.
use budgie_screensaver.Common.{◌≡◌, true, List, arith, All}
use budgie_screensaver.Window.{Window, gs_window_cancel_unlock_request, gs_window_request_unlock}
use budgie_screensaver.Manager.Stable.{IsStable}

-- The window is locked, and no deactivation of it is pending.
abbrev pub IsLocked : Window → Type 0
IsLocked w = (w.lock_enabled ≡ true) × (w.deactivated_idles ≡ 0)

abbrev pub AllLocked : List Window → Type 0
AllLocked = All IsLocked

pub IsLocked-IsStable : IsStable IsLocked
unfolding gs_window_cancel_unlock_request gs_window_request_unlock
IsLocked-IsStable = record {
  sensitive = λ b w l. l;
  visible = λ w l. l;
  cancel = λ w l. (ground arith, ground arith);
  request = λ id w l. (ground arith, ground arith);
}

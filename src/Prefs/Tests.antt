-- ===== src/Prefs/Tests.antt =====
-- src/gs-prefs.c: the theorems at concrete stores.
use text.Mathlib.Text.{◌==◌ as str_eq}
use text.Mathlib.TextEquality.{eq_iff}
use budgie_screensaver.Common.{ℕ, ◌≤◌, ◌≡◌, refl, Bool, true, false, arith, if◌then◌else◌}
use budgie_screensaver.Prefs.{
  Settings, Prefs, set_lock_timeout, set_logout_timeout, max_uint, defaults, key_changed_cb,
  gs_prefs_init,
}
use budgie_screensaver.Prefs.Keys.{key_of}
use budgie_screensaver.Prefs.Timeouts.{set_timeouts-clamp}
use budgie_screensaver.Prefs.Reload.{SameBut, key_changed-load}

abbrev store : (delay : ℕ) (locked : Bool) → Settings
store delay locked = record {
  get_boolean = λ k. if str_eq k "disable-lock-screen" then locked else true;
  get_uint = λ k. if str_eq k "lock-delay" then delay else 7200;
  get_string = λ k. "";
}

abbrev pub prefs : Prefs
prefs = gs_prefs_init (store 5 false) (store 5 false)

store-SameBut : SameBut "lock-delay" (store 5 false) (store 4294968 false)
store-SameBut = record {
  boolean = λ j d. refl;
  uint = λ j d. ground (arith, eq_iff j "lock-delay");
  string = λ j d. refl;
}

key_changed-load_example :
    (key_changed_cb (store 4294968 false) "lock-delay" prefs).0
    ≡ gs_prefs_init (store 4294968 false) (store 5 false)
unfolding gs_prefs_init key_of
key_changed-load_example =
    key_changed-load "lock-delay" (store 5 false) (store 4294968 false) (store 5 false) defaults
      store-SameBut (λ e. cc) (λ e. cc)

lockdown-SameBut : SameBut "disable-lock-screen" (store 5 false) (store 5 true)
lockdown-SameBut = record {
  boolean = λ j d. ground (arith, eq_iff j "disable-lock-screen");
  uint = λ j d. refl;
  string = λ j d. refl;
}

set_timeouts-clamp_example :
    ((set_lock_timeout prefs 4294968).lock_timeout ≡ 4294967000)
    × ((set_logout_timeout prefs 4294968).logout_timeout ≡ 4294967000)
    × ((set_lock_timeout prefs 4294968).lock_timeout ≤ max_uint)
    × ((set_logout_timeout prefs 4294968).logout_timeout ≤ max_uint)
set_timeouts-clamp_example = set_timeouts-clamp prefs 4294968

huge_delay : (set_lock_timeout prefs 4294968).lock_timeout ≡ 4294967000
unfolding set_lock_timeout
huge_delay = refl

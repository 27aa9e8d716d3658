-- ===== src/Listener/Session.antt =====
-- src/gs-listener-dbus.c: which messages concern our session, and what the others do.
use text.Mathlib.TextEquality.{Char-path}
use Prim.Native.String.{◌++◌ as append}
use Prim.Native.String.append
use Prim.Native.Char.{code}
use budgie_screensaver.Common.{
  ◌≡◌, ap, ◌↔◌, inl, inr, Bool, true, false, some, String, eq_iff, ◌==◌, ==_refl, if◌then◌else◌,
  Bool-cases, Option-cases, ==_iff,
}
use budgie_screensaver.Listener.Message.{strip_prefix, path_is_session, logind_session_path}

strip_prefix-append : (p s : String) → strip_prefix p (append p s) ≡ some s
unfolding strip_prefix
strip_prefix-append String.[] s = ap some (append.nil s)
strip_prefix-append (String.◌∷◌ c p) s =
    rw (append.cons c p s) (rw (==_refl (code c)) (strip_prefix-append p s))

strip_prefix-eq_some : (p s r : String) → strip_prefix p s ≡ some r → s ≡ append p r
unfolding strip_prefix
strip_prefix-eq_some String.[] s r h = cc (append.nil r)
strip_prefix-eq_some (String.◌∷◌ c p) String.[] r h = cc
strip_prefix-eq_some (String.◌∷◌ c p) (String.◌∷◌ d s) r h = elim (Bool-cases (code c == code d)) [
  | inl e ↦ cc (
    append.cons c p r,
    Char-path c d ((==_iff (code c) (code d)).0 e),
    strip_prefix-eq_some p s r (rw e at h),
  )
  | inr e ↦ cc (rw e at h)
]

-- A message concerns our session exactly if its path is the session's id behind logind's prefix,
-- or with ConsoleKit the session's id itself.
pub path_is_session_iff :
    (have_systemd : Bool) (path id : String)
    → (path_is_session have_systemd path id ≡ true)
      ↔ (path ≡ (if have_systemd then append logind_session_path id else id))
unfolding path_is_session
path_is_session_iff true path id = elim (Option-cases (strip_prefix logind_session_path path)) [
  | inl e ↦ rw e (
    λ f. cc,
    λ p.
        cc (e, strip_prefix-append logind_session_path id, ap (strip_prefix logind_session_path) p),
  )
  | inr (r, e) ↦ rw e (
    λ q. cc ((eq_iff r id).0 q, strip_prefix-eq_some logind_session_path path r e),
    λ p. (eq_iff r id).1 (
        cc
          (e, strip_prefix-append logind_session_path id, ap (strip_prefix logind_session_path) p)),
  )
]
path_is_session_iff false path id = eq_iff path id

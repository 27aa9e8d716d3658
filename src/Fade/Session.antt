-- ===== src/Fade/Session.antt =====
-- src/gs-fade.c: a whole fade by GnomeRR, from its setup to its reset.
use budgie_screensaver.Common.{
  ℕ, ◌≡◌, inl, inr, refl, ◌∙◌, true, none, some, List, [], ◌∷◌, arith, ◌>>=◌, Bool-cases,
  Option-cases,
}
use budgie_screensaver.Fade.{FadeType}
use budgie_screensaver.Fade.Gamma.{
  GammaInfo, Vmg, Floats, Randr, Screen, xrandr_fade_set_alpha_gamma, read_all, xrandr_fade_setup,
  screen_fade_finish, set_alphas, reset_screen,
}
use budgie_screensaver.Fade.Restore.{IsLawful, Filled, Untouched, whack_all_lem, whack_all-one}

-- A screen that is not being faded.
abbrev pub idle : FadeType → Vmg → Screen
idle t v = record { fade_type = t; info = none; vmg = v }

module _ {D : Type 0} (rr : Randr D) (fl : Floats) (laws : IsLawful rr fl) where
  read_all-Filled :
      (cs : List ℕ) (d : D) → (read_all rr cs d).1 ≡ true → Filled rr d cs (read_all rr cs d).0
  unfolding read_all
  read_all-Filled [] d e = tt
  read_all-Filled (c ∷ cs) d e = elim (Bool-cases (rr.has_mode d c)) [
    | inr off ↦ rw off (inl refl, read_all-Filled cs d (rw off at e))
    | inl on ↦ elim (Option-cases (rr.get_gamma d c)) [
      | inl none_read ↦ absurd (ground (arith, on, none_read, e))
      | inr (i, own) ↦
          rw (on, own) (inr (own, laws.sized c i d own), read_all-Filled cs d (rw (on, own) at e))
    ]
  ]

  -- What a fade keeps of the display as it was at the setup.
  record Keeps (is : List GammaInfo) (d0 d : D) : Type 0 where
    crtcs : rr.crtcs d ≡ rr.crtcs d0
    others : (x : ℕ) → Untouched (rr.crtcs d0) is x → rr.get_gamma d x ≡ rr.get_gamma d0 x

  set_alphas-Keeps :
      (s : Screen) (is : List GammaInfo) (alphas : List ℕ) (d0 d : D)
      → s.info ≡ some is
      → Filled rr d0 (rr.crtcs d0) is
      → Keeps is d0 d
      → (d' : D) × (set_alphas rr fl s alphas d ≡ some d') × Keeps is d0 d'
  unfolding set_alphas xrandr_fade_set_alpha_gamma
  set_alphas-Keeps s is [] d0 d e f k = (d, refl, k)
  set_alphas-Keeps s is (a ∷ rest) d0 d e f k =
      let (d1, e1, c1, o1) = whack_all_lem rr fl laws (rr.crtcs d0) is a d0 d f in
      let k1 : Keeps is d0 d1 = record {
        crtcs = c1 ∙ k.crtcs;
        others = λ x u. o1 x u ∙ k.others x u;
      } in
      let (d2, e2, k2) = set_alphas-Keeps s is rest d0 d1 e f k1 in (d2, rw (e, k.crtcs, e1) e2, k2)

  -- A fade by GnomeRR whose setup succeeds: whatever alphas are set, no array is read past its
  -- end, and the reset gives the ramps back and leaves every crtc with the gamma that it had
  -- before the fade.
  pub fade-restores :
      (t : FadeType) (v : Vmg) (alphas : List ℕ) (d : D)
      → (xrandr_fade_setup rr (idle t v) d).2 ≡ true
      → let (s, d0, _) = xrandr_fade_setup rr (idle t v) d in
        (d' : D) × ((set_alphas rr fl s alphas d0 >>= reset_screen rr fl s) ≡ some (idle t v, d'))
        × ((x : ℕ) → rr.get_gamma d' x ≡ rr.get_gamma d x)
  unfolding xrandr_fade_setup reset_screen xrandr_fade_set_alpha_gamma screen_fade_finish
  fade-restores t v alphas d res =
      let d0 = rr.refresh d in
      let is = (read_all rr (rr.crtcs d0) d0).0 in
      let f = read_all-Filled (rr.crtcs d0) d0 res in
      let s : Screen = record { fade_type = t; info = some is; vmg = v } in
      let start : Keeps is d0 d0 = record { crtcs = refl; others = λ x u. refl } in
      let (d1, e1, k1) = set_alphas-Keeps s is alphas d0 d0 refl f start in
      let (d2, e2, r2) = whack_all-one rr fl laws (rr.crtcs d0) is d0 d1 f in
      (d2, rw (e1, k1.crtcs, e2) refl, λ x. r2 x (λ u. k1.others x u) ∙ laws.get-refresh x d)

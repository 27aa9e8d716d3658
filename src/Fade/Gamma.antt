-- ===== src/Fade/Gamma.antt =====
-- src/gs-fade.c: the gamma of the screen's crtcs, by GnomeRR.
--
-- GnomeRR and the X server behind it are a parameter: a world, what is read of it, and how it is
-- changed. An array is a list, and a read past its end is `none`, undefined behaviour. A crtc is
-- the number of its pointer, and a gfloat that of its bits.
use budgie_screensaver.Common.{
  ℕ, zero, suc, Bool, true, false, not, Option, none, some, List, [], ◌∷◌, ◌==◌, if◌then◌else◌,
  is_some, ◌>>=◌,
}
use budgie_screensaver.Fade.{FadeType, no_fade, xrandr}

pub record GammaInfo : Type 0 where
  pub size : ℕ
  pub r : List ℕ
  pub g : List ℕ
  pub b : List ℕ

-- As g_new0 leaves it.
abbrev pub null_info : GammaInfo
null_info = record { size = 0; r = []; g = []; b = [] }

-- XF86VidModeGamma
pub record Vmg : Type 0 where
  pub red : ℕ
  pub green : ℕ
  pub blue : ℕ

pub record Floats : Type 0 where
  pub nought : ℕ
  pub one : ℕ
  pub less : (a b : ℕ) → Bool
  -- An unsigned short times a ratio, as an unsigned short.
  pub scale : (value ratio : ℕ) → ℕ
  pub times : (a b : ℕ) → ℕ
  pub min_gamma : ℕ

pub record Randr (D : Type 0) : Type 0 where
  pub refresh : D → D
  pub crtcs : D → List ℕ
  pub has_mode : D → (crtc : ℕ) → Bool
  pub get_gamma : D → (crtc : ℕ) → Option GammaInfo
  pub set_gamma : (crtc : ℕ) → GammaInfo → D → D

-- The number of ramps is the length of `info`.
pub record Screen : Type 0 where
  pub fade_type : FadeType
  pub info : Option (List GammaInfo)
  pub vmg : Vmg

abbrev pub clamp : Floats → (ratio : ℕ) → ℕ
clamp fl ratio =
    let ratio = (if fl.less ratio fl.nought then fl.nought else ratio) in
    if fl.less fl.one ratio then fl.one else ratio

-- The loop over the first `n` entries of an array.
unfoldable pub scaled : Floats → (ratio n : ℕ) → List ℕ → Option (List ℕ)
scaled fl ratio zero xs = some []
scaled fl ratio (suc n) [] = none
scaled fl ratio (suc n) (x ∷ xs) = scaled fl ratio n xs >>= λ ys. some (fl.scale x ratio ∷ ys)

abbrev pub scaled_info : Floats → (ratio : ℕ) → GammaInfo → Option GammaInfo
scaled_info fl ratio i = do
  r ← scaled fl ratio i.size i.r
  g ← scaled fl ratio i.size i.g
  b ← scaled fl ratio i.size i.b
  some (record { size = i.size; r = r; g = g; b = b })

module _ {D : Type 0} (rr : Randr D) (fl : Floats) where
  unfoldable pub xrandr_crtc_whack_gamma : (crtc : ℕ) → GammaInfo → (ratio : ℕ) → D → Option D
  unfolding scaled
  xrandr_crtc_whack_gamma crtc i ratio d =
      if i.size == 0
      then some d
      else scaled_info fl (clamp fl ratio) i >>= λ j. some (rr.set_gamma crtc j d)

  -- The loop over the crtcs, with the entries of `info` beside them.
  unfoldable pub whack_all : (crtcs : List ℕ) → List GammaInfo → (ratio : ℕ) → D → Option D
  unfolding xrandr_crtc_whack_gamma
  whack_all [] is ratio d = some d
  whack_all (c ∷ cs) [] ratio d = none
  whack_all (c ∷ cs) (i ∷ is) ratio d =
      xrandr_crtc_whack_gamma c i ratio d >>= whack_all cs is ratio

  unfoldable pub xrandr_fade_set_alpha_gamma : Screen → (alpha : ℕ) → D → Option (D × Bool)
  unfolding whack_all
  xrandr_fade_set_alpha_gamma s alpha d = elim s.info [
    | none ↦ some (d, false)
    | some is ↦ whack_all (rr.crtcs d) is alpha d >>= λ d. some (d, true)
  ]

-- What is in `info` after the loop of xrandr_fade_setup has stopped at a crtc: nulls from there.
abbrev pub nulls : List ℕ → List GammaInfo
nulls [] = []
nulls (c ∷ cs) = null_info ∷ nulls cs

module _ {D : Type 0} (rr : Randr D) where
  -- The loop over the crtcs of xrandr_fade_setup, and whether it came to its end.
  unfoldable pub read_all : (crtcs : List ℕ) → D → List GammaInfo × Bool
  read_all [] d = ([], true)
  read_all (c ∷ cs) d =
      let (is, res) = read_all cs d in
      if not (rr.has_mode d c)
      then (null_info ∷ is, res)
      else elim (rr.get_gamma d c) [ none ↦ (null_info ∷ nulls cs, false) | some i ↦ (i ∷ is, res) ]

  unfoldable pub xrandr_fade_setup : Screen → D → Screen × D × Bool
  unfolding read_all
  xrandr_fade_setup s d =
      if is_some s.info
      then (s, d, true)
      else let d = rr.refresh d in
        let (is, res) = read_all (rr.crtcs d) d in (record s { info = some is }, d, res)

  -- Whether all crtcs have a gamma of some size.
  abbrev pub all_gammas : List ℕ → D → Bool
  all_gammas [] d = true
  all_gammas (c ∷ cs) d = elim (rr.get_gamma d c) [
    | none ↦ false
    | some i ↦ if i.size == 0 then false else all_gammas cs d
  ]

  -- `opened` is whether gnome_rr_screen_new succeeds.
  unfoldable pub check_randr_extension : (opened : Bool) → D → FadeType
  check_randr_extension opened d =
      if not opened then no_fade else if all_gammas (rr.crtcs d) d then xrandr else no_fade

-- The ramps are given back.
unfoldable pub screen_fade_finish : Screen → Screen
screen_fade_finish s = record s { info = none }

module _ {D : Type 0} (rr : Randr D) (fl : Floats) where
  unfoldable pub set_alphas : Screen → (alphas : List ℕ) → D → Option D
  unfolding xrandr_fade_set_alpha_gamma
  set_alphas s [] d = some d
  set_alphas s (a ∷ rest) d = xrandr_fade_set_alpha_gamma rr fl s a d >>= λ r. set_alphas s rest r.0

  -- What gs_fade_reset does to the screen.
  unfoldable pub reset_screen : Screen → D → Option (Screen × D)
  unfolding xrandr_fade_set_alpha_gamma screen_fade_finish
  reset_screen s d =
      xrandr_fade_set_alpha_gamma rr fl s fl.one d >>= λ r. some (screen_fade_finish s, r.0)

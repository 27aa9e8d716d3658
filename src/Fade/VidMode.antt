-- ===== src/Fade/VidMode.antt =====
-- src/gs-fade.c: the gamma of the screen by XF86VidMode, and the choice of the gamma functions.
--
-- The build has HAVE_XF86VMODE_GAMMA_RAMP. The X server is a parameter, as in Fade/Gamma. A
-- request that it answers with an error leaves it as it was; gamma_fade_set_alpha_gamma ignores
-- what xf86_whack_gamma returns.
use budgie_screensaver.Common.{
  ℕ, zero, suc, Bool, true, false, not, ◌&&◌, ◌||◌, Option, none, some, List, [], ◌∷◌, ltb, ◌==◌,
  if◌then◌else◌, is_some, ◌>>=◌,
}
use budgie_screensaver.Fade.{FadeType, no_fade, gamma_number, gamma_ramp, xrandr}
use budgie_screensaver.Fade.Gamma.{
  GammaInfo, Vmg, null_info, Floats, Screen, Randr, clamp, scaled_info, check_randr_extension,
}

pub record VidMode (V : Type 0) : Type 0 where
  pub query_extension : V → Bool
  -- By safe_XF86VidModeQueryVersion: the major and the minor version.
  pub query_version : V → Option (ℕ × ℕ)
  -- `none` also for a size that is not positive.
  pub get_ramp_size : V → Option ℕ
  pub get_ramp : V → (size : ℕ) → Option GammaInfo
  pub get_gamma : V → Option Vmg
  pub set_ramp : GammaInfo → V → V
  pub set_gamma : Vmg → V → V

abbrev pub zeros : ℕ → List ℕ
zeros zero = []
zeros (suc n) = 0 ∷ zeros n

-- Three arrays as g_new0 leaves them.
abbrev pub blank : (size : ℕ) → GammaInfo
blank n = record { size = n; r = zeros n; g = zeros n; b = zeros n }

abbrev pub is_ramp : FadeType → Bool
is_ramp gamma_ramp = true
is_ramp _ = false

abbrev pub is_number : FadeType → Bool
is_number gamma_number = true
is_number _ = false

abbrev pub is_none : FadeType → Bool
is_none no_fade = true
is_none _ = false

abbrev pub dimmed : Floats → (value ratio : ℕ) → ℕ
dimmed fl value ratio =
    let value = fl.times value ratio in if fl.less value fl.min_gamma then fl.min_gamma else value

module _ {V : Type 0} (vm : VidMode V) (fl : Floats) where
  abbrev pub whack_number : Vmg → (ratio : ℕ) → V → V
  whack_number g ratio v =
      vm.set_gamma
        (record {
          red = dimmed fl g.red ratio;
          green = dimmed fl g.green ratio;
          blue = dimmed fl g.blue ratio;
        })
        v

  unfoldable pub xf86_whack_gamma : Screen → (ratio : ℕ) → V → Option V
  xf86_whack_gamma s ratio v = elim s.info [
    | none ↦ some v
    | some [] ↦ none
    | some (i ∷ is) ↦
        if i.size == 0
        then some (whack_number s.vmg (clamp fl ratio) v)
        else scaled_info fl (clamp fl ratio) i >>= λ j. some (vm.set_ramp j v)
  ]

module _ {V : Type 0} (vm : VidMode V) where
  abbrev pub read_ramp : V → Screen → Screen
  read_ramp v s = elim (vm.get_ramp_size v) [
    | none ↦ record s { fade_type = gamma_number }
    | some n ↦ elim (vm.get_ramp v n) [
      | none ↦ record s { info = some (blank n ∷ []); fade_type = gamma_number }
      | some i ↦ record s { info = some (i ∷ []) }
    ]
  ]

  abbrev pub read_number : V → Screen → Screen
  read_number v s = elim (vm.get_gamma v) [
    | none ↦ record s { fade_type = no_fade }
    | some g ↦ record s { vmg = g }
  ]

  unfoldable pub gamma_fade_setup : Screen → V → Screen × Bool
  gamma_fade_setup s v =
      if is_some s.info
      then (s, true)
      else let s = record s { info = some (null_info ∷ []) } in
        let s = if is_ramp s.fade_type then read_ramp v s else s in
        let s = if is_number s.fade_type then read_number v s else s in
        (s, not (is_none s.fade_type))

  -- `ltsp` is whether LTSP_CLIENT is set.
  unfoldable pub check_gamma_extension : (ltsp : Bool) → V → FadeType
  check_gamma_extension ltsp v =
      if ltsp
      then no_fade
      else if not (vm.query_extension v)
      then no_fade
      else elim (vm.query_version v) [
        | none ↦ no_fade
        | some (major, minor) ↦
            if ltb major 2 || (major == 2 && ltb minor 0)
            then no_fade
            else if ltb major 2 || (major == 2 && ltb minor 1)
            then gamma_number
            else gamma_ramp
      ]

-- The functions fade_setup, fade_finish and fade_set_alpha_gamma of a screen.
pub data Functions : Type 0 where
  by_randr by_vidmode : Functions

-- check_randr_extension and check_gamma_extension set the functions with a type that can fade.
abbrev pub functions : FadeType → Option Functions
functions no_fade = none
functions gamma_number = some by_vidmode
functions gamma_ramp = some by_vidmode
functions xrandr = some by_randr

module _ {D V : Type 0} (rr : Randr D) (vm : VidMode V) where
  unfoldable pub gs_fade_init : (opened ltsp : Bool) → D → V → FadeType × Option Functions
  unfolding check_randr_extension check_gamma_extension
  gs_fade_init opened ltsp d v =
      let t = check_randr_extension rr opened d in
      let t = if is_none t then check_gamma_extension vm ltsp v else t in (t, functions t)

-- `none` is a call through a NULL pointer.
unfoldable pub gs_fade_finalize : Option Functions → Screen → Option Screen
gs_fade_finalize none s = none
gs_fade_finalize (some f) s = some (record s { info = none })

-- ===== src/Fade/RampTests.antt =====
-- src/gs-fade.c: the theorems on the gamma at concrete displays.
use budgie_screensaver.Common.{
  ℕ, suc, ◌≡◌, refl, Bool, true, ◌&&◌, Option, none, some, [], ◌∷◌, ◌==◌, ◌*◌, ◌/◌, ltb,
  if◌then◌else◌, arith, length, ◌>>=◌,
}
use budgie_screensaver.Fade.{gamma_number, gamma_ramp, xrandr}
use budgie_screensaver.Fade.Gamma.{
  GammaInfo, Vmg, Floats, Randr, xrandr_fade_setup, set_alphas, reset_screen, scaled,
}
use budgie_screensaver.Fade.Restore.{IsWellSized, IsLawful}
use budgie_screensaver.Fade.Session.{idle, fade-restores}
use budgie_screensaver.Fade.VidMode.{VidMode, blank, gamma_fade_setup, xf86_whack_gamma}
use budgie_screensaver.Fade.Blackout.{vidmode-reset}

-- Ratios in hundredths.
abbrev hundredths : Floats
hundredths = record {
  nought = 0;
  one = 100;
  less = λ a b. ltb a b;
  scale = λ v r. v * r / 100;
  times = λ a r. a * r / 100;
  min_gamma = 10;
}

-- A display is what it was told for each crtc, if the arrays are as long as they should be.
abbrev sized : GammaInfo → Bool
sized i = length i.r == i.size && (length i.g == i.size && length i.b == i.size)

abbrev Display : Type 0
Display = ℕ → GammaInfo

abbrev randr : Randr Display
randr = record {
  refresh = λ d. d;
  crtcs = λ d. 1 ∷ 2 ∷ [];
  has_mode = λ d c. c == 1;
  get_gamma = λ d c. if sized (d c) then some (d c) else none;
  set_gamma = λ c i d x. if c == x then i else d x;
}

get-set :
    (c x : ℕ) (i : GammaInfo) (d : Display)
    → IsWellSized i
    → randr.get_gamma (randr.set_gamma c i d) x ≡ (if c == x then some i else randr.get_gamma d x)
get-set c x i d w = ground (arith, w)

sized-IsWellSized :
    (x : ℕ) (i : GammaInfo) (d : Display) → randr.get_gamma d x ≡ some i → IsWellSized i
sized-IsWellSized x i d e = ground (arith, e)

randr-IsLawful : IsLawful randr hundredths
randr-IsLawful = record {
  get-set = get-set;
  get-refresh = λ x d. refl;
  crtcs-set = λ c i d. refl;
  sized = sized-IsWellSized;
  scale-one = λ v. omega arith;
  one-nought = refl;
  one-one = refl;
}

abbrev no_vmg : Vmg
no_vmg = record { red = 0; green = 0; blue = 0 }

abbrev ramp : GammaInfo
ramp = record { size = 2; r = 10 ∷ 20 ∷ []; g = 30 ∷ 40 ∷ []; b = 50 ∷ 60 ∷ [] }

-- Down to a half, then to nothing.
fade-restores_example :
    let (s, d0, _) = xrandr_fade_setup randr (idle xrandr no_vmg) (λ x. ramp) in
    (d' : Display) × ((set_alphas randr hundredths s (50 ∷ 0 ∷ []) d0
        >>= reset_screen randr hundredths s)
      ≡ some (idle xrandr no_vmg, d'))
    × ((x : ℕ) → randr.get_gamma d' x ≡ some ramp)
unfolding xrandr_fade_setup
fade-restores_example =
    fade-restores randr hundredths randr-IsLawful xrandr no_vmg (50 ∷ 0 ∷ []) (λ x. ramp) refl

half-scaled : scaled hundredths 50 2 ramp.r ≡ some (5 ∷ 10 ∷ [])
unfolding scaled
half-scaled = refl

-- A server that tells the size of its ramp, but not the ramp; its state is the ramp that was set.
abbrev forgetful : VidMode (Option GammaInfo)
forgetful = record {
  query_extension = λ v. true;
  query_version = λ v. some (2, 1);
  get_ramp_size = λ v. some 2;
  get_ramp = λ v n. none;
  get_gamma = λ v. some (record { red = 90; green = 90; blue = 90 });
  set_ramp = λ i v. some i;
  set_gamma = λ g v. v;
}

abbrev ninety : Vmg
ninety = record { red = 90; green = 90; blue = 90 }

vidmode-reset_example :
    let (s, res) = gamma_fade_setup forgetful (idle gamma_ramp no_vmg) none in
    (2 ≡ suc 1
      → some 2 ≡ some (suc 1)
      → forgetful.get_ramp none (suc 1) ≡ some ramp
      → (res ≡ true)
        × ((w : Option GammaInfo)
            → xf86_whack_gamma forgetful hundredths s 100 w ≡ some (some ramp)))
    × (some 2 ≡ some (suc 1)
        → forgetful.get_ramp none (suc 1) ≡ none
        → some ninety ≡ some ninety
        → (res ≡ true)
          × (s.fade_type ≡ gamma_number)
          × ((ratio : ℕ) (w : Option GammaInfo)
              → xf86_whack_gamma forgetful hundredths s ratio w ≡ some (some (blank (suc 1)))))
    × (forgetful.get_ramp_size none ≡ none
        → some ninety ≡ some ninety
        → (res ≡ true)
          × ((w : Option GammaInfo) → xf86_whack_gamma forgetful hundredths s 100 w ≡ some w))
vidmode-reset_example =
    vidmode-reset forgetful no_vmg none hundredths 1 ramp ninety refl refl (λ v. omega arith)
      (λ r. omega arith) (λ v. omega arith) (refl, refl, refl)
      (record { red = refl; green = refl; blue = refl })

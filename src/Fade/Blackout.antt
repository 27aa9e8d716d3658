-- ===== src/Fade/Blackout.antt =====
-- src/gs-fade.c: what a fade by XF86VidMode sets the screen to, and the end of a fade object.
use budgie_screensaver.Common.{
  ℕ, zero, suc, ◌≡◌, ◌≢◌, if-false, ap, refl, Bool, true, false, Option, none, some, [], ◌∷◌, ◌==◌,
  arith,
}
use budgie_screensaver.Fade.{FadeType, no_fade, gamma_number, gamma_ramp, xrandr}
use budgie_screensaver.Fade.Gamma.{
  GammaInfo, null_info, Vmg, Floats, Screen, Randr, clamp, scaled, scaled_info,
}
use budgie_screensaver.Fade.Restore.{IsWellSized, scaled_info-one}
use budgie_screensaver.Fade.Session.{idle}
use budgie_screensaver.Fade.VidMode.{
  VidMode, zeros, blank, whack_number, xf86_whack_gamma, gamma_fade_setup, gs_fade_init,
  gs_fade_finalize, functions,
}

faults : (t : FadeType) (s : Screen) → t ≡ no_fade → gs_fade_finalize (functions t) s ≡ none
unfolding gs_fade_finalize
faults no_fade s e = refl
faults gamma_number s e = cc
faults gamma_ramp s e = cc
faults xrandr s e = cc

ends :
    (t : FadeType) (s : Screen)
    → t ≢ no_fade
    → gs_fade_finalize (functions t) s ≡ some (record s { info = none })
unfolding gs_fade_finalize
ends no_fade s e = absurd (e refl)
ends gamma_number s e = refl
ends gamma_ramp s e = refl
ends xrandr s e = refl

scaled-zeros :
    (fl : Floats) (ratio n : ℕ)
    → fl.scale 0 ratio ≡ 0
    → scaled fl ratio n (zeros n) ≡ some (zeros n)
unfolding scaled
scaled-zeros fl ratio zero h = refl
scaled-zeros fl ratio (suc n) h = rw (scaled-zeros fl ratio n h, h) refl

-- Gamma numbers that are not below the minimum.
pub record IsBright (fl : Floats) (g : Vmg) : Type 0 where
  pub red : fl.less g.red fl.min_gamma ≡ false
  pub green : fl.less g.green fl.min_gamma ≡ false
  pub blue : fl.less g.blue fl.min_gamma ≡ false

clamp-one :
    (fl : Floats)
    → fl.less fl.one fl.nought ≡ false
    → fl.less fl.one fl.one ≡ false
    → clamp fl fl.one ≡ fl.one
clamp-one fl low high = rw (low, high) refl

number-one :
    {V : Type 0} (vm : VidMode V) (fl : Floats) (g : Vmg) (w : V)
    → ((value : ℕ) → fl.times value fl.one ≡ value)
    → IsBright fl g
    → whack_number vm fl g fl.one w ≡ vm.set_gamma g w
number-one vm fl g w times bright =
    rw
      (
        times g.red,
        times g.green,
        times g.blue,
        bright.red,
        bright.green,
        bright.blue,
        whack_number,
      )
      refl

whack_ramp :
    {V : Type 0} (vm : VidMode V) (fl : Floats) (t : FadeType) (g : Vmg) (i j : GammaInfo)
    (ratio n : ℕ) (w : V)
    → i.size ≡ suc n
    → scaled_info fl (clamp fl ratio) i ≡ some j
    → xf86_whack_gamma vm fl (record { fade_type = t; info = some (i ∷ []); vmg = g }) ratio w
      ≡ some (vm.set_ramp j w)
unfolding xf86_whack_gamma
whack_ramp {V} vm fl t g i j ratio n w size e =
    (if-false {A = Option V} (λ r. r ≡ some (vm.set_ramp j w)) (i.size == 0) _ _
      (ground (arith, size)) (rw e refl))

module _ {V : Type 0} (vm : VidMode V) (g0 : Vmg) (v : V) where
  -- The setup's result, if the ramp can be read, if its size alone can, and if it cannot.
  setup_ramp :
      (n : ℕ) (i : GammaInfo)
      → vm.get_ramp_size v ≡ some (suc n)
      → vm.get_ramp v (suc n) ≡ some i
      → gamma_fade_setup vm (idle gamma_ramp g0) v
        ≡ (record { fade_type = gamma_ramp; info = some (i ∷ []); vmg = g0 }, true)
  unfolding gamma_fade_setup
  setup_ramp n i size read = ground (arith, size, read)

  setup_blank :
      (n : ℕ) (g : Vmg)
      → vm.get_ramp_size v ≡ some (suc n)
      → vm.get_ramp v (suc n) ≡ none
      → vm.get_gamma v ≡ some g
      → gamma_fade_setup vm (idle gamma_ramp g0) v
        ≡ (record { fade_type = gamma_number; info = some (blank (suc n) ∷ []); vmg = g }, true)
  unfolding gamma_fade_setup
  setup_blank n g size failed number = ground (arith, size, failed, number)

  setup_number :
      (g : Vmg)
      → vm.get_ramp_size v ≡ none
      → vm.get_gamma v ≡ some g
      → gamma_fade_setup vm (idle gamma_ramp g0) v
        ≡ (record { fade_type = gamma_number; info = some (null_info ∷ []); vmg = g }, true)
  unfolding gamma_fade_setup
  setup_number g size number = ground (arith, size, number)

  -- The ramp is read: at the ratio 1.0 the screen gets it back, whatever was set in between. The
  -- size is read and the ramp is not: the setup falls back to the gamma number and succeeds, but
  -- keeps the size, so that every step and the reset set the ramp to nothing but zeros. No size is
  -- read: at the ratio 1.0 the screen gets its gamma numbers, if they are not below the minimum.
  pub vidmode-reset :
      (fl : Floats) (n : ℕ) (i : GammaInfo) (g : Vmg)
      → fl.less fl.one fl.nought ≡ false
      → fl.less fl.one fl.one ≡ false
      → ((value : ℕ) → fl.scale value fl.one ≡ value)
      → ((ratio : ℕ) → fl.scale 0 ratio ≡ 0)
      → ((value : ℕ) → fl.times value fl.one ≡ value)
      → IsWellSized i
      → IsBright fl g
      → let (s, res) = gamma_fade_setup vm (idle gamma_ramp g0) v in
        (i.size ≡ suc n
          → vm.get_ramp_size v ≡ some (suc n)
          → vm.get_ramp v (suc n) ≡ some i
          → (res ≡ true) × ((w : V) → xf86_whack_gamma vm fl s fl.one w ≡ some (vm.set_ramp i w)))
        × (vm.get_ramp_size v ≡ some (suc n)
            → vm.get_ramp v (suc n) ≡ none
            → vm.get_gamma v ≡ some g
            → (res ≡ true)
              × (s.fade_type ≡ gamma_number)
              × ((ratio : ℕ) (w : V)
                  → xf86_whack_gamma vm fl s ratio w ≡ some (vm.set_ramp (blank (suc n)) w)))
        × (vm.get_ramp_size v ≡ none
            → vm.get_gamma v ≡ some g
            → (res ≡ true)
              × ((w : V) → xf86_whack_gamma vm fl s fl.one w ≡ some (vm.set_gamma g w)))
  unfolding xf86_whack_gamma
  vidmode-reset fl n i g low high one z times sized bright =
      let same = clamp-one fl low high in
      (
        λ e size read. rw (setup_ramp n i size read) (
          refl,
          λ w.
              whack_ramp vm fl gamma_ramp g0 i i fl.one n w e
                (rw same (scaled_info-one fl fl.one i one sized)),
        ),
        λ size failed number. rw (setup_blank n g size failed number) (
          refl,
          refl,
          λ ratio w.
              whack_ramp vm fl gamma_number g (blank (suc n)) (blank (suc n)) ratio n w refl
                (rw (scaled-zeros fl (clamp fl ratio) (suc n) (z _)) refl),
        ),
        λ size number.
            rw (setup_number g size number)
              (refl, λ w. rw same (ap some (number-one vm fl g w times bright))),
      )

-- Where the display can fade in no way, the end of a fade object calls through a NULL pointer;
-- where it can, the ramps are given back.
pub gs_fade_finalize-faults :
    {D V : Type 0} (rr : Randr D) (vm : VidMode V) (opened ltsp : Bool) (d : D) (v : V) (s : Screen)
    → let (t, fs) = gs_fade_init rr vm opened ltsp d v in
      (t ≡ no_fade → gs_fade_finalize fs s ≡ none)
      × (t ≢ no_fade → gs_fade_finalize fs s ≡ some (record s { info = none }))
unfolding gs_fade_init
gs_fade_finalize-faults rr vm opened ltsp d v s = (λ e. faults _ s e, λ e. ends _ s e)

-- ===== src/Fade/Restore.antt =====
-- src/gs-fade.c: a fade by GnomeRR leaves the gamma of the crtcs as it was.
use budgie_screensaver.Common.{
  ℕ, zero, suc, ◌≡◌, ◌⊎◌, inl, inr, refl, sym, ◌∙◌, ==_iff, true, false, some, List, [], ◌∷◌, ◌==◌,
  if◌then◌else◌, arith, length, Bool-cases,
}
use budgie_screensaver.Fade.Gamma.{
  GammaInfo, Floats, Randr, clamp, scaled, scaled_info, xrandr_crtc_whack_gamma, whack_all,
}

abbrev pub IsWellSized : GammaInfo → Type 0
IsWellSized i = (length i.r ≡ i.size) × (length i.g ≡ i.size) × (length i.b ≡ i.size)

-- The display's documented behaviour: a crtc has the gamma that was set last, setting it changes
-- nothing else that is read, arrays are as long as their size says, and times 1.0 changes nothing.
pub record IsLawful {D : Type 0} (rr : Randr D) (fl : Floats) : Type 0 where
  pub get-set :
      (c x : ℕ) (i : GammaInfo) (d : D)
      → IsWellSized i
      → rr.get_gamma (rr.set_gamma c i d) x ≡ (if c == x then some i else rr.get_gamma d x)
  pub get-refresh : (x : ℕ) (d : D) → rr.get_gamma (rr.refresh d) x ≡ rr.get_gamma d x
  pub crtcs-set : (c : ℕ) (i : GammaInfo) (d : D) → rr.crtcs (rr.set_gamma c i d) ≡ rr.crtcs d
  pub sized : (x : ℕ) (i : GammaInfo) (d : D) → rr.get_gamma d x ≡ some i → IsWellSized i
  pub scale-one : (v : ℕ) → fl.scale v fl.one ≡ v
  pub one-nought : fl.less fl.one fl.nought ≡ false
  pub one-one : fl.less fl.one fl.one ≡ false

scaled-sized :
    (fl : Floats) (ratio n : ℕ) (xs : List ℕ)
    → length xs ≡ n
    → (ys : List ℕ) × (scaled fl ratio n xs ≡ some ys) × (length ys ≡ n)
unfolding scaled
scaled-sized fl ratio zero [] h = ([], refl, refl)
scaled-sized fl ratio zero (x ∷ xs) h = absurd (omega arith)
scaled-sized fl ratio (suc n) [] h = absurd (omega arith)
scaled-sized fl ratio (suc n) (x ∷ xs) h =
    let (ys, e, l) = scaled-sized fl ratio n xs (omega arith) in
    (fl.scale x ratio ∷ ys, rw e refl, omega arith)

scaled-one :
    (fl : Floats) (ratio n : ℕ) (xs : List ℕ)
    → ((v : ℕ) → fl.scale v ratio ≡ v)
    → length xs ≡ n
    → scaled fl ratio n xs ≡ some xs
unfolding scaled
scaled-one fl ratio zero [] one h = refl
scaled-one fl ratio zero (x ∷ xs) one h = absurd (omega arith)
scaled-one fl ratio (suc n) [] one h = absurd (omega arith)
scaled-one fl ratio (suc n) (x ∷ xs) one h =
    rw (scaled-one fl ratio n xs one (omega arith), one x) refl

scaled_info-sized :
    (fl : Floats) (ratio : ℕ) (i : GammaInfo)
    → IsWellSized i
    → (j : GammaInfo) × (scaled_info fl ratio i ≡ some j) × IsWellSized j
scaled_info-sized fl ratio i (hr, hg, hb) =
    let (r, er, lr) = scaled-sized fl ratio i.size i.r hr in
    let (g, eg, lg) = scaled-sized fl ratio i.size i.g hg in
    let (b, eb, lb) = scaled-sized fl ratio i.size i.b hb in
    (record { size = i.size; r = r; g = g; b = b }, rw (er, eg, eb) refl, (lr, lg, lb))

pub scaled_info-one :
    (fl : Floats) (ratio : ℕ) (i : GammaInfo)
    → ((v : ℕ) → fl.scale v ratio ≡ v)
    → IsWellSized i
    → scaled_info fl ratio i ≡ some i
scaled_info-one fl ratio i one (hr, hg, hb) =
    rw
      (
        scaled-one fl ratio i.size i.r one hr,
        scaled-one fl ratio i.size i.g one hg,
        scaled-one fl ratio i.size i.b one hb,
      )
      refl

clamp-one : {D : Type 0} (rr : Randr D) (fl : Floats) → IsLawful rr fl → clamp fl fl.one ≡ fl.one
clamp-one rr fl laws = rw (laws.one-nought, laws.one-one) refl

-- Each crtc has its gamma in `info`, or a null entry, or one of no size.
abbrev pub Filled : {D : Type 0} → Randr D → D → (crtcs : List ℕ) → List GammaInfo → Type 0
Filled rr d [] is = Unit
Filled rr d (c ∷ cs) [] = ⊥
Filled rr d (c ∷ cs) (i ∷ is) =
    ((i.size ≡ 0) ⊎ ((rr.get_gamma d c ≡ some i) × IsWellSized i)) × Filled rr d cs is

abbrev pub Untouched : (crtcs : List ℕ) → List GammaInfo → (x : ℕ) → Type 0
Untouched [] is x = Unit
Untouched (c ∷ cs) [] x = Unit
Untouched (c ∷ cs) (i ∷ is) x = ((i.size ≡ 0) ⊎ ((c == x) ≡ false)) × Untouched cs is x

module _ {D : Type 0} (rr : Randr D) (fl : Floats) (laws : IsLawful rr fl) where
  -- A crtc's new gamma: the others and the list of crtcs are left alone.
  abbrev Whacked : (c : ℕ) → GammaInfo → (d d' : D) → Type 0
  Whacked c i d d' =
      (rr.crtcs d' ≡ rr.crtcs d)
      × ((x : ℕ) → (i.size ≡ 0) ⊎ ((c == x) ≡ false) → rr.get_gamma d' x ≡ rr.get_gamma d x)

  well_sized :
      (i : GammaInfo) → (i.size == 0) ≡ false → (i.size ≡ 0) ⊎ IsWellSized i → IsWellSized i
  well_sized i e (inl z) = absurd (ground (arith, e, z))
  well_sized i e (inr w) = w

  set-Whacked :
      (c : ℕ) (i j : GammaInfo) (d : D)
      → (i.size == 0) ≡ false
      → IsWellSized j
      → Whacked c i d (rr.set_gamma c j d)
  set-Whacked c i j d e w =
      (laws.crtcs-set c j d, λ x u. ground (arith, e, u, laws.get-set c x j d w))

  whack_lem :
      (c : ℕ) (i : GammaInfo) (ratio : ℕ) (d : D)
      → (i.size ≡ 0) ⊎ IsWellSized i
      → (d' : D) × (xrandr_crtc_whack_gamma rr fl c i ratio d ≡ some d') × Whacked c i d d'
  unfolding xrandr_crtc_whack_gamma
  whack_lem c i ratio d w = elim (Bool-cases (i.size == 0)) [
    | inl null ↦ (d, rw null refl, (refl, λ x u. refl))
    | inr e ↦
        let (j, ej, wj) = scaled_info-sized fl (clamp fl ratio) i (well_sized i e w) in
        let (crtcs, others) = set-Whacked c i j d e wj in
        (rr.set_gamma c j d, rw (e, ej) refl, (crtcs, others))
  ]

  whack-one :
      (c : ℕ) (i : GammaInfo) (d : D)
      → (i.size ≡ 0) ⊎ IsWellSized i
      → (d' : D) × (xrandr_crtc_whack_gamma rr fl c i fl.one d ≡ some d')
        × Whacked c i d d'
        × ((x : ℕ) → (i.size == 0) ≡ false → (c == x) ≡ true → rr.get_gamma d' x ≡ some i)
  unfolding xrandr_crtc_whack_gamma
  whack-one c i d w = elim (Bool-cases (i.size == 0)) [
    | inl null ↦ (d, rw null refl, (refl, λ x u. refl), λ x e h. cc)
    | inr e ↦
        let (crtcs, others) = set-Whacked c i i d e (well_sized i e w) in
        let same = scaled_info-one fl fl.one i laws.scale-one (well_sized i e w) in
        (
          rr.set_gamma c i d,
          rw (e, clamp-one rr fl laws, same) refl,
          (crtcs, others),
          λ x e hit. ground (arith, hit, laws.get-set c x i d (well_sized i e w)),
        )
  ]

  entry :
      (c : ℕ) (i : GammaInfo) (d : D)
      → (i.size ≡ 0) ⊎ ((rr.get_gamma d c ≡ some i) × IsWellSized i)
      → (i.size ≡ 0) ⊎ IsWellSized i
  entry c i d (inl z) = inl z
  entry c i d (inr (_, w)) = inr w

  -- Whatever the ratio, only the crtcs with an entry of some size are changed.
  pub whack_all_lem :
      (cs : List ℕ) (is : List GammaInfo) (ratio : ℕ) (d0 d : D)
      → Filled rr d0 cs is
      → (d' : D) × (whack_all rr fl cs is ratio d ≡ some d')
        × (rr.crtcs d' ≡ rr.crtcs d)
        × ((x : ℕ) → Untouched cs is x → rr.get_gamma d' x ≡ rr.get_gamma d x)
  unfolding whack_all
  whack_all_lem [] is ratio d0 d f = (d, refl, refl, λ x u. refl)
  whack_all_lem (c ∷ cs) [] ratio d0 d f = absurd f
  whack_all_lem (c ∷ cs) (i ∷ is) ratio d0 d f =
      let (d1, e1, (c1, o1)) = whack_lem c i ratio d (entry c i d0 f.0) in
      let (d2, e2, c2, o2) = whack_all_lem cs is ratio d0 d1 f.1 in
      (d2, rw e1 e2, c2 ∙ c1, λ x u. o2 x u.1 ∙ o1 x u.0)

  -- One crtc at the ratio 1.0: it has its first gamma, or was not touched.
  restored :
      (c : ℕ) (i : GammaInfo) (d0 d d1 : D) (x : ℕ)
      → (i.size ≡ 0) ⊎ ((rr.get_gamma d0 c ≡ some i) × IsWellSized i)
      → Whacked c i d d1
      → ((y : ℕ) → (i.size == 0) ≡ false → (c == y) ≡ true → rr.get_gamma d1 y ≡ some i)
      → ((i.size ≡ 0) ⊎ ((c == x) ≡ false) → rr.get_gamma d x ≡ rr.get_gamma d0 x)
      → rr.get_gamma d1 x ≡ rr.get_gamma d0 x
  restored c i d0 d d1 x (inl z) w t h = w.1 x (inl z) ∙ h (inl z)
  restored c i d0 d d1 x (inr (own, sized)) w t h = elim (Bool-cases (i.size == 0)) [
    | inl null ↦ let z = (==_iff i.size 0).0 null in w.1 x (inl z) ∙ h (inl z)
    | inr e ↦ elim (Bool-cases (c == x)) [
      | inl hit ↦ t x e hit ∙ sym (rw ((==_iff c x).0 hit) at own)
      | inr miss ↦ w.1 x (inr miss) ∙ h (inr miss)
    ]
  ]

  pub whack_all-one :
      (cs : List ℕ) (is : List GammaInfo) (d0 d : D)
      → Filled rr d0 cs is
      → (d' : D) × (whack_all rr fl cs is fl.one d ≡ some d')
        × ((x : ℕ)
            → (Untouched cs is x → rr.get_gamma d x ≡ rr.get_gamma d0 x)
            → rr.get_gamma d' x ≡ rr.get_gamma d0 x)
  unfolding whack_all
  whack_all-one [] is d0 d f = (d, refl, λ x h. h tt)
  whack_all-one (c ∷ cs) [] d0 d f = absurd f
  whack_all-one (c ∷ cs) (i ∷ is) d0 d f =
      let (d1, e1, w, t) = whack-one c i d (entry c i d0 f.0) in
      let (d2, e2, r2) = whack_all-one cs is d0 d1 f.1 in
      (d2, rw e1 e2, λ x h. r2 x (λ u. restored c i d0 d d1 x f.0 w t (λ k. h (k, u))))

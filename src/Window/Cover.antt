-- ===== src/Window/Cover.antt =====
-- src/gs-window-x11.c: the windows cover the monitors.
use budgie_screensaver.Common.{
  ℕ, zero, suc, ◌≤◌, ◌<◌, ◌≡◌, inl, inr, refl, sym, if-cases, ◌∙◌, Bool, true, false, not, ◌&&◌,
  ◌||◌, ◌==◌, arith, Bool-cases,
}
use budgie_screensaver.Window.Geometry.{
  Rectangle, inside, Cairo, get_outside_region, update_geometry, Place,
  gs_window_move_resize_window, gs_window_real_size_request,
}

-- Cairo's documented behaviour, by the pixels that a region has: regions are sets, and the extents
-- of a region hold all its pixels.
pub record IsLawful {R : Type 0} (cairo : Cairo R) (has : R → ℕ × ℕ → Bool) : Type 0 where
  pub has-create : (p : ℕ × ℕ) → has cairo.create p ≡ false
  pub has-create_rectangle :
      (q : Rectangle) (p : ℕ × ℕ) → has (cairo.create_rectangle q) p ≡ inside q p
  pub has-union_rectangle :
      (r : R) (q : Rectangle) (p : ℕ × ℕ)
      → has (cairo.union_rectangle r q) p ≡ (has r p || inside q p)
  pub has-subtract : (r s : R) (p : ℕ × ℕ) → has (cairo.subtract r s) p ≡ (has r p && not (has s p))
  pub inside-get_extents :
      (r : R) (p : ℕ × ℕ) → has r p ≡ true → inside (cairo.get_extents r) p ≡ true

and_off : (a b : Bool) → (a || b) ≡ true → b ≡ false → a ≡ true
and_off a b h off = ground (arith, h, off)

module _ {R : Type 0} {cairo : Cairo R} {has : R → ℕ × ℕ → Bool} (laws : IsLawful cairo has)
    (geometry : ℕ → Rectangle) where
  -- A pixel of an earlier monitor is on one of those.
  outside_of :
      (i : ℕ) (p : ℕ × ℕ)
      → has (get_outside_region cairo geometry i) p ≡ true
      → (j : ℕ) × (j < i) × (inside (geometry j) p ≡ true)
  unfolding get_outside_region
  outside_of zero p h = absurd (ground (arith, h, laws.has-create p))
  outside_of (suc i) p h = elim (Bool-cases (inside (geometry i) p)) [
    | inl on ↦ (i, omega arith, on)
    | inr off ↦
        let union = laws.has-union_rectangle (get_outside_region cairo geometry i) (geometry i) p in
        let earlier : has (get_outside_region cairo geometry i) p ≡ true =
          and_off _ _ (sym union ∙ h) off in
        let (j, lt, on) = outside_of i p earlier in (j, omega (arith, lt), on)
  ]

  covered :
      (n i : ℕ) (p : ℕ × ℕ)
      → i < n
      → inside (geometry i) p ≡ true
      → (j : ℕ) × (j ≤ i) × (inside (update_geometry cairo geometry j) p ≡ true)
  unfolding update_geometry
  covered zero i p lt on = absurd (omega (arith, lt))
  covered (suc n) i p lt on = elim (Bool-cases (has (get_outside_region cairo geometry i) p)) [
    | inl earlier ↦
        let (k, below, on_k) = outside_of i p earlier in
        let (j, le, own) = covered n k p (omega (arith, lt, below)) on_k in
        (j, omega (arith, le, below), own)
    | inr first ↦
        let own : has (cairo.create_rectangle (geometry i)) p ≡ true =
          laws.has-create_rectangle (geometry i) p ∙ on in
        (
          i,
          omega arith,
          laws.inside-get_extents _ p (laws.has-subtract _ _ p ∙ rw (own, first) refl),
        )
  ]

-- Every pixel of every monitor is covered by the window of that monitor, or by that of one before
-- it: the windows of all monitors leave nothing of the desktop in sight, however the monitors
-- overlap.
pub update_geometry-covers :
    {R : Type 0} (cairo : Cairo R) (has : R → ℕ × ℕ → Bool) (geometry : ℕ → Rectangle) (i : ℕ)
    (p : ℕ × ℕ)
    → IsLawful cairo has
    → inside (geometry i) p ≡ true
    → (j : ℕ) × (j ≤ i) × (inside (update_geometry cairo geometry j) p ≡ true)
update_geometry-covers cairo has geometry i p laws on =
    covered laws geometry (suc i) i p (omega arith) on

-- The X window is where the window was last placed.
abbrev pub IsPlaced : Place → Type 0
IsPlaced w = w.gdk_window ≡ w.geometry

move_resize_lem :
    (primary : Bool) (w : Place) (old : Rectangle)
    → w.gdk_window ≡ old
    → let w' =
        gs_window_move_resize_window primary
          (not (old.x == w.geometry.x) || not (old.y == w.geometry.y))
          (not (old.width == w.geometry.width) || not (old.height == w.geometry.height))
          w in
      (w'.gdk_window ≡ w'.geometry) × (w'.geometry ≡ w.geometry) × (w'.panel_visible ≡ primary)
unfolding gs_window_move_resize_window
move_resize_lem primary w old e = ground (arith, e)

-- A size request of a realized window whose X window is in its place brings it to the place that
-- the monitors now give it, by a move, a resizing, both or neither, and shows the panel exactly on
-- the primary monitor. One that is not realized only notes its place.
pub size_request-IsPlaced :
    {R : Type 0} (cairo : Cairo R) (geometry : ℕ → Rectangle) (primary : Bool) (w : Place)
    → IsPlaced w
    → let w' = (gs_window_real_size_request cairo geometry primary w).0 in
      (w'.geometry ≡ update_geometry cairo geometry w.monitor)
      × (w.realized ≡ true → IsPlaced w' × (w'.panel_visible ≡ primary))
      × (w.realized ≡ false → (w'.gdk_window ≡ w.gdk_window) × (w'.panel_visible ≡ w.panel_visible))
unfolding gs_window_real_size_request
size_request-IsPlaced cairo geometry primary w e =
    let new = update_geometry cairo geometry w.monitor in
    let (placed, kept, panel) =
      move_resize_lem primary (record w { geometry = new }) w.geometry e in
    if-cases {A = Place × (ℕ × ℕ)}
      (λ r.
        (r.0.geometry ≡ new)
        × (w.realized ≡ true → IsPlaced r.0 × (r.0.panel_visible ≡ primary))
        × (w.realized ≡ false
            → (r.0.gdk_window ≡ w.gdk_window) × (r.0.panel_visible ≡ w.panel_visible)))
      (not w.realized) _ _
      (λ off. (refl, λ on. absurd (ground (arith, off, on)), λ n. (refl, refl)))
      (λ on. (kept, λ n. (placed, panel), λ off. absurd (ground (arith, off, on))))

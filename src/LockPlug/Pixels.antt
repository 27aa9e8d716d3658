-- ===== src/LockPlug/Pixels.antt =====
-- src/gs-lock-plug.c: go_cairo_convert_data_to_pixbuf, on a little endian machine.
use native.Mathlib.Nat.{div-le_of_le-mul, mul-le-mul_right, mod-eq_of_lt}
use budgie_screensaver.Common.{ℕ, ◌*◌, ◌/◌, ◌%◌, ◌≤◌, ◌<◌, ◌≡◌, refl, ◌==◌, if◌then◌else◌, arith}

-- Four bytes.
pub record Pixel : Type 0 where
  pub b0 : ℕ
  pub b1 : ℕ
  pub b2 : ℕ
  pub b3 : ℕ

-- MULT, which stores the quotient in a byte.
unfoldable pub mult : (c a : ℕ) → ℕ
mult c a = if a == 0 then 0 else (c * 255 / a) % 256

-- From src to dst.
unfoldable pub convert : Pixel → Pixel
unfolding mult
convert p = record { b0 = mult p.b2 p.b3; b1 = mult p.b1 p.b3; b2 = mult p.b0 p.b3; b3 = p.b3 }

-- In place, with the three temporaries.
unfoldable pub convert_in_place : Pixel → Pixel
unfolding mult
convert_in_place p =
    let a = mult p.b2 p.b3 in
    let b = mult p.b1 p.b3 in
    let c = mult p.b0 p.b3 in
    let p = record p { b0 = a } in let p = record p { b1 = b } in record p { b2 = c }

-- As cairo stores it: no colour is above the alpha.
abbrev pub IsPremultiplied : Pixel → Type 0
IsPremultiplied p = (p.b0 ≤ p.b3) × (p.b1 ≤ p.b3) × (p.b2 ≤ p.b3) × (p.b3 ≤ 255)

mult-quotient : (c a : ℕ) → c ≤ a → 0 < a → mult c a ≡ c * 255 / a
unfolding mult
mult-quotient c a le pos =
    let fits : c * 255 / a ≤ 255 = div-le_of_le-mul a (mul-le-mul_right 255 le) in
    let whole : (c * 255 / a) % 256 ≡ c * 255 / a = mod-eq_of_lt (omega (arith, fits)) in
    ground (arith, pos, whole)

-- A pixel of cairo is converted without a wrap: each byte is the quotient itself, which fits; red and
-- blue change places; the conversion in place gives the same bytes.
pub convert_lem :
    (p : Pixel)
    → IsPremultiplied p
    → 0 < p.b3
    → ((convert p).b0 ≡ p.b2 * 255 / p.b3)
      × ((convert p).b1 ≡ p.b1 * 255 / p.b3)
      × ((convert p).b2 ≡ p.b0 * 255 / p.b3)
      × ((convert p).b3 ≡ p.b3)
      × (convert_in_place p ≡ convert p)
unfolding convert convert_in_place
convert_lem p (b0, b1, b2, b3) pos = (
  mult-quotient p.b2 p.b3 b2 pos,
  mult-quotient p.b1 p.b3 b1 pos,
  mult-quotient p.b0 p.b3 b0 pos,
  refl,
  refl,
)

-- ===== src/Auth/Utf8.antt =====
-- src/gs-auth-pam.c: the text of a message, made valid UTF-8. Texts are lists of bytes, without
-- the closing 0.
use mathlib.Core.List.{append_assoc}
use budgie_screensaver.Common.{
  sym, ℕ, zero, suc, ◌≡◌, ◌⊎◌, refl, Option, none, some, List, [], ◌∷◌, ◌++◌, length, arith,
  Option-cases, inl, inr, ◌≤◌,
}

-- g_locale_to_utf8 and g_locale_from_utf8, `none` for NULL, and g_utf8_validate, `none` for a valid text and otherwise
-- the offset of the first byte that is not.
pub record Glib : Type 0 where
  pub g_locale_to_utf8 : List ℕ → Option (List ℕ)
  pub g_locale_from_utf8 : List ℕ → Option (List ℕ)
  pub g_utf8_validate : List ℕ → Option ℕ

-- The text with '?' at an offset, up to it and from the byte after it.
unfoldable pub put_mark : (offset : ℕ) → List ℕ → List ℕ × List ℕ
put_mark n [] = ([], [])
put_mark zero (x ∷ xs) = (b'?' ∷ [], xs)
put_mark (suc n) (x ∷ xs) = let (front, rest) = put_mark n xs in (x ∷ front, rest)

-- The loop over `p`, with the length of the text as fuel.
unfoldable pub mark_invalid : (fuel : ℕ) → Glib → List ℕ → List ℕ
unfolding put_mark
mark_invalid n glib [] = []
mark_invalid zero glib (x ∷ xs) = x ∷ xs
mark_invalid (suc n) glib (x ∷ xs) = elim (glib.g_utf8_validate (x ∷ xs)) [
  | none ↦ x ∷ xs
  | some q ↦ let (front, rest) = put_mark q (x ∷ xs) in front ++ mark_invalid n glib rest
]

unfoldable pub to_utf8 : Glib → List ℕ → List ℕ
unfolding mark_invalid
to_utf8 glib msg = elim (glib.g_locale_to_utf8 msg) [
  | none ↦ mark_invalid (length msg) glib msg
  | some text ↦ text
]

-- `y` is what became of `x`.
abbrev pub Marked : (text marked : List ℕ) → Type 0
Marked [] [] = Unit
Marked [] (y ∷ ys) = ⊥
Marked (x ∷ xs) [] = ⊥
Marked (x ∷ xs) (y ∷ ys) = ((y ≡ x) ⊎ (y ≡ b'?')) × Marked xs ys

Marked-refl : (xs : List ℕ) → Marked xs xs
Marked-refl [] = tt
Marked-refl (x ∷ xs) = (inl refl, Marked-refl xs)

put_mark-length : (q x : ℕ) (xs : List ℕ) → length (put_mark q (x ∷ xs)).1 ≤ length xs
unfolding put_mark
put_mark-length zero x xs = omega arith
put_mark-length (suc q) x [] = omega arith
put_mark-length (suc q) x (y ∷ ys) = omega (arith, put_mark-length q y ys)

put_mark-Marked :
    (q : ℕ) (xs ys : List ℕ) → Marked (put_mark q xs).1 ys → Marked xs ((put_mark q xs).0 ++ ys)
unfolding put_mark
put_mark-Marked q [] ys h = h
put_mark-Marked zero (x ∷ xs) ys h = (inr refl, h)
put_mark-Marked (suc q) (x ∷ xs) ys h = (inl refl, put_mark-Marked q xs ys h)

mark_invalid-Marked : (n : ℕ) (glib : Glib) (xs : List ℕ) → Marked xs (mark_invalid n glib xs)
unfolding mark_invalid
mark_invalid-Marked n glib [] = tt
mark_invalid-Marked zero glib (x ∷ xs) = Marked-refl (x ∷ xs)
mark_invalid-Marked (suc n) glib (x ∷ xs) = elim (Option-cases (glib.g_utf8_validate (x ∷ xs))) [
  | inl e ↦ rw (e, mark_invalid) (Marked-refl (x ∷ xs))
  | inr (q, e) ↦
      rw (e, mark_invalid)
        (put_mark-Marked q (x ∷ xs) _ (mark_invalid-Marked n glib (put_mark q (x ∷ xs)).1))
]

-- A text that the loop has gone through: what is left from some offset on is valid, or empty.
abbrev pub EndsValid : Glib → List ℕ → Type 0
EndsValid glib text =
    (front : List ℕ) × (rest : List ℕ) × (text ≡ front ++ rest)
    × ((rest ≡ []) ⊎ (glib.g_utf8_validate rest ≡ none))

EndsValid-append :
    (glib : Glib) (front text : List ℕ) → EndsValid glib text → EndsValid glib (front ++ text)
EndsValid-append glib front text (f, rest, e, h) =
    (front ++ f, rest, rw e (sym (append_assoc front f rest)), h)

mark_invalid-EndsValid :
    (n : ℕ) (glib : Glib) (xs : List ℕ) → length xs ≤ n → EndsValid glib (mark_invalid n glib xs)
unfolding mark_invalid
mark_invalid-EndsValid n glib [] le = ([], [], refl, inl refl)
mark_invalid-EndsValid zero glib (x ∷ xs) le = absurd (omega arith)
mark_invalid-EndsValid (suc n) glib (x ∷ xs) le =
    elim (Option-cases (glib.g_utf8_validate (x ∷ xs))) [
      | inl e ↦ rw (e, mark_invalid) ([], x ∷ xs, refl, inr e)
      | inr (q, e) ↦
          rw (e, mark_invalid)
            (let (front, rest) = put_mark q (x ∷ xs) in
              EndsValid-append glib front (mark_invalid n glib rest)
                (mark_invalid-EndsValid n glib rest (omega (arith, put_mark-length q x xs))))
    ]

-- A message whose text cannot be converted keeps its length; each byte is kept or is a '?'; and
-- the loop comes to its end: from some offset on, the text is valid, or the offset is its end.
pub to_utf8_lem :
    (glib : Glib) (msg : List ℕ)
    → glib.g_locale_to_utf8 msg ≡ none
    → Marked msg (to_utf8 glib msg) × EndsValid glib (to_utf8 glib msg)
unfolding to_utf8
to_utf8_lem glib msg e =
    rw (e, to_utf8)
      (
        mark_invalid-Marked (length msg) glib msg,
        mark_invalid-EndsValid (length msg) glib msg (omega arith),
      )

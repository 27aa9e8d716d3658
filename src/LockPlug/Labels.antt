-- ===== src/LockPlug/Labels.antt =====
-- src/gs-lock-plug.c: no two input sources have the same label.
use text.Mathlib.Text.{◌==◌ as str_eq}
use budgie_screensaver.Common.{
  ℕ, suc, ◌≤◌, ◌<◌, ◌≡◌, ◌≢◌, refl, sym, ap, ◌∙◌, Bool, true, false, Option, none, some, String,
  List, [], ◌∷◌, ◌++◌, All, arith, inl, inr, eq_iff, if-cases, ◌⊎◌,
}
use budgie_screensaver.LockPlug.InputSources.{
  InputSource, Indicator, mark_at, mark, new_source, add_source, add_sources,
  gs_lock_plug_init_input_sources, label,
}

-- Two sources of one name are both not unique, and the later has the greater subscript.
abbrev Before : InputSource → InputSource → Type 0
Before s t = s.name ≡ t.name → (s.unique ≡ false) × (t.unique ≡ false) × (s.subscript < t.subscript)

abbrev Ordered : List InputSource → Type 0
Ordered [] = Unit
Ordered (s ∷ ss) = All (Before s) ss × Ordered ss

All-weaken :
    {P Q : InputSource → Type 0} (ss : List InputSource)
    → ((s : InputSource) → P s → Q s)
    → All P ss
    → All Q ss
All-weaken [] f a = tt
All-weaken (s ∷ ss) f a = (f s a.0, All-weaken ss f a.1)

-- A property that a source keeps when it is marked.
abbrev Keeps : (InputSource → Type 0) → Type 0
Keeps P = (s : InputSource) → P s → P (record s { unique = false })

module _ (P : InputSource → Type 0) (keep : Keeps P) (name : String) where
  mark_at-All :
      (s : InputSource) (ss : List InputSource) (found : Option ℕ)
      → P s
      → All P ss
      → All P (mark_at name s ss found).0
  mark_at-All s ss (some n) p a = (p, a)
  mark_at-All s ss none p a =
      if-cases {A = List InputSource × Option ℕ} (λ r. All P r.0) (str_eq s.name name) _ _
        (λ e. (keep s p, a)) (λ e. (p, a))

  mark-All : (ss : List InputSource) → All P ss → All P (mark name ss).0
  unfolding mark
  mark-All [] a = tt
  mark-All (s ∷ ss) a = mark_at-All s (mark name ss).0 (mark name ss).1 a.0 (mark-All ss a.1)

-- The subscript that was found is that of a source of this name.
abbrev Found : (name : String) → ℕ → List InputSource → Type 0
Found name n [] = ⊥
Found name n (s ∷ ss) = ((s.name ≡ name) × (s.subscript ≡ n)) ⊎ Found name n ss

-- What is known of the sources when all of them were looked at: with none of this name, or with a
-- greatest subscript, all of this name not being unique.
abbrev Marked : (name : String) → List InputSource → Option ℕ → Type 0
Marked name ss none = All (λ s. s.name ≢ name) ss
Marked name ss (some n) =
    All (λ s. s.name ≡ name → (s.unique ≡ false) × (s.subscript ≤ n)) ss × Found name n ss

Found-Before :
    (name : String) (n : ℕ) (s : InputSource) (ss : List InputSource)
    → All (Before s) ss
    → Found name n ss
    → s.name ≡ name
    → (s.unique ≡ false) × (s.subscript < n)
Found-Before name n s [] a f e = absurd f
Found-Before name n s (t ∷ ss) a (inl (own, is)) e =
    let (off, _, lt) = a.0 (e ∙ sym own) in (off, rw (← is) lt)
Found-Before name n s (t ∷ ss) a (inr f) e = Found-Before name n s ss a.1 f e

mark_at-Marked :
    (name : String) (s : InputSource) (ss : List InputSource) (found : Option ℕ)
    → All (Before s) ss
    → Ordered ss
    → Marked name ss found
    → let (ss', found') = mark_at name s ss found in Ordered ss' × Marked name ss' found'
mark_at-Marked name s ss (some n) b o m = (
  (b, o),
  (
    (λ e. let (off, lt) = Found-Before name n s ss b m.1 e in (off, omega (arith, lt)), m.0),
    inr m.1,
  ),
)
mark_at-Marked name s ss none b o m =
    if-cases {A = List InputSource × Option ℕ} (λ r. Ordered r.0 × Marked name r.0 r.1)
      (str_eq s.name name) _ _
      (λ e.
        let own : s.name ≡ name = (eq_iff s.name name).0 e in
        (
          (All-weaken ss (λ t h same. let (_, off, lt) = h same in (refl, off, lt)) b, o),
          (
            ((λ n. (refl, omega arith)), All-weaken ss (λ t no n. absurd (no n)) m),
            inl (own, refl),
          ),
        ))
      (λ e. ((b, o), ((λ n. cc ((eq_iff s.name name).1 n)), m)))

mark-Marked :
    (name : String) (ss : List InputSource)
    → Ordered ss
    → Ordered (mark name ss).0 × Marked name (mark name ss).0 (mark name ss).1
unfolding mark
mark-Marked name [] o = (tt, tt)
mark-Marked name (s ∷ ss) o =
    let (o', m) = mark-Marked name ss o.1 in
    mark_at-Marked name s (mark name ss).0 (mark name ss).1
      (mark-All (Before s) (λ t b e. let (off, _, lt) = b e in (off, refl, lt)) name ss o.0) o' m

All-append :
    (P : InputSource → Type 0) (ss : List InputSource) (s : InputSource)
    → All P ss
    → P s
    → All P (ss ++ s ∷ [])
All-append P [] s a p = (p, tt)
All-append P (t ∷ ss) s a p = (a.0, All-append P ss s a.1 p)

Ordered-append :
    (ss : List InputSource) (s : InputSource)
    → Ordered ss
    → All (λ t. Before t s) ss
    → Ordered (ss ++ s ∷ [])
Ordered-append [] s o a = (tt, tt)
Ordered-append (t ∷ ss) s o a = (All-append (Before t) ss s o.0 a.0, Ordered-append ss s o.1 a.1)

new-Before :
    (name : String) (index : ℕ) (ss : List InputSource) (found : Option ℕ)
    → Marked name ss found
    → All (λ t. Before t (new_source name index found)) ss
new-Before name index ss none m = All-weaken ss (λ t no e. absurd (no e)) m
new-Before name index ss (some n) m =
    All-weaken ss (λ t h e. let (off, le) = h e in (off, refl, omega arith)) m.0

add_sources-Ordered :
    (current index : ℕ) (sources : List (Bool × String)) (p : Indicator)
    → Ordered p.input_sources
    → Ordered (add_sources current index sources p).input_sources
unfolding add_sources add_source
add_sources-Ordered current index [] p o = o
add_sources-Ordered current index ((false, name) ∷ sources) p o =
    add_sources-Ordered current (suc index) sources p o
add_sources-Ordered current index ((true, name) ∷ sources) p o =
    let (o', m) = mark-Marked name p.input_sources o in
    let found = (mark name p.input_sources).1 in
    add_sources-Ordered current (suc index) sources (add_source current index name p)
      (Ordered-append _ (new_source name index found) o' (new-Before name index _ found m))

abbrev pub Differ : InputSource → InputSource → Type 0
Differ s t = label s ≢ label t

abbrev pub Distinct : List InputSource → Type 0
Distinct [] = Unit
Distinct (s ∷ ss) = All (Differ s) ss × Distinct ss

Ordered-Distinct : (ss : List InputSource) → Ordered ss → Distinct ss
Ordered-Distinct [] o = tt
Ordered-Distinct (s ∷ ss) o = (
  All-weaken ss
      (λ t b e.
        let (off, off', lt) = b (ap (λ l. l.0) e) in ground (arith, off, off', lt, ap (λ l. l.1) e))
      o.0,
  Ordered-Distinct ss o.1,
)

-- However many sources have the same short name, and in whatever order, no two of them have the
-- same label.
pub gs_lock_plug_init_input_sources-Distinct :
    (current : ℕ) (sources : List (Bool × String))
    → Distinct (gs_lock_plug_init_input_sources current sources).input_sources
unfolding gs_lock_plug_init_input_sources
gs_lock_plug_init_input_sources-Distinct current sources =
    Ordered-Distinct _ (add_sources-Ordered current 0 sources _ tt)

-- ===== src/LockPlug/InputSources.antt =====
-- src/gs-lock-plug.c: the indicator of the keyboard's input sources.
--
-- There are fewer than 2 ^ 32 sources. A name is what gnome_xkb_info_get_layout_info says of it.
use text.Mathlib.Text.{◌==◌ as str_eq}
use budgie_screensaver.Common.{
  ℕ, zero, suc, ◌%◌, Bool, true, false, Option, none, some, String, List, [], ◌∷◌, ◌++◌, ◌==◌,
  if◌then◌else◌, length, ◌>>=◌,
}

pub record InputSource : Type 0 where
  pub name : String
  pub unique : Bool
  pub subscript : ℕ
  pub index : ℕ

pub record Indicator : Type 0 where
  pub input_sources : List InputSource
  pub input_source : ℕ

-- A source of the array, with the later ones and what was found among them: the subscript of the
-- last one of this name, which is not unique then.
abbrev pub mark_at :
    (name : String) → InputSource → List InputSource → Option ℕ → List InputSource × Option ℕ
mark_at name s ss (some n) = (s ∷ ss, some n)
mark_at name s ss none =
    if str_eq s.name name
    then (record s { unique = false } ∷ ss, some s.subscript)
    else (s ∷ ss, none)

-- The loop from the end of the array.
unfoldable pub mark : (name : String) → List InputSource → List InputSource × Option ℕ
mark name [] = ([], none)
mark name (s ∷ ss) = let (ss, found) = mark name ss in mark_at name s ss found

abbrev pub new_source : (name : String) (index : ℕ) → Option ℕ → InputSource
new_source name index none = record { name = name; unique = true; subscript = 1; index = index }
new_source name index (some n) = record {
  name = name;
  unique = false;
  subscript = suc n;
  index = index;
}

unfoldable pub add_source : (current index : ℕ) (name : String) → Indicator → Indicator
unfolding mark
add_source current index name p =
    let (ss, found) = mark name p.input_sources in
    record {
      input_sources = ss ++ new_source name index found ∷ [];
      input_source = if index == current then length ss else p.input_source;
    }

-- A source is of the type "xkb" or not.
unfoldable pub add_sources : (current index : ℕ) → List (Bool × String) → Indicator → Indicator
unfolding add_source
add_sources current index [] p = p
add_sources current index ((xkb, name) ∷ sources) p =
    add_sources current (suc index) sources (if xkb then add_source current index name p else p)

unfoldable pub gs_lock_plug_init_input_sources : (current : ℕ) → List (Bool × String) → Indicator
unfolding add_sources
gs_lock_plug_init_input_sources current sources =
    add_sources current 0 sources (record { input_sources = []; input_source = 0 })

-- The label of a source: its name, and its subscript unless it is unique.
abbrev pub label : InputSource → String × Option ℕ
label s = (s.name, if s.unique then none else some s.subscript)

-- What the label is set to, if it is.
unfoldable pub current_changed : (current : ℕ) → List InputSource → Option (String × Option ℕ)
current_changed current [] = none
current_changed current (s ∷ ss) =
    if s.index == current then some (label s) else current_changed current ss

abbrev pub get_elem? : List InputSource → ℕ → Option InputSource
get_elem? [] i = none
get_elem? (s ∷ ss) zero = some s
get_elem? (s ∷ ss) (suc i) = get_elem? ss i

-- With the setting's new value; `none` is a division by zero, where there is no source.
unfoldable pub layout_indicator_clicked : Indicator → Option (Indicator × ℕ)
layout_indicator_clicked p =
    if length p.input_sources == 0
    then none
    else let i = suc p.input_source % length p.input_sources in
      get_elem? p.input_sources i >>= λ s. some (record p { input_source = i }, s.index)

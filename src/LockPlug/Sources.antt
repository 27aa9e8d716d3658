-- ===== src/LockPlug/Sources.antt =====
-- The sources of the GLib main loop that src/gs-lock-plug.c adds and removes.
use budgie_screensaver.Common.{ℕ, suc, Bool, false, ◌||◌, List, [], ◌∷◌, ◌==◌, if◌then◌else◌}

abbrev pub mem : ℕ → List ℕ → Bool
mem id [] = false
mem id (x ∷ xs) = id == x || mem id xs

abbrev pub without : ℕ → List ℕ → List ℕ
without id [] = []
without id (x ∷ xs) = let rest = without id xs in if id == x then rest else x ∷ rest

-- The last id given out, the sources that are attached, and how often g_source_remove was called
-- for a source that is not.
pub record MainLoop : Type 0 where
  pub last_id : ℕ
  pub attached : List ℕ
  pub not_found : ℕ

-- g_timeout_add: a new id, which is not 0.
unfoldable pub add_source : MainLoop → MainLoop × ℕ
add_source m = let id = suc m.last_id in (record m { last_id = id; attached = id ∷ m.attached }, id)

-- g_source_remove
unfoldable pub remove_source : (id : ℕ) → MainLoop → MainLoop
remove_source id m =
    if mem id m.attached
    then record m { attached = without id m.attached }
    else record m { not_found = suc m.not_found }

-- A callback that returns FALSE: its source is gone.
unfoldable pub finish_source : (id : ℕ) → MainLoop → MainLoop
finish_source id m = record m { attached = without id m.attached }

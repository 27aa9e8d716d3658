-- ===== src/LockPlug/Tests.antt =====
-- src/gs-lock-plug.c: the theorems at a new plug.
use budgie_screensaver.LockPlug.InputSources.{
  gs_lock_plug_init_input_sources, current_changed, layout_indicator_clicked,
}
use budgie_screensaver.LockPlug.Labels.{Distinct, gs_lock_plug_init_input_sources-Distinct}
use budgie_screensaver.Common.{String, Bool, true, List, ◌>>=◌}
use budgie_screensaver.Common.{suc, ◌≡◌, refl, false, some, List, [], ◌∷◌}
use budgie_screensaver.LockPlug.{Plug, ok, cancel, gs_lock_plug_init, gs_lock_plug_enable_prompt}
use budgie_screensaver.LockPlug.Run.{
  PlugEvent, key, unlock_clicked, cancel_timeout, response_idle, handle, gs_lock_plug_run,
}
use budgie_screensaver.LockPlug.Prompt.{unattended-cancel}
use budgie_screensaver.LockPlug.Keys.{press_all, enable_prompt-press_all}
use budgie_screensaver.LockPlug.Pixels.{Pixel}

abbrev new_plug : Plug
new_plug = gs_lock_plug_init (record { last_id = 0; attached = []; not_found = 0 })

-- The letter a, and Return.
abbrev typing : List PlugEvent
typing = key (97 ∷ []) (97 ∷ []) ∷ unlock_clicked ∷ []

typing-ok : (gs_lock_plug_run typing new_plug).1 ≡ some ok
unfolding gs_lock_plug_run handle
typing-ok = refl

unattended-cancel_example :
    let q = (gs_lock_plug_enable_prompt false new_plug).0 in
    let (q', info) = gs_lock_plug_run (cancel_timeout ∷ response_idle ∷ []) q in
    (info ≡ some cancel)
    × (q'.entry_text ≡ [])
    × (q'.entry_sensitive ≡ false)
    × (q'.main_loop.not_found ≡ suc q.main_loop.not_found)
unattended-cancel_example = unattended-cancel false new_plug [] refl

abbrev asleep : Plug
asleep = record new_plug { entry_sensitive = false }

enable_prompt-press_all_example :
    let (q, forwarded) =
      gs_lock_plug_enable_prompt false (press_all ((97 ∷ []) ∷ [] ∷ (98 ∷ []) ∷ []) asleep) in
    (forwarded ≡ (97 ∷ []) ∷ (98 ∷ []) ∷ []) × (q.key_events ≡ [])
enable_prompt-press_all_example =
    enable_prompt-press_all ((97 ∷ []) ∷ [] ∷ (98 ∷ []) ∷ []) false asleep refl refl

-- Half of red over half of nothing.
abbrev half : Pixel
half = record { b0 = 0; b1 = 0; b2 = 127; b3 = 128 }

-- Two variants of one layout, an input method, and another layout.
abbrev layouts : List (Bool × String)
layouts = (true, "en") ∷ (false, "pinyin") ∷ (true, "de") ∷ (true, "en") ∷ []

gs_lock_plug_init_input_sources-Distinct_example :
    Distinct (gs_lock_plug_init_input_sources 3 layouts).input_sources
gs_lock_plug_init_input_sources-Distinct_example =
    gs_lock_plug_init_input_sources-Distinct 3 layouts

layouts-label :
    current_changed 3 (gs_lock_plug_init_input_sources 3 layouts).input_sources
    ≡ some ("en", some 2)
unfolding gs_lock_plug_init_input_sources current_changed
layouts-label = refl

-- From the last source a click goes on to the first.
layouts-clicked :
    (layout_indicator_clicked (gs_lock_plug_init_input_sources 3 layouts) >>= λ r. some r.1)
    ≡ some 0
unfolding gs_lock_plug_init_input_sources layout_indicator_clicked
layouts-clicked = refl

-- ===== src/LockPlug/Prompt.antt =====
-- src/gs-lock-plug.c: how a prompt ends, and the timeouts of it.
use budgie_screensaver.Common.{
  ap, ◌≤◌, ℕ, suc, ◌<◌, ◌≡◌, ◌⊎◌, refl, ◌∙◌, Bool, true, false, none, some, List, [], ◌∷◌, arith,
  inl, inr, Bool-cases, Option-cases, ==_refl, ◌==◌,
}
use budgie_screensaver.LockPlug.{
  Plug, Response, ok, cancel, other_response, gs_lock_plug_enable_prompt, gs_lock_plug_response,
  remove_cancel_timeout, remove_response_idle, restart_cancel_timeout, dialog_timed_out,
  response_cancel_idle_cb, add_response_idle, forward_key_events, gs_lock_plug_set_sensitive,
  unlock_button_clicked, delete_handler,
}
use budgie_screensaver.LockPlug.Run.{
  PlugEvent, RunInfo, key, unlock_clicked, switch_clicked, deleted, unmapped, cancel_timeout,
  response_idle, state_changed, handle, gs_lock_plug_run,
}
use budgie_screensaver.LockPlug.Sources.{mem, without, add_source, remove_source, finish_source}

mem-without : (id : ℕ) (xs : List ℕ) → mem id (without id xs) ≡ false
mem-without id [] = refl
mem-without id (x ∷ xs) = elim (Bool-cases (id == x)) [
  | inl e ↦ ground (arith, e, mem-without id xs)
  | inr e ↦ ground (arith, e, mem-without id xs)
]

-- The plug as a response leaves it.
abbrev pub IsAnswered : Response → Plug → Type 0
IsAnswered ok p = (p.cancel_timeout_id ≡ 0) × (p.response_idle_id ≡ 0)
IsAnswered cancel p = (p.cancel_timeout_id ≡ 0) × (p.response_idle_id ≡ 0) × (p.entry_text ≡ [])
IsAnswered (other_response n) p = ⊥

response-IsAnswered :
    (r e : Response) (p : Plug)
    → (gs_lock_plug_response r p).1 ≡ some e
    → IsAnswered e (gs_lock_plug_response r p).0
unfolding gs_lock_plug_response remove_cancel_timeout remove_response_idle
response-IsAnswered ok ok p h = (ground arith, ground arith)
response-IsAnswered cancel cancel p h = (ground arith, ground arith, refl)
response-IsAnswered ok cancel p h = absurd (ground (arith, h))
response-IsAnswered ok (other_response n) p h = absurd (ground (arith, h))
response-IsAnswered cancel ok p h = absurd (ground (arith, h))
response-IsAnswered cancel (other_response n) p h = absurd (ground (arith, h))
response-IsAnswered (other_response n) e p h = absurd (ground (arith, h))

handle-IsAnswered :
    (e : PlugEvent) (r : Response) (p : Plug)
    → (handle e p).1 ≡ some (some r)
    → IsAnswered r (handle e p).0
unfolding handle unlock_button_clicked delete_handler gs_lock_plug_response remove_cancel_timeout
    remove_response_idle response_cancel_idle_cb
handle-IsAnswered (key string text) ok p h = absurd (ground (arith, h))
handle-IsAnswered (key string text) cancel p h = absurd (ground (arith, h))
handle-IsAnswered (key string text) (other_response n) p h = absurd (ground (arith, h))
handle-IsAnswered unlock_clicked ok p h = (ground (arith, h), ground (arith, h))
handle-IsAnswered unlock_clicked cancel p h = absurd (ground (arith, h))
handle-IsAnswered unlock_clicked (other_response n) p h = absurd (ground (arith, h))
handle-IsAnswered switch_clicked ok p h = absurd (ground (arith, h))
handle-IsAnswered switch_clicked cancel p h = absurd (ground (arith, h))
handle-IsAnswered switch_clicked (other_response n) p h = absurd (ground (arith, h))
handle-IsAnswered deleted ok p h = absurd (ground (arith, h))
handle-IsAnswered deleted cancel p h = (ground (arith, h), ground (arith, h), ground (arith, h))
handle-IsAnswered deleted (other_response n) p h = absurd (ground (arith, h))
handle-IsAnswered unmapped ok p h = absurd (ground (arith, h))
handle-IsAnswered unmapped cancel p h = absurd (ground (arith, h))
handle-IsAnswered unmapped (other_response n) p h = absurd (ground (arith, h))
handle-IsAnswered cancel_timeout ok p h = absurd (ground (arith, h))
handle-IsAnswered cancel_timeout cancel p h = absurd (ground (arith, h))
handle-IsAnswered cancel_timeout (other_response n) p h = absurd (ground (arith, h))
handle-IsAnswered response_idle ok p h = absurd (ground (arith, h))
handle-IsAnswered response_idle cancel p h =
    (ground (arith, h), ground (arith, h), ground (arith, h))
handle-IsAnswered response_idle (other_response n) p h = absurd (ground (arith, h))
handle-IsAnswered (state_changed caps) ok p h = absurd (ground (arith, h))
handle-IsAnswered (state_changed caps) cancel p h = absurd (ground (arith, h))
handle-IsAnswered (state_changed caps) (other_response n) p h = absurd (ground (arith, h))

answered :
    (r : Response) (p : Plug)
    → IsAnswered r p
    → ((r ≡ ok) ⊎ (r ≡ cancel))
      × (p.cancel_timeout_id ≡ 0)
      × (p.response_idle_id ≡ 0)
      × (r ≡ cancel → p.entry_text ≡ [])
answered ok p (a, b) = (inl refl, a, b, λ e. absurd (cc))
answered cancel p (a, b, c) = (inr refl, a, b, λ e. c)
answered (other_response n) p h = absurd h

run-IsAnswered :
    (es : List PlugEvent) (r : Response) (p : Plug)
    → (gs_lock_plug_run es p).1 ≡ some r
    → IsAnswered r (gs_lock_plug_run es p).0
unfolding gs_lock_plug_run
run-IsAnswered [] r p h = absurd (ground (arith, h))
run-IsAnswered (e ∷ es) r p h = elim (Option-cases (handle e p).1) [
  | inl goes_on ↦
      let h' = rw (goes_on, gs_lock_plug_run) at h in
      rw (goes_on, gs_lock_plug_run) (run-IsAnswered es r (handle e p).0 h')
  | inr (info, quits) ↦
      let same : info ≡ some r = rw (quits, gs_lock_plug_run) at h in
      rw (quits, gs_lock_plug_run)
        (handle-IsAnswered e r p (quits ∙ ap (λ (i : RunInfo). some i) same))
]

-- A run of the plug, whatever happens in it, that ends with a response: it is OK or CANCEL, no
-- timeout and no idle of the plug is noted any more, and after CANCEL the entry is empty.
pub gs_lock_plug_run-IsAnswered :
    (es : List PlugEvent) (r : Response) (p : Plug)
    → (gs_lock_plug_run es p).1 ≡ some r
    → ((r ≡ ok) ⊎ (r ≡ cancel))
      × ((gs_lock_plug_run es p).0.cancel_timeout_id ≡ 0)
      × ((gs_lock_plug_run es p).0.response_idle_id ≡ 0)
      × (r ≡ cancel → (gs_lock_plug_run es p).0.entry_text ≡ [])
gs_lock_plug_run-IsAnswered es r p h =
    answered r (gs_lock_plug_run es p).0 (run-IsAnswered es r p h)

run-step :
    (e : PlugEvent) (es : List PlugEvent) (p : Plug)
    → (handle e p).1 ≡ none
    → gs_lock_plug_run (e ∷ es) p ≡ gs_lock_plug_run es (handle e p).0
unfolding gs_lock_plug_run
run-step e es p h = rw (h, gs_lock_plug_run) refl

run-quit :
    (e : PlugEvent) (es : List PlugEvent) (p : Plug) (info : RunInfo)
    → (handle e p).1 ≡ some info
    → gs_lock_plug_run (e ∷ es) p ≡ ((handle e p).0, info)
unfolding gs_lock_plug_run
run-quit e es p info h = rw (h, gs_lock_plug_run) refl

abbrev IsPrompting : Plug → Type 0
IsPrompting p =
    (mem p.cancel_timeout_id p.main_loop.attached ≡ true)
    × (0 < p.cancel_timeout_id)
    × (p.cancel_timeout_id ≤ p.main_loop.last_id)
    × (p.response_idle_id ≡ 0)

enable-IsPrompting :
    (visible : Bool) (p : Plug)
    → p.response_idle_id ≡ 0
    → IsPrompting (gs_lock_plug_enable_prompt visible p).0
unfolding gs_lock_plug_enable_prompt restart_cancel_timeout forward_key_events add_source
    remove_cancel_timeout
enable-IsPrompting visible p h = (
  ground (arith, ==_refl (suc (remove_cancel_timeout p).main_loop.last_id)),
  ground arith,
  ground arith,
  ground (arith, h),
)

-- The timeout has fired, and its id is still noted.
abbrev IsTimedOut : Plug → Plug → Type 0
IsTimedOut p q =
    (mem q.cancel_timeout_id q.main_loop.attached ≡ false)
    × (0 < q.cancel_timeout_id)
    × (mem q.response_idle_id q.main_loop.attached ≡ true)
    × (q.entry_sensitive ≡ false)
    × (q.main_loop.not_found ≡ p.main_loop.not_found)

timed_out :
    (p : Plug)
    → IsPrompting p
    → ((handle cancel_timeout p).1 ≡ none) × IsTimedOut p (handle cancel_timeout p).0
unfolding handle dialog_timed_out add_response_idle remove_response_idle gs_lock_plug_set_sensitive
    add_source finish_source
timed_out p (attached, pos, old, none_noted) =
    let c = p.cancel_timeout_id in
    let r = suc p.main_loop.last_id in
    let other : (c == r) ≡ false = ground (arith, old) in
    (
      ground (arith, attached),
      (
        ground (arith, attached, none_noted, mem-without c (r ∷ p.main_loop.attached)),
        ground (arith, attached, pos, none_noted),
        ground (arith, attached, none_noted, ==_refl r, other),
        ground (arith, attached, none_noted),
        ground (arith, attached, none_noted),
      ),
    )

idle_cancel :
    (p q : Plug)
    → IsTimedOut p q
    → ((handle response_idle q).1 ≡ some (some cancel))
      × ((handle response_idle q).0.entry_text ≡ [])
      × ((handle response_idle q).0.entry_sensitive ≡ false)
      × ((handle response_idle q).0.main_loop.not_found ≡ suc p.main_loop.not_found)
unfolding handle response_cancel_idle_cb gs_lock_plug_response remove_cancel_timeout
    remove_response_idle remove_source finish_source
idle_cancel p q (gone, pos, on, insensitive, same) = (
  ground (arith, on),
  ground (arith, on),
  ground (arith, on, insensitive),
  ground (arith, on, gone, pos, same),
)

-- A prompt that is enabled and then left alone, with no idle noted: its timeout and the idle that
-- follows end the run with CANCEL, the entry empty and not sensitive. The source of the timeout,
-- which has returned FALSE, is still noted when the response comes, which therefore asks the main
-- loop to remove a source that it does not have.
pub unattended-cancel :
    (visible : Bool) (p : Plug) (rest : List PlugEvent)
    → p.response_idle_id ≡ 0
    → let q = (gs_lock_plug_enable_prompt visible p).0 in
      let (q', info) = gs_lock_plug_run (cancel_timeout ∷ response_idle ∷ rest) q in
      (info ≡ some cancel)
      × (q'.entry_text ≡ [])
      × (q'.entry_sensitive ≡ false)
      × (q'.main_loop.not_found ≡ suc q.main_loop.not_found)
unattended-cancel visible p rest none_noted =
    let q = (gs_lock_plug_enable_prompt visible p).0 in
    let (goes_on, late) = timed_out q (enable-IsPrompting visible p none_noted) in
    let q1 = (handle cancel_timeout q).0 in
    let (quits, empty, insensitive, missed) = idle_cancel q q1 late in
    rw
      (
        run-step cancel_timeout (response_idle ∷ rest) q goes_on,
        run-quit response_idle rest q1 (some cancel) quits,
      )
      (refl, empty, insensitive, missed)

-- ===== src/LockPlug/Keys.antt =====
-- src/gs-lock-plug.c: the keys that are pressed before the prompt is there.
use mathlib.Core.List.{reverse, reverse-cons, append_assoc, append-nil}
use budgie_screensaver.Common.{
  ap, ℕ, ◌≡◌, refl, sym, ◌∙◌, Bool, true, false, List, [], ◌∷◌, ◌++◌, arith, if◌then◌else◌,
}
use budgie_screensaver.LockPlug.{
  Plug, entry_key_press, gs_lock_plug_enable_prompt, restart_cancel_timeout, remove_cancel_timeout,
  queue_key_event, forward_key_events,
}
use budgie_screensaver.LockPlug.Sources.{add_source}

-- The strings of the events that type something.
abbrev pub nonempty : List (List ℕ) → List (List ℕ)
nonempty [] = []
nonempty ([] ∷ ks) = nonempty ks
nonempty ((c ∷ cs) ∷ ks) = (c ∷ cs) ∷ nonempty ks

unfoldable pub press_all : List (List ℕ) → Plug → Plug
press_all [] p = p
press_all (k ∷ ks) p = press_all ks (entry_key_press k p).0

press-skips :
    (k : List ℕ) (p : Plug)
    → ((entry_key_press k p).0.entry_sensitive ≡ p.entry_sensitive)
      × ((entry_key_press [] p).0.key_events ≡ p.key_events)
unfolding entry_key_press restart_cancel_timeout remove_cancel_timeout queue_key_event add_source
press-skips k p = (ground arith, ground arith)

press-queues :
    (c : ℕ) (cs : List ℕ) (p : Plug)
    → (entry_key_press (c ∷ cs) p).0.key_events
      ≡ (if p.entry_sensitive then p.key_events else (c ∷ cs) ∷ p.key_events)
unfolding entry_key_press restart_cancel_timeout remove_cancel_timeout queue_key_event add_source
press-queues c cs p = ground arith

typed :
    (c : ℕ) (cs : List ℕ) (ks : List (List ℕ)) (p : Plug)
    → p.entry_sensitive ≡ false
    → reverse (entry_key_press (c ∷ cs) p).0.key_events ++ nonempty ks
      ≡ reverse p.key_events ++ (c ∷ cs) ∷ nonempty ks
typed c cs ks p e =
    let queued : (entry_key_press (c ∷ cs) p).0.key_events ≡ (c ∷ cs) ∷ p.key_events =
      press-queues c cs p
      ∙ ap (λ (b : Bool). if b then p.key_events else (c ∷ cs) ∷ p.key_events) e in
    rw (queued, reverse-cons (c ∷ cs) p.key_events)
      (append_assoc (reverse p.key_events) ((c ∷ cs) ∷ []) (nonempty ks))

press_all-queue :
    (ks : List (List ℕ)) (p : Plug)
    → p.entry_sensitive ≡ false
    → reverse (press_all ks p).key_events ≡ reverse p.key_events ++ nonempty ks
unfolding press_all
press_all-queue [] p e = sym (append-nil _)
press_all-queue ([] ∷ ks) p e =
    let (same, queue) = press-skips [] p in
    press_all-queue ks (entry_key_press [] p).0 (same ∙ e) ∙ (rw queue refl)
press_all-queue ((c ∷ cs) ∷ ks) p e =
    let (same, queue) = press-skips (c ∷ cs) p in
    let queued = press-queues c cs p in
    press_all-queue ks (entry_key_press (c ∷ cs) p).0 (same ∙ e) ∙ typed c cs ks p e

restart-key_events : (p : Plug) → (restart_cancel_timeout p).key_events ≡ p.key_events
unfolding restart_cancel_timeout remove_cancel_timeout
restart-key_events p = ground arith

-- The keys that are pressed while the entry is not sensitive, with none queued before, are
-- forwarded when the prompt is enabled: all that type something, in the order they were pressed,
-- and none is left in the queue.
pub enable_prompt-press_all :
    (ks : List (List ℕ)) (visible : Bool) (p : Plug)
    → p.entry_sensitive ≡ false
    → p.key_events ≡ []
    → let (q, forwarded) = gs_lock_plug_enable_prompt visible (press_all ks p) in
      (forwarded ≡ nonempty ks) × (q.key_events ≡ [])
unfolding gs_lock_plug_enable_prompt forward_key_events
enable_prompt-press_all ks visible p e empty = (
  press_all-queue ks p e ∙ ap (λ (q : List (List ℕ)). reverse q ++ nonempty ks) empty,
  restart-key_events (record (press_all ks p) {
    unlock_sensitive = true;
    entry_visible = visible;
    entry_sensitive = true;
    key_events = [];
  }),
)

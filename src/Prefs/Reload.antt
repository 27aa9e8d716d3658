-- ===== src/Prefs/Reload.antt =====
-- src/gs-prefs.c: the incremental update on a changed key against the load of all keys.
use budgie_screensaver.Common.{
  ◌≡◌, refl, ◌≢◌, ◌⊎◌, inl, inr, String, Option, none, some, arith, sym, ◌∙◌, Option-cases,
}
use budgie_screensaver.Prefs.{
  Settings, Prefs, load_from_settings, apply_key, dispatch_key, key_changed_cb,
}
use budgie_screensaver.Prefs.Keys.{
  Key, lock_delay, idle_activation_enabled, lock_enabled, lock_disable, user_switch_disable,
  keyboard_enabled, keyboard_command, status_message_enabled, logout_enabled, logout_delay,
  logout_command, user_switch_enabled, key_of, name, key_of-eq_name, name-ne,
}

-- Two stores answer alike on every key but `k`.
pub record SameBut (k : String) (s t : Settings) : Type 0 where
  pub boolean : (j : String) → j ≢ k → t.get_boolean j ≡ s.get_boolean j
  pub uint : (j : String) → j ≢ k → t.get_uint j ≡ s.get_uint j
  pub string : (j : String) → j ≢ k → t.get_string j ≡ s.get_string j

-- The answers that the load reads, where the changed key has the outcome `o` in the chain.
record AlikeBut (o : Option Key) (s t : Settings) : Type 0 where
  boolean : (j : Key) → o ≢ some j → t.get_boolean (name j) ≡ s.get_boolean (name j)
  uint : (j : Key) → o ≢ some j → t.get_uint (name j) ≡ s.get_uint (name j)
  string : (j : Key) → o ≢ some j → t.get_string (name j) ≡ s.get_string (name j)

SameBut-AlikeBut :
    (k : String) (o : Option Key) (s t : Settings) → key_of k ≡ o → SameBut k s t → AlikeBut o s t
SameBut-AlikeBut k o s t h same = record {
  boolean = λ j d. same.boolean (name j) (name-ne k j (λ e. d (sym h ∙ e)));
  uint = λ j d. same.uint (name j) (name-ne k j (λ e. d (sym h ∙ e)));
  string = λ j d. same.string (name j) (name-ne k j (λ e. d (sym h ∙ e)));
}

module _ {o : Option Key} {s t : Settings} (a : AlikeBut o s t) where
  settings_facts :
      (o ≢ some idle_activation_enabled
        → t.get_boolean (name idle_activation_enabled)
          ≡ s.get_boolean (name idle_activation_enabled))
      × (o ≢ some lock_enabled
          → t.get_boolean (name lock_enabled) ≡ s.get_boolean (name lock_enabled))
      × (o ≢ some lock_delay → t.get_uint (name lock_delay) ≡ s.get_uint (name lock_delay))
      × (o ≢ some keyboard_enabled
          → t.get_boolean (name keyboard_enabled) ≡ s.get_boolean (name keyboard_enabled))
      × (o ≢ some keyboard_command
          → t.get_string (name keyboard_command) ≡ s.get_string (name keyboard_command))
      × (o ≢ some status_message_enabled
          → t.get_boolean (name status_message_enabled)
            ≡ s.get_boolean (name status_message_enabled))
      × (o ≢ some logout_enabled
          → t.get_boolean (name logout_enabled) ≡ s.get_boolean (name logout_enabled))
      × (o ≢ some logout_command
          → t.get_string (name logout_command) ≡ s.get_string (name logout_command))
      × (o ≢ some logout_delay → t.get_uint (name logout_delay) ≡ s.get_uint (name logout_delay))
      × (o ≢ some user_switch_enabled
          → t.get_boolean (name user_switch_enabled) ≡ s.get_boolean (name user_switch_enabled))
  settings_facts = (
    a.boolean _,
    a.boolean _,
    a.uint _,
    a.boolean _,
    a.string _,
    a.boolean _,
    a.boolean _,
    a.string _,
    a.uint _,
    a.boolean _,
  )

-- The text under which a key is read: its name, where the chain knows it.
abbrev text : String → Option Key → String
text k none = k
text k (some i) = name i

-- The key was one of the settings store, or none that the object keeps.
settings-reload :
    (o : Option Key) (k : String) (s t l : Settings) (p : Prefs)
    → AlikeBut o s t
    → o ≢ some lock_disable
    → o ≢ some user_switch_disable
    → (dispatch_key t (text k o) o (load_from_settings s l p)).0 ≡ load_from_settings t l p
unfolding dispatch_key apply_key load_from_settings
settings-reload none k s t l p a _ _ = ground (arith, settings_facts a)
settings-reload (some lock_disable) k s t l p a d _ = absurd (d refl)
settings-reload (some user_switch_disable) k s t l p a _ d = absurd (d refl)
settings-reload (some i) k s t l p a _ _ = ground (arith, settings_facts a)

-- The key was one of the lockdown store, or none that the object keeps.
lockdown-reload :
    (o : Option Key) (k : String) (s l m : Settings) (p : Prefs)
    → AlikeBut o l m
    → ((i : Key) → o ≡ some i → (i ≡ lock_disable) ⊎ (i ≡ user_switch_disable))
    → (dispatch_key m (text k o) o (load_from_settings s l p)).0 ≡ load_from_settings s m p
unfolding dispatch_key apply_key load_from_settings
lockdown-reload none k s l m p a _ =
    ground (arith, a.boolean lock_disable, a.boolean user_switch_disable)
lockdown-reload (some i) k s l m p a d =
    ground (arith, d i refl, a.boolean lock_disable, a.boolean user_switch_disable)

text-key_of : (k : String) → text k (key_of k) ≡ k
text-key_of k = elim (Option-cases (key_of k)) [
  | inl e ↦ rw e
  | inr (i, e) ↦ rw e (sym (key_of-eq_name k i e))
]

-- The preferences loaded from the stores, brought up to date by the handler for the one key of
-- the settings store that changed, are those that a load of the new stores gives. The key may
-- also be one that the object does not keep; it is none of the two lockdown keys.
pub key_changed-load :
    (k : String) (s t l : Settings) (p : Prefs)
    → SameBut k s t
    → key_of k ≢ some lock_disable
    → key_of k ≢ some user_switch_disable
    → (key_changed_cb t k (load_from_settings s l p)).0 ≡ load_from_settings t l p
unfolding key_changed_cb
key_changed-load k s t l p same d d' =
    rw (text-key_of k) at
      (settings-reload (key_of k) k s t l p (SameBut-AlikeBut k (key_of k) s t refl same) d d')

-- The same for the lockdown store, which has the two lockdown keys.
pub key_changed-load_lockdown :
    (k : String) (s l m : Settings) (p : Prefs)
    → SameBut k l m
    → ((i : Key) → key_of k ≡ some i → (i ≡ lock_disable) ⊎ (i ≡ user_switch_disable))
    → (key_changed_cb m k (load_from_settings s l p)).0 ≡ load_from_settings s m p
unfolding key_changed_cb
key_changed-load_lockdown k s l m p same d =
    rw (text-key_of k) at
      (lockdown-reload (key_of k) k s l m p (SameBut-AlikeBut k (key_of k) l m refl same) d)

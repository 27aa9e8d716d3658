-- ===== src/Monitor/Sync.antt =====
-- src/gs-monitor.c: whether the saver is active, in the listener and in the manager.
use budgie_screensaver.Common.{
  ◌≡◌, refl, Bool, true, false, some, arith, Bool-cases, Option-cases, inl, inr,
}
use budgie_screensaver.Listener.{gs_listener_set_active}
use budgie_screensaver.Listener.Active.{IsLawful, gs_listener_set_active_lem}
use budgie_screensaver.Manager.{Env, Manager}
use budgie_screensaver.Manager.Windows.{gs_manager_destroy_windows}
use budgie_screensaver.Manager.Active.{gs_manager_set_active, gs_manager_deactivate, wind_down}
use budgie_screensaver.Manager.Activation.{gs_manager_set_active-true}
use budgie_screensaver.Monitor.{
  Monitor, set_watch, listener_active_changed_cb, connected, set_active,
}

-- The manager's change of the active flag, where it ends.
abbrev pub Changed : (b res : Bool) (g g' : Manager) → Type 0
Changed b res g g' = (res ≡ true → g'.active ≡ b) × (res ≡ false → g' ≡ g)

activate-Changed :
    (env : Env) (g g' : Manager) (res : Bool)
    → gs_manager_set_active env true g ≡ some (g', res)
    → Changed true res g g'
activate-Changed env g g' res h = elim (Bool-cases g.active) [
  | inl a ↦
      let kept = (gs_manager_set_active-true env g).0 a in
      (ground (arith, h, kept), ground (arith, h, kept))
  | inr a ↦
      let (n, e, on, _, _) = (gs_manager_set_active-true env g).1 a in
      (ground (arith, h, e, on), ground (arith, h, e))
]

deactivate-Changed :
    (env : Env) (g g' : Manager) (res : Bool)
    → gs_manager_set_active env false g ≡ some (g', res)
    → Changed false res g g'
unfolding gs_manager_set_active gs_manager_deactivate
deactivate-Changed env g g' res h =
    elim (Option-cases (gs_manager_destroy_windows env (wind_down env g))) [
      | inl e ↦ (ground (arith, e), ground (arith, e))
      | inr (n, e) ↦ (ground (arith, e), ground (arith, e))
    ]

set_active-Changed :
    (env : Env) (b : Bool) (g g' : Manager) (res : Bool)
    → gs_manager_set_active env b g ≡ some (g', res)
    → Changed b res g g'
set_active-Changed env true g g' res h = activate-Changed env g g' res h
set_active-Changed env false g g' res h = deactivate-Changed env g g' res h

-- What the handler of "active-changed" does: the listener is left alone.
pub listener_active_changed_cb_lem :
    (env : Env) (b : Bool) (m : Monitor)
    → let (n, res) = listener_active_changed_cb env b m in
      (n.listener ≡ m.listener)
      × (res ≡ true → n.manager.active ≡ b)
      × (res ≡ false → n.manager ≡ m.manager)
unfolding listener_active_changed_cb set_watch
listener_active_changed_cb_lem env b m =
    elim (Option-cases (gs_manager_set_active env b m.manager)) [
      | inl e ↦ (ground (arith, e), ground (arith, e), ground (arith, e))
      | inr ((g, res), e) ↦
          let c = set_active-Changed env b m.manager g res e in
          (ground (arith, e), ground (arith, e, c), ground (arith, e, c))
    ]

pub connected-IsLawful : (env : Env) → IsLawful (connected env)
connected-IsLawful env = record {
  get-put = λ l m. refl;
  get-emit_active_changed = λ b m. (listener_active_changed_cb_lem env b m).0;
}

-- The listener and the manager agree.
abbrev pub InSync : Monitor → Type 0
InSync m = m.listener.active ≡ m.manager.active

-- A change of the active flag by the listener leaves the manager alone if it fails, and changes it
-- with the listener if it succeeds.
pub set_active_lem :
    (env : Env) (b : Bool) (m : Monitor)
    → let (n, res) = set_active env b m in
      (res ≡ true → (n.listener.active ≡ b) × (n.manager.active ≡ b))
      × (res ≡ false → (n.listener.active ≡ m.listener.active) × (n.manager ≡ m.manager))
unfolding set_active gs_listener_set_active
set_active_lem env b m =
    let l = gs_listener_set_active_lem (connected env) (connected-IsLawful env) env.now m b in
    let c = listener_active_changed_cb_lem env b m in (ground (arith, l, c), ground (arith, l, c))

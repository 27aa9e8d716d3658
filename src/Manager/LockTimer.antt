-- ===== src/Manager/LockTimer.antt =====
-- src/gs-manager.c: when the lock comes on, and on which windows.
use budgie_screensaver.Common.{
  ℕ, ◌+◌, ◌-◌, ◌*◌, ◌^◌, ◌≤◌, ◌<◌, ◌≡◌, true, false, ◌∷◌, arith, pos, same_ℤ, add_timeout,
}
use budgie_screensaver.Manager.{
  Env, Manager, gs_manager_set_lock_active, activate_lock_timeout, remove_lock_timer,
  add_lock_timer, restart_lock_timer, elapsed, gs_manager_set_lock_timeout,
}

-- A new timeout for a saver that is active and not locked, with the clock not behind the
-- activation: if that much time has passed since the activation, the timer is off and the lock
-- is on exactly if it is enabled; otherwise the lock stays off, and the last call on the main
-- loop adds the timer, with the interval that ends the timeout after the activation.
pub gs_manager_set_lock_timeout_lem :
    (env : Env) (t : ℕ) (m : Manager)
    → m.active ≡ true
    → m.lock_active ≡ false
    → same_ℤ m.lock_timeout (pos t) ≡ false
    → m.activate_time ≤ env.now
    → t < 2 ^ 32
    → let m' = gs_manager_set_lock_timeout env (pos t) m in
      (m.activate_time * 1000 + t ≤ env.now * 1000
        → (m'.lock_timeout_id ≡ 0) × (m'.lock_active ≡ m.lock_enabled))
      × (env.now * 1000 < m.activate_time * 1000 + t
          → (m'.lock_active ≡ false)
            × (m'.lock_timeout_id ≡ env.source_id m.adds)
            × (m'.calls
                ≡ add_timeout (m.activate_time * 1000 + t - env.now * 1000) (env.source_id m.adds)
                  ∷ (remove_lock_timer m).calls))
unfolding gs_manager_set_lock_timeout restart_lock_timer elapsed add_lock_timer remove_lock_timer
    activate_lock_timeout gs_manager_set_lock_active
gs_manager_set_lock_timeout_lem env t m active unlocked new clock small =
    (λ h. ground arith, λ h. ground arith)

-- ===== src/Children/Await.antt =====
-- src/subprocs.c: what ends the loop that waits for children, and a signal to a child.
use budgie_screensaver.Common.{
  ◌+◌, ◌≡◌, ◌≢◌, refl, Bool, false, none, some, List, [], ◌∷◌, ◌++◌, arith, All, length,
}
use budgie_screensaver.Children.{
  Signals, Waited, child, nothing, eintr, echild, other_error, over, goes_on, await_dying_children,
  signal_pid, block_sigchld, unblock_sigchld,
}

-- An error other than EINTR.
abbrev pub IsRealError : Waited → Type 0
IsRealError (child pid) = ⊥
IsRealError nothing = ⊥
IsRealError eintr = ⊥
IsRealError echild = Unit
IsRealError other_error = Unit

abbrev pub Passes : Waited → Type 0
Passes w = IsRealError w → ⊥

-- The loop goes on through every answer that is no real error, 0 included, which its comment takes for
-- the end: with a child that lives, it does not end. It is over with the first real error, and
-- so it is once all children are waited for, which ECHILD says.
pub await_dying_children_lem :
    (before : List Waited) (last : Waited) (after : List Waited)
    → All Passes before
    → (await_dying_children before ≡ goes_on)
      × (IsRealError last
          → await_dying_children (before ++ last ∷ after) ≡ over (length before + 1))
unfolding await_dying_children
await_dying_children_lem [] echild after p = (refl, λ e. refl)
await_dying_children_lem [] other_error after p = (refl, λ e. refl)
await_dying_children_lem [] (child pid) after p = (refl, λ e. absurd e)
await_dying_children_lem [] nothing after p = (refl, λ e. absurd e)
await_dying_children_lem [] eintr after p = (refl, λ e. absurd e)
await_dying_children_lem (child pid ∷ ws) last after p =
    let (on, ends) = await_dying_children_lem ws last after p.1 in
    (ground (arith, on), λ e. ground (arith, ends e))
await_dying_children_lem (nothing ∷ ws) last after p =
    let (on, ends) = await_dying_children_lem ws last after p.1 in
    (ground (arith, on), λ e. ground (arith, ends e))
await_dying_children_lem (eintr ∷ ws) last after p =
    let (on, ends) = await_dying_children_lem ws last after p.1 in
    (ground (arith, on), λ e. ground (arith, ends e))
await_dying_children_lem (echild ∷ ws) last after p = absurd (p.0 tt)
await_dying_children_lem (other_error ∷ ws) last after p = absurd (p.0 tt)

-- A signal to a child outside of the blocked part never aborts, answers what kill does, and leaves
-- the counter as it was, with the signals unblocked; inside of it, it aborts.
signal_pid_lem :
    (kill : Bool) (s : Signals)
    → (s.block_sigchld_handler ≡ 0
        → signal_pid kill s ≡ some (record { block_sigchld_handler = 0; blocked = false }, kill))
      × (s.block_sigchld_handler ≢ 0 → signal_pid kill s ≡ none)
unfolding signal_pid block_sigchld unblock_sigchld
signal_pid_lem kill s = (λ e. ground (arith, e), λ e. ground (arith, e))

-- ===== src/Children.antt =====
-- src/subprocs.c, and wait_on_child of src/gs-window-x11.c: signals to child processes and waiting for
-- them. The kernel's answers are given: of kill, and one for each call of waitpid.
mod Await
use budgie_screensaver.Common.{
  ℕ, suc, ◌-◌, Bool, true, false, not, Option, none, some, List, [], ◌∷◌, ◌==◌, ltb, if◌then◌else◌,
}

-- `block_sigchld_handler`, and whether SIGCHLD and SIGPIPE are blocked.
pub record Signals : Type 0 where
  pub block_sigchld_handler : ℕ
  pub blocked : Bool

unfoldable pub block_sigchld : Signals → Signals
block_sigchld s = record s { blocked = true; block_sigchld_handler = suc s.block_sigchld_handler }

-- The counter is an int, which signal_pid tests for a negative value: `none` is -1.
unfoldable pub unblock_sigchld : Signals → Signals × Option ℕ
unblock_sigchld s = (
  record s { blocked = false; block_sigchld_handler = s.block_sigchld_handler - 1 },
  if s.block_sigchld_handler == 0 then none else some (s.block_sigchld_handler - 1),
)

-- With what kill returns; `none` is abort.
unfoldable pub signal_pid : (kill : Bool) → Signals → Option (Signals × Bool)
unfolding block_sigchld unblock_sigchld
signal_pid kill s =
    if ltb 0 s.block_sigchld_handler
    then none
    else (let (s, counter) = unblock_sigchld (block_sigchld s) in
        elim counter [ none ↦ none | some n ↦ some (s, kill) ])

-- What waitpid returns: a child that has ended or stopped, 0, or -1 with errno.
pub data Waited : Type 0 where
  child : (pid : ℕ) → Waited
  nothing : Waited
  eintr echild other_error : Waited

-- How far a loop has come when these were the answers of waitpid.
pub data Progress : Type 0 where
  -- It is over, after this many calls.
  over : (calls : ℕ) → Progress
  -- It calls waitpid again.
  goes_on : Progress

abbrev one_more : Progress → Progress
one_more (over n) = over (suc n)
one_more goes_on = goes_on

unfoldable pub await_dying_children : List Waited → Progress
await_dying_children [] = goes_on
await_dying_children (child pid ∷ ws) = one_more (await_dying_children ws)
await_dying_children (nothing ∷ ws) = one_more (await_dying_children ws)
await_dying_children (eintr ∷ ws) = one_more (await_dying_children ws)
await_dying_children (echild ∷ ws) = over 1
await_dying_children (other_error ∷ ws) = over 1

unfoldable pub wait_on_child : List Waited → Progress
wait_on_child [] = goes_on
wait_on_child (child pid ∷ ws) = over 1
wait_on_child (nothing ∷ ws) = over 1
wait_on_child (eintr ∷ ws) = one_more (wait_on_child ws)
wait_on_child (echild ∷ ws) = over 1
wait_on_child (other_error ∷ ws) = over 1

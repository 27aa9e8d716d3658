-- ===== src/Auth/Handshake.antt =====
-- src/gs-auth-pam.c: gs_auth_run_message_handler in the thread of PAM, and
-- gs_auth_queued_message_handler in the main one, as the steps that they take in turn.
use budgie_screensaver.Common.{zero, suc, ℕ, ◌≡◌, Bool, true, false, not, Option, none, some}

-- Where the thread is: about to lock the mutex, to add the idle, to wait, waiting, woken, about to
-- unlock, and after that.
pub data ThreadPc : Type 0 where
  locking queueing before_wait waiting woken unlocking returned : ThreadPc

-- Where the handler is: not dispatched, about to lock, to call `cb_func`, to signal, to unlock, and
-- after that.
pub data HandlerPc : Type 0 where
  not_called entering calling signalling leaving left : HandlerPc

pub data Owner : Type 0 where
  thread handler : Owner

-- `should_interrupt_stack` starts as TRUE; `queued` is the idle that the thread added.
pub record Message : Type 0 where
  pub thread_pc : ThreadPc
  pub handler_pc : HandlerPc
  pub mutex : Option Owner
  pub queued : Bool
  pub should_interrupt_stack : Bool

abbrev pub begin : Message
begin = record {
  thread_pc = locking;
  handler_pc = not_called;
  mutex = none;
  queued = false;
  should_interrupt_stack = true;
}

-- g_cond_signal wakes the thread if it waits.
abbrev pub signal : ThreadPc → ThreadPc
signal waiting = woken
signal pc = pc

-- One step, where `res` is what `cb_func` returns; `spurious` says if g_cond_wait may return
-- without a signal.
pub data Step (spurious res : Bool) : Message → Message → Type 0 where
  lock :
      {m : Message}
      → m.thread_pc ≡ locking
      → m.mutex ≡ none
      → Step spurious res m (record m { thread_pc = queueing; mutex = some thread })
  queue :
      {m : Message}
      → m.thread_pc ≡ queueing
      → Step spurious res m (record m { thread_pc = before_wait; queued = true })
  wait :
      {m : Message}
      → m.thread_pc ≡ before_wait
      → Step spurious res m (record m { thread_pc = waiting; mutex = none })
  wake :
      {m : Message}
      → m.thread_pc ≡ waiting
      → spurious ≡ true
      → Step spurious res m (record m { thread_pc = woken })
  relock :
      {m : Message}
      → m.thread_pc ≡ woken
      → m.mutex ≡ none
      → Step spurious res m (record m { thread_pc = unlocking; mutex = some thread })
  unlock :
      {m : Message}
      → m.thread_pc ≡ unlocking
      → Step spurious res m (record m { thread_pc = returned; mutex = none })
  dispatch :
      {m : Message}
      → m.handler_pc ≡ not_called
      → m.queued ≡ true
      → Step spurious res m (record m { handler_pc = entering; queued = false })
  handler_lock :
      {m : Message}
      → m.handler_pc ≡ entering
      → m.mutex ≡ none
      → Step spurious res m (record m { handler_pc = calling; mutex = some handler })
  call :
      {m : Message}
      → m.handler_pc ≡ calling
      → Step spurious res m (record m { handler_pc = signalling; should_interrupt_stack = not res })
  cond_signal :
      {m : Message}
      → m.handler_pc ≡ signalling
      → Step spurious res m (record m { handler_pc = leaving; thread_pc = signal m.thread_pc })
  handler_unlock :
      {m : Message}
      → m.handler_pc ≡ leaving
      → Step spurious res m (record m { handler_pc = left; mutex = none })

-- In this many steps.
pub data Reach (spurious res : Bool) : ℕ → Message → Type 0 where
  start : Reach spurious res zero begin
  later :
      {n : ℕ} {m m' : Message}
      → Reach spurious res n m
      → Step spurious res m m'
      → Reach spurious res (suc n) m'

-- What gs_auth_run_message_handler returns.
unfoldable pub result : Message → Bool
result m = not m.should_interrupt_stack

-- ===== src/Auth/Order.antt =====
-- src/gs-auth-pam.c: the order in which the thread of PAM and the main one handle a message.
use budgie_screensaver.Common.{
  ◌≤◌, ℕ, ◌<◌, ◌+◌, ◌≡◌, ◌⊎◌, refl, Bool, true, false, not, Option, none, some, arith, inl, inr,
}
use budgie_screensaver.Auth.Handshake.{
  ThreadPc, HandlerPc, Owner, Message, Step, Reach, result, signal, locking, queueing, before_wait,
  waiting, woken, unlocking, returned, not_called, entering, calling, signalling, leaving, left,
  thread, handler,
}

-- The threads without spurious wakeups: who holds the mutex, and how far each has gone.
abbrev Holds : ThreadPc → HandlerPc → Option Owner → Type 0
Holds queueing h m = m ≡ some thread
Holds before_wait h m = m ≡ some thread
Holds unlocking h m = m ≡ some thread
Holds t calling m = m ≡ some handler
Holds t signalling m = m ≡ some handler
Holds t leaving m = m ≡ some handler
Holds t h m = m ≡ none

abbrev InStep : ThreadPc → HandlerPc → (queued : Bool) → Type 0
InStep locking h q = (h ≡ not_called) × (q ≡ false)
InStep queueing h q = (h ≡ not_called) × (q ≡ false)
InStep before_wait not_called q = q ≡ true
InStep before_wait entering q = q ≡ false
InStep before_wait h q = ⊥
InStep waiting not_called q = q ≡ true
InStep waiting entering q = q ≡ false
InStep waiting calling q = q ≡ false
InStep waiting signalling q = q ≡ false
InStep waiting h q = ⊥
InStep woken leaving q = q ≡ false
InStep woken left q = q ≡ false
InStep woken h q = ⊥
InStep t h q = (h ≡ left) × (q ≡ false)

abbrev Answered : HandlerPc → (res interrupt : Bool) → Type 0
Answered signalling res interrupt = interrupt ≡ not res
Answered leaving res interrupt = interrupt ≡ not res
Answered left res interrupt = interrupt ≡ not res
Answered h res interrupt = interrupt ≡ true

record IsOrderly (res : Bool) (m : Message) : Type 0 where
  mutex : Holds m.thread_pc m.handler_pc m.mutex
  order : InStep m.thread_pc m.handler_pc m.queued
  answer : Answered m.handler_pc res m.should_interrupt_stack

step-IsOrderly :
    (res : Bool) (m m' : Message) → Step false res m m' → IsOrderly res m → IsOrderly res m'
step-IsOrderly res m m' (Step.lock a b) i = ground (arith, a, b)
step-IsOrderly res m m' (Step.queue a) i = ground (arith, a)
step-IsOrderly res m m' (Step.wait a) i = ground (arith, a)
step-IsOrderly res m m' (Step.wake a b) i = absurd (ground (arith, b))
step-IsOrderly res m m' (Step.relock a b) i = ground (arith, a, b)
step-IsOrderly res m m' (Step.unlock a) i = ground (arith, a)
step-IsOrderly res m m' (Step.dispatch a b) i = ground (arith, a, b)
step-IsOrderly res m m' (Step.handler_lock a b) i = ground (arith, a, b)
step-IsOrderly res m m' (Step.call a) i = ground (arith, a)
step-IsOrderly res m m' (Step.cond_signal a) i = ground (arith, a)
step-IsOrderly res m m' (Step.handler_unlock a) i = ground (arith, a)

Reach-IsOrderly : (res : Bool) (n : ℕ) (m : Message) → Reach false res n m → IsOrderly res m
Reach-IsOrderly res n m Reach.start = record { mutex = refl; order = (refl, refl); answer = refl }
Reach-IsOrderly res n m (Reach.later {n = k} {m = m1} r s) =
    step-IsOrderly res m1 m s (Reach-IsOrderly res k m1 r)

abbrev thread_left : ThreadPc → ℕ
thread_left locking = 5
thread_left queueing = 4
thread_left before_wait = 3
thread_left waiting = 2
thread_left woken = 2
thread_left unlocking = 1
thread_left returned = 0

abbrev handler_left : HandlerPc → ℕ
handler_left not_called = 5
handler_left entering = 4
handler_left calling = 3
handler_left signalling = 2
handler_left leaving = 1
handler_left left = 0

abbrev steps_left : Message → ℕ
steps_left m = thread_left m.thread_pc + handler_left m.handler_pc

signal-cases : (t : ThreadPc) → (t ≡ waiting) ⊎ (signal t ≡ t)
signal-cases locking = inr refl
signal-cases queueing = inr refl
signal-cases before_wait = inr refl
signal-cases waiting = inl refl
signal-cases woken = inr refl
signal-cases unlocking = inr refl
signal-cases returned = inr refl

step-steps_left : (res : Bool) (m m' : Message) → Step false res m m' → steps_left m' < steps_left m
step-steps_left res m m' (Step.lock a b) = ground (arith, a, b)
step-steps_left res m m' (Step.queue a) = ground (arith, a)
step-steps_left res m m' (Step.wait a) = ground (arith, a)
step-steps_left res m m' (Step.relock a b) = ground (arith, a, b)
step-steps_left res m m' (Step.unlock a) = ground (arith, a)
step-steps_left res m m' (Step.dispatch a b) = ground (arith, a, b)
step-steps_left res m m' (Step.handler_lock a b) = ground (arith, a, b)
step-steps_left res m m' (Step.call a) = ground (arith, a)
step-steps_left res m m' (Step.handler_unlock a) = ground (arith, a)
step-steps_left res m m' (Step.wake a b) = absurd (ground (arith, b))
step-steps_left res m m' (Step.cond_signal a) = elim (signal-cases m.thread_pc) [
  | inl e ↦ ground (arith, a, e)
  | inr e ↦ rw e (ground (arith, a))
]

Reach-steps_left : (res : Bool) (n : ℕ) (m : Message) → Reach false res n m → n + steps_left m ≤ 10
Reach-steps_left res n m Reach.start = omega arith
Reach-steps_left res n m (Reach.later {n = k} {m = m1} r s) =
    omega (arith, Reach-steps_left res k m1 r, step-steps_left res m1 m s)

abbrev pub IsOver : Message → Type 0
IsOver m = (m.thread_pc ≡ returned) × (m.handler_pc ≡ left) × (m.mutex ≡ none)

abbrev CanStep : (res : Bool) → Message → Type 0
CanStep res m = (m' : Message) × Step false res m m'

-- While the thread waits, the handler has a step.
while_waiting :
    (res : Bool) (m : Message) (h : HandlerPc)
    → m.thread_pc ≡ waiting
    → m.handler_pc ≡ h
    → IsOrderly res m
    → CanStep res m
while_waiting res m not_called e eh i = (_, Step.dispatch eh (ground (arith, e, eh)))
while_waiting res m entering e eh i = (_, Step.handler_lock eh (ground (arith, e, eh)))
while_waiting res m calling e eh i = (_, Step.call eh)
while_waiting res m signalling e eh i = (_, Step.cond_signal eh)
while_waiting res m leaving e eh i = (_, Step.handler_unlock eh)
while_waiting res m left e eh i = absurd (ground (arith, e, eh))

while_woken :
    (res : Bool) (m : Message) (h : HandlerPc)
    → m.thread_pc ≡ woken
    → m.handler_pc ≡ h
    → IsOrderly res m
    → CanStep res m
while_woken res m not_called e eh i = absurd (ground (arith, e, eh))
while_woken res m entering e eh i = absurd (ground (arith, e, eh))
while_woken res m calling e eh i = absurd (ground (arith, e, eh))
while_woken res m signalling e eh i = absurd (ground (arith, e, eh))
while_woken res m leaving e eh i = (_, Step.handler_unlock eh)
while_woken res m left e eh i = (_, Step.relock e (ground (arith, e, eh)))

progress :
    (res : Bool) (m : Message) (t : ThreadPc)
    → m.thread_pc ≡ t
    → IsOrderly res m
    → IsOver m ⊎ CanStep res m
progress res m locking e i = inr (_, Step.lock e (ground (arith, e)))
progress res m queueing e i = inr (_, Step.queue e)
progress res m before_wait e i = inr (_, Step.wait e)
progress res m waiting e i = inr (while_waiting res m m.handler_pc e refl i)
progress res m woken e i = inr (while_woken res m m.handler_pc e refl i)
progress res m unlocking e i = inr (_, Step.unlock e)
progress res m returned e i = inl (e, ground (arith, e), ground (arith, e))

-- What the thread returns with, once it has.
result-IsOrderly :
    (res : Bool) (m : Message)
    → IsOrderly res m
    → m.thread_pc ≡ returned
    → (result m ≡ res) × (m.handler_pc ≡ left) × (m.queued ≡ false)
unfolding result
result-IsOrderly res m i e = (ground (arith, e), ground (arith, e), ground (arith, e))

-- Where g_cond_wait returns only when it is signalled: in no order of steps is the signal lost or
-- do the threads block each other. As long as they are not both at their end, one of them has a
-- step, and after at most 10 steps they are. When gs_auth_run_message_handler returns, it returns
-- what the callback has returned, and the queued handler has come to its end, so it does not use
-- the thread's data any more.
pub Reach-Ends :
    (n : ℕ) (res : Bool) (m : Message)
    → Reach false res n m
    → (n ≤ 10)
      × (IsOver m ⊎ ((m' : Message) × Step false res m m'))
      × (m.thread_pc ≡ returned → (result m ≡ res) × (m.handler_pc ≡ left) × (m.queued ≡ false))
Reach-Ends n res m r =
    let i = Reach-IsOrderly res n m r in
    (
      omega (arith, Reach-steps_left res n m r),
      progress res m m.thread_pc refl i,
      λ e. result-IsOrderly res m i e,
    )

-- Where g_cond_wait may return without a signal, which its documentation allows: whatever the
-- callback would return, gs_auth_run_message_handler can return FALSE, which interrupts the stack,
-- before the handler was called, and with the handler still queued.
pub spurious-result :
    (res : Bool)
    → (m : Message) × Reach true res 6 m
      × (m.thread_pc ≡ returned)
      × (result m ≡ false)
      × (m.handler_pc ≡ not_called)
      × (m.queued ≡ true)
unfolding result
spurious-result res = (
  _,
  Reach.later
      (Reach.later
        (Reach.later
          (Reach.later
            (Reach.later (Reach.later Reach.start (Step.lock refl refl)) (Step.queue refl))
            (Step.wait refl))
          (Step.wake refl refl))
        (Step.relock refl refl))
      (Step.unlock refl),
  refl,
  refl,
  refl,
  refl,
)

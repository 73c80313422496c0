-- ===== src/Crash/Notify/Always.antt =====
-- What the crashing thread of nativecrashcatcher.cpp does in its order, also where waits end without a
-- signal.
use xapm.Base.{◌≤◌, ℕ, ◌≡◌, ◌≢◌, Bool, true, arith}
use xapm.Crash.Notify.{
  HandlerAt, entering, pausing, assembling, notifying, before_wait, waiting, executing, finishing,
  exited, CleanupAt, World, crash, wake_handler, Step, enter, stop, go_on, refuse, assemble, notify,
  handler_waits, execute_old, finish, cleanup_waits, call_back, wake, Wake, handler_wakes,
  cleanup_wakes, Run, still, does, wakes,
}

-- What has been done when the handler is at a point, whatever the clean-up thread does.
unfoldable pub HandlerDid : HandlerAt → ℕ → Bool → ℕ → Type 0
HandlerDid entering g a n = (g ≡ 0) × (n ≡ 0)
HandlerDid pausing g a n = ⊥
HandlerDid assembling g a n = n ≡ 0
HandlerDid notifying g a n = (a ≡ true) × (n ≡ 0)
HandlerDid before_wait g a n = (a ≡ true) × (n ≡ 0)
HandlerDid waiting g a n = (a ≡ true) × (n ≡ 0)
HandlerDid executing g a n = (a ≡ true) × (n ≡ 0)
HandlerDid finishing g a n = (a ≡ true) × (n ≡ 1)
HandlerDid (exited status) g a n = (status ≡ 55) × (g ≡ 2) × (a ≡ true) × (n ≡ 1)

unfoldable pub Did : World → Type 0
unfolding HandlerDid
Did w = HandlerDid w.handler w.handle_sig_state w.assembled w.old_called

wake_handler-HandlerDid :
    (h : HandlerAt) (g : ℕ) (a : Bool) (n : ℕ)
    → HandlerDid h g a n
    → HandlerDid (wake_handler h) g a n
unfolding HandlerDid wake_handler
wake_handler-HandlerDid entering g a n p = p
wake_handler-HandlerDid pausing g a n p = p
wake_handler-HandlerDid assembling g a n p = p
wake_handler-HandlerDid notifying g a n p = p
wake_handler-HandlerDid before_wait g a n p = p
wake_handler-HandlerDid waiting g a n p = p
wake_handler-HandlerDid executing g a n p = p
wake_handler-HandlerDid finishing g a n p = p
wake_handler-HandlerDid (exited s) g a n p = p

Step-Did : (u v : World) → Step u v → Did u → Did v
unfolding Did HandlerDid
Step-Did _ _ (enter c a b n) p = ground arith
Step-Did _ _ (stop c a b n) p = ground arith
Step-Did _ _ (go_on c g a b n) p = absurd p
Step-Did _ _ (refuse c a b n) p = ground arith
Step-Did _ _ (assemble c g a b n) p = ground arith
Step-Did _ _ (notify c g a b n) p = p
Step-Did _ _ (handler_waits c g a b n) p = p
Step-Did _ _ (execute_old c g a b n) p = ground arith
Step-Did _ _ (finish c g a b n) p = ground arith
Step-Did _ _ (cleanup_waits h g a b n) p = p
Step-Did _ _ (call_back h g a b n) p = p
Step-Did _ _ (wake h g a b n) p = wake_handler-HandlerDid h g a n p

Wake-Did : (u v : World) → Wake u v → Did u → Did v
unfolding Did HandlerDid
Wake-Did _ _ (handler_wakes c g a b n) p = p
Wake-Did _ _ (cleanup_wakes h g a b n) p = p

pub Run-Did : (u w : World) → Run u w → Did u → Did w
Run-Did _ _ (still w) p = p
Run-Did _ _ (does u v w s r) p = Run-Did v w r (Step-Did u v s p)
Run-Did _ _ (wakes u v w s r) p = Run-Did v w r (Wake-Did u v s p)

pub crash-Did : (c : CleanupAt) → Did (crash c)
unfolding Did HandlerDid
crash-Did c = ground arith

-- The old handlers were called at most once, only behind the text of the crash, and before an exit,
-- which is with 55.
pub CallsOnce : World → Type 0
CallsOnce w =
    (w.old_called ≤ 1)
    × (w.old_called ≢ 0 → w.assembled ≡ true)
    × ((status : ℕ) → w.handler ≡ exited status → (status ≡ 55) × (w.old_called ≡ 1))

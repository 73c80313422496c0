-- ===== src/Crash/Notify/Order.antt =====
-- In which order the crashing thread and the clean-up thread of nativecrashcatcher.cpp do their work.
use xapm.Base.{ℕ, suc, ◌≡◌, ◌≢◌, Bool, true, false, arith}
use xapm.Crash.Notify.{
  HandlerAt, entering, pausing, assembling, notifying, before_wait, waiting, executing, finishing,
  exited, CleanupAt, starting, cleanup_waiting, calling_back, waking, returned, World, world, crash,
  wake_cleanup, wake_handler, Step, enter, stop, go_on, refuse, assemble, notify, handler_waits,
  execute_old, finish, cleanup_waits, call_back, wake, Reach, here, there,
}

-- What has been done when the handler is at a point, and how often the old handlers were called.
unfoldable pub HandlerOk : HandlerAt → ℕ → Bool → Bool → ℕ → Type 0
HandlerOk entering g a b n = (g ≡ 0) × (b ≡ false) × (n ≡ 0)
HandlerOk pausing g a b n = ⊥
HandlerOk assembling g a b n = (b ≡ false) × (n ≡ 0)
HandlerOk notifying g a b n = (a ≡ true) × (b ≡ false) × (n ≡ 0)
HandlerOk before_wait g a b n = (a ≡ true) × (n ≡ 0)
HandlerOk waiting g a b n = (a ≡ true) × (n ≡ 0)
HandlerOk executing g a b n = (a ≡ true) × (b ≡ true) × (n ≡ 0)
HandlerOk finishing g a b n = (a ≡ true) × (b ≡ true) × (n ≡ 1)
HandlerOk (exited status) g a b n = (status ≡ 55) × (g ≡ 2) × (a ≡ true) × (b ≡ true) × (n ≡ 1)

-- The clean-up thread is behind its wait only where the handler has notified it.
unfoldable pub BothOk : HandlerAt → CleanupAt → Bool → Type 0
BothOk h starting b = b ≡ false
BothOk h cleanup_waiting b = b ≡ false
BothOk before_wait calling_back b = b ≡ false
BothOk waiting calling_back b = b ≡ false
BothOk h calling_back b = ⊥
BothOk before_wait waking b = b ≡ true
BothOk waiting waking b = b ≡ true
BothOk h waking b = ⊥
BothOk entering returned b = ⊥
BothOk assembling returned b = ⊥
BothOk notifying returned b = ⊥
BothOk h returned b = b ≡ true

-- The invariant of a crash.
unfoldable pub IsOrdered : World → Type 0
IsOrdered w =
    HandlerOk w.handler w.handle_sig_state w.assembled w.called_back w.old_called
    × BothOk w.handler w.cleanup w.called_back

-- Each step keeps the invariant, wherever the other thread is.
module _ (a b : Bool) (n : ℕ) where
  enter-IsOrdered :
      (c : CleanupAt)
      → IsOrdered (world entering c 0 a b n)
      → IsOrdered (world assembling c 1 a b n)
  unfolding IsOrdered HandlerOk BothOk
  enter-IsOrdered starting (p, q) = ground arith
  enter-IsOrdered cleanup_waiting (p, q) = ground arith
  enter-IsOrdered calling_back (p, q) = ground arith
  enter-IsOrdered waking (p, q) = ground arith
  enter-IsOrdered returned (p, q) = ground arith

  assemble-IsOrdered :
      (c : CleanupAt) (g : ℕ)
      → IsOrdered (world assembling c g a b n)
      → IsOrdered (world notifying c g true b n)
  unfolding IsOrdered HandlerOk BothOk
  assemble-IsOrdered starting g (p, q) = ground arith
  assemble-IsOrdered cleanup_waiting g (p, q) = ground arith
  assemble-IsOrdered calling_back g (p, q) = ground arith
  assemble-IsOrdered waking g (p, q) = ground arith
  assemble-IsOrdered returned g (p, q) = ground arith

  notify-IsOrdered :
      (c : CleanupAt) (g : ℕ)
      → IsOrdered (world notifying c g a b n)
      → IsOrdered (world before_wait (wake_cleanup c) g a b n)
  unfolding IsOrdered HandlerOk BothOk wake_cleanup
  notify-IsOrdered starting g (p, q) = ground arith
  notify-IsOrdered cleanup_waiting g (p, q) = ground arith
  notify-IsOrdered calling_back g (p, q) = ground arith
  notify-IsOrdered waking g (p, q) = ground arith
  notify-IsOrdered returned g (p, q) = ground arith

  handler_waits-IsOrdered :
      (c : CleanupAt) (g : ℕ)
      → IsOrdered (world before_wait c g a b n)
      → IsOrdered (world waiting c g a b n)
  unfolding IsOrdered HandlerOk BothOk
  handler_waits-IsOrdered starting g (p, q) = ground arith
  handler_waits-IsOrdered cleanup_waiting g (p, q) = ground arith
  handler_waits-IsOrdered calling_back g (p, q) = ground arith
  handler_waits-IsOrdered waking g (p, q) = ground arith
  handler_waits-IsOrdered returned g (p, q) = ground arith

  execute_old-IsOrdered :
      (c : CleanupAt) (g : ℕ)
      → IsOrdered (world executing c g a b n)
      → IsOrdered (world finishing c g a b (suc n))
  unfolding IsOrdered HandlerOk BothOk
  execute_old-IsOrdered starting g (p, q) = ground arith
  execute_old-IsOrdered cleanup_waiting g (p, q) = ground arith
  execute_old-IsOrdered calling_back g (p, q) = ground arith
  execute_old-IsOrdered waking g (p, q) = ground arith
  execute_old-IsOrdered returned g (p, q) = ground arith

  finish-IsOrdered :
      (c : CleanupAt) (g : ℕ)
      → IsOrdered (world finishing c g a b n)
      → IsOrdered (world (exited 55) c 2 a b n)
  unfolding IsOrdered HandlerOk BothOk
  finish-IsOrdered starting g (p, q) = ground arith
  finish-IsOrdered cleanup_waiting g (p, q) = ground arith
  finish-IsOrdered calling_back g (p, q) = ground arith
  finish-IsOrdered waking g (p, q) = ground arith
  finish-IsOrdered returned g (p, q) = ground arith

  cleanup_waits-IsOrdered :
      (h : HandlerAt) (g : ℕ)
      → IsOrdered (world h starting g a b n)
      → IsOrdered (world h cleanup_waiting g a b n)
  unfolding IsOrdered HandlerOk BothOk
  cleanup_waits-IsOrdered entering g (p, q) = ground arith
  cleanup_waits-IsOrdered pausing g (p, q) = absurd p
  cleanup_waits-IsOrdered assembling g (p, q) = ground arith
  cleanup_waits-IsOrdered notifying g (p, q) = ground arith
  cleanup_waits-IsOrdered before_wait g (p, q) = ground arith
  cleanup_waits-IsOrdered waiting g (p, q) = ground arith
  cleanup_waits-IsOrdered executing g (p, q) = ground arith
  cleanup_waits-IsOrdered finishing g (p, q) = ground arith
  cleanup_waits-IsOrdered (exited s) g (p, q) = ground arith

  call_back-IsOrdered :
      (h : HandlerAt) (g : ℕ)
      → IsOrdered (world h calling_back g a b n)
      → IsOrdered (world h waking g a true n)
  unfolding IsOrdered HandlerOk BothOk
  call_back-IsOrdered entering g (p, q) = ground arith
  call_back-IsOrdered pausing g (p, q) = absurd p
  call_back-IsOrdered assembling g (p, q) = ground arith
  call_back-IsOrdered notifying g (p, q) = ground arith
  call_back-IsOrdered before_wait g (p, q) = ground arith
  call_back-IsOrdered waiting g (p, q) = ground arith
  call_back-IsOrdered executing g (p, q) = ground arith
  call_back-IsOrdered finishing g (p, q) = ground arith
  call_back-IsOrdered (exited s) g (p, q) = ground arith

  wake-IsOrdered :
      (h : HandlerAt) (g : ℕ)
      → IsOrdered (world h waking g a b n)
      → IsOrdered (world (wake_handler h) returned g a b n)
  unfolding IsOrdered HandlerOk BothOk wake_handler
  wake-IsOrdered entering g (p, q) = ground arith
  wake-IsOrdered pausing g (p, q) = absurd p
  wake-IsOrdered assembling g (p, q) = ground arith
  wake-IsOrdered notifying g (p, q) = ground arith
  wake-IsOrdered before_wait g (p, q) = ground arith
  wake-IsOrdered waiting g (p, q) = ground arith
  wake-IsOrdered executing g (p, q) = ground arith
  wake-IsOrdered finishing g (p, q) = ground arith
  wake-IsOrdered (exited s) g (p, q) = ground arith

refuse-IsOrdered :
    (c : CleanupAt) (a b : Bool) (n : ℕ)
    → IsOrdered (world entering c 2 a b n)
    → IsOrdered (world (exited 66) c 2 a b n)
unfolding IsOrdered HandlerOk
refuse-IsOrdered c a b n (p, q) = ground arith

stop-IsOrdered :
    (c : CleanupAt) (a b : Bool) (n : ℕ)
    → IsOrdered (world entering c 1 a b n)
    → IsOrdered (world pausing c 1 a b n)
unfolding IsOrdered HandlerOk
stop-IsOrdered c a b n (p, q) = ground arith

go_on-IsOrdered :
    (c : CleanupAt) (g : ℕ) (a b : Bool) (n : ℕ)
    → IsOrdered (world pausing c g a b n)
    → IsOrdered (world assembling c 1 a b n)
unfolding IsOrdered HandlerOk
go_on-IsOrdered c g a b n (p, q) = absurd p

Step-IsOrdered : (u v : World) → Step u v → IsOrdered u → IsOrdered v
Step-IsOrdered _ _ (enter c a b n) o = enter-IsOrdered a b n c o
Step-IsOrdered _ _ (stop c a b n) o = stop-IsOrdered c a b n o
Step-IsOrdered _ _ (go_on c g a b n) o = go_on-IsOrdered c g a b n o
Step-IsOrdered _ _ (refuse c a b n) o = refuse-IsOrdered c a b n o
Step-IsOrdered _ _ (assemble c g a b n) o = assemble-IsOrdered a b n c g o
Step-IsOrdered _ _ (notify c g a b n) o = notify-IsOrdered a b n c g o
Step-IsOrdered _ _ (handler_waits c g a b n) o = handler_waits-IsOrdered a b n c g o
Step-IsOrdered _ _ (execute_old c g a b n) o = execute_old-IsOrdered a b n c g o
Step-IsOrdered _ _ (finish c g a b n) o = finish-IsOrdered a b n c g o
Step-IsOrdered _ _ (cleanup_waits h g a b n) o = cleanup_waits-IsOrdered a b n h g o
Step-IsOrdered _ _ (call_back h g a b n) o = call_back-IsOrdered a b n h g o
Step-IsOrdered _ _ (wake h g a b n) o = wake-IsOrdered a b n h g o

pub Reach-IsOrdered : (u w : World) → Reach u w → IsOrdered u → IsOrdered w
Reach-IsOrdered _ _ (here w) p = p
Reach-IsOrdered _ _ (there u v w s r) p = Reach-IsOrdered v w r (Step-IsOrdered u v s p)

-- The clean-up thread has not been notified yet.
unfoldable pub is_early : CleanupAt → Bool
is_early starting = true
is_early cleanup_waiting = true
is_early c = false

pub crash-IsOrdered : (c : CleanupAt) → is_early c ≡ true → IsOrdered (crash c)
unfolding IsOrdered HandlerOk BothOk is_early
crash-IsOrdered starting e = ground arith
crash-IsOrdered cleanup_waiting e = ground arith
crash-IsOrdered calling_back e = cc
crash-IsOrdered waking e = cc
crash-IsOrdered returned e = cc

-- Where the old handlers were called, the UI was called back before.
pub IsOrdered-called_back : (w : World) → IsOrdered w → w.old_called ≢ 0 → w.called_back ≡ true
unfolding IsOrdered HandlerOk
IsOrdered-called_back w p ne =
    at_handler w.handler w.handle_sig_state w.assembled w.called_back w.old_called p.0 ne
  where
    at_handler :
        (h : HandlerAt) (g : ℕ) (a b : Bool) (n : ℕ) → HandlerOk h g a b n → n ≢ 0 → b ≡ true
    at_handler entering g a b n p ne = ground arith
    at_handler pausing g a b n p ne = absurd p
    at_handler assembling g a b n p ne = ground arith
    at_handler notifying g a b n p ne = ground arith
    at_handler before_wait g a b n p ne = ground arith
    at_handler waiting g a b n p ne = ground arith
    at_handler executing g a b n p ne = ground arith
    at_handler finishing g a b n p ne = ground arith
    at_handler (exited s) g a b n p ne = ground arith

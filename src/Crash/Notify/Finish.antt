-- ===== src/Crash/Notify/Finish.antt =====
-- Whether the crashing thread and the clean-up thread of nativecrashcatcher.cpp finish.
use mathlib.Core.Path.{subst}
use xapm.Base.{ℕ, zero, suc, ◌≤◌, ◌≡◌, ◌≢◌, refl, sym, ap, Bool, true, false, ◌&&◌, arith}
use xapm.Crash.Notify.{
  HandlerAt, entering, pausing, assembling, notifying, before_wait, waiting, executing, finishing,
  exited, CleanupAt, starting, cleanup_waiting, calling_back, waking, returned, World, world, crash,
  wake_cleanup, wake_handler, Step, enter, stop, go_on, refuse, assemble, notify, handler_waits,
  execute_old, finish, cleanup_waits, call_back, wake, Wake, handler_wakes, cleanup_wakes, Reach,
  here, there, Run, still, does, wakes, is_waiting, cleanup_is_waiting, missed, lost_by, lost,
}
use xapm.Crash.Notify.Order.{is_early}
use xapm.Crash.Notify.Always.{HandlerDid, Did, Run-Did, crash-Did}

pub is_quiet : CleanupAt → Bool
is_quiet cleanup_waiting = true
is_quiet returned = true
is_quiet c = false

-- The handler waits, and nobody is left to wake it.
pub is_hung : HandlerAt → CleanupAt → Bool
is_hung h c = is_waiting h && is_quiet c

-- Before the handler's signal the clean-up thread has not returned, and behind it the clean-up thread
-- is on its way to its own: as long as no signal was lost.
NotReturned : CleanupAt → Type 0
NotReturned returned = ⊥
NotReturned starting = Unit {0}
NotReturned cleanup_waiting = Unit {0}
NotReturned calling_back = Unit {0}
NotReturned waking = Unit {0}

IsAwake : CleanupAt → Type 0
IsAwake calling_back = Unit {0}
IsAwake waking = Unit {0}
IsAwake starting = ⊥
IsAwake cleanup_waiting = ⊥
IsAwake returned = ⊥

Caught : HandlerAt → CleanupAt → Type 0
Caught entering c = NotReturned c
Caught pausing c = NotReturned c
Caught assembling c = NotReturned c
Caught notifying c = NotReturned c
Caught before_wait c = IsAwake c
Caught waiting c = IsAwake c
Caught executing c = Unit {0}
Caught finishing c = Unit {0}
Caught (exited status) c = Unit {0}

notify-Caught :
    (c : CleanupAt) → missed (cleanup_is_waiting c) ≡ 0 → Caught before_wait (wake_cleanup c)
unfolding Caught IsAwake wake_cleanup
notify-Caught starting e = absurd (omega arith)
notify-Caught cleanup_waiting e = tt
notify-Caught calling_back e = absurd (omega arith)
notify-Caught waking e = absurd (omega arith)
notify-Caught returned e = absurd (omega arith)

wake-Caught : (h : HandlerAt) → missed (is_waiting h) ≡ 0 → Caught (wake_handler h) returned
unfolding Caught wake_handler
wake-Caught entering e = absurd (omega arith)
wake-Caught pausing e = absurd (omega arith)
wake-Caught assembling e = absurd (omega arith)
wake-Caught notifying e = absurd (omega arith)
wake-Caught before_wait e = absurd (omega arith)
wake-Caught waiting e = tt
wake-Caught executing e = absurd (omega arith)
wake-Caught finishing e = absurd (omega arith)
wake-Caught (exited s) e = absurd (omega arith)

-- The clean-up thread where it is awake has not hurt anything, and neither has its wait.
awake-Caught : (h : HandlerAt) → (c : CleanupAt) → NotReturned c → IsAwake c → Caught h c
unfolding Caught
awake-Caught entering c p q = p
awake-Caught pausing c p q = p
awake-Caught assembling c p q = p
awake-Caught notifying c p q = p
awake-Caught before_wait c p q = q
awake-Caught waiting c p q = q
awake-Caught executing c p q = tt
awake-Caught finishing c p q = tt
awake-Caught (exited s) c p q = tt

cleanup_waits-Caught : (h : HandlerAt) → Caught h starting → Caught h cleanup_waiting
unfolding Caught NotReturned IsAwake
cleanup_waits-Caught entering p = tt
cleanup_waits-Caught pausing p = tt
cleanup_waits-Caught assembling p = tt
cleanup_waits-Caught notifying p = tt
cleanup_waits-Caught before_wait p = absurd p
cleanup_waits-Caught waiting p = absurd p
cleanup_waits-Caught executing p = tt
cleanup_waits-Caught finishing p = tt
cleanup_waits-Caught (exited s) p = tt

Step-Caught :
    (u v : World) (s : Step u v)
    → lost_by u v s ≡ 0
    → Caught u.handler u.cleanup
    → Caught v.handler v.cleanup
unfolding lost_by Caught NotReturned IsAwake
Step-Caught _ _ (enter c a b n) e p = p
Step-Caught _ _ (stop c a b n) e p = p
Step-Caught _ _ (go_on c g a b n) e p = p
Step-Caught _ _ (refuse c a b n) e p = tt
Step-Caught _ _ (assemble c g a b n) e p = p
Step-Caught _ _ (notify c g a b n) e p = notify-Caught c e
Step-Caught _ _ (handler_waits c g a b n) e p = p
Step-Caught _ _ (execute_old c g a b n) e p = tt
Step-Caught _ _ (finish c g a b n) e p = tt
Step-Caught _ _ (cleanup_waits h g a b n) e p = cleanup_waits-Caught h p
Step-Caught _ _ (call_back h g a b n) e p = awake-Caught h waking tt tt
Step-Caught _ _ (wake h g a b n) e p = wake-Caught h e

Wake-Caught : (u v : World) → Wake u v → Caught u.handler u.cleanup → Caught v.handler v.cleanup
unfolding Caught NotReturned IsAwake
Wake-Caught _ _ (handler_wakes c g a b n) p = tt
Wake-Caught _ _ (cleanup_wakes h g a b n) p = awake-Caught h calling_back tt tt

Run-Caught :
    (u w : World) (r : Run u w)
    → lost u w r ≡ 0
    → Caught u.handler u.cleanup
    → Caught w.handler w.cleanup
unfolding lost
Run-Caught _ _ (still w) e p = p
Run-Caught _ _ (does u v w s r) e p =
    Run-Caught v w r (omega arith) (Step-Caught u v s (omega arith) p)
Run-Caught _ _ (wakes u v w s r) e p = Run-Caught v w r e (Wake-Caught u v s p)

crash-Caught : (c : CleanupAt) → is_early c ≡ true → Caught entering c
unfolding Caught NotReturned is_early
crash-Caught starting e = tt
crash-Caught cleanup_waiting e = tt
crash-Caught calling_back e = cc
crash-Caught waking e = cc
crash-Caught returned e = cc

-- The handler has exited, one of the threads can go on, or the handler is hung and a signal was lost.
pub data Progress (lost_signals : ℕ) (w : World) : Type 0 where
  has_exited : w.handler ≡ exited 55 → Progress lost_signals w
  goes_on : (v : World) → Step w v → Progress lost_signals w
  hung : is_hung w.handler w.cleanup ≡ true → 1 ≤ lost_signals → Progress lost_signals w

hung-Progress :
    (k : ℕ) (c : CleanupAt) (g : ℕ) (a b : Bool) (n : ℕ)
    → is_hung waiting c ≡ true
    → ¬ IsAwake c
    → (k ≡ 0 → Caught waiting c)
    → Progress k (world waiting c g a b n)
unfolding Caught
hung-Progress zero c g a b n e asleep p = absurd (asleep (p refl))
hung-Progress (suc k) c g a b n e asleep p = hung e (omega arith)

state-Progress :
    (k : ℕ) (h : HandlerAt) (c : CleanupAt) (g : ℕ) (a b : Bool) (n : ℕ)
    → Did (world h c g a b n)
    → (k ≡ 0 → Caught h c)
    → Progress k (world h c g a b n)
unfolding Did HandlerDid is_hung is_quiet IsAwake
state-Progress k entering c g a b n (e, n0) q =
    subst (λ (t : ℕ). Progress k (world entering c t a b n)) (sym e) (goes_on _ (enter c a b n))
state-Progress k pausing c g a b n p q = absurd p
state-Progress k assembling c g a b n p q = goes_on _ (assemble c g a b n)
state-Progress k notifying c g a b n p q = goes_on _ (notify c g a b n)
state-Progress k before_wait c g a b n p q = goes_on _ (handler_waits c g a b n)
state-Progress k waiting starting g a b n p q = goes_on _ (cleanup_waits waiting g a b n)
state-Progress k waiting cleanup_waiting g a b n p q =
    hung-Progress k cleanup_waiting g a b n refl (λ (z : ⊥). z) q
state-Progress k waiting calling_back g a b n p q = goes_on _ (call_back waiting g a b n)
state-Progress k waiting waking g a b n p q = goes_on _ (wake waiting g a b n)
state-Progress k waiting returned g a b n p q =
    hung-Progress k returned g a b n refl (λ (z : ⊥). z) q
state-Progress k executing c g a b n p q = goes_on _ (execute_old c g a b n)
state-Progress k finishing c g a b n p q = goes_on _ (finish c g a b n)
state-Progress k (exited s) c g a b n p q = has_exited (ap exited p.0)

-- In every state that a crash can reach, also where waits end without a signal, when the clean-up
-- thread is in its wait or in front of it at first: the handler has exited with 55, or one of the
-- threads can go on with the code, or the handler waits for a clean-up thread that waits itself or has
-- returned. That last happens only where a signal was lost: one that a thread sent while the other was
-- not in its wait.
pub Run-Progress :
    (c : CleanupAt) (w : World)
    → is_early c ≡ true
    → (r : Run (crash c) w) → Progress (lost (crash c) w r) w
Run-Progress c w e r =
    state-Progress (lost (crash c) w r) w.handler w.cleanup w.handle_sig_state w.assembled
      w.called_back w.old_called (Run-Did (crash c) w r (crash-Did c))
      (λ (z : lost (crash c) w r ≡ 0). Run-Caught (crash c) w r z (crash-Caught c e))

-- A hung crash stays as it is.
hung-stays : (u v : World) → Step u v → is_hung u.handler u.cleanup ≢ true
unfolding is_hung is_quiet
hung-stays _ _ (enter c a b n) e = cc
hung-stays _ _ (stop c a b n) e = cc
hung-stays _ _ (go_on c g a b n) e = cc
hung-stays _ _ (refuse c a b n) e = cc
hung-stays _ _ (assemble c g a b n) e = cc
hung-stays _ _ (notify c g a b n) e = cc
hung-stays _ _ (handler_waits c g a b n) e = cc
hung-stays _ _ (execute_old c g a b n) e = cc
hung-stays _ _ (finish c g a b n) e = cc
hung-stays _ _ (cleanup_waits h g a b n) e = ground arith
hung-stays _ _ (call_back h g a b n) e = ground arith
hung-stays _ _ (wake h g a b n) e = ground arith

-- From every point up to its wait, the clean-up thread and the handler can run into a state in which
-- the old handlers were not called and no step of the code is left: a signal of the condition variable
-- that comes before the other thread waits is lost.
pub crash-can_hang :
    (c : CleanupAt)
    → is_early c ≡ true
    → (w : World) × Reach (crash c) w × (w.old_called ≡ 0) × ((v : World) → ¬ Step w v)
unfolding is_early wake_cleanup wake_handler is_hung is_quiet
crash-can_hang starting e = (
  world waiting cleanup_waiting 1 true false 0,
  there _ _ _ (enter starting false false 0) (
      there _ _ _ (assemble starting 1 false false 0) (
        there _ _ _ (notify starting 1 true false 0) (
          there _ _ _ (cleanup_waits before_wait 1 true false 0)
            (there _ _ _ (handler_waits cleanup_waiting 1 true false 0) (here _))))),
  refl,
  (λ v s. hung-stays _ v s refl),
)
crash-can_hang cleanup_waiting e = (
  world waiting returned 1 true true 0,
  there _ _ _ (enter cleanup_waiting false false 0) (
      there _ _ _ (assemble cleanup_waiting 1 false false 0) (
        there _ _ _ (notify cleanup_waiting 1 true false 0) (
          there _ _ _ (call_back before_wait 1 true false 0) (
            there _ _ _ (wake before_wait 1 true true 0)
              (there _ _ _ (handler_waits returned 1 true true 0) (here _)))))),
  refl,
  (λ v s. hung-stays _ v s refl),
)
crash-can_hang calling_back e = cc
crash-can_hang waking e = cc
crash-can_hang returned e = cc

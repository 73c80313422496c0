-- ===== src/Crash/Notify.antt =====
-- The crashing thread and the clean-up thread of nativecrashcatcher.cpp, which tell each other by one
-- condition variable that each is done. A signal reaches who waits at that time, or nobody; and a wait
-- can end without a signal.
pub mod Order
pub mod Always
pub mod Finish
use xapm.Base.{ℕ, zero, suc, ◌+◌, ◌≡◌, Bool, true, false, Option, none, some, ◌⊎◌}

-- How far `sigHandler` is on the crashing thread.
pub data HandlerAt : Type 0 where
  entering : HandlerAt
  pausing : HandlerAt
  assembling : HandlerAt
  notifying : HandlerAt
  before_wait : HandlerAt
  waiting : HandlerAt
  executing : HandlerAt
  finishing : HandlerAt
  exited : (status : ℕ) → HandlerAt

-- How far `cleanup` is on its thread.
pub data CleanupAt : Type 0 where
  starting : CleanupAt
  cleanup_waiting : CleanupAt
  calling_back : CleanupAt
  waking : CleanupAt
  returned : CleanupAt

-- What the two threads share, and what they have done: the text of `sigdetail` is assembled, the UI
-- was called back, the old handlers were called.
pub record World : Type 0 where
  pub handler : HandlerAt
  pub cleanup : CleanupAt
  pub handle_sig_state : ℕ
  pub assembled : Bool
  pub called_back : Bool
  pub old_called : ℕ

abbrev pub world : HandlerAt → CleanupAt → ℕ → Bool → Bool → ℕ → World
world h c g a b n = record {
  handler = h;
  cleanup = c;
  handle_sig_state = g;
  assembled = a;
  called_back = b;
  old_called = n;
}

-- A crash, at whatever point the clean-up thread is.
abbrev pub crash : CleanupAt → World
crash c = world entering c 0 false false 0

-- pthread_cond_signal of the handler: the clean-up thread goes on if it waits.
unfoldable pub wake_cleanup : CleanupAt → CleanupAt
wake_cleanup cleanup_waiting = calling_back
wake_cleanup c = c

-- pthread_cond_signal of the clean-up thread: the handler goes on if it waits.
pub wake_handler : HandlerAt → HandlerAt
wake_handler waiting = executing
wake_handler h = h

-- One step of one of the threads, as the code makes it.
pub data Step : World → World → Type 0 where
  -- `if (handleSigState == 1) ... else if (handleSigState == 2) ...; handleSigState=1`.
  enter :
      (c : CleanupAt) (a b : Bool) (n : ℕ)
      → Step (world entering c 0 a b n) (world assembling c 1 a b n)
  stop :
      (c : CleanupAt) (a b : Bool) (n : ℕ)
      → Step (world entering c 1 a b n) (world pausing c 1 a b n)
  -- `pause` returns behind another signal's handler; no test is made again.
  go_on :
      (c : CleanupAt) (g : ℕ) (a b : Bool) (n : ℕ)
      → Step (world pausing c g a b n) (world assembling c 1 a b n)
  refuse :
      (c : CleanupAt) (a b : Bool) (n : ℕ)
      → Step (world entering c 2 a b n) (world (exited 66) c 2 a b n)
  assemble :
      (c : CleanupAt) (g : ℕ) (a b : Bool) (n : ℕ)
      → Step (world assembling c g a b n) (world notifying c g true b n)
  notify :
      (c : CleanupAt) (g : ℕ) (a b : Bool) (n : ℕ)
      → Step (world notifying c g a b n) (world before_wait (wake_cleanup c) g a b n)
  handler_waits :
      (c : CleanupAt) (g : ℕ) (a b : Bool) (n : ℕ)
      → Step (world before_wait c g a b n) (world waiting c g a b n)
  execute_old :
      (c : CleanupAt) (g : ℕ) (a b : Bool) (n : ℕ)
      → Step (world executing c g a b n) (world finishing c g a b (suc n))
  finish :
      (c : CleanupAt) (g : ℕ) (a b : Bool) (n : ℕ)
      → Step (world finishing c g a b n) (world (exited 55) c 2 a b n)
  cleanup_waits :
      (h : HandlerAt) (g : ℕ) (a b : Bool) (n : ℕ)
      → Step (world h starting g a b n) (world h cleanup_waiting g a b n)
  call_back :
      (h : HandlerAt) (g : ℕ) (a b : Bool) (n : ℕ)
      → Step (world h calling_back g a b n) (world h waking g a true n)
  wake :
      (h : HandlerAt) (g : ℕ) (a b : Bool) (n : ℕ)
      → Step (world h waking g a b n) (world (wake_handler h) returned g a b n)

-- A wait that ends without a signal, as POSIX allows it. Neither of the two is in a loop over a test.
pub data Wake : World → World → Type 0 where
  handler_wakes :
      (c : CleanupAt) (g : ℕ) (a b : Bool) (n : ℕ)
      → Wake (world waiting c g a b n) (world executing c g a b n)
  cleanup_wakes :
      (h : HandlerAt) (g : ℕ) (a b : Bool) (n : ℕ)
      → Wake (world h cleanup_waiting g a b n) (world h calling_back g a b n)

-- Any number of steps of the code, where waits end by signals only.
pub data Reach : World → World → Type 0 where
  here : (w : World) → Reach w w
  there : (u v w : World) → Step u v → Reach v w → Reach u w

-- Any number of steps and of waits that end by themselves.
pub data Run : World → World → Type 0 where
  still : (w : World) → Run w w
  does : (u v w : World) → Step u v → Run v w → Run u w
  wakes : (u v w : World) → Wake u v → Run v w → Run u w

-- How many waits ended without a signal.
unfoldable pub spurious : (u w : World) → Run u w → ℕ
spurious _ _ (still w) = 0
spurious _ _ (does u v w s r) = spurious v w r
spurious _ _ (wakes u v w s r) = suc (spurious v w r)

abbrev pub is_waiting : HandlerAt → Bool
is_waiting waiting = true
is_waiting h = false

abbrev pub cleanup_is_waiting : CleanupAt → Bool
cleanup_is_waiting cleanup_waiting = true
cleanup_is_waiting c = false

abbrev pub missed : Bool → ℕ
missed true = 0
missed false = 1

-- A signal that is sent while the other thread does not wait: 1.
unfoldable pub lost_by : (u v : World) → Step u v → ℕ
lost_by _ _ (notify c g a b n) = missed (cleanup_is_waiting c)
lost_by _ _ (wake h g a b n) = missed (is_waiting h)
lost_by u v s = 0

-- How many signals were lost.
unfoldable pub lost : (u w : World) → Run u w → ℕ
lost _ _ (still w) = 0
lost _ _ (does u v w s r) = lost_by u v s + lost v w r
lost _ _ (wakes u v w s r) = lost v w r

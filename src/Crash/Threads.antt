-- ===== src/Crash/Threads.antt =====
-- Several threads that crash in nativecrashcatcher.cpp: each runs `sigHandler`, and the one variable
-- that is to let only one of them through is tested and set in two steps.
pub mod Past
pub mod Race
mod Runs
use xapm.Base.{ℕ, zero, suc, ◌+◌, ◌≡◌, refl, Bool, true, false, List, [], ◌∷◌, ◌++◌, if◌then◌else◌}

-- How far `sigHandler` is on one thread: `passed` is behind the tests and before the assignment.
pub data ThreadAt : Type 0 where
  outside : ThreadAt
  passed : ThreadAt
  paused : ThreadAt
  writing_text : ThreadAt
  telling : ThreadAt
  awaiting : ThreadAt
  calling_old : ThreadAt
  leaving : ThreadAt
  ended : (status : ℕ) → ThreadAt

-- One step of a thread, with `handleSigState` before and after it. A wait may end at any time:
-- POSIX lets it end without a signal. `pause` returns behind the handler of any other signal, and the
-- thread goes on behind the tests.
pub data ThreadStep : ℕ → ThreadAt → ℕ → ThreadAt → Type 0 where
  pass : ThreadStep 0 outside 0 passed
  stop : ThreadStep 1 outside 1 paused
  go_on : (g : ℕ) → ThreadStep g paused g passed
  leave_at_once : ThreadStep 2 outside 2 (ended 66)
  set_state : (g : ℕ) → ThreadStep g passed 1 writing_text
  write_text : (g : ℕ) → ThreadStep g writing_text g telling
  tell : (g : ℕ) → ThreadStep g telling g awaiting
  wake_up : (g : ℕ) → ThreadStep g awaiting g calling_old
  call_old : (g : ℕ) → ThreadStep g calling_old g leaving
  leave : (g : ℕ) → ThreadStep g leaving 2 (ended 55)

-- The crashing threads, and `handleSigState`.
pub record Crowd : Type 0 where
  pub threads : List ThreadAt
  pub state : ℕ

abbrev pub crowd : List ThreadAt → ℕ → Crowd
crowd threads state = record { threads = threads; state = state }

-- `exit` ends the process, so that a thread that ended is the last one to do a step.
abbrev pub is_ended : ThreadAt → Bool
is_ended (ended status) = true
is_ended outside = false
is_ended passed = false
is_ended paused = false
is_ended writing_text = false
is_ended telling = false
is_ended awaiting = false
is_ended calling_old = false
is_ended leaving = false

pub any_ended : List ThreadAt → Bool
any_ended [] = false
any_ended (t ∷ ts) = if is_ended t then true else any_ended ts

pub data CrowdStep : Crowd → Crowd → Type 0 where
  one_thread :
      (front back : List ThreadAt) (t t' : ThreadAt) (g g' : ℕ)
      → any_ended (front ++ (t ∷ back)) ≡ false
      → ThreadStep g t g' t'
      → CrowdStep (crowd (front ++ (t ∷ back)) g) (crowd (front ++ (t' ∷ back)) g')

pub data CrowdReach : Crowd → Crowd → Type 0 where
  stay : (c : Crowd) → CrowdReach c c
  go : (a b c : Crowd) → CrowdStep a b → CrowdReach b c → CrowdReach a c

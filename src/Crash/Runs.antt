-- ===== src/Crash/Runs.antt =====
-- Runs of nativecrashcatcher.cpp and the theorems at them.
use xapm.Base.{
  ℕ, ◌+◌, ◌≡◌, refl, Bool, true, false, ◌&&◌, none, some, [], arith, ◌==◌, if◌then◌else◌,
}
use xapm.Crash.Handlers.{
  Sigaction, Actions, concerned_signals, exec_old_sig_handlers, setup_sig_handlers, Answers,
  Catcher, init_native_crash_catcher,
}
use xapm.Crash.Handlers.Kept.{
  is_in, old_called, setup_sig_handlers-exec, init_native_crash_catcher-exec,
}
use xapm.Crash.Notify.{
  executing, calling_back, cleanup_waiting, World, world, crash, wake_cleanup, Step, enter,
  assemble, notify, handler_waits, handler_wakes, Reach, Run, still, does, wakes, lost,
}
use xapm.Crash.Notify.Finish.{Progress, Run-Progress, crash-can_hang}
use xapm.Crash.Notify.Order.{is_early}

-- An action for every signal, and one that cannot be changed.
abbrev old_actions : Actions
old_actions signo = record { has_siginfo = true; handler = signo + 100 }

abbrev all_but_trap : ℕ → Bool
all_but_trap signo = if signo == 5 then false else true

abbrev sig_handler : Sigaction
sig_handler = record { has_siginfo = true; handler = 9000 }

setup_sig_handlers-exec_example :
    ((setup_sig_handlers all_but_trap sig_handler old_actions).actions 11 ≡ (
      if is_in 11 concerned_signals
      then (if all_but_trap 11 then sig_handler else old_actions 11)
      else old_actions 11))
    × (exec_old_sig_handlers
          (setup_sig_handlers all_but_trap sig_handler old_actions).old_sig_handlers
          11
          500
          600
        ≡ old_called all_but_trap sig_handler 11 500 600
            (is_in 11 concerned_signals && all_but_trap 11)
            (old_actions 11))
setup_sig_handlers-exec_example =
    setup_sig_handlers-exec all_but_trap sig_handler 11 500 600 old_actions (omega arith)

early : is_early cleanup_waiting ≡ true
unfolding is_early
early = refl

-- The handler waits, and is woken without a signal.
abbrev woken : World
woken = world executing calling_back 1 true false 0

woken-Run : Run (crash cleanup_waiting) woken
unfolding wake_cleanup
woken-Run = does _ _ _ (enter cleanup_waiting false false 0) (
    does _ _ _ (assemble cleanup_waiting 1 false false 0) (
      does _ _ _ (notify cleanup_waiting 1 true false 0) (
        does _ _ _ (handler_waits calling_back 1 true false 0)
          (wakes _ _ _ (handler_wakes calling_back 1 true false 0) (still _)))))

Run-Progress_example : Progress (lost (crash cleanup_waiting) woken woken-Run) woken
Run-Progress_example = Run-Progress cleanup_waiting woken early woken-Run

crash-can_hang_example :
    (w : World) × Reach (crash cleanup_waiting) w × (w.old_called ≡ 0) × ((v : World) → ¬ Step w v)
crash-can_hang_example = crash-can_hang cleanup_waiting early

-- Nothing is initialised.
abbrev fresh : Catcher
fresh = record {
  jvm = false;
  ui_callback = none;
  alt_stack = none;
  signals = record { actions = old_actions; old_sig_handlers = [] };
  cleanup_threads = 0;
}

-- Everything succeeds.
abbrev answers : Answers
answers = record { block = some 700; stack_is_set = true; thread_starts = true }

init_native_crash_catcher-exec_example :
    exec_old_sig_handlers
      (init_native_crash_catcher all_but_trap sig_handler answers 2 (
        init_native_crash_catcher all_but_trap sig_handler answers 1
          fresh)).signals.old_sig_handlers
      11
      500
      600
    ≡ old_called all_but_trap sig_handler 11 500 600
        (is_in 11 concerned_signals && all_but_trap 11)
        (old_actions 11)
init_native_crash_catcher-exec_example =
    init_native_crash_catcher-exec all_but_trap sig_handler 11 500 600 fresh 1 2 answers answers
      refl (omega arith)

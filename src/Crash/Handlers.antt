-- ===== src/Crash/Handlers.antt =====
-- The signal handlers that nativecrashcatcher.cpp installs and the old ones that it keeps.
pub mod Kept
use xapm.Base.{
  ℕ, zero, suc, ◌+◌, ◌≡◌, Bool, true, false, not, List, [], ◌∷◌, map, Option, none, some, Result,
  ok, fault, null_call, ◌==◌, if◌then◌else◌,
}

-- `struct sigaction`: the function and whether SA_SIGINFO is set. Function 0 is SIG_DFL.
pub record Sigaction : Type 0 where
  pub has_siginfo : Bool
  pub handler : ℕ

-- `SigHandler`.
pub record SigHandler : Type 0 where
  pub sn : ℕ
  pub sa : Sigaction

-- The kernel's actions by signal.
abbrev pub Actions : Type 0
Actions = ℕ → Sigaction

-- `concernedSignals`, by the numbers that Linux gives them: SIGABRT, SIGBUS, SIGFPE, SIGILL,
-- SIGSEGV, SIGPIPE, SIGTRAP, SIGSYS, SIGSTKFLT and SIGQUIT.
abbrev pub concerned_signals : List ℕ
concerned_signals = 6 ∷ 7 ∷ 8 ∷ 4 ∷ 11 ∷ 13 ∷ 5 ∷ 31 ∷ 16 ∷ 3 ∷ []

-- An entry of `oldSigHandlers` that nothing was written to.
abbrev pub unset : SigHandler
unset = record { sn = 0; sa = record { has_siginfo = false; handler = 0 } }

-- The actions with one of them changed.
pub set_action : Actions → ℕ → Sigaction → Actions
set_action actions sig act signo = if signo == sig then act else actions signo

-- A call of an old handler: through `sa_sigaction` with the signal, the `siginfo_t` and the context,
-- or through `sa_handler` with the signal alone.
pub data HandlerCall : Type 0 where
  sa_sigaction : (function signo info context : ℕ) → HandlerCall
  sa_handler : (function signo : ℕ) → HandlerCall

-- The call that SA_SIGINFO asks for. A call of SIG_DFL is one of address 0.
pub call_action : Sigaction → ℕ → ℕ → ℕ → Result HandlerCall
call_action sa signo info context =
    if sa.has_siginfo
    then (if sa.handler == 0
        then fault null_call
        else ok (sa_sigaction sa.handler signo info context))
    else (if sa.handler == 0 then fault null_call else ok (sa_handler sa.handler signo))

-- `execOldSigHandlers`: the first entry of that signal is called, `none` where there is none.
pub exec_old_sig_handlers : List SigHandler → ℕ → ℕ → ℕ → Option (Result HandlerCall)
unfolding call_action
exec_old_sig_handlers [] signo info context = none
exec_old_sig_handlers (h ∷ hs) signo info context =
    if h.sn == signo
    then some (call_action h.sa signo info context)
    else exec_old_sig_handlers hs signo info context

-- What `setupSigHandlers` leaves: the kernel's actions and `oldSigHandlers`.
pub record Installed : Type 0 where
  pub actions : Actions
  pub old_sig_handlers : List SigHandler

module _ (can_set : ℕ → Bool) (act : Sigaction) where
  -- The loop of `setupSigHandlers` over the signals; `can_set` is whether sigaction succeeds.
  pub setup_loop : List ℕ → Actions → Installed
  setup_loop [] actions = record { actions = actions; old_sig_handlers = [] }
  setup_loop (sig ∷ sigs) actions =
      let failing = setup_loop sigs actions in
      let done = setup_loop sigs (set_action actions sig act) in
      if not (can_set sig)
      then record failing { old_sig_handlers = unset ∷ failing.old_sig_handlers }
      else record done {
        old_sig_handlers = record { sn = sig; sa = actions sig } ∷ done.old_sig_handlers;
      }

  pub setup_sig_handlers : Actions → Installed
  setup_sig_handlers actions = setup_loop concerned_signals actions

-- The module's variables that `initNativeCrashCatcher` changes, and the stack of the thread's signal
-- handlers: `none` is the stack of the thread itself.
pub record Catcher : Type 0 where
  pub jvm : Bool
  pub ui_callback : Option ℕ
  pub alt_stack : Option ℕ
  pub signals : Installed
  pub cleanup_threads : ℕ

-- What the system answers to `initNativeCrashCatcher`: malloc's block, and whether sigaltstack and
-- pthread_create succeed.
pub record Answers : Type 0 where
  pub block : Option ℕ
  pub stack_is_set : Bool
  pub thread_starts : Bool

-- `setupAltStack`: what it returns is 0 where the stack is set. Its caller does not ask.
setup_alt_stack : Option ℕ → Bool → Option ℕ → Bool × Option ℕ
setup_alt_stack none stack_is_set current = (false, current)
setup_alt_stack (some block) stack_is_set current =
    if stack_is_set then (true, some block) else (false, current)

-- `setupCleanupThread`, by the number of the threads.
setup_cleanup_thread : Bool → ℕ → Bool × ℕ
setup_cleanup_thread thread_starts threads =
    if thread_starts then (true, suc threads) else (false, threads)

-- `initNativeCrashCatcher`.
pub init_native_crash_catcher : (ℕ → Bool) → Sigaction → Answers → ℕ → Catcher → Catcher
unfolding setup_alt_stack setup_cleanup_thread
init_native_crash_catcher can_set act answers cb c = if c.jvm then c else record {
  jvm = true;
  ui_callback = some cb;
  alt_stack = (setup_alt_stack answers.block answers.stack_is_set c.alt_stack).1;
  signals = setup_sig_handlers can_set act c.signals.actions;
  cleanup_threads = (setup_cleanup_thread answers.thread_starts c.cleanup_threads).1;
}

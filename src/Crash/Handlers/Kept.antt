-- ===== src/Crash/Handlers/Kept.antt =====
-- The handlers that were there before nativecrashcatcher.cpp installed its own are kept and called.
use xapm.Base.{
  ℕ, zero, suc, ◌≡◌, ◌≢◌, refl, ap, ◌∙◌, Option, Result, ok, fault, null_call, Bool, true, false,
  ◌&&◌, List, [], ◌∷◌, none, some, ◌==◌, if◌then◌else◌, arith,
}
use xapm.Crash.Handlers.{
  Sigaction, HandlerCall, sa_sigaction, sa_handler, Actions, concerned_signals, set_action,
  call_action, exec_old_sig_handlers, setup_loop, setup_sig_handlers, Answers, Catcher,
  init_native_crash_catcher,
}

-- The signal is one of those of the list.
pub is_in : ℕ → List ℕ → Bool
is_in signo [] = false
is_in signo (sig ∷ sigs) = if signo == sig then true else is_in signo sigs

-- What a call of an old action is to be, by its SA_SIGINFO and its function.
abbrev pub old_call : Bool → ℕ → ℕ → ℕ → ℕ → Result HandlerCall
old_call has_siginfo zero signo info context = fault null_call
old_call true (suc f) signo info context = ok (sa_sigaction (suc f) signo info context)
old_call false (suc f) signo info context = ok (sa_handler (suc f) signo)

call_action-old_call :
    (has_siginfo : Bool) (f signo info context : ℕ)
    → call_action (record { has_siginfo = has_siginfo; handler = f }) signo info context
      ≡ old_call has_siginfo f signo info context
unfolding call_action
call_action-old_call true zero signo info context = refl
call_action-old_call true (suc f) signo info context = ground arith
call_action-old_call false zero signo info context = refl
call_action-old_call false (suc f) signo info context = ground arith

module _ (can_set : ℕ → Bool) (act : Sigaction) (signo info context : ℕ) where
  -- What `execOldSigHandlers` is to call where the action was `sa`.
  abbrev pub old_called : Bool → Sigaction → Option (Result HandlerCall)
  old_called kept sa =
      if kept then some (old_call sa.has_siginfo sa.handler signo info context) else none

  setup_loop-actions :
      (sigs : List ℕ) (actions : Actions)
      → (setup_loop can_set act sigs actions).actions signo ≡ (
          if is_in signo sigs
          then (if can_set signo then act else actions signo)
          else actions signo)
  unfolding setup_loop is_in set_action
  setup_loop-actions [] actions = refl
  setup_loop-actions (sig ∷ sigs) actions =
      ground (
        arith,
        setup_loop-actions sigs actions,
        setup_loop-actions sigs (set_action actions sig act),
      )

  setup_loop-call_action :
      (sigs : List ℕ) (actions : Actions)
      → signo ≢ 0
      → exec_old_sig_handlers
          (setup_loop can_set act sigs actions).old_sig_handlers
          signo
          info
          context
        ≡ (if is_in signo sigs && can_set signo
            then some (call_action (actions signo) signo info context)
            else none)
  unfolding setup_loop is_in set_action exec_old_sig_handlers
  setup_loop-call_action [] actions ne = refl
  setup_loop-call_action (sig ∷ sigs) actions ne = ground (
    arith,
    setup_loop-call_action sigs actions ne,
    setup_loop-call_action sigs (set_action actions sig act) ne,
  )

  setup_loop-exec :
      (sigs : List ℕ) (actions : Actions)
      → signo ≢ 0
      → exec_old_sig_handlers
          (setup_loop can_set act sigs actions).old_sig_handlers
          signo
          info
          context
        ≡ old_called (is_in signo sigs && can_set signo) (actions signo)
  setup_loop-exec sigs actions ne =
      setup_loop-call_action sigs actions ne
      ∙ ap (λ (c : Result HandlerCall). if is_in signo sigs && can_set signo then some c else none)
          (call_action-old_call (actions signo).has_siginfo (actions signo).handler signo info
            context)

  -- For every signal but 0: after `setupSigHandlers` its action is the catcher's exactly where it is
  -- one of the concerned signals and sigaction succeeded for it, else what it was. And
  -- `execOldSigHandlers` calls the function that such a signal's action had before, and nothing for the
  -- others: with the signal, the info and the context where that action has SA_SIGINFO, else with the
  -- signal alone. Where that action was SIG_DFL, the call is one of address 0, a fault.
  pub setup_sig_handlers-exec :
      (actions : Actions)
      → signo ≢ 0
      → ((setup_sig_handlers can_set act actions).actions signo ≡ (
          if is_in signo concerned_signals
          then (if can_set signo then act else actions signo)
          else actions signo))
        × (exec_old_sig_handlers
              (setup_sig_handlers can_set act actions).old_sig_handlers
              signo
              info
              context
            ≡ old_called (is_in signo concerned_signals && can_set signo) (actions signo))
  unfolding setup_sig_handlers
  setup_sig_handlers-exec actions ne =
      (setup_loop-actions concerned_signals actions, setup_loop-exec concerned_signals actions ne)

  -- A second call of `initNativeCrashCatcher`, with whatever callback, does not make the catcher keep
  -- its own handler as an old one. After both calls, on a catcher that was not initialised before them,
  -- the old handler of a signal that is concerned and could be set is the one from before the first,
  -- and the other signals but 0 have none.
  pub init_native_crash_catcher-exec :
      (c : Catcher) (cb cb' : ℕ) (answers answers' : Answers)
      → c.jvm ≡ false
      → signo ≢ 0
      → exec_old_sig_handlers
          (init_native_crash_catcher can_set act answers' cb'
            (init_native_crash_catcher can_set act answers cb c)).signals.old_sig_handlers
          signo
          info
          context
        ≡ old_called (is_in signo concerned_signals && can_set signo) (c.signals.actions signo)
  unfolding init_native_crash_catcher
  init_native_crash_catcher-exec c cb cb' answers answers' e ne =
      rw e (setup_sig_handlers-exec c.signals.actions ne).1

-- ===== src/Dumper/Runs.antt =====
-- A dump of ForkStripHeapDumper.java in its child, and the theorem at it.
use xapm.Base.{ℕ, zero, suc, ◌≡◌, refl, true, false, none, some, ok, arith, ◌==◌, if◌then◌else◌}
use xapm.Strip.Session.Sample.{
  Hooks, xhook, xhook_laws, unhooked, libart, path, calls, fresh, kernel, opens_libart,
  records-AllFit, calls-AllCalls,
}
use xapm.Dump.{child, parent_of, WaitResult, waited, wait_failed, Machine, HprofDump}
use xapm.Dump.Waits.{Interrupted, not_yet, once_more, is_exit}
use xapm.Dump.Balanced.{DebuggerLaws, by_debugger}
use xapm.Dump.Bridge.{exits, returns}
use xapm.Dumper.{Process, strip_dump}
use xapm.Dumper.Child.{IsReady, before_load, Dumped, strip_dump-child}
use xapm.Dumper.Parent.{strip_dump-parent}

-- A VM that counts how often it is suspended: 3 and 4 suspend and resume it.
abbrev pred : ℕ → ℕ
pred zero = zero
pred (suc n) = n

abbrev counting : Machine ℕ
counting = record {
  call_at = λ f arguments n. if f == 3 then suc n else pred n;
  read_pointer = λ p n. 0;
  thread_self = 5000;
  log_tag = 6000;
  ssa_block = 100;
  sgc_block = 200;
  fork = λ n. (n, child);
  alarm = λ seconds n. n;
  set_name = λ name n. n;
  waitpid = λ pid n. (n, wait_failed 10);
}

abbrev found : HprofDump
found = record {
  init_done = true;
  android_api = 29;
  ssa_instance = none;
  sgc_instance = none;
  suspend_vm_fnc = some 3;
  resume_vm_fnc = some 4;
  ssa_constructor_fnc = none;
  ssa_destructor_fnc = none;
  sgc_constructor_fnc = none;
  sgc_destructor_fnc = none;
  mutator_lock_ptr = none;
  exclusive_lock_fnc = none;
  exclusive_unlock_fnc = none;
}

counting-DebuggerLaws : DebuggerLaws counting found
counting-DebuggerLaws = record {
  suspend_vm = 3;
  resume_vm = 4;
  is_suspend_vm = refl;
  is_resume_vm = refl;
  resume_undoes = λ n. refl;
}

abbrev app : Process ℕ Hooks
app = record { vm = 0; hooks = unhooked; strip = fresh; kernel = kernel; m_load_success = false }

strip_dump-child_example :
    (p : Process ℕ Hooks) × (strip_dump xhook xhook_laws counting found 1 29 7 libart path calls app
      ≡ ok (p, exits 0))
    × Dumped xhook xhook_laws 7 calls app p
strip_dump-child_example =
    strip_dump-child xhook xhook_laws counting found 1 29 7 libart path calls app (omega arith)
      (omega arith) (by_debugger (omega arith) counting-DebuggerLaws) (λ v. refl)
      (before_load refl (refl, λ q symbol. refl)) opens_libart (λ e. cc) records-AllFit
      calls-AllCalls (omega arith)

-- The parent of child 321. A signal interrupts waitpid once, and then it reports an exit.
abbrev wait_answer : ℕ → WaitResult
wait_answer zero = wait_failed 4
wait_answer (suc n) = waited 0

abbrev waiting : Machine ℕ
waiting = record counting { fork = λ n. (n, parent_of 321); waitpid = λ pid n. (1, wait_answer n) }

waiting-DebuggerLaws : DebuggerLaws waiting found
waiting-DebuggerLaws = record {
  suspend_vm = 3;
  resume_vm = 4;
  is_suspend_vm = refl;
  is_resume_vm = refl;
  resume_undoes = λ n. refl;
}

waiting-Interrupted : Interrupted waiting 321 1 0 1
waiting-Interrupted = once_more 0 0 1 refl (not_yet 1)

strip_dump-parent_example :
    (p : Process ℕ Hooks) × (strip_dump xhook xhook_laws waiting found 2 29 7 libart path calls app
      ≡ ok (p, returns (is_exit (waited 0))))
    × (p.vm ≡ 1)
    × (p.kernel ≡ kernel)
    × (p.strip ≡ record fresh { hprof_name = path })
    × IsReady xhook xhook_laws p
strip_dump-parent_example =
    strip_dump-parent xhook xhook_laws waiting found 1 2 29 7 321 libart path calls app 1
      (omega arith) (omega arith) (by_debugger (omega arith) waiting-DebuggerLaws) (λ v. refl)
      (omega arith) (omega arith) (before_load refl (refl, λ q symbol. refl)) waiting-Interrupted
      refl (omega arith)

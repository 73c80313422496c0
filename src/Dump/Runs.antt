-- ===== src/Dump/Runs.antt =====
-- Runs of hprof_dump.cpp and the theorems at them.
mod Initialised
use xapm.Base.{
  ℕ, zero, suc, ◌≡◌, refl, true, none, some, ok, arith, strstr, starts_with, ◌==◌, if◌then◌else◌,
  ◌>>=◌, ap, ◌∙◌, codes, false, Result, Option,
}
use xapm.Dump.{
  parent_of, WaitResult, waited, wait_failed, Machine, HprofDump, new_hprof_dump, find_debugger,
  find_scopes, find_symbols, initialize, suspend_and_fork, resume, wait_loop, resume_and_wait,
}
use xapm.Dlfcn.{
  DlPhdrInfo, DlFcn, Handle, iterate_data, new_target, is_android_n, dlsym_n, dlopen, dlopen_at,
  dlopen_by_loader, dlopen_with_loader, loader_dlopen, retry_in_runtime, call_once, init_api,
  dl_iterate_phdr_wrapper, dl_iterate_phdr, dl_iterate_callback, name_contains, dlsym, dlclose,
}
use xapm.Dlfcn.Sample.Looks.{looks_in_file}
use xapm.Dlfcn.Objects.{Settled, walked}
use xapm.Elf.Lookup.Sample.{sample_finds, sample_misses}
use xapm.Elf.Wrapper.{Resources}
use xapm.Dump.Found.{AnswersN, suspend_name, resume_name, initialize-AnswersN}
use xapm.Dlfcn.Sample.{lib_art, art_object, linker_of, untouched, ready_at, nothing_held}
use xapm.Dump.Starts.{IsStarted, initialize_again}
use xapm.Dump.Bridge.{DumpResult, dumped}
use xapm.Dump.Missing.{Outcome, can_suspend, can_resume, suspend_and_fork-Outcome}
use xapm.Dump.Waits.{
  Interrupted, not_yet, once_more, is_exit, HasExited, wait_loop_lem, wait_loop-HasExited,
}

-- How many GC sections, suspensions and exclusive owners there are, and how many signals are to
-- come while the parent waits.
record World : Type 0 where
  sections : ℕ
  suspensions : ℕ
  owners : ℕ
  signals : ℕ

abbrev pred : ℕ → ℕ
pred zero = zero
pred (suc n) = n

-- The functions: 3 and 4 suspend and resume, 5 and 6 are a GC section's, 7 and 8 the lock's.
abbrev run_at : ℕ → World → World
run_at f w =
    if f == 3
    then record w { suspensions = suc w.suspensions; owners = suc w.owners }
    else if f == 4
    then record w { suspensions = pred w.suspensions; owners = pred w.owners }
    else if f == 5
    then record w { sections = suc w.sections }
    else if f == 6
    then record w { sections = pred w.sections }
    else if f == 7
    then record w { owners = suc w.owners }
    else record w { owners = pred w.owners }

abbrev wait_at : ℕ → World → World × WaitResult
wait_at zero w = (w, waited 0)
wait_at (suc n) w = (record w { signals = n }, wait_failed 4)

abbrev device : Machine World
device = record {
  call_at = λ f arguments w. run_at f w;
  read_pointer = λ p w. 77;
  thread_self = 5000;
  log_tag = 6000;
  ssa_block = 100;
  sgc_block = 200;
  fork = λ w. (w, parent_of 321);
  alarm = λ n w. w;
  set_name = λ name w. w;
  waitpid = λ pid w. wait_at w.signals w;
}

abbrev ready : HprofDump
ready = record {
  init_done = true;
  android_api = 33;
  ssa_instance = some 100;
  sgc_instance = some 200;
  suspend_vm_fnc = none;
  resume_vm_fnc = none;
  ssa_constructor_fnc = some 3;
  ssa_destructor_fnc = some 4;
  sgc_constructor_fnc = some 5;
  sgc_destructor_fnc = some 6;
  mutator_lock_ptr = some 9;
  exclusive_lock_fnc = some 7;
  exclusive_unlock_fnc = some 8;
}

-- Running, with one signal to come.
abbrev running : World
running = record { sections = 0; suspensions = 0; owners = 0; signals = 1 }

abbrev after_signal : World
after_signal = record { sections = 0; suspensions = 0; owners = 0; signals = 0 }

-- The dump writes nothing that the state shows.
abbrev writes_heap : World → Result (World × DumpResult)
writes_heap w = ok (w, dumped)

suspend_and_fork-Outcome_example :
    Outcome (can_suspend (new_hprof_dump 33)) (suspend_and_fork device (new_hprof_dump 33) running)
    × Outcome (can_resume (new_hprof_dump 33)) (resume device (new_hprof_dump 33) running)
suspend_and_fork-Outcome_example = suspend_and_fork-Outcome device (new_hprof_dump 33) running

running-Interrupted : Interrupted device 321 1 running after_signal
running-Interrupted = once_more 0 running after_signal refl (not_yet after_signal)

wait_loop_lem_example : wait_loop device 2 321 running ≡ ok (after_signal, is_exit (waited 0))
wait_loop_lem_example =
    wait_loop_lem device 321 1 2 running after_signal running-Interrupted refl (omega arith)

waits : wait_loop device 2 321 running ≡ ok (after_signal, true)
unfolding wait_loop
waits = refl

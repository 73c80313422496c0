-- ===== src/Dump/Runs/Initialised.antt =====
-- Runs of `Initialize` of hprof_dump.cpp and the theorems at them.
use xapm.Base.{
  ℕ, ◌≡◌, refl, true, none, some, ok, arith, strstr, starts_with, ◌>>=◌, ap, ◌∙◌, codes, false,
  Result, Option,
}
use xapm.Dump.{HprofDump, new_hprof_dump, find_debugger, find_scopes, find_symbols, initialize}
use xapm.Dlfcn.{
  DlPhdrInfo, DlFcn, Handle, iterate_data, new_target, is_android_n, dlsym_n, dlopen, dlopen_at,
  dlopen_by_loader, dlopen_with_loader, loader_dlopen, retry_in_runtime, call_once, init_api,
  dl_iterate_phdr_wrapper, dl_iterate_phdr, dl_iterate_callback, name_contains, dlsym, dlclose,
}
use xapm.Dlfcn.Sample.Looks.{looks_in_file}
use xapm.Dlfcn.Objects.{Settled, walked}
use xapm.Elf.Lookup.Sample.{sample_finds, sample_misses}
use xapm.Elf.Wrapper.{Resources}
use xapm.Dump.Found.{AnswersN, suspend_name, resume_name, initialize-AnswersN}
use xapm.Dlfcn.Sample.{lib_art, art_object, linker_of, untouched, ready_at, nothing_held}
use xapm.Dump.Starts.{IsStarted, initialize_again}

-- `Initialize` on Android 13, where every symbol is found at 60.
abbrev found : HprofDump
found = record {
  init_done = true;
  android_api = 33;
  ssa_instance = some 100;
  sgc_instance = some 200;
  suspend_vm_fnc = none;
  resume_vm_fnc = none;
  ssa_constructor_fnc = some 60;
  ssa_destructor_fnc = some 60;
  sgc_constructor_fnc = some 60;
  sgc_destructor_fnc = some 60;
  mutator_lock_ptr = some 60;
  exclusive_lock_fnc = some 60;
  exclusive_unlock_fnc = some 60;
}

initialises :
    initialize (linker_of 33) 2 100 200 (new_hprof_dump 33, untouched, nothing_held)
    ≡ ok (found, ready_at 33, nothing_held)
unfolding initialize new_hprof_dump find_symbols find_scopes dlopen dlopen_at dlopen_by_loader
    dlopen_with_loader loader_dlopen retry_in_runtime call_once init_api dl_iterate_phdr_wrapper
    dl_iterate_phdr dl_iterate_callback name_contains strstr starts_with dlsym dlclose
initialises = refl

initialize_again_example :
    IsStarted
      (linker_of 33)
      2
      100
      200
      (new_hprof_dump 33)
      nothing_held
      (found, ready_at 33, nothing_held)
    × (initialize (linker_of 33) 2 100 200 (found, ready_at 33, nothing_held)
        ≡ ok (found, ready_at 33, nothing_held))
initialize_again_example =
    initialize_again (linker_of 33) 2 100 200 (new_hprof_dump 33) untouched nothing_held
      (found, ready_at 33, nothing_held) initialises

-- `Initialize` on Android 7, where libart.so has the one function and not the other.
abbrev new_at : ℕ → HprofDump
new_at api_level = record found {
  init_done = false;
  android_api = api_level;
  ssa_instance = none;
  sgc_instance = none;
  ssa_constructor_fnc = none;
  ssa_destructor_fnc = none;
  sgc_constructor_fnc = none;
  sgc_destructor_fnc = none;
  mutator_lock_ptr = none;
  exclusive_lock_fnc = none;
  exclusive_unlock_fnc = none;
}

abbrev half_found : HprofDump
half_found = record (new_at 24) { init_done = true; suspend_vm_fnc = some 4160 }

opens_art :
    dlopen (linker_of 24) lib_art 2 untouched ≡ ok (ready_at 24, some (iterate_data art_object))
unfolding dlopen call_once init_api dlopen_at dl_iterate_phdr_wrapper dl_iterate_phdr
    dl_iterate_callback name_contains strstr starts_with
opens_art = refl

finds_suspend :
    dlsym (linker_of 24) 2 (some (iterate_data art_object)) suspend_name (ready_at 24) nothing_held
    ≡ ok (nothing_held, some 4160)
unfolding dlsym dlsym_n
finds_suspend = looks_in_file 24 suspend_name true (some 4160) (sample_finds true)

misses_resume :
    dlsym (linker_of 24) 2 (some (iterate_data art_object)) resume_name (ready_at 24) nothing_held
    ≡ ok (nothing_held, none)
unfolding dlsym dlsym_n
misses_resume = looks_in_file 24 resume_name true none sample_misses

finds_half :
    find_debugger
      (linker_of 24)
      2
      (some (iterate_data art_object))
      (ready_at 24)
      (new_at 24)
      nothing_held
    ≡ ok (record (new_at 24) { suspend_vm_fnc = some 4160 }, nothing_held)
unfolding find_debugger
finds_half =
    ap
      (λ (r : Result (Resources × Option ℕ)). r >>= (λ (a : Resources × Option ℕ).
        dlsym (linker_of 24) 2 (some (iterate_data art_object)) resume_name (ready_at 24) a.0
        >>= (λ (b : Resources × Option ℕ).
            ok (record (new_at 24) { suspend_vm_fnc = a.1; resume_vm_fnc = b.1 }, b.0))))
      finds_suspend
    ∙ ap
        (λ (r : Result (Resources × Option ℕ)). r >>= (λ (b : Resources × Option ℕ).
          ok (record (new_at 24) { suspend_vm_fnc = some 4160; resume_vm_fnc = b.1 }, b.0)))
        misses_resume

initialises_half :
    initialize (linker_of 24) 2 100 200 (new_at 24, untouched, nothing_held)
    ≡ ok (half_found, ready_at 24, nothing_held)
unfolding initialize find_symbols dlclose
initialises_half =
    ap
      (λ (r : Result (DlFcn × Option Handle)). r >>= (λ (o : DlFcn × Option Handle).
        find_symbols (linker_of 24) 2 o.1 o.0 100 200 (new_at 24) nothing_held
        >>= (λ (f : HprofDump × Resources).
            dlclose (linker_of 24) o.1 o.0
            >>= (λ (c : ℕ). ok (record (f.0) { init_done = true }, o.0, f.1)))))
      opens_art
    ∙ ap
        (λ (r : Result (HprofDump × Resources)). r >>= (λ (f : HprofDump × Resources).
          ok (record (f.0) { init_done = true }, ready_at 24, f.1)))
        finds_half

runs_n : is_android_n (call_once (linker_of 24) untouched).android_api ≡ true
unfolding call_once init_api
runs_n = refl

initialize-AnswersN_example :
    (info : DlPhdrInfo) × Settled
      (codes "libart.so")
      (new_target (codes "libart.so"))
      (walked (linker_of 24))
      info
    × AnswersN (linker_of 24) 2 info nothing_held half_found
initialize-AnswersN_example =
    initialize-AnswersN (linker_of 24) 2 100 200 (new_at 24) untouched nothing_held
      (half_found, ready_at 24, nothing_held) refl (omega arith) (omega arith) runs_n
      initialises_half

-- ===== src/Dlfcn/Memory/Runs.antt =====
-- Runs of clients of kwai_dlfcn.cpp over memory, and the theorems at them.
use xapm.Base.{
  ℕ, ◌+◌, ◌≤◌, ◌≡◌, refl, ap, true, All, List, [], ◌∷◌, Option, none, some, Result, ok, ◌>>=◌, ltb,
  if◌then◌else◌, strstr, starts_with, arith,
}
use xapm.Elf.Reader.Sample.{suspend_vm_name}
use xapm.Elf.Lookup.Sample.{sample_finds}
use xapm.Elf.Wrapper.{Resources}
use xapm.Dlfcn.{
  iterate_data, name_contains, dl_iterate_callback, dl_iterate_phdr, dl_iterate_phdr_wrapper,
  call_once, init_api, dlopen_at, dlopen, dlsym_n, dlsym, dlclose,
}
use xapm.Dlfcn.Sample.Looks.{looks_in_file}
use xapm.Dlfcn.Sample.{lib_art, linker_of, untouched, ready_at, art_object, nothing_held}
use xapm.Dlfcn.Memory.{data_object, Objects, object_at, Allocator}
use xapm.Dlfcn.Memory.Represents.{handle, closed, Value, Represents, IsClosed}
use xapm.Dlfcn.Memory.Session.{
  DlCall, call_dlopen, call_dlsym, call_dlclose, Client, value_step, value_run, memory_run,
}
use xapm.Dlfcn.Memory.Refines.{memory_run-value_run}

-- An allocator that goes above every address in use.
above : Objects → ℕ
above [] = 1
above ((q, o) ∷ objects) = if ltb q (above objects) then above objects else q + 1

above-free : (objects : Objects) (p : ℕ) → above objects ≤ p → object_at objects p ≡ none
unfolding above object_at
above-free [] p h = refl
above-free ((q, o) ∷ objects) p h =
    let ih = λ (k : above objects ≤ p). above-free objects p k in ground (arith, ih)

abbrev bump : Allocator
bump = record {
  place = above;
  is_free = λ objects. above-free objects (above objects) (omega arith);
}

-- A client opens libart.so on Android N, looks a symbol up and closes the handle.
abbrev calls : List DlCall
calls = call_dlopen lib_art 2 ∷ call_dlsym 0 suspend_vm_name ∷ call_dlclose 0 ∷ []

abbrev client : Client
client = record { dl = untouched; held = nothing_held; answers = [] }

abbrev client' : Client
client' = record { dl = ready_at 24; held = nothing_held; answers = some 0 ∷ some 4160 ∷ [] }

-- What else lives.
abbrev others : Objects
others = (5, data_object art_object) ∷ []

finds :
    dlsym
      (linker_of 24)
      2
      (some (iterate_data art_object))
      suspend_vm_name
      (ready_at 24)
      nothing_held
    ≡ ok (nothing_held, some 4160)
unfolding dlsym dlsym_n
finds = looks_in_file 24 suspend_vm_name true (some 4160) (sample_finds true)

-- What the lookup makes of its answer.
abbrev looked_up : Resources × Option ℕ → Result (Client × List Value)
looked_up r = ok (
  record { dl = ready_at 24; held = r.0; answers = r.1 ∷ [] },
  handle (some (iterate_data art_object)) ∷ [],
)

returns : value_run (linker_of 24) 2 calls client [] ≡ ok (client', closed ∷ [])
unfolding value_run value_step dlopen call_once init_api dlopen_at dl_iterate_phdr_wrapper
    dl_iterate_phdr dl_iterate_callback name_contains strstr starts_with dlclose
returns =
    ap
      (λ (t : Result (Resources × Option ℕ)). t >>= looked_up >>= λ (r : Client × List Value).
        value_run (linker_of 24) 2 (call_dlclose 0 ∷ []) r.0 r.1)
      finds

memory_run-value_run_example :
    (ps : List (Option ℕ)) × (objects : Objects) × (memory_run
        (linker_of 24)
        2
        bump
        calls
        client
        []
        others
      ≡ ok (client', ps, objects))
    × Represents others ps (closed ∷ []) objects
    × (All IsClosed (closed ∷ []) → objects ≡ others)
memory_run-value_run_example =
    memory_run-value_run (linker_of 24) 2 bump others calls client client' (closed ∷ []) returns

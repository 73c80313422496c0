-- ===== src/Dlfcn/Runs.antt =====
-- Runs of kwai_dlfcn.cpp and the theorems at them.
use xapm.Base.{
  ◌≡◌, refl, true, All, Option, none, some, ok, inr, inl, ◌⊎◌, ◌<◌, ◌≤◌, fault, null_call, arith,
  strstr, starts_with,
}
use xapm.Elf.Reader.Sample.{suspend_vm_name}
use xapm.Elf.Lookup.Sample.{sample_finds}
use xapm.Dlfcn.{
  is_android_n, DlPhdrInfo, Linker, Handle, iterate_data, SoDlInfo, new_target, call_once, init_api,
  name_contains, dl_iterate_callback, dl_iterate_phdr, dl_iterate_phdr_wrapper, dlopen_at, dlopen,
  dlsym_n, dlsym,
}
use xapm.Dlfcn.Sample.Looks.{looks_in_file}
use xapm.Dlfcn.Sample.{
  lib_art, art_path, shown, linker_of, untouched, ready_at, art_object, nothing_held,
}
use xapm.Dlfcn.Objects.{Settled, walked}
use xapm.Dlfcn.Opens.{HasPath, OpenedQ, dlopen-OpenedQ, dlopen-null_call}
use xapm.Dlfcn.Lookups.{AnswerN, dlsym-dlopen}

iterates : dl_iterate_phdr shown (new_target lib_art) ≡ ok art_object
unfolding dl_iterate_phdr dl_iterate_callback name_contains strstr starts_with
iterates = refl

runs_n : is_android_n (call_once (linker_of 24) untouched).android_api ≡ true
unfolding call_once init_api
runs_n = refl

opens : dlopen (linker_of 24) lib_art 2 untouched ≡ ok (ready_at 24, some (iterate_data art_object))
unfolding dlopen call_once init_api dlopen_at dl_iterate_phdr_wrapper dl_iterate_phdr
    dl_iterate_callback name_contains strstr starts_with
opens = refl

finds :
    dlsym
      (linker_of 24)
      2
      (some (iterate_data art_object))
      suspend_vm_name
      (ready_at 24)
      nothing_held
    ≡ ok (nothing_held, some 4160)
unfolding dlsym dlsym_n
finds = looks_in_file 24 suspend_vm_name true (some 4160) (sample_finds true)

dlsym-dlopen_example :
    (info : DlPhdrInfo) × (nothing_held ≡ nothing_held)
    × Settled lib_art (new_target lib_art) (walked (linker_of 24)) info
    × AnswerN (linker_of 24) 2 info suspend_vm_name nothing_held (some 4160)
dlsym-dlopen_example =
    dlsym-dlopen (linker_of 24) 2 lib_art suspend_vm_name 2 untouched (ready_at 24)
      (some (iterate_data art_object)) nothing_held nothing_held (some 4160) runs_n opens finds

abbrev art_info : SoDlInfo
art_info = record { full_name = art_path; load_base = 4096 }

shown-HasPath : All HasPath shown
shown-HasPath = (inl refl, (inr (art_path, refl), tt))

is_q : 29 ≤ (call_once (linker_of 30) untouched).android_api
unfolding call_once init_api
is_q = omega arith

dlopen-OpenedQ_example :
    (handle : Option Handle) × (dlopen (linker_of 30) lib_art 2 untouched
      ≡ ok (call_once (linker_of 30) untouched, handle))
    × OpenedQ (linker_of 30) 60 lib_art 2 handle
dlopen-OpenedQ_example =
    dlopen-OpenedQ (linker_of 30) 60 lib_art 2 untouched refl shown-HasPath is_q

-- A system without `__loader_dlopen`.
abbrev without_loader : Linker
without_loader = record (linker_of 30) { system_dlsym = λ handle name. none }

dlopen-null_call_example :
    ((26 ≤ (call_once without_loader untouched).android_api)
      × (dlopen without_loader lib_art 2 untouched ≡ fault null_call))
    ⊎ (((call_once without_loader untouched).android_api < 26)
        × (handle : Option Handle) × (dlopen without_loader lib_art 2 untouched
            ≡ ok (call_once without_loader untouched, handle)))
dlopen-null_call_example = dlopen-null_call without_loader lib_art 2 untouched shown-HasPath refl

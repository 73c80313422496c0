-- ===== src/Dlfcn.antt =====
-- hprof/hprofdumper/src/main/cpp/kwai_dlfcn.cpp: dlopen and dlsym past Android's namespaces. The
-- system's linker, its files and the objects that dl_iterate_phdr shows are parameters.
pub mod Objects
pub mod Lookups
pub mod Symbols
pub mod Opens
pub mod Memory
pub mod Sample
mod Runs
use xapm.Base.{
  ℕ, Bool, true, false, ◌&&◌, ◌||◌, not, List, [], ◌∷◌, map, Option, none, some, Result, ok, fault,
  bad_read, bad_delete, null_call, ◌>>=◌, ◌==◌, ltb, if◌then◌else◌, strstr, codes,
}
use xapm.Elf.Image.{ElfImage}
use xapm.Elf.Reader.{ElfReader, new_elf_reader, init}
use xapm.Elf.Lookup.{lookup_symbol}
use xapm.Elf.Wrapper.{
  FileSystem, Resources, FileElfWrapper, address_of, new_file_elf_wrapper, delete_file_elf_wrapper,
  file_is_valid,
}
use xapm.Maps.Bias.{Process}
use xapm.Maps.Find.{Scanned, get_load_info}

-- `dl_phdr_info`, which is also what `dl_iterate_data` holds. `none` is a name of nullptr.
pub record DlPhdrInfo : Type 0 where
  pub dlpi_name : Option (List ℕ)
  pub dlpi_addr : ℕ
  pub dlpi_phdr : ℕ
  pub dlpi_phnum : ℕ

-- The process's linker: the functions of <dlfcn.h>, the function at an address called as
-- `__loader_dlopen` (`filename`, `flag`, `address`), the address of `dlerror`, and what the calls
-- see. `none` is nullptr.
pub record Linker : Type 0 where
  pub api_level : ℕ
  pub system_dlopen : List ℕ → ℕ → Option ℕ
  pub system_dlsym : Option ℕ → List ℕ → Option ℕ
  pub system_dlclose : Option ℕ → ℕ
  pub loader_at : ℕ → List ℕ → ℕ → ℕ → Option ℕ
  pub dlerror : ℕ
  pub has_dl_iterate_phdr : Bool
  pub objects : List DlPhdrInfo
  pub files : FileSystem
  pub process : Process
  pub maps : Option (List (Option Scanned))
  pub new_succeeds : Bool

-- The static variables.
pub record DlFcn : Type 0 where
  pub android_api : ℕ
  pub once_done : Bool

-- What a handle points to.
pub data Handle : Type 0 where
  system_handle : (h : ℕ) → Handle
  iterate_data : (info : DlPhdrInfo) → Handle

-- `SoDlInfo`.
pub record SoDlInfo : Type 0 where
  pub full_name : List ℕ
  pub load_base : ℕ

abbrev pub rtld_now : ℕ
rtld_now = 2

-- Whether `strstr(text, part)` finds something.
abbrev pub is_found : Option (List ℕ) → Bool
is_found none = false
is_found (some rest) = true

-- `strstr(info->dlpi_name, target->info_.dlpi_name)`: both pointers are read.
unfoldable pub name_contains : Option (List ℕ) → Option (List ℕ) → Result Bool
unfolding strstr
name_contains (some name) (some part) = ok (is_found (strstr name part))
name_contains (some name) none = fault bad_read
name_contains none part = fault bad_read

-- `dl_iterate_callback`: what it returns, and the target.
unfoldable pub dl_iterate_callback : DlPhdrInfo → DlPhdrInfo → Result (Bool × DlPhdrInfo)
unfolding name_contains
dl_iterate_callback info target = if info.dlpi_addr == 0 then ok (false, target) else (do
  found ← name_contains info.dlpi_name target.dlpi_name
  ok (found, if found then info else target))

-- `dl_iterate_phdr`: one object after the other, until the callback returns other than 0.
unfoldable pub dl_iterate_phdr : List DlPhdrInfo → DlPhdrInfo → Result DlPhdrInfo
unfolding dl_iterate_callback
dl_iterate_phdr [] target = ok target
dl_iterate_phdr (info ∷ objects) target = do
  r ← dl_iterate_callback info target
  elim r.0 [ true ↦ ok r.1 | false ↦ dl_iterate_phdr objects r.1 ]

-- A `dl_iterate_data` that is new, with the name that is looked for.
abbrev pub new_target : List ℕ → DlPhdrInfo
new_target lib_name = record {
  dlpi_name = some lib_name;
  dlpi_addr = 0;
  dlpi_phdr = 0;
  dlpi_phnum = 0;
}

abbrev pub is_android_n : ℕ → Bool
is_android_n android_api = android_api == 24 || android_api == 25

-- The handle that the system gives.
abbrev pub of_system : Option ℕ → Option Handle
of_system none = none
of_system (some h) = some (system_handle h)

-- A handle as the system's functions take it, and as `dl_iterate_data *`.
abbrev pub as_system : Option Handle → Result (Option ℕ)
as_system none = ok none
as_system (some (system_handle h)) = ok (some h)
as_system (some (iterate_data info)) = fault bad_read

abbrev pub as_iterate_data : Option Handle → Result DlPhdrInfo
as_iterate_data none = fault bad_read
as_iterate_data (some (system_handle h)) = fault bad_read
as_iterate_data (some (iterate_data info)) = ok info

-- `delete (dl_iterate_data *)handle`, which does nothing for nullptr.
abbrev pub as_deleted : Option Handle → Result (Unit {0})
as_deleted none = ok tt
as_deleted (some (system_handle h)) = fault bad_delete
as_deleted (some (iterate_data info)) = ok tt

-- `name && name[0] == '/'`, and `!name.empty() && name[0] == '/'`.
abbrev pub is_absolute : List ℕ → Bool
is_absolute [] = false
is_absolute (c ∷ name) = c == b'/'

abbrev pub absolute_name : Option (List ℕ) → Option (List ℕ)
absolute_name none = none
absolute_name (some name) = if is_absolute name then some name else none

module _ (linker : Linker) where
  -- `init_api`, and `pthread_once` with it.
  unfoldable pub init_api : DlFcn → DlFcn
  init_api s = record { android_api = linker.api_level; once_done = s.once_done }

  unfoldable pub call_once : DlFcn → DlFcn
  unfolding init_api
  call_once s = if s.once_done then s else record (init_api s) { once_done = true }

  unfoldable pub dl_iterate_phdr_wrapper : DlPhdrInfo → Result DlPhdrInfo
  unfolding dl_iterate_phdr
  dl_iterate_phdr_wrapper target =
      if linker.has_dl_iterate_phdr then dl_iterate_phdr linker.objects target else ok target

  -- The call through the pointer that dlsym gave for `__loader_dlopen`.
  unfoldable pub loader_dlopen : Option ℕ → List ℕ → ℕ → ℕ → Result (Option ℕ)
  loader_dlopen none lib_name flags address = fault null_call
  loader_dlopen (some f) lib_name flags address = ok (linker.loader_at f lib_name flags address)

  -- Android Q and later, with what the first call gave.
  unfoldable pub retry_in_runtime : Option ℕ → List ℕ → ℕ → Option ℕ → Result (Option Handle)
  unfolding dl_iterate_phdr_wrapper loader_dlopen
  retry_in_runtime f lib_name flags (some h) = ok (of_system (some h))
  retry_in_runtime f lib_name flags none = do
    data' ← dl_iterate_phdr_wrapper (new_target lib_name)
    h ← loader_dlopen f lib_name flags data'.dlpi_addr
    ok (of_system h)

  -- Android O and later: the two calls, and the search for the pointer before them.
  unfoldable pub dlopen_with_loader : Option ℕ → ℕ → List ℕ → ℕ → Result (Option Handle)
  unfolding loader_dlopen retry_in_runtime
  dlopen_with_loader f android_api lib_name flags = do
    h ← loader_dlopen f lib_name flags linker.dlerror
    if ltb android_api 29 then ok (of_system h) else retry_in_runtime f lib_name flags h

  unfoldable pub dlopen_by_loader : ℕ → List ℕ → ℕ → Result (Option Handle)
  unfolding dlopen_with_loader
  dlopen_by_loader android_api lib_name flags =
      let handle = linker.system_dlopen (codes "libdl.so") rtld_now in
      dlopen_with_loader (linker.system_dlsym handle (codes "__loader_dlopen")) android_api lib_name
        flags

  unfoldable pub dlopen_at : ℕ → List ℕ → ℕ → Result (Option Handle)
  unfolding dlopen_by_loader dl_iterate_phdr_wrapper
  dlopen_at android_api lib_name flags =
      if ltb android_api 24
      then ok (of_system (linker.system_dlopen lib_name flags))
      else if not (ltb android_api 26)
      then dlopen_by_loader android_api lib_name flags
      else (do
        data' ← dl_iterate_phdr_wrapper (new_target lib_name)
        ok (some (iterate_data data')))

  -- `DlFcn::dlopen`.
  unfoldable pub dlopen : List ℕ → ℕ → DlFcn → Result (DlFcn × Option Handle)
  unfolding call_once dlopen_at
  dlopen lib_name flags s = do
    let s' = call_once s
    handle ← dlopen_at s'.android_api lib_name flags
    ok (s', handle)

  -- A reader over the wrapper: nullptr where `Init` fails, else what `LookupSymbol` finds. The
  -- lookup's loops are bounded by `fuel`.
  pub look_with : ℕ → List ℕ → ℕ → Bool → FileElfWrapper → Result (Option ℕ)
  unfolding file_is_valid
  look_with fuel name load_base only_dynsym w = do
    let image = linker.files.image_at (address_of w.start) w.size
    r ← init (new_elf_reader image (file_is_valid w))
    if r.0 then lookup_symbol image fuel r.1 (some name) load_base only_dynsym else ok none

  -- The wrapper, the reader and the lookup; then the shared pointer destroys the wrapper.
  pub look_in_file : ℕ → List ℕ → List ℕ → ℕ → Bool → Resources → Result (Resources × Option ℕ)
  unfolding new_file_elf_wrapper look_with delete_file_elf_wrapper
  look_in_file fuel file name load_base only_dynsym held = do
    let opened = new_file_elf_wrapper linker.files (some file) held
    found ← look_with fuel name load_base only_dynsym opened.1
    ok (delete_file_elf_wrapper opened.1 opened.0, found)

  -- Android N: the name must be a path.
  unfoldable pub dlsym_n :
      ℕ → Option (List ℕ) → ℕ → List ℕ → Resources → Result (Resources × Option ℕ)
  unfolding look_in_file
  dlsym_n fuel none dlpi_addr name held = ok (held, none)
  dlsym_n fuel (some file) dlpi_addr name held = look_in_file fuel file name dlpi_addr true held

  -- `DlFcn::dlsym`.
  unfoldable pub dlsym :
      ℕ → Option Handle → List ℕ → DlFcn → Resources → Result (Resources × Option ℕ)
  unfolding dlsym_n
  dlsym fuel handle name s held =
      if not (is_android_n s.android_api)
      then (do h ← as_system handle; ok (held, linker.system_dlsym h name))
      else (do
        data' ← as_iterate_data handle
        dlsym_n fuel (absolute_name data'.dlpi_name) data'.dlpi_addr name held)

  -- `DlFcn::dlclose`: what is left of the memory is in Dlfcn.Memory.
  unfoldable pub dlclose : Option Handle → DlFcn → Result ℕ
  dlclose handle s =
      if not (is_android_n s.android_api)
      then (do h ← as_system handle; ok (linker.system_dlclose h))
      else (do gone ← as_deleted handle; ok 0)

  -- The object's name and address, as `GetLoadInfo` reads them.
  abbrev pub shown_objects : List (Option (List ℕ) × ℕ)
  shown_objects = map (λ (o : DlPhdrInfo). (o.dlpi_name, o.dlpi_addr)) linker.objects

  pub new_so_dl_info : Option (ℕ × List ℕ) → Option SoDlInfo
  new_so_dl_info none = none
  new_so_dl_info (some (load_base, so_full_name)) =
      if is_absolute so_full_name && linker.new_succeeds
      then some (record { full_name = so_full_name; load_base = load_base })
      else none

  -- `DlFcn::dlopen_elf`.
  pub dlopen_elf : List ℕ → ℕ → DlFcn → Result (DlFcn × Option SoDlInfo)
  unfolding call_once get_load_info new_so_dl_info
  dlopen_elf lib_name flags s = do
    let s' = call_once s
    info ← get_load_info linker.process lib_name s'.android_api linker.maps shown_objects
    ok (s', new_so_dl_info info)

  -- `DlFcn::dlsym_elf`.
  pub dlsym_elf : ℕ → Option SoDlInfo → List ℕ → Resources → Result (Resources × Option ℕ)
  unfolding look_in_file
  dlsym_elf fuel none name held = fault bad_read
  dlsym_elf fuel (some so_dl_info) name held =
      look_in_file fuel so_dl_info.full_name name so_dl_info.load_base false held

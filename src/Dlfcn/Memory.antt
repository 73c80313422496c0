-- ===== src/Dlfcn/Memory.antt =====
-- The memory of the handles of kwai_dlfcn.cpp: what `new` makes in dlopen and dlopen_elf and `delete`
-- gives back in dlclose and dlclose_elf.
pub mod Represents
pub mod Session
pub mod Steps
pub mod Refines
pub mod Freed
mod Runs
use xapm.Base.{
  ℕ, ◌≡◌, Bool, not, List, [], ◌∷◌, Option, none, some, Result, ok, fault, bad_read, bad_delete,
  ◌>>=◌, ◌==◌, if◌then◌else◌,
}
use xapm.Elf.Wrapper.{Resources}
use xapm.Dlfcn.{
  DlPhdrInfo, Linker, DlFcn, Handle, system_handle, iterate_data, SoDlInfo, is_android_n, dlopen,
  dlsym, dlclose, dlopen_elf, dlsym_elf,
}

-- A `dl_iterate_data` or a `SoDlInfo` on the heap.
pub data Object : Type 0 where
  data_object : (info : DlPhdrInfo) → Object
  so_object : (so_dl_info : SoDlInfo) → Object

-- The objects that live, with their addresses.
abbrev pub Objects : Type 0
Objects = List (ℕ × Object)

unfoldable pub object_at : Objects → ℕ → Option Object
object_at [] p = none
object_at ((q, o) ∷ objects) p = if p == q then some o else object_at objects p

-- The objects without those at an address.
unfoldable pub remove : Objects → ℕ → Objects
remove [] p = []
remove ((q, o) ∷ objects) p = let rest = remove objects p in if p == q then rest else (q, o) ∷ rest

-- A `void *`: `none` is nullptr.
abbrev pub Pointer : Type 0
Pointer = Option ℕ

-- The allocator says where the next object goes, which is where none lives.
pub record Allocator : Type 0 where
  pub place : Objects → ℕ
  pub is_free : (objects : Objects) → object_at objects (place objects) ≡ none

unfoldable pub new_object : Allocator → Object → Objects → Pointer × Objects
new_object allocator o objects = let p = allocator.place objects in (some p, (p, o) ∷ objects)

-- `delete` of a `dl_iterate_data *`, and of a `SoDlInfo *`: nothing for nullptr, undefined where no
-- object of that type lives.
unfoldable pub delete_data : Pointer → Objects → Result Objects
unfolding object_at remove
delete_data none objects = ok objects
delete_data (some p) objects = elim (object_at objects p) [
  | some (data_object info) ↦ ok (remove objects p)
  | some (so_object so_dl_info) ↦ fault bad_delete
  | none ↦ fault bad_delete
]

unfoldable pub delete_so : Pointer → Objects → Result Objects
unfolding object_at remove
delete_so none objects = ok objects
delete_so (some p) objects = elim (object_at objects p) [
  | some (so_object so_dl_info) ↦ ok (remove objects p)
  | some (data_object info) ↦ fault bad_delete
  | none ↦ fault bad_delete
]

-- `*data`, and `*so_dl_info`.
unfoldable pub read_data : Pointer → Objects → Result DlPhdrInfo
unfolding object_at
read_data none objects = fault bad_read
read_data (some p) objects = elim (object_at objects p) [
  | some (data_object info) ↦ ok info
  | some (so_object so_dl_info) ↦ fault bad_read
  | none ↦ fault bad_read
]

unfoldable pub read_so : Pointer → Objects → Result SoDlInfo
unfolding object_at
read_so none objects = fault bad_read
read_so (some p) objects = elim (object_at objects p) [
  | some (so_object so_dl_info) ↦ ok so_dl_info
  | some (data_object info) ↦ fault bad_read
  | none ↦ fault bad_read
]

-- A system handle as the code has it.
abbrev pub system_pointer : Pointer → Option Handle
system_pointer none = none
system_pointer (some h) = some (system_handle h)

module _ (allocator : Allocator) where
  -- What dlopen returns: the system's handle as it is, or a new object.
  unfoldable pub place_handle : Option Handle → Objects → Pointer × Objects
  unfolding new_object
  place_handle none objects = (none, objects)
  place_handle (some (system_handle h)) objects = (some h, objects)
  place_handle (some (iterate_data info)) objects = new_object allocator (data_object info) objects

  unfoldable pub place_so : Option SoDlInfo → Objects → Pointer × Objects
  unfolding new_object
  place_so none objects = (none, objects)
  place_so (some so_dl_info) objects = new_object allocator (so_object so_dl_info) objects

-- What a close returns, and leaves.
abbrev pub returned : ℕ → Objects → Result (ℕ × Objects)
returned r objects = ok (r, objects)

-- The handle that a pointer stands for, where it is one that dlopen gave.
unfoldable pub handle_at : Pointer → DlFcn → Objects → Result (Option Handle)
unfolding read_data
handle_at handle s objects =
    if is_android_n s.android_api
    then (do info ← read_data handle objects; ok (some (iterate_data info)))
    else ok (system_pointer handle)

module _ (linker : Linker) where
  -- `DlFcn::dlopen`, and where its handle lives.
  unfoldable pub dlopen_in :
      Allocator → List ℕ → ℕ → DlFcn → Objects → Result (DlFcn × (Pointer × Objects))
  unfolding dlopen place_handle
  dlopen_in allocator lib_name flags s objects = do
    opened ← dlopen linker lib_name flags s
    ok (opened.0, place_handle allocator opened.1 objects)

  -- `DlFcn::dlsym`.
  unfoldable pub dlsym_in :
      ℕ → Pointer → List ℕ → DlFcn → Resources → Objects → Result (Resources × Option ℕ)
  unfolding handle_at dlsym
  dlsym_in fuel handle name s held objects = do
    h ← handle_at handle s objects
    dlsym linker fuel h name s held

  -- `DlFcn::dlclose`.
  unfoldable pub dlclose_in : Pointer → DlFcn → Objects → Result (ℕ × Objects)
  unfolding delete_data
  dlclose_in handle s objects =
      if not (is_android_n s.android_api)
      then returned (linker.system_dlclose handle) objects
      else (do left ← delete_data handle objects; returned 0 left)

  -- `DlFcn::dlopen_elf`.
  unfoldable pub dlopen_elf_in :
      Allocator → List ℕ → ℕ → DlFcn → Objects → Result (DlFcn × (Pointer × Objects))
  unfolding dlopen_elf place_so
  dlopen_elf_in allocator lib_name flags s objects = do
    opened ← dlopen_elf linker lib_name flags s
    ok (opened.0, place_so allocator opened.1 objects)

  -- `DlFcn::dlsym_elf`.
  unfoldable pub dlsym_elf_in :
      ℕ → Pointer → List ℕ → Resources → Objects → Result (Resources × Option ℕ)
  unfolding read_so dlsym_elf
  dlsym_elf_in fuel handle name held objects = do
    so_dl_info ← read_so handle objects
    dlsym_elf linker fuel (some so_dl_info) name held

-- `DlFcn::dlclose_elf`.
unfoldable pub dlclose_elf : Pointer → Objects → Result (ℕ × Objects)
unfolding delete_so
dlclose_elf handle objects = do left ← delete_so handle objects; returned 0 left

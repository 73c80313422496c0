-- ===== src/Dlfcn/Memory/Session.antt =====
-- A client of kwai_dlfcn.cpp: its calls over handles as values, and over pointers and memory.
use xapm.Base.{
  ℕ, List, [], ◌∷◌, Option, none, some, Result, ok, fault, bad_read, ◌>>=◌, get_elem?, set,
}
use xapm.Elf.Wrapper.{Resources}
use xapm.Dlfcn.{Linker, DlFcn, Handle, SoDlInfo, dlopen, dlsym, dlclose, dlopen_elf, dlsym_elf}
use xapm.Dlfcn.Memory.{
  Objects, Pointer, Allocator, dlopen_in, dlsym_in, dlclose_in, dlopen_elf_in, dlsym_elf_in,
  dlclose_elf,
}
use xapm.Dlfcn.Memory.Represents.{Value, handle, elf_handle, closed}

-- A call. A handle is named by its place among those that were opened, the latest first.
pub data DlCall : Type 0 where
  call_dlopen : (lib_name : List ℕ) (flags : ℕ) → DlCall
  call_dlsym : (i : ℕ) (name : List ℕ) → DlCall
  call_dlclose : (i : ℕ) → DlCall
  call_dlopen_elf : (lib_name : List ℕ) (flags : ℕ) → DlCall
  call_dlsym_elf : (i : ℕ) (name : List ℕ) → DlCall
  call_dlclose_elf : (i : ℕ) → DlCall

-- The static variables, what the process holds, and what lookups and closes have returned, the latest
-- first.
pub record Client : Type 0 where
  pub dl : DlFcn
  pub held : Resources
  pub answers : List (Option ℕ)

abbrev pub answer : Option ℕ → Client → Client
answer r c = record c { answers = r ∷ c.answers }

abbrev pub handle_of : Option Value → Result (Option Handle)
handle_of none = fault bad_read
handle_of (some (handle h)) = ok h
handle_of (some (elf_handle so)) = fault bad_read
handle_of (some closed) = fault bad_read

abbrev pub so_of : Option Value → Result (Option SoDlInfo)
so_of none = fault bad_read
so_of (some (handle h)) = fault bad_read
so_of (some (elf_handle so)) = ok so
so_of (some closed) = fault bad_read

abbrev pub pointer_of : Option Pointer → Result Pointer
pointer_of none = fault bad_read
pointer_of (some p) = ok p

module _ (linker : Linker) (fuel : ℕ) where
  -- A call where handles are values: one that is closed, or is of the other kind, is refused.
  unfoldable pub value_step : DlCall → Client → List Value → Result (Client × List Value)
  value_step (call_dlopen lib_name flags) c vs = do
    r ← dlopen linker lib_name flags c.dl
    ok (record c { dl = r.0 }, handle r.1 ∷ vs)
  value_step (call_dlsym i name) c vs = do
    h ← handle_of (get_elem? vs i)
    r ← dlsym linker fuel h name c.dl c.held
    ok (answer r.1 (record c { held = r.0 }), vs)
  value_step (call_dlclose i) c vs = do
    h ← handle_of (get_elem? vs i)
    r ← dlclose linker h c.dl
    ok (answer (some r) c, set vs i closed)
  value_step (call_dlopen_elf lib_name flags) c vs = do
    r ← dlopen_elf linker lib_name flags c.dl
    ok (record c { dl = r.0 }, elf_handle r.1 ∷ vs)
  value_step (call_dlsym_elf i name) c vs = do
    so ← so_of (get_elem? vs i)
    r ← dlsym_elf linker fuel so name c.held
    ok (answer r.1 (record c { held = r.0 }), vs)
  value_step (call_dlclose_elf i) c vs = do
    so ← so_of (get_elem? vs i)
    ok (answer (some 0) c, set vs i closed)

  unfoldable pub value_run : List DlCall → Client → List Value → Result (Client × List Value)
  value_run [] c vs = ok (c, vs)
  value_run (d ∷ ds) c vs = do r ← value_step d c vs; value_run ds r.0 r.1

module _ (linker : Linker) (fuel : ℕ) (allocator : Allocator) where
  -- The same call where handles are pointers.
  unfoldable pub memory_step :
      DlCall → Client → List Pointer → Objects → Result (Client × List Pointer × Objects)
  memory_step (call_dlopen lib_name flags) c ps objects = do
    r ← dlopen_in linker allocator lib_name flags c.dl objects
    ok (record c { dl = r.0 }, (r.1.0) ∷ ps, r.1.1)
  memory_step (call_dlsym i name) c ps objects = do
    p ← pointer_of (get_elem? ps i)
    r ← dlsym_in linker fuel p name c.dl c.held objects
    ok (answer r.1 (record c { held = r.0 }), ps, objects)
  memory_step (call_dlclose i) c ps objects = do
    p ← pointer_of (get_elem? ps i)
    r ← dlclose_in linker p c.dl objects
    ok (answer (some r.0) c, ps, r.1)
  memory_step (call_dlopen_elf lib_name flags) c ps objects = do
    r ← dlopen_elf_in linker allocator lib_name flags c.dl objects
    ok (record c { dl = r.0 }, (r.1.0) ∷ ps, r.1.1)
  memory_step (call_dlsym_elf i name) c ps objects = do
    p ← pointer_of (get_elem? ps i)
    r ← dlsym_elf_in linker fuel p name c.held objects
    ok (answer r.1 (record c { held = r.0 }), ps, objects)
  memory_step (call_dlclose_elf i) c ps objects = do
    p ← pointer_of (get_elem? ps i)
    r ← dlclose_elf p objects
    ok (answer (some r.0) c, ps, r.1)

  unfoldable pub memory_run :
      List DlCall → Client → List Pointer → Objects → Result (Client × List Pointer × Objects)
  memory_run [] c ps objects = ok (c, ps, objects)
  memory_run (d ∷ ds) c ps objects = do r ← memory_step d c ps objects; memory_run ds r.0 r.1 r.2

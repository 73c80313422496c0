-- ===== src/Dump.antt =====
-- hprof/hprofdumper/src/main/cpp/hprof_dump.cpp and include/hprof_dump.h: the fork that dumps the
-- heap of a VM that stands still. ART's code, fork and waitpid are parameters.
pub mod Causes
pub mod Balanced
pub mod Missing
pub mod Starts
pub mod Found
pub mod Waits
pub mod Bridge
pub mod Mapped
mod Runs
use xapm.Base.{
  ℕ, zero, suc, ◌%◌, Bool, true, false, ◌||◌, List, [], ◌∷◌, Option, none, some, Result, ok, stuck,
  fault, bad_read, null_call, ◌>>=◌, ◌==◌, ltb, leb, if◌then◌else◌, codes,
}
use xapm.Dlfcn.{Linker, DlFcn, Handle, rtld_now, dlopen, dlsym, dlclose}
use xapm.Dump.Causes.{gc_cause_hprof, gc_cause_value, collector_type_hprof, collector_type_value}
use xapm.Elf.Wrapper.{Resources}

-- What fork and waitpid return.
pub data Forked : Type 0 where
  fork_failed child : Forked
  parent_of : (pid : ℕ) → Forked

pub data WaitResult : Type 0 where
  waited : (status : ℕ) → WaitResult
  wait_failed : (errno : ℕ) → WaitResult

-- The process that the code runs in, with all that it can change in `W`: the code at an address
-- called with arguments, a pointer in memory, the slot TLS_SLOT_ART_THREAD_SELF, the blocks that
-- the two allocations give, and the system calls.
pub record Machine (W : Type 0) : Type 0 where
  pub call_at : ℕ → List ℕ → W → W
  pub read_pointer : ℕ → W → ℕ
  pub thread_self : ℕ
  pub log_tag : ℕ
  pub ssa_block : ℕ
  pub sgc_block : ℕ
  pub fork : W → W × Forked
  pub alarm : ℕ → W → W
  pub set_name : List ℕ → W → W
  pub waitpid : ℕ → W → W × WaitResult

-- `HprofDump`; `none` is nullptr.
pub record HprofDump : Type 0 where
  pub init_done : Bool
  pub android_api : ℕ
  pub ssa_instance : Option ℕ
  pub sgc_instance : Option ℕ
  pub suspend_vm_fnc : Option ℕ
  pub resume_vm_fnc : Option ℕ
  pub ssa_constructor_fnc : Option ℕ
  pub ssa_destructor_fnc : Option ℕ
  pub sgc_constructor_fnc : Option ℕ
  pub sgc_destructor_fnc : Option ℕ
  pub mutator_lock_ptr : Option ℕ
  pub exclusive_lock_fnc : Option ℕ
  pub exclusive_unlock_fnc : Option ℕ

-- The constructor; the object is static, so that its pointers are null.
pub new_hprof_dump : ℕ → HprofDump
new_hprof_dump api_level = record {
  init_done = false;
  android_api = api_level;
  ssa_instance = none;
  sgc_instance = none;
  suspend_vm_fnc = none;
  resume_vm_fnc = none;
  ssa_constructor_fnc = none;
  ssa_destructor_fnc = none;
  sgc_constructor_fnc = none;
  sgc_destructor_fnc = none;
  mutator_lock_ptr = none;
  exclusive_lock_fnc = none;
  exclusive_unlock_fnc = none;
}

abbrev pub eintr : ℕ
eintr = 4

-- The address that a smart pointer has.
abbrev pub get : Option ℕ → ℕ
get none = 0
get (some p) = p

module _ (linker : Linker) (fuel : ℕ) (handle : Option Handle) (s : DlFcn) where
  -- Before Android R.
  pub find_debugger : HprofDump → Resources → Result (HprofDump × Resources)
  unfolding dlsym
  find_debugger d held = do
    suspend ← dlsym linker fuel handle (codes "_ZN3art3Dbg9SuspendVMEv") s held
    resume ← dlsym linker fuel handle (codes "_ZN3art3Dbg8ResumeVMEv") s suspend.0
    ok (record d { suspend_vm_fnc = suspend.1; resume_vm_fnc = resume.1 }, resume.0)

  -- Android R to U.
  pub find_scopes : ℕ → ℕ → HprofDump → Resources → Result (HprofDump × Resources)
  unfolding dlsym
  find_scopes ssa_block sgc_block d held = do
    ssa ← dlsym linker fuel handle (codes "_ZN3art16ScopedSuspendAllC1EPKcb") s held
    ssa_end ← dlsym linker fuel handle (codes "_ZN3art16ScopedSuspendAllD1Ev") s ssa.0
    sgc ←
        dlsym linker fuel handle
          (codes
            "_ZN3art2gc23ScopedGCCriticalSectionC1EPNS_6ThreadENS0_7GcCauseENS0_13CollectorTypeE")
          s ssa_end.0
    sgc_end ← dlsym linker fuel handle (codes "_ZN3art2gc23ScopedGCCriticalSectionD1Ev") s sgc.0
    lock ← dlsym linker fuel handle (codes "_ZN3art5Locks13mutator_lock_E") s sgc_end.0
    take_lock ←
        dlsym linker fuel handle (codes "_ZN3art17ReaderWriterMutex13ExclusiveLockEPNS_6ThreadE") s
          lock.0
    leave_lock ←
        dlsym linker fuel handle (codes "_ZN3art17ReaderWriterMutex15ExclusiveUnlockEPNS_6ThreadE")
          s take_lock.0
    ok (
      record d {
        ssa_instance = some ssa_block;
        sgc_instance = some sgc_block;
        ssa_constructor_fnc = ssa.1;
        ssa_destructor_fnc = ssa_end.1;
        sgc_constructor_fnc = sgc.1;
        sgc_destructor_fnc = sgc_end.1;
        mutator_lock_ptr = lock.1;
        exclusive_lock_fnc = take_lock.1;
        exclusive_unlock_fnc = leave_lock.1;
      },
      leave_lock.0,
    )

  -- The symbols that the API level wants.
  pub find_symbols : ℕ → ℕ → HprofDump → Resources → Result (HprofDump × Resources)
  unfolding find_debugger find_scopes
  find_symbols ssa_block sgc_block d held =
      if ltb d.android_api 30
      then find_debugger d held
      else if leb d.android_api 34
      then find_scopes ssa_block sgc_block d held
      else ok (d, held)

-- `Initialize`, with the static variables of DlFcn and what the process holds.
pub initialize :
    Linker → ℕ → ℕ → ℕ → HprofDump × DlFcn × Resources → Result (HprofDump × DlFcn × Resources)
unfolding dlopen dlclose find_symbols
initialize linker fuel ssa_block sgc_block (d, s, held) =
    if d.init_done || ltb d.android_api 21 then ok (d, s, held) else (do
      opened ← dlopen linker (codes "libart.so") rtld_now s
      found ← find_symbols linker fuel opened.1 opened.0 ssa_block sgc_block d held
      closed ← dlclose linker opened.1 opened.0
      ok (record (found.0) { init_done = true }, opened.0, found.1))

module _ {W : Type 0} (machine : Machine W) where
  -- A call through a function pointer, and `*mutator_lock_ptr_`.
  pub call : Option ℕ → List ℕ → W → Result W
  call none arguments w = fault null_call
  call (some f) arguments w = ok (machine.call_at f arguments w)

  pub deref : Option ℕ → W → Result ℕ
  deref none w = fault bad_read
  deref (some p) w = ok (machine.read_pointer p w)

  -- `SuspendAndFork` up to the fork. The argument of a bool is 1.
  pub suspend_all : HprofDump → W → Result W
  unfolding call deref
  suspend_all d w = do
    let self = machine.thread_self
    w ←
        call d.sgc_constructor_fnc
          (get d.sgc_instance
            ∷ self
            ∷ gc_cause_value gc_cause_hprof
            ∷ collector_type_value collector_type_hprof
            ∷ [])
          w
    w ← call d.ssa_constructor_fnc (get d.ssa_instance ∷ machine.log_tag ∷ 1 ∷ []) w
    lock ← deref d.mutator_lock_ptr w
    w ← call d.exclusive_unlock_fnc (lock ∷ self ∷ []) w
    call d.sgc_destructor_fnc (get d.sgc_instance ∷ []) w

  pub suspend : HprofDump → W → Result W
  unfolding call suspend_all
  suspend d w =
      if ltb d.android_api 30
      then call d.suspend_vm_fnc [] w
      else if leb d.android_api 34
      then suspend_all d w
      else ok w

  -- The child sets its timeout and its name.
  pub after_fork : W × Forked → W × Forked
  after_fork (w, fork_failed) = (w, fork_failed)
  after_fork (w, parent_of pid) = (w, parent_of pid)
  after_fork (w, child) =
      (machine.set_name (codes "forked-dump-process") (machine.alarm 60 w), child)

  -- `SuspendAndFork`.
  pub suspend_and_fork : HprofDump → W → Result (W × Forked)
  unfolding suspend after_fork
  suspend_and_fork d w = do w ← suspend d w; ok (after_fork (machine.fork w))

  -- `ResumeAndWait` up to the loop.
  pub resume_all : HprofDump → W → Result W
  unfolding call deref
  resume_all d w = do
    lock ← deref d.mutator_lock_ptr w
    w ← call d.exclusive_lock_fnc (lock ∷ machine.thread_self ∷ []) w
    call d.ssa_destructor_fnc (get d.ssa_instance ∷ []) w

  pub resume : HprofDump → W → Result W
  unfolding call resume_all
  resume d w =
      if ltb d.android_api 30
      then call d.resume_vm_fnc [] w
      else if leb d.android_api 34
      then resume_all d w
      else ok w

  -- `WIFEXITED(status)`.
  abbrev pub has_exited : ℕ → Bool
  has_exited status = status % 128 == 0

  -- The loop around waitpid; the fuel bounds its rounds.
  pub wait_loop : ℕ → ℕ → W → Result (W × Bool)
  wait_loop zero pid w = stuck
  wait_loop (suc fuel) pid w =
      let again = wait_loop fuel pid (machine.waitpid pid w).0 in
      elim (machine.waitpid pid w).1 [
        | waited status ↦ ok ((machine.waitpid pid w).0, has_exited status)
        | wait_failed errno ↦
            if errno == eintr then again else ok ((machine.waitpid pid w).0, false)
      ]

  -- `ResumeAndWait`.
  pub resume_and_wait : ℕ → HprofDump → ℕ → W → Result (W × Bool)
  unfolding resume wait_loop
  resume_and_wait fuel d pid w = do w ← resume d w; wait_loop fuel pid w

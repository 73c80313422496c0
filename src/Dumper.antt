-- ===== src/Dumper.antt =====
-- hprof/hprofclipper/src/main/java/com/kwai/koom/javaoom/hprof/ForkStripHeapDumper.java: the dump that
-- the two native libraries make together. The process that suspends its VM and forks is also the one
-- whose writes are hooked.
pub mod Child
pub mod Parent
mod Runs
use xapm.Base.{
  ℕ, Bool, true, false, not, ◌&&◌, List, Option, some, Result, ok, ◌>>=◌, leb, if◌then◌else◌, codes,
}
use xapm.Strip.State.{HprofStrip}
use xapm.Strip.Kernel.{Kernel}
use xapm.Strip.Install.{Xhook, XhookLaws}
use xapm.Strip.Bridge.{init_strip_dump, hprof_name}
use xapm.Strip.Session.Calls.{WriteCall, open_and_write}
use xapm.Dump.{Machine, HprofDump}
use xapm.Dump.Bridge.{DumpEnd, returns, DumpResult, dumped, fork_dump}

-- A process: its VM and memory, what xhook has done to it, the object of HprofStrip, its descriptors,
-- and `mLoadSuccess`.
pub record Process (V H : Type 0) : Type 0 where
  pub vm : V
  pub hooks : H
  pub strip : HprofStrip
  pub kernel : Kernel
  pub m_load_success : Bool

module _ {V H : Type 0} where
  abbrev pub with_vm : Process V H → V → Process V H
  with_vm p v = record p { vm = v }

  -- ART's functions and the system calls of HprofDump change neither hooks nor files.
  unfoldable pub lift : Machine V → Machine (Process V H)
  lift machine = record {
    call_at = λ f arguments p. with_vm p (machine.call_at f arguments p.vm);
    read_pointer = λ q p. machine.read_pointer q p.vm;
    thread_self = machine.thread_self;
    log_tag = machine.log_tag;
    ssa_block = machine.ssa_block;
    sgc_block = machine.sgc_block;
    fork = λ p. (with_vm p (machine.fork p.vm).0, (machine.fork p.vm).1);
    alarm = λ n p. with_vm p (machine.alarm n p.vm);
    set_name = λ name p. with_vm p (machine.set_name name p.vm);
    waitpid = λ pid p. (with_vm p (machine.waitpid pid p.vm).0, (machine.waitpid pid p.vm).1);
  }

  module _ (x : Xhook H) (laws : XhookLaws x) where
    -- What is relied on of `Debug.dumpHprofData`: a library of ART's, at `opener`, opens the path and
    -- gets `fd`, and the process makes the calls `cs` of `write` then; there is no IOException.
    unfoldable pub dump_hprof_data :
        ℕ → List ℕ → List ℕ → List WriteCall → Process V H → Result (Process V H × DumpResult)
    unfolding open_and_write
    dump_hprof_data fd opener path cs p = do
      r ← open_and_write (laws.routes p.hooks) fd opener path cs p.strip p.kernel
      ok (record p { strip = r.0; kernel = r.1 }, dumped)

    -- `init`.
    unfoldable pub load_hprofclipper : Process V H → Process V H
    unfolding init_strip_dump
    load_hprofclipper p =
        if p.m_load_success
        then p
        else record p { hooks = init_strip_dump x p.hooks; m_load_success = true }

    -- `dump`; the characters of the path are not null.
    unfoldable pub strip_dump :
        Machine V
        → HprofDump
        → ℕ
        → ℕ
        → ℕ
        → List ℕ
        → List ℕ
        → List WriteCall
        → Process V H
        → Result (Process V H × DumpEnd)
    unfolding load_hprofclipper hprof_name fork_dump dump_hprof_data lift
    strip_dump machine d fuel sdk_int fd opener path cs p =
        if not (leb 21 sdk_int && leb sdk_int 34) then ok (p, returns false) else (do
          named ← hprof_name (some path) p.strip
          fork_dump (lift machine) d (dump_hprof_data fd opener path cs) fuel
              (record (load_hprofclipper p) { strip = named }))

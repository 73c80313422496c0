-- ===== src/Dump/Bridge.antt =====
-- hprof/hprofdumper/src/main/cpp/native_bridge.cpp, and `dump` of ForkJvmHeapDumper.java, which calls
-- it: one dump from the suspension to the end of the child or the parent.
use xapm.Base.{
  ℕ, ◌-◌, ◌<◌, ◌≡◌, refl, ap, ◌∙◌, Bool, false, ◌&&◌, Result, ok, fault, stuck, ◌>>=◌, ltb, ◌==◌,
  if◌then◌else◌, if_true, if_false, int_max, u32_mod, arith, codes,
}
use xapm.Dlfcn.{Linker, DlFcn}
use xapm.Elf.Wrapper.{Resources}
use xapm.Dump.{
  Forked, fork_failed, child, parent_of, Machine, HprofDump, initialize, suspend, after_fork,
  suspend_and_fork, resume, wait_loop, resume_and_wait,
}
use xapm.Dump.Balanced.{ArtLaws, suspend-resume}

-- A `pid_t` as a `jint`, by its 32 bits.
pub jint_of : Forked → ℕ
jint_of fork_failed = u32_mod - 1
jint_of child = 0
jint_of (parent_of pid) = pid

-- `nativeInit`.
pub native_init :
    Linker → ℕ → ℕ → ℕ → HprofDump × DlFcn × Resources → Result (HprofDump × DlFcn × Resources)
native_init linker fuel ssa_block sgc_block s = initialize linker fuel ssa_block sgc_block s

-- How a call of `dump` ends: the process exits with a status, or the call returns.
pub data DumpEnd : Type 0 where
  exits : (status : ℕ) → DumpEnd
  returns : (dump_res : Bool) → DumpEnd

-- `exitProcess`.
pub exit_process : DumpEnd
exit_process = exits 0

-- What `Debug.dumpHprofData` does.
pub data DumpResult : Type 0 where
  dumped io_exception : DumpResult

module _ {W : Type 0} (machine : Machine W) (d : HprofDump) where
  -- `suspendAndFork`, and `resumeAndWait`.
  pub native_suspend_and_fork : W → Result (W × ℕ)
  unfolding jint_of
  native_suspend_and_fork w = do r ← suspend_and_fork machine d w; ok (r.0, jint_of r.1)

  pub native_resume_and_wait : ℕ → ℕ → W → Result (W × Bool)
  native_resume_and_wait fuel pid w = resume_and_wait machine fuel d pid w

  module _ (dump_hprof_data : W → Result (W × DumpResult)) (fuel : ℕ) where
    -- The child, once the heap is written; an IOException is caught, and `dump` goes on.
    pub in_child : W × DumpResult → Result (W × DumpEnd)
    unfolding exit_process
    in_child (w, dumped) = ok (w, exit_process)
    in_child (w, io_exception) = ok (w, returns false)

    -- `ForkJvmHeapDumper.dump` once `suspendAndFork` has returned, and from it on.
    pub after_suspend_and_fork : W × ℕ → Result (W × DumpEnd)
    unfolding native_resume_and_wait in_child
    after_suspend_and_fork (w, pid) =
        if pid == 0
        then dump_hprof_data w >>= in_child
        else if ltb 0 pid && ltb pid int_max
        then (do dump_res ← native_resume_and_wait fuel pid w; ok (dump_res.0, returns dump_res.1))
        else ok (w, returns false)

    unfoldable pub fork_dump : W → Result (W × DumpEnd)
    unfolding native_suspend_and_fork after_suspend_and_fork
    fork_dump w = do pid ← native_suspend_and_fork w; after_suspend_and_fork pid

    abbrev ended : W × Bool → Result (W × DumpEnd)
    ended r = ok (r.0, returns r.1)

    abbrev forked_from : W → Result (W × Forked)
    forked_from v = ok (after_fork machine (machine.fork v))

    abbrev to_jint : W × Forked → Result (W × ℕ)
    to_jint r = ok (r.0, jint_of r.1)

    -- How the child is to end: with status 0 where the heap is written, and as a second copy of the
    -- caller where an IOException is thrown.
    abbrev pub child_end : W × DumpResult → Result (W × DumpEnd)
    child_end (w, dumped) = ok (w, exits 0)
    child_end (w, io_exception) = ok (w, returns false)

    -- What `dump` comes to from `w`, where the VM is suspended in `v`. The child has a minute, and a
    -- name of its own, before the heap is written.
    abbrev pub dump_end : W → W → Forked → Result (W × DumpEnd)
    dump_end w v fork_failed = ok (v, returns false)
    dump_end w v child =
        dump_hprof_data (machine.set_name (codes "forked-dump-process") (machine.alarm 60 v))
        >>= child_end
    dump_end w v (parent_of pid) =
        wait_loop machine fuel pid w >>= λ (r : W × Bool). ok (r.0, returns r.1)

    -- A pid is a positive int.
    abbrev pub IsPid : Forked → Type 0
    IsPid fork_failed = Unit {0}
    IsPid child = Unit {0}
    IsPid (parent_of pid) = (0 < pid) × (pid < int_max)

    in_child-child_end : (r : Result (W × DumpResult)) → r >>= in_child ≡ r >>= child_end
    unfolding in_child exit_process
    in_child-child_end (ok (w, dumped)) = refl
    in_child-child_end (ok (w, io_exception)) = refl
    in_child-child_end (fault f) = refl
    in_child-child_end stuck = refl

    by_fork :
        (w v : W) (forked : Forked)
        → IsPid forked
        → resume machine d v ≡ ok w
        → after_suspend_and_fork ((after_fork machine (v, forked)).0, jint_of forked)
          ≡ dump_end w v forked
    unfolding after_fork jint_of after_suspend_and_fork native_resume_and_wait resume_and_wait
    by_fork w v fork_failed is_pid e = refl
    by_fork w v child is_pid e =
        in_child-child_end
          (dump_hprof_data (machine.set_name (codes "forked-dump-process") (machine.alarm 60 v)))
    by_fork w v (parent_of pid) (positive, small) e =
        if_false _ _ {b = pid == 0} (ground arith)
        ∙ (if_true _ _ {b = ltb 0 pid && ltb pid int_max} (ground arith)
            ∙ ap (λ (r : Result W). r >>= (λ (u : W). wait_loop machine fuel pid u) >>= ended) e)

    same_fork :
        (v : W) (forked : Forked) → jint_of (after_fork machine (v, forked)).1 ≡ jint_of forked
    unfolding after_fork
    same_fork v fork_failed = refl
    same_fork v child = refl
    same_fork v (parent_of pid) = refl

    -- `dump` up to the fork, where the VM is suspended in `v`.
    pub fork_dump-suspended :
        (w v : W) (forked : Forked)
        → suspend machine d w ≡ ok v
        → ◌≡◌ {A = W × Forked} (machine.fork v) (v, forked)
        → fork_dump w ≡ after_suspend_and_fork ((after_fork machine (v, forked)).0, jint_of forked)
    unfolding fork_dump native_suspend_and_fork suspend_and_fork
    fork_dump-suspended w v forked s forks =
        ap (λ (t : Result W). t >>= forked_from >>= to_jint >>= after_suspend_and_fork) s
        ∙ (ap (λ (t : W × Forked). to_jint (after_fork machine t) >>= after_suspend_and_fork) forks
            ∙ ap (λ (p : ℕ). after_suspend_and_fork ((after_fork machine (v, forked)).0, p))
                (same_fork v forked))

    -- The child, where the heap is written without an exception.
    pub fork_dump-child :
        (w v u : W)
        → suspend machine d w ≡ ok v
        → ◌≡◌ {A = W × Forked} (machine.fork v) (v, child)
        → ◌≡◌ {A = Result (W × DumpResult)}
            (dump_hprof_data (machine.set_name (codes "forked-dump-process") (machine.alarm 60 v)))
            (ok (u, dumped))
        → ◌≡◌ {A = Result (W × DumpEnd)} (fork_dump w) (ok (u, exits 0))
    unfolding after_fork jint_of after_suspend_and_fork in_child exit_process
    fork_dump-child w v u s forks e =
        fork_dump-suspended w v child s forks
        ∙ ap (λ (r : Result (W × DumpResult)). r >>= in_child) e

    pub fork_dump-dump_end :
        (w : W) (forked : Forked)
        → ArtLaws machine d
        → ((v : W) → ◌≡◌ {A = W × Forked} (machine.fork v) (v, forked))
        → IsPid forked
        → (v : W) × (suspend machine d w ≡ ok v)
          × (resume machine d v ≡ ok w)
          × (fork_dump w ≡ dump_end w v forked)
    fork_dump-dump_end w forked laws forks is_pid =
        let (v, s, r) = suspend-resume machine d w laws in
        (v, s, r, fork_dump-suspended w v forked s (forks v) ∙ by_fork w v forked is_pid r)

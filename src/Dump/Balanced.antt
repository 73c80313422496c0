-- ===== src/Dump/Balanced.antt =====
-- That `ResumeAndWait` of hprof_dump.cpp undoes what `SuspendAndFork` did to the VM.
use xapm.Base.{
  ℕ, ◌<◌, ◌≤◌, ◌≡◌, ap, ◌∙◌, List, [], ◌∷◌, Option, some, Result, ok, ◌>>=◌, ltb, leb, if_true,
  if_false, arith,
}
use xapm.Dump.{
  Forked, parent_of, Machine, HprofDump, get, call, deref, suspend_all, suspend, after_fork,
  suspend_and_fork, resume_all, resume, wait_loop, resume_and_wait,
}
use xapm.Dump.Causes.{gc_cause_hprof, gc_cause_value, collector_type_hprof, collector_type_value}

module _ {W : Type 0} (machine : Machine W) (d : HprofDump) where
  -- What is relied on of art::Dbg: ResumeVM ends what SuspendVM began.
  pub record DebuggerLaws : Type 0 where
    pub suspend_vm : ℕ
    pub resume_vm : ℕ
    pub is_suspend_vm : d.suspend_vm_fnc ≡ some suspend_vm
    pub is_resume_vm : d.resume_vm_fnc ≡ some resume_vm
    pub resume_undoes : (w : W) → machine.call_at resume_vm [] (machine.call_at suspend_vm [] w) ≡ w

  -- The calls of ART's scopes, at the addresses of the functions.
  abbrev pub start_gc : ℕ → W → W
  start_gc f w =
      machine.call_at f
        (get d.sgc_instance
          ∷ machine.thread_self
          ∷ gc_cause_value gc_cause_hprof
          ∷ collector_type_value collector_type_hprof
          ∷ [])
        w

  abbrev pub end_gc : ℕ → W → W
  end_gc f w = machine.call_at f (get d.sgc_instance ∷ []) w

  abbrev pub start_suspend : ℕ → W → W
  start_suspend f w = machine.call_at f (get d.ssa_instance ∷ machine.log_tag ∷ 1 ∷ []) w

  abbrev pub end_suspend : ℕ → W → W
  end_suspend f w = machine.call_at f (get d.ssa_instance ∷ []) w

  abbrev pub on_lock : ℕ → ℕ → W → W
  on_lock f lock w = machine.call_at f (lock ∷ machine.thread_self ∷ []) w

  -- What is relied on of ART's scopes. The lock's pointer stays as it is; a GC section ends by its
  -- destructor and has nothing to do with the suspension and its lock; the lock that a suspension
  -- holds can be left and taken again; a suspension ends by its destructor.
  pub record ScopeLaws : Type 0 where
    pub ssa : ℕ
    pub ssa_end : ℕ
    pub sgc : ℕ
    pub sgc_end : ℕ
    pub lock_ptr : ℕ
    pub take_lock : ℕ
    pub leave_lock : ℕ
    pub lock : ℕ
    pub is_ssa : d.ssa_constructor_fnc ≡ some ssa
    pub is_ssa_end : d.ssa_destructor_fnc ≡ some ssa_end
    pub is_sgc : d.sgc_constructor_fnc ≡ some sgc
    pub is_sgc_end : d.sgc_destructor_fnc ≡ some sgc_end
    pub is_lock_ptr : d.mutator_lock_ptr ≡ some lock_ptr
    pub is_take_lock : d.exclusive_lock_fnc ≡ some take_lock
    pub is_leave_lock : d.exclusive_unlock_fnc ≡ some leave_lock
    pub lock_stays : (w : W) → machine.read_pointer lock_ptr w ≡ lock
    pub gc_ends : (w : W) → end_gc sgc_end (start_gc sgc w) ≡ w
    pub gc_beside_suspension :
        (w : W) → end_gc sgc_end (start_suspend ssa w) ≡ start_suspend ssa (end_gc sgc_end w)
    pub gc_beside_lock :
        (w : W)
        → end_gc sgc_end (on_lock leave_lock lock w) ≡ on_lock leave_lock lock (end_gc sgc_end w)
    pub lock_taken_again :
        (w : W)
        → on_lock take_lock lock (on_lock leave_lock lock (start_suspend ssa w))
          ≡ start_suspend ssa w
    pub suspension_ends : (w : W) → end_suspend ssa_end (start_suspend ssa w) ≡ w

  -- The functions that the API level wants are found and behave.
  pub data ArtLaws : Type 0 where
    by_debugger : d.android_api < 30 → DebuggerLaws → ArtLaws
    by_scopes : 30 ≤ d.android_api → d.android_api ≤ 34 → ScopeLaws → ArtLaws
    not_suspended : 34 < d.android_api → ArtLaws

  call_some :
      (f : Option ℕ) (g : ℕ) (arguments : List ℕ) (w : W)
      → f ≡ some g
      → call machine f arguments w ≡ ok (machine.call_at g arguments w)
  unfolding call
  call_some f g arguments w e = ap (λ f. call machine f arguments w) e

  call-next :
      (f : Option ℕ) (g : ℕ) (arguments : List ℕ) (w : W) (next : W → Result W) (r : Result W)
      → f ≡ some g
      → next (machine.call_at g arguments w) ≡ r
      → (call machine f arguments w >>= next) ≡ r
  call-next f g arguments w next r e k = ap (λ c. c >>= next) (call_some f g arguments w e) ∙ k

  deref-next :
      (f : Option ℕ) (p : ℕ) (w : W) (next : ℕ → Result W) (r : Result W)
      → f ≡ some p
      → next (machine.read_pointer p w) ≡ r
      → (deref machine f w >>= next) ≡ r
  unfolding deref
  deref-next f p w next r e k = ap (λ c. deref machine c w >>= next) e ∙ k

  -- The VM stands still, but for the lock.
  abbrev stopped : ScopeLaws → W → W
  stopped l w = on_lock l.leave_lock l.lock (start_suspend l.ssa w)

  suspend_all-stopped : (l : ScopeLaws) (w : W) → suspend_all machine d w ≡ ok (stopped l w)
  unfolding suspend_all
  suspend_all-stopped l w =
      let w1 = start_gc l.sgc w in
      let w2 = start_suspend l.ssa w1 in
      call-next d.sgc_constructor_fnc l.sgc _ w _ _ l.is_sgc (
        call-next d.ssa_constructor_fnc l.ssa _ w1 _ _ l.is_ssa (
          deref-next d.mutator_lock_ptr l.lock_ptr w2 _ _ l.is_lock_ptr (
            call-next d.exclusive_unlock_fnc l.leave_lock _ w2 _ _ l.is_leave_lock (
              call_some d.sgc_destructor_fnc l.sgc_end _ _ l.is_sgc_end
              ∙ ap ok (
                  ap (λ m. end_gc l.sgc_end (on_lock l.leave_lock m w2)) (l.lock_stays w2)
                  ∙ (l.gc_beside_lock w2
                      ∙ ap (on_lock l.leave_lock l.lock)
                          (l.gc_beside_suspension w1 ∙ ap (start_suspend l.ssa) (l.gc_ends w))))))))

  resume_all-stopped : (l : ScopeLaws) (w : W) → resume_all machine d (stopped l w) ≡ ok w
  unfolding resume_all
  resume_all-stopped l w =
      deref-next d.mutator_lock_ptr l.lock_ptr (stopped l w) _ _ l.is_lock_ptr (
        call-next d.exclusive_lock_fnc l.take_lock _ (stopped l w) _ _ l.is_take_lock (
          call_some d.ssa_destructor_fnc l.ssa_end _ _ l.is_ssa_end
          ∙ ap ok (
              ap (λ m. end_suspend l.ssa_end (on_lock l.take_lock m (stopped l w)))
                (l.lock_stays (stopped l w))
              ∙ (ap (end_suspend l.ssa_end) (l.lock_taken_again w) ∙ l.suspension_ends w))))

  -- `suspend` succeeds, and `resume` takes the VM back from there.
  pub suspend-resume :
      (w : W) → ArtLaws → (v : W) × (suspend machine d w ≡ ok v) × (resume machine d v ≡ ok w)
  unfolding suspend resume
  suspend-resume w (by_debugger n l) =
      let v = machine.call_at l.suspend_vm [] w in
      let before = ltb d.android_api 30 in
      (
        v,
        if_true _ _ {b = before} (ground arith) ∙ call_some _ l.suspend_vm [] w l.is_suspend_vm,
        if_true _ _ {b = before} (ground arith)
            ∙ (call_some _ l.resume_vm [] v l.is_resume_vm ∙ ap ok (l.resume_undoes w)),
      )
  suspend-resume w (by_scopes n m l) = (
    stopped l w,
    if_false _ _ {b = ltb d.android_api 30} (ground arith)
        ∙ (if_true _ _ {b = leb d.android_api 34} (ground arith) ∙ suspend_all-stopped l w),
    if_false _ _ {b = ltb d.android_api 30} (ground arith)
        ∙ (if_true _ _ {b = leb d.android_api 34} (ground arith) ∙ resume_all-stopped l w),
  )
  suspend-resume w (not_suspended n) = (
    w,
    if_false _ _ {b = ltb d.android_api 30} (ground arith)
        ∙ if_false _ _ {b = leb d.android_api 34} (ground arith),
    if_false _ _ {b = ltb d.android_api 30} (ground arith)
        ∙ if_false _ _ {b = leb d.android_api 34} (ground arith),
  )

  -- In the parent, `ResumeAndWait` takes back what `SuspendAndFork` did to the VM. Where the symbols
  -- that the API level wants are found, ART's functions behave as their names say, and fork makes a
  -- child and leaves the parent's memory as it is, `SuspendAndFork` returns the child's pid, and
  -- `ResumeAndWait` for that pid does from there what its loop around waitpid alone does from the
  -- state before `SuspendAndFork`.
  pub resume_and_wait-suspend_and_fork :
      (w : W) (pid fuel : ℕ)
      → ArtLaws
      → ((v : W) → ◌≡◌ {A = W × Forked} (machine.fork v) (v, parent_of pid))
      → (v : W) × (suspend_and_fork machine d w ≡ ok (v, parent_of pid))
        × (resume_and_wait machine fuel d pid v ≡ wait_loop machine fuel pid w)
  unfolding suspend_and_fork resume_and_wait after_fork
  resume_and_wait-suspend_and_fork w pid fuel laws forks =
      let (v, s, r) = suspend-resume w laws in
      (
        v,
        ap (λ c. c >>= (λ u. ok (after_fork machine (machine.fork u)))) s
            ∙ ap (λ f. ok (after_fork machine f)) (forks v),
        ap (λ c. c >>= wait_loop machine fuel pid) r,
      )
